-- ===== src/Verifications/Selected.antt =====
-- Which attempts the listing selects.
use gracon_admin_service.Prelude.{
  ℕ, ◌≤◌, ◌↔◌, String, Bool, true, false, some, ◌≡◌, ◌≢◌, or_else, option_map,
}
use gracon_admin_service.Prisma.{Prisma}
use gracon_admin_service.Prisma.Search.{Search, Listed}
use gracon_admin_service.Listing.Rows.{
  is_flag_iff, equals_iff, within_iff, searched_iff, unless_asked_iff, all_six, all_of,
}
use gracon_admin_service.Verifications.{
  Scores, IdVerification, QueryVerificationsDto, verification_where, attempted,
}

module _ (F : Scores) where
  -- What a query asks of an attempt: each filter that is given.
  pub record Asked (has_part : String → String → Bool) (dto : QueryVerificationsDto F)
      (v : IdVerification F) : Type 0 where
    pub outcome : (b : Bool) → dto.passed ≡ some b → v.passed ≡ b
    pub user : (u : String) → dto.user_id ≡ some u → u ≢ "" → v.user_id ≡ u
    pub address :
        (part : String)
        → dto.ip_address ≡ some part
        → part ≢ ""
        → or_else (option_map (λ ip. has_part ip part) v.ip_address) false ≡ true
    pub from : (f : ℕ) → dto.created_from ≡ some f → f ≤ v.created_at
    pub to : (t : ℕ) → dto.created_to ≡ some t → v.created_at ≤ t
    pub low : (l : F.Score) → dto.score_min ≡ some l → F.score_leb l v.composite_score ≡ true
    pub high : (h : F.Score) → dto.score_max ≡ some h → F.score_leb v.composite_score h ≡ true

  verification_where-Asked :
      (has_part : String → String → Bool) (dto : QueryVerificationsDto F) (id : String)
      (v : IdVerification F)
      → (verification_where F has_part dto id v ≡ true) ↔ Asked has_part dto v
  unfolding verification_where
  verification_where-Asked has_part dto id v =
      let outcome = is_flag_iff dto.passed v.passed in
      let user = equals_iff dto.user_id v.user_id in
      let address =
        searched_iff dto.ip_address
          (λ part. or_else (option_map (λ ip. has_part ip part) v.ip_address) false) in
      let dates = within_iff dto.created_from dto.created_to v.created_at in
      let low = unless_asked_iff dto.score_min (λ l. F.score_leb l v.composite_score) in
      let high = unless_asked_iff dto.score_max (λ h. F.score_leb v.composite_score h) in
      (
        λ h.
            (let (o, u, a, d, l, g) = all_six h in
              record {
                outcome = outcome.0 o;
                user = user.0 u;
                address = address.0 a;
                from = (dates.0 d).0;
                to = (dates.0 d).1;
                low = low.0 l;
                high = high.0 g;
              }),
        λ w.
            all_of (outcome.1 w.outcome) (user.1 w.user) (address.1 w.address)
              (dates.1 (w.from, w.to)) (low.1 w.low) (high.1 w.high),
      )

module _ (F : Scores) ⦃P : Prisma⦄ ⦃Q : Search⦄ where
  -- The database selects for a query the attempts that are stored and meet each filter that is given.
  pub verification_where_selects :
      (has_part : String → String → Bool) (attempts : P.Table (IdVerification F))
      (dto : QueryVerificationsDto F) (skip limit : ℕ) (id : String) (v : IdVerification F)
      → Listed id v (Q.select (verification_where F has_part dto) (attempted F) skip limit attempts)
        ↔ ((P.find_unique id attempts ≡ some v) × Asked F has_part dto v)
  unfolding verification_where
  verification_where_selects has_part attempts dto skip limit id v =
      let at =
        Q.select_iff (verification_where F has_part dto) (attempted F) skip limit attempts id v in
      let asked = verification_where-Asked F has_part dto id v in
      (λ m. ((at.0 m).0, asked.0 (at.0 m).1), λ w. at.1 (w.0, asked.1 w.1))
