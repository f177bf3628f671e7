-- ===== src/Audit/Listing/Joined.antt =====
-- The join of a page of the audit trail with the users whom it is about.
use gracon_admin_service.Prelude.{
  String, true, none, some, List, [], ◌∷◌, ◌≡◌, inl, inr, refl, sym, ap, ◌∙◌, ◌==◌, eq_iff, eq_refl,
  option_map, Bool-cases, Option-cases, arith,
}
use gracon_admin_service.Prisma.{Prisma}
use gracon_admin_service.Prisma.Search.{Search, Listed}
use gracon_admin_service.Models.{AdminAuditLog, User, Store}
use gracon_admin_service.Listing.{nonempty}
use gracon_admin_service.Audit.Listing.{target_ids, is_in, email_in, target_users}

-- What a map of users knows, it has from a member of the list, and it knows every member.
email_in-Listed :
    (users : List (String × User)) (id e : String)
    → email_in users id ≡ some e
    → (u : User) × Listed id u users × (u.email ≡ e)
unfolding email_in
email_in-Listed [] id e h = absurd (ground (arith, h))
email_in-Listed ((k, u) ∷ users) id e h = elim (Option-cases (email_in users id)) [
  | inl gone ↦ elim (Bool-cases (k == id)) [
    | inl same ↦ (u, inl ((eq_iff k id).0 same, refl), ground (arith, h, gone, same))
    | inr apart ↦ absurd (ground (arith, h, gone, apart))
  ]
  | inr (email, found) ↦
      (let (w, listed, is) = email_in-Listed users id email found in
        let same : email ≡ e = ground (arith, h, found) in (w, inr listed, is ∙ same))
]

email_in-none :
    (users : List (String × User)) (id : String) (u : User)
    → email_in users id ≡ none
    → ¬ Listed id u users
unfolding email_in
email_in-none [] id u h m = m
email_in-none ((k, v) ∷ users) id u h m = elim (Option-cases (email_in users id)) [
  | inl gone ↦ elim m [
    | inl (same, is) ↦ (let here = (eq_iff k id).1 same in ground (arith, h, gone, here))
    | inr deeper ↦ email_in-none users id u gone deeper
  ]
  | inr (e, found) ↦ absurd (ground (arith, h, found))
]

target-is_in :
    (logs : List (String × AdminAuditLog)) (k id : String) (entry : AdminAuditLog)
    → Listed k entry logs
    → nonempty entry.target_user_id ≡ some id
    → is_in (target_ids logs) id ≡ true
unfolding target_ids
target-is_in [] k id entry m e = elim m [ ]
target-is_in ((j, x) ∷ logs) k id entry (inl (same, is)) e =
    let here : nonempty x.target_user_id ≡ some id =
      ap (λ (y : AdminAuditLog). nonempty y.target_user_id) is ∙ e in
    let self = eq_refl id in ground (arith, self, here)
target-is_in ((j, x) ∷ logs) k id entry (inr m) e =
    let rest = target-is_in logs k id entry m e in
    elim (Option-cases (nonempty x.target_user_id)) [
      | inl none_here ↦ ground (arith, rest, none_here)
      | inr (t, here) ↦ ground (arith, rest, here)
    ]

module _ ⦃P : Prisma⦄ ⦃Q : Search⦄ where
  -- The one query that fetches all target users of a page gives every entry the email that a lookup
  -- of its own target would give: that of the stored user, and nothing if there is none.
  pub target_users_joined :
      (logs : List (String × AdminAuditLog)) (k id : String) (entry : AdminAuditLog) (s : Store)
      → Listed k entry logs
      → nonempty entry.target_user_id ≡ some id
      → email_in (target_users logs s) id
        ≡ option_map (λ (u : User). u.email) (P.find_unique id s.users)
  target_users_joined logs k id entry s m e =
      let wanted = target-is_in logs k id entry m e in
      let at =
        Q.select_iff (λ j _. is_in (target_ids logs) j) (λ _ (u : User). u.created_at) 0 0 s.users
          id in
      elim (Option-cases (P.find_unique id s.users)) [
        | inl missing ↦ elim (Option-cases (email_in (target_users logs s) id)) [
          | inl gone ↦ rw (missing, gone) refl
          | inr (email, found) ↦
              (let (u, listed, same) = email_in-Listed (target_users logs s) id email found in
                let stored = ((at u).0 listed).0 in absurd (ground (arith, stored, missing)))
        ]
        | inr (v, stored) ↦ elim (Option-cases (email_in (target_users logs s) id)) [
          | inl gone ↦
              absurd (email_in-none (target_users logs s) id v gone ((at v).1 (stored, wanted)))
          | inr (email, found) ↦
              (let (u, listed, same) = email_in-Listed (target_users logs s) id email found in
                let again = ((at u).0 listed).0 in
                let it : u ≡ v = ground (arith, again, stored) in
                rw (found, stored) (ap some (sym same ∙ ap (λ (x : User). x.email) it)))
        ]
      ]
