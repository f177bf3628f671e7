-- ===== src/Verifications.antt =====
-- src/modules/verifications/admin-verifications.service.ts: the attempts at verification, which
-- other services write.
pub mod Selected
use gracon_admin_service.Prelude.{
  ℕ, String, Bool, false, ◌&&◌, Option, none, some, [], ◌∷◌, map, ◌==◌, if◌then◌else◌, or_else,
  option_map, template,
}
use gracon_admin_service.Prisma.{Prisma, query_failed}
use gracon_admin_service.Prisma.Search.{Search, find_many}
use gracon_admin_service.Http.{Handler, not_found, database, pure, gets, require, ◌>>=◌}
use gracon_admin_service.Models.{User, CitizenIdentity, Store}
use gracon_admin_service.Listing.{
  Paginated, unless_asked, equals, is_flag, nonempty, within, pagination_of,
}
use gracon_admin_service.Users.Listing.{identity_of}
use gracon_admin_service.Maintenance.{skip_of}

-- Floating-point scores: their order, `parseFloat((score * weight / 100).toFixed(2))` for a weight
-- in hundredths, and the numbers that the code writes out.
pub record Scores : Type 1 where
  pub Score : Type 0
  pub score_leb : Score → Score → Bool
  pub weigh : ℕ → Score → Score
  pub literal : ℕ → Score

module _ (F : Scores) where
  pub record IdVerification : Type 0 where
    pub user_id : String
    pub attempt_number : ℕ
    pub document_match : Bool
    pub face_score : F.Score
    pub liveness_score : F.Score
    pub composite_score : F.Score
    pub passed : Bool
    pub fail_reason : Option String
    pub ip_address : Option String
    pub created_at : ℕ

  abbrev pub attempted : String → IdVerification → ℕ
  attempted _ v = v.created_at

  pub record QueryVerificationsDto : Type 0 where
    pub passed : Option Bool
    pub user_id : Option String
    pub ip_address : Option String
    pub created_from : Option ℕ
    pub created_to : Option ℕ
    pub score_min : Option F.Score
    pub score_max : Option F.Score
    pub page : Option ℕ
    pub limit : Option ℕ

  pub record VerificationListItem : Type 0 where
    pub id : String
    pub user_email : String
    pub user_name : String
    pub attempt : IdVerification

  pub record ScoreBreakdown : Type 0 where
    pub face_weighted : F.Score
    pub liveness_weighted : F.Score
    pub document_weighted : F.Score
    pub composite : F.Score
    pub threshold : F.Score
    pub passed : Bool

  pub record VerificationDetail : Type 0 where
    pub item : VerificationListItem
    pub score_breakdown : ScoreBreakdown
    pub is_active : Bool
    pub is_id_verified : Bool

  -- The `where` of the query; `has_part` is the database's search for a part of a text.
  unfoldable pub verification_where :
      (String → String → Bool) → QueryVerificationsDto → String → IdVerification → Bool
  verification_where has_part dto _ v =
      is_flag dto.passed v.passed
      && equals dto.user_id v.user_id
      && unless_asked (nonempty dto.ip_address)
          (λ part. or_else (option_map (λ ip. has_part ip part) v.ip_address) false)
      && within dto.created_from dto.created_to v.created_at
      && unless_asked dto.score_min (λ low. F.score_leb low v.composite_score)
      && unless_asked dto.score_max (λ high. F.score_leb v.composite_score high)

abbrev joined_by_space : String → String → String
joined_by_space first last =
    if first == "" then last else if last == "" then first else template (first ∷ " " ∷ last ∷ [])

-- `[postNames, surName].filter(Boolean).join(' ') || email`
unfoldable pub verification_user_name : Option CitizenIdentity → String → String
verification_user_name none email = email
verification_user_name (some i) email =
    let composed = joined_by_space i.post_names i.sur_name in
    if composed == "" then email else composed

module _ (F : Scores) ⦃P : Prisma⦄ where
  abbrev item_of : Store → User → String × IdVerification F → VerificationListItem F
  item_of s u (id, v) = record {
    id = id;
    user_email = u.email;
    user_name = verification_user_name (identity_of s v.user_id) u.email;
    attempt = v;
  }

  -- An attempt always has its user; the line of one that had none is not defined.
  abbrev pub line_of : Store → String × IdVerification F → Option (VerificationListItem F)
  line_of s (id, v) = option_map (λ u. item_of s u (id, v)) (P.find_unique v.user_id s.users)

  abbrev breakdown_of : IdVerification F → ScoreBreakdown F
  breakdown_of v = record {
    face_weighted = F.weigh 50 v.face_score;
    liveness_weighted = F.weigh 30 v.liveness_score;
    document_weighted = if v.document_match then F.literal 20 else F.literal 0;
    composite = v.composite_score;
    threshold = F.literal 80;
    passed = v.passed;
  }

  unfoldable pub get_verification_detail :
      P.Table (IdVerification F) → String → Handler Store (VerificationDetail F)
  get_verification_detail attempts id = do
    v ←
        require (P.find_unique id attempts)
          (not_found (template ("Verification attempt with ID \"" ∷ id ∷ "\" not found." ∷ [])))
    owner ← gets (λ s. P.find_unique v.user_id s.users)
    u ← require owner (database query_failed)
    item ← gets (λ s. item_of s u (id, v))
    pure (record {
      item = item;
      score_breakdown = breakdown_of v;
      is_active = u.is_active;
      is_id_verified = u.is_id_verified;
    })

module _ (F : Scores) ⦃P : Prisma⦄ ⦃Q : Search⦄ where
  unfoldable pub list_verifications :
      (String → String → Bool)
      → P.Table (IdVerification F)
      → QueryVerificationsDto F
      → Store
      → Paginated (Option (VerificationListItem F))
  list_verifications has_part attempts dto s =
      let page = or_else dto.page 1 in
      let limit = or_else dto.limit 20 in
      record {
        data_rows = map (line_of F s) (
            find_many (verification_where F has_part dto) (attempted F) (skip_of page limit) limit
              attempts);
        pagination =
            pagination_of page limit (P.count (verification_where F has_part dto) attempts);
      }
