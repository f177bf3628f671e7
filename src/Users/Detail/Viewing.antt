-- ===== src/Users/Detail/Viewing.antt =====
-- A user's page hides the identifiers, and its reading is recorded.
use gracon_admin_service.Prelude.{
  ℕ, ◌≤◌, ◌<◌, ◌-◌, ◌↔◌, List, [], ◌∷◌, ◌++◌, Char, chars, chars-of_chars, repeat, drop, leb,
  length-drop, not, ◌&&◌, String, true, Option, none, some, ◌≡◌, ◌⊎◌, inl, inr, refl, ◌==◌, length,
  take, map, length-take, length-map, ltb, Bool-cases, Option-cases, arith,
}
use gracon_admin_service.Prisma.{Prisma}
use gracon_admin_service.Prisma.Search.{Search}
use gracon_admin_service.Http.{ok, throw, ◌>>=◌}
use gracon_admin_service.Models.{AdminRole, User, user_detail_viewed, text, Store}
use gracon_admin_service.Access.{role_text}
use gracon_admin_service.Audit.{log, log_lem, Audited, log-Audited}
use gracon_admin_service.Crypto.{Cipher, decrypt, mask_value}
use gracon_admin_service.Users.{Actor, broken_cipher}
use gracon_admin_service.Users.Listing.{identity_of}
use gracon_admin_service.Users.Detail.{
  AdminUserDetail, open_session, masked, viewed_entry, session_item, opened, latest_sessions,
  encrypted_nid, encrypted_pid, page_of, get_user_detail,
}

-- A dash, or dots before at most four characters.
abbrev pub IsMasked : String → Type 0
IsMasked shown =
    (shown ≡ "—")
    ⊎ ((dots : ℕ) × (tail : List Char) × (chars shown ≡ repeat dots (chars "•") ++ tail)
        × (length tail ≤ 4))

mask_value-IsMasked : (plain : String) → IsMasked (mask_value plain 4)
unfolding mask_value
mask_value-IsMasked plain = elim (Bool-cases (leb (length (chars plain)) 4)) [
  | inl short ↦ rw short (inr (0, chars plain, refl, ground (arith, short)))
  | inr long ↦
      let hidden = length (chars plain) - 4 in
      rw long (
        inr (
          hidden,
          drop hidden (chars plain),
          chars-of_chars (repeat hidden (chars "•") ++ drop hidden (chars plain)),
          (let cut = length-drop hidden (chars plain) in omega (arith, cut)),
        ))
]

masked-IsMasked : (raw : Option String) → IsMasked (masked raw)
unfolding masked
masked-IsMasked none = inl refl
masked-IsMasked (some plain) = elim (Bool-cases (plain == "")) [
  | inl empty ↦ rw empty (inl refl)
  | inr full ↦ rw full (mask_value-IsMasked plain)
]

ltb-true : (a b : ℕ) → ltb a b ≡ true → a < b
ltb-true a b h = ground (arith, h)

true-ltb : (a b : ℕ) → a < b → ltb a b ≡ true
true-ltb a b h = ground (arith, h)

module _ ⦃P : Prisma⦄ ⦃Q : Search⦄ (C : Cipher) where
  pub record Viewed (id : String) (by : Actor) (role : AdminRole) (now : ℕ) (d : AdminUserDetail)
      (s s' : Store) : Type 0 where
    pub account : User
    pub stored : P.find_unique id s.users ≡ some account
    pub own : (d.user_id ≡ id) × (d.email ≡ account.email) × (d.is_active ≡ account.is_active)
    pub nid_hidden : IsMasked d.masked_nid
    pub pid_hidden : IsMasked d.masked_pid
    pub few : length d.sessions ≤ 10
    pub flagged : (d.sessions_truncated ≡ true) ↔ (
        10
        < P.count
            (λ _ t. (t.user_id == id) && not t.revoked && ltb now t.expires_at)
            s.refresh_tokens)
    pub audited :
        Audited
          (record {
            admin_id = by.admin_id;
            action = user_detail_viewed;
            target_user_id = some id;
            ip_address = some by.ip_address;
            metadata = ("adminRole", text (role_text role)) ∷ [];
          })
          s.audit_logs
          s'.audit_logs
    pub rest : s' ≡ record s { audit_logs = s'.audit_logs }

  opened_cases :
      (o : Option String) (s : Store)
      → (opened C o s ≡ (throw (broken_cipher C), s))
        ⊎ ((x : Option String) × (opened C o s ≡ (ok x, s)))
  unfolding opened ◌>>=◌
  opened_cases none s = inr (none, refl)
  opened_cases (some c) s = elim (Option-cases (decrypt C c)) [
    | inl e ↦ inl (ground (arith, e))
    | inr (plain, e) ↦ inr (some plain, ground (arith, e))
  ]

  few_by :
      (created : String → ℕ) (id : String) (now : ℕ) (s : Store)
      → length (map (session_item created) (take 10 (latest_sessions C created id now s))) ≤ 10
  few_by created id now s = omega (
    arith,
    length-map (session_item created) (take 10 (latest_sessions C created id now s)),
    length-take 10 (latest_sessions C created id now s),
  )

  flagged_by :
      (created : String → ℕ) (id : String) (now : ℕ) (s : Store)
      → (ltb 10 (length (latest_sessions C created id now s)) ≡ true)
        ↔ (10 < P.count (open_session id now) s.refresh_tokens)
  flagged_by created id now s =
      let all = Q.select (open_session id now) (λ k _. created k) 0 11 s.refresh_tokens in
      let counted =
        Q.length-select (open_session id now) (λ k _. created k) 0 11 s.refresh_tokens in
      let cut = length-take 11 all in
      (
        λ h. omega (arith, counted, cut, ltb-true 10 (length (take 11 all)) h),
        λ h. true-ltb 10 (length (take 11 all)) (omega (arith, counted, cut, h)),
      )

  Viewed-by :
      (created : String → ℕ) (id : String) (by : Actor) (role : AdminRole) (now : ℕ)
      (d : AdminUserDetail) (s s' : Store) (u : User) (nid pid : Option String)
      → P.find_unique id s.users ≡ some u
      → opened C (encrypted_nid C (identity_of s id)) s ≡ (ok nid, s)
      → opened C (encrypted_pid C (P.find_first (λ _ p. p.user_id == id) s.platform_ids)) s
        ≡ (ok pid, s)
      → get_user_detail C created id by role now s ≡ (ok d, s')
      → Viewed id by role now d s s'
  unfolding get_user_detail ◌>>=◌
  Viewed-by created id by role now d s s' u nid pid stored first second h =
      let written = log_lem (viewed_entry by role id) s in
      let page : d ≡ page_of C created id now s u nid pid =
        ground (arith, stored, first, second, written, h) in
      let done : s' ≡ record s { audit_logs = (log (viewed_entry by role id) s).1.audit_logs } =
        ground (arith, stored, first, second, written, h) in
      record {
        account = u;
        stored = stored;
        own = rw page (refl, refl, refl);
        nid_hidden = rw page (masked-IsMasked nid);
        pid_hidden = rw page (masked-IsMasked pid);
        few = rw page (few_by created id now s);
        flagged = rw page (flagged_by created id now s);
        audited = rw done (log-Audited (viewed_entry by role id) s);
        rest = rw done refl;
      }

  -- A user's page is shown only to one who is recorded, with the role, unless the trail's write fails,
  -- and nothing else changes. In the place of each of the two identifiers it shows a dash, or dots
  -- before at most four characters. It shows at most ten sessions, and says that there are more
  -- exactly when the user has more than ten that are neither revoked nor expired.
  pub get_user_detail-Viewed :
      (created : String → ℕ) (id : String) (by : Actor) (role : AdminRole) (now : ℕ)
      (d : AdminUserDetail) (s s' : Store)
      → get_user_detail C created id by role now s ≡ (ok d, s')
      → Viewed id by role now d s s'
  unfolding get_user_detail ◌>>=◌
  get_user_detail-Viewed created id by role now d s s' h =
      elim (Option-cases (P.find_unique id s.users)) [
        | inl missing ↦ absurd (ground (arith, missing, h))
        | inr (u, stored) ↦ elim (opened_cases (encrypted_nid C (identity_of s id)) s) [
          | inl broken ↦ absurd (ground (arith, stored, broken, h))
          | inr (nid, first) ↦
              elim (opened_cases
                (encrypted_pid C (P.find_first (λ _ p. p.user_id == id) s.platform_ids)) s) [
                  | inl broken ↦ absurd (ground (arith, stored, first, broken, h))
                  | inr (pid, second) ↦
                      Viewed-by created id by role now d s s' u nid pid stored first second h
                ]
        ]
      ]
