-- ===== src/Auth/Rotation.antt =====
-- Refresh tokens: rotation, reuse and logout.
use gracon_admin_service.Prelude.{
  ℕ, String, true, false, not, ◌&&◌, some, ◌≡◌, ◌≢◌, ◌≤◌, inl, inr, refl, ◌==◌, eq_iff,
  Option-cases, arith, if◌then◌else◌,
}
use gracon_admin_service.Prisma.{Prisma, Query, done, failed, find_first_cases}
use gracon_admin_service.Http.{◌>>=◌, ok}
use gracon_admin_service.Models.{Admin, AdminRefreshToken, Store}
use gracon_admin_service.Auth.{Runtime, Client, AdminAuthTokens, refresh_tokens, logout}
use gracon_admin_service.Auth.Spent.{Sessions, Sessions-IsSpentHash}
use gracon_admin_service.Auth.Issuing.{Issued, issue_tokens-Issued}

module _ ⦃P : Prisma⦄ where
  -- No two stored tokens have one hash (`tokenHash` is a unique column).
  abbrev pub HasUniqueHashes : Store → Type 0
  HasUniqueHashes s =
      (i j : String) (t u : AdminRefreshToken)
      → P.find_unique i s.admin_refresh_tokens ≡ some t
      → P.find_unique j s.admin_refresh_tokens ≡ some u
      → t.token_hash ≡ u.token_hash
      → i ≡ j

module _ ⦃P : Prisma⦄ (R : Runtime) where
  -- What a successful refresh shows and does.
  pub record Rotated (raw : String) (checked : ℕ) (c : Client) (s : Store)
      (tokens : AdminAuthTokens) (s' : Store) : Type 0 where
    pub id : String
    pub token : AdminRefreshToken
    pub owner : Admin
    pub stored : P.find_unique id s.admin_refresh_tokens ≡ some token
    pub hashed : token.token_hash ≡ R.sha256 raw
    pub unrevoked : token.revoked ≡ false
    pub unexpired : checked ≤ token.expires_at
    pub owned : P.find_unique token.admin_id s.admins ≡ some owner
    pub active : owner.is_active ≡ true
    pub between : Store
    pub rest : between ≡ record s { admin_refresh_tokens = between.admin_refresh_tokens }
    pub retired :
        (j : String)
        → P.find_unique j between.admin_refresh_tokens ≡ (
            if id == j
            then some (record token { revoked = true })
            else P.find_unique j s.admin_refresh_tokens)
    pub issued : Issued R token.admin_id owner c between tokens s'

  Rotated-by :
      (raw : String) (checked : ℕ) (c : Client) (s s' : Store) (tokens : AdminAuthTokens)
      (id : String) (t : AdminRefreshToken) (a : Admin) (q : Query (P.Table AdminRefreshToken))
      → P.find_first (λ _ u. u.token_hash == R.sha256 raw) s.admin_refresh_tokens ≡ some (id, t)
      → P.find_unique id s.admin_refresh_tokens ≡ some t
      → (t.token_hash == R.sha256 raw) ≡ true
      → P.find_unique t.admin_id s.admins ≡ some a
      → P.update id (λ u. record u { revoked = true }) s.admin_refresh_tokens ≡ q
      → refresh_tokens R raw checked c s ≡ (ok tokens, s')
      → Rotated raw checked c s tokens s'
  unfolding refresh_tokens ◌>>=◌
  Rotated-by raw checked c s s' tokens id t a (failed e) found stored hashed owned made h =
      absurd (ground arith)
  Rotated-by raw checked c s s' tokens id t a (done u) found stored hashed owned made h =
      let h' = rw (found, owned) at h in
      record {
        id = id;
        token = t;
        owner = a;
        stored = stored;
        hashed = (eq_iff _ _).0 hashed;
        unrevoked = ground arith;
        unexpired = ground arith;
        owned = owned;
        active = ground arith;
        between = record s { admin_refresh_tokens = u };
        rest = refl;
        retired = λ j. ground (
          arith,
          P.find_unique-update id (λ u. record u { revoked = true }) s.admin_refresh_tokens u j,
          eq_iff id j,
        );
        issued =
            issue_tokens-Issued R t.admin_id a c (record s { admin_refresh_tokens = u }) s' tokens
              (ground arith);
      }

  -- A refresh that succeeds was given an unrevoked, unexpired token of an active account; the
  -- token is revoked, one fresh token is stored for the same account, and nothing else changes.
  pub refresh_tokens-Rotated :
      (raw : String) (checked : ℕ) (c : Client) (s s' : Store) (tokens : AdminAuthTokens)
      → refresh_tokens R raw checked c s ≡ (ok tokens, s')
      → Rotated raw checked c s tokens s'
  unfolding refresh_tokens ◌>>=◌
  refresh_tokens-Rotated raw checked c s s' tokens h =
      elim (find_first_cases (λ _ u. u.token_hash == R.sha256 raw) s.admin_refresh_tokens) [
        | inl e ↦ absurd (ground arith)
        | inr (id, t, e, stored, hashed) ↦ elim (Option-cases (P.find_unique t.admin_id s.admins)) [
          | inl missing ↦ absurd (ground arith)
          | inr (a, owned) ↦
              Rotated-by raw checked c s s' tokens id t a _ e stored hashed owned refl h
        ]
      ]

  -- Every stored token with the hash of `raw` is revoked.
  abbrev pub IsSpent : String → Store → Type 0
  IsSpent raw s =
      (j : String) (t : AdminRefreshToken)
      → P.find_unique j s.admin_refresh_tokens ≡ some t
      → t.token_hash ≡ R.sha256 raw
      → t.revoked ≡ true

  pub spent-refused :
      (raw : String) (checked : ℕ) (c : Client) (s s' : Store) (tokens : AdminAuthTokens)
      → IsSpent raw s
      → ¬ (refresh_tokens R raw checked c s ≡ (ok tokens, s'))
  spent-refused raw checked c s s' tokens spent h =
      let r = refresh_tokens-Rotated raw checked c s s' tokens h in
      let gone = spent r.id r.token r.stored r.hashed in let live = r.unrevoked in cc

  Rotated-IsSpent :
      (raw : String) (checked : ℕ) (c : Client) (s s' : Store) (tokens : AdminAuthTokens)
      → HasUniqueHashes s
      → R.sha256 c.random_token ≢ R.sha256 raw
      → Rotated raw checked c s tokens s'
      → IsSpent raw s'
  Rotated-IsSpent raw checked c s s' tokens unique differs r j t stored hashed =
      let new = r.issued.rows j in
      let mid = r.retired j in
      let same = unique r.id j r.token t r.stored in
      let h = r.hashed in
      ground (arith, new, mid, same, h, eq_iff r.id j, eq_iff r.issued.token_id j, differs)

  -- Rotation: after a refresh, the token that it was called with never refreshes again, whoever
  -- calls, whatever logins, refreshes (with that token too), logouts, cleanups and changes of other
  -- tables come in between. The conditions: token hashes are unique before, and no token drawn by the
  -- refresh or on the way has the hash of that token.
  pub refresh_no_replay :
      (raw : String) (checked later : ℕ) (c d : Client) (s s' u u' : Store)
      (tokens more : AdminAuthTokens)
      → HasUniqueHashes s
      → R.sha256 c.random_token ≢ R.sha256 raw
      → refresh_tokens R raw checked c s ≡ (ok tokens, s')
      → Sessions R (R.sha256 raw) s' u
      → ¬ (refresh_tokens R raw later d u ≡ (ok more, u'))
  refresh_no_replay raw checked later c d s s' u u' tokens more unique differs h way =
      spent-refused raw later d u u' more (
        Sessions-IsSpentHash R (R.sha256 raw) way (
          Rotated-IsSpent raw checked c s s' tokens unique differs
            (refresh_tokens-Rotated raw checked c s s' tokens h)))

  logout-IsSpent : (raw : String) (s s' : Store) → logout R raw s ≡ (ok tt, s') → IsSpent raw s'
  unfolding logout ◌>>=◌
  logout-IsSpent raw s s' h j t stored hashed = ground (
    arith,
    P.find_unique-update_many (λ _ t. (t.token_hash == R.sha256 raw) && not t.revoked)
        (λ t. record t { revoked = true }) s.admin_refresh_tokens s'.admin_refresh_tokens j,
    eq_iff t.token_hash (R.sha256 raw),
  )

  -- After a logout the token that it was given never refreshes again, whatever logins, refreshes
  -- (with that token too), logouts, cleanups and changes of other tables come in between, if no token
  -- drawn on the way has the hash of that token.
  pub logout_ends_session :
      (raw : String) (checked : ℕ) (c : Client) (s s' u u' : Store) (tokens : AdminAuthTokens)
      → logout R raw s ≡ (ok tt, s')
      → Sessions R (R.sha256 raw) s' u
      → ¬ (refresh_tokens R raw checked c u ≡ (ok tokens, u'))
  logout_ends_session raw checked c s s' u u' tokens h way =
      spent-refused raw checked c u u' tokens
        (Sessions-IsSpentHash R (R.sha256 raw) way (logout-IsSpent raw s s' h))
