-- ===== src/Auth/Reuse.antt =====
-- The reuse of a revoked refresh token: every session of the account ends.
use gracon_admin_service.Prelude.{
  ℕ, String, Bool, true, not, ◌&&◌, some, ◌≡◌, ◌≢◌, inl, inr, ◌⊎◌, refl, sym, ◌∙◌, ◌==◌, eq_iff,
  arith,
}
use gracon_admin_service.Prisma.{Prisma, DbError, Query, done, failed, find_first_cases}
use gracon_admin_service.Http.{◌>>=◌, Reply, throw, unauthorized, database}
use gracon_admin_service.Models.{Admin, AdminRefreshToken, Store}
use gracon_admin_service.Auth.{Runtime, Client, AdminAuthTokens, refresh_tokens, revoked_token}
use gracon_admin_service.Auth.Rotation.{HasUniqueHashes}

abbrev belongs : String → String → AdminRefreshToken → Bool
belongs admin_id _ t = (t.admin_id == admin_id) && not t.revoked

abbrev retire : AdminRefreshToken → AdminRefreshToken
retire t = record t { revoked = true }

module _ ⦃P : Prisma⦄ where
  -- Every refresh token of the account is revoked, and nothing else has changed.
  pub record Wiped (admin_id : String) (s s' : Store) : Type 0 where
    pub all_revoked :
        (j : String) (u : AdminRefreshToken)
        → P.find_unique j s'.admin_refresh_tokens ≡ some u
        → u.admin_id ≡ admin_id
        → u.revoked ≡ true
    pub others_kept :
        (j : String) (u : AdminRefreshToken)
        → P.find_unique j s.admin_refresh_tokens ≡ some u
        → u.admin_id ≢ admin_id
        → P.find_unique j s'.admin_refresh_tokens ≡ some u
    pub rest : s' ≡ record s { admin_refresh_tokens = s'.admin_refresh_tokens }

  update_many-Wiped :
      (admin_id : String) (s : Store) (t' : P.Table AdminRefreshToken)
      → P.update_many (belongs admin_id) retire s.admin_refresh_tokens ≡ done t'
      → Wiped admin_id s (record s { admin_refresh_tokens = t' })
  update_many-Wiped admin_id s t' h = record {
    all_revoked = λ j u e o. ground (
      arith,
      P.find_unique-update_many (belongs admin_id) retire s.admin_refresh_tokens t' j h,
      eq_iff u.admin_id admin_id,
    );
    others_kept = λ j u e o. ground (
      arith,
      P.find_unique-update_many (belongs admin_id) retire s.admin_refresh_tokens t' j h,
      eq_iff u.admin_id admin_id,
    );
    rest = refl;
  }

module _ ⦃P : Prisma⦄ (R : Runtime) where
  reuse_by :
      (raw : String) (checked : ℕ) (c : Client) (s s' : Store) (r : Reply AdminAuthTokens)
      (id : String) (t : AdminRefreshToken) (a : Admin) (q : Query (P.Table AdminRefreshToken))
      → P.find_first (λ _ u. u.token_hash == R.sha256 raw) s.admin_refresh_tokens ≡ some (id, t)
      → t.revoked ≡ true
      → P.find_unique t.admin_id s.admins ≡ some a
      → P.update_many (belongs t.admin_id) retire s.admin_refresh_tokens ≡ q
      → refresh_tokens R raw checked c s ≡ (r, s')
      → ((e : DbError) × (r ≡ throw (database e)) × (s' ≡ s))
        ⊎ ((r ≡ throw (unauthorized revoked_token)) × Wiped t.admin_id s s')
  unfolding refresh_tokens ◌>>=◌
  reuse_by raw checked c s s' r id t a (failed e) found gone owned made h =
      inl (e, ground arith, ground arith)
  reuse_by raw checked c s s' r id t a (done u) found gone owned made h =
      let end : s' ≡ record s { admin_refresh_tokens = u } = ground arith in
      inr (ground arith, rw end (update_many-Wiped t.admin_id s u made))

  -- A revoked token presented again is refused, and every refresh token of its account is revoked
  -- while all other state stays, unless the database fails, which changes nothing.
  pub refresh_reuse_wipes :
      (raw : String) (checked : ℕ) (c : Client) (s s' : Store) (r : Reply AdminAuthTokens)
      (id : String) (t : AdminRefreshToken) (a : Admin)
      → HasUniqueHashes s
      → P.find_unique id s.admin_refresh_tokens ≡ some t
      → t.token_hash ≡ R.sha256 raw
      → t.revoked ≡ true
      → P.find_unique t.admin_id s.admins ≡ some a
      → refresh_tokens R raw checked c s ≡ (r, s')
      → ((e : DbError) × (r ≡ throw (database e)) × (s' ≡ s))
        ⊎ ((r ≡ throw (unauthorized revoked_token)) × Wiped t.admin_id s s')
  refresh_reuse_wipes raw checked c s s' r id t a unique stored hashed gone owned h =
      elim (find_first_cases (λ _ u. u.token_hash == R.sha256 raw) s.admin_refresh_tokens) [
        | inl e ↦
            (let missed =
                P.find_first_none (λ _ u. u.token_hash == R.sha256 raw) s.admin_refresh_tokens id t
                  e stored in
              absurd (ground (arith, missed, eq_iff t.token_hash (R.sha256 raw))))
        | inr (j, u, e, found, matches) ↦
            (let same : j ≡ id =
                unique j id u t found stored ((eq_iff _ _).0 matches ∙ sym hashed) in
              let row : u ≡ t = ground (arith, same) in
              reuse_by raw checked c s s' r j t a _ (rw row at e) gone owned refl h)
      ]
