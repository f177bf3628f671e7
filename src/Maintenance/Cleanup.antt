-- ===== src/Maintenance/Cleanup.antt =====
-- The nightly cleanup ends no session that could still be used.
use gracon_admin_service.Prelude.{
  ℕ, ◌≤◌, ltb, ◌||◌, String, false, some, ◌≡◌, ◌↔◌, ◌⊎◌, refl, inl, inr, arith,
}
use gracon_admin_service.Prisma.{Prisma, DbError, Query, done, failed}
use gracon_admin_service.Http.{ok, ◌>>=◌}
use gracon_admin_service.Models.{AdminRefreshToken, Store}
use gracon_admin_service.Maintenance.{cleanup_expired_tokens, is_dead}

module _ ⦃P : Prisma⦄ where
  -- The stored sessions after the cleanup are those that are neither revoked nor past their expiry.
  pub Cleaned : ℕ → Store → Store → Type 0
  Cleaned now s s' =
      (id : String) (t : AdminRefreshToken)
      → (P.find_unique id s'.admin_refresh_tokens ≡ some t) ↔ (
          (P.find_unique id s.admin_refresh_tokens ≡ some t)
          × ((now ≤ t.expires_at) × (t.revoked ≡ false)))

  -- The database refused the deletion of the revoked and expired sessions, and the state is as before.
  abbrev pub CleanupFailed : ℕ → Store → Type 0
  CleanupFailed now s =
      (e : DbError) × (P.delete_many (λ _ t. ltb t.expires_at now || t.revoked)
          s.admin_refresh_tokens
        ≡ failed e)
      × ((cleanup_expired_tokens now s).1 ≡ s)

  Cleaned-by :
      (now : ℕ) (s : Store) (q : Query (P.Table AdminRefreshToken))
      → P.delete_many (is_dead now) s.admin_refresh_tokens ≡ q
      → (cleanup_expired_tokens now s ≡ (
        ok tt,
        record s { admin_refresh_tokens = (cleanup_expired_tokens now s).1.admin_refresh_tokens },
      ))
        × (Cleaned now s (cleanup_expired_tokens now s).1 ⊎ CleanupFailed now s)
  unfolding cleanup_expired_tokens Cleaned ◌>>=◌
  Cleaned-by now s (failed e) made = (ground arith, inr (e, made, ground arith))
  Cleaned-by now s (done t) made = (
    ground arith,
    inl (λ id row.
        ground
          (arith, P.find_unique-delete_many (is_dead now) s.admin_refresh_tokens t id row made)),
  )

  -- The cleanup never throws and touches the sessions alone. Afterwards exactly those are stored
  -- that were stored, are not revoked and have not expired, unless the deletion failed and nothing
  -- changed.
  pub cleanup_expired_tokens-Cleaned :
      (now : ℕ) (s : Store)
      → (cleanup_expired_tokens now s ≡ (
        ok tt,
        record s { admin_refresh_tokens = (cleanup_expired_tokens now s).1.admin_refresh_tokens },
      ))
        × (Cleaned now s (cleanup_expired_tokens now s).1 ⊎ CleanupFailed now s)
  cleanup_expired_tokens-Cleaned now s = Cleaned-by now s _ refl
