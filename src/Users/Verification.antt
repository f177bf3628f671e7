-- ===== src/Users/Verification.antt =====
-- Overriding the result of the identity verification by hand.
use gracon_admin_service.Prelude.{
  ℕ, String, true, false, Option, none, some, [], ◌∷◌, ◌≡◌, ◌≢◌, refl, ◌==◌, eq_iff, if◌then◌else◌,
  arith,
}
use gracon_admin_service.Prisma.{Prisma, Query, done, failed}
use gracon_admin_service.Http.{◌>>=◌, ok}
use gracon_admin_service.Models.{User, id_status_changed, flag, text, Store}
use gracon_admin_service.Audit.{log, log_lem, Audited, log-Audited}
use gracon_admin_service.Auth.{truthy}
use gracon_admin_service.Users.{
  stated, stated-optional_text, Actor, UpdateIdVerificationDto, update_id_verification,
  id_status_entry, verified_at,
}

module _ ⦃P : Prisma⦄ where
  -- What a successful override shows and does.
  pub record Overridden (id : String) (dto : UpdateIdVerificationDto) (by : Actor) (now : ℕ)
      (s s' : Store) : Type 0 where
    pub user : User
    pub stored : P.find_unique id s.users ≡ some user
    pub changed : user.is_id_verified ≢ dto.is_id_verified
    pub justified : dto.is_id_verified ≡ false → (r : String) × (dto.reason ≡ some r) × (r ≢ "")
    pub accounts :
        (j : String)
        → P.find_unique j s'.users ≡ (
            if id == j
            then some (record user {
              is_id_verified = dto.is_id_verified;
              id_verified_at = if dto.is_id_verified then some now else none;
            })
            else P.find_unique j s.users)
    pub audited :
        Audited
          (record {
            admin_id = by.admin_id;
            action = id_status_changed;
            target_user_id = some id;
            ip_address = some by.ip_address;
            metadata =
                ("newStatus", flag dto.is_id_verified)
                ∷ ("reason", stated dto.reason)
                ∷ ("userEmail", text user.email)
                ∷ ("override", text "manual_admin_action")
                ∷ [];
          })
          s.audit_logs
          s'.audit_logs
    pub rest : s' ≡ record s { users = s'.users; audit_logs = s'.audit_logs }

  truthy-some : (o : Option String) → truthy o ≡ true → (r : String) × (o ≡ some r) × (r ≢ "")
  truthy-some none h = cc
  truthy-some (some r) h = (r, refl, λ e. ground (arith, eq_iff r ""))

  abbrev override : UpdateIdVerificationDto → ℕ → User → User
  override dto now u = record u {
    is_id_verified = dto.is_id_verified;
    id_verified_at = verified_at dto.is_id_verified now;
  }

  Overridden-by :
      (id : String) (dto : UpdateIdVerificationDto) (by : Actor) (now : ℕ) (s s' : Store)
      (found : Option User) (q : Query (P.Table User))
      → P.find_unique id s.users ≡ found
      → P.update id (override dto now) s.users ≡ q
      → update_id_verification id dto by now s ≡ (ok tt, s')
      → Overridden id dto by now s s'
  unfolding update_id_verification ◌>>=◌
  Overridden-by id dto by now s s' none q stored made h = absurd (ground arith)
  Overridden-by id dto by now s s' (some u) (failed e) stored made h = absurd (ground arith)
  Overridden-by id dto by now s s' (some u) (done t) stored made h = record {
    user = u;
    stored = stored;
    changed = λ e. ground arith;
    justified = λ e. truthy-some dto.reason (ground arith);
    accounts = λ j.
        rw done_by (
          ground (arith, P.find_unique-update id (override dto now) s.users t j made, eq_iff id j));
    audited =
        rw (done_by, stated-optional_text dto.reason)
          (log-Audited (id_status_entry by id dto u) mid);
    rest = rw done_by;
  }
    where
      mid : Store
      mid = record s { users = t }

      done_by :
          s' ≡ record mid { audit_logs = (log (id_status_entry by id dto u) mid).1.audit_logs }
      done_by = ground (arith, log_lem (id_status_entry by id dto u) mid)

  -- A verification is overridden only for a stored user with the other state, and revoked only
  -- with a reason; a manual verification is dated, a revocation clears the date, the trail gains
  -- the entry unless its write fails, and nothing else changes.
  pub update_id_verification-Overridden :
      (id : String) (dto : UpdateIdVerificationDto) (by : Actor) (now : ℕ) (s s' : Store)
      → update_id_verification id dto by now s ≡ (ok tt, s')
      → Overridden id dto by now s s'
  update_id_verification-Overridden id dto by now s s' h =
      Overridden-by id dto by now s s' _ _ refl refl h
