-- ===== src/Users/Status.antt =====
-- Activating and deactivating a user, and ending the user's sessions.
use gracon_admin_service.Prelude.{
  ℕ, String, Bool, true, false, Option, none, some, [], ◌∷◌, not, ◌&&◌, ◌≡◌, ◌≢◌, ◌∙◌, refl, ◌==◌,
  eq_iff, if◌then◌else◌, arith,
}
use gracon_admin_service.Prisma.{Prisma, Query, done, failed}
use gracon_admin_service.Http.{◌>>=◌, ok, throw, HttpException}
use gracon_admin_service.Http.Atomic.{
  IsAtomic, IsAtomic-gets, IsAtomic-require, IsAtomic-reject_if, IsAtomic-bind,
  IsAtomic-transaction,
}
use gracon_admin_service.Models.{
  User, RefreshToken, user_reactivated, user_deactivated, sessions_revoked, flag, text, number,
  Store,
}
use gracon_admin_service.Audit.{log, log_lem, Audited, log-Audited, log-IsTotal}
use gracon_admin_service.Users.{
  stated, stated-optional_text, Actor, UpdateUserStatusDto, update_user_status,
  revoke_user_sessions, live_session_of, end_session, status_entry, sessions_entry,
}

module _ ⦃P : Prisma⦄ where
  -- Every session of the user is revoked, and the sessions of others are as before.
  pub record SignedOut (id : String) (before after : P.Table RefreshToken) : Type 0 where
    pub ended :
        (j : String) (t : RefreshToken)
        → P.find_unique j after ≡ some t
        → t.user_id ≡ id
        → t.revoked ≡ true
    pub kept :
        (j : String) (t : RefreshToken)
        → P.find_unique j before ≡ some t
        → t.user_id ≢ id
        → P.find_unique j after ≡ some t

  update_many-SignedOut :
      (id : String) (t u : P.Table RefreshToken)
      → P.update_many (live_session_of id) end_session t ≡ done u
      → SignedOut id t u
  update_many-SignedOut id t u h = record {
    ended = λ j r e o. ground (
      arith,
      P.find_unique-update_many (live_session_of id) end_session t u j h,
      eq_iff r.user_id id,
    );
    kept = λ j r e o. ground (
      arith,
      P.find_unique-update_many (live_session_of id) end_session t u j h,
      eq_iff r.user_id id,
    );
  }

  -- What a successful change of the status shows and does.
  pub record StatusChanged (id : String) (dto : UpdateUserStatusDto) (by : Actor) (s s' : Store)
      : Type 0 where
    pub user : User
    pub stored : P.find_unique id s.users ≡ some user
    pub changed : user.is_active ≢ dto.is_active
    pub accounts :
        (j : String)
        → P.find_unique j s'.users ≡ (
            if id == j
            then some (record user { is_active = dto.is_active })
            else P.find_unique j s.users)
    pub sessions_end : dto.is_active ≡ false → SignedOut id s.refresh_tokens s'.refresh_tokens
    pub sessions_stay : dto.is_active ≡ true → s'.refresh_tokens ≡ s.refresh_tokens
    pub audited :
        Audited
          (record {
            admin_id = by.admin_id;
            action = if dto.is_active then user_reactivated else user_deactivated;
            target_user_id = some id;
            ip_address = some by.ip_address;
            metadata =
                ("reason", stated dto.reason)
                ∷ ("newStatus", flag dto.is_active)
                ∷ ("userEmail", text user.email)
                ∷ [];
          })
          s.audit_logs
          s'.audit_logs
    pub rest : s' ≡ record s {
      users = s'.users;
      refresh_tokens = s'.refresh_tokens;
      audit_logs = s'.audit_logs;
    }

  status_by :
      (id : String) (active : Bool) (reason : Option String) (by : Actor) (s s' : Store) (u : User)
      (q : Query (P.Table User)) (q' : Query (P.Table RefreshToken))
      → let dto : UpdateUserStatusDto = record { is_active = active; reason = reason } in
        P.find_unique id s.users ≡ some u
        → P.update id (λ u. record u { is_active = active }) s.users ≡ q
        → P.update_many (live_session_of id) end_session s.refresh_tokens ≡ q'
        → update_user_status id dto by s ≡ (ok tt, s')
        → StatusChanged id dto by s s'
  unfolding update_user_status ◌>>=◌
  status_by id active reason by s s' u (failed e) q' stored made ended h = absurd (ground arith)
  status_by id true reason by s s' u (done t) q' stored made ended h = record {
    user = u;
    stored = stored;
    changed = λ e. ground arith;
    accounts = λ j. rw done_by (
        ground (
          arith,
          P.find_unique-update id (λ u. record u { is_active = true }) s.users t j made,
          eq_iff id j,
        ));
    sessions_end = λ e. cc;
    sessions_stay = λ e. rw done_by;
    audited =
        rw (done_by, stated-optional_text reason) (log-Audited (status_entry by id dto u) mid);
    rest = rw done_by;
  }
    where
      dto : UpdateUserStatusDto
      dto = record { is_active = true; reason = reason }

      mid : Store
      mid = record s { users = t }

      done_by : s' ≡ record mid { audit_logs = (log (status_entry by id dto u) mid).1.audit_logs }
      done_by = ground (arith, log_lem (status_entry by id dto u) mid)
  status_by id false reason by s s' u (done t) (failed e) stored made ended h =
      absurd (ground arith)
  status_by id false reason by s s' u (done t) (done v) stored made ended h = record {
    user = u;
    stored = stored;
    changed = λ e. ground arith;
    accounts = λ j. rw done_by (
        ground (
          arith,
          P.find_unique-update id (λ u. record u { is_active = false }) s.users t j made,
          eq_iff id j,
        ));
    sessions_end = λ e. rw done_by (update_many-SignedOut id s.refresh_tokens v ended);
    sessions_stay = λ e. cc;
    audited =
        rw (done_by, stated-optional_text reason) (log-Audited (status_entry by id dto u) mid);
    rest = rw done_by;
  }
    where
      dto : UpdateUserStatusDto
      dto = record { is_active = false; reason = reason }

      mid : Store
      mid = record s { users = t; refresh_tokens = v }

      done_by : s' ≡ record mid { audit_logs = (log (status_entry by id dto u) mid).1.audit_logs }
      done_by = ground (arith, log_lem (status_entry by id dto u) mid)

  status_from :
      (id : String) (dto : UpdateUserStatusDto) (by : Actor) (s s' : Store) (found : Option User)
      → P.find_unique id s.users ≡ found
      → update_user_status id dto by s ≡ (ok tt, s')
      → StatusChanged id dto by s s'
  unfolding update_user_status ◌>>=◌
  status_from id dto by s s' none stored h = absurd (ground arith)
  status_from id dto by s s' (some u) stored h =
      status_by id dto.is_active dto.reason by s s' u _ _ stored refl refl h

  -- A status is changed only for a stored user with the other status. The user gets the new one;
  -- a deactivation revokes every session of the user and none of others, an activation restores
  -- none; the trail gains the entry unless its write fails, and nothing else changes.
  pub update_user_status-StatusChanged :
      (id : String) (dto : UpdateUserStatusDto) (by : Actor) (s s' : Store)
      → update_user_status id dto by s ≡ (ok tt, s')
      → StatusChanged id dto by s s'
  update_user_status-StatusChanged id dto by s s' h = status_from id dto by s s' _ refl h

  update_user_status-IsAtomic :
      (id : String) (dto : UpdateUserStatusDto) (by : Actor)
      → IsAtomic (update_user_status id dto by)
  unfolding update_user_status
  update_user_status-IsAtomic id dto by = IsAtomic-gets _ _ λ found.
      IsAtomic-require found _ _ λ u.
        IsAtomic-reject_if _ _ _ (IsAtomic-bind _ _ (IsAtomic-transaction _) λ _. log-IsTotal _)

  -- A change of the status that fails, at a check or at either write, changes nothing.
  pub update_user_status_atomic :
      (id : String) (dto : UpdateUserStatusDto) (by : Actor) (s s' : Store) (e : HttpException)
      → update_user_status id dto by s ≡ (throw e, s')
      → s' ≡ s
  update_user_status_atomic id dto by = (update_user_status-IsAtomic id dto by).unchanged

  -- What revoking the sessions of a user shows and does; `n` is the reply.
  pub record SessionsRevoked (id : String) (by : Actor) (n : ℕ) (s s' : Store) : Type 0 where
    pub user : User
    pub stored : P.find_unique id s.users ≡ some user
    pub sessions : SignedOut id s.refresh_tokens s'.refresh_tokens
    pub counted : n ≡ P.count (λ _ t. (t.user_id == id) && not t.revoked) s.refresh_tokens
    pub audited :
        Audited
          (record {
            admin_id = by.admin_id;
            action = sessions_revoked;
            target_user_id = some id;
            ip_address = some by.ip_address;
            metadata = ("revokedCount", number n) ∷ ("userEmail", text user.email) ∷ [];
          })
          s.audit_logs
          s'.audit_logs
    pub rest : s' ≡ record s { refresh_tokens = s'.refresh_tokens; audit_logs = s'.audit_logs }

  revoked_by :
      (id : String) (by : Actor) (n : ℕ) (s s' : Store) (found : Option User)
      (q : Query (ℕ × P.Table RefreshToken))
      → P.find_unique id s.users ≡ found
      → P.update_many_counted (live_session_of id) end_session s.refresh_tokens ≡ q
      → revoke_user_sessions id by s ≡ (ok n, s')
      → SessionsRevoked id by n s s'
  unfolding revoke_user_sessions ◌>>=◌
  revoked_by id by n s s' none q stored made h = absurd (ground arith)
  revoked_by id by n s s' (some u) (failed e) stored made h = absurd (ground arith)
  revoked_by id by n s s' (some u) (done (k, t)) stored made h =
      let (write, count) =
        P.update_many_counted_lem (live_session_of id) end_session s.refresh_tokens t k made in
      record {
        user = u;
        stored = stored;
        sessions = rw done_by (update_many-SignedOut id s.refresh_tokens t write);
        counted = same ∙ count;
        audited = rw (done_by, same) (log-Audited (sessions_entry by id k u) mid);
        rest = rw done_by;
      }
    where
      mid : Store
      mid = record s { refresh_tokens = t }

      same : n ≡ k
      same = ground (arith, log_lem (sessions_entry by id k u) mid)

      done_by : s' ≡ record mid { audit_logs = (log (sessions_entry by id k u) mid).1.audit_logs }
      done_by = ground (arith, log_lem (sessions_entry by id k u) mid)

  -- Revoking the sessions of a user succeeds only for a stored user, leaves the account and
  -- everybody else's sessions as they are, and replies how many sessions of the user were not
  -- revoked before; the trail gains the entry with that number, unless the database refuses it.
  pub revoke_user_sessions-SignedOut :
      (id : String) (by : Actor) (n : ℕ) (s s' : Store)
      → revoke_user_sessions id by s ≡ (ok n, s')
      → SessionsRevoked id by n s s'
  revoke_user_sessions-SignedOut id by n s s' h = revoked_by id by n s s' _ _ refl refl h
