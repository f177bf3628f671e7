-- ===== src/Certificates/Lifting.antt =====
-- Lifting a ban: only a user who is banned, and exactly that policy.
use gracon_admin_service.Prelude.{
  String, true, Option, none, some, ◌≡◌, refl, ◌==◌, eq_iff, if◌then◌else◌, arith, trim, inl, inr,
}
use gracon_admin_service.Prisma.{Prisma, Query, done, failed, find_first_cases}
use gracon_admin_service.Http.{Reply, ok, throw, ◌>>=◌}
use gracon_admin_service.Models.{User, AccessPolicy, PolicyStatus, allowed, banned, Store}
use gracon_admin_service.Audit.{log, OnlyNotifies, OnlyNotifies-bind, log-OnlyNotifies}
use gracon_admin_service.Mailer.{send_certificate_access_restored_email}
use gracon_admin_service.Certificates.{Reviewer, build_user_name}
use gracon_admin_service.Certificates.Bans.{
  UserRow, PolicyView, ensure_user_exists, get_certificate_access_policy,
  lift_certificate_access_ban, announce_lifted, lift_policy, lift_entry, policy_of,
}

module _ ⦃P : Prisma⦄ where
  -- What lifting a ban shows and does.
  pub record Lifted (user_id : String) (by : Reviewer) (reason : String) (s s' : Store)
      : Type 0 where
    pub policy_id : String
    pub old : AccessPolicy
    pub stored : P.find_unique policy_id s.access_policies ≡ some old
    pub own : old.user_id ≡ user_id
    pub was_banned : old.status ≡ banned
    pub policies :
        (j : String)
        → P.find_unique j s'.access_policies ≡ (
            if policy_id == j
            then some (record old {
              status = allowed;
              unban_reason = some reason;
              unbanned_by_admin_id = some by.admin_id;
              unbanned_at = some by.now;
            })
            else P.find_unique j s.access_policies)
    pub rest : s' ≡ record s {
      access_policies = s'.access_policies;
      audit_logs = s'.audit_logs;
      mails = s'.mails;
    }

  user_by :
      (id : String) (s : Store) (u : Option User)
      → P.find_unique id s.users ≡ u
      → ensure_user_exists id s ≡ ((ensure_user_exists id s).0, s)
  unfolding ensure_user_exists ◌>>=◌
  user_by id s none e = ground arith
  user_by id s (some u) e = ground arith

  pub ensure_user_exists_lem :
      (id : String) (s : Store) → ensure_user_exists id s ≡ ((ensure_user_exists id s).0, s)
  ensure_user_exists_lem id s = user_by id s _ refl

  pub get_certificate_access_policy_lem :
      (id : String) (s : Store)
      → get_certificate_access_policy id s ≡ ((get_certificate_access_policy id s).0, s)
  unfolding get_certificate_access_policy ◌>>=◌
  get_certificate_access_policy_lem id s = refl

  announce_lifted-OnlyNotifies :
      (id : String) (u : UserRow) (p : AccessPolicy) (by : Reviewer) (reason : String)
      → OnlyNotifies (announce_lifted id u p by reason)
  unfolding announce_lifted send_certificate_access_restored_email
  announce_lifted-OnlyNotifies id u p by reason =
      OnlyNotifies-bind (log (lift_entry by reason id p))
        (send_certificate_access_restored_email u.user.email (build_user_name u.user u.identity)
          reason by.now)
        (log-OnlyNotifies (lift_entry by reason id p)) (λ t. refl)

  Lifted-by :
      (id : String) (by : Reviewer) (raw : String) (s s' : Store) (view : PolicyView)
      (u : Reply UserRow) (k : String) (p : AccessPolicy) (status : PolicyStatus)
      (q : Query (P.Table AccessPolicy))
      → ensure_user_exists id s ≡ (u, s)
      → P.find_first (policy_of id) s.access_policies ≡ some (k, p)
      → P.find_unique k s.access_policies ≡ some p
      → (p.user_id == id) ≡ true
      → p.status ≡ status
      → P.update k (lift_policy by.admin_id (trim raw) by.now) s.access_policies ≡ q
      → lift_certificate_access_ban id by raw s ≡ (ok view, s')
      → Lifted id by (trim raw) s s'
  unfolding lift_certificate_access_ban ◌>>=◌
  Lifted-by id by raw s s' view (throw e) k p status q user found stored own is made h =
      absurd (ground arith)
  Lifted-by id by raw s s' view (ok u) k p allowed q user found stored own is made h =
      absurd (ground arith)
  Lifted-by id by raw s s' view (ok u) k p banned (failed e) user found stored own is made h =
      absurd (ground arith)
  Lifted-by id by raw s s' view (ok u) k p banned (done t) user found stored own is made h =
      let mid : Store = record s { access_policies = t } in
      let told = announce_lifted-OnlyNotifies id u p by (trim raw) mid in
      let after : Store = (announce_lifted id u p by (trim raw) mid).1 in
      let reread = get_certificate_access_policy_lem id after in
      let end : s' ≡ after = ground (arith, told, reread) in
      let notified : s' ≡ record mid { audit_logs = s'.audit_logs; mails = s'.mails } =
        rw end (ground (arith, told)) in
      record {
        policy_id = k;
        old = p;
        stored = stored;
        own = (eq_iff p.user_id id).0 own;
        was_banned = is;
        policies = λ j.
            (let law =
                P.find_unique-update k (lift_policy by.admin_id (trim raw) by.now) s.access_policies
                  t j made in
              rw notified (ground (arith, law, stored, eq_iff k j)));
        rest = rw notified refl;
      }

  -- Lifting a ban succeeds only for a user with a policy that is banned; that policy is allowed
  -- again, with the trimmed reason, the administrator and the time, and keeps the ban's own
  -- columns; but for the trail and the mails nothing else changes.
  pub lift_certificate_access_ban-Lifted :
      (id : String) (by : Reviewer) (raw : String) (s s' : Store) (view : PolicyView)
      → lift_certificate_access_ban id by raw s ≡ (ok view, s')
      → Lifted id by (trim raw) s s'
  unfolding lift_certificate_access_ban ◌>>=◌
  lift_certificate_access_ban-Lifted id by raw s s' view h =
      elim (find_first_cases (policy_of id) s.access_policies) [
        | inl e ↦ absurd (unbanned_by id by raw s s' view _ (ensure_user_exists_lem id s) e h)
        | inr (k, p, found, stored, own) ↦
            Lifted-by id by raw s s' view _ k p p.status _ (ensure_user_exists_lem id s) found
              stored own refl refl h
      ]
    where
      unbanned_by :
          (id : String) (by : Reviewer) (raw : String) (s s' : Store) (view : PolicyView)
          (u : Reply UserRow)
          → ensure_user_exists id s ≡ (u, s)
          → P.find_first (policy_of id) s.access_policies ≡ none
          → lift_certificate_access_ban id by raw s ≡ (ok view, s')
          → ⊥
      unbanned_by id by raw s s' view (throw e) user found h = ground arith
      unbanned_by id by raw s s' view (ok u) user found h = ground arith
