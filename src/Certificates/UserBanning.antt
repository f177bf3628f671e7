-- ===== src/Certificates/UserBanning.antt =====
-- A ban of a user: the policy, the pending requests, and one certificate that is not revoked.
use gracon_admin_service.Prelude.{
  String, true, false, Option, none, some, [], ◌∷◌, template, ◌≡◌, ◌⊎◌, inl, inr, refl, ◌==◌,
  eq_iff, if◌then◌else◌, arith, trim,
}
use gracon_admin_service.Prisma.{Prisma, Query, done, failed, find_first_cases}
use gracon_admin_service.Http.{Reply, HttpException, database, ok, throw, Handler, ◌>>=◌, ◌>>◌}
use gracon_admin_service.Models.{PersonalCertificate, AccessPolicy, CertificateRequest, Store}
use gracon_admin_service.Audit.{log, OnlyNotifies, OnlyNotifies-bind, log-OnlyNotifies}
use gracon_admin_service.Mailer.{send_certificate_access_banned_email}
use gracon_admin_service.Certificates.{Reviewer, build_user_name, revoke_row, revoked_entry}
use gracon_admin_service.Certificates.Bans.{
  UserRow, PolicyView, ensure_user_exists, ban_certificate_access_for_user, announce_user_banned,
  log_found, revoke_found, ban_text, user_ban_entry, unrevoked_of, policy_of, pending_of,
  banned_policy, ban_policy, cancel_row,
}
use gracon_admin_service.Certificates.Banning.Writes.{
  BanOf, policy_by, CancelledRequests, update_many-CancelledRequests,
}
use gracon_admin_service.Certificates.Lifting.{
  ensure_user_exists_lem, get_certificate_access_policy_lem,
}

module _ ⦃P : Prisma⦄ where
  log_found-OnlyNotifies :
      (revoked : Option (String × PersonalCertificate)) (by : Reviewer) (reason : String)
      → OnlyNotifies (log_found revoked by reason)
  unfolding ◌>>=◌
  log_found-OnlyNotifies none by reason = λ s. refl
  log_found-OnlyNotifies (some (id, c)) by reason =
      log-OnlyNotifies (revoked_entry by id c "cessationOfOperation" (ban_text reason))

  announce_user_banned-OnlyNotifies :
      (id : String) (u : UserRow) (revoked : Option (String × PersonalCertificate)) (by : Reviewer)
      (reason : String)
      → OnlyNotifies (announce_user_banned id u revoked by reason)
  unfolding announce_user_banned send_certificate_access_banned_email
  announce_user_banned-OnlyNotifies id u revoked by reason =
      let mail : Handler Store (Unit {0}) =
        send_certificate_access_banned_email u.user.email (build_user_name u.user u.identity) reason
          by.now in
      OnlyNotifies-bind (log (user_ban_entry by reason id)) (log_found revoked by reason >> mail)
        (log-OnlyNotifies (user_ban_entry by reason id))
        (OnlyNotifies-bind (log_found revoked by reason) mail
          (log_found-OnlyNotifies revoked by reason) (λ t. refl))

  -- The certificates after it: one of the user's that was not revoked is, or there was none.
  abbrev pub OneRevoked :
      String
      → Reviewer
      → String
      → P.Table PersonalCertificate
      → P.Table PersonalCertificate
      → Type 0
  OneRevoked user_id by reason before after =
      ((after ≡ before)
        × ((j : String) (c : PersonalCertificate)
            → P.find_unique j before ≡ some c
            → c.user_id ≡ user_id
            → c.is_revoked ≡ true))
      ⊎ ((k : String) × (c : PersonalCertificate) × (P.find_unique k before ≡ some c)
          × (c.user_id ≡ user_id)
          × (c.is_revoked ≡ false)
          × ((j : String)
              → P.find_unique j after ≡ (
                  if k == j
                  then some (record c {
                    is_revoked = true;
                    revoked_at = some by.now;
                    revoked_reason =
                        some (template ("Certificate access banned by admin: " ∷ reason ∷ []));
                  })
                  else P.find_unique j before)))

  pub record UserBanned (user_id : String) (by : Reviewer) (reason : String) (s s' : Store)
      : Type 0 where
    pub policy_id : String
    pub policy : AccessPolicy
    pub ban : P.find_unique policy_id s'.access_policies ≡ some policy
    pub terms : BanOf user_id by.admin_id reason by.now policy
    pub others :
        (j : String)
        → (policy_id == j) ≡ false
        → P.find_unique j s'.access_policies ≡ P.find_unique j s.access_policies
    pub certificates : OneRevoked user_id by reason s.certificates s'.certificates
    pub requests :
        CancelledRequests user_id reason by.now s.certificate_requests s'.certificate_requests
    pub rest : s' ≡ record s {
      certificates = s'.certificates;
      access_policies = s'.access_policies;
      certificate_requests = s'.certificate_requests;
      audit_logs = s'.audit_logs;
      mails = s'.mails;
    }

  abbrev FirstWrite :
      String → Reviewer → String → Store → Option (String × PersonalCertificate) → Type 0
  FirstWrite user_id by reason s found =
      ((e : HttpException) × (revoke_found found reason by.now s ≡ (throw e, s)))
      ⊎ ((t : P.Table PersonalCertificate) × (revoke_found found reason by.now s
            ≡ (ok tt, record s { certificates = t }))
          × OneRevoked user_id by reason s.certificates t)

  revoked_by :
      (user_id : String) (by : Reviewer) (reason : String) (s : Store) (k : String)
      (c : PersonalCertificate) (q : Query (P.Table PersonalCertificate))
      → P.find_unique k s.certificates ≡ some c
      → unrevoked_of user_id k c ≡ true
      → P.update k (revoke_row by.now (ban_text reason)) s.certificates ≡ q
      → FirstWrite user_id by reason s (some (k, c))
  unfolding ◌>>=◌
  revoked_by user_id by reason s k c (failed e) stored passed made =
      let live : c.is_revoked ≡ false = ground (arith, passed) in
      inl (database e, ground (arith, made, live))
  revoked_by user_id by reason s k c (done t) stored passed made =
      let live : c.is_revoked ≡ false = ground (arith, passed) in
      let own : c.user_id ≡ user_id =
        (let same = eq_iff c.user_id user_id in ground (arith, passed, same)) in
      inr (
        t,
        ground (arith, made, live),
        inr (
          k,
          c,
          stored,
          own,
          live,
          λ j.
              (let law =
                  P.find_unique-update k (revoke_row by.now (ban_text reason)) s.certificates t j
                    made in
                ground (arith, law, stored, eq_iff k j)),
        ),
      )

  -- The first write of the transaction.
  revoked_cases :
      (user_id : String) (by : Reviewer) (reason : String) (s : Store)
      → (found : Option (String × PersonalCertificate)) × (P.find_first
            (unrevoked_of user_id)
            s.certificates
          ≡ found)
        × FirstWrite user_id by reason s found
  unfolding ◌>>=◌
  revoked_cases user_id by reason s =
      elim (find_first_cases (unrevoked_of user_id) s.certificates) [
        | inl nothing ↦ (
          none,
          nothing,
          inr (
            s.certificates,
            refl,
            inl (
              refl,
              λ j c stored own.
                  (let same = (eq_iff c.user_id user_id).1 own in
                    let passed =
                      P.find_first_none (unrevoked_of user_id) s.certificates j c nothing stored in
                    ground (arith, same, passed)),
            ),
          ),
        )
        | inr (k, c, first, stored, passed) ↦
            (some (k, c), first, revoked_by user_id by reason s k c _ stored passed refl)
      ]

  -- Once all the writes are made, only the notices follow.
  written :
      (user_id : String) (by : Reviewer) (raw : String) (s s' : Store) (view : PolicyView)
      (u : UserRow) (found : Option (String × PersonalCertificate))
      (t : P.Table PersonalCertificate) (a : P.Table AccessPolicy) (n : P.Table CertificateRequest)
      → ensure_user_exists user_id s ≡ (ok u, s)
      → P.find_first (unrevoked_of user_id) s.certificates ≡ found
      → revoke_found found (trim raw) by.now s ≡ (ok tt, record s { certificates = t })
      → P.upsert
          (policy_of user_id)
          (banned_policy user_id by.admin_id (trim raw) by.now)
          (ban_policy by.admin_id (trim raw) by.now)
          s.access_policies
        ≡ done a
      → P.update_many (pending_of user_id) (cancel_row (trim raw) by.now) s.certificate_requests
        ≡ done n
      → ban_certificate_access_for_user user_id by raw s ≡ (ok view, s')
      → s'
        ≡ (announce_user_banned user_id u found by
            (trim raw)
            (record s { certificates = t; access_policies = a; certificate_requests = n })).1
  unfolding ban_certificate_access_for_user ◌>>=◌
  written user_id by raw s s' view u found t a n user first good made cancelled h =
      let mid : Store = record s {
        certificates = t;
        access_policies = a;
        certificate_requests = n;
      } in
      let told = announce_user_banned-OnlyNotifies user_id u found by (trim raw) mid in
      let reread =
        get_certificate_access_policy_lem user_id
          (announce_user_banned user_id u found by (trim raw) mid).1 in
      ground (arith, user, first, good, made, cancelled, told, reread, h)

  committed :
      (user_id : String) (by : Reviewer) (raw : String) (s s' : Store) (view : PolicyView)
      (u : UserRow) (found : Option (String × PersonalCertificate))
      (t : P.Table PersonalCertificate) (a : P.Table AccessPolicy) (n : P.Table CertificateRequest)
      → ensure_user_exists user_id s ≡ (ok u, s)
      → P.find_first (unrevoked_of user_id) s.certificates ≡ found
      → revoke_found found (trim raw) by.now s ≡ (ok tt, record s { certificates = t })
      → P.upsert
          (policy_of user_id)
          (banned_policy user_id by.admin_id (trim raw) by.now)
          (ban_policy by.admin_id (trim raw) by.now)
          s.access_policies
        ≡ done a
      → P.update_many (pending_of user_id) (cancel_row (trim raw) by.now) s.certificate_requests
        ≡ done n
      → OneRevoked user_id by (trim raw) s.certificates t
      → ban_certificate_access_for_user user_id by raw s ≡ (ok view, s')
      → UserBanned user_id by (trim raw) s s'
  committed user_id by raw s s' view u found t a n user first good made cancelled certificates h =
      let mid : Store = record s {
        certificates = t;
        access_policies = a;
        certificate_requests = n;
      } in
      let told = announce_user_banned-OnlyNotifies user_id u found by (trim raw) mid in
      let end = written user_id by raw s s' view u found t a n user first good made cancelled h in
      let notified : s' ≡ record mid { audit_logs = s'.audit_logs; mails = s'.mails } =
        rw end (ground (arith, told)) in
      let (k, policy, ban, terms, others) =
        policy_by user_id by.admin_id (trim raw) by.now s.access_policies a _ refl made in
      record {
        policy_id = k;
        policy = policy;
        ban = rw notified ban;
        terms = terms;
        others = λ j apart. rw notified (others j apart);
        certificates = rw notified certificates;
        requests = rw notified (
            update_many-CancelledRequests user_id (trim raw) by.now s.certificate_requests n
              cancelled);
        rest = rw notified refl;
      }

  -- By the outcome of each write.
  banned_by :
      (user_id : String) (by : Reviewer) (raw : String) (s s' : Store) (view : PolicyView)
      (u : Reply UserRow) (found : Option (String × PersonalCertificate))
      (p : Query (P.Table AccessPolicy)) (n : Query (P.Table CertificateRequest))
      → ensure_user_exists user_id s ≡ (u, s)
      → P.find_first (unrevoked_of user_id) s.certificates ≡ found
      → FirstWrite user_id by (trim raw) s found
      → P.upsert
          (policy_of user_id)
          (banned_policy user_id by.admin_id (trim raw) by.now)
          (ban_policy by.admin_id (trim raw) by.now)
          s.access_policies
        ≡ p
      → P.update_many (pending_of user_id) (cancel_row (trim raw) by.now) s.certificate_requests ≡ n
      → ban_certificate_access_for_user user_id by raw s ≡ (ok view, s')
      → UserBanned user_id by (trim raw) s s'
  unfolding ban_certificate_access_for_user ◌>>=◌
  banned_by user_id by raw s s' view (throw e) found p n user first gone made cancelled h =
      absurd (ground (arith, user, h))
  banned_by user_id by raw s s' view (ok u) found p n user first (inl (e, bad)) made cancelled h =
      absurd (ground (arith, user, first, bad, h))
  banned_by user_id by raw s s' view (ok u) found (failed e) n user first
        (inr (t, good, certificates)) made cancelled h =
      absurd (ground (arith, user, first, good, made, h))
  banned_by user_id by raw s s' view (ok u) found (done a) (failed e) user first
        (inr (t, good, certificates)) made cancelled h =
      absurd (ground (arith, user, first, good, made, cancelled, h))
  banned_by user_id by raw s s' view (ok u) found (done a) (done n) user first
        (inr (t, good, certificates)) made cancelled h =
      committed user_id by raw s s' view u found t a n user first good made cancelled certificates h

  -- A ban of a user leaves a policy that bans them with the trimmed reason, the administrator and
  -- the time, and each of their pending requests cancelled. Of their certificates that are not
  -- revoked one is revoked, if there is any, and the others stay as they are. Every other policy,
  -- certificate and request is as before, and but for the trail and the mails no other table
  -- changes.
  pub ban_certificate_access_for_user-UserBanned :
      (user_id : String) (by : Reviewer) (raw : String) (s s' : Store) (view : PolicyView)
      → ban_certificate_access_for_user user_id by raw s ≡ (ok view, s')
      → UserBanned user_id by (trim raw) s s'
  ban_certificate_access_for_user-UserBanned user_id by raw s s' view h =
      let (found, first, revoked) = revoked_cases user_id by (trim raw) s in
      banned_by user_id by raw s s' view _ found _ _ (ensure_user_exists_lem user_id s) first
        revoked refl refl h
