-- ===== src/Certificates/Banning.antt =====
-- A ban from certificates: its effect on the policy, the certificate and the pending requests.
pub mod Writes
use gracon_admin_service.Prelude.{
  ℕ, String, Bool, true, false, not, some, ◌≡◌, refl, sym, arith, trim,
}
use gracon_admin_service.Prisma.{Prisma}
use gracon_admin_service.Http.{Reply, Handler, ok, throw, when, ◌>>=◌, ◌>>◌}
use gracon_admin_service.Models.{PersonalCertificate, Store}
use gracon_admin_service.Audit.{log, OnlyNotifies, OnlyNotifies-bind, log-OnlyNotifies}
use gracon_admin_service.Mailer.{send_certificate_access_banned_email}
use gracon_admin_service.Certificates.{
  Reviewer, CertificateRow, find_certificate_or_throw, revoked_entry, build_user_name,
}
use gracon_admin_service.Certificates.Status.{
  find_certificate_or_throw_lem, find_certificate_or_throw-Found,
}
use gracon_admin_service.Certificates.Bans.{
  ban_certificate_access_from_certificate, announce_banned, ban_text, ban_entry,
}
use gracon_admin_service.Certificates.Banning.Writes.{
  Banned, Steps, Steps-by, Banned-of_Steps, ban_steps,
}

module _ ⦃P : Prisma⦄ where
  when-OnlyNotifies :
      (b : Bool) (m : Handler Store (Unit {0})) → OnlyNotifies m → OnlyNotifies (when b m)
  unfolding ◌>>=◌
  when-OnlyNotifies true m n s = n s
  when-OnlyNotifies false m n s = refl

  announce_banned-OnlyNotifies :
      (row : CertificateRow) (by : Reviewer) (reason : String)
      → OnlyNotifies (announce_banned row by reason)
  unfolding announce_banned send_certificate_access_banned_email
  announce_banned-OnlyNotifies row by reason =
      let revocation =
        log (revoked_entry by row.id row.certificate "cessationOfOperation" (ban_text reason)) in
      let mail : Handler Store (Unit {0}) =
        send_certificate_access_banned_email row.user.email (build_user_name row.user row.identity)
          reason by.now in
      OnlyNotifies-bind (log (ban_entry by reason row.id row.certificate))
        (when (not row.certificate.is_revoked) revocation >> mail)
        (log-OnlyNotifies (ban_entry by reason row.id row.certificate))
        (OnlyNotifies-bind (when (not row.certificate.is_revoked) revocation) mail
          (when-OnlyNotifies (not row.certificate.is_revoked) revocation (
            log-OnlyNotifies
              (revoked_entry by row.id row.certificate "cessationOfOperation" (ban_text reason))))
          (λ t. refl))

  -- Notifications touch neither the policies nor the certificates nor the requests.
  Banned-notified :
      (id user_id admin_id reason : String) (at : ℕ) (old : PersonalCertificate) (s mid s' : Store)
      → s' ≡ record mid { audit_logs = s'.audit_logs; mails = s'.mails }
      → Banned id user_id admin_id reason at old s mid
      → Banned id user_id admin_id reason at old s s'
  Banned-notified id user_id admin_id reason at old s mid s' e b = record {
    policy_id = b.policy_id;
    policy = b.policy;
    ban = rw e b.ban;
    terms = b.terms;
    others = λ j h. rw e (b.others j h);
    certificates = λ j. rw e (b.certificates j);
    requests = rw e b.requests;
  }

  -- A ban, and that it leaves the other tables as they are.
  pub record BannedFrom (id : String) (by : Reviewer) (reason : String) (s s' : Store)
      : Type 0 where
    pub old : PersonalCertificate
    pub stored : P.find_unique id s.certificates ≡ some old
    pub ban : Banned id old.user_id by.admin_id reason by.now old s s'
    pub rest : s' ≡ record s {
      certificates = s'.certificates;
      access_policies = s'.access_policies;
      certificate_requests = s'.certificate_requests;
      audit_logs = s'.audit_logs;
      mails = s'.mails;
    }

  committed_by :
      (id : String) (by : Reviewer) (raw : String) (s s' : Store) (row old : CertificateRow)
      (r : Reply (Unit {0}) × Store)
      → find_certificate_or_throw id s ≡ (ok old, s)
      → ban_steps old.id old.certificate by.admin_id (trim raw) by.now s ≡ r
      → ban_certificate_access_from_certificate id by raw s ≡ (ok row, s')
      → BannedFrom id by (trim raw) s s'
  unfolding ban_certificate_access_from_certificate ◌>>=◌
  committed_by id by raw s s' row old (throw e, t) found made h = absurd (ground arith)
  committed_by id by raw s s' row old (ok x, mid) found made h =
      let f = find_certificate_or_throw-Found id s s old found in
      let same = f.same_id in
      let told = announce_banned-OnlyNotifies old by (trim raw) mid in
      let after : Store = (announce_banned old by (trim raw) mid).1 in
      let reread = find_certificate_or_throw_lem old.id after in
      let end : s' ≡ after = ground (arith, told, reread) in
      let notified : s' ≡ record mid { audit_logs = s'.audit_logs; mails = s'.mails } =
        rw end (ground (arith, told)) in
      let steps =
        Steps-by old.id old.certificate by.admin_id (trim raw) by.now s mid _ _ _ _ refl refl refl
          refl made in
      let at_id : Steps id old.certificate by.admin_id (trim raw) by.now s mid =
        rw (sym same) steps in
      record {
        old = old.certificate;
        stored = f.stored;
        ban =
            Banned-notified id old.certificate.user_id by.admin_id (trim raw) by.now old.certificate
              s mid s' notified
              (Banned-of_Steps id old.certificate by.admin_id (trim raw) by.now s mid f.stored
                at_id);
        rest = (let kept = at_id.rest in ground (arith, notified, kept));
      }

  banned_by :
      (id : String) (by : Reviewer) (raw : String) (s s' : Store) (row : CertificateRow)
      (read : Reply CertificateRow)
      → find_certificate_or_throw id s ≡ (read, s)
      → ban_certificate_access_from_certificate id by raw s ≡ (ok row, s')
      → BannedFrom id by (trim raw) s s'
  unfolding ban_certificate_access_from_certificate ◌>>=◌
  banned_by id by raw s s' row (throw e) found h = absurd (ground arith)
  banned_by id by raw s s' row (ok old) found h = committed_by id by raw s s' row old _ found refl h

  -- A ban from a certificate succeeds only for a stored certificate. It leaves a policy that bans
  -- its owner with the trimmed reason, the administrator and the time, the certificate revoked (as
  -- it was, if it was revoked already), and each pending request of the owner cancelled; every
  -- other policy, certificate and request is as before, and but for the trail and the mails no
  -- other table changes.
  pub ban_certificate_access_from_certificate-BannedFrom :
      (id : String) (by : Reviewer) (raw : String) (s s' : Store) (row : CertificateRow)
      → ban_certificate_access_from_certificate id by raw s ≡ (ok row, s')
      → BannedFrom id by (trim raw) s s'
  ban_certificate_access_from_certificate-BannedFrom id by raw s s' row h =
      banned_by id by raw s s' row _ (find_certificate_or_throw_lem id s) h
