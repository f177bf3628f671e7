-- ===== src/Certificates/Revocation.antt =====
-- Revoking one certificate, for good.
use gracon_admin_service.Prelude.{
  String, true, false, some, ◌≡◌, refl, ◌==◌, eq_iff, eq_refl, if◌then◌else◌, arith, trim,
}
use gracon_admin_service.Prisma.{Prisma, Query, done, failed}
use gracon_admin_service.Http.{Reply, ok, throw, conflict, ◌>>=◌}
use gracon_admin_service.Models.{User, PersonalCertificate, Store}
use gracon_admin_service.Audit.{log, log_lem, OnlyNotifies, OnlyNotifies-bind, log-OnlyNotifies}
use gracon_admin_service.Mailer.{send_certificate_revoked_email}
use gracon_admin_service.Certificates.{
  Reviewer, CertificateRow, revoke_certificate, reissue_certificate, find_certificate_or_throw,
  announce_revoked, revoke_row, revoked_entry, reissue_entry, superseded_reason, build_user_name,
  derive_certificate_status,
}
use gracon_admin_service.Certificates.Status.{
  Found, find_certificate_or_throw_lem, find_certificate_or_throw-Found,
  find_certificate_or_throw_stored,
}

module _ ⦃P : Prisma⦄ where
  -- What a successful revocation shows and does; `reason` is what the certificate keeps.
  pub record Revoked (id : String) (by : Reviewer) (reason : String) (s : Store)
      (row : CertificateRow) (s' : Store) : Type 0 where
    pub old : PersonalCertificate
    pub owner : User
    pub stored : P.find_unique id s.certificates ≡ some old
    pub owned : P.find_unique old.user_id s.users ≡ some owner
    pub unrevoked : old.is_revoked ≡ false
    pub certificates :
        (j : String)
        → P.find_unique j s'.certificates ≡ (
            if id == j
            then some (record old {
              is_revoked = true;
              revoked_at = some by.now;
              revoked_reason = some reason;
            })
            else P.find_unique j s.certificates)
    pub reply :
        row.certificate
        ≡ record old { is_revoked = true; revoked_at = some by.now; revoked_reason = some reason }
    pub rest :
        s'
        ≡ record s { certificates = s'.certificates; audit_logs = s'.audit_logs; mails = s'.mails }

  pub announce_revoked-OnlyNotifies :
      (row : CertificateRow) (by : Reviewer) (code reason : String)
      → OnlyNotifies (announce_revoked row by code reason)
  unfolding announce_revoked send_certificate_revoked_email ◌>>=◌
  announce_revoked-OnlyNotifies row by code reason s =
      OnlyNotifies-bind (log (revoked_entry by row.id row.certificate code reason))
        (send_certificate_revoked_email row.user.email (build_user_name row.user row.identity)
          reason by.now)
        (log-OnlyNotifies (revoked_entry by row.id row.certificate code reason)) (λ t. refl) s

  -- The effect, from the row that was found and the state in which it is read again.
  Revoked-effect :
      (id : String) (by : Reviewer) (reason : String) (s s' : Store) (old row : CertificateRow)
      (t : P.Table PersonalCertificate)
      → Found id s old
      → old.certificate.is_revoked ≡ false
      → P.update id (revoke_row by.now reason) s.certificates ≡ done t
      → s' ≡ record s { certificates = t; audit_logs = s'.audit_logs; mails = s'.mails }
      → Found id s' row
      → Revoked id by reason s row s'
  Revoked-effect id by reason s s' old row t found live made end again = record {
    old = old.certificate;
    owner = old.user;
    stored = found.stored;
    owned = found.owned;
    unrevoked = live;
    certificates = rows;
    reply = (let was = again.stored in let new = rows id in ground (arith, was, new, eq_refl id));
    rest = rw end;
  }
    where
      rows :
          (j : String)
          → P.find_unique j s'.certificates ≡ (
              if id == j
              then some (revoke_row by.now reason old.certificate)
              else P.find_unique j s.certificates)
      rows j =
          let law = P.find_unique-update id (revoke_row by.now reason) s.certificates t j made in
          let was = found.stored in rw end (ground (arith, law, was, eq_iff id j))

  Revoked-by :
      (id : String) (by : Reviewer) (raw code : String) (s s' : Store) (row : CertificateRow)
      (r : Reply CertificateRow) (q : Query (P.Table PersonalCertificate))
      → find_certificate_or_throw id s ≡ (r, s)
      → P.update id (revoke_row by.now (trim raw)) s.certificates ≡ q
      → revoke_certificate id by raw code s ≡ (ok row, s')
      → Revoked id by (trim raw) s row s'
  unfolding revoke_certificate ◌>>=◌
  Revoked-by id by raw code s s' row (throw e) q read made h = absurd (ground arith)
  Revoked-by id by raw code s s' row (ok old) (failed e) read made h =
      (let f = find_certificate_or_throw-Found id s s old read in
        let same = f.same_id in absurd (ground (arith, same)))
  Revoked-by id by raw code s s' row (ok old) (done t) read made h =
      let f = find_certificate_or_throw-Found id s s old read in
      let same = f.same_id in
      let mid : Store = record s { certificates = t } in
      let told = announce_revoked-OnlyNotifies old by code (trim raw) mid in
      let after : Store = (announce_revoked old by code (trim raw) mid).1 in
      let reread = find_certificate_or_throw_lem id after in
      let end : s' ≡ after = ground (arith, same, told, reread) in
      Revoked-effect id by (trim raw) s s' old row t f (ground arith) made
        (rw end (ground (arith, told)))
        (rw end
          (find_certificate_or_throw-Found id after after row (ground (arith, same, told, reread))))

  -- A revocation succeeds only for a stored certificate that is not revoked; the certificate is
  -- marked with the time and the trimmed reason, and but for the trail and the mails nothing else
  -- changes. The reply shows the revoked certificate.
  pub revoke_certificate-Revoked :
      (id : String) (by : Reviewer) (raw code : String) (s s' : Store) (row : CertificateRow)
      → revoke_certificate id by raw code s ≡ (ok row, s')
      → Revoked id by (trim raw) s row s'
  revoke_certificate-Revoked id by raw code s s' row h =
      Revoked-by id by raw code s s' row _ _ (find_certificate_or_throw_lem id s) refl h

  reissued_by :
      (id : String) (by : Reviewer) (raw : String) (s s' : Store) (row : CertificateRow)
      (r : Reply CertificateRow) (q : Query (P.Table PersonalCertificate))
      → find_certificate_or_throw id s ≡ (r, s)
      → P.update id (revoke_row by.now (superseded_reason (trim raw))) s.certificates ≡ q
      → reissue_certificate id by raw s ≡ (ok row, s')
      → Revoked id by (superseded_reason (trim raw)) s row s'
  unfolding reissue_certificate derive_certificate_status ◌>>=◌
  reissued_by id by raw s s' row (throw e) q read made h = absurd (ground arith)
  reissued_by id by raw s s' row (ok old) (failed e) read made h =
      (let f = find_certificate_or_throw-Found id s s old read in
        let same = f.same_id in absurd (ground (arith, same)))
  reissued_by id by raw s s' row (ok old) (done t) read made h =
      let f = find_certificate_or_throw-Found id s s old read in
      let same = f.same_id in
      let mid : Store = record s { certificates = t } in
      let entry = reissue_entry by old.id old.certificate (trim raw) in
      let told = log_lem entry mid in
      let after : Store = (log entry mid).1 in
      let reread = find_certificate_or_throw_lem id after in
      let end : s' ≡ after = ground (arith, same, told, reread) in
      Revoked-effect id by (superseded_reason (trim raw)) s s' old row t f (ground arith) made
        (rw end (ground (arith, told)))
        (rw end
          (find_certificate_or_throw-Found id after after row (ground (arith, same, told, reread))))

  -- A reissue revokes the certificate under the same conditions, with a reason that says that it
  -- is superseded, and sends no mail.
  pub reissue_certificate-Revoked :
      (id : String) (by : Reviewer) (raw : String) (s s' : Store) (row : CertificateRow)
      → reissue_certificate id by raw s ≡ (ok row, s')
      → Revoked id by (superseded_reason (trim raw)) s row s'
  reissue_certificate-Revoked id by raw s s' row h =
      reissued_by id by raw s s' row _ _ (find_certificate_or_throw_lem id s) refl h

  pub refused_on :
      (id : String) (by : Reviewer) (raw code : String) (s : Store) (row : CertificateRow)
      → find_certificate_or_throw id s ≡ (ok row, s)
      → row.certificate.is_revoked ≡ true
      → (revoke_certificate id by raw code s
          ≡ (throw (conflict "Certificate is already revoked."), s))
        × (reissue_certificate id by raw s ≡ (
          throw (conflict "Certificate is already revoked — issue a new one from the user app."),
          s,
        ))
  unfolding revoke_certificate reissue_certificate derive_certificate_status ◌>>=◌
  refused_on id by raw code s row read gone = (ground arith, ground arith)

  -- Once revoked, for good: after a revocation every further revocation or reissue of the
  -- certificate, by whom and whenever, answers 409 and changes nothing.
  pub revoke_certificate_final :
      (id : String) (by again : Reviewer) (raw code more other : String) (s s' : Store)
      (row : CertificateRow)
      → revoke_certificate id by raw code s ≡ (ok row, s')
      → (revoke_certificate id again more other s'
          ≡ (throw (conflict "Certificate is already revoked."), s'))
        × (reissue_certificate id again more s' ≡ (
          throw (conflict "Certificate is already revoked — issue a new one from the user app."),
          s',
        ))
  revoke_certificate_final id by again raw code more other s s' row h =
      let r = revoke_certificate-Revoked id by raw code s s' row h in
      let new : P.find_unique id s'.certificates ≡ some (revoke_row by.now (trim raw) r.old) =
        (let rows = r.certificates id in ground (arith, rows, eq_refl id)) in
      let owned : P.find_unique r.old.user_id s'.users ≡ some r.owner =
        (let rest = r.rest in let own = r.owned in ground (arith, rest, own)) in
      let (found, read, _, same) =
        find_certificate_or_throw_stored id s' (revoke_row by.now (trim raw) r.old) r.owner new
          owned in
      refused_on id again more other s' found read (rw same refl)
