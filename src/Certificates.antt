-- ===== src/Certificates.antt =====
-- src/modules/certificates: the rows, the status, and the two ways to revoke one certificate
-- (admin-certificates.service.ts). The clock is an argument; a handler replies with the row that
-- it reads again at its end, from which the detail page is built.
pub mod Status
pub mod Revocation
pub mod Bans
pub mod Banning
pub mod Lifting
pub mod UserBanning
pub mod Review
pub mod Reviewing
pub mod Listing
use gracon_admin_service.Prelude.{
  ℕ, String, Bool, true, false, not, Option, none, some, [], ◌∷◌, ◌==◌, if◌then◌else◌, leb, eqb,
  template, trim,
}
use gracon_admin_service.Prisma.{Prisma, query_failed}
use gracon_admin_service.Http.{
  Handler, not_found, conflict, database, pure, gets, require, reject_if, write, ◌>>=◌, ◌>>◌,
}
use gracon_admin_service.Models.{
  User, CitizenIdentity, PersonalCertificate, AdminAuditLog, AdminAction, MetaValue, text, number,
  certificate_revoked, certificate_reissue_requested, Store,
}
use gracon_admin_service.Audit.{log}
use gracon_admin_service.Mailer.{send_certificate_revoked_email}

-- The acting administrator, the address of the request, if known, and the clock.
pub record Reviewer : Type 0 where
  pub admin_id : String
  pub ip_address : Option String
  pub now : ℕ

pub data CertificateStatus : Type 0 where
  active expired revoked : CertificateStatus

unfoldable pub derive_certificate_status : PersonalCertificate → ℕ → CertificateStatus
derive_certificate_status row now =
    if row.is_revoked then revoked else if leb row.not_after now then expired else active

abbrev pub is_revoked_status : CertificateStatus → Bool
is_revoked_status revoked = true
is_revoked_status _ = false

-- A certificate with its owner, and the owner's identity if there is one.
pub record CertificateRow : Type 0 where
  pub id : String
  pub certificate : PersonalCertificate
  pub user : User
  pub identity : Option CitizenIdentity

abbrev nonempty_or : String → String → String
nonempty_or name email = if name == "" then email else name

unfoldable pub build_user_name : User → Option CitizenIdentity → String
unfolding trim
build_user_name u none = u.email
build_user_name u (some i) =
    nonempty_or (trim (template (i.post_names ∷ " " ∷ i.sur_name ∷ []))) u.email

abbrev pub missing_certificate : String
missing_certificate = "Certificate not found."

abbrev pub certificate_entry : Reviewer → AdminAction → String → AdminAuditLog
certificate_entry by action user_id = record {
  admin_id = by.admin_id;
  action = action;
  target_user_id = some user_id;
  ip_address = by.ip_address;
  metadata = [];
}

abbrev pub revoked_entry : Reviewer → String → PersonalCertificate → String → String → AdminAuditLog
revoked_entry by id c crl_reason_code reason =
    record (certificate_entry by certificate_revoked c.user_id) {
      metadata =
          ("certificateId", text id)
          ∷ ("serialNumber", text c.serial_number)
          ∷ ("crlReasonCode", text crl_reason_code)
          ∷ ("reason", text reason)
          ∷ ("revokedAt", number by.now)
          ∷ [];
    }

abbrev pub reissue_entry : Reviewer → String → PersonalCertificate → String → AdminAuditLog
reissue_entry by id c reason =
    record (certificate_entry by certificate_reissue_requested c.user_id) {
      metadata =
          ("certificateId", text id)
          ∷ ("serialNumber", text c.serial_number)
          ∷ ("reason", text reason)
          ∷ ("supersededAt", number by.now)
          ∷ [];
    }

abbrev pub revoke_row : ℕ → String → PersonalCertificate → PersonalCertificate
revoke_row at reason c = record c {
  is_revoked = true;
  revoked_at = some at;
  revoked_reason = some reason;
}

abbrev pub superseded_reason : String → String
superseded_reason reason = template ("Superseded — reissue requested by admin: " ∷ reason ∷ [])

module _ ⦃P : Prisma⦄ where
  unfoldable pub find_certificate_or_throw : String → Handler Store CertificateRow
  find_certificate_or_throw id = do
    found ← gets (λ s. P.find_unique id s.certificates)
    c ← require found (not_found missing_certificate)
    owner ← gets (λ s. P.find_unique c.user_id s.users)
    u ← require owner (database query_failed)
    identity ← gets (λ s. P.find_first (λ _ i. i.user_id == c.user_id) s.citizen_identities)
    pure (record {
      id = id;
      certificate = c;
      user = u;
      identity = elim identity [ none ↦ none | some (_, i) ↦ some i ];
    })

  abbrev pub set_revoked : String → ℕ → String → Handler Store (Unit {0})
  set_revoked id at reason =
      write (λ s. P.update id (revoke_row at reason) s.certificates)
        (λ s t. record s { certificates = t })

  -- The audit entry and the mail of a revocation.
  unfoldable pub announce_revoked :
      CertificateRow → Reviewer → String → String → Handler Store (Unit {0})
  announce_revoked row by crl_reason_code reason = do
    log (revoked_entry by row.id row.certificate crl_reason_code reason)
    send_certificate_revoked_email row.user.email (build_user_name row.user row.identity) reason
        by.now

  unfoldable pub revoke_certificate :
      String → Reviewer → String → String → Handler Store CertificateRow
  revoke_certificate id by raw_reason crl_reason_code = do
    row ← find_certificate_or_throw id
    reject_if row.certificate.is_revoked (conflict "Certificate is already revoked.")
    set_revoked row.id by.now (trim raw_reason)
    announce_revoked row by crl_reason_code (trim raw_reason)
    find_certificate_or_throw id

  unfoldable pub reissue_certificate : String → Reviewer → String → Handler Store CertificateRow
  reissue_certificate id by raw_reason = do
    row ← find_certificate_or_throw id
    reject_if (is_revoked_status (derive_certificate_status row.certificate by.now))
        (conflict "Certificate is already revoked — issue a new one from the user app.")
    set_revoked row.id by.now (superseded_reason (trim raw_reason))
    log (reissue_entry by row.id row.certificate (trim raw_reason))
    find_certificate_or_throw id
