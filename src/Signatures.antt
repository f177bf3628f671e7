-- ===== src/Signatures.antt =====
-- src/modules/signatures: a signature is a certificate with its key pair
-- (helpers/admin-signatures.helper.ts, admin-signatures.service.ts). A handler replies with the
-- row that it reads again at its end. The listing stands in Signatures/Listing.antt, the events and
-- documents of the page in Signatures/Documents.antt.
pub mod Revoking
pub mod Listing
pub mod Documents
use gracon_admin_service.Prelude.{
  ℕ, String, Bool, true, false, not, Option, none, some, [], ◌∷◌, ◌==◌, if◌then◌else◌, trim,
}
use gracon_admin_service.Prisma.{Prisma, query_failed}
use gracon_admin_service.Http.{
  Handler, not_found, conflict, database, pure, gets, require, reject_if, write, transaction, ◌>>=◌,
  ◌>>◌,
}
use gracon_admin_service.Models.{
  PersonalCertificate, PersonalKeyPair, AdminAuditLog, text, number, signature_revoked, Store,
}
use gracon_admin_service.Audit.{log}
use gracon_admin_service.Certificates.{Reviewer, certificate_entry, revoke_row, set_revoked}

pub data SignatureStatus : Type 0 where
  active revoked : SignatureStatus

pub record SignatureRow : Type 0 where
  pub id : String
  pub certificate : PersonalCertificate
  pub key_pair : PersonalKeyPair

unfoldable pub derive_signature_status : SignatureRow → SignatureStatus
derive_signature_status row =
    if row.certificate.is_revoked
    then revoked
    else if not row.key_pair.is_active
    then revoked
    else active

abbrev pub is_revoked_signature : SignatureStatus → Bool
is_revoked_signature revoked = true
is_revoked_signature active = false

abbrev pub signature_entry : Reviewer → String → PersonalCertificate → String → AdminAuditLog
signature_entry by id c reason = record (certificate_entry by signature_revoked c.user_id) {
  metadata =
      ("signatureId", text id)
      ∷ ("certificateId", text id)
      ∷ ("keyPairId", text c.key_pair_id)
      ∷ ("reason", text reason)
      ∷ ("revokedAt", number by.now)
      ∷ [];
}

module _ ⦃P : Prisma⦄ where
  unfoldable pub find_signature_or_throw : String → Handler Store SignatureRow
  find_signature_or_throw id = do
    found ← gets (λ s. P.find_unique id s.certificates)
    c ← require found (not_found "Signature not found.")
    pair ← gets (λ s. P.find_unique c.key_pair_id s.key_pairs)
    k ← require pair (database query_failed)
    pure (record { id = id; certificate = c; key_pair = k })

  abbrev pub deactivate_key_pair : String → Handler Store (Unit {0})
  deactivate_key_pair id =
      write (λ s. P.update id (λ k. record k { is_active = false }) s.key_pairs)
        (λ s t. record s { key_pairs = t })

  unfoldable pub revoke_signature : String → Reviewer → String → Handler Store SignatureRow
  revoke_signature id by raw_reason = do
    row ← find_signature_or_throw id
    reject_if (is_revoked_signature (derive_signature_status row))
        (conflict "Signature is already revoked.")
    transaction (do
      set_revoked row.id by.now (trim raw_reason)
      deactivate_key_pair row.certificate.key_pair_id)
    log (signature_entry by row.id row.certificate (trim raw_reason))
    find_signature_or_throw id
