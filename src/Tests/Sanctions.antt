-- ===== src/Tests/Sanctions.antt =====
-- The revocation of certificates on the sample state.
use gracon_admin_service.Prelude.{trim, true, some, ◌≡◌, refl, ◌↔◌, ◌≤◌, ◌<◌, false}
use gracon_admin_service.Prisma.ListTable.{list_tables}
use gracon_admin_service.Http.{◌>>=◌}
use gracon_admin_service.Models.{Store}
use gracon_admin_service.Audit.{log}
use gracon_admin_service.Mailer.{send_certificate_revoked_email}
use gracon_admin_service.Certificates.{
  Reviewer, CertificateRow, active, expired, revoked, derive_certificate_status, revoke_certificate,
  reissue_certificate, find_certificate_or_throw, announce_revoked, revoke_row, superseded_reason,
}
use gracon_admin_service.Certificates.Status.{derive_certificate_status_iff}
use gracon_admin_service.Certificates.Revocation.{Revoked, revoke_certificate-Revoked}
use gracon_admin_service.Tests.Fixture.{start, certificate, user, identity}

abbrev by : Reviewer
by = record { admin_id = "a1"; ip_address = some "10.0.0.1"; now = 90 }

derive_certificate_status_iff_example :
    ((derive_certificate_status certificate 400 ≡ revoked) ↔ (false ≡ true))
    × ((derive_certificate_status certificate 400 ≡ expired) ↔ ((false ≡ false) × (400 ≤ 400)))
    × ((derive_certificate_status certificate 400 ≡ active) ↔ ((false ≡ false) × (400 < 400)))
derive_certificate_status_iff_example = derive_certificate_status_iff certificate 400

gone : Store
gone = (revoke_certificate "x1" by "lost" "keyCompromise" start).1

abbrev gone_row : CertificateRow
gone_row = record {
  id = "x1";
  certificate = revoke_row 90 "lost" certificate;
  user = user;
  identity = some identity;
}

revoke_certificate-Revoked_example : Revoked "x1" by "lost" start gone_row gone
unfolding gone revoke_certificate announce_revoked send_certificate_revoked_email log start
    list_tables find_certificate_or_throw trim ◌>>=◌
revoke_certificate-Revoked_example =
    revoke_certificate-Revoked "x1" by "lost" "keyCompromise" start gone gone_row refl

superseded : Store
superseded = (reissue_certificate "x1" by "new name" start).1

abbrev superseded_row : CertificateRow
superseded_row = record gone_row {
  certificate = revoke_row 90 (superseded_reason "new name") certificate;
}
