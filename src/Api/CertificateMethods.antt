-- ===== src/Api/CertificateMethods.antt =====
-- The same of src/modules/certificates/admin-certificates.controller.ts and
-- src/modules/signatures/admin-signatures.controller.ts.
use gracon_admin_service.Prelude.{String, Option}
use gracon_admin_service.Prisma.{Prisma}
use gracon_admin_service.Http.{Handler, pure, ◌>>=◌, ◌>>◌}
use gracon_admin_service.Models.{Store}
use gracon_admin_service.Access.{CurrentAdmin}
use gracon_admin_service.Certificates.{revoke_certificate, reissue_certificate}
use gracon_admin_service.Certificates.Bans.{
  ban_certificate_access_from_certificate, ban_certificate_access_for_user,
  lift_certificate_access_ban,
}
use gracon_admin_service.Certificates.Review.{
  approve_certificate_request, reject_certificate_request,
}
use gracon_admin_service.Signatures.{revoke_signature}
use gracon_admin_service.Api.{Request, Answer, certificate, policy, request, signature}
use gracon_admin_service.Api.Context.{Outside, reviewer_of, parse_uuid, current_admin}

module _ ⦃P : Prisma⦄ (O : Outside) where
  abbrev pub revoke_certificate_method :
      String → String → String → Request → Option CurrentAdmin → Handler Store Answer
  revoke_certificate_method id reason crl_reason_code req who = do
    parse_uuid O id
    admin ← current_admin O who
    r ← revoke_certificate id (reviewer_of req admin) reason crl_reason_code
    pure (certificate r)

  abbrev pub reissue_certificate_method :
      String → String → Request → Option CurrentAdmin → Handler Store Answer
  reissue_certificate_method id reason req who = do
    parse_uuid O id
    admin ← current_admin O who
    r ← reissue_certificate id (reviewer_of req admin) reason
    pure (certificate r)

  abbrev pub ban_from_certificate_method :
      String → String → Request → Option CurrentAdmin → Handler Store Answer
  ban_from_certificate_method id reason req who = do
    parse_uuid O id
    admin ← current_admin O who
    r ← ban_certificate_access_from_certificate id (reviewer_of req admin) reason
    pure (certificate r)

  abbrev pub ban_for_user_method :
      String → String → Request → Option CurrentAdmin → Handler Store Answer
  ban_for_user_method id reason req who = do
    parse_uuid O id
    admin ← current_admin O who
    r ← ban_certificate_access_for_user id (reviewer_of req admin) reason
    pure (policy r)

  abbrev pub lift_ban_method :
      String → String → Request → Option CurrentAdmin → Handler Store Answer
  lift_ban_method id reason req who = do
    parse_uuid O id
    admin ← current_admin O who
    r ← lift_certificate_access_ban id (reviewer_of req admin) reason
    pure (policy r)

  abbrev pub approve_request_method :
      String → String → Request → Option CurrentAdmin → Handler Store Answer
  approve_request_method id reason req who = do
    parse_uuid O id
    admin ← current_admin O who
    r ← approve_certificate_request O.fetch id (reviewer_of req admin) reason
    pure (request r)

  abbrev pub reject_request_method :
      String → String → Request → Option CurrentAdmin → Handler Store Answer
  reject_request_method id reason req who = do
    parse_uuid O id
    admin ← current_admin O who
    r ← reject_certificate_request O.fetch id (reviewer_of req admin) reason
    pure (request r)

  abbrev pub revoke_signature_method :
      String → String → Request → Option CurrentAdmin → Handler Store Answer
  revoke_signature_method id reason req who = do
    parse_uuid O id
    admin ← current_admin O who
    r ← revoke_signature id (reviewer_of req admin) reason
    pure (signature r)
