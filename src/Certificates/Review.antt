-- ===== src/Certificates/Review.antt =====
-- src/modules/certificates/signature-service.client.ts and the review of certificate requests in
-- admin-certificates.service.ts. The signature service itself, which issues the certificate, is a
-- parameter: what a call does to the shared database, and its response, if one arrives. A handler
-- replies with the request as it stands at its end, from which the page is built.
use gracon_admin_service.Prelude.{
  ℕ, String, Bool, not, ◌&&◌, ◌||◌, Option, none, some, [], ◌∷◌, eqb, leb, if◌then◌else◌, trim,
  or_else,
}
use gracon_admin_service.Prisma.{Prisma}
use gracon_admin_service.Http.{
  Handler, Reply, ok, throw, bad_request, not_found, conflict, internal, unavailable, gets, require,
  reject_if, ◌>>=◌, ◌>>◌,
}
use gracon_admin_service.Models.{
  CertificateRequest, AdminAuditLog, MetaValue, text, null, certificate_request_approved,
  certificate_request_rejected, Store,
}
use gracon_admin_service.Audit.{log}
use gracon_admin_service.Certificates.{Reviewer, certificate_entry}
use gracon_admin_service.Certificates.Bans.{is_pending}

pub data ReviewAction : Type 0 where
  approve reject : ReviewAction

pub record ReviewRequestPayload : Type 0 where
  pub admin_id : String
  pub reason : String

-- The fields that are read of a JSON body.
pub record Body : Type 0 where
  pub id : Option String
  pub message : Option String

-- `body` is nothing when it is not JSON.
pub record Response : Type 0 where
  pub status : ℕ
  pub body : Option Body

abbrev response_ok : ℕ → Bool
response_ok status = leb 200 status && leb status 299

abbrev pub rejected_message : String
rejected_message = "Signature service rejected the request."

abbrev pub unavailable_message : String
unavailable_message = "Signature service is currently unavailable. Please try again shortly."

unfoldable pub safe_read_error_message : Option Body → String
safe_read_error_message none = rejected_message
safe_read_error_message (some b) = or_else b.message rejected_message

-- The body of an accepted response; what is not JSON is an exception that nobody catches.
abbrev read_body : Option Body → Reply Body
read_body none = throw (internal "Internal server error")
read_body (some b) = ok b

-- The chain of tests on the status.
unfoldable pub interpret : Response → Reply Body
unfolding safe_read_error_message
interpret r =
    if eqb r.status 404
    then throw (not_found "Certificate request not found.")
    else if eqb r.status 400
    then throw (bad_request (safe_read_error_message r.body))
    else if eqb r.status 401 || eqb r.status 403
    then throw (
        internal
          "Signature service internal authentication failed. Check the review bridge credentials.")
    else if eqb r.status 409
    then throw (conflict (safe_read_error_message r.body))
    else if leb 500 r.status
    then throw (unavailable unavailable_message)
    else if not (response_ok r.status)
    then throw (internal (safe_read_error_message r.body))
    else read_body r.body

abbrev id_value : Option String → Option String → MetaValue
id_value (some id) _ = text id
id_value none (some id) = text id
id_value none none = null

abbrev pub approved_entry : Reviewer → String → CertificateRequest → Body → String → AdminAuditLog
approved_entry by id r certificate reason =
    record (certificate_entry by certificate_request_approved r.user_id) {
      metadata =
          ("requestId", text id)
          ∷ ("issuedCertificateId", id_value certificate.id r.issued_certificate_id)
          ∷ ("reason", text reason)
          ∷ [];
    }

abbrev rejected_entry : Reviewer → String → CertificateRequest → String → AdminAuditLog
rejected_entry by id r reason =
    record (certificate_entry by certificate_request_rejected r.user_id) {
      metadata = ("requestId", text id) ∷ ("reason", text reason) ∷ [];
    }

module _ ⦃P : Prisma⦄ where
  -- One call of the signature service.
  abbrev pub Fetch : Type 0
  Fetch = String → ReviewAction → ReviewRequestPayload → Store → Option Response × Store

  abbrev answered : Option Response × Store → Reply Body × Store
  answered (none, s) = (throw (unavailable unavailable_message), s)
  answered (some r, s) = (interpret r, s)

  unfoldable pub send_review_request :
      Fetch → String → ReviewAction → ReviewRequestPayload → Handler Store Body
  send_review_request fetch request_id action payload s =
      answered (fetch request_id action payload s)

  unfoldable pub find_certificate_request_or_throw : String → Handler Store CertificateRequest
  find_certificate_request_or_throw id = do
    found ← gets (λ s. P.find_unique id s.certificate_requests)
    require found (not_found "Certificate request not found.")

  abbrev pub ensure_pending_request : CertificateRequest → Handler Store (Unit {0})
  ensure_pending_request r =
      reject_if (not (is_pending r.status))
        (conflict "Only pending certificate requests can be reviewed.")

  unfoldable pub approve_certificate_request :
      Fetch → String → Reviewer → String → Handler Store CertificateRequest
  approve_certificate_request fetch id by raw_reason = do
    r ← find_certificate_request_or_throw id
    ensure_pending_request r
    certificate ←
        send_review_request fetch id approve
          (record { admin_id = by.admin_id; reason = trim raw_reason })
    log (approved_entry by id r certificate (trim raw_reason))
    find_certificate_request_or_throw id

  unfoldable pub reject_certificate_request :
      Fetch → String → Reviewer → String → Handler Store CertificateRequest
  reject_certificate_request fetch id by raw_reason = do
    r ← find_certificate_request_or_throw id
    ensure_pending_request r
    send_review_request fetch id reject
        (record { admin_id = by.admin_id; reason = trim raw_reason })
    log (rejected_entry by id r (trim raw_reason))
    find_certificate_request_or_throw id
