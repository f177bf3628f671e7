-- ===== src/Tests/Api.antt =====
-- Requests to the API, and a short life of the service, on the sample state.
use gracon_admin_service.Prelude.{String, [], ◌∷◌, true, none, some, Option, ◌≡◌, refl}
use gracon_admin_service.Prisma.ListTable.{list_tables}
use gracon_admin_service.Prisma.Search.ListSearch.{list_search}
use gracon_admin_service.Http.{throw, HttpException, unauthorized, conflict, ◌>>=◌}
use gracon_admin_service.Models.{Store, AdminAuditLog, approved, super_admin, PersonalCertificate}
use gracon_admin_service.Audit.{log}
use gracon_admin_service.Access.{
  AdminJwtPayload, CurrentAdmin, validate, handle_request, can_activate,
}
use gracon_admin_service.Access.Rules.{Entitled}
use gracon_admin_service.Mailer.{send_certificate_revoked_email}
use gracon_admin_service.Certificates.{
  Reviewer, revoke_certificate, reissue_certificate, find_certificate_or_throw, announce_revoked,
  revoked_entry,
}
use gracon_admin_service.Certificates.Review.{
  Fetch, approve_certificate_request, reject_certificate_request,
}
use gracon_admin_service.Growth.{Grows, Grows-same}
use gracon_admin_service.Api.{
  Request, route, extract_ip, post_refresh, post_certificate_revoke, post_signature_revoke,
}
use gracon_admin_service.Api.Context.{Outside}
use gracon_admin_service.Api.Controllers.{perform, serve}
use gracon_admin_service.Api.Lifetime.{Reach, here, next, request_served, cleaned_up, Reach-Grows}
use gracon_admin_service.Api.Guarding.{serve_guarded, IsOpen, serve_without_token}
use gracon_admin_service.Api.Finality.{revoked_for_good, settled_for_good}
use gracon_admin_service.Tests.Fixture.{runtime, start, root, user, certificate, request}
use gracon_admin_service.Maintenance.{cleanup_expired_tokens}
use gracon_admin_service.Tests.Accounts.{sealed_cipher}

-- A signature service that is down.
abbrev down : Fetch ⦃P = list_tables⦄
down id action payload s = (none, s)

abbrev outside : Outside ⦃P = list_tables⦄
outside = record {
  runtime = runtime;
  cipher = sealed_cipher;
  fetch = down;
  is_uuid = λ id. true;
  search = list_search;
  created_at = λ id. 0;
}

abbrev badge : AdminJwtPayload
badge = record { sub = "a1"; email = "ada@x"; role = super_admin; token_type = "admin" }

abbrev ada : CurrentAdmin
ada = record { admin_id = "a1"; email = "ada@x"; role = super_admin; token_type = "admin" }

abbrev call_of : Option AdminJwtPayload → Request
call_of token = record {
  token = token;
  forwarded_for = some "10.1.1.1, 10.2.2.2";
  remote_address = some "10.3.3.3";
  ip = some "10.3.3.3";
  user_agent = none;
  checked = 100;
  now = 100;
  random_token = "fresh";
  salt = "salt";
}

ada-Entitled :
    Entitled badge (route (post_certificate_revoke "x1" "stolen" "KEY_COMPROMISE")) start ada
unfolding route start list_tables
ada-Entitled = record {
  of_admin = refl;
  account = root;
  stored = refl;
  active = refl;
  verified = refl;
  user = refl;
  role = λ r e. cc;
}

serve_guarded_example :
    ((payload : AdminJwtPayload) (who : CurrentAdmin)
      → (call_of (some badge)).token ≡ some payload
      → Entitled payload (route (post_certificate_revoke "x1" "stolen" "KEY_COMPROMISE")) start who
      → serve outside
          (post_certificate_revoke "x1" "stolen" "KEY_COMPROMISE")
          (call_of (some badge))
          start
        ≡ perform outside
            (post_certificate_revoke "x1" "stolen" "KEY_COMPROMISE")
            (call_of (some badge))
            (some who)
            start)
    × (((payload : AdminJwtPayload) (who : CurrentAdmin)
          → (call_of (some badge)).token ≡ some payload
          → ¬ Entitled payload
              (route (post_certificate_revoke "x1" "stolen" "KEY_COMPROMISE"))
              start
              who)
        → (e : HttpException) × (serve outside
              (post_certificate_revoke "x1" "stolen" "KEY_COMPROMISE")
              (call_of (some badge))
              start
            ≡ (throw e, start)))
unfolding route
serve_guarded_example =
    serve_guarded outside (post_certificate_revoke "x1" "stolen" "KEY_COMPROMISE")
      (call_of (some badge)) start refl

after_revocation : Store
after_revocation =
    (serve outside (post_certificate_revoke "x1" "stolen" "KEY_COMPROMISE") (call_of (some badge))
      start).1

after_signature : Store
after_signature =
    (serve outside (post_signature_revoke "x1" "again") (call_of (some badge)) after_revocation).1

life : Reach outside start after_signature
unfolding after_revocation after_signature
life =
    next
      (next here (
        request_served (post_certificate_revoke "x1" "stolen" "KEY_COMPROMISE")
          (call_of (some badge)) refl))
      (request_served (post_signature_revoke "x1" "again") (call_of (some badge)) refl)

Reach-Grows_example : Grows start after_signature
Reach-Grows_example = Reach-Grows outside (λ id action payload s. Grows-same s) life

rest_of_life : Reach outside after_revocation after_signature
unfolding after_signature
rest_of_life =
    next here (request_served (post_signature_revoke "x1" "again") (call_of (some badge)) refl)

abbrev stolen : PersonalCertificate
stolen = record certificate {
  is_revoked = true;
  revoked_at = some 100;
  revoked_reason = some "stolen";
}

abbrev ada_reviewing : Reviewer
ada_reviewing = record { admin_id = "a1"; ip_address = none; now = 200 }

revoked_for_good_example :
    (revoke_certificate "x1" ada_reviewing "lost" "LOST" after_signature
      ≡ (throw (conflict "Certificate is already revoked."), after_signature))
    × (reissue_certificate "x1" ada_reviewing "lost" after_signature ≡ (
      throw (conflict "Certificate is already revoked — issue a new one from the user app."),
      after_signature,
    ))
unfolding after_revocation serve perform route can_activate validate handle_request
    revoke_certificate log send_certificate_revoked_email announce_revoked find_certificate_or_throw
    extract_ip start list_tables ◌>>=◌
revoked_for_good_example =
    revoked_for_good outside (λ id action payload s. Grows-same s) "x1" stolen user ada_reviewing
      "lost" "LOST" refl refl refl rest_of_life

-- The call that the guard lets through.
ada_revokes :
    serve outside
      (post_certificate_revoke "x1" "stolen" "KEY_COMPROMISE")
      (call_of (some badge))
      start
    ≡ perform outside
        (post_certificate_revoke "x1" "stolen" "KEY_COMPROMISE")
        (call_of (some badge))
        (some ada)
        start
unfolding route
ada_revokes =
    (serve_guarded outside (post_certificate_revoke "x1" "stolen" "KEY_COMPROMISE")
        (call_of (some badge)) start refl).0
      badge ada refl ada-Entitled

abbrev first_entry : AdminAuditLog
first_entry =
    revoked_entry (record ada_reviewing { ip_address = some "10.3.3.3"; now = 100 }) "x1"
      certificate "KEY_COMPROMISE" "stolen"

serve_without_token_example :
    (IsOpen (post_refresh "old")
      → serve outside (post_refresh "old") (call_of none) start
        ≡ perform outside (post_refresh "old") (call_of none) none start)
    × (¬ IsOpen (post_refresh "old")
        → serve outside (post_refresh "old") (call_of none) start ≡ (
          throw (unauthorized "Admin authentication required. Please log in to the admin panel."),
          start,
        ))
    × ((raw : String) → ¬ IsOpen (post_refresh raw))
serve_without_token_example =
    serve_without_token outside (post_refresh "old") (call_of none) start refl

-- A state in which the request is decided, and the same after the cleanup.
decided : Store
unfolding start list_tables
decided = record start { certificate_requests = ("q1", record request { status = approved }) ∷ [] }

after_decision : Store
after_decision = (cleanup_expired_tokens 5 decided).1

settled_for_good_example :
    (approve_certificate_request outside.fetch "q1" ada_reviewing "again" after_decision
      ≡ (throw (conflict "Only pending certificate requests can be reviewed."), after_decision))
    × (reject_certificate_request outside.fetch "q1" ada_reviewing "again" after_decision
        ≡ (throw (conflict "Only pending certificate requests can be reviewed."), after_decision))
unfolding decided after_decision start list_tables
settled_for_good_example =
    settled_for_good outside (λ id action payload s. Grows-same s) outside.fetch "q1"
      (record request { status = approved }) ada_reviewing "again" refl (λ e. cc)
      (next here (cleaned_up 5 refl))
