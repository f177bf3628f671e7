-- ===== src/Tests/Operations.antt =====
-- Bans, reviews, signatures, access and maintenance on the sample state.
use gracon_admin_service.Prelude.{
  ◌≤◌, trim, false, true, some, none, [], ◌∷◌, ◌≡◌, ◌≢◌, refl, ◌↔◌, ◌⊎◌,
}
use gracon_admin_service.Prisma.ListTable.{list_tables}
use gracon_admin_service.Http.{ok, throw, unavailable, ◌>>=◌}
use gracon_admin_service.Models.{super_admin, admin, approved, allowed, banned, Store}
use gracon_admin_service.Audit.{log}
use gracon_admin_service.Mailer.{
  send_certificate_access_banned_email, send_certificate_access_restored_email,
}
use gracon_admin_service.Certificates.{
  Reviewer, CertificateRow, find_certificate_or_throw, revoke_row,
}
use gracon_admin_service.Certificates.Bans.{
  PolicyView, build_policy_view, ban_certificate_access_from_certificate, announce_banned,
  announce_lifted, announce_user_banned, ban_certificate_access_for_user,
  lift_certificate_access_ban, ban_text, ensure_user_exists, get_certificate_access_policy,
}
use gracon_admin_service.Certificates.Banning.{
  BannedFrom, ban_certificate_access_from_certificate-BannedFrom,
}
use gracon_admin_service.Certificates.UserBanning.{
  UserBanned, ban_certificate_access_for_user-UserBanned,
}
use gracon_admin_service.Certificates.Lifting.{Lifted, lift_certificate_access_ban-Lifted}
use gracon_admin_service.Certificates.Review.{
  Response, interpret, Fetch, approve, approve_certificate_request,
  find_certificate_request_or_throw, send_review_request, unavailable_message,
}
use gracon_admin_service.Certificates.Reviewing.{
  Reviewed, interpret_unavailable, approve_certificate_request-Reviewed,
}
use gracon_admin_service.Signatures.{
  SignatureRow, derive_signature_status, find_signature_or_throw, revoke_signature,
}
use gracon_admin_service.Signatures.Revoking.{Disabled, revoke_signature-Disabled}
use gracon_admin_service.Access.{AdminJwtPayload, CurrentAdmin, Route, can_activate}
use gracon_admin_service.Access.Rules.{Entitled, can_activate_iff}
use gracon_admin_service.Docs.{next, docs_auth, docs_auth_colon}
use gracon_admin_service.Maintenance.{cleanup_expired_tokens}
use gracon_admin_service.Maintenance.Cleanup.{
  Cleaned, CleanupFailed, cleanup_expired_tokens-Cleaned,
}
use gracon_admin_service.Tests.Fixture.{start, certificate, user, identity, request}

abbrev by : Reviewer
by = record { admin_id = "a1"; ip_address = some "10.0.0.1"; now = 90 }

barred : Store
barred = (ban_certificate_access_from_certificate "x1" by "fraud" start).1

abbrev barred_row : CertificateRow
barred_row = record {
  id = "x1";
  certificate = revoke_row 90 (ban_text "fraud") certificate;
  user = user;
  identity = some identity;
}

ban_certificate_access_from_certificate-BannedFrom_example : BannedFrom "x1" by "fraud" start barred
unfolding barred ban_certificate_access_from_certificate announce_banned
    send_certificate_access_banned_email log start list_tables find_certificate_or_throw trim ◌>>=◌
ban_certificate_access_from_certificate-BannedFrom_example =
    ban_certificate_access_from_certificate-BannedFrom "x1" by "fraud" start barred barred_row refl

abbrev restored_view : PolicyView
restored_view = record {
  user_id = "u1";
  status = allowed;
  is_banned = false;
  ban_reason = some "fraud";
  banned_at = some 90;
  unban_reason = some "appeal";
  unbanned_at = some 90;
}

banished : Store
banished = (ban_certificate_access_for_user "u1" by "fraud" start).1

abbrev banished_view : PolicyView
banished_view = record restored_view {
  status = banned;
  is_banned = true;
  unban_reason = none;
  unbanned_at = none;
}

ban_certificate_access_for_user-UserBanned_example : UserBanned "u1" by "fraud" start banished
unfolding banished ban_certificate_access_for_user build_policy_view announce_user_banned
    send_certificate_access_banned_email ensure_user_exists get_certificate_access_policy log start
    list_tables trim ◌>>=◌
ban_certificate_access_for_user-UserBanned_example =
    ban_certificate_access_for_user-UserBanned "u1" by "fraud" start banished banished_view refl

restored : Store
restored = (lift_certificate_access_ban "u1" by "appeal" barred).1

lift_certificate_access_ban-Lifted_example : Lifted "u1" by "appeal" barred restored
unfolding restored barred lift_certificate_access_ban build_policy_view announce_lifted
    send_certificate_access_restored_email ensure_user_exists get_certificate_access_policy
    ban_certificate_access_from_certificate announce_banned send_certificate_access_banned_email log
    start list_tables find_certificate_or_throw trim ◌>>=◌
lift_certificate_access_ban-Lifted_example =
    lift_certificate_access_ban-Lifted "u1" by "appeal" barred restored restored_view refl

-- A signature service that accepts every call and approves the request.
accepting : Fetch ⦃P = list_tables⦄
unfolding list_tables
accepting id action payload s = (
  some (record { status = 201; body = some (record { id = some "x2"; message = none }) }),
  record s { certificate_requests = ("q1", record request { status = approved }) ∷ [] },
)

reviewed : Store
reviewed = (approve_certificate_request accepting "q1" by "fine" start).1

approve_certificate_request-Reviewed_example :
    Reviewed accepting "q1" approve
      (record { admin_id = "a1"; reason = "fine" })
      start
      reviewed
      (record request { status = approved })
unfolding accepting reviewed approve_certificate_request find_certificate_request_or_throw
    send_review_request interpret log start list_tables trim ◌>>=◌
approve_certificate_request-Reviewed_example =
    approve_certificate_request-Reviewed accepting "q1" by "fine" start reviewed
      (record request { status = approved }) refl

abbrev outage : Response
outage = record { status = 503; body = none }

abbrev issued : Response
issued = record { status = 201; body = some (record { id = some "x2"; message = none }) }

interpret_unavailable_example :
    (interpret outage ≡ throw (unavailable unavailable_message)) ↔ (500 ≤ 503)
interpret_unavailable_example = interpret_unavailable outage

disabled : Store
disabled = (revoke_signature "x1" by "stolen" start).1

abbrev disabled_row : SignatureRow
disabled_row = record {
  id = "x1";
  certificate = revoke_row 90 "stolen" certificate;
  key_pair = record { algorithm = "ED25519"; is_active = false };
}

revoke_signature-Disabled_example : Disabled "x1" by "stolen" start disabled
unfolding disabled revoke_signature derive_signature_status find_signature_or_throw log start
    list_tables trim ◌>>=◌
revoke_signature-Disabled_example =
    revoke_signature-Disabled "x1" by "stolen" start disabled disabled_row refl

abbrev payload : AdminJwtPayload
payload = record { sub = "a1"; email = "ada@x"; role = admin; token_type = "admin" }

abbrev route : Route
route = record { is_public = false; required_role = some super_admin }

abbrev who : CurrentAdmin
who = record { admin_id = "a1"; email = "ada@x"; role = super_admin; token_type = "admin" }

can_activate_iff_example :
    (can_activate (some payload) route start ≡ ok (some who)) ↔ Entitled payload route start who
can_activate_iff_example = can_activate_iff payload route start who refl

docs_auth_colon_example : docs_auth (λ s. s) (some "u") (some ":") (some "Basic u::") ≢ next
docs_auth_colon_example = docs_auth_colon (λ s. s) (some "u") ":" (some "Basic u::") (λ h. h.0 refl)

cleanup_expired_tokens-Cleaned_example :
    (cleanup_expired_tokens 600 start ≡ (
      ok tt,
      record start {
        admin_refresh_tokens = (cleanup_expired_tokens 600 start).1.admin_refresh_tokens;
      },
    ))
    × (Cleaned 600 start (cleanup_expired_tokens 600 start).1 ⊎ CleanupFailed 600 start)
cleanup_expired_tokens-Cleaned_example = cleanup_expired_tokens-Cleaned 600 start
