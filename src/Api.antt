-- ===== src/Api.antt =====
-- The API: the controllers of src/modules behind the guard that src/app.module.ts installs for
-- every route. Rate limits and the validation of bodies by class-validator come before and are
-- left out; the listings and the pages that only read are left out here too.
pub mod Context
pub mod AccountMethods
pub mod CertificateMethods
pub mod Controllers
pub mod Guarding
pub mod Lifetime
pub mod Finality
use Prim.Native.String
use gracon_admin_service.Prelude.{
  ℕ, String, true, false, Option, none, some, code, eqb, if◌then◌else◌, or_else, option_map, trim,
}
use gracon_admin_service.Models.{super_admin}
use gracon_admin_service.Access.{AdminJwtPayload, Route}
use gracon_admin_service.Auth.{AdminAuthTokens, AdminLoginResult, SafeAdminProfile}
use gracon_admin_service.Invites.{CreateAdminDto, SetPasswordDto, InviteValidity}
use gracon_admin_service.Users.{UpdateUserStatusDto, UpdateIdVerificationDto}
use gracon_admin_service.Users.Detail.{AdminUserDetail}
use gracon_admin_service.Certificates.{CertificateRow}
use gracon_admin_service.Certificates.Bans.{PolicyView}
use gracon_admin_service.Models.{CertificateRequest}
use gracon_admin_service.Signatures.{SignatureRow}

-- A request but for its body: the payload of a bearer token that Passport accepts, if there is
-- one, the headers and addresses that the code reads, the clock, and the random values drawn.
-- `ip` is Express's, `checked` the clock where a handler reads it twice.
pub record Request : Type 0 where
  pub token : Option AdminJwtPayload
  pub forwarded_for : Option String
  pub remote_address : Option String
  pub ip : Option String
  pub user_agent : Option String
  pub checked : ℕ
  pub now : ℕ
  pub random_token : String
  pub salt : String

-- `text.split(',')[0]`.
unfoldable pub before_comma : String → String
before_comma String.[] = ""
before_comma (String.◌∷◌ c s) =
    let rest = before_comma s in if eqb (code c) b',' then "" else String.◌∷◌ c rest

unfoldable pub extract_ip : Request → String
unfolding before_comma trim
extract_ip r =
    or_else (option_map (λ h. trim (before_comma h)) r.forwarded_for)
      (or_else r.remote_address "unknown")

-- The calls that may change the state, with their path parameters and bodies.
pub data Call : Type 0 where
  post_login : (email password : String) → Call
  post_refresh post_logout : (refresh_token : String) → Call
  post_admins : CreateAdminDto → Call
  get_invite_validate : (admin_id token : String) → Call
  post_set_password : SetPasswordDto → Call
  post_resend_invite : (id : String) → Call
  patch_user_status : (id : String) → UpdateUserStatusDto → Call
  post_revoke_sessions : (id : String) → Call
  get_user : (id : String) → Call
  patch_id_verification : (id : String) → UpdateIdVerificationDto → Call
  post_decrypt_nid post_decrypt_pid : (id reason : String) → Call
  post_certificate_revoke : (id reason crl_reason_code : String) → Call
  post_certificate_reissue post_ban_access : (id reason : String) → Call
  post_user_ban post_user_unban : (id reason : String) → Call
  post_request_approve post_request_reject : (id reason : String) → Call
  post_signature_revoke : (id reason : String) → Call

abbrev pub open_to_all : Route
open_to_all = record { is_public = true; required_role = none }

abbrev pub any_admin : Route
any_admin = record { is_public = false; required_role = none }

abbrev pub super_only : Route
super_only = record { is_public = false; required_role = some super_admin }

-- @SkipAuth() and @RequireRole() of the methods.
unfoldable pub route : Call → Route
route (post_login email password) = open_to_all
route (post_refresh token) = any_admin
route (post_logout token) = any_admin
route (post_admins dto) = super_only
route (get_invite_validate id token) = open_to_all
route (post_set_password dto) = open_to_all
route (post_resend_invite id) = super_only
route (patch_user_status id dto) = any_admin
route (post_revoke_sessions id) = any_admin
route (get_user id) = any_admin
route (patch_id_verification id dto) = any_admin
route (post_decrypt_nid id reason) = super_only
route (post_decrypt_pid id reason) = super_only
route (post_certificate_revoke id reason code) = super_only
route (post_certificate_reissue id reason) = super_only
route (post_ban_access id reason) = super_only
route (post_user_ban id reason) = super_only
route (post_user_unban id reason) = super_only
route (post_request_approve id reason) = super_only
route (post_request_reject id reason) = super_only
route (post_signature_revoke id reason) = any_admin

-- The body of a successful response.
pub data Answer : Type 0 where
  logged_in : AdminLoginResult → Answer
  refreshed : AdminAuthTokens → Answer
  profile : SafeAdminProfile → Answer
  validity : InviteValidity → Answer
  success : Answer
  revoked_count : ℕ → Answer
  identifier : String → Answer
  user_detail : AdminUserDetail → Answer
  certificate : CertificateRow → Answer
  policy : PolicyView → Answer
  request : CertificateRequest → Answer
  signature : SignatureRow → Answer
