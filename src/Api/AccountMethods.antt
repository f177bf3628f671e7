-- ===== src/Api/AccountMethods.antt =====
-- The methods of src/modules/auth/admin-auth.controller.ts and
-- src/modules/users/admin-users.controller.ts that may change the state: each passes the request on
-- to its service.
use gracon_admin_service.Prelude.{String, Option}
use gracon_admin_service.Prisma.{Prisma}
use gracon_admin_service.Http.{Handler, pure, ◌>>=◌, ◌>>◌}
use gracon_admin_service.Models.{Store}
use gracon_admin_service.Access.{CurrentAdmin}
use gracon_admin_service.Auth.{login, refresh_tokens, logout}
use gracon_admin_service.Invites.{
  CreateAdminDto, SetPasswordDto, create_admin, validate_invite_token, set_password, resend_invite,
}
use gracon_admin_service.Users.{
  UpdateUserStatusDto, UpdateIdVerificationDto, update_user_status, revoke_user_sessions,
  update_id_verification, decrypt_nid, decrypt_pid,
}
use gracon_admin_service.Users.Detail.{get_user_detail}
use gracon_admin_service.Api.{
  Request, Answer, logged_in, refreshed, profile, validity, success, revoked_count, identifier,
  user_detail,
}
use gracon_admin_service.Api.Context.{
  Outside, client_of, inviter_of, actor_of, parse_uuid, current_admin,
}

module _ ⦃P : Prisma⦄ (O : Outside) where
  abbrev pub login_method : String → String → Request → Handler Store Answer
  login_method email password req = do
    r ← login O.runtime email password (client_of req)
    pure (logged_in r)

  abbrev pub refresh_method : String → Request → Handler Store Answer
  refresh_method token req = do
    r ← refresh_tokens O.runtime token req.checked (client_of req)
    pure (refreshed r)

  abbrev pub logout_method : String → Option CurrentAdmin → Handler Store Answer
  logout_method token who = do current_admin O who; logout O.runtime token; pure success

  abbrev pub create_admin_method :
      CreateAdminDto → Request → Option CurrentAdmin → Handler Store Answer
  create_admin_method dto req who = do
    admin ← current_admin O who
    r ← create_admin O.runtime dto (inviter_of req admin)
    pure (profile r)

  abbrev pub validate_invite_method : String → String → Request → Handler Store Answer
  validate_invite_method id token req = do
    r ← validate_invite_token O.runtime id token req.now
    pure (validity r)

  abbrev pub set_password_method : SetPasswordDto → Request → Handler Store Answer
  set_password_method dto req = do set_password O.runtime dto req.now req.salt; pure success

  abbrev pub resend_invite_method : String → Request → Option CurrentAdmin → Handler Store Answer
  resend_invite_method id req who = do
    admin ← current_admin O who
    resend_invite O.runtime id (inviter_of req admin)
    pure success

  abbrev pub update_user_status_method :
      String → UpdateUserStatusDto → Request → Option CurrentAdmin → Handler Store Answer
  update_user_status_method id dto req who = do
    parse_uuid O id
    admin ← current_admin O who
    update_user_status id dto (actor_of req admin)
    pure success

  abbrev pub revoke_user_sessions_method :
      String → Request → Option CurrentAdmin → Handler Store Answer
  revoke_user_sessions_method id req who = do
    parse_uuid O id
    admin ← current_admin O who
    count ← revoke_user_sessions id (actor_of req admin)
    pure (revoked_count count)

  abbrev pub get_user_detail_method : String → Request → Option CurrentAdmin → Handler Store Answer
  get_user_detail_method id req who = do
    parse_uuid O id
    admin ← current_admin O who
    d ←
        get_user_detail ⦃Q = O.search⦄ O.cipher O.created_at id (actor_of req admin) admin.role
          req.now
    pure (user_detail d)

  abbrev pub update_id_verification_method :
      String → UpdateIdVerificationDto → Request → Option CurrentAdmin → Handler Store Answer
  update_id_verification_method id dto req who = do
    parse_uuid O id
    admin ← current_admin O who
    update_id_verification id dto (actor_of req admin) req.now
    pure success

  abbrev pub decrypt_nid_method :
      String → String → Request → Option CurrentAdmin → Handler Store Answer
  decrypt_nid_method id reason req who = do
    parse_uuid O id
    admin ← current_admin O who
    nid ← decrypt_nid O.cipher id (actor_of req admin) req.now reason
    pure (identifier nid)

  abbrev pub decrypt_pid_method :
      String → String → Request → Option CurrentAdmin → Handler Store Answer
  decrypt_pid_method id reason req who = do
    parse_uuid O id
    admin ← current_admin O who
    pid ← decrypt_pid O.cipher id (actor_of req admin) req.now reason
    pure (identifier pid)
