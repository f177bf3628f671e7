-- ===== src/Api/Controllers.antt =====
-- Which method a call reaches, behind the guard.
use gracon_admin_service.Prelude.{Option}
use gracon_admin_service.Prisma.{Prisma}
use gracon_admin_service.Http.{Handler, Reply, ok, throw}
use gracon_admin_service.Models.{Store}
use gracon_admin_service.Access.{CurrentAdmin, can_activate}
use gracon_admin_service.Api.{
  Request, Call, Answer, route, post_login, post_refresh, post_logout, post_admins,
  get_invite_validate, post_set_password, post_resend_invite, patch_user_status,
  post_revoke_sessions, get_user, patch_id_verification, post_decrypt_nid, post_decrypt_pid,
  post_certificate_revoke, post_certificate_reissue, post_ban_access, post_user_ban,
  post_user_unban, post_request_approve, post_request_reject, post_signature_revoke,
}
use gracon_admin_service.Api.Context.{Outside}
use gracon_admin_service.Api.AccountMethods.{
  login_method, refresh_method, logout_method, create_admin_method, validate_invite_method,
  set_password_method, resend_invite_method, update_user_status_method, revoke_user_sessions_method,
  get_user_detail_method, update_id_verification_method, decrypt_nid_method, decrypt_pid_method,
}
use gracon_admin_service.Api.CertificateMethods.{
  revoke_certificate_method, reissue_certificate_method, ban_from_certificate_method,
  ban_for_user_method, lift_ban_method, approve_request_method, reject_request_method,
  revoke_signature_method,
}

module _ ⦃P : Prisma⦄ (O : Outside) where
  -- The method that a call reaches.
  unfoldable pub perform : Call → Request → Option CurrentAdmin → Handler Store Answer
  perform (post_login email password) req who = login_method O email password req
  perform (post_refresh token) req who = refresh_method O token req
  perform (post_logout token) req who = logout_method O token who
  perform (post_admins dto) req who = create_admin_method O dto req who
  perform (get_invite_validate id token) req who = validate_invite_method O id token req
  perform (post_set_password dto) req who = set_password_method O dto req
  perform (post_resend_invite id) req who = resend_invite_method O id req who
  perform (patch_user_status id dto) req who = update_user_status_method O id dto req who
  perform (post_revoke_sessions id) req who = revoke_user_sessions_method O id req who
  perform (get_user id) req who = get_user_detail_method O id req who
  perform (patch_id_verification id dto) req who = update_id_verification_method O id dto req who
  perform (post_decrypt_nid id reason) req who = decrypt_nid_method O id reason req who
  perform (post_decrypt_pid id reason) req who = decrypt_pid_method O id reason req who
  perform (post_certificate_revoke id reason code) req who =
      revoke_certificate_method O id reason code req who
  perform (post_certificate_reissue id reason) req who =
      reissue_certificate_method O id reason req who
  perform (post_ban_access id reason) req who = ban_from_certificate_method O id reason req who
  perform (post_user_ban id reason) req who = ban_for_user_method O id reason req who
  perform (post_user_unban id reason) req who = lift_ban_method O id reason req who
  perform (post_request_approve id reason) req who = approve_request_method O id reason req who
  perform (post_request_reject id reason) req who = reject_request_method O id reason req who
  perform (post_signature_revoke id reason) req who = revoke_signature_method O id reason req who

  abbrev pub let_through : Call → Request → Reply (Option CurrentAdmin) → Handler Store Answer
  let_through call req (throw e) s = (throw e, s)
  let_through call req (ok who) s = perform call req who s

  -- One request: the guard, then the method.
  unfoldable pub serve : Call → Request → Handler Store Answer
  serve call req s = let_through call req (can_activate req.token (route call) s) s
