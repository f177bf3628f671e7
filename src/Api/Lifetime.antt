-- ===== src/Api/Lifetime.antt =====
-- Whole lives of the service: any requests in any order, the nightly cleanup among them.
use gracon_admin_service.Prelude.{ℕ, String, Option, ◌≡◌}
use gracon_admin_service.Prisma.{Prisma}
use gracon_admin_service.Http.{Handler, Reply, ok, throw, pure, ◌>>=◌, ◌>>◌}
use gracon_admin_service.Http.Keeps.{Keeps, Keeps-pure, Keeps-require, Keeps-reject_if, Keeps-bind}
use gracon_admin_service.Models.{Store}
use gracon_admin_service.Access.{CurrentAdmin, can_activate}
use gracon_admin_service.Maintenance.{cleanup_expired_tokens}
use gracon_admin_service.Certificates.Review.{ReviewAction, ReviewRequestPayload}
use gracon_admin_service.Growth.{growth, Grows, Grows-same, Grows-chain}
use gracon_admin_service.Growth.Sessions.{
  login-Keeps, refresh_tokens-Keeps, logout-Keeps, create_admin-Keeps, validate_invite_token-Keeps,
  set_password-Keeps, resend_invite-Keeps,
}
use gracon_admin_service.Growth.Accounts.{
  update_user_status-Keeps, revoke_user_sessions-Keeps, update_id_verification-Keeps,
  cleanup_expired_tokens-Keeps, decrypt_nid-Keeps, decrypt_pid-Keeps, get_user_detail-Keeps,
}
use gracon_admin_service.Growth.Sanctions.{
  revoke_certificate-Keeps, reissue_certificate-Keeps, ban_from_certificate-Keeps,
  ban_for_user-Keeps, lift_ban-Keeps,
}
use gracon_admin_service.Growth.Reviews.{revoke_signature-Keeps, approve-Keeps, reject-Keeps}
use gracon_admin_service.Api.{
  Request, Call, Answer, route, post_login, post_refresh, post_logout, post_admins,
  get_invite_validate, post_set_password, post_resend_invite, patch_user_status,
  post_revoke_sessions, get_user, patch_id_verification, post_decrypt_nid, post_decrypt_pid,
  post_certificate_revoke, post_certificate_reissue, post_ban_access, post_user_ban,
  post_user_unban, post_request_approve, post_request_reject, post_signature_revoke,
}
use gracon_admin_service.Api.Context.{Outside, current_admin, parse_uuid}
use gracon_admin_service.Api.Controllers.{perform, serve, let_through}

-- The signature service takes none of the promises back either.
abbrev pub IsTame : ⦃P : Prisma⦄ → Outside → Type 0
IsTame O =
    (id : String) (action : ReviewAction) (payload : ReviewRequestPayload) (s : Store)
    → Grows s (O.fetch id action payload s).1

module _ ⦃P : Prisma⦄ (O : Outside) (tame : IsTame O) where
  simple-Keeps :
      {A : Type 0} (m : Handler Store A) (f : A → Answer)
      → Keeps growth m
      → Keeps growth (m >>= λ a. pure (f a))
  simple-Keeps m f k = Keeps-bind growth _ _ k (λ a. Keeps-pure growth _)

  guarded-Keeps :
      (who : Option CurrentAdmin) (f : CurrentAdmin → Handler Store Answer)
      → ((a : CurrentAdmin) → Keeps growth (f a))
      → Keeps growth (current_admin O who >>= f)
  guarded-Keeps who f k = Keeps-bind growth _ _ (Keeps-require growth _ _) k

  by_id-Keeps :
      (id : String) (who : Option CurrentAdmin) (f : CurrentAdmin → Handler Store Answer)
      → ((a : CurrentAdmin) → Keeps growth (f a))
      → Keeps growth (parse_uuid O id >> (current_admin O who >>= f))
  by_id-Keeps id who f k =
      Keeps-bind growth _ _ (Keeps-reject_if growth _ _) (λ x. guarded-Keeps who f k)

  perform-Keeps :
      (call : Call) (req : Request) (who : Option CurrentAdmin)
      → Keeps growth (perform O call req who)
  unfolding perform
  perform-Keeps (post_login email password) req who =
      simple-Keeps _ _ (login-Keeps O.runtime email password _)
  perform-Keeps (post_refresh token) req who =
      simple-Keeps _ _ (refresh_tokens-Keeps O.runtime token req.checked _)
  perform-Keeps (post_logout token) req who =
      guarded-Keeps who _ (λ a. simple-Keeps _ _ (logout-Keeps O.runtime token))
  perform-Keeps (post_admins dto) req who =
      guarded-Keeps who _ (λ a. simple-Keeps _ _ (create_admin-Keeps O.runtime dto _))
  perform-Keeps (get_invite_validate id token) req who =
      simple-Keeps _ _ (validate_invite_token-Keeps O.runtime id token req.now)
  perform-Keeps (post_set_password dto) req who =
      simple-Keeps _ _ (set_password-Keeps O.runtime dto req.now req.salt)
  perform-Keeps (post_resend_invite id) req who =
      guarded-Keeps who _ (λ a. simple-Keeps _ _ (resend_invite-Keeps O.runtime id _))
  perform-Keeps (patch_user_status id dto) req who =
      by_id-Keeps id who _ (λ a. simple-Keeps _ _ (update_user_status-Keeps id dto _))
  perform-Keeps (post_revoke_sessions id) req who =
      by_id-Keeps id who _ (λ a. simple-Keeps _ _ (revoke_user_sessions-Keeps id _))
  perform-Keeps (get_user id) req who = by_id-Keeps id who _ (λ a.
      simple-Keeps _ _
        (get_user_detail-Keeps ⦃Q = O.search⦄ O.cipher O.created_at id _ a.role req.now))
  perform-Keeps (patch_id_verification id dto) req who =
      by_id-Keeps id who _ (λ a. simple-Keeps _ _ (update_id_verification-Keeps id dto _ req.now))
  perform-Keeps (post_decrypt_nid id reason) req who =
      by_id-Keeps id who _ (λ a. simple-Keeps _ _ (decrypt_nid-Keeps O.cipher id _ req.now reason))
  perform-Keeps (post_decrypt_pid id reason) req who =
      by_id-Keeps id who _ (λ a. simple-Keeps _ _ (decrypt_pid-Keeps O.cipher id _ req.now reason))
  perform-Keeps (post_certificate_revoke id reason code) req who =
      by_id-Keeps id who _ (λ a. simple-Keeps _ _ (revoke_certificate-Keeps id _ reason code))
  perform-Keeps (post_certificate_reissue id reason) req who =
      by_id-Keeps id who _ (λ a. simple-Keeps _ _ (reissue_certificate-Keeps id _ reason))
  perform-Keeps (post_ban_access id reason) req who =
      by_id-Keeps id who _ (λ a. simple-Keeps _ _ (ban_from_certificate-Keeps id _ reason))
  perform-Keeps (post_user_ban id reason) req who =
      by_id-Keeps id who _ (λ a. simple-Keeps _ _ (ban_for_user-Keeps id _ reason))
  perform-Keeps (post_user_unban id reason) req who =
      by_id-Keeps id who _ (λ a. simple-Keeps _ _ (lift_ban-Keeps id _ reason))
  perform-Keeps (post_request_approve id reason) req who =
      by_id-Keeps id who _ (λ a. simple-Keeps _ _ (approve-Keeps O.fetch tame id _ reason))
  perform-Keeps (post_request_reject id reason) req who =
      by_id-Keeps id who _ (λ a. simple-Keeps _ _ (reject-Keeps O.fetch tame id _ reason))
  perform-Keeps (post_signature_revoke id reason) req who =
      by_id-Keeps id who _ (λ a. simple-Keeps _ _ (revoke_signature-Keeps id _ reason))

  let_through-Grows :
      (call : Call) (req : Request) (gate : Reply (Option CurrentAdmin)) (s : Store)
      → Grows s (let_through O call req gate s).1
  let_through-Grows call req (throw e) s = Grows-same s
  let_through-Grows call req (ok who) s = (perform-Keeps call req who).step s

  serve-Grows : (call : Call) (req : Request) (s : Store) → Grows s (serve O call req s).1
  unfolding serve
  serve-Grows call req s = let_through-Grows call req (can_activate req.token (route call) s) s

-- What happens to the state: a request, whatever it answers, or the cleanup.
pub data Step ⦃P : Prisma⦄ (O : Outside) (s s' : Store) : Type 0 where
  request_served : (call : Call) (req : Request) → s' ≡ (serve O call req s).1 → Step O s s'
  cleaned_up : (now : ℕ) → s' ≡ (cleanup_expired_tokens now s).1 → Step O s s'

pub data Reach ⦃P : Prisma⦄ (O : Outside) (s : Store) : Store → Type 0 where
  here : Reach O s s
  next : {t u : Store} → Reach O s t → Step O t u → Reach O s u

module _ ⦃P : Prisma⦄ (O : Outside) (tame : IsTame O) where
  Step-Grows : (s t : Store) → Step O s t → Grows s t
  Step-Grows s t (request_served call req e) = rw e (serve-Grows O tame call req s)
  Step-Grows s t (cleaned_up now e) = rw e ((cleanup_expired_tokens-Keeps now).step s)

  -- Whatever requests are served, in any order and with the cleanup among them, no account, user,
  -- certificate, key pair, policy, certificate request or audit entry is lost. Accounts keep their
  -- email and role, users their email, certificates their owner, key pair and last instant, policies
  -- and requests their user, and audit entries everything; an account stays verified, a certificate
  -- revoked, a key pair inactive and a decided request as decided. The condition is that the
  -- signature service, which shares the database, keeps to the same.
  pub Reach-Grows : {s u : Store} → Reach O s u → Grows s u
  Reach-Grows {s} here = Grows-same s
  Reach-Grows {s} (next {t = t} {u = u} r st) =
      Grows-chain s t u (Reach-Grows r) (Step-Grows t u st)
