-- ===== src/Api/Guarding.antt =====
-- What the guard means for every call.
use gracon_admin_service.Prelude.{
  String, Bool-cases, true, false, Option, none, some, ◌≡◌, refl, arith, inl, inr,
}
use gracon_admin_service.Prisma.{Prisma}
use gracon_admin_service.Http.{Reply-cases, Reply, ok, throw, HttpException, unauthorized, ◌>>=◌}
use gracon_admin_service.Models.{Store}
use gracon_admin_service.Access.{
  AdminJwtPayload, CurrentAdmin, Route, verified, can_activate, handle_request,
}
use gracon_admin_service.Access.Rules.{Entitled, can_activate_iff}
use gracon_admin_service.Api.{
  Request, Call, route, post_login, post_refresh, post_logout, post_admins, get_invite_validate,
  post_set_password, post_resend_invite, patch_user_status, post_revoke_sessions, get_user,
  patch_id_verification, post_decrypt_nid, post_decrypt_pid, post_certificate_revoke,
  post_certificate_reissue, post_ban_access, post_user_ban, post_user_unban, post_request_approve,
  post_request_reject, post_signature_revoke,
}
use gracon_admin_service.Invites.{SetPasswordDto}
use gracon_admin_service.Api.Context.{Outside}
use gracon_admin_service.Api.Controllers.{perform, serve, let_through}

module _ ⦃P : Prisma⦄ where
  no_token :
      (r : Route) (s : Store)
      → r.is_public ≡ false
      → can_activate none r s
        ≡ throw (unauthorized "Admin authentication required. Please log in to the admin panel.")
  unfolding can_activate handle_request ◌>>=◌
  no_token r s closed = ground arith

  never_anonymous :
      (token : Option AdminJwtPayload) (r : Route) (s : Store)
      → r.is_public ≡ false
      → ¬ (can_activate token r s ≡ ok none)
  unfolding can_activate handle_request ◌>>=◌
  never_anonymous none r s closed h = ground arith
  never_anonymous (some payload) r s closed h =
      elim (Reply-cases (handle_request (verified (some payload) s) r s).0) [
        | inl (e, bad) ↦ ground (arith, bad)
        | inr (who, good) ↦ ground (arith, good)
      ]

  -- The state and the exception of a call that the guard refuses.
  refused_by :
      (O : Outside) (call : Call) (req : Request) (s : Store) (token : Option AdminJwtPayload)
      (gate : Reply (Option CurrentAdmin))
      → req.token ≡ token
      → (route call).is_public ≡ false
      → ((payload : AdminJwtPayload) (who : CurrentAdmin)
          → token ≡ some payload
          → ¬ Entitled payload (route call) s who)
      → can_activate token (route call) s ≡ gate
      → (e : HttpException) × (let_through O call req gate s ≡ (throw e, s))
  refused_by O call req s token (throw e) sent closed unfit g = (e, refl)
  refused_by O call req s token (ok none) sent closed unfit g =
      absurd (never_anonymous token (route call) s closed g)
  refused_by O call req s none (ok (some who)) sent closed unfit g =
      absurd (cc (no_token (route call) s closed, g))
  refused_by O call req s (some payload) (ok (some who)) sent closed unfit g =
      absurd (unfit payload who refl ((can_activate_iff payload (route call) s who closed).0 g))

  -- A call of a route that is not public runs its method for a caller who is entitled to the route
  -- in the very state that the call meets, and is refused with no change of the state for any
  -- other.
  pub serve_guarded :
      (O : Outside) (call : Call) (req : Request) (s : Store)
      → (route call).is_public ≡ false
      → ((payload : AdminJwtPayload) (who : CurrentAdmin)
          → req.token ≡ some payload
          → Entitled payload (route call) s who
          → serve O call req s ≡ perform O call req (some who) s)
        × (((payload : AdminJwtPayload) (who : CurrentAdmin)
              → req.token ≡ some payload
              → ¬ Entitled payload (route call) s who)
            → (e : HttpException) × (serve O call req s ≡ (throw e, s)))
  unfolding serve
  serve_guarded O call req s closed = (
    λ payload who sent fit.
        (let gate = (can_activate_iff payload (route call) s who closed).1 fit in rw (sent, gate)),
    λ unfit.
        refused_by O call req s req.token (can_activate req.token (route call) s) refl closed unfit
          refl,
  )

-- The calls that are meant for callers who have no access token.
pub data IsOpen : Call → Type 0 where
  to_log_in : {email password : String} → IsOpen (post_login email password)
  to_check_an_invite : {id token : String} → IsOpen (get_invite_validate id token)
  to_set_a_password : {dto : SetPasswordDto} → IsOpen (post_set_password dto)

IsOpen-of_public : (call : Call) → (route call).is_public ≡ true → IsOpen call
unfolding route
IsOpen-of_public (post_login x y) h = to_log_in
IsOpen-of_public (post_refresh x) h = cc
IsOpen-of_public (post_logout x) h = cc
IsOpen-of_public (post_admins x) h = cc
IsOpen-of_public (get_invite_validate x y) h = to_check_an_invite
IsOpen-of_public (post_set_password x) h = to_set_a_password
IsOpen-of_public (post_resend_invite x) h = cc
IsOpen-of_public (patch_user_status x y) h = cc
IsOpen-of_public (post_revoke_sessions x) h = cc
IsOpen-of_public (get_user x) h = cc
IsOpen-of_public (patch_id_verification x y) h = cc
IsOpen-of_public (post_decrypt_nid x y) h = cc
IsOpen-of_public (post_decrypt_pid x y) h = cc
IsOpen-of_public (post_certificate_revoke x y z) h = cc
IsOpen-of_public (post_certificate_reissue x y) h = cc
IsOpen-of_public (post_ban_access x y) h = cc
IsOpen-of_public (post_user_ban x y) h = cc
IsOpen-of_public (post_user_unban x y) h = cc
IsOpen-of_public (post_request_approve x y) h = cc
IsOpen-of_public (post_request_reject x y) h = cc
IsOpen-of_public (post_signature_revoke x y) h = cc

is_public-IsOpen : {call : Call} → IsOpen call → (route call).is_public ≡ true
unfolding route
is_public-IsOpen to_log_in = refl
is_public-IsOpen to_check_an_invite = refl
is_public-IsOpen to_set_a_password = refl

module _ ⦃P : Prisma⦄ where
  let_in :
      (token : Option AdminJwtPayload) (r : Route) (s : Store)
      → r.is_public ≡ true
      → can_activate token r s ≡ ok none
  unfolding can_activate
  let_in token r s public = ground arith

  refresh_closed : (raw : String) → ¬ ((route (post_refresh raw)).is_public ≡ true)
  unfolding route
  refresh_closed raw h = cc

  -- With no token that Passport accepts, as when it has expired, three calls run their method: the
  -- login, the check of an invitation and the acceptance of one. Every other call, the one that
  -- refreshes the tokens among them, answers 401 and changes nothing.
  pub serve_without_token :
      (O : Outside) (call : Call) (req : Request) (s : Store)
      → req.token ≡ none
      → (IsOpen call → serve O call req s ≡ perform O call req none s)
        × (¬ IsOpen call
            → serve O call req s ≡ (
              throw
                  (unauthorized "Admin authentication required. Please log in to the admin panel."),
              s,
            ))
        × ((raw : String) → ¬ IsOpen (post_refresh raw))
  unfolding serve
  serve_without_token O call req s sent = (
    λ free. rw (let_in req.token (route call) s (is_public-IsOpen free)) refl,
    λ not_free. elim (Bool-cases (route call).is_public) [
      | inl public ↦ absurd (not_free (IsOpen-of_public call public))
      | inr closed ↦ rw (sent, no_token (route call) s closed) refl
    ],
    λ raw free. (let bad = is_public-IsOpen free in refresh_closed raw bad),
  )
