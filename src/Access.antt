-- ===== src/Access.antt =====
-- Who may call what: src/modules/auth/strategies/admin-jwt.strategy.ts and
-- src/common/guards/admin-auth.guard.ts. Passport, which checks a token's signature and expiry,
-- is a parameter: the payload that it accepts, or nothing.
pub mod Rules
use gracon_admin_service.Prelude.{
  String, Bool, true, false, not, Option, none, some, [], ◌∷◌, ◌==◌, template,
}
use gracon_admin_service.Prisma.{Prisma}
use gracon_admin_service.Http.{
  Handler, Reply, ok, throw, HttpException, unauthorized, forbidden, pure, gets, require, reject_if,
  ◌>>=◌, ◌>>◌,
}
use gracon_admin_service.Models.{Admin, AdminRole, super_admin, admin, Store}

pub record AdminJwtPayload : Type 0 where
  pub sub : String
  pub email : String
  pub role : AdminRole
  pub token_type : String

-- `req.user`.
pub record CurrentAdmin : Type 0 where
  pub admin_id : String
  pub email : String
  pub role : AdminRole
  pub token_type : String

-- What the decorators of a route say: @SkipAuth() and @RequireRole(role).
pub record Route : Type 0 where
  pub is_public : Bool
  pub required_role : Option AdminRole

abbrev pub same_role : AdminRole → AdminRole → Bool
same_role super_admin super_admin = true
same_role admin admin = true
same_role _ _ = false

abbrev pub role_text : AdminRole → String
role_text super_admin = "SUPER_ADMIN"
role_text admin = "ADMIN"

module _ ⦃P : Prisma⦄ where
  unfoldable pub validate : AdminJwtPayload → Handler Store CurrentAdmin
  validate payload = do
    reject_if (not (payload.token_type == "admin"))
        (unauthorized "Invalid token type. Admin access required.")
    found ← gets (λ s. P.find_unique payload.sub s.admins)
    a ← require found (unauthorized "Admin account not found.")
    reject_if (not a.is_active)
        (unauthorized "Your admin account has been deactivated. Contact a SUPER_ADMIN.")
    reject_if (not a.is_verified)
        (unauthorized "Admin account not yet verified. Check your invite email.")
    pure (record { admin_id = payload.sub; email = a.email; role = a.role; token_type = "admin" })

  abbrev has_role : Option AdminRole → AdminRole → Bool
  has_role none _ = true
  has_role (some required) role = same_role role required

  abbrev role_error : Option AdminRole → HttpException
  role_error none = forbidden ""
  role_error (some required) =
      forbidden (template ("This action requires " ∷ role_text required ∷ " privileges." ∷ []))

  -- `user` is what Passport hands over: nothing when the token or `validate` was refused.
  unfoldable pub handle_request : Option CurrentAdmin → Route → Handler Store CurrentAdmin
  handle_request user route = do
    who ←
        require user
          (unauthorized "Admin authentication required. Please log in to the admin panel.")
    reject_if (not (who.token_type == "admin"))
        (unauthorized "Invalid token type for admin access.")
    reject_if (not (has_role route.required_role who.role)) (role_error route.required_role)
    pure who

  abbrev pub accepted : Reply CurrentAdmin × Store → Option CurrentAdmin
  accepted (ok who, s) = some who
  accepted (throw e, s) = none

  abbrev pub verified : Option AdminJwtPayload → Store → Option CurrentAdmin
  verified none s = none
  verified (some payload) s = accepted (validate payload s)

  abbrev guarded : Bool → Option AdminJwtPayload → Route → Store → Reply (Option CurrentAdmin)
  guarded true token route s = ok none
  guarded false token route s = elim (handle_request (verified token s) route s).0 [
    | ok who ↦ ok (some who)
    | throw e ↦ throw e
  ]

  -- A public route is let through with no user.
  unfoldable pub can_activate : Option AdminJwtPayload → Route → Store → Reply (Option CurrentAdmin)
  can_activate token route s = guarded route.is_public token route s
