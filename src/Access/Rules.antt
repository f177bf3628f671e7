-- ===== src/Access/Rules.antt =====
-- The rules of access, exactly.
use gracon_admin_service.Prelude.{true, false, Option, none, some, ◌≡◌, ◌↔◌, refl, eq_iff, arith}
use gracon_admin_service.Prisma.{Prisma}
use gracon_admin_service.Http.{Reply, ok, throw, ◌>>=◌}
use gracon_admin_service.Models.{Admin, AdminRole, super_admin, admin, Store}
use gracon_admin_service.Access.{
  AdminJwtPayload, CurrentAdmin, Route, same_role, validate, handle_request, can_activate,
}

same_role_iff : (r q : AdminRole) → (same_role r q ≡ true) ↔ (r ≡ q)
same_role_iff super_admin super_admin = ground arith
same_role_iff super_admin admin = ground arith
same_role_iff admin super_admin = ground arith
same_role_iff admin admin = ground arith

module _ ⦃P : Prisma⦄ where
  -- The payload stands for a stored account, active and verified, that has the route's role now.
  pub record Entitled (payload : AdminJwtPayload) (route : Route) (s : Store) (who : CurrentAdmin)
      : Type 0 where
    pub of_admin : payload.token_type ≡ "admin"
    pub account : Admin
    pub stored : P.find_unique payload.sub s.admins ≡ some account
    pub active : account.is_active ≡ true
    pub verified : account.is_verified ≡ true
    pub user : who ≡ record {
      admin_id = payload.sub;
      email = account.email;
      role = account.role;
      token_type = "admin";
    }
    pub role : (r : AdminRole) → route.required_role ≡ some r → account.role ≡ r

  abbrev user_of : AdminJwtPayload → Admin → CurrentAdmin
  user_of payload a = record {
    admin_id = payload.sub;
    email = a.email;
    role = a.role;
    token_type = "admin";
  }

  validated_by :
      (payload : AdminJwtPayload) (s s' : Store) (who : CurrentAdmin) (found : Option Admin)
      → P.find_unique payload.sub s.admins ≡ found
      → validate payload s ≡ (ok who, s')
      → (a : Admin) × (P.find_unique payload.sub s.admins ≡ some a)
        × ((payload.token_type ≡ "admin")
            × (a.is_active ≡ true)
            × (a.is_verified ≡ true)
            × (who ≡ user_of payload a))
  unfolding validate ◌>>=◌
  validated_by payload s s' who none stored h = absurd (ground arith)
  validated_by payload s s' who (some a) stored h =
      (a, stored, ground (arith, eq_iff payload.token_type "admin"))

  validated :
      (payload : AdminJwtPayload) (s : Store) (a : Admin)
      → P.find_unique payload.sub s.admins ≡ some a
      → payload.token_type ≡ "admin"
      → a.is_active ≡ true
      → a.is_verified ≡ true
      → validate payload s ≡ (ok (user_of payload a), s)
  unfolding validate ◌>>=◌
  validated payload s a stored kind live ver = ground (arith, eq_iff payload.token_type "admin")

  handled_by :
      (user : Option CurrentAdmin) (route : Route) (s : Store) (who : CurrentAdmin)
      (role : Option AdminRole)
      → route.required_role ≡ role
      → (handle_request user route s).0 ≡ ok who
      → (user ≡ some who) × ((r : AdminRole) → role ≡ some r → who.role ≡ r)
  unfolding handle_request ◌>>=◌
  handled_by none route s who role need h = absurd (ground arith)
  handled_by (some w) route s who none need h = (ground arith, λ r e. cc)
  handled_by (some w) route s who (some q) need h =
      (ground arith, λ r e. ground (arith, same_role_iff w.role q, same_role_iff who.role q, e))

  handled :
      (who : CurrentAdmin) (route : Route) (s : Store) (role : Option AdminRole)
      → route.required_role ≡ role
      → who.token_type ≡ "admin"
      → ((r : AdminRole) → role ≡ some r → who.role ≡ r)
      → (handle_request (some who) route s).0 ≡ ok who
  unfolding handle_request ◌>>=◌
  handled who route s none need kind fits = ground (arith, eq_iff who.token_type "admin")
  handled who route s (some q) need kind fits =
      ground (arith, eq_iff who.token_type "admin", same_role_iff who.role q, fits q refl)

  Entitled-by :
      (payload : AdminJwtPayload) (route : Route) (s : Store) (who : CurrentAdmin)
      (r : Reply CurrentAdmin × Store)
      → validate payload s ≡ r
      → route.is_public ≡ false
      → can_activate (some payload) route s ≡ ok (some who)
      → Entitled payload route s who
  unfolding can_activate
  Entitled-by payload route s who (throw e, t) q closed h =
      absurd (ground (arith, handled_by none route s who route.required_role refl))
  Entitled-by payload route s who (ok w, t) q closed h =
      let (same, fits) = handled_by (some w) route s who route.required_role refl (ground arith) in
      let (a, stored, (kind, live, ver, user)) =
        validated_by payload s t w (P.find_unique payload.sub s.admins) refl q in
      record {
        of_admin = kind;
        account = a;
        stored = stored;
        active = live;
        verified = ver;
        user = cc;
        role = λ r e. (let is = fits r e in cc);
      }

  admitted_by :
      (payload : AdminJwtPayload) (route : Route) (s : Store) (who : CurrentAdmin)
      → route.is_public ≡ false
      → Entitled payload route s who
      → can_activate (some payload) route s ≡ ok (some who)
  unfolding can_activate
  admitted_by payload route s who closed e =
      let user = e.user in
      let valid = validated payload s e.account e.stored e.of_admin e.active e.verified in
      let kept = handled (user_of payload e.account) route s route.required_role refl refl e.role in
      rw user (ground arith)

  -- A route that is not public admits a verified token just when it is an administrator's token
  -- and its account is stored, active, verified and of the required role in this very state; the
  -- role in the token plays no part.
  pub can_activate_iff :
      (payload : AdminJwtPayload) (route : Route) (s : Store) (who : CurrentAdmin)
      → route.is_public ≡ false
      → (can_activate (some payload) route s ≡ ok (some who)) ↔ Entitled payload route s who
  can_activate_iff payload route s who closed =
      (Entitled-by payload route s who _ refl closed, admitted_by payload route s who closed)
