-- ===== src/Tests/Onboarding.antt =====
-- Invitations on the sample state.
use gracon_admin_service.Prelude.{
  String, ◌≢◌, ap, Option, sym, ◌∙◌, ◌⊎◌, true, some, none, ◌≡◌, refl, ◌==◌, eq_iff, arith,
  Bool-cases, inl, inr, if◌then◌else◌, false,
}
use gracon_admin_service.Prisma.ListTable.{list_tables}
use gracon_admin_service.Http.{ok, ◌>>=◌}
use gracon_admin_service.Models.{Admin, Store}
use gracon_admin_service.Auth.{SafeAdminProfile, build_safe_profile}
use gracon_admin_service.Auth.Login.{HasUniqueEmails, Admitted}
use gracon_admin_service.Invites.{
  CreateAdminDto, Inviter, SetPasswordDto, create_admin, set_password, resend_invite,
  announce_created, announce_resent, invited_admin,
}
use gracon_admin_service.Invites.Activation.{
  Activated, set_password-Activated, HasUniqueInvites, set_password_once, set_password_then_login,
}
use gracon_admin_service.Invites.UsedUp.{accepted}
use gracon_admin_service.Invites.Creation.{Created, create_admin-Created}
use gracon_admin_service.Invites.Resending.{Resent, resend_invite-Resent, resend_invite_revokes}
use gracon_admin_service.Audit.{log}
use gracon_admin_service.Mailer.{send_admin_invite_email}
use gracon_admin_service.Tests.Fixture.{runtime, start, client, root, newcomer}

abbrev dto : SetPasswordDto
dto = record { admin_id = "a2"; token = "link"; password = "secret" }

activated : Store
activated = (set_password runtime dto 300 "salt" start).1

set_password-Activated_example : Activated runtime dto 300 "salt" start activated
unfolding activated set_password start runtime list_tables ◌>>=◌
set_password-Activated_example = set_password-Activated runtime dto 300 "salt" start activated refl

start-HasUniqueInvites : HasUniqueInvites start
unfolding start list_tables
start-HasUniqueInvites i j t u a b same = ground (arith, a, b, eq_iff "i1" i, eq_iff "i1" j)

-- The link is tried again in between.
tried_again : Store
tried_again = (set_password runtime dto 305 "again" activated).1

set_password_once_example : ¬ (set_password runtime dto 310 "other" tried_again ≡ (ok tt, start))
unfolding tried_again activated set_password start runtime list_tables ◌>>=◌
set_password_once_example =
    set_password_once runtime dto dto 300 310 "salt" "other" start activated tried_again start
      start-HasUniqueInvites refl refl
      (gracon_admin_service.Invites.UsedUp.next gracon_admin_service.Invites.UsedUp.here
        (accepted dto 305 "again" refl))

abbrev late : SetPasswordDto
late = dto

abbrev new_admin : CreateAdminDto
new_admin = record { first_name = "Eve"; last_name = "New"; email = "eve@x"; phone_number = none }

abbrev inviter : Inviter
inviter = record { admin_id = "a1"; ip_address = "10.0.0.3"; now = 400; random_token = "again" }

created : Store
created = (create_admin runtime new_admin inviter start).1

abbrev profile : SafeAdminProfile
profile = build_safe_profile "xxx" (invited_admin new_admin inviter)

create_admin-Created_example : Created runtime new_admin inviter start profile created
unfolding created create_admin announce_created send_admin_invite_email log start runtime
    list_tables ◌>>=◌
create_admin-Created_example =
    create_admin-Created runtime new_admin inviter start created profile refl

resent : Store
resent = (resend_invite runtime "a2" inviter start).1

resend_invite-Resent_example :
    ((a : Admin) × (list_tables.find_unique "a2" start.admins ≡ some a) × (a.is_verified ≡ false))
    × Resent runtime "a2" inviter start resent
unfolding resent resend_invite announce_resent send_admin_invite_email log start runtime list_tables
    ◌>>=◌
resend_invite-Resent_example = resend_invite-Resent runtime "a2" inviter start resent refl

resend_invite_revokes_example : ¬ (set_password runtime dto 500 "salt" resent ≡ (ok tt, start))
unfolding resent resend_invite announce_resent send_admin_invite_email log start runtime list_tables
    ◌>>=◌
resend_invite_revokes_example =
    resend_invite_revokes runtime "a2" inviter dto 500 "salt" start resent start refl (λ e. cc) refl

abbrev with_secret : Admin
with_secret = record newcomer { password_hash = some "$secret"; is_verified = true }

-- The accounts of the sample state, after the activation.
activated_accounts : String → Option Admin
activated_accounts i = if "a1" == i then some root else if "a2" == i then some with_secret else none

account_of :
    (i : String) (a : Admin)
    → activated_accounts i ≡ some a
    → (("a1" ≡ i) × (a.email ≡ "ada@x")) ⊎ (("a2" ≡ i) × (a.email ≡ "new@x"))
unfolding activated_accounts
account_of i a x = elim (Bool-cases ("a1" == i)) [
  | inl h ↦ (let row : some root ≡ some a = rw h at x in inl ((eq_iff "a1" i).0 h, cc))
  | inr h ↦ elim (Bool-cases ("a2" == i)) [
    | inl k ↦
        (let row : some with_secret ≡ some a = rw (h, k) at x in inr ((eq_iff "a2" i).0 k, cc))
    | inr k ↦ (let row : none ≡ some a = rw (h, k) at x in cc)
  ]
]

ada_ne_new : let ada : String = "ada@x" in ada ≢ "new@x"
ada_ne_new e = (let same : false ≡ true = ap (λ t. t == "new@x") e in cc)

activated_accounts_unique :
    (i j : String) (a b : Admin)
    → activated_accounts i ≡ some a
    → activated_accounts j ≡ some b
    → a.email ≡ b.email
    → i ≡ j
activated_accounts_unique i j a b x y same = elim (account_of i a x) [
  | inl (h, e) ↦ elim (account_of j b y) [
    | inl (k, f) ↦ sym h ∙ k
    | inr (k, f) ↦ absurd (ada_ne_new (sym e ∙ same ∙ f))
  ]
  | inr (h, e) ↦ elim (account_of j b y) [
    | inl (k, f) ↦ absurd (ada_ne_new (sym f ∙ sym same ∙ e))
    | inr (k, f) ↦ sym h ∙ k
  ]
]

activated-HasUniqueEmails : HasUniqueEmails activated
unfolding activated activated_accounts set_password start runtime list_tables ◌>>=◌
activated-HasUniqueEmails i j a b x y same = activated_accounts_unique i j a b x y same

set_password_then_login_example : Admitted runtime "new@x" "secret" client activated
unfolding activated set_password start runtime list_tables ◌>>=◌
set_password_then_login_example =
    set_password_then_login runtime dto 300 "salt" client start activated newcomer refl refl
      activated-HasUniqueEmails refl
