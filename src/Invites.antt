-- ===== src/Invites.antt =====
-- src/modules/auth/admin-auth.service.ts: the life of an invitation. An account is created
-- without a password; the link of the invitation sets it. Clock and random bytes are arguments.
pub mod UsedUp
pub mod Activation
pub mod Creation
pub mod Resending
use gracon_admin_service.Prelude.{
  ℕ, ◌+◌, String, Bool, true, false, ◌&&◌, Option, none, some, [], ◌∷◌, ◌==◌, refl, if◌then◌else◌,
  is_some, option_map, ltb, not, template,
}
use gracon_admin_service.Prisma.{Prisma, unique_violation}
use gracon_admin_service.Http.{
  HttpException, Handler, bad_request, not_found, conflict, internal, database, pure, raise, gets,
  require, reject_if, write, insert, rethrow, transaction, ◌>>=◌, ◌>>◌,
}
use gracon_admin_service.Models.{
  Admin, AdminInviteToken, AdminAuditLog, admin, admin_created, admin_invite_resent, text, Store,
}
use gracon_admin_service.Audit.{log, OnlyNotifies, OnlyNotifies-bind, log-OnlyNotifies}
use gracon_admin_service.Auth.{Runtime, SafeAdminProfile, build_safe_profile}
use gracon_admin_service.Mailer.{send_admin_invite_email}

-- 48 hours.
abbrev pub invite_token_expiry_ms : ℕ
invite_token_expiry_ms = 172800000

abbrev pub bcrypt_rounds : ℕ
bcrypt_rounds = 12

pub record CreateAdminDto : Type 0 where
  pub first_name : String
  pub last_name : String
  pub email : String
  pub phone_number : Option String

-- The acting administrator, the address, the clock and the random bytes of the invite token.
pub record Inviter : Type 0 where
  pub admin_id : String
  pub ip_address : String
  pub now : ℕ
  pub random_token : String

pub record SetPasswordDto : Type 0 where
  pub admin_id : String
  pub token : String
  pub password : String

abbrev full_name : String → String → String
full_name first last = template (first ∷ " " ∷ last ∷ [])

abbrev name_or_role : Option Admin → String
name_or_role none = "SUPER_ADMIN"
name_or_role (some a) = full_name a.first_name a.last_name

-- The row that `createAdmin` stores; `createdAt` is set by the database.
abbrev pub invited_admin : CreateAdminDto → Inviter → Admin
invited_admin dto by = record {
  first_name = dto.first_name;
  last_name = dto.last_name;
  email = dto.email;
  phone_number = dto.phone_number;
  password_hash = none;
  role = admin;
  is_verified = false;
  is_active = true;
  created_at = by.now;
  created_by_id = some by.admin_id;
}

abbrev pub created_entry : CreateAdminDto → Inviter → String → AdminAuditLog
created_entry dto by id = record {
  admin_id = by.admin_id;
  action = admin_created;
  target_user_id = none;
  ip_address = some by.ip_address;
  metadata =
      ("newAdminId", text id)
      ∷ ("newAdminEmail", text dto.email)
      ∷ ("newAdminName", text (full_name dto.first_name dto.last_name))
      ∷ [];
}

abbrev pub resent_entry : String → Admin → Inviter → AdminAuditLog
resent_entry id a by = record {
  admin_id = by.admin_id;
  action = admin_invite_resent;
  target_user_id = none;
  ip_address = some by.ip_address;
  metadata = ("targetAdminId", text id) ∷ ("targetEmail", text a.email) ∷ [];
}

abbrev pub taken_email : String → String
taken_email email = template ("An admin account with email \"" ∷ email ∷ "\" already exists." ∷ [])

-- The `catch` of `createAdmin`.
abbrev creation_failure : HttpException → HttpException
creation_failure (database unique_violation) =
    conflict "An admin account with this email already exists."
creation_failure _ = internal "Failed to create admin account. Please try again."

pub data InviteCheck : Type 0 where
  valid : String → InviteCheck
  invalid : String → InviteCheck

pub record InviteValidity : Type 0 where
  pub is_valid : Bool
  pub message : String
  pub admin_name : Option String

abbrev pub unknown_invite : String
unknown_invite = "Invalid or expired invite link. Please request a new one."

abbrev pub used_invite : String
used_invite = "This invite link has already been used. Ask a SUPER_ADMIN to resend your invite."

abbrev pub expired_invite : String
expired_invite =
    "This invite link has expired (48-hour limit). Ask a SUPER_ADMIN to resend your invite."

abbrev check_invite : ℕ → Option (String × AdminInviteToken) → InviteCheck
check_invite now none = invalid unknown_invite
check_invite now (some (id, t)) =
    if t.used
    then invalid used_invite
    else if ltb t.expires_at now
    then invalid expired_invite
    else valid id

abbrev pub is_invite_of : Runtime → String → String → String → AdminInviteToken → Bool
is_invite_of R admin_id raw _ t = (t.admin_id == admin_id) && (t.token_hash == R.sha256 raw)

abbrev pub new_invite : Runtime → String → Inviter → AdminInviteToken
new_invite R id by = record {
  admin_id = id;
  token_hash = R.sha256 by.random_token;
  expires_at = by.now + invite_token_expiry_ms;
  used = false;
}

module _ ⦃P : Prisma⦄ (R : Runtime) where
  abbrev store_invited : CreateAdminDto → Inviter → Handler Store String
  store_invited dto by = do
    id ← insert (λ s. P.create (invited_admin dto by) s.admins) (λ s t. record s { admins = t })
    insert (λ s. P.create (new_invite R id by) s.admin_invite_tokens)
        (λ s t. record s { admin_invite_tokens = t })
    pure id

  -- The mail and the audit entry of `createAdmin`.
  unfoldable pub announce_created :
      Option Admin → CreateAdminDto → Inviter → String → Handler Store (Unit {0})
  announce_created creator dto by id = do
    send_admin_invite_email R dto.email (name_or_role creator) id by.random_token
    log (created_entry dto by id)

  unfoldable pub create_admin : CreateAdminDto → Inviter → Handler Store SafeAdminProfile
  create_admin dto by = do
    creator ← gets (λ s. P.find_unique by.admin_id s.admins)
    existing ← gets (λ s. P.find_first (λ _ a. a.email == dto.email) s.admins)
    reject_if (is_some existing) (conflict (taken_email dto.email))
    id ← rethrow creation_failure (transaction (store_invited dto by))
    announce_created creator dto by id
    pure (build_safe_profile id (invited_admin dto by))

  unfoldable pub find_valid_invite_token : String → String → ℕ → Store → InviteCheck
  find_valid_invite_token admin_id raw now s =
      check_invite now (P.find_first (is_invite_of R admin_id raw) s.admin_invite_tokens)

  abbrev pub validity : String → InviteCheck → Handler Store InviteValidity
  validity admin_id (invalid reason) =
      pure (record { is_valid = false; message = reason; admin_name = none })
  validity admin_id (valid _) = do
    found ← gets (λ s. P.find_unique admin_id s.admins)
    pure (record {
      is_valid = true;
      message = "Invite link is valid.";
      admin_name = option_map (λ a. full_name a.first_name a.last_name) found;
    })

  unfoldable pub validate_invite_token : String → String → ℕ → Handler Store InviteValidity
  unfolding find_valid_invite_token
  validate_invite_token admin_id raw now = do
    check ← gets (find_valid_invite_token admin_id raw now)
    validity admin_id check

  abbrev activate : SetPasswordDto → String → String → Handler Store (Unit {0})
  activate dto salt token_id = transaction (do
    write
        (λ s.
          P.update dto.admin_id
            (λ a. record a {
              password_hash = some (R.bcrypt_hash dto.password bcrypt_rounds salt);
              is_verified = true;
            })
            s.admins)
        (λ s t. record s { admins = t })
    write (λ s. P.update token_id (λ t. record t { used = true }) s.admin_invite_tokens)
        (λ s t. record s { admin_invite_tokens = t }))

  abbrev pub activate_if : SetPasswordDto → String → InviteCheck → Handler Store (Unit {0})
  activate_if dto salt (invalid reason) = raise (bad_request reason)
  activate_if dto salt (valid token_id) = activate dto salt token_id

  unfoldable pub set_password : SetPasswordDto → ℕ → String → Handler Store (Unit {0})
  unfolding find_valid_invite_token
  set_password dto now salt = do
    check ← gets (find_valid_invite_token dto.admin_id dto.token now)
    activate_if dto salt check

  abbrev replace_invites : String → Inviter → Handler Store (Unit {0})
  replace_invites id by = transaction (do
    write
        (λ s.
          P.update_many (λ _ t. (t.admin_id == id) && not t.used) (λ t. record t { used = true })
            s.admin_invite_tokens)
        (λ s t. record s { admin_invite_tokens = t })
    insert (λ s. P.create (new_invite R id by) s.admin_invite_tokens)
        (λ s t. record s { admin_invite_tokens = t })
    pure tt)

  -- The mail and the audit entry of `resendInvite`.
  unfoldable pub announce_resent : String → Admin → Inviter → Handler Store (Unit {0})
  announce_resent id a by = do
    requester ← gets (λ s. P.find_unique by.admin_id s.admins)
    send_admin_invite_email R a.email (name_or_role requester) id by.random_token
    log (resent_entry id a by)

  unfoldable pub resend_invite : String → Inviter → Handler Store (Unit {0})
  resend_invite id by = do
    found ← gets (λ s. P.find_unique id s.admins)
    a ← require found (not_found "Admin account not found.")
    reject_if a.is_verified
        (bad_request "This admin account is already verified. Cannot resend invite.")
    replace_invites id by
    announce_resent id a by

  pub announce_created-OnlyNotifies :
      (creator : Option Admin) (dto : CreateAdminDto) (by : Inviter) (id : String)
      → OnlyNotifies (announce_created creator dto by id)
  unfolding announce_created send_admin_invite_email ◌>>=◌
  announce_created-OnlyNotifies creator dto by id s =
      OnlyNotifies-bind
        (send_admin_invite_email R dto.email (name_or_role creator) id by.random_token)
        (log (created_entry dto by id)) (λ s. refl) (log-OnlyNotifies (created_entry dto by id)) s

  pub announce_resent-OnlyNotifies :
      (id : String) (a : Admin) (by : Inviter) → OnlyNotifies (announce_resent id a by)
  unfolding announce_resent send_admin_invite_email ◌>>=◌
  announce_resent-OnlyNotifies id a by s =
      OnlyNotifies-bind
        (send_admin_invite_email R a.email (name_or_role (P.find_unique by.admin_id s.admins)) id
          by.random_token)
        (log (resent_entry id a by)) (λ s. refl) (log-OnlyNotifies (resent_entry id a by)) s
