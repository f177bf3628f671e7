-- ===== src/Users.antt =====
-- src/modules/users/admin-users.service.ts: what an administrator does to a user account. The
-- reply's texts that only restate the new status are left out; the clock is an argument.
pub mod Status
pub mod Verification
pub mod Identifiers
pub mod Listing
pub mod Detail
use gracon_admin_service.Prelude.{
  ℕ, String, Bool, true, false, not, ◌&&◌, Option, none, some, [], ◌∷◌, ◌==◌, ◌≡◌, refl,
  if◌then◌else◌, bool_eq, template,
}
use gracon_admin_service.Prisma.{Prisma}
use gracon_admin_service.Http.{
  HttpException, Handler, bad_request, not_found, internal, pure, gets, require, reject_if, write,
  insert, when, transaction, ◌>>=◌, ◌>>◌,
}
use gracon_admin_service.Models.{
  User, RefreshToken, CitizenIdentity, PlatformId, AdminAuditLog, AdminAction, MetaValue, text,
  number, flag, null, user_deactivated, user_reactivated, sessions_revoked, id_status_changed,
  nid_decrypted, pid_decrypted, Store,
}
use gracon_admin_service.Audit.{log}
use gracon_admin_service.Auth.{truthy}
use gracon_admin_service.Crypto.{Cipher, decrypt}

-- The acting administrator and the address of the request.
pub record Actor : Type 0 where
  pub admin_id : String
  pub ip_address : String

-- UpdateUserStatusDto and UpdateIdVerificationDto: the new flag and the optional reason.
pub record UpdateUserStatusDto : Type 0 where
  pub is_active : Bool
  pub reason : Option String

pub record UpdateIdVerificationDto : Type 0 where
  pub is_id_verified : Bool
  pub reason : Option String

abbrev pub missing_user : String → HttpException
missing_user id = not_found (template ("User with ID \"" ∷ id ∷ "\" not found." ∷ []))

abbrev pub optional_text : Option String → MetaValue
optional_text none = null
optional_text (some s) = text s

abbrev pub entry_on : Actor → AdminAction → String → AdminAuditLog
entry_on by action id = record {
  admin_id = by.admin_id;
  action = action;
  target_user_id = some id;
  ip_address = some by.ip_address;
  metadata = [];
}

abbrev pub status_entry : Actor → String → UpdateUserStatusDto → User → AdminAuditLog
status_entry by id dto u =
    record (entry_on by (if dto.is_active then user_reactivated else user_deactivated) id) {
      metadata =
          ("reason", optional_text dto.reason)
          ∷ ("newStatus", flag dto.is_active)
          ∷ ("userEmail", text u.email)
          ∷ [];
    }

abbrev pub sessions_entry : Actor → String → ℕ → User → AdminAuditLog
sessions_entry by id count u = record (entry_on by sessions_revoked id) {
  metadata = ("revokedCount", number count) ∷ ("userEmail", text u.email) ∷ [];
}

abbrev pub id_status_entry : Actor → String → UpdateIdVerificationDto → User → AdminAuditLog
id_status_entry by id dto u = record (entry_on by id_status_changed id) {
  metadata =
      ("newStatus", flag dto.is_id_verified)
      ∷ ("reason", optional_text dto.reason)
      ∷ ("userEmail", text u.email)
      ∷ ("override", text "manual_admin_action")
      ∷ [];
}

-- The identifier itself is never part of the entry.
abbrev pub decrypted_entry : Actor → AdminAction → String → ℕ → String → AdminAuditLog
decrypted_entry by action id now reason = record (entry_on by action id) {
  metadata = ("accessedAt", number now) ∷ ("reason", text reason) ∷ [];
}

-- The sessions that are not revoked yet.
abbrev pub live_session_of : String → String → RefreshToken → Bool
live_session_of user_id _ t = (t.user_id == user_id) && not t.revoked

abbrev pub end_session : RefreshToken → RefreshToken
end_session t = record t { revoked = true }

-- A reason as an entry shows it: the text, or null.
abbrev pub stated : Option String → MetaValue
stated none = null
stated (some reason) = text reason

pub stated-optional_text : (o : Option String) → stated o ≡ optional_text o
stated-optional_text none = refl
stated-optional_text (some reason) = refl

module _ ⦃P : Prisma⦄ where
  abbrev revoke_sessions : String → Handler Store (Unit {0})
  revoke_sessions id =
      write (λ s. P.update_many (live_session_of id) end_session s.refresh_tokens)
        (λ s t. record s { refresh_tokens = t })

  unfoldable pub update_user_status :
      String → UpdateUserStatusDto → Actor → Handler Store (Unit {0})
  update_user_status id dto by = do
    found ← gets (λ s. P.find_unique id s.users)
    u ← require found (missing_user id)
    reject_if (bool_eq u.is_active dto.is_active) (
        bad_request (
          template
            ("User is already " ∷ (if dto.is_active then "active" else "deactivated") ∷ "." ∷ [])))
    transaction (do
      write (λ s. P.update id (λ u. record u { is_active = dto.is_active }) s.users)
          (λ s t. record s { users = t })
      when (not dto.is_active) (revoke_sessions id))
    log (status_entry by id dto u)

  -- The reply is the number of sessions that the update says it changed.
  unfoldable pub revoke_user_sessions : String → Actor → Handler Store ℕ
  revoke_user_sessions id by = do
    found ← gets (λ s. P.find_unique id s.users)
    u ← require found (missing_user id)
    count ←
        insert (λ s. P.update_many_counted (live_session_of id) end_session s.refresh_tokens)
          (λ s t. record s { refresh_tokens = t })
    log (sessions_entry by id count u)
    pure count

  abbrev verified_at : Bool → ℕ → Option ℕ
  verified_at true now = some now
  verified_at false now = none

  unfoldable pub update_id_verification :
      String → UpdateIdVerificationDto → Actor → ℕ → Handler Store (Unit {0})
  update_id_verification id dto by now = do
    found ← gets (λ s. P.find_unique id s.users)
    u ← require found (missing_user id)
    reject_if (bool_eq u.is_id_verified dto.is_id_verified) (
        bad_request (
          template (
            "User ID verification is already set to "
            ∷ (if dto.is_id_verified then "true" else "false")
            ∷ "."
            ∷ [])))
    reject_if (not dto.is_id_verified && not (truthy dto.reason))
        (bad_request "A reason is required when revoking ID verification status.")
    write
        (λ s.
          P.update id
            (λ u. record u {
              is_id_verified = dto.is_id_verified;
              id_verified_at = verified_at dto.is_id_verified now;
            })
            s.users)
        (λ s t. record s { users = t })
    log (id_status_entry by id dto u)

module _ ⦃P : Prisma⦄ (C : Cipher) where
  abbrev pub stored_nid : CitizenIdentity → Option String
  stored_nid i = if truthy i.nid_encrypted then i.nid_encrypted else none

  -- A cipher that throws is an exception that nobody catches.
  abbrev pub broken_cipher : HttpException
  broken_cipher = internal "Internal server error"

  unfoldable pub decrypt_nid : String → Actor → ℕ → String → Handler Store String
  decrypt_nid id by now reason = do
    found ← gets (λ s. P.find_first (λ _ i. i.user_id == id) s.citizen_identities)
    (_, i) ←
        require found
          (not_found (template ("No citizen identity found for user ID \"" ∷ id ∷ "\"." ∷ [])))
    encrypted ← require (stored_nid i) (
        not_found
          (template ("No encrypted national ID is stored for user ID \"" ∷ id ∷ "\"." ∷ [])))
    nid ← require (decrypt C encrypted) broken_cipher
    log (decrypted_entry by nid_decrypted id now reason)
    pure nid

  unfoldable pub decrypt_pid : String → Actor → ℕ → String → Handler Store String
  decrypt_pid id by now reason = do
    found ← gets (λ s. P.find_first (λ _ p. p.user_id == id) s.platform_ids)
    (_, p) ←
        require found
          (not_found (template ("No platform identity found for user ID \"" ∷ id ∷ "\"." ∷ [])))
    pid ← require (decrypt C p.pid_encrypted) broken_cipher
    log (decrypted_entry by pid_decrypted id now reason)
    pure pid
