-- ===== src/Users/Detail.antt =====
-- The detail page of a user (getUserDetail of src/modules/users/admin-users.service.ts), with the
-- columns that the rows of Models.antt have. Attempts at verification and security events are rows
-- of other services that the page passes on; they are left out.
pub mod Viewing
use gracon_admin_service.Prelude.{
  ℕ, String, Bool, false, not, ◌&&◌, Option, none, some, List, [], ◌∷◌, map, ◌==◌, ltb,
  if◌then◌else◌, or_else, option_map, take, length, template,
}
use gracon_admin_service.Prisma.{Prisma}
use gracon_admin_service.Prisma.Search.{Search, find_many}
use gracon_admin_service.Http.{Handler, pure, gets, require, ◌>>=◌, ◌>>◌}
use gracon_admin_service.Models.{
  Admin, AdminRole, AdminAction, AdminAuditLog, MetaValue, text, user_detail_viewed, User,
  RefreshToken, CitizenIdentity, IdentityType, PlatformId, Store,
}
use gracon_admin_service.Access.{role_text}
use gracon_admin_service.Audit.{log}
use gracon_admin_service.Crypto.{Cipher, decrypt, mask_value}
use gracon_admin_service.Users.{Actor, missing_user, entry_on, broken_cipher, stored_nid}
use gracon_admin_service.Users.Listing.{identity_of}

pub record SessionItem : Type 0 where
  pub id : String
  pub expires_at : ℕ
  pub created_at : ℕ

pub record AuditItem : Type 0 where
  pub id : String
  pub action : AdminAction
  pub admin_id : String
  pub admin_name : String
  pub metadata : List (String × MetaValue)
  pub ip_address : Option String
  pub created_at : ℕ

pub record AdminUserDetail : Type 0 where
  pub user_id : String
  pub first_name : String
  pub last_name : String
  pub email : String
  pub phone_number : Option String
  pub masked_nid : String
  pub masked_pid : String
  pub nid_decrypted : Bool
  pub identity_type : Option IdentityType
  pub is_active : Bool
  pub is_verified : Bool
  pub is_id_verified : Bool
  pub id_verified_at : Option ℕ
  pub created_at : ℕ
  pub sessions_truncated : Bool
  pub sessions : List SessionItem
  pub audit_history : List AuditItem

-- Sessions that are neither revoked nor expired.
abbrev pub open_session : String → ℕ → String → RefreshToken → Bool
open_session id now _ t = (t.user_id == id) && not t.revoked && ltb now t.expires_at

abbrev targets : Option String → String → Bool
targets none id = false
targets (some target) id = target == id

abbrev pub about_user : String → String → AdminAuditLog → Bool
about_user id _ e = targets e.target_user_id id

-- `raw ? maskValue(raw, 4) : '—'`
unfoldable pub masked : Option String → String
masked none = "—"
masked (some raw) = if raw == "" then "—" else mask_value raw 4

abbrev pub viewed_entry : Actor → AdminRole → String → AdminAuditLog
viewed_entry by role id = record (entry_on by user_detail_viewed id) {
  metadata = ("adminRole", text (role_text role)) ∷ [];
}

abbrev pub session_item : (String → ℕ) → String × RefreshToken → SessionItem
session_item created (id, t) = record {
  id = id;
  expires_at = t.expires_at;
  created_at = created id;
}

abbrev name_of : Option Admin → String
name_of none = ""
name_of (some a) = template (a.first_name ∷ " " ∷ a.last_name ∷ [])

abbrev audit_item : (String → ℕ) → Option Admin → String × AdminAuditLog → AuditItem
audit_item created actor (id, e) = record {
  id = id;
  action = e.action;
  admin_id = e.admin_id;
  admin_name = name_of actor;
  metadata = e.metadata;
  ip_address = e.ip_address;
  created_at = created id;
}

module _ ⦃P : Prisma⦄ ⦃Q : Search⦄ (C : Cipher) where
  -- What is decrypted, if something is stored.
  unfoldable pub opened : Option String → Handler Store (Option String)
  opened none = pure none
  opened (some encrypted) = do
    plain ← require (decrypt C encrypted) (broken_cipher C)
    pure (some plain)

  abbrev pub encrypted_nid : Option CitizenIdentity → Option String
  encrypted_nid none = none
  encrypted_nid (some i) = stored_nid C i

  abbrev pub encrypted_pid : Option (String × PlatformId) → Option String
  encrypted_pid none = none
  encrypted_pid (some (_, p)) = if p.pid_encrypted == "" then none else some p.pid_encrypted

  -- The eleven latest sessions that are open.
  abbrev pub latest_sessions : (String → ℕ) → String → ℕ → Store → List (String × RefreshToken)
  latest_sessions created id now s =
      find_many (open_session id now) (λ k _. created k) 0 11 s.refresh_tokens

  abbrev pub page_of :
      (String → ℕ) → String → ℕ → Store → User → Option String → Option String → AdminUserDetail
  page_of created id now s u nid pid =
      let i = identity_of s id in
      record {
        user_id = id;
        first_name = or_else (option_map (λ (c : CitizenIdentity). c.post_names) i) "";
        last_name = or_else (option_map (λ (c : CitizenIdentity). c.sur_name) i) "";
        email = u.email;
        phone_number = u.phone_number;
        masked_nid = masked nid;
        masked_pid = masked pid;
        nid_decrypted = false;
        identity_type = option_map (λ (c : CitizenIdentity). c.identity_type) i;
        is_active = u.is_active;
        is_verified = u.is_verified;
        is_id_verified = u.is_id_verified;
        id_verified_at = u.id_verified_at;
        created_at = u.created_at;
        sessions_truncated = ltb 10 (length (latest_sessions created id now s));
        sessions = map (session_item created) (take 10 (latest_sessions created id now s));
        audit_history =
            map
              (λ (entry : String × AdminAuditLog).
                audit_item created (P.find_unique entry.1.admin_id s.admins) entry)
              (find_many (about_user id) (λ k _. created k) 0 5 s.audit_logs);
      }

  -- `created` gives the instants at which the database created its rows. The write to the trail is
  -- not awaited; it cannot fail the request.
  unfoldable pub get_user_detail :
      (String → ℕ) → String → Actor → AdminRole → ℕ → Handler Store AdminUserDetail
  get_user_detail created id by role now = do
    found ← gets (λ s. P.find_unique id s.users)
    u ← require found (missing_user id)
    identity ← gets (λ s. identity_of s id)
    platform ← gets (λ s. P.find_first (λ _ p. p.user_id == id) s.platform_ids)
    nid ← opened (encrypted_nid identity)
    pid ← opened (encrypted_pid platform)
    page ← gets (λ s. page_of created id now s u nid pid)
    log (viewed_entry by role id)
    pure page
