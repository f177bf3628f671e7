-- ===== src/Audit/Listing.antt =====
-- The listings of the audit trail and of the security events
-- (src/modules/audit/admin-audit.service.ts and
-- src/modules/security-events/admin-security-events.service.ts).
pub mod Joined
use gracon_admin_service.Prelude.{
  ℕ, String, Bool, false, ◌&&◌, ◌||◌, Option, none, some, List, [], ◌∷◌, map, ◌==◌, eqb,
  if◌then◌else◌, or_else, option_map, template,
}
use gracon_admin_service.Prisma.{Prisma}
use gracon_admin_service.Prisma.Search.{Search, find_many}
use gracon_admin_service.Models.{
  Admin, AdminAction, AdminAuditLog, MetaValue, User, Store, admin_created, admin_invite_resent,
  user_detail_viewed, user_deactivated, user_reactivated, sessions_revoked, id_status_changed,
  nid_decrypted, pid_decrypted, certificate_revoked, certificate_access_banned,
  certificate_access_ban_lifted, certificate_reissue_requested, certificate_request_approved,
  certificate_request_rejected, signature_revoked,
}
use gracon_admin_service.Listing.{Paginated, unless_asked, nonempty, equals, within, pagination_of}
use gracon_admin_service.Maintenance.{skip_of}

pub record QueryAuditDto : Type 0 where
  pub admin_id : Option String
  pub target_user_id : Option String
  pub action : Option AdminAction
  pub created_from : Option ℕ
  pub created_to : Option ℕ
  pub page : Option ℕ
  pub limit : Option ℕ

pub record AuditLogEntry : Type 0 where
  pub id : String
  pub admin_id : String
  pub admin_name : String
  pub admin_email : String
  pub action : AdminAction
  pub target_user_id : Option String
  pub target_email : Option String
  pub metadata : List (String × MetaValue)
  pub ip_address : Option String
  pub created_at : ℕ

-- The place of an action in its enumeration.
abbrev pub action_number : AdminAction → ℕ
action_number admin_created = 0
action_number admin_invite_resent = 1
action_number user_detail_viewed = 2
action_number user_deactivated = 3
action_number user_reactivated = 4
action_number sessions_revoked = 5
action_number id_status_changed = 6
action_number nid_decrypted = 7
action_number pid_decrypted = 8
action_number certificate_revoked = 9
action_number certificate_access_banned = 10
action_number certificate_access_ban_lifted = 11
action_number certificate_reissue_requested = 12
action_number certificate_request_approved = 13
action_number certificate_request_rejected = 14
action_number signature_revoked = 15

abbrev is_target : String → Option String → Bool
is_target asked none = false
is_target asked (some id) = id == asked

-- The `where` of the query; `created_at` is the instant that the database gave to the entry.
unfoldable pub audit_where : (String → ℕ) → QueryAuditDto → String → AdminAuditLog → Bool
audit_where created_at dto id e =
    equals dto.admin_id e.admin_id
    && unless_asked (nonempty dto.target_user_id) (λ t. is_target t e.target_user_id)
    && unless_asked dto.action (λ a. eqb (action_number a) (action_number e.action))
    && within dto.created_from dto.created_to (created_at id)

-- `logs.map((l) => l.targetUserId).filter(Boolean)`; the set drops repetitions, which do not
-- matter to a search by `in`.
unfoldable pub target_ids : List (String × AdminAuditLog) → List String
target_ids [] = []
target_ids ((id, e) ∷ logs) =
    let rest = target_ids logs in
    elim (nonempty e.target_user_id) [ some target ↦ target ∷ rest | none ↦ rest ]

abbrev pub is_in : List String → String → Bool
is_in [] id = false
is_in (x ∷ xs) id = x == id || is_in xs id

-- `new Map(users).get(id)`: the last of an id counts.
unfoldable pub email_in : List (String × User) → String → Option String
email_in [] id = none
email_in ((k, u) ∷ users) id =
    let later = email_in users id in
    elim later [ some e ↦ some e | none ↦ (if k == id then some u.email else none) ]

abbrev full_name : Option Admin → String
full_name none = ""
full_name (some a) = template (a.first_name ∷ " " ∷ a.last_name ∷ [])

abbrev target_email_in : List (String × User) → Option String → Option String
target_email_in users none = none
target_email_in users (some id) = email_in users id

abbrev pub audit_log_entry :
    (String → ℕ) → List (String × User) → Option Admin → String × AdminAuditLog → AuditLogEntry
audit_log_entry created_at users actor (id, e) = record {
  id = id;
  admin_id = e.admin_id;
  admin_name = full_name actor;
  admin_email = or_else (option_map (λ (a : Admin). a.email) actor) "";
  action = e.action;
  target_user_id = e.target_user_id;
  target_email = target_email_in users (nonempty e.target_user_id);
  metadata = e.metadata;
  ip_address = e.ip_address;
  created_at = created_at id;
}

module _ ⦃P : Prisma⦄ ⦃Q : Search⦄ where
  -- The users whom the entries of a page are about, fetched at once.
  abbrev pub target_users : List (String × AdminAuditLog) → Store → List (String × User)
  target_users logs s =
      Q.select (λ id _. is_in (target_ids logs) id) (λ _ (u : User). u.created_at) 0 0 s.users

  unfoldable pub list_audit_logs : (String → ℕ) → QueryAuditDto → Store → Paginated AuditLogEntry
  list_audit_logs created_at dto s =
      let page = or_else dto.page 1 in
      let limit = or_else dto.limit 50 in
      let logs =
        find_many (audit_where created_at dto) (λ id _. created_at id) (skip_of page limit) limit
          s.audit_logs in
      record {
        data_rows =
            map
              (λ (entry : String × AdminAuditLog).
                audit_log_entry created_at (target_users logs s)
                  (P.find_unique entry.1.admin_id s.admins) entry)
              logs;
        pagination = pagination_of page limit (P.count (audit_where created_at dto) s.audit_logs);
      }

-- The security events, which other services write.
pub record SecurityEventRow : Type 0 where
  pub user_id : Option String
  pub event_type : String
  pub ip_address : Option String
  pub metadata : List (String × MetaValue)
  pub created_at : ℕ

pub record QuerySecurityEventsDto : Type 0 where
  pub user_id : Option String
  pub event_type : Option String
  pub ip_address : Option String
  pub created_from : Option ℕ
  pub created_to : Option ℕ
  pub page : Option ℕ
  pub limit : Option ℕ

pub record SecurityEventEntry : Type 0 where
  pub id : String
  pub user_id : Option String
  pub user_email : Option String
  pub event_type : String
  pub ip_address : Option String
  pub metadata : List (String × MetaValue)
  pub created_at : ℕ

module _ ⦃P : Prisma⦄ ⦃Q : Search⦄ where
  abbrev optional_user : Option String → Store → Option User
  optional_user none s = none
  optional_user (some id) s = P.find_unique id s.users

  abbrev event_entry : Store → String × SecurityEventRow → SecurityEventEntry
  event_entry s (id, e) = record {
    id = id;
    user_id = e.user_id;
    user_email = option_map (λ (u : User). u.email) (optional_user e.user_id s);
    event_type = e.event_type;
    ip_address = e.ip_address;
    metadata = e.metadata;
    created_at = e.created_at;
  }

  -- `has_part` is the database's search for a part of a text that minds the case.
  unfoldable pub security_event_where :
      (String → String → Bool) → QuerySecurityEventsDto → String → SecurityEventRow → Bool
  security_event_where has_part dto _ e =
      unless_asked (nonempty dto.user_id) (λ u. is_target u e.user_id)
      && equals dto.event_type e.event_type
      && unless_asked (nonempty dto.ip_address)
          (λ part. or_else (option_map (λ ip. has_part ip part) e.ip_address) false)
      && within dto.created_from dto.created_to e.created_at

  unfoldable pub list_security_events :
      (String → String → Bool)
      → P.Table SecurityEventRow
      → QuerySecurityEventsDto
      → Store
      → Paginated SecurityEventEntry
  list_security_events has_part events dto s =
      let page = or_else dto.page 1 in
      let limit = or_else dto.limit 50 in
      record {
        data_rows = map (event_entry s) (
            find_many (security_event_where has_part dto) (λ _ (e : SecurityEventRow). e.created_at)
              (skip_of page limit) limit events);
        pagination = pagination_of page limit (P.count (security_event_where has_part dto) events);
      }
