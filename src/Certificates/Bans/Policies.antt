-- ===== src/Certificates/Bans/Policies.antt =====
-- The rows that bans write, the view of a policy, and the audit entries of bans.
use gracon_admin_service.Prelude.{
  ℕ, String, Bool, true, false, not, ◌&&◌, Option, none, some, [], ◌∷◌, ◌==◌, template,
}
use gracon_admin_service.Models.{
  PersonalCertificate, AccessPolicy, PolicyStatus, allowed, banned, RequestStatus, pending,
  cancelled, CertificateRequest, AdminAuditLog, MetaValue, text, number, flag, null,
  certificate_access_banned, certificate_access_ban_lifted,
}
use gracon_admin_service.Certificates.{Reviewer, certificate_entry}

abbrev pub is_banned : PolicyStatus → Bool
is_banned banned = true
is_banned allowed = false

abbrev pub is_pending : RequestStatus → Bool
is_pending pending = true
is_pending _ = false

pub record PolicyView : Type 0 where
  pub user_id : String
  pub status : PolicyStatus
  pub is_banned : Bool
  pub ban_reason : Option String
  pub banned_at : Option ℕ
  pub unban_reason : Option String
  pub unbanned_at : Option ℕ

unfoldable pub build_policy_view : String → Option AccessPolicy → PolicyView
build_policy_view user_id none = record {
  user_id = user_id;
  status = allowed;
  is_banned = false;
  ban_reason = none;
  banned_at = none;
  unban_reason = none;
  unbanned_at = none;
}
build_policy_view user_id (some p) = record {
  user_id = user_id;
  status = p.status;
  is_banned = is_banned p.status;
  ban_reason = p.ban_reason;
  banned_at = p.banned_at;
  unban_reason = p.unban_reason;
  unbanned_at = p.unbanned_at;
}

abbrev pub ban_text : String → String
ban_text reason = template ("Certificate access banned by admin: " ∷ reason ∷ [])

-- The row that a first ban creates.
abbrev pub banned_policy : String → String → String → ℕ → AccessPolicy
banned_policy user_id admin_id reason at = record {
  user_id = user_id;
  status = banned;
  ban_reason = some reason;
  banned_by_admin_id = some admin_id;
  banned_at = some at;
  unban_reason = none;
  unbanned_by_admin_id = none;
  unbanned_at = none;
}

abbrev pub ban_policy : String → String → ℕ → AccessPolicy → AccessPolicy
ban_policy admin_id reason at p = record p {
  status = banned;
  ban_reason = some reason;
  banned_by_admin_id = some admin_id;
  banned_at = some at;
  unban_reason = none;
  unbanned_by_admin_id = none;
  unbanned_at = none;
}

abbrev pub lift_policy : String → String → ℕ → AccessPolicy → AccessPolicy
lift_policy admin_id reason at p = record p {
  status = allowed;
  unban_reason = some reason;
  unbanned_by_admin_id = some admin_id;
  unbanned_at = some at;
}

abbrev pub cancel_row : String → ℕ → CertificateRequest → CertificateRequest
cancel_row reason at r = record r {
  status = cancelled;
  cancelled_at = some at;
  cancellation_reason = some (ban_text reason);
}

abbrev pub pending_of : String → String → CertificateRequest → Bool
pending_of user_id _ r = (r.user_id == user_id) && is_pending r.status

abbrev pub policy_of : String → String → AccessPolicy → Bool
policy_of user_id _ p = p.user_id == user_id

abbrev pub unrevoked_of : String → String → PersonalCertificate → Bool
unrevoked_of user_id _ c = (c.user_id == user_id) && not c.is_revoked

abbrev nullable_text : Option String → MetaValue
nullable_text none = null
nullable_text (some s) = text s

abbrev nullable_number : Option ℕ → MetaValue
nullable_number none = null
nullable_number (some n) = number n

abbrev pub ban_entry : Reviewer → String → String → PersonalCertificate → AdminAuditLog
ban_entry by reason id c = record (certificate_entry by certificate_access_banned c.user_id) {
  metadata =
      ("certificateId", text id)
      ∷ ("serialNumber", text c.serial_number)
      ∷ ("reason", text reason)
      ∷ ("bannedAt", number by.now)
      ∷ ("revokedCertificate", flag (not c.is_revoked))
      ∷ [];
}

abbrev pub user_ban_entry : Reviewer → String → String → AdminAuditLog
user_ban_entry by reason user_id = record (certificate_entry by certificate_access_banned user_id) {
  metadata = ("reason", text reason) ∷ ("bannedAt", number by.now) ∷ [];
}

abbrev pub lift_entry : Reviewer → String → String → AccessPolicy → AdminAuditLog
lift_entry by reason user_id p =
    record (certificate_entry by certificate_access_ban_lifted user_id) {
      metadata =
          ("reason", text reason)
          ∷ ("unbannedAt", number by.now)
          ∷ ("previousBanReason", nullable_text p.ban_reason)
          ∷ ("previousBannedAt", nullable_number p.banned_at)
          ∷ [];
    }
