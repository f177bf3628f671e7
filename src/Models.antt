-- ===== src/Models.antt =====
-- The rows that the service reads and writes, with the columns that its queries name, and the
-- state that its handlers share: the tables, and the mails handed to the mail service.
use gracon_admin_service.Prelude.{ℕ, String, Bool, Option, List}
use gracon_admin_service.Prisma.{Prisma}

pub data AdminRole : Type 0 where
  super_admin admin : AdminRole

pub data AdminAction : Type 0 where
  admin_created admin_invite_resent : AdminAction
  user_detail_viewed user_deactivated user_reactivated sessions_revoked : AdminAction
  id_status_changed nid_decrypted pid_decrypted : AdminAction
  certificate_revoked certificate_access_banned certificate_access_ban_lifted : AdminAction
  certificate_reissue_requested certificate_request_approved : AdminAction
  certificate_request_rejected signature_revoked : AdminAction

pub record Admin : Type 0 where
  pub first_name : String
  pub last_name : String
  pub email : String
  pub phone_number : Option String
  pub password_hash : Option String
  pub role : AdminRole
  pub is_verified : Bool
  pub is_active : Bool
  pub created_at : ℕ
  pub created_by_id : Option String

pub record AdminRefreshToken : Type 0 where
  pub admin_id : String
  pub token_hash : String
  pub expires_at : ℕ
  pub revoked : Bool
  pub ip_address : String
  pub user_agent : Option String

pub record AdminInviteToken : Type 0 where
  pub admin_id : String
  pub token_hash : String
  pub expires_at : ℕ
  pub used : Bool

pub record User : Type 0 where
  pub email : String
  pub phone_number : Option String
  pub is_active : Bool
  pub is_verified : Bool
  pub is_id_verified : Bool
  pub id_verified_at : Option ℕ
  pub created_at : ℕ

pub record RefreshToken : Type 0 where
  pub user_id : String
  pub expires_at : ℕ
  pub revoked : Bool

pub data IdentityType : Type 0 where
  nid fin : IdentityType

pub record CitizenIdentity : Type 0 where
  pub user_id : String
  pub nid_encrypted : Option String
  pub identity_type : IdentityType
  pub sur_name : String
  pub post_names : String

pub record PlatformId : Type 0 where
  pub user_id : String
  pub pid_encrypted : String

pub record PersonalKeyPair : Type 0 where
  pub algorithm : String
  pub is_active : Bool

pub record PersonalCertificate : Type 0 where
  pub user_id : String
  pub key_pair_id : String
  pub serial_number : String
  pub subject_cn : String
  pub subject_o : String
  pub subject_c : String
  pub subject_user_id : String
  pub not_before : ℕ
  pub not_after : ℕ
  pub certificate_pem : String
  pub is_revoked : Bool
  pub revoked_at : Option ℕ
  pub revoked_reason : Option String
  pub created_at : ℕ

pub data PolicyStatus : Type 0 where
  allowed banned : PolicyStatus

pub record AccessPolicy : Type 0 where
  pub user_id : String
  pub status : PolicyStatus
  pub ban_reason : Option String
  pub banned_by_admin_id : Option String
  pub banned_at : Option ℕ
  pub unban_reason : Option String
  pub unbanned_by_admin_id : Option String
  pub unbanned_at : Option ℕ

pub data RequestStatus : Type 0 where
  pending approved rejected cancelled : RequestStatus

pub record CertificateRequest : Type 0 where
  pub user_id : String
  pub key_pair_id : String
  pub status : RequestStatus
  pub cancelled_at : Option ℕ
  pub cancellation_reason : Option String
  pub issued_certificate_id : Option String

-- What an audit entry's metadata holds.
pub data MetaValue : Type 0 where
  text : String → MetaValue
  number : ℕ → MetaValue
  flag : Bool → MetaValue
  null : MetaValue

pub record AdminAuditLog : Type 0 where
  pub admin_id : String
  pub action : AdminAction
  pub target_user_id : Option String
  pub ip_address : Option String
  pub metadata : List (String × MetaValue)

pub data Mail : Type 0 where
  admin_invite : (to created_by_name set_password_url : String) → Mail
  certificate_revoked_notice access_banned_notice access_restored_notice :
      (to user_name reason : String) (action_at : ℕ) → Mail

pub record Store ⦃P : Prisma⦄ : Type 0 where
  pub admins : P.Table Admin
  pub admin_refresh_tokens : P.Table AdminRefreshToken
  pub admin_invite_tokens : P.Table AdminInviteToken
  pub users : P.Table User
  pub refresh_tokens : P.Table RefreshToken
  pub citizen_identities : P.Table CitizenIdentity
  pub platform_ids : P.Table PlatformId
  pub key_pairs : P.Table PersonalKeyPair
  pub certificates : P.Table PersonalCertificate
  pub access_policies : P.Table AccessPolicy
  pub certificate_requests : P.Table CertificateRequest
  pub audit_logs : P.Table AdminAuditLog
  pub mails : List Mail
