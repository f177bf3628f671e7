-- ===== src/Certificates/Bans.antt =====
-- src/modules/certificates/admin-certificates.service.ts: banning a user from certificates, from
-- the page of a certificate or of the user, and lifting the ban. `updatedAt`, a column that the
-- database keeps, is left out of the policy's view.
mod Policies
unfoldable pub use Policies.*
use gracon_admin_service.Prelude.{ℕ, String, not, Option, none, some, ◌==◌, if◌then◌else◌, trim}
use gracon_admin_service.Prisma.{Prisma}
use gracon_admin_service.Http.{
  Handler, not_found, conflict, pure, gets, require, write, transaction, when, ◌>>=◌, ◌>>◌,
}
use gracon_admin_service.Models.{
  User, CitizenIdentity, PersonalCertificate, AccessPolicy, banned, Store,
}
use gracon_admin_service.Audit.{log}
use gracon_admin_service.Mailer.{
  send_certificate_access_banned_email, send_certificate_access_restored_email,
}
use gracon_admin_service.Certificates.{
  Reviewer, CertificateRow, build_user_name, revoked_entry, set_revoked, find_certificate_or_throw,
}

-- A user, with the identity if there is one.
pub record UserRow : Type 0 where
  pub user : User
  pub identity : Option CitizenIdentity

module _ ⦃P : Prisma⦄ where
  unfoldable pub ensure_user_exists : String → Handler Store UserRow
  ensure_user_exists id = do
    found ← gets (λ s. P.find_unique id s.users)
    u ← require found (not_found "User not found.")
    identity ← gets (λ s. P.find_first (λ _ i. i.user_id == id) s.citizen_identities)
    pure (record { user = u; identity = elim identity [ none ↦ none | some (_, i) ↦ some i ] })

  unfoldable pub get_certificate_access_policy : String → Handler Store PolicyView
  get_certificate_access_policy user_id = do
    policy ← gets (λ s. P.find_first (policy_of user_id) s.access_policies)
    pure (build_policy_view user_id (elim policy [ none ↦ none | some (_, p) ↦ some p ]))

  abbrev pub revoke_certificate_if_needed :
      String → PersonalCertificate → String → ℕ → Handler Store (Unit {0})
  revoke_certificate_if_needed id c reason at =
      when (not c.is_revoked) (set_revoked id at (ban_text reason))

  abbrev pub upsert_banned_policy : String → String → String → ℕ → Handler Store (Unit {0})
  upsert_banned_policy user_id admin_id reason at =
      write
        (λ s.
          P.upsert (policy_of user_id) (banned_policy user_id admin_id reason at)
            (ban_policy admin_id reason at) s.access_policies)
        (λ s t. record s { access_policies = t })

  abbrev pub cancel_pending_requests : String → String → ℕ → Handler Store (Unit {0})
  cancel_pending_requests user_id reason at =
      write (λ s. P.update_many (pending_of user_id) (cancel_row reason at) s.certificate_requests)
        (λ s t. record s { certificate_requests = t })

  -- The audit entries and the mail of a ban from a certificate.
  unfoldable pub announce_banned : CertificateRow → Reviewer → String → Handler Store (Unit {0})
  announce_banned row by reason = do
    log (ban_entry by reason row.id row.certificate)
    when (not row.certificate.is_revoked)
        (log (revoked_entry by row.id row.certificate "cessationOfOperation" (ban_text reason)))
    send_certificate_access_banned_email row.user.email (build_user_name row.user row.identity)
        reason by.now

  unfoldable pub ban_certificate_access_from_certificate :
      String → Reviewer → String → Handler Store CertificateRow
  ban_certificate_access_from_certificate id by raw_reason = do
    row ← find_certificate_or_throw id
    transaction (do
      revoke_certificate_if_needed row.id row.certificate (trim raw_reason) by.now
      upsert_banned_policy row.certificate.user_id by.admin_id (trim raw_reason) by.now
      cancel_pending_requests row.certificate.user_id (trim raw_reason) by.now)
    announce_banned row by (trim raw_reason)
    find_certificate_or_throw row.id

  abbrev pub revoke_found :
      Option (String × PersonalCertificate) → String → ℕ → Handler Store (Unit {0})
  revoke_found none reason at = pure tt
  revoke_found (some (id, c)) reason at = revoke_certificate_if_needed id c reason at

  abbrev pub log_found :
      Option (String × PersonalCertificate) → Reviewer → String → Handler Store (Unit {0})
  log_found none by reason = pure tt
  log_found (some (id, c)) by reason =
      log (revoked_entry by id c "cessationOfOperation" (ban_text reason))

  unfoldable pub announce_user_banned :
      String
      → UserRow
      → Option (String × PersonalCertificate)
      → Reviewer
      → String
      → Handler Store (Unit {0})
  announce_user_banned user_id u revoked by reason = do
    log (user_ban_entry by reason user_id)
    log_found revoked by reason
    send_certificate_access_banned_email u.user.email (build_user_name u.user u.identity) reason
        by.now

  unfoldable pub ban_certificate_access_for_user :
      String → Reviewer → String → Handler Store PolicyView
  ban_certificate_access_for_user user_id by raw_reason = do
    u ← ensure_user_exists user_id
    revoked ← transaction (do
      active ← gets (λ s. P.find_first (unrevoked_of user_id) s.certificates)
      revoke_found active (trim raw_reason) by.now
      upsert_banned_policy user_id by.admin_id (trim raw_reason) by.now
      cancel_pending_requests user_id (trim raw_reason) by.now
      pure active)
    announce_user_banned user_id u revoked by (trim raw_reason)
    get_certificate_access_policy user_id

  abbrev current_ban : Option (String × AccessPolicy) → Option (String × AccessPolicy)
  current_ban none = none
  current_ban (some (id, p)) = if is_banned p.status then some (id, p) else none

  unfoldable pub announce_lifted :
      String → UserRow → AccessPolicy → Reviewer → String → Handler Store (Unit {0})
  announce_lifted user_id u p by reason = do
    log (lift_entry by reason user_id p)
    send_certificate_access_restored_email u.user.email (build_user_name u.user u.identity) reason
        by.now

  unfoldable pub lift_certificate_access_ban : String → Reviewer → String → Handler Store PolicyView
  lift_certificate_access_ban user_id by raw_reason = do
    u ← ensure_user_exists user_id
    policy ← gets (λ s. P.find_first (policy_of user_id) s.access_policies)
    (policy_id, p) ←
        require (current_ban policy) (conflict "Certificate access is not currently banned.")
    write
        (λ s.
          P.update policy_id (lift_policy by.admin_id (trim raw_reason) by.now) s.access_policies)
        (λ s t. record s { access_policies = t })
    announce_lifted user_id u p by (trim raw_reason)
    get_certificate_access_policy user_id
