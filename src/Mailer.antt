-- ===== src/Mailer.antt =====
-- src/common/mailer/mailer.service.ts: the mails that the handlers send. A failed delivery is
-- logged and swallowed, so a mail is recorded as handed to the mail service, delivered or not.
use gracon_admin_service.Prelude.{String, ℕ, [], ◌∷◌, template}
use gracon_admin_service.Prisma.{Prisma}
use gracon_admin_service.Http.{Handler, ok}
use gracon_admin_service.Models.{
  Mail, admin_invite, certificate_revoked_notice, access_banned_notice, access_restored_notice,
  Store,
}
use gracon_admin_service.Auth.{Runtime}

module _ ⦃P : Prisma⦄ where
  abbrev pub send : Mail → Handler Store (Unit {0})
  send mail s = (ok tt, record s { mails = mail ∷ s.mails })

  unfoldable pub send_certificate_revoked_email :
      (to user_name reason : String) → ℕ → Handler Store (Unit {0})
  send_certificate_revoked_email to user_name reason at =
      send (certificate_revoked_notice to user_name reason at)

  unfoldable pub send_certificate_access_banned_email :
      (to user_name reason : String) → ℕ → Handler Store (Unit {0})
  send_certificate_access_banned_email to user_name reason at =
      send (access_banned_notice to user_name reason at)

  unfoldable pub send_certificate_access_restored_email :
      (to user_name reason : String) → ℕ → Handler Store (Unit {0})
  send_certificate_access_restored_email to user_name reason at =
      send (access_restored_notice to user_name reason at)

unfoldable pub set_password_url : Runtime → String → String → String
set_password_url R admin_id token = template (
    R.frontend_url
    ∷ "/set-password"
    ∷ "?adminId="
    ∷ admin_id
    ∷ "&token="
    ∷ R.encode_uri_component token
    ∷ [])

module _ ⦃P : Prisma⦄ (R : Runtime) where
  unfoldable pub send_admin_invite_email :
      (to created_by_name admin_id token : String) → Handler Store (Unit {0})
  send_admin_invite_email to created_by_name admin_id token =
      send (admin_invite to created_by_name (set_password_url R admin_id token))
