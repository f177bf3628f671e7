-- ===== src/Growth/Sessions.antt =====
-- Sessions and invitations of administrators: src/modules/auth/admin-auth.service.ts.
use gracon_admin_service.Prelude.{ℕ, String, Option, refl}
use gracon_admin_service.Prisma.{Prisma}
use gracon_admin_service.Http.Keeps.{
  Keeps, Keeps-pure, Keeps-raise, Keeps-gets, Keeps-require, Keeps-reject_if, Keeps-if,
  Keeps-transaction, Keeps-rethrow, Keeps-bind,
}
use gracon_admin_service.Models.{Admin}
use gracon_admin_service.Auth.{
  Runtime, Client, login, issue_tokens, refresh_tokens, logout, revoke_all_admin_tokens,
}
use gracon_admin_service.Mailer.{send_admin_invite_email}
use gracon_admin_service.Invites.{
  CreateAdminDto, Inviter, SetPasswordDto, InviteCheck, invalid, valid, create_admin,
  validate_invite_token, set_password, resend_invite, announce_created, announce_resent,
  activate_if, validity,
}
use gracon_admin_service.Growth.{growth, admin_fate}
use gracon_admin_service.Growth.Writes.{
  Keeps-sessions, Keeps-new_session, Keeps-invites, Keeps-admins, Keeps-new_admin, Keeps-new_invite,
  Keeps-log, Keeps-send, TableGrows-update,
}

module _ ⦃P : Prisma⦄ (R : Runtime) where
  issue_tokens-Keeps : (id : String) (a : Admin) (c : Client) → Keeps growth (issue_tokens R id a c)
  unfolding issue_tokens
  issue_tokens-Keeps id a c = Keeps-bind growth _ _ (Keeps-new_session _) (λ x. Keeps-pure growth _)

  pub login-Keeps : (email password : String) (c : Client) → Keeps growth (login R email password c)
  unfolding login
  login-Keeps email password c = Keeps-bind growth _ _ (Keeps-gets growth _) (λ found.
      Keeps-bind growth _ _ (Keeps-require growth _ _) (λ row.
        Keeps-bind growth _ _ (Keeps-reject_if growth _ _) (λ x.
          Keeps-bind growth _ _ (Keeps-reject_if growth _ _) (λ y.
            Keeps-bind growth _ _ (issue_tokens-Keeps row.0 row.1 c)
              (λ tokens. Keeps-pure growth _)))))

  revoke_all_admin_tokens-Keeps : (id : String) → Keeps growth (revoke_all_admin_tokens R id)
  unfolding revoke_all_admin_tokens
  revoke_all_admin_tokens-Keeps id = Keeps-sessions _

  pub refresh_tokens-Keeps :
      (raw : String) (checked : ℕ) (c : Client) → Keeps growth (refresh_tokens R raw checked c)
  unfolding refresh_tokens
  refresh_tokens-Keeps raw checked c = Keeps-bind growth _ _ (Keeps-gets growth _) (λ found.
      Keeps-bind growth _ _ (Keeps-require growth _ _) (λ row.
        Keeps-bind growth _ _ (Keeps-gets growth _) (λ owner.
          Keeps-bind growth _ _ (Keeps-require growth _ _) (λ a.
            Keeps-bind growth _ _
              (Keeps-if growth row.1.revoked _ _
                (Keeps-bind growth _ _ (revoke_all_admin_tokens-Keeps row.1.admin_id)
                  (λ x. Keeps-raise growth _))
                (Keeps-pure growth _))
              (λ x. Keeps-bind growth _ _ (Keeps-reject_if growth _ _) (λ y.
                Keeps-bind growth _ _ (Keeps-reject_if growth _ _) (λ z.
                  Keeps-bind growth _ _ (Keeps-sessions _)
                    (λ w. issue_tokens-Keeps row.1.admin_id a c))))))))

  pub logout-Keeps : (raw : String) → Keeps growth (logout R raw)
  unfolding logout
  logout-Keeps raw = Keeps-sessions _

  announce_created-Keeps :
      (creator : Option Admin) (dto : CreateAdminDto) (by : Inviter) (id : String)
      → Keeps growth (announce_created R creator dto by id)
  unfolding announce_created send_admin_invite_email
  announce_created-Keeps creator dto by id = Keeps-bind growth _ _ (Keeps-send _) (λ x. Keeps-log _)

  pub create_admin-Keeps :
      (dto : CreateAdminDto) (by : Inviter) → Keeps growth (create_admin R dto by)
  unfolding create_admin
  create_admin-Keeps dto by = Keeps-bind growth _ _ (Keeps-gets growth _) (λ creator.
      Keeps-bind growth _ _ (Keeps-gets growth _) (λ existing.
        Keeps-bind growth _ _ (Keeps-reject_if growth _ _) (λ x.
          Keeps-bind growth _ _
            (Keeps-rethrow growth _ _ (
              Keeps-transaction growth _ (
                Keeps-bind growth _ _ (Keeps-new_admin _)
                  (λ id. Keeps-bind growth _ _ (Keeps-new_invite _) (λ y. Keeps-pure growth _)))))
            (λ id.
              Keeps-bind growth _ _ (announce_created-Keeps creator dto by id)
                (λ z. Keeps-pure growth _)))))

  validity-Keeps : (id : String) (check : InviteCheck) → Keeps growth (validity R id check)
  validity-Keeps id (invalid reason) = Keeps-pure growth _
  validity-Keeps id (valid token) =
      Keeps-bind growth _ _ (Keeps-gets growth _) (λ found. Keeps-pure growth _)

  pub validate_invite_token-Keeps :
      (id raw : String) (now : ℕ) → Keeps growth (validate_invite_token R id raw now)
  unfolding validate_invite_token
  validate_invite_token-Keeps id raw now =
      Keeps-bind growth _ _ (Keeps-gets growth _) (λ check. validity-Keeps id check)

  activate_if-Keeps :
      (dto : SetPasswordDto) (salt : String) (check : InviteCheck)
      → Keeps growth (activate_if R dto salt check)
  activate_if-Keeps dto salt (invalid reason) = Keeps-raise growth _
  activate_if-Keeps dto salt (valid token) = Keeps-transaction growth _ (
      Keeps-bind growth _ _
        (Keeps-admins _ (λ s t made.
          TableGrows-update admin_fate dto.admin_id _ s.admins t (λ r h. (refl, refl, λ v. refl))
            made))
        (λ x. Keeps-invites _))

  pub set_password-Keeps :
      (dto : SetPasswordDto) (now : ℕ) (salt : String) → Keeps growth (set_password R dto now salt)
  unfolding set_password
  set_password-Keeps dto now salt =
      Keeps-bind growth _ _ (Keeps-gets growth _) (λ check. activate_if-Keeps dto salt check)

  announce_resent-Keeps :
      (id : String) (a : Admin) (by : Inviter) → Keeps growth (announce_resent R id a by)
  unfolding announce_resent send_admin_invite_email
  announce_resent-Keeps id a by =
      Keeps-bind growth _ _ (Keeps-gets growth _)
        (λ requester. Keeps-bind growth _ _ (Keeps-send _) (λ x. Keeps-log _))

  pub resend_invite-Keeps : (id : String) (by : Inviter) → Keeps growth (resend_invite R id by)
  unfolding resend_invite
  resend_invite-Keeps id by = Keeps-bind growth _ _ (Keeps-gets growth _) (λ found.
      Keeps-bind growth _ _ (Keeps-require growth _ _) (λ a.
        Keeps-bind growth _ _ (Keeps-reject_if growth _ _) (λ x.
          Keeps-bind growth _ _
            (Keeps-transaction growth _ (
              Keeps-bind growth _ _ (Keeps-invites _)
                (λ y. Keeps-bind growth _ _ (Keeps-new_invite _) (λ id. Keeps-pure growth _))))
            (λ z. announce_resent-Keeps id a by))))
