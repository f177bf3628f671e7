-- ===== src/Growth/Sanctions.antt =====
-- Certificates and bans.
use gracon_admin_service.Prelude.{ℕ, String, true, Option, none, some, ◌≡◌, refl, trim, arith}
use gracon_admin_service.Prisma.{Prisma}
use gracon_admin_service.Http.Keeps.{
  Keeps, Keeps-pure, Keeps-gets, Keeps-require, Keeps-reject_if, Keeps-when, Keeps-transaction,
  Keeps-bind,
}
use gracon_admin_service.Models.{PersonalCertificate, CertificateRequest, AccessPolicy}
use gracon_admin_service.Mailer.{
  send_certificate_revoked_email, send_certificate_access_banned_email,
  send_certificate_access_restored_email,
}
use gracon_admin_service.Certificates.{
  Reviewer, CertificateRow, find_certificate_or_throw, set_revoked, announce_revoked,
  revoke_certificate, reissue_certificate,
}
use gracon_admin_service.Certificates.Bans.{
  UserRow, ensure_user_exists, get_certificate_access_policy, revoke_certificate_if_needed,
  upsert_banned_policy, cancel_pending_requests, pending_of, policy_of, cancel_row, ban_policy,
  banned_policy, ban_text, announce_banned, announce_user_banned, announce_lifted,
  ban_certificate_access_from_certificate, ban_certificate_access_for_user,
  lift_certificate_access_ban, revoke_found, log_found,
}
use gracon_admin_service.Growth.{growth, certificate_fate, policy_fate, request_fate}
use gracon_admin_service.Growth.Writes.{
  Keeps-certificates, Keeps-policies, Keeps-requests, Keeps-log, Keeps-send, TableGrows-update,
  TableGrows-update_many, TableGrows-upsert,
}

pending_settled :
    (user_id reason k : String) (at : ℕ) (r : CertificateRequest)
    → pending_of user_id k r ≡ true
    → request_fate.Later r (cancel_row reason at r)
pending_settled user_id reason k at r h = (refl, λ other. ground (arith, h, other))

module _ ⦃P : Prisma⦄ where
  find_certificate_or_throw-Keeps : (id : String) → Keeps growth (find_certificate_or_throw id)
  unfolding find_certificate_or_throw
  find_certificate_or_throw-Keeps id = Keeps-bind growth _ _ (Keeps-gets growth _) (λ found.
      Keeps-bind growth _ _ (Keeps-require growth _ _) (λ c.
        Keeps-bind growth _ _ (Keeps-gets growth _) (λ owner.
          Keeps-bind growth _ _ (Keeps-require growth _ _)
            (λ u. Keeps-bind growth _ _ (Keeps-gets growth _) (λ identity. Keeps-pure growth _)))))

  pub set_revoked-Keeps :
      (id : String) (at : ℕ) (reason : String) → Keeps growth (set_revoked id at reason)
  set_revoked-Keeps id at reason = Keeps-certificates _ (λ s t made.
      TableGrows-update certificate_fate id _ s.certificates t
        (λ r h. (refl, refl, refl, λ v. refl)) made)

  announce_revoked-Keeps :
      (row : CertificateRow) (by : Reviewer) (code reason : String)
      → Keeps growth (announce_revoked row by code reason)
  unfolding announce_revoked send_certificate_revoked_email
  announce_revoked-Keeps row by code reason =
      Keeps-bind growth _ _ (Keeps-log _) (λ x. Keeps-send _)

  pub revoke_certificate-Keeps :
      (id : String) (by : Reviewer) (raw code : String)
      → Keeps growth (revoke_certificate id by raw code)
  unfolding revoke_certificate
  revoke_certificate-Keeps id by raw code =
      Keeps-bind growth _ _ (find_certificate_or_throw-Keeps id) (λ row.
        Keeps-bind growth _ _ (Keeps-reject_if growth _ _) (λ x.
          Keeps-bind growth _ _ (set_revoked-Keeps row.id by.now (trim raw)) (λ y.
            Keeps-bind growth _ _ (announce_revoked-Keeps row by code (trim raw))
              (λ z. find_certificate_or_throw-Keeps id))))

  pub reissue_certificate-Keeps :
      (id : String) (by : Reviewer) (raw : String) → Keeps growth (reissue_certificate id by raw)
  unfolding reissue_certificate
  reissue_certificate-Keeps id by raw =
      Keeps-bind growth _ _ (find_certificate_or_throw-Keeps id) (λ row.
        Keeps-bind growth _ _ (Keeps-reject_if growth _ _) (λ x.
          Keeps-bind growth _ _ (set_revoked-Keeps _ _ _)
            (λ y. Keeps-bind growth _ _ (Keeps-log _) (λ z. find_certificate_or_throw-Keeps id))))

  revoke_if_needed-Keeps :
      (id : String) (c : PersonalCertificate) (reason : String) (at : ℕ)
      → Keeps growth (revoke_certificate_if_needed id c reason at)
  revoke_if_needed-Keeps id c reason at =
      Keeps-when growth _ _ (set_revoked-Keeps id at (ban_text reason))

  upsert_banned_policy-Keeps :
      (user_id admin_id reason : String) (at : ℕ)
      → Keeps growth (upsert_banned_policy user_id admin_id reason at)
  upsert_banned_policy-Keeps user_id admin_id reason at = Keeps-policies _ (λ s t made.
      TableGrows-upsert policy_fate (policy_of user_id) (banned_policy user_id admin_id reason at)
        (ban_policy admin_id reason at) s.access_policies t (λ r. refl) made)

  cancel_pending_requests-Keeps :
      (user_id reason : String) (at : ℕ) → Keeps growth (cancel_pending_requests user_id reason at)
  cancel_pending_requests-Keeps user_id reason at = Keeps-requests _ (λ s t made.
      TableGrows-update_many request_fate (pending_of user_id) (cancel_row reason at)
        s.certificate_requests t (λ k r h. pending_settled user_id reason k at r h) made)

  announce_banned-Keeps :
      (row : CertificateRow) (by : Reviewer) (reason : String)
      → Keeps growth (announce_banned row by reason)
  unfolding announce_banned send_certificate_access_banned_email
  announce_banned-Keeps row by reason =
      Keeps-bind growth _ _ (Keeps-log _)
        (λ x. Keeps-bind growth _ _ (Keeps-when growth _ _ (Keeps-log _)) (λ y. Keeps-send _))

  pub ban_from_certificate-Keeps :
      (id : String) (by : Reviewer) (raw : String)
      → Keeps growth (ban_certificate_access_from_certificate id by raw)
  unfolding ban_certificate_access_from_certificate
  ban_from_certificate-Keeps id by raw =
      Keeps-bind growth _ _ (find_certificate_or_throw-Keeps id) (λ row.
        Keeps-bind growth _ _
          (Keeps-transaction growth _ (
            Keeps-bind growth _ _ (revoke_if_needed-Keeps row.id row.certificate (trim raw) by.now)
              (λ x.
                Keeps-bind growth _ _
                  (upsert_banned_policy-Keeps row.certificate.user_id by.admin_id (trim raw) by.now)
                  (λ y. cancel_pending_requests-Keeps row.certificate.user_id (trim raw) by.now))))
          (λ z.
            Keeps-bind growth _ _ (announce_banned-Keeps row by (trim raw))
              (λ w. find_certificate_or_throw-Keeps row.id)))

  ensure_user_exists-Keeps : (id : String) → Keeps growth (ensure_user_exists id)
  unfolding ensure_user_exists
  ensure_user_exists-Keeps id = Keeps-bind growth _ _ (Keeps-gets growth _) (λ found.
      Keeps-bind growth _ _ (Keeps-require growth _ _)
        (λ u. Keeps-bind growth _ _ (Keeps-gets growth _) (λ identity. Keeps-pure growth _)))

  get_policy-Keeps : (id : String) → Keeps growth (get_certificate_access_policy id)
  unfolding get_certificate_access_policy
  get_policy-Keeps id = Keeps-bind growth _ _ (Keeps-gets growth _) (λ policy. Keeps-pure growth _)

  revoke_found-Keeps :
      (c : Option (String × PersonalCertificate)) (reason : String) (at : ℕ)
      → Keeps growth (revoke_found c reason at)
  revoke_found-Keeps none reason at = Keeps-pure growth _
  revoke_found-Keeps (some (id, c)) reason at = revoke_if_needed-Keeps id c reason at

  log_found-Keeps :
      (c : Option (String × PersonalCertificate)) (by : Reviewer) (reason : String)
      → Keeps growth (log_found c by reason)
  log_found-Keeps none by reason = Keeps-pure growth _
  log_found-Keeps (some (id, c)) by reason = Keeps-log _

  announce_user_banned-Keeps :
      (id : String) (u : UserRow) (c : Option (String × PersonalCertificate)) (by : Reviewer)
      (reason : String)
      → Keeps growth (announce_user_banned id u c by reason)
  unfolding announce_user_banned send_certificate_access_banned_email
  announce_user_banned-Keeps id u c by reason =
      Keeps-bind growth _ _ (Keeps-log _)
        (λ x. Keeps-bind growth _ _ (log_found-Keeps c by reason) (λ y. Keeps-send _))

  pub ban_for_user-Keeps :
      (id : String) (by : Reviewer) (raw : String)
      → Keeps growth (ban_certificate_access_for_user id by raw)
  unfolding ban_certificate_access_for_user
  ban_for_user-Keeps id by raw = Keeps-bind growth _ _ (ensure_user_exists-Keeps id) (λ u.
      Keeps-bind growth _ _
        (Keeps-transaction growth _ (
          Keeps-bind growth _ _ (Keeps-gets growth _) (λ active.
            Keeps-bind growth _ _ (revoke_found-Keeps active (trim raw) by.now) (λ x.
              Keeps-bind growth _ _ (upsert_banned_policy-Keeps id by.admin_id (trim raw) by.now)
                (λ y.
                  Keeps-bind growth _ _ (cancel_pending_requests-Keeps id (trim raw) by.now)
                    (λ z. Keeps-pure growth _))))))
        (λ c.
          Keeps-bind growth _ _ (announce_user_banned-Keeps id u c by (trim raw))
            (λ w. get_policy-Keeps id)))

  announce_lifted-Keeps :
      (id : String) (u : UserRow) (p : AccessPolicy) (by : Reviewer) (reason : String)
      → Keeps growth (announce_lifted id u p by reason)
  unfolding announce_lifted send_certificate_access_restored_email
  announce_lifted-Keeps id u p by reason = Keeps-bind growth _ _ (Keeps-log _) (λ x. Keeps-send _)

  pub lift_ban-Keeps :
      (id : String) (by : Reviewer) (raw : String)
      → Keeps growth (lift_certificate_access_ban id by raw)
  unfolding lift_certificate_access_ban
  lift_ban-Keeps id by raw = Keeps-bind growth _ _ (ensure_user_exists-Keeps id) (λ u.
      Keeps-bind growth _ _ (Keeps-gets growth _) (λ policy.
        Keeps-bind growth _ _ (Keeps-require growth _ _) (λ row.
          Keeps-bind growth _ _
            (Keeps-policies _ (λ s t made.
              TableGrows-update policy_fate row.0 _ s.access_policies t (λ r h. refl) made))
            (λ x.
              Keeps-bind growth _ _ (announce_lifted-Keeps id u row.1 by (trim raw))
                (λ y. get_policy-Keeps id)))))
