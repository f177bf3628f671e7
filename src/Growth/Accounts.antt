-- ===== src/Growth/Accounts.antt =====
-- The management of users, and the nightly cleanup.
use gracon_admin_service.Prelude.{ℕ, String, Option, none, some, refl}
use gracon_admin_service.Prisma.{Prisma}
use gracon_admin_service.Prisma.Search.{Search}
use gracon_admin_service.Models.{AdminRole}
use gracon_admin_service.Users.Detail.{opened, get_user_detail}
use gracon_admin_service.Http.Keeps.{
  Keeps, Keeps-pure, Keeps-gets, Keeps-require, Keeps-reject_if, Keeps-when, Keeps-transaction,
  Keeps-recover, Keeps-bind,
}
use gracon_admin_service.Crypto.{Cipher}
use gracon_admin_service.Users.{
  Actor, UpdateUserStatusDto, UpdateIdVerificationDto, update_user_status, revoke_user_sessions,
  update_id_verification, decrypt_nid, decrypt_pid,
}
use gracon_admin_service.Maintenance.{cleanup_expired_tokens}
use gracon_admin_service.Growth.{growth, user_fate}
use gracon_admin_service.Growth.Writes.{
  Keeps-sessions, Keeps-user_sessions, Keeps-counted_sessions, Keeps-users, Keeps-log,
  TableGrows-update,
}

module _ ⦃P : Prisma⦄ where
  pub update_user_status-Keeps :
      (id : String) (dto : UpdateUserStatusDto) (by : Actor)
      → Keeps growth (update_user_status id dto by)
  unfolding update_user_status
  update_user_status-Keeps id dto by = Keeps-bind growth _ _ (Keeps-gets growth _) (λ found.
      Keeps-bind growth _ _ (Keeps-require growth _ _) (λ u.
        Keeps-bind growth _ _ (Keeps-reject_if growth _ _) (λ x.
          Keeps-bind growth _ _
            (Keeps-transaction growth _ (
              Keeps-bind growth _ _
                (Keeps-users _
                  (λ s t made. TableGrows-update user_fate id _ s.users t (λ r h. refl) made))
                (λ y. Keeps-when growth _ _ (Keeps-user_sessions _))))
            (λ z. Keeps-log _))))

  pub revoke_user_sessions-Keeps :
      (id : String) (by : Actor) → Keeps growth (revoke_user_sessions id by)
  unfolding revoke_user_sessions
  revoke_user_sessions-Keeps id by = Keeps-bind growth _ _ (Keeps-gets growth _) (λ found.
      Keeps-bind growth _ _ (Keeps-require growth _ _) (λ u.
        Keeps-bind growth _ _ (Keeps-counted_sessions _)
          (λ count. Keeps-bind growth _ _ (Keeps-log _) (λ y. Keeps-pure growth _))))

  pub update_id_verification-Keeps :
      (id : String) (dto : UpdateIdVerificationDto) (by : Actor) (now : ℕ)
      → Keeps growth (update_id_verification id dto by now)
  unfolding update_id_verification
  update_id_verification-Keeps id dto by now = Keeps-bind growth _ _ (Keeps-gets growth _) (λ found.
      Keeps-bind growth _ _ (Keeps-require growth _ _) (λ u.
        Keeps-bind growth _ _ (Keeps-reject_if growth _ _) (λ x.
          Keeps-bind growth _ _ (Keeps-reject_if growth _ _) (λ y.
            Keeps-bind growth _ _
              (Keeps-users _
                (λ s t made. TableGrows-update user_fate id _ s.users t (λ r h. refl) made))
              (λ z. Keeps-log _)))))

  pub cleanup_expired_tokens-Keeps : (now : ℕ) → Keeps growth (cleanup_expired_tokens now)
  unfolding cleanup_expired_tokens
  cleanup_expired_tokens-Keeps now = Keeps-recover growth _ _ (Keeps-sessions _)

module _ ⦃P : Prisma⦄ (C : Cipher) where
  pub decrypt_nid-Keeps :
      (id : String) (by : Actor) (now : ℕ) (reason : String)
      → Keeps growth (decrypt_nid C id by now reason)
  unfolding decrypt_nid
  decrypt_nid-Keeps id by now reason = Keeps-bind growth _ _ (Keeps-gets growth _) (λ found.
      Keeps-bind growth _ _ (Keeps-require growth _ _) (λ row.
        Keeps-bind growth _ _ (Keeps-require growth _ _) (λ encrypted.
          Keeps-bind growth _ _ (Keeps-require growth _ _)
            (λ nid. Keeps-bind growth _ _ (Keeps-log _) (λ x. Keeps-pure growth _)))))

  pub decrypt_pid-Keeps :
      (id : String) (by : Actor) (now : ℕ) (reason : String)
      → Keeps growth (decrypt_pid C id by now reason)
  unfolding decrypt_pid
  decrypt_pid-Keeps id by now reason = Keeps-bind growth _ _ (Keeps-gets growth _) (λ found.
      Keeps-bind growth _ _ (Keeps-require growth _ _) (λ row.
        Keeps-bind growth _ _ (Keeps-require growth _ _)
          (λ pid. Keeps-bind growth _ _ (Keeps-log _) (λ x. Keeps-pure growth _))))

module _ ⦃P : Prisma⦄ ⦃Q : Search⦄ (C : Cipher) where
  opened-Keeps : (o : Option String) → Keeps growth (opened C o)
  unfolding opened
  opened-Keeps none = Keeps-pure growth _
  opened-Keeps (some c) =
      Keeps-bind growth _ _ (Keeps-require growth _ _) (λ plain. Keeps-pure growth _)

  pub get_user_detail-Keeps :
      (created : String → ℕ) (id : String) (by : Actor) (role : AdminRole) (now : ℕ)
      → Keeps growth (get_user_detail C created id by role now)
  unfolding get_user_detail
  get_user_detail-Keeps created id by role now =
      Keeps-bind growth _ _ (Keeps-gets growth _) (λ found.
        Keeps-bind growth _ _ (Keeps-require growth _ _) (λ u.
          Keeps-bind growth _ _ (Keeps-gets growth _) (λ identity.
            Keeps-bind growth _ _ (Keeps-gets growth _) (λ platform.
              Keeps-bind growth _ _ (opened-Keeps _) (λ nid.
                Keeps-bind growth _ _ (opened-Keeps _) (λ pid.
                  Keeps-bind growth _ _ (Keeps-gets growth _)
                    (λ page. Keeps-bind growth _ _ (Keeps-log _) (λ x. Keeps-pure growth _))))))))
