-- ===== src/Growth/Reviews.antt =====
-- The review of certificate requests, and signatures.
use gracon_admin_service.Prelude.{ℕ, String, true, Option, none, some, ◌≡◌, refl, arith}
use gracon_admin_service.Prisma.{Prisma}
use gracon_admin_service.Http.Keeps.{
  Keeps, Keeps-pure, Keeps-gets, Keeps-require, Keeps-reject_if, Keeps-transaction, Keeps-bind,
}
use gracon_admin_service.Models.{CertificateRequest, Store}
use gracon_admin_service.Certificates.{Reviewer}
use gracon_admin_service.Certificates.Bans.{pending_of, cancel_row}
use gracon_admin_service.Certificates.Review.{
  Fetch, Response, ReviewAction, ReviewRequestPayload, find_certificate_request_or_throw,
  send_review_request, approve_certificate_request, reject_certificate_request,
}
use gracon_admin_service.Signatures.{find_signature_or_throw, revoke_signature}
use gracon_admin_service.Growth.Sanctions.{set_revoked-Keeps}
use gracon_admin_service.Growth.{growth, Grows, key_pair_fate, request_fate}
use gracon_admin_service.Growth.Writes.{Keeps-key_pairs, Keeps-log, TableGrows-update}

pending_settled :
    (user_id reason k : String) (at : ℕ) (r : CertificateRequest)
    → pending_of user_id k r ≡ true
    → request_fate.Later r (cancel_row reason at r)
pending_settled user_id reason k at r h = (refl, λ other. ground (arith, h, other))

module _ ⦃P : Prisma⦄ where
  find_signature_or_throw-Keeps : (id : String) → Keeps growth (find_signature_or_throw id)
  unfolding find_signature_or_throw
  find_signature_or_throw-Keeps id = Keeps-bind growth _ _ (Keeps-gets growth _) (λ found.
      Keeps-bind growth _ _ (Keeps-require growth _ _) (λ c.
        Keeps-bind growth _ _ (Keeps-gets growth _)
          (λ pair. Keeps-bind growth _ _ (Keeps-require growth _ _) (λ k. Keeps-pure growth _))))

  pub revoke_signature-Keeps :
      (id : String) (by : Reviewer) (raw : String) → Keeps growth (revoke_signature id by raw)
  unfolding revoke_signature
  revoke_signature-Keeps id by raw =
      Keeps-bind growth _ _ (find_signature_or_throw-Keeps id) (λ row.
        Keeps-bind growth _ _ (Keeps-reject_if growth _ _) (λ x.
          Keeps-bind growth _ _
            (Keeps-transaction growth _ (
              Keeps-bind growth _ _ (set_revoked-Keeps _ _ _) (λ y. Keeps-key_pairs _ (λ s t made.
                TableGrows-update key_pair_fate row.certificate.key_pair_id _ s.key_pairs t
                  (λ r h v. refl) made))))
            (λ z. Keeps-bind growth _ _ (Keeps-log _) (λ w. find_signature_or_throw-Keeps id))))

-- The signature service, another program on the same database, keeps these promises too.
module _ ⦃P : Prisma⦄ (fetch : Fetch)
    (tame : (id : String) (action : ReviewAction) (payload : ReviewRequestPayload) (s : Store)
      → Grows s (fetch id action payload s).1) where
  answered_keeps :
      (id : String) (action : ReviewAction) (payload : ReviewRequestPayload) (s : Store)
      (r : Option Response × Store)
      → fetch id action payload s ≡ r
      → Grows s r.1
      → Grows s (send_review_request fetch id action payload s).1
  unfolding send_review_request
  answered_keeps id action payload s (none, t) e g = rw e g
  answered_keeps id action payload s (some x, t) e g = rw e g

  send-Keeps :
      (id : String) (action : ReviewAction) (payload : ReviewRequestPayload)
      → Keeps growth (send_review_request fetch id action payload)
  send-Keeps id action payload = record {
    step = λ s.
        answered_keeps id action payload s (fetch id action payload s) refl
          (tame id action payload s);
  }

  find_request-Keeps : (id : String) → Keeps growth (find_certificate_request_or_throw id)
  unfolding find_certificate_request_or_throw
  find_request-Keeps id =
      Keeps-bind growth _ _ (Keeps-gets growth _) (λ found. Keeps-require growth _ _)

  pub approve-Keeps :
      (id : String) (by : Reviewer) (raw : String)
      → Keeps growth (approve_certificate_request fetch id by raw)
  unfolding approve_certificate_request
  approve-Keeps id by raw = Keeps-bind growth _ _ (find_request-Keeps id) (λ r.
      Keeps-bind growth _ _ (Keeps-reject_if growth _ _) (λ x.
        Keeps-bind growth _ _ (send-Keeps id _ _)
          (λ body. Keeps-bind growth _ _ (Keeps-log _) (λ y. find_request-Keeps id))))

  pub reject-Keeps :
      (id : String) (by : Reviewer) (raw : String)
      → Keeps growth (reject_certificate_request fetch id by raw)
  unfolding reject_certificate_request
  reject-Keeps id by raw = Keeps-bind growth _ _ (find_request-Keeps id) (λ r.
      Keeps-bind growth _ _ (Keeps-reject_if growth _ _) (λ x.
        Keeps-bind growth _ _ (send-Keeps id _ _)
          (λ body. Keeps-bind growth _ _ (Keeps-log _) (λ y. find_request-Keeps id))))
