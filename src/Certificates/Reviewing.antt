-- ===== src/Certificates/Reviewing.antt =====
-- Reviews: only of pending requests, and only by the answer of the signature service.
use gracon_admin_service.Prelude.{
  trim, String, Option, none, some, ◌≡◌, ◌≢◌, ◌≤◌, ◌↔◌, refl, arith, inl, inr, Option-cases,
}
use gracon_admin_service.Prisma.{Prisma}
use gracon_admin_service.Http.{Reply-cases, ok, throw, conflict, unavailable, ◌>>=◌}
use gracon_admin_service.Models.{CertificateRequest, pending, Store}
use gracon_admin_service.Audit.{log, log_lem}
use gracon_admin_service.Certificates.{Reviewer}
use gracon_admin_service.Certificates.Review.{
  approved_entry, Body, Response, interpret, Fetch, ReviewAction, approve, ReviewRequestPayload,
  find_certificate_request_or_throw, send_review_request, approve_certificate_request,
  reject_certificate_request, unavailable_message,
}

-- A response counts as accepted just when its status is 200 to 299 and its body is JSON; the
-- reply is that body.
pub interpret_iff :
    (r : Response) (b : Body)
    → (interpret r ≡ ok b) ↔ ((200 ≤ r.status) × (r.status ≤ 299) × (r.body ≡ some b))
unfolding interpret
interpret_iff r b = elim (Option-cases r.body) [ inl e ↦ ground arith | inr (x, e) ↦ ground arith ]

-- Exactly the statuses from 500 on are reported as an outage of the signature service.
pub interpret_unavailable :
    (r : Response) → (interpret r ≡ throw (unavailable unavailable_message)) ↔ (500 ≤ r.status)
unfolding interpret
interpret_unavailable r = elim (Option-cases r.body) [
  | inl e ↦ ground arith
  | inr (x, e) ↦ ground arith
]

module _ ⦃P : Prisma⦄ where
  -- A request that is not pending is neither approved nor rejected.
  pub review_settled :
      (fetch : Fetch) (id : String) (by : Reviewer) (raw : String) (s : Store)
      (r : CertificateRequest)
      → P.find_unique id s.certificate_requests ≡ some r
      → r.status ≢ pending
      → (approve_certificate_request fetch id by raw s
          ≡ (throw (conflict "Only pending certificate requests can be reviewed."), s))
        × (reject_certificate_request fetch id by raw s
            ≡ (throw (conflict "Only pending certificate requests can be reviewed."), s))
  unfolding approve_certificate_request reject_certificate_request find_certificate_request_or_throw
      ◌>>=◌
  review_settled fetch id by raw s r stored settled = (ground arith, ground arith)

  -- The request was pending, the service accepted the call, and the state is what the service left
  -- behind, but for the trail; the reply is the request as it is stored then.
  pub record Reviewed (fetch : Fetch) (id : String) (action : ReviewAction)
      (payload : ReviewRequestPayload) (s s' : Store) (after : CertificateRequest) : Type 0 where
    pub before : CertificateRequest
    pub stored : P.find_unique id s.certificate_requests ≡ some before
    pub was_pending : before.status ≡ pending
    pub response : Response
    pub left : Store
    pub called : fetch id action payload s ≡ (some response, left)
    pub accepted : (200 ≤ response.status) × (response.status ≤ 299)
    pub rest : s' ≡ record left { audit_logs = s'.audit_logs }
    pub reply : P.find_unique id s'.certificate_requests ≡ some after

  abbrev payload_of : Reviewer → String → ReviewRequestPayload
  payload_of by raw = record { admin_id = by.admin_id; reason = trim raw }

  -- An approval whose call was answered by an accepted response.
  accepted_by :
      (fetch : Fetch) (id : String) (by : Reviewer) (raw : String) (s s' t : Store)
      (after r : CertificateRequest) (x : Response) (body : Body)
      → P.find_unique id s.certificate_requests ≡ some r
      → fetch id approve (payload_of by raw) s ≡ (some x, t)
      → interpret x ≡ ok body
      → approve_certificate_request fetch id by raw s ≡ (ok after, s')
      → (r.status ≡ pending)
        × (s' ≡ (log (approved_entry by id r body (trim raw)) t).1)
        × (P.find_unique id s'.certificate_requests ≡ some after)
  unfolding approve_certificate_request find_certificate_request_or_throw send_review_request ◌>>=◌
  accepted_by fetch id by raw s s' t after r x body stored called good h =
      let told = log_lem (approved_entry by id r body (trim raw)) t in
      (ground arith, ground (arith, told), ground (arith, told))

  rejected_by :
      (fetch : Fetch) (id : String) (by : Reviewer) (raw : String) (s s' : Store)
      (after r : CertificateRequest) (answer : Option Response × Store)
      → P.find_unique id s.certificate_requests ≡ some r
      → fetch id approve (payload_of by raw) s ≡ answer
      → ((x : Response) (b : Body) → answer.0 ≡ some x → ¬ (interpret x ≡ ok b))
      → ¬ (approve_certificate_request fetch id by raw s ≡ (ok after, s'))
  unfolding approve_certificate_request find_certificate_request_or_throw send_review_request ◌>>=◌
  rejected_by fetch id by raw s s' after r (none, t) stored called bad h = ground arith
  rejected_by fetch id by raw s s' after r (some x, t) stored called bad h =
      elim (Reply-cases (interpret x)) [
        | inl (e, thrown) ↦ ground (arith, thrown)
        | inr (b, good) ↦ absurd (bad x b refl good)
      ]

  Reviewed-by :
      (fetch : Fetch) (id : String) (by : Reviewer) (raw : String) (s s' : Store)
      (after r : CertificateRequest) (answer : Option Response × Store)
      → P.find_unique id s.certificate_requests ≡ some r
      → fetch id approve (payload_of by raw) s ≡ answer
      → approve_certificate_request fetch id by raw s ≡ (ok after, s')
      → Reviewed fetch id approve (payload_of by raw) s s' after
  Reviewed-by fetch id by raw s s' after r (none, t) stored called h =
      absurd (rejected_by fetch id by raw s s' after r (none, t) stored called (λ x b e. cc) h)
  Reviewed-by fetch id by raw s s' after r (some x, t) stored called h =
      elim (Reply-cases (interpret x)) [
        | inl (e, thrown) ↦ absurd (
            rejected_by fetch id by raw s s' after r (some x, t) stored called
              (λ y b same. (λ good. cc)) h)
        | inr (body, good) ↦
            (let (was, end, reply) =
                accepted_by fetch id by raw s s' t after r x body stored called good h in
              let told = log_lem (approved_entry by id r body (trim raw)) t in
              let fits = (interpret_iff x body).0 good in
              record {
                before = r;
                stored = stored;
                was_pending = was;
                response = x;
                left = t;
                called = called;
                accepted = (fits.0, fits.1);
                rest = rw end (ground (arith, told));
                reply = reply;
              })
      ]

  -- An approval succeeds only for a stored, pending request that the signature service accepts with
  -- a status from 200 to 299; the state is the one that the service leaves, but for the trail, and
  -- the reply is the request as stored then.
  pub approve_certificate_request-Reviewed :
      (fetch : Fetch) (id : String) (by : Reviewer) (raw : String) (s s' : Store)
      (after : CertificateRequest)
      → approve_certificate_request fetch id by raw s ≡ (ok after, s')
      → Reviewed fetch id approve (payload_of by raw) s s' after
  unfolding approve_certificate_request find_certificate_request_or_throw ◌>>=◌
  approve_certificate_request-Reviewed fetch id by raw s s' after h =
      elim (Option-cases (P.find_unique id s.certificate_requests)) [
        | inl missing ↦ absurd (ground arith)
        | inr (r, stored) ↦ Reviewed-by fetch id by raw s s' after r _ stored refl h
      ]
