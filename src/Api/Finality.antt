-- ===== src/Api/Finality.antt =====
-- What stays done over whole lives of the service.
use gracon_admin_service.Prelude.{String, true, some, ◌≡◌, ◌≢◌, sym, ap, ◌∙◌}
use gracon_admin_service.Prisma.{Prisma}
use gracon_admin_service.Http.{throw, conflict}
use gracon_admin_service.Models.{
  User, PersonalCertificate, CertificateRequest, pending, AdminAuditLog, Store,
}
use gracon_admin_service.Certificates.Review.{
  Fetch, approve_certificate_request, reject_certificate_request,
}
use gracon_admin_service.Certificates.Reviewing.{review_settled}
use gracon_admin_service.Certificates.{Reviewer, revoke_certificate, reissue_certificate}
use gracon_admin_service.Certificates.Status.{find_certificate_or_throw_stored}
use gracon_admin_service.Certificates.Revocation.{refused_on}
use gracon_admin_service.Growth.{Grows}
use gracon_admin_service.Api.Context.{Outside}
use gracon_admin_service.Api.Lifetime.{IsTame, Reach, Reach-Grows}

module _ ⦃P : Prisma⦄ (O : Outside) (tame : IsTame O) where
  -- Whatever requests are served after a certificate was revoked, a further revocation or reissue
  -- of it answers 409 and changes nothing, if the signature service takes nothing back either.
  pub revoked_for_good :
      {s u : Store} (id : String) (c : PersonalCertificate) (owner : User) (by : Reviewer)
      (raw code : String)
      → P.find_unique id s.certificates ≡ some c
      → c.is_revoked ≡ true
      → P.find_unique c.user_id s.users ≡ some owner
      → Reach O s u
      → (revoke_certificate id by raw code u
          ≡ (throw (conflict "Certificate is already revoked."), u))
        × (reissue_certificate id by raw u ≡ (
          throw (conflict "Certificate is already revoked — issue a new one from the user app."),
          u,
        ))
  revoked_for_good {s} {u} id c owner by raw code stored gone owned r =
      let g : Grows s u = Reach-Grows O tame r in
      let (c', stored', later) = g.certificates id c stored in
      let (owner', owned', same) = g.users c.user_id owner owned in
      let at : P.find_unique c'.user_id u.users ≡ some owner' =
        ap (λ k. P.find_unique k u.users) later.0 ∙ owned' in
      let (found, read, _, row) = find_certificate_or_throw_stored id u c' owner' stored' at in
      refused_on id by raw code u found read
        (ap (λ (x : PersonalCertificate). x.is_revoked) row ∙ later.3 gone)

  -- Whatever requests are served after a certificate request was decided or cancelled, it is neither
  -- approved nor rejected any more: both answer 409, the signature service is not called, and nothing
  -- changes, if that service keeps what is decided as it is.
  pub settled_for_good :
      {s u : Store} (fetch : Fetch) (id : String) (r : CertificateRequest) (by : Reviewer)
      (raw : String)
      → P.find_unique id s.certificate_requests ≡ some r
      → r.status ≢ pending
      → Reach O s u
      → (approve_certificate_request fetch id by raw u
          ≡ (throw (conflict "Only pending certificate requests can be reviewed."), u))
        × (reject_certificate_request fetch id by raw u
            ≡ (throw (conflict "Only pending certificate requests can be reviewed."), u))
  settled_for_good fetch id r by raw stored settled reach =
      let (r', stored', later) = (Reach-Grows O tame reach).requests id r stored in
      review_settled fetch id by raw _ r' stored' (λ e. settled (sym (later.1 settled) ∙ e))

  -- No request changes or removes an entry of the audit trail.
  pub audited_for_good :
      {s u : Store} (k : String) (entry : AdminAuditLog)
      → P.find_unique k s.audit_logs ≡ some entry
      → Reach O s u
      → P.find_unique k u.audit_logs ≡ some entry
  audited_for_good {s} {u} k entry stored r =
      let (entry', stored', same) = (Reach-Grows O tame r).audits k entry stored in
      stored' ∙ ap some same
