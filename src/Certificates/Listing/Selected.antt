-- ===== src/Certificates/Listing/Selected.antt =====
-- Which certificates the listing shows, over all of its pages.
use gracon_admin_service.Prelude.{
  ℕ, ◌≤◌, ◌↔◌, String, true, false, Option, none, some, ◌≡◌, ◌≢◌, arith,
}
use gracon_admin_service.Prisma.{Prisma}
use gracon_admin_service.Prisma.Search.{Search, Listed}
use gracon_admin_service.Models.{PersonalCertificate, Store}
use gracon_admin_service.Certificates.{
  CertificateStatus, active, expired, revoked, derive_certificate_status,
}
use gracon_admin_service.Certificates.Listing.{
  QueryCertificatesDto, Clockwork, status_filter, expiring_filter, meets, issued,
  build_certificate_list_item, certificate_where,
}

-- A query by status alone, or for what ends soon.
abbrev pub by_status : CertificateStatus → QueryCertificatesDto
by_status st = record {
  search = none;
  identity_type = none;
  status = some st;
  country = none;
  expiring_soon = false;
  page = none;
  limit = none;
}

abbrev pub soon : Option CertificateStatus → QueryCertificatesDto
soon status = record {
  search = none;
  identity_type = none;
  status = status;
  country = none;
  expiring_soon = true;
  page = none;
  limit = none;
}

meets_status_iff :
    (st : CertificateStatus) (c : PersonalCertificate) (now : ℕ)
    → c.not_after ≢ now
    → (meets (status_filter (some st) now) c ≡ true) ↔ (derive_certificate_status c now ≡ st)
unfolding status_filter derive_certificate_status
meets_status_iff active c now h = ground (arith, h)
meets_status_iff expired c now h = ground (arith, h)
meets_status_iff revoked c now h = ground arith

meets_soon_iff :
    (st : Option CertificateStatus) (c : PersonalCertificate) (now horizon : ℕ)
    → (meets (expiring_filter true now horizon (status_filter st now)) c ≡ true) ↔ (
        (st ≢ some expired)
        × (c.is_revoked ≡ false)
        × (now ≤ c.not_after)
        × (c.not_after ≤ horizon))
unfolding status_filter expiring_filter
meets_soon_iff none c now horizon = ground arith
meets_soon_iff (some active) c now horizon = ground arith
meets_soon_iff (some expired) c now horizon = ground arith
meets_soon_iff (some revoked) c now horizon = ground arith

module _ ⦃P : Prisma⦄ ⦃Q : Search⦄ (L : Clockwork) where
  -- A query by status alone selects exactly the stored certificates that are shown with this
  -- status, those left aside that end at this very instant.
  pub certificate_where_status :
      (st : CertificateStatus) (now skip limit : ℕ) (s : Store) (id : String)
      (c : PersonalCertificate)
      → c.not_after ≢ now
      → Listed id c
          (Q.select (certificate_where L (by_status st) now s) issued skip limit s.certificates)
        ↔ ((P.find_unique id s.certificates ≡ some c) × (derive_certificate_status c now ≡ st))
  unfolding certificate_where expiring_filter
  certificate_where_status st now skip limit s id c h =
      let at =
        Q.select_iff (certificate_where L (by_status st) now s) issued skip limit s.certificates id
          c in
      let same = meets_status_iff st c now h in
      (λ m. ((at.0 m).0, same.0 (at.0 m).1), λ w. at.1 (w.0, same.1 w.1))

  -- A certificate that is not revoked and ends at this very instant is selected as ACTIVE, and its
  -- line says EXPIRED.
  pub list_certificates_boundary :
      (now skip limit : ℕ) (s : Store) (id : String) (c : PersonalCertificate)
      → P.find_unique id s.certificates ≡ some c
      → c.is_revoked ≡ false
      → c.not_after ≡ now
      → Listed id c
          (Q.select (certificate_where L (by_status active) now s) issued skip limit s.certificates)
        × ((build_certificate_list_item s now (id, c)).status ≡ expired)
  unfolding certificate_where expiring_filter status_filter build_certificate_list_item
      derive_certificate_status
  list_certificates_boundary now skip limit s id c stored live ends =
      let at =
        Q.select_iff (certificate_where L (by_status active) now s) issued skip limit s.certificates
          id c in
      (at.1 (stored, ground (arith, live, ends)), ground (arith, live, ends))

  -- A query for what ends soon selects the stored certificates that are not revoked and end from
  -- now to the horizon, whatever status is asked for beside it: none at all beside EXPIRED, and
  -- beside REVOKED those that are not revoked.
  pub certificate_where-soon :
      (status : Option CertificateStatus) (now skip limit : ℕ) (s : Store) (id : String)
      (c : PersonalCertificate)
      → Listed id c
          (Q.select (certificate_where L (soon status) now s) issued skip limit s.certificates)
        ↔ ((P.find_unique id s.certificates ≡ some c)
            × ((status ≢ some expired)
                × (c.is_revoked ≡ false)
                × (now ≤ c.not_after)
                × (c.not_after ≤ L.thirty_days_after now)))
  unfolding certificate_where
  certificate_where-soon status now skip limit s id c =
      let at =
        Q.select_iff (certificate_where L (soon status) now s) issued skip limit s.certificates id
          c in
      let same = meets_soon_iff status c now (L.thirty_days_after now) in
      (λ m. ((at.0 m).0, same.0 (at.0 m).1), λ w. at.1 (w.0, same.1 w.1))
