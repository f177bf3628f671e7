-- ===== src/Certificates/Status.antt =====
-- Looking a certificate up, and its status (helpers/admin-certificates.helper.ts).
use gracon_admin_service.Prelude.{
  ℕ, String, true, false, Option, none, some, ◌≡◌, ◌≤◌, ◌<◌, ◌↔◌, refl, ◌==◌, arith, inl, inr, ap,
  Option-cases,
}
use gracon_admin_service.Prisma.{Prisma}
use gracon_admin_service.Http.{Reply, ok, ◌>>=◌}
use gracon_admin_service.Models.{User, PersonalCertificate, Store}
use gracon_admin_service.Certificates.{
  CertificateRow, active, expired, revoked, derive_certificate_status, find_certificate_or_throw,
}

-- Each status, exactly: a revoked certificate is REVOKED whatever its dates, any other is EXPIRED
-- from its last instant on and ACTIVE before.
pub derive_certificate_status_iff :
    (c : PersonalCertificate) (now : ℕ)
    → ((derive_certificate_status c now ≡ revoked) ↔ (c.is_revoked ≡ true))
      × ((derive_certificate_status c now ≡ expired)
          ↔ ((c.is_revoked ≡ false) × (c.not_after ≤ now)))
      × ((derive_certificate_status c now ≡ active)
          ↔ ((c.is_revoked ≡ false) × (now < c.not_after)))
unfolding derive_certificate_status
derive_certificate_status_iff c now = (ground arith, ground arith, ground arith)

module _ ⦃P : Prisma⦄ where
  -- What a lookup that succeeds shows.
  pub record Found (id : String) (s : Store) (row : CertificateRow) : Type 0 where
    pub same_id : row.id ≡ id
    pub stored : P.find_unique id s.certificates ≡ some row.certificate
    pub owned : P.find_unique row.certificate.user_id s.users ≡ some row.user

  Found-by :
      (id : String) (s s' : Store) (r : Reply CertificateRow) (c : Option PersonalCertificate)
      (u : Option User)
      → P.find_unique id s.certificates ≡ c
      → ((x : PersonalCertificate) → c ≡ some x → P.find_unique x.user_id s.users ≡ u)
      → find_certificate_or_throw id s ≡ (r, s')
      → (s' ≡ s) × ((row : CertificateRow) → r ≡ ok row → Found id s row)
  unfolding find_certificate_or_throw ◌>>=◌
  Found-by id s s' r none u stored owned h = (ground arith, λ row e. ground arith)
  Found-by id s s' r (some c) none stored owned h =
      (ground (arith, owned c refl), λ row e. ground (arith, owned c refl))
  Found-by id s s' r (some c) (some u) stored owned h =
      let own = owned c refl in
      (
        ground arith,
        λ row e. record { same_id = ground arith; stored = ground arith; owned = ground arith },
      )

  find_cases :
      (id : String) (s s' : Store) (r : Reply CertificateRow)
      → find_certificate_or_throw id s ≡ (r, s')
      → (s' ≡ s) × ((row : CertificateRow) → r ≡ ok row → Found id s row)
  find_cases id s s' r h = elim (Option-cases (P.find_unique id s.certificates)) [
    | inl missing ↦ Found-by id s s' r none none missing (λ x e. cc) h
    | inr (c, stored) ↦
        Found-by id s s' r (some c) (P.find_unique c.user_id s.users) stored
          (λ x e. (let same : c ≡ x = cc in rw same)) h
  ]

  -- A lookup does not change the state.
  pub find_certificate_or_throw_lem :
      (id : String) (s : Store)
      → find_certificate_or_throw id s ≡ ((find_certificate_or_throw id s).0, s)
  find_certificate_or_throw_lem id s =
      let kept =
        (find_cases id s (find_certificate_or_throw id s).1 (find_certificate_or_throw id s).0
          refl).0 in
      ap (λ (t : Store). ((find_certificate_or_throw id s).0, t)) kept

  pub find_certificate_or_throw-Found :
      (id : String) (s s' : Store) (row : CertificateRow)
      → find_certificate_or_throw id s ≡ (ok row, s')
      → Found id s row
  find_certificate_or_throw-Found id s s' row h = (find_cases id s s' (ok row) h).1 row refl

  -- A stored certificate with a stored owner is found.
  pub find_certificate_or_throw_stored :
      (id : String) (s : Store) (c : PersonalCertificate) (u : User)
      → P.find_unique id s.certificates ≡ some c
      → P.find_unique c.user_id s.users ≡ some u
      → (row : CertificateRow) × (find_certificate_or_throw id s ≡ (ok row, s))
        × (row.id ≡ id)
        × (row.certificate ≡ c)
  unfolding find_certificate_or_throw ◌>>=◌
  find_certificate_or_throw_stored id s c u stored owned = (
    record {
      id = id;
      certificate = c;
      user = u;
      identity = elim (P.find_first (λ _ i. i.user_id == c.user_id) s.citizen_identities) [
        | none ↦ none
        | some (_, i) ↦ some i
      ];
    },
    ground arith,
    refl,
    refl,
  )
