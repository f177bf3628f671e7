-- ===== src/Signatures/Listing/Selected.antt =====
-- Which signatures the listing shows when it is asked for a status.
use gracon_admin_service.Prelude.{ℕ, ◌↔◌, String, true, none, some, ◌≡◌, arith}
use gracon_admin_service.Prisma.{Prisma}
use gracon_admin_service.Prisma.Search.{Search, Listed}
use gracon_admin_service.Models.{PersonalCertificate, PersonalKeyPair, Store}
use gracon_admin_service.Certificates.Listing.{issued}
use gracon_admin_service.Signatures.{SignatureStatus, active, revoked, derive_signature_status}
use gracon_admin_service.Signatures.Listing.{QuerySignaturesDto, key_pair_filter, signature_where}

abbrev pub with_status : SignatureStatus → QuerySignaturesDto
with_status st = record {
  search = none;
  algorithm = none;
  status = some st;
  created_from = none;
  created_to = none;
  page = none;
  limit = none;
}

module _ ⦃P : Prisma⦄ ⦃Q : Search⦄ where
  signature_where_iff :
      (st : SignatureStatus) (s : Store) (id : String) (c : PersonalCertificate)
      (k : PersonalKeyPair)
      → P.find_unique c.key_pair_id s.key_pairs ≡ some k
      → (signature_where (with_status st) s id c ≡ true)
        ↔ (derive_signature_status (record { id = id; certificate = c; key_pair = k }) ≡ st)
  unfolding signature_where key_pair_filter derive_signature_status
  signature_where_iff active s id c k paired = rw paired (ground arith)
  signature_where_iff revoked s id c k paired = rw paired (ground arith)

  -- A query by status alone selects exactly the certificates that are stored, with their key pair,
  -- and whose line shows this status: the database's test of the two rows is the status that the
  -- code derives from them.
  pub signature_where_status :
      (st : SignatureStatus) (skip limit : ℕ) (s : Store) (id : String) (c : PersonalCertificate)
      (k : PersonalKeyPair)
      → P.find_unique c.key_pair_id s.key_pairs ≡ some k
      → Listed id c (Q.select (signature_where (with_status st) s) issued skip limit s.certificates)
        ↔ ((P.find_unique id s.certificates ≡ some c)
            × (derive_signature_status (record { id = id; certificate = c; key_pair = k }) ≡ st))
  signature_where_status st skip limit s id c k paired =
      let at =
        Q.select_iff (signature_where (with_status st) s) issued skip limit s.certificates id c in
      let same = signature_where_iff st s id c k paired in
      (λ m. ((at.0 m).0, same.0 (at.0 m).1), λ w. at.1 (w.0, same.1 w.1))
