-- ===== src/Signatures/Listing.antt =====
-- The listing of signatures (listSignatures of src/modules/signatures/admin-signatures.service.ts,
-- buildSignatureListItem of helpers/admin-signatures.helper.ts).
pub mod Selected
use gracon_admin_service.Prelude.{
  ℕ, String, Bool, true, false, not, ◌&&◌, ◌||◌, Option, none, some, map, ◌==◌, or_else, option_map,
  is_some,
}
use gracon_admin_service.Prisma.{Prisma}
use gracon_admin_service.Prisma.Search.{Search, find_many}
use gracon_admin_service.Models.{User, CitizenIdentity, PersonalCertificate, PersonalKeyPair, Store}
use gracon_admin_service.Listing.{unless_asked, nonempty, within}
use gracon_admin_service.Users.Listing.{identity_of, found_by_search}
use gracon_admin_service.Certificates.Listing.{issued, build_signer_display_name}
use gracon_admin_service.Signatures.{
  SignatureStatus, SignatureRow, active, revoked, derive_signature_status,
}
use gracon_admin_service.Maintenance.{PaginatedResponse, build_paginated_response, skip_of}

pub record QuerySignaturesDto : Type 0 where
  pub search : Option String
  pub algorithm : Option String
  pub status : Option SignatureStatus
  pub created_from : Option ℕ
  pub created_to : Option ℕ
  pub page : Option ℕ
  pub limit : Option ℕ

pub record SignatureListItem : Type 0 where
  pub signature_id : String
  pub user_id : String
  pub user_name : String
  pub user_email : String
  pub algorithm : String
  pub created_at : ℕ
  pub last_used_at : Option ℕ
  pub documents_signed : ℕ
  pub status : SignatureStatus

-- The documents signed under a certificate: how many, and the instant of the latest.
pub record Usage : Type 0 where
  pub signed_docs : ℕ
  pub last_signed_at : Option ℕ

-- `where.keyPair`, of which `algorithm` and `isActive` may be asked.
pub record KeyPairFilter : Type 0 where
  pub algorithm : Option String
  pub is_active : Bool

abbrev pub asks_key_pair : KeyPairFilter → Bool
asks_key_pair f = is_some f.algorithm || f.is_active

abbrev pub meets_key_pair : KeyPairFilter → Option PersonalKeyPair → Bool
meets_key_pair f none = false
meets_key_pair f (some k) =
    unless_asked f.algorithm (λ a. k.algorithm == a) && (not f.is_active || k.is_active)

abbrev pub is_inactive : Option PersonalKeyPair → Bool
is_inactive none = false
is_inactive (some k) = not k.is_active

unfoldable pub key_pair_filter : QuerySignaturesDto → KeyPairFilter
key_pair_filter dto = elim dto.status [
  | some active ↦ record { algorithm = nonempty dto.algorithm; is_active = true }
  | _ ↦ record { algorithm = nonempty dto.algorithm; is_active = false }
]

-- What a status asks of the certificate, and, for REVOKED, of its key pair.
abbrev pub has_status : Option SignatureStatus → PersonalCertificate → Option PersonalKeyPair → Bool
has_status none c pair = true
has_status (some active) c pair = not c.is_revoked
has_status (some revoked) c pair = c.is_revoked || is_inactive pair

unfoldable pub build_signature_list_item :
    Usage → SignatureRow → Option User → Option CitizenIdentity → SignatureListItem
build_signature_list_item usage row owner identity =
    let email = or_else (option_map (λ (u : User). u.email) owner) "" in
    record {
      signature_id = row.id;
      user_id = row.certificate.user_id;
      user_name =
          build_signer_display_name (option_map (λ (i : CitizenIdentity). i.post_names) identity)
            (option_map (λ (i : CitizenIdentity). i.sur_name) identity) email;
      user_email = email;
      algorithm = row.key_pair.algorithm;
      created_at = row.certificate.created_at;
      last_used_at = usage.last_signed_at;
      documents_signed = usage.signed_docs;
      status = derive_signature_status row;
    }

module _ ⦃P : Prisma⦄ ⦃Q : Search⦄ where
  abbrev pub pair_of : Store → PersonalCertificate → Option PersonalKeyPair
  pair_of s c = P.find_unique c.key_pair_id s.key_pairs

  abbrev owner_matches : String → Store → PersonalCertificate → Option User → Bool
  owner_matches term s c none = false
  owner_matches term s c (some u) = found_by_search term u (identity_of s c.user_id)

  -- The `where` of the query.
  unfoldable pub signature_where : QuerySignaturesDto → Store → String → PersonalCertificate → Bool
  signature_where dto s id c =
      within dto.created_from dto.created_to c.created_at
      && unless_asked (nonempty dto.search)
          (λ term. owner_matches term s c (P.find_unique c.user_id s.users))
      && has_status dto.status c (pair_of s c)
      && (not (asks_key_pair (key_pair_filter dto))
          || meets_key_pair (key_pair_filter dto) (pair_of s c))

  -- A certificate always has its key pair; the line of one that had none is not defined.
  abbrev line_of :
      (String → Usage) → Store → String × PersonalCertificate → Option SignatureListItem
  line_of usage s (id, c) =
      option_map
        (λ (k : PersonalKeyPair).
          build_signature_list_item (usage id) (record { id = id; certificate = c; key_pair = k })
            (P.find_unique c.user_id s.users) (identity_of s c.user_id))
        (pair_of s c)

  unfoldable pub list_signatures :
      (String → Usage) → QuerySignaturesDto → Store → PaginatedResponse (Option SignatureListItem)
  list_signatures usage dto s =
      let page = or_else dto.page 1 in
      let limit = or_else dto.limit 20 in
      build_paginated_response
        (map (line_of usage s)
          (find_many (signature_where dto s) issued (skip_of page limit) limit s.certificates))
        (P.count (signature_where dto s) s.certificates) page limit
