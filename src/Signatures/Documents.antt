-- ===== src/Signatures/Documents.antt =====
-- The page of one signature: its audit history with the metadata cleaned, and the documents signed
-- under it (admin-signatures.service.ts and helpers/admin-signatures.helper.ts).
pub mod Cleaning
use gracon_admin_service.Prelude.{
  ℕ, String, Bool, false, Option, none, some, List, [], ◌∷◌, map, ◌==◌, or_else, option_map,
  if◌then◌else◌,
}
use gracon_admin_service.Prisma.{Prisma}
use gracon_admin_service.Prisma.Search.{Search, find_many}
use gracon_admin_service.Http.{Reply, ok, throw, not_found}
use gracon_admin_service.Models.{
  Admin, AdminRole, admin, AdminAction, AdminAuditLog, MetaValue, text, Store,
}
use gracon_admin_service.Certificates.Listing.{build_signer_display_name}
use gracon_admin_service.Maintenance.{PaginatedResponse, build_paginated_response, skip_of}

-- A value of a JSON column: a primitive, or an array or object, whose fields stand in the order of
-- `Object.entries`.
mutual
  pub data Json : Type 0 where
    primitive : MetaValue → Json
    array : JsonFields → Json
    object : JsonFields → Json

  pub data JsonFields : Type 0 where
    end : JsonFields
    field : (key : String) → Json → JsonFields → JsonFields

-- The loop over the entries: what is no primitive is left out. To assign to `__proto__` of a plain
-- object adds no field.
unfoldable pub primitives : JsonFields → List (String × MetaValue)
primitives end = []
primitives (field key (primitive v) rest) =
    let more = primitives rest in if key == "__proto__" then more else (key, v) ∷ more
primitives (field key (array _) rest) = primitives rest
primitives (field key (object _) rest) = primitives rest

abbrev unless_empty : List (String × MetaValue) → Option (List (String × MetaValue))
unless_empty [] = none
unless_empty (x ∷ xs) = some (x ∷ xs)

unfoldable pub sanitize_audit_metadata : Json → Option (List (String × MetaValue))
sanitize_audit_metadata (primitive v) = none
sanitize_audit_metadata (array items) = none
sanitize_audit_metadata (object fields) = unless_empty (primitives fields)

-- `metadata['source']`, if it is a text.
unfoldable pub source_field : JsonFields → Option String
source_field end = none
source_field (field key value rest) =
    let later = source_field rest in
    if key == "source" then (elim value [ primitive (text s) ↦ some s | _ ↦ none ]) else later

unfoldable pub extract_document_source : Json → Option String
extract_document_source (primitive v) = none
extract_document_source (array items) = none
extract_document_source (object fields) = source_field fields

pub record SignedDocument : Type 0 where
  pub certificate_id : String
  pub document_name : String
  pub document_hash : String
  pub signed_at : ℕ
  pub metadata : Json

pub record SignatureSignedDocumentItem : Type 0 where
  pub document_id : String
  pub document_hash : String
  pub document_name : String
  pub signed_at : ℕ
  pub verification_status : String
  pub document_source : String

unfoldable pub format_signature_signed_document :
    String × SignedDocument → SignatureSignedDocumentItem
format_signature_signed_document (id, d) = record {
  document_id = id;
  document_hash = d.document_hash;
  document_name = d.document_name;
  signed_at = d.signed_at;
  verification_status = "UNKNOWN";
  document_source = or_else (extract_document_source d.metadata) "personal";
}

pub record SignatureAuditItem : Type 0 where
  pub id : String
  pub action : AdminAction
  pub actor_name : String
  pub actor_role : AdminRole
  pub created_at : ℕ
  pub metadata : Option (List (String × MetaValue))

-- The metadata of an entry as a JSON column.
abbrev pub as_fields : List (String × MetaValue) → JsonFields
as_fields [] = end
as_fields ((key, v) ∷ rest) = field key (primitive v) (as_fields rest)

-- `created_at` is the instant that the database gave to the entry.
unfoldable pub format_signature_audit_entry :
    (String → ℕ) → Option Admin → String × AdminAuditLog → SignatureAuditItem
format_signature_audit_entry created_at actor (id, e) = record {
  id = id;
  action = e.action;
  actor_name =
      build_signer_display_name (option_map (λ (a : Admin). a.first_name) actor)
        (option_map (λ (a : Admin). a.last_name) actor) "Unknown admin";
  actor_role = or_else (option_map (λ (a : Admin). a.role) actor) admin;
  created_at = created_at id;
  metadata = sanitize_audit_metadata (object (as_fields e.metadata));
}

abbrev same_text : String → MetaValue → Bool
same_text wanted (text value) = value == wanted
same_text wanted _ = false

-- `metadata: { path: ['signatureId'], equals: signatureId }`
unfoldable pub has_signature_id : String → List (String × MetaValue) → Bool
has_signature_id wanted [] = false
has_signature_id wanted ((key, v) ∷ rest) =
    let later = has_signature_id wanted rest in
    if key == "signatureId" then same_text wanted v else later

module _ ⦃P : Prisma⦄ ⦃Q : Search⦄ where
  -- The audit slice of the page.
  unfoldable pub signature_history : (String → ℕ) → String → Store → List SignatureAuditItem
  signature_history created_at signature_id s =
      map
        (λ (entry : String × AdminAuditLog).
          format_signature_audit_entry created_at (P.find_unique entry.1.admin_id s.admins) entry)
        (find_many (λ _ e. has_signature_id signature_id e.metadata) (λ id _. created_at id) 0 25
          s.audit_logs)

  abbrev of_certificate : String → String → SignedDocument → Bool
  of_certificate signature_id _ d = d.certificate_id == signature_id

  -- The table of signed documents belongs to other services.
  unfoldable pub list_signed_documents :
      P.Table SignedDocument
      → String
      → Option ℕ
      → Option ℕ
      → Store
      → Reply (PaginatedResponse SignatureSignedDocumentItem)
  list_signed_documents documents signature_id asked_page asked_limit s =
      elim (P.find_unique signature_id s.certificates) [
        | none ↦ throw (not_found "Signature not found.")
        | some c ↦
            (let page = or_else asked_page 1 in
              let limit = or_else asked_limit 20 in
              ok (
                build_paginated_response
                  (map format_signature_signed_document (
                    find_many (of_certificate signature_id) (λ _ d. d.signed_at)
                      (skip_of page limit) limit documents))
                  (P.count (of_certificate signature_id) documents) page limit))
      ]
