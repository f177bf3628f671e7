-- ===== src/Signatures/Documents/Cleaning.antt =====
-- What the page shows of an entry's metadata, and which entries it shows.
use gracon_admin_service.Prelude.{
  ℕ, String, some, none, Option, List, [], ◌∷◌, ◌≡◌, ◌≢◌, ◌==◌, eq_iff, Bool-cases, inl, inr, ◌↔◌,
  ◌⊎◌, refl, subst, eq_refl, arith,
}
use gracon_admin_service.Prisma.{Prisma}
use gracon_admin_service.Prisma.Search.{Search, Listed}
use gracon_admin_service.Models.{AdminAuditLog, MetaValue, PersonalCertificate, Store}
use gracon_admin_service.Certificates.{Reviewer}
use gracon_admin_service.Signatures.{signature_entry}
use gracon_admin_service.Signatures.Documents.{
  Json, JsonFields, primitive, array, object, end, field, primitives, sanitize_audit_metadata,
  has_signature_id,
}

-- The object has this field, with this primitive value.
abbrev pub HasField : String → MetaValue → JsonFields → Type 0
HasField key v end = ⊥
HasField key v (field k value rest) = ((k ≡ key) × (value ≡ primitive v)) ⊎ HasField key v rest

-- Such a field is part of what is shown.
abbrev pub Shows : String → MetaValue → Option (List (String × MetaValue)) → Type 0
Shows key v none = ⊥
Shows key v (some fields) = Listed key v fields

primitives-HasField :
    (key : String) (v : MetaValue) (fields : JsonFields)
    → Listed key v (primitives fields) ↔ (HasField key v fields × (key ≢ "__proto__"))
unfolding primitives
primitives-HasField key v end = ground arith
primitives-HasField key v (field k (primitive w) rest) =
    let more = primitives-HasField key v rest in
    let lost = eq_iff k "__proto__" in
    elim (Bool-cases (k == "__proto__")) [
      | inl on ↦ rw on (ground (arith, more, lost, on))
      | inr off ↦ rw off (ground (arith, more, lost, off))
    ]
primitives-HasField key v (field k (array _) rest) =
    (let more = primitives-HasField key v rest in ground (arith, more))
primitives-HasField key v (field k (object _) rest) =
    (let more = primitives-HasField key v rest in ground (arith, more))

shown_by :
    (key : String) (v : MetaValue) (fields : JsonFields) (kept : List (String × MetaValue))
    → primitives fields ≡ kept
    → Shows key v (sanitize_audit_metadata (object fields)) ↔ Listed key v kept
unfolding sanitize_audit_metadata
shown_by key v fields [] e = rw e (ground arith)
shown_by key v fields (x ∷ kept) e = rw e (ground arith)

-- Of the metadata of an entry the page of a signature shows exactly the fields of an object that
-- hold a primitive, but for one named `__proto__`; a nested value is not shown there.
pub sanitize_audit_metadata-Shows :
    (key : String) (v : MetaValue) (metadata : Json)
    → Shows key v (sanitize_audit_metadata metadata) ↔ (
        (fields : JsonFields) × (metadata ≡ object fields)
        × HasField key v fields
        × (key ≢ "__proto__"))
unfolding sanitize_audit_metadata
sanitize_audit_metadata-Shows key v (primitive w) =
    (λ h. absurd h, λ h. (let (x, at, of, named) = h in cc))
sanitize_audit_metadata-Shows key v (array items) =
    (λ h. absurd h, λ h. (let (x, at, of, named) = h in cc))
sanitize_audit_metadata-Shows key v (object fields) =
    let kept = primitives-HasField key v fields in
    let shown = shown_by key v fields (primitives fields) refl in
    (
      λ h. (let (of, named) = kept.0 (shown.0 h) in (fields, refl, of, named)),
      λ h.
          (let (x, at, of, named) = h in
            let same : x ≡ fields = cc in
            let here : HasField key v fields = subst (HasField key v) same of in
            shown.1 (kept.1 (here, named))),
    )

module _ ⦃P : Prisma⦄ ⦃Q : Search⦄ where
  -- The entry that a revocation writes is one of those that the page of its signature selects.
  pub signature_entry_selected :
      (created_at : String → ℕ) (by : Reviewer) (signature_id reason : String)
      (c : PersonalCertificate) (k : String) (s : Store)
      → P.find_unique k s.audit_logs ≡ some (signature_entry by signature_id c reason)
      → Listed k (signature_entry by signature_id c reason) (
          Q.select
            (λ _ (e : AdminAuditLog). has_signature_id signature_id e.metadata)
            (λ id _. created_at id)
            0
            25
            s.audit_logs)
  unfolding has_signature_id
  signature_entry_selected created_at by signature_id reason c k s stored =
      (Q.select_iff (λ _ (e : AdminAuditLog). has_signature_id signature_id e.metadata)
          (λ id _. created_at id) 0 25 s.audit_logs k (signature_entry by signature_id c reason)).1
        (stored, eq_refl signature_id)
