-- ===== src/Prisma.antt =====
-- The database client (`@prisma/client` over `@gracon/database`), which src/ calls and does not
-- hold: tables of rows under generated ids, and what the service relies on of each query.
pub mod ListTable
pub mod Search
pub mod Marked
use gracon_admin_service.Prelude.{
  ℕ, String, Bool, true, false, Option, none, some, ◌≡◌, ◌⊎◌, inl, inr, Option-cases, ◌==◌, ◌↔◌,
  if◌then◌else◌, option_map,
}

-- P2002, P2025, and every other failure of a query.
pub data DbError : Type 0 where
  unique_violation record_not_found query_failed : DbError

pub data Query {ℓ} (A : Type ℓ) : Type ℓ where
  done : A → Query A
  failed : DbError → Query A

-- The operations, each with its documented behaviour, observed by the lookup of a row's id.
-- A write either gives the table after it or fails and gives none.
pub record Prisma : Type 1 where
  pub Table : Type 0 → Type 0
  pub find_unique : {Row : Type 0} → String → Table Row → Option Row
  pub find_first : {Row : Type 0} → (String → Row → Bool) → Table Row → Option (String × Row)
  pub count : {Row : Type 0} → (String → Row → Bool) → Table Row → ℕ
  pub create : {Row : Type 0} → Row → Table Row → Query (String × Table Row)
  pub update : {Row : Type 0} → String → (Row → Row) → Table Row → Query (Table Row)
  pub update_many :
      {Row : Type 0} → (String → Row → Bool) → (Row → Row) → Table Row → Query (Table Row)
  -- `updateMany` with the `count` of its reply.
  pub update_many_counted :
      {Row : Type 0} → (String → Row → Bool) → (Row → Row) → Table Row → Query (ℕ × Table Row)
  pub delete_many : {Row : Type 0} → (String → Row → Bool) → Table Row → Query (Table Row)
  -- Updates the first row that passes the test, and creates the given row if there is none.
  pub upsert :
      {Row : Type 0} → (String → Row → Bool) → Row → (Row → Row) → Table Row → Query (Table Row)
  pub find_first_sound :
      {Row : Type 0} (p : String → Row → Bool) (t : Table Row) (id : String) (r : Row)
      → find_first p t ≡ some (id, r)
      → (find_unique id t ≡ some r) × (p id r ≡ true)
  pub find_first_none :
      {Row : Type 0} (p : String → Row → Bool) (t : Table Row) (id : String) (r : Row)
      → find_first p t ≡ none
      → find_unique id t ≡ some r
      → p id r ≡ false
  pub create_fresh :
      {Row : Type 0} (r : Row) (t t' : Table Row) (id : String)
      → create r t ≡ done (id, t')
      → find_unique id t ≡ none
  pub find_unique-create :
      {Row : Type 0} (r : Row) (t t' : Table Row) (id j : String)
      → create r t ≡ done (id, t')
      → find_unique j t' ≡ (if id == j then some r else find_unique j t)
  pub find_unique-update :
      {Row : Type 0} (id : String) (f : Row → Row) (t t' : Table Row) (j : String)
      → update id f t ≡ done t'
      → find_unique j t' ≡ (if id == j then option_map f (find_unique j t) else find_unique j t)
  pub find_unique-update_many :
      {Row : Type 0} (p : String → Row → Bool) (f : Row → Row) (t t' : Table Row) (j : String)
      → update_many p f t ≡ done t'
      → find_unique j t' ≡ option_map (λ r. if p j r then f r else r) (find_unique j t)
  pub update_many_counted_lem :
      {Row : Type 0} (p : String → Row → Bool) (f : Row → Row) (t t' : Table Row) (n : ℕ)
      → update_many_counted p f t ≡ done (n, t')
      → (update_many p f t ≡ done t') × (n ≡ count p t)
  pub find_unique-delete_many :
      {Row : Type 0} (p : String → Row → Bool) (t t' : Table Row) (j : String) (r : Row)
      → delete_many p t ≡ done t'
      → (find_unique j t' ≡ some r) ↔ ((find_unique j t ≡ some r) × (p j r ≡ false))
  pub upsert_found :
      {Row : Type 0} (p : String → Row → Bool) (r : Row) (f : Row → Row) (t : Table Row)
      (id : String) (old : Row)
      → find_first p t ≡ some (id, old)
      → upsert p r f t ≡ update id f t
  pub upsert_missing :
      {Row : Type 0} (p : String → Row → Bool) (r : Row) (f : Row → Row) (t t' : Table Row)
      → find_first p t ≡ none
      → upsert p r f t ≡ done t'
      → (id : String) × (create r t ≡ done (id, t'))

module _ ⦃P : Prisma⦄ {Row : Type 0} where
  -- What a search for the first row gives: nothing, or a stored row that passes the test.
  pub find_first_cases :
      (p : String → Row → Bool) (t : P.Table Row)
      → (P.find_first p t ≡ none)
        ⊎ ((id : String) × (r : Row) × (P.find_first p t ≡ some (id, r))
            × (P.find_unique id t ≡ some r)
            × (p id r ≡ true))
  find_first_cases p t = elim (Option-cases (P.find_first p t)) [
    | inl e ↦ inl e
    | inr ((id, r), e) ↦
        inr (id, r, e, (P.find_first_sound p t id r e).0, (P.find_first_sound p t id r e).1)
  ]
