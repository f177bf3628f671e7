-- ===== src/Prisma/Search.antt =====
-- Searches of the database client that give more than one row (`findMany`).
pub mod ListSearch
use gracon_admin_service.Prelude.{
  ℕ, ◌≤◌, String, Bool, true, some, List, [], ◌∷◌, ◌≡◌, ◌⊎◌, ◌↔◌, length, take, drop,
}
use gracon_admin_service.Prisma.{Prisma}

-- The row stands in the list, under the id.
abbrev pub Listed : {Row : Type 0} → String → Row → List (String × Row) → Type 0
Listed id r [] = ⊥
Listed id r ((k, q) ∷ t) = ((k ≡ id) × (q ≡ r)) ⊎ Listed id r t

-- No row of the list has a greater key than one before it.
abbrev pub IsDescending : {Row : Type 0} → (String → Row → ℕ) → List (String × Row) → Type 0
IsDescending key [] = Unit
IsDescending {Row} key ((k, q) ∷ t) =
    ((id : String) (r : Row) → Listed id r t → key id r ≤ key k q) × IsDescending key t

-- `select p key skip limit` is every row that passes the test, in an order by descending key
-- (`orderBy: … 'desc'`) that the database takes for a query with this `skip` and `take`; rows of
-- one key may stand in another order in another query. A query without the two has 0 for both.
-- `contains` is the database's case-insensitive search for a part of a text.
pub record Search ⦃P : Prisma⦄ : Type 1 where
  pub select :
      {Row : Type 0}
      → (String → Row → Bool)
      → (String → Row → ℕ)
      → ℕ
      → ℕ
      → P.Table Row
      → List (String × Row)
  pub contains : String → String → Bool
  pub select_iff :
      {Row : Type 0} (p : String → Row → Bool) (key : String → Row → ℕ) (skip limit : ℕ)
      (t : P.Table Row) (id : String) (r : Row)
      → Listed id r (select p key skip limit t) ↔ ((P.find_unique id t ≡ some r) × (p id r ≡ true))
  pub length-select :
      {Row : Type 0} (p : String → Row → Bool) (key : String → Row → ℕ) (skip limit : ℕ)
      (t : P.Table Row)
      → length (select p key skip limit t) ≡ P.count p t
  pub select-IsDescending :
      {Row : Type 0} (p : String → Row → Bool) (key : String → Row → ℕ) (skip limit : ℕ)
      (t : P.Table Row)
      → IsDescending key (select p key skip limit t)

module _ ⦃P : Prisma⦄ ⦃Q : Search⦄ where
  -- `findMany({ where, orderBy, skip, take })`.
  abbrev pub find_many :
      {Row : Type 0}
      → (String → Row → Bool)
      → (String → Row → ℕ)
      → ℕ
      → ℕ
      → P.Table Row
      → List (String × Row)
  find_many p key skip limit t = take limit (drop skip (Q.select p key skip limit t))
