-- ===== src/Listing.antt =====
-- What the paginated listings of src/modules share: optional filters, and the page of a result.
-- Dates in queries are numbers of milliseconds, already parsed; reads do not fail.
pub mod Pages
pub mod Rows
use gracon_admin_service.Prelude.{
  ℕ, ◌+◌, ◌-◌, ◌/◌, String, Bool, true, ◌&&◌, Option, none, some, List, ◌==◌, leb, ltb, bool_eq,
  if◌then◌else◌,
}

-- A filter that the query leaves out lets every row through.
abbrev pub unless_asked {ℓ} : {A : Type ℓ} → Option A → (A → Bool) → Bool
unless_asked none f = true
unless_asked (some a) f = f a

-- `if (text)`: an empty text counts as left out.
abbrev pub nonempty : Option String → Option String
nonempty none = none
nonempty (some text) = if text == "" then none else some text

abbrev pub equals : Option String → String → Bool
equals asked value = unless_asked (nonempty asked) (λ a. a == value)

abbrev pub is_flag : Option Bool → Bool → Bool
is_flag asked value = unless_asked asked (λ a. bool_eq a value)

-- `gte` and `lte` of a date, each if it is given.
abbrev pub within : Option ℕ → Option ℕ → ℕ → Bool
within from to at = unless_asked from (λ f. leb f at) && unless_asked to (λ t. leb at t)

-- The block `pagination` of a reply.
pub record Pagination : Type 0 where
  pub page : ℕ
  pub limit : ℕ
  pub total : ℕ
  pub total_pages : ℕ
  pub has_next : Bool
  pub has_prev : Bool

pub record Paginated {ℓ} (A : Type ℓ) : Type ℓ where
  pub data_rows : List A
  pub pagination : Pagination

-- `Math.ceil(total / limit)` of a limit of at least 1.
abbrev pub pages_of : ℕ → ℕ → ℕ
pages_of total limit = (total + (limit - 1)) / limit

unfoldable pub pagination_of : ℕ → ℕ → ℕ → Pagination
pagination_of page limit total =
    let total_pages = pages_of total limit in
    record {
      page = page;
      limit = limit;
      total = total;
      total_pages = total_pages;
      has_next = ltb page total_pages;
      has_prev = ltb 1 page;
    }
