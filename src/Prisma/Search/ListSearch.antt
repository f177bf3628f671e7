-- ===== src/Prisma/Search/ListSearch.antt =====
-- Searches in the tables in memory, which show that the laws of a search can be met.
use gracon_admin_service.Prelude.{
  ℕ, suc, String, Bool, true, not, some, List, [], ◌∷◌, ◌≡◌, refl, ◌↔◌, ◌⊎◌, inl, inr, ◌==◌, eq_iff,
  if◌then◌else◌, length, leb, Bool-cases, arith,
}
use gracon_admin_service.Prisma.ListTable.{lookup, keep_ids, distinct, count_rows, list_tables}
use gracon_admin_service.Prisma.Search.{Search, Listed, IsDescending}

module _ {Row : Type 0} where
  filter_rows : (String → Row → Bool) → List (String × Row) → List (String × Row)
  filter_rows p [] = []
  filter_rows p ((k, r) ∷ t) = let rest = filter_rows p t in if p k r then (k, r) ∷ rest else rest

  place : (String → Row → ℕ) → String → Row → List (String × Row) → List (String × Row)
  place key id r [] = (id, r) ∷ []
  place key id r ((k, q) ∷ t) =
      let rest = place key id r t in
      if leb (key k q) (key id r) then (id, r) ∷ (k, q) ∷ t else (k, q) ∷ rest

  newest_first : (String → Row → ℕ) → List (String × Row) → List (String × Row)
  newest_first key [] = []
  newest_first key ((k, r) ∷ t) = place key k r (newest_first key t)

  pub select_rows :
      (String → Row → Bool) → (String → Row → ℕ) → ℕ → ℕ → List (String × Row) → List (String × Row)
  select_rows p key skip limit t = newest_first key (filter_rows p (distinct t))

  Listed-keep_ids :
      (g : String → Bool) (t : List (String × Row)) (id : String) (r : Row)
      → Listed id r (keep_ids g t) ↔ (Listed id r t × (g id ≡ true))
  unfolding keep_ids
  Listed-keep_ids g [] id r = ground arith
  Listed-keep_ids g ((k, q) ∷ t) id r =
      let rest = Listed-keep_ids g t id r in
      elim (Bool-cases (g k)) [
        | inl on ↦ rw on (ground (arith, rest, on))
        | inr off ↦ rw off (ground (arith, rest, off))
      ]

  Listed-filter_rows :
      (p : String → Row → Bool) (t : List (String × Row)) (id : String) (r : Row)
      → Listed id r (filter_rows p t) ↔ (Listed id r t × (p id r ≡ true))
  unfolding filter_rows
  Listed-filter_rows p [] id r = ground arith
  Listed-filter_rows p ((k, q) ∷ t) id r =
      let rest = Listed-filter_rows p t id r in
      elim (Bool-cases (p k q)) [
        | inl on ↦ rw on (ground (arith, rest, on))
        | inr off ↦ rw off (ground (arith, rest, off))
      ]

  Listed-place :
      (key : String → Row → ℕ) (k : String) (q : Row) (t : List (String × Row)) (id : String)
      (r : Row)
      → Listed id r (place key k q t) ↔ (((k ≡ id) × (q ≡ r)) ⊎ Listed id r t)
  unfolding place
  Listed-place key k q [] id r = ground arith
  Listed-place key k q ((j, s) ∷ t) id r =
      let rest = Listed-place key k q t id r in
      elim (Bool-cases (leb (key j s) (key k q))) [
        | inl on ↦ rw on (ground (arith, rest))
        | inr off ↦ rw off (ground (arith, rest))
      ]

  Listed-newest_first :
      (key : String → Row → ℕ) (t : List (String × Row)) (id : String) (r : Row)
      → Listed id r (newest_first key t) ↔ Listed id r t
  unfolding newest_first
  Listed-newest_first key [] id r = ground arith
  Listed-newest_first key ((k, q) ∷ t) id r =
      let rest = Listed-newest_first key t id r in
      let placed = Listed-place key k q (newest_first key t) id r in ground (arith, rest, placed)

  Listed-distinct :
      (t : List (String × Row)) (id : String) (r : Row)
      → Listed id r (distinct t) ↔ (lookup id t ≡ some r)
  unfolding distinct lookup
  Listed-distinct [] id r = ground arith
  Listed-distinct ((k, q) ∷ t) id r =
      let rest = Listed-distinct t id r in
      let kept = Listed-keep_ids (λ j. not (k == j)) (distinct t) id r in
      ground (arith, rest, kept, eq_iff k id)

  pub select_rows_iff :
      (p : String → Row → Bool) (key : String → Row → ℕ) (skip limit : ℕ) (t : List (String × Row))
      (id : String) (r : Row)
      → Listed id r (select_rows p key skip limit t) ↔ ((lookup id t ≡ some r) × (p id r ≡ true))
  unfolding select_rows
  select_rows_iff p key skip limit t id r =
      let sorted = Listed-newest_first key (filter_rows p (distinct t)) id r in
      let passed = Listed-filter_rows p (distinct t) id r in
      let stored = Listed-distinct t id r in ground (arith, sorted, passed, stored)

  length-place :
      (key : String → Row → ℕ) (k : String) (q : Row) (t : List (String × Row))
      → length (place key k q t) ≡ suc (length t)
  unfolding place
  length-place key k q [] = refl
  length-place key k q ((j, s) ∷ t) = ground (arith, length-place key k q t)

  length-newest_first :
      (key : String → Row → ℕ) (t : List (String × Row)) → length (newest_first key t) ≡ length t
  unfolding newest_first
  length-newest_first key [] = refl
  length-newest_first key ((k, q) ∷ t) =
      omega (arith, length-place key k q (newest_first key t), length-newest_first key t)

  length-filter_rows :
      (p : String → Row → Bool) (t : List (String × Row))
      → length (filter_rows p t) ≡ count_rows p t
  unfolding filter_rows count_rows
  length-filter_rows p [] = refl
  length-filter_rows p ((k, q) ∷ t) = ground (arith, length-filter_rows p t)

  pub length-select_rows :
      (p : String → Row → Bool) (key : String → Row → ℕ) (skip limit : ℕ) (t : List (String × Row))
      → length (select_rows p key skip limit t) ≡ count_rows p (distinct t)
  unfolding select_rows
  length-select_rows p key skip limit t = omega (
    arith,
    length-newest_first key (filter_rows p (distinct t)),
    length-filter_rows p (distinct t),
  )

module _ {Row : Type 0} where
  place-IsDescending :
      (key : String → Row → ℕ) (k : String) (q : Row) (t : List (String × Row))
      → IsDescending key t
      → IsDescending key (place key k q t)
  unfolding place
  place-IsDescending key k q [] down = (λ id r m. elim m [ ], tt)
  place-IsDescending key k q ((j, s) ∷ t) down = elim (Bool-cases (leb (key j s) (key k q))) [
    | inl on ↦ rw on (λ id r m. (let old = down.0 id r in ground (arith, m, on, old)), down)
    | inr off ↦ rw off (
      λ id r m.
          (let old = down.0 id r in
            let placed = (Listed-place key k q t id r).0 m in ground (arith, placed, off, old)),
      place-IsDescending key k q t down.1,
    )
  ]

  newest_first-IsDescending :
      (key : String → Row → ℕ) (t : List (String × Row)) → IsDescending key (newest_first key t)
  unfolding newest_first
  newest_first-IsDescending key [] = tt
  newest_first-IsDescending key ((k, r) ∷ t) =
      place-IsDescending key k r (newest_first key t) (newest_first-IsDescending key t)

  pub select_rows-IsDescending :
      (p : String → Row → Bool) (key : String → Row → ℕ) (skip limit : ℕ) (t : List (String × Row))
      → IsDescending key (select_rows p key skip limit t)
  unfolding select_rows
  select_rows-IsDescending p key skip limit t =
      newest_first-IsDescending key (filter_rows p (distinct t))

-- The search for a part of a text is left to the database; here it finds what is equal.
instance unfoldable pub list_search : Search ⦃P = list_tables⦄
unfolding list_tables select_rows newest_first place filter_rows
list_search = record {
  select = select_rows;
  contains = λ text term. text == term;
  select_iff = select_rows_iff;
  length-select = length-select_rows;
  select-IsDescending = select_rows-IsDescending;
}
