-- ===== src/Prisma/ListTable.antt =====
-- A table in memory: the rows with their ids, in the order of creation. The tests and witnesses
-- run the service over it; it also shows that the laws of the database client can be met.
use Prim.Native.String
use gracon_admin_service.Prelude.{
  ℕ, zero, suc, String, Bool, true, false, not, Option, none, some, List, [], ◌∷◌, ◌++◌, ◌≡◌, refl,
  ◌↔◌, ◌==◌, eq_iff, if◌then◌else◌, option_map, length, arith,
}
use gracon_admin_service.Prisma.{Prisma, Query, done, failed, record_not_found, query_failed}

new_id : ℕ → String
new_id zero = "x"
new_id (suc n) = String.◌++◌ "x" (new_id n)

module _ {Row : Type 0} where
  unfoldable pub lookup : String → List (String × Row) → Option Row
  lookup id [] = none
  lookup id ((k, r) ∷ t) = if k == id then some r else lookup id t

  pub scan :
      (String → Row → Bool) → List (String × Row) → List (String × Row) → Option (String × Row)
  scan p whole [] = none
  scan p whole ((k, _) ∷ t) = elim (lookup k whole) [
    | none ↦ scan p whole t
    | some r ↦ (let rest = scan p whole t in if p k r then some (k, r) else rest)
  ]

  unfoldable pub count_rows : (String → Row → Bool) → List (String × Row) → ℕ
  count_rows p [] = 0
  count_rows p ((k, r) ∷ t) = let n = count_rows p t in if p k r then suc n else n

  unfoldable pub keep_ids : (String → Bool) → List (String × Row) → List (String × Row)
  keep_ids g [] = []
  keep_ids g ((k, r) ∷ t) = let rest = keep_ids g t in if g k then (k, r) ∷ rest else rest

  -- The rows that a lookup finds.
  unfoldable pub distinct : List (String × Row) → List (String × Row)
  distinct [] = []
  distinct ((k, r) ∷ t) = (k, r) ∷ keep_ids (λ j. not (k == j)) (distinct t)

  pub change : (String → Row → Bool) → (Row → Row) → List (String × Row) → List (String × Row)
  change p f [] = []
  change p f ((k, r) ∷ t) = (k, if p k r then f r else r) ∷ change p f t

  pub survives : (String → Row → Bool) → List (String × Row) → String → Bool
  survives p t k = elim (lookup k t) [ none ↦ false | some r ↦ not (p k r) ]

  pub insert_row : Row → List (String × Row) → Query (String × List (String × Row))
  insert_row r t =
      let id = new_id (length t) in
      elim (lookup id t) [ none ↦ done (id, t ++ (id, r) ∷ []) | some _ ↦ failed query_failed ]

  pub update_row : String → (Row → Row) → List (String × Row) → Query (List (String × Row))
  update_row id f t = elim (lookup id t) [
    | none ↦ failed record_not_found
    | some _ ↦ done (change (λ k _. k == id) f t)
  ]

  pub lookup-change :
      (p : String → Row → Bool) (f : Row → Row) (t : List (String × Row)) (j : String)
      → lookup j (change p f t) ≡ option_map (λ r. if p j r then f r else r) (lookup j t)
  unfolding lookup change
  lookup-change p f [] j = refl
  lookup-change p f ((k, r) ∷ t) j = ground (arith, lookup-change p f t j, eq_iff k j)

  pub lookup-keep_ids :
      (g : String → Bool) (t : List (String × Row)) (j : String)
      → lookup j (keep_ids g t) ≡ (if g j then lookup j t else none)
  unfolding lookup keep_ids
  lookup-keep_ids g [] j = ground arith
  lookup-keep_ids g ((k, r) ∷ t) j = ground (arith, lookup-keep_ids g t j, eq_iff k j)

  lookup-append :
      (t : List (String × Row)) (id : String) (r : Row) (j : String)
      → lookup id t ≡ none
      → lookup j (t ++ (id, r) ∷ []) ≡ (if id == j then some r else lookup j t)
  unfolding lookup
  lookup-append [] id r j h = refl
  lookup-append ((k, s) ∷ t) id r j h =
      ground (arith, lookup-append t id r j, eq_iff k j, eq_iff k id, eq_iff id j)

  scan_sound :
      (p : String → Row → Bool) (whole t : List (String × Row)) (id : String) (r : Row)
      → scan p whole t ≡ some (id, r)
      → (lookup id whole ≡ some r) × (p id r ≡ true)
  unfolding scan
  scan_sound p whole [] id r h = ground arith
  scan_sound p whole ((k, _) ∷ t) id r h = ground (arith, scan_sound p whole t id r)

  scan-none :
      (p : String → Row → Bool) (whole t : List (String × Row)) (id : String) (r s : Row)
      → scan p whole t ≡ none
      → lookup id t ≡ some s
      → lookup id whole ≡ some r
      → p id r ≡ false
  unfolding scan lookup
  scan-none p whole [] id r s h e w = ground arith
  scan-none p whole ((k, q) ∷ t) id r s h e w =
      ground (arith, scan-none p whole t id r s, eq_iff k id)

  pub scan_self_sound :
      (p : String → Row → Bool) (t : List (String × Row)) (id : String) (r : Row)
      → scan p t t ≡ some (id, r)
      → (lookup id t ≡ some r) × (p id r ≡ true)
  scan_self_sound p t id r = scan_sound p t t id r

  pub scan_self_none :
      (p : String → Row → Bool) (t : List (String × Row)) (id : String) (r : Row)
      → scan p t t ≡ none
      → lookup id t ≡ some r
      → p id r ≡ false
  scan_self_none p t id r h e = scan-none p t t id r r h e e

  pub insert_row_fresh :
      (r : Row) (t t' : List (String × Row)) (id : String)
      → insert_row r t ≡ done (id, t')
      → lookup id t ≡ none
  unfolding insert_row
  insert_row_fresh r t t' id h = ground arith

  pub lookup-insert_row :
      (r : Row) (t t' : List (String × Row)) (id j : String)
      → insert_row r t ≡ done (id, t')
      → lookup j t' ≡ (if id == j then some r else lookup j t)
  unfolding insert_row
  lookup-insert_row r t t' id j h = ground (arith, lookup-append t id r j)

  pub lookup-update_row :
      (id : String) (f : Row → Row) (t t' : List (String × Row)) (j : String)
      → update_row id f t ≡ done t'
      → lookup j t' ≡ (if id == j then option_map f (lookup j t) else lookup j t)
  unfolding update_row
  lookup-update_row id f t t' j h =
      ground (arith, lookup-change (λ k _. k == id) f t j, eq_iff j id, eq_iff id j)

  pub lookup-survivors :
      (p : String → Row → Bool) (t : List (String × Row)) (j : String) (r : Row)
      → (lookup j (keep_ids (survives p t) t) ≡ some r) ↔ ((lookup j t ≡ some r) × (p j r ≡ false))
  unfolding survives
  lookup-survivors p t j r = ground (arith, lookup-keep_ids (survives p t) t j)

  pub lookup-change_many :
      (p : String → Row → Bool) (f : Row → Row) (t t' : List (String × Row)) (j : String)
      → done (change p f t) ≡ done t'
      → lookup j t' ≡ option_map (λ r. if p j r then f r else r) (lookup j t)
  lookup-change_many p f t t' j h = cc (lookup-change p f t j)

  pub lookup-delete_rows :
      (p : String → Row → Bool) (t t' : List (String × Row)) (j : String) (r : Row)
      → done (keep_ids (survives p t) t) ≡ done t'
      → (lookup j t' ≡ some r) ↔ ((lookup j t ≡ some r) × (p j r ≡ false))
  lookup-delete_rows p t t' j r h =
      let same : keep_ids (survives p t) t ≡ t' = cc in rw (← same) (lookup-survivors p t j r)

module _ {Row : Type 0} where
  abbrev without_id : Query (String × List (String × Row)) → Query (List (String × Row))
  without_id (done (_, t)) = done t
  without_id (failed e) = failed e

  pub put_row :
      (String → Row → Bool) → Row → (Row → Row) → List (String × Row) → Query (List (String × Row))
  put_row p r f t = elim (scan p t t) [
    | none ↦ without_id (insert_row r t)
    | some (id, _) ↦ update_row id f t
  ]

  pub put_row_found :
      (p : String → Row → Bool) (r : Row) (f : Row → Row) (t : List (String × Row)) (id : String)
      (old : Row)
      → scan p t t ≡ some (id, old)
      → put_row p r f t ≡ update_row id f t
  unfolding put_row
  put_row_found p r f t id old h = rw (h, put_row)

  inserted_alone :
      (q : Query (String × List (String × Row))) (t' : List (String × Row))
      → without_id q ≡ done t'
      → (id : String) × (q ≡ done (id, t'))
  inserted_alone (done (id, t)) t' h = (id, cc)
  inserted_alone (failed e) t' h = cc

  pub put_row_missing :
      (p : String → Row → Bool) (r : Row) (f : Row → Row) (t t' : List (String × Row))
      → scan p t t ≡ none
      → put_row p r f t ≡ done t'
      → (id : String) × (insert_row r t ≡ done (id, t'))
  unfolding put_row
  put_row_missing p r f t t' h e = inserted_alone (insert_row r t) t' (rw (h, put_row) at e)

instance unfoldable pub list_tables : Prisma
unfolding lookup scan count_rows distinct insert_row update_row change keep_ids survives new_id
    put_row
list_tables = record {
  Table = λ Row. List (String × Row);
  find_unique = lookup;
  find_first = λ p t. scan p t t;
  count = λ p t. count_rows p (distinct t);
  create = insert_row;
  update = update_row;
  update_many = λ p f t. done (change p f t);
  update_many_counted = λ p f t. done (count_rows p (distinct t), change p f t);
  update_many_counted_lem = λ p f t t' n h. (cc, cc);
  upsert = put_row;
  upsert_found = put_row_found;
  upsert_missing = put_row_missing;
  delete_many = λ p t. done (keep_ids (survives p t) t);
  find_first_sound = scan_self_sound;
  find_first_none = scan_self_none;
  create_fresh = insert_row_fresh;
  find_unique-create = lookup-insert_row;
  find_unique-update = lookup-update_row;
  find_unique-update_many = lookup-change_many;
  find_unique-delete_many = lookup-delete_rows;
}
