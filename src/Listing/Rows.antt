-- ===== src/Listing/Rows.antt =====
-- The rows that a page of a listing shows are stored and pass its filters.
use gracon_admin_service.Prelude.{
  ℕ, zero, suc, ◌≤◌, String, Bool, true, false, Option, none, some, List, [], ◌∷◌, map, ◌≡◌, ◌≢◌,
  ◌↔◌, inl, inr, refl, sym, take, drop, ◌==◌, eq_iff, Bool-cases, ◌&&◌, arith,
}
use gracon_admin_service.Prisma.{Prisma}
use gracon_admin_service.Prisma.Search.{Search, Listed, find_many}
use gracon_admin_service.Listing.{unless_asked, nonempty, equals, is_flag, within}

-- Every member has the property.
abbrev pub Every : {A : Type 0} → (A → Type 0) → List A → Type 0
Every P [] = Unit
Every P (x ∷ xs) = P x × Every P xs

module _ {Row B : Type 0} (f : String × Row → B) (P : B → Type 0) where
  Every-map :
      (xs : List (String × Row))
      → ((id : String) (r : Row) → Listed id r xs → P (f (id, r)))
      → Every P (map f xs)
  Every-map [] h = tt
  Every-map ((id, r) ∷ xs) h = (h id r (inl (refl, refl)), Every-map xs (λ j q m. h j q (inr m)))

module _ {Row : Type 0} where
  Listed-take :
      (n : ℕ) (xs : List (String × Row)) (id : String) (r : Row)
      → Listed id r (take n xs)
      → Listed id r xs
  Listed-take zero xs id r m = elim m [ ]
  Listed-take (suc n) [] id r m = m
  Listed-take (suc n) ((k, q) ∷ xs) id r (inl e) = inl e
  Listed-take (suc n) ((k, q) ∷ xs) id r (inr m) = inr (Listed-take n xs id r m)

  Listed-drop :
      (n : ℕ) (xs : List (String × Row)) (id : String) (r : Row)
      → Listed id r (drop n xs)
      → Listed id r xs
  Listed-drop zero xs id r m = m
  Listed-drop (suc n) [] id r m = m
  Listed-drop (suc n) ((k, q) ∷ xs) id r m = inr (Listed-drop n xs id r m)

module _ ⦃P : Prisma⦄ ⦃Q : Search⦄ {Row B : Type 0} where
  -- What holds of every stored row that passes the filters holds of every line of a page.
  pub Every-page :
      (f : String × Row → B) (Good : B → Type 0) (p : String → Row → Bool) (key : String → Row → ℕ)
      (skip limit : ℕ) (t : P.Table Row)
      → ((id : String) (r : Row) → P.find_unique id t ≡ some r → p id r ≡ true → Good (f (id, r)))
      → Every Good (map f (find_many p key skip limit t))
  Every-page f Good p key skip limit t h =
      Every-map f Good (find_many p key skip limit t) (λ id r m.
        (let (stored, passed) = (Q.select_iff p key skip limit t id r).0 (
            Listed-drop skip (Q.select p key skip limit t) id r
              (Listed-take limit (drop skip (Q.select p key skip limit t)) id r m)) in
          h id r stored passed))

-- What the filters of a query mean.
pub unless_asked_iff :
    {A : Type 0} (asked : Option A) (f : A → Bool)
    → (unless_asked asked f ≡ true) ↔ ((a : A) → asked ≡ some a → f a ≡ true)
unless_asked_iff none f = (λ h a e. cc, λ h. refl)
unless_asked_iff (some b) f = (λ h a e. (let same : b ≡ a = cc in rw (← same) h), λ h. h b refl)

pub is_flag_iff :
    (asked : Option Bool) (value : Bool)
    → (is_flag asked value ≡ true) ↔ ((b : Bool) → asked ≡ some b → value ≡ b)
is_flag_iff none value = (λ h b e. cc, λ h. refl)
is_flag_iff (some true) true = (λ h b e. cc, λ h. refl)
is_flag_iff (some true) false = (λ h b e. cc, λ h. absurd (let bad = h true refl in cc))
is_flag_iff (some false) true = (λ h b e. cc, λ h. absurd (let bad = h false refl in cc))
is_flag_iff (some false) false = (λ h b e. cc, λ h. refl)

pub equals_iff :
    (asked : Option String) (value : String)
    → (equals asked value ≡ true) ↔ ((a : String) → asked ≡ some a → a ≢ "" → value ≡ a)
equals_iff none value = (λ h a e n. cc, λ h. refl)
equals_iff (some a) value = elim (Bool-cases (a == "")) [
  | inl empty ↦ (λ h b e n. absurd (n (let gone = (eq_iff a "").0 empty in cc)), λ h. rw empty refl)
  | inr full ↦ (
    λ h b e n.
        (let passed : a == value ≡ true = (rw full at h) in
          let same = (eq_iff a value).0 passed in cc),
    λ h.
        (let nonempty_text : a ≢ "" = λ gone. (let yes = (eq_iff a "").1 gone in cc) in
          let same = (eq_iff a value).1 (sym (h a refl nonempty_text)) in rw (full, same) refl),
  )
]

-- The dates of a query, both ends included.
pub within_iff :
    (from to : Option ℕ) (at : ℕ)
    → (within from to at ≡ true)
      ↔ (((f : ℕ) → from ≡ some f → f ≤ at) × ((t : ℕ) → to ≡ some t → at ≤ t))
within_iff none none at = (λ h. (λ f e. cc, λ t e. cc), λ h. refl)
within_iff (some f) none at = (
  λ h. (λ g e. (let same : f ≡ g = cc in rw (← same) (ground (arith, h))), λ t e. cc),
  λ h. (let low = h.0 f refl in ground (arith, low)),
)
within_iff none (some t) at = (
  λ h. (λ g e. cc, λ g e. (let same : t ≡ g = cc in rw (← same) (ground (arith, h)))),
  λ h. (let high = h.1 t refl in ground (arith, high)),
)
within_iff (some f) (some t) at = (
  λ h. (
    λ g e. (let same : f ≡ g = cc in rw (← same) (ground (arith, h))),
    λ g e. (let same : t ≡ g = cc in rw (← same) (ground (arith, h))),
  ),
  λ h. (let low = h.0 f refl in let high = h.1 t refl in ground (arith, low, high)),
)

pub searched_iff :
    (asked : Option String) (f : String → Bool)
    → (unless_asked (nonempty asked) f ≡ true)
      ↔ ((a : String) → asked ≡ some a → a ≢ "" → f a ≡ true)
searched_iff none f = (λ h a e n. cc, λ h. refl)
searched_iff (some a) f = elim (Bool-cases (a == "")) [
  | inl empty ↦ (λ h b e n. absurd (n (let gone = (eq_iff a "").0 empty in cc)), λ h. rw empty refl)
  | inr full ↦ (
    λ h b e n.
        (let same : a ≡ b = cc in let passed : f a ≡ true = (rw full at h) in rw (← same) passed),
    λ h. rw full (h a refl (λ gone. (let yes = (eq_iff a "").1 gone in ground (arith, yes, full)))),
  )
]

module _ {a b c d e f : Bool} where
  pub all_six :
      (a && b && c && d && e && f) ≡ true
      → (a ≡ true) × (b ≡ true) × (c ≡ true) × (d ≡ true) × (e ≡ true) × (f ≡ true)
  all_six h = ground arith

  pub all_of :
      a ≡ true
      → b ≡ true
      → c ≡ true
      → d ≡ true
      → e ≡ true
      → f ≡ true
      → (a && b && c && d && e && f) ≡ true
  all_of = ground arith
