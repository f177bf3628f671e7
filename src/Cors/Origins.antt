-- ===== src/Cors/Origins.antt =====
-- The allowed origins, exactly.
use Prim.Native.String
use text.Mathlib.TextLemmas.{nil-append, cons-append}
use gracon_admin_service.Prelude.{
  ◌++◌, code, eqb, false, ap, ◌∙◌, subst, sym, String, true, Option, none, some, List, [], ◌∷◌, ◌≡◌,
  ◌≢◌, ◌⊎◌, ◌↔◌, inl, inr, refl, ◌==◌, eq_iff, trim, Bool-cases, arith,
}
use gracon_admin_service.Cors.{
  split_comma, pieces_of, trimmed_origins, includes, parse_allowed_origins, origin_allowed,
}

-- One of the pieces is the origin, but for white space around it.
abbrev pub Names : List String → String → Type 0
Names [] origin = ⊥
Names (piece ∷ pieces) origin = (trim piece ≡ origin) ⊎ Names pieces origin

-- The text of a setting: the pieces, with a comma between any two.
abbrev pub join_comma : List String → String
join_comma [] = ""
join_comma (piece ∷ []) = piece
join_comma (piece ∷ next ∷ pieces) =
    String.◌++◌ piece (String.◌++◌ "," (join_comma (next ∷ pieces)))

abbrev pub NoComma : String → Type 0
NoComma String.[] = Unit
NoComma (String.◌∷◌ c s) = (eqb (code c) b',' ≡ false) × NoComma s

-- A setting has at least one piece, and no piece a comma.
abbrev pub ArePieces : List String → Type 0
ArePieces [] = ⊥
ArePieces (piece ∷ []) = NoComma piece
ArePieces (piece ∷ next ∷ pieces) = NoComma piece × ArePieces (next ∷ pieces)

split_comma-NoComma : (s : String) → NoComma s → split_comma s ≡ s ∷ []
unfolding split_comma
split_comma-NoComma String.[] h = refl
split_comma-NoComma (String.◌∷◌ c s) h =
    rw (split_comma-NoComma s h.1, h.0) (rw cons-append (rw nil-append refl))

split_comma-append :
    (s t : String) → NoComma s → split_comma (String.◌++◌ s (String.◌++◌ "," t)) ≡ s ∷ split_comma t
unfolding split_comma
split_comma-append String.[] t h = rw nil-append (rw cons-append (rw nil-append refl))
split_comma-append (String.◌∷◌ c s) t h =
    rw cons-append (rw (split_comma-append s t h.1, h.0) (rw cons-append (rw nil-append refl)))

split_comma-join_comma :
    (pieces : List String) → ArePieces pieces → split_comma (join_comma pieces) ≡ pieces
split_comma-join_comma [] h = absurd h
split_comma-join_comma (piece ∷ []) h = split_comma-NoComma piece h
split_comma-join_comma (piece ∷ next ∷ pieces) h =
    split_comma-append piece (join_comma (next ∷ pieces)) h.0
    ∙ ap (λ r. piece ∷ r) (split_comma-join_comma (next ∷ pieces) h.1)

includes-Names :
    (pieces : List String) (origin : String)
    → origin ≢ ""
    → (includes (trimmed_origins pieces) origin ≡ true) ↔ Names pieces origin
unfolding trimmed_origins
includes-Names [] origin given = ground arith
includes-Names (piece ∷ pieces) origin given =
    let rest = includes-Names pieces origin given in
    let same = eq_iff (trim piece) origin in
    let empty = eq_iff (trim piece) "" in
    elim (Bool-cases (trim piece == "")) [
      | inl gone ↦ rw gone (ground (arith, rest, empty, gone, given))
      | inr kept ↦ rw kept (ground (arith, rest, same))
    ]

origin_allowed-Names :
    (admin_frontend_url : String) (frontend_urls : Option String)
    → (origin_allowed admin_frontend_url frontend_urls none ≡ true)
      × ((origin : String)
          → (origin_allowed admin_frontend_url frontend_urls (some origin) ≡ true)
            ↔ ((origin ≡ "") ⊎ Names (pieces_of admin_frontend_url frontend_urls) origin))
unfolding origin_allowed parse_allowed_origins
origin_allowed-Names admin_frontend_url frontend_urls = (
  refl,
  λ origin.
      (let empty = eq_iff origin "" in
        elim (Bool-cases (origin == "")) [
          | inl gone ↦ (λ h. inl (empty.0 gone), λ h. rw gone refl)
          | inr given ↦
              (let apart : origin ≢ "" = λ e. (let bad = empty.1 e in ground (arith, bad, given)) in
                let named =
                  includes-Names (pieces_of admin_frontend_url frontend_urls) origin apart in
                rw given (
                  λ h. inr (named.0 h),
                  λ h. elim h [ inl e ↦ absurd (apart e) | inr n ↦ named.1 n ],
                ))
        ]),
)

Names-unset :
    (pieces : List String) (origin : String)
    → ((origin ≡ "") ⊎ Names (pieces ++ "" ∷ []) origin) ↔ ((origin ≡ "") ⊎ Names pieces origin)
unfolding trim
Names-unset [] origin = (
  λ h. elim h [ inl e ↦ inl e | inr n ↦ elim n [ inl e ↦ inl (sym e) | inr m ↦ inr m ] ],
  λ h. elim h [ inl e ↦ inl e | inr n ↦ inr (inr n) ],
)
Names-unset (piece ∷ pieces) origin =
    let rest = Names-unset pieces origin in
    (λ h. ground (arith, h, rest), λ h. ground (arith, h, rest))

-- Let the two settings be lists of pieces, with commas between them and in none. A request with no
-- origin, or an empty one, is let through; any other exactly if its origin is one of the pieces, up
-- to the white space around it, and of the first setting's alone where the second is not set.
pub origin_allowed_iff :
    (own others : List String)
    → ArePieces own
    → ArePieces others
    → (origin_allowed (join_comma own) (some (join_comma others)) none ≡ true)
      × ((origin : String)
          → (origin_allowed (join_comma own) (some (join_comma others)) (some origin) ≡ true)
            ↔ ((origin ≡ "") ⊎ Names (own ++ others) origin))
      × ((origin : String)
          → (origin_allowed (join_comma own) none (some origin) ≡ true)
            ↔ ((origin ≡ "") ⊎ Names own origin))
unfolding split_comma
origin_allowed_iff own others a b =
    let first = split_comma-join_comma own a in
    let second = split_comma-join_comma others b in
    (
      (origin_allowed-Names (join_comma own) (some (join_comma others))).0,
      λ origin.
          subst
            (λ pieces.
              (origin_allowed (join_comma own) (some (join_comma others)) (some origin) ≡ true)
              ↔ ((origin ≡ "") ⊎ Names pieces origin))
            (ap (λ x. x ++ split_comma (join_comma others)) first ∙ ap (λ x. own ++ x) second)
            ((origin_allowed-Names (join_comma own) (some (join_comma others))).1 origin),
      λ origin.
          (let named =
              subst
                (λ pieces.
                  (origin_allowed (join_comma own) none (some origin) ≡ true)
                  ↔ ((origin ≡ "") ⊎ Names pieces origin))
                (ap (λ x. x ++ "" ∷ []) first)
                ((origin_allowed-Names (join_comma own) none).1 origin) in
            let last = Names-unset own origin in
            (λ h. last.0 (named.0 h), λ h. named.1 (last.1 h))),
    )
