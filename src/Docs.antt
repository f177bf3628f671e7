-- ===== src/Docs.antt =====
-- src/common/security/docs-auth.middleware.ts: basic authentication before the API's documents.
-- Decoding base64 is a parameter; `timingSafeEqual` throws on texts of different lengths in bytes.
use Prim.Native.Char.{len_utf8}
use gracon_admin_service.Prelude.{
  ℕ, ◌+◌, String, Char, code, Bool, true, false, not, ◌&&◌, ◌||◌, List, [], ◌∷◌, Option, none, some,
  ◌≡◌, ◌≢◌, ◌↔◌, subst, ◌==◌, eq_iff, eqb, if◌then◌else◌, drop, chars, of_chars, or_else, arith,
  Bool-cases, inl, inr,
}
use gracon_admin_service.Crypto.{split_colon, onto_first, NoColon}

-- The response of the middleware: 503, 401 with a challenge, 401, an exception (500), or `next()`.
pub data DocsReply : Type 0 where
  not_available authentication_required invalid_credentials exception next : DocsReply

pub byte_length : String → ℕ
byte_length String.[] = 0
byte_length (String.◌∷◌ c s) = len_utf8 c + byte_length s

-- `none` is the exception.
unfoldable pub timing_safe_equal : String → String → Option Bool
timing_safe_equal a b = if eqb (byte_length a) (byte_length b) then some (a == b) else none

-- `text.startsWith(prefix)`.
unfoldable pub starts_with : String → String → Bool
starts_with String.[] _ = true
starts_with (String.◌∷◌ c p) String.[] = false
starts_with (String.◌∷◌ c p) (String.◌∷◌ d s) =
    let rest = starts_with p s in if eqb (code c) (code d) then rest else false

abbrev pub slice_from : ℕ → String → String
slice_from n s = of_chars (drop n (chars s))

-- `const [reqUser, reqPass] = parts`, a missing one being ''.
abbrev first_part : List String → String
first_part [] = ""
first_part (w ∷ _) = w

abbrev second_part : List String → String
second_part (_ ∷ w ∷ _) = w
second_part _ = ""

abbrev configured : Option String → String
configured value = or_else value ""

abbrev judged : Option Bool → Option Bool → DocsReply
judged none _ = exception
judged (some a) none = exception
judged (some a) (some b) = if a && b then next else invalid_credentials

unfoldable pub docs_auth :
    (String → String) → Option String → Option String → Option String → DocsReply
docs_auth decode_base64 user pass header =
    let parts = split_colon (decode_base64 (slice_from 6 (or_else header ""))) in
    if configured user == "" || configured pass == ""
    then not_available
    else if not (starts_with "Basic " (or_else header ""))
    then authentication_required
    else judged (timing_safe_equal (first_part parts) (configured user))
        (timing_safe_equal (second_part parts) (configured pass))

AllNoColon : List String → Type 0
AllNoColon [] = Unit
AllNoColon (w ∷ ws) = NoColon w × AllNoColon ws

onto_first_pieces :
    (c : Char) (parts : List String)
    → code c ≢ b':'
    → AllNoColon parts
    → AllNoColon (onto_first c parts)
unfolding AllNoColon
onto_first_pieces c [] other h = ((other, tt), tt)
onto_first_pieces c (w ∷ ws) other h = ((other, h.0), h.1)

split_colon_pieces : (s : String) → AllNoColon (split_colon s)
unfolding split_colon AllNoColon
split_colon_pieces String.[] = (tt, tt)
split_colon_pieces (String.◌∷◌ c s) = elim (Bool-cases (eqb (code c) b':')) [
  | inl colon ↦ rw colon (tt, split_colon_pieces s)
  | inr other ↦
      rw other
        (onto_first_pieces c (split_colon s) (λ e. ground (arith, other, e)) (split_colon_pieces s))
]

second_part-NoColon : (parts : List String) → AllNoColon parts → NoColon (second_part parts)
unfolding AllNoColon
second_part-NoColon [] h = tt
second_part-NoColon (w ∷ []) h = tt
second_part-NoColon (w ∷ v ∷ ws) h = h.1.0

judged_iff :
    (a b u p : String)
    → (judged (timing_safe_equal a u) (timing_safe_equal b p) ≡ next) ↔ ((a ≡ u) × (b ≡ p))
unfolding timing_safe_equal
judged_iff a b u p = ground (arith, eq_iff a u, eq_iff b p)

-- The documents are shown just when both settings are set, the header starts with "Basic ", and
-- the first two pieces between colons of its decoded text are the two settings.
pub docs_auth_iff :
    (decode : String → String) (user pass header : Option String)
    → (docs_auth decode user pass header ≡ next) ↔ (
        ((configured user == "") ≡ false)
        × ((configured pass == "") ≡ false)
        × (starts_with "Basic " (or_else header "") ≡ true)
        × (first_part (split_colon (decode (slice_from 6 (or_else header "")))) ≡ configured user)
        × (second_part (split_colon (decode (slice_from 6 (or_else header "")))) ≡ configured pass))
unfolding docs_auth
docs_auth_iff decode user pass header =
    let parts = split_colon (decode (slice_from 6 (or_else header ""))) in
    ground
      (arith, judged_iff (first_part parts) (second_part parts) (configured user) (configured pass))

-- A configured password that holds a colon locks the documents: no header is let through.
pub docs_auth_colon :
    (decode : String → String) (user : Option String) (pass : String) (header : Option String)
    → ¬ NoColon pass
    → docs_auth decode user (some pass) header ≢ next
docs_auth_colon decode user pass header colon h =
    let (_, _, _, _, same) = (docs_auth_iff decode user (some pass) header).0 h in
    colon (
      subst NoColon same
        (second_part-NoColon _ (split_colon_pieces (decode (slice_from 6 (or_else header ""))))))
