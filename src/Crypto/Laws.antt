-- ===== src/Crypto/Laws.antt =====
-- Encrypted identifiers are read back, and masking hides all but the last characters.
use Prim.Native.String
use text.Mathlib.TextLemmas.{nil-append, cons-append, append-nil}
use gracon_admin_service.Prelude.{
  ℕ, zero, suc, ◌-◌, ◌<◌, String, Char, List, [], ◌∷◌, ◌++◌, some, ◌≡◌, refl, ap, leb, length, drop,
  length-append, length-drop, repeat, chars, chars-of_chars, arith, Bool-cases, inl, inr,
}
use gracon_admin_service.Crypto.{Cipher, NoColon, split_colon, encrypt, decrypt, mask_value}

split_colon-NoColon : (s : String) → NoColon s → split_colon s ≡ s ∷ []
unfolding split_colon
split_colon-NoColon String.[] h = refl
split_colon-NoColon (String.◌∷◌ c s) h = ground (arith, split_colon-NoColon s h.1)

split_colon-append :
    (s t : String) → NoColon s → split_colon (String.◌++◌ s (String.◌++◌ ":" t)) ≡ s ∷ split_colon t
unfolding split_colon
split_colon-append String.[] t h = rw nil-append (rw cons-append (rw nil-append refl))
split_colon-append (String.◌∷◌ c s) t h =
    rw cons-append (ground (arith, split_colon-append s t h.1))

-- What `encrypt` returns is decrypted to the plain text, with any vector in hexadecimal.
pub decrypt-encrypt :
    (C : Cipher) (iv plain : String) → NoColon iv → decrypt C (encrypt C iv plain) ≡ some plain
unfolding decrypt encrypt
decrypt-encrypt C iv plain h =
    rw
      (
        append-nil (C.encipher iv plain),
        split_colon-append iv (C.encipher iv plain) h,
        split_colon-NoColon (C.encipher iv plain) (C.encipher-NoColon iv plain),
      )
      (C.decipher-encipher iv plain)

length-repeat : (n : ℕ) (c : Char) → length (repeat n (c ∷ [])) ≡ n
length-repeat zero c = refl
length-repeat (suc n) c = ap suc (length-repeat n c)

rest_length :
    (cs : List Char) (n : ℕ)
    → length (repeat (length cs - n) (chars "•") ++ drop (length cs - n) cs) ≡ length cs
rest_length cs n = omega (
  arith,
  length-append (repeat (length cs - n) (chars "•")) (drop (length cs - n) cs),
  length-drop (length cs - n) cs,
  length-repeat (length cs - n),
)

-- A masked value has the length of the value.
length-mask_value :
    (value : String) (n : ℕ) → length (chars (mask_value value n)) ≡ length (chars value)
unfolding mask_value
length-mask_value value n = elim (Bool-cases (leb (length (chars value)) n)) [
  | inl short ↦ rw short
  | inr long ↦
      rw
        (
          long,
          chars-of_chars (
              repeat (length (chars value) - n) (chars "•")
              ++ drop (length (chars value) - n) (chars value)),
        )
        (rest_length (chars value) n)
]

-- A masked value tells nothing but its length and its last `n` characters: two values longer
-- than `n` that agree in these have one mask, of that same length.
pub mask_value_hides :
    (value other : String) (n : ℕ)
    → n < length (chars value)
    → length (chars value) ≡ length (chars other)
    → drop (length (chars value) - n) (chars value) ≡ drop (length (chars other) - n) (chars other)
    → (mask_value value n ≡ mask_value other n)
      × (length (chars (mask_value value n)) ≡ length (chars value))
unfolding mask_value
mask_value_hides value other n long same tail = (
  ground (
    arith,
    ap (λ (k : ℕ). repeat (k - n) (chars "•")) same,
    ap (λ (t : List Char). repeat (length (chars value) - n) (chars "•") ++ t) tail,
  ),
  length-mask_value value n,
)
