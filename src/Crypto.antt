-- ===== src/Crypto.antt =====
-- src/common/crypto/encryption.service.ts: the format of encrypted identifiers, and masking.
-- AES itself is a parameter; `compareHash` has no caller in the service.
pub mod Laws
use Prim.Native.String
use gracon_admin_service.Prelude.{
  ℕ, ◌-◌, String, Char, code, Bool, true, false, List, [], ◌∷◌, ◌++◌, Option, none, some, ◌≡◌, ◌≢◌,
  if◌then◌else◌, eqb, leb, length, drop, repeat, template, chars, of_chars,
}

-- `text.split(':')`.
abbrev pub onto_first : Char → List String → List String
onto_first c [] = String.◌∷◌ c "" ∷ []
onto_first c (w ∷ ws) = String.◌∷◌ c w ∷ ws

unfoldable pub split_colon : String → List String
split_colon String.[] = "" ∷ []
split_colon (String.◌∷◌ c s) =
    let parts = split_colon s in if eqb (code c) b':' then "" ∷ parts else onto_first c parts

abbrev pub NoColon : String → Type 0
NoColon String.[] = Unit
NoColon (String.◌∷◌ c s) = (code c ≢ b':') × NoColon s

-- AES-256-CBC under the service's key, from an initialisation vector to a ciphertext, both in
-- hexadecimal; deciphering throws on what was not enciphered with the key.
pub record Cipher : Type 0 where
  pub encipher : String → String → String
  pub decipher : String → String → Option String
  pub decipher-encipher : (iv plain : String) → decipher iv (encipher iv plain) ≡ some plain
  pub encipher-NoColon : (iv plain : String) → NoColon (encipher iv plain)

module _ (C : Cipher) where
  -- `iv` is the random vector, in hexadecimal.
  pub encrypt : String → String → String
  encrypt iv plain = template (iv ∷ ":" ∷ C.encipher iv plain ∷ [])

  abbrev decrypt_parts : List String → Option String
  decrypt_parts (iv ∷ encrypted ∷ _) = C.decipher iv encrypted
  decrypt_parts _ = none

  -- `none` is an exception of the cipher.
  unfoldable pub decrypt : String → Option String
  unfolding split_colon
  decrypt text = decrypt_parts (split_colon text)

unfoldable pub mask_value : String → ℕ → String
mask_value value visible =
    let n = length (chars value) in
    if leb n visible
    then value
    else of_chars (repeat (n - visible) (chars "•") ++ drop (n - visible) (chars value))
