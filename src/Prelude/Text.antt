-- ===== src/Prelude/Text.antt =====
-- Texts: template literals, and the conversions that messages use.
use Prim.Native.Nat.{ℕ, zero, suc}
use Prim.Native.String
use Prim.Native.Char.{Char, code}
use Prim.Native.String.{String}
use mathlib.Core.Bool.{Bool, ◌&&◌, ◌||◌}
use mathlib.Core.Path.{◌≡◌, refl, ap}
use gracon_admin_service.Prelude.Tests.{leb, eqb, if◌then◌else◌}
use mathlib.Core.List.{List, [], ◌∷◌, ◌++◌, reverse}

-- A template literal, by its pieces.
abbrev pub template : List String → String
template [] = ""
template (s ∷ ss) = String.◌++◌ s (template ss)

-- The characters of a text.
abbrev pub chars : String → List Char
chars String.[] = []
chars (String.◌∷◌ c s) = c ∷ chars s

abbrev pub of_chars : List Char → String
of_chars [] = ""
of_chars (c ∷ cs) = String.◌∷◌ c (of_chars cs)

pub chars-of_chars : (cs : List Char) → chars (of_chars cs) ≡ cs
chars-of_chars [] = refl
chars-of_chars (c ∷ cs) = ap (λ r. c ∷ r) (chars-of_chars cs)

-- `text.repeat(n)`, over the characters.
abbrev pub repeat : ℕ → List Char → List Char
repeat zero cs = []
repeat (suc n) cs = cs ++ repeat n cs

-- The white space of JavaScript.
abbrev pub is_space : ℕ → Bool
is_space c =
    (leb 9 c && leb c 13)
    || eqb c 32
    || eqb c 160
    || eqb c 0x1680
    || (leb 0x2000 c && leb c 0x200a)
    || eqb c 0x2028
    || eqb c 0x2029
    || eqb c 0x202f
    || eqb c 0x205f
    || eqb c 0x3000
    || eqb c 0xfeff

unfoldable pub trim_start : List Char → List Char
trim_start [] = []
trim_start (c ∷ cs) = let rest = trim_start cs in if is_space (code c) then rest else c ∷ cs

-- `text.trim()`.
unfoldable pub trim : String → String
unfolding trim_start
trim s = of_chars (reverse (trim_start (reverse (trim_start (chars s)))))
