-- ===== src/Common/Text.antt =====
-- Texts: the native strings where the program compares whole texts, and lists of code points where
-- it walks or builds them.
use Prim.Native.Char.{code}
use Prim.Native.String.{String}
use text.Mathlib.Text.{◌==◌}
use text.Mathlib.TextEquality.{eq_iff}
use text.Mathlib.TextPositions.{eq_refl}
use Prim.Native.Nat.{ℕ}
use mathlib.Core.Path.{◌≡◌}
use mathlib.Core.Bool.{Bool, true, false, ◌||◌}
use mathlib.Core.List.{List, [], ◌∷◌}

-- `a == b` on strings, under a name of its own beside the test on numbers.
abbrev pub str_eq : String → String → Bool
str_eq a b = a == b

pub str_eq_iff_eq : (a b : String) → str_eq a b ≡ true → a ≡ b
str_eq_iff_eq a b h = (eq_iff a b).0 h

pub str_eq_refl : (a : String) → str_eq a a ≡ true
str_eq_refl a = eq_refl a

-- The runes of a text.
abbrev pub codes : String → List ℕ
codes String.[] = []
codes (String.◌∷◌ c s) = code c ∷ codes s

abbrev pub contains : List String → String → Bool
contains [] a = false
contains (x ∷ xs) a = str_eq x a || contains xs a
