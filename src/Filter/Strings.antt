-- ===== src/Filter/Strings.antt =====
-- filter_translator.go: `translateString`, and the number formats that it uses.
use fulfillment_service.Common.{
  ℕ, zero, suc, ◌+◌, ◌/◌, ◌%◌, ◌^◌, Bool, true, false, ◌&&◌, ◌||◌, List, [], ◌∷◌, ◌++◌, ◌==◌, ltb,
  leb, any, if◌then◌else◌,
}
use fulfillment_service.Common.Int.{ℤ, pos, negsuc}

-- The lower case hexadecimal digit of a number below 16.
abbrev pub hex_digit : ℕ → ℕ
hex_digit n = if ltb n 10 then n + 48 else n + 87

-- `%0wx` of a number below `16 ^ w`.
abbrev pub hex : ℕ → ℕ → List ℕ
hex zero n = []
hex (suc w) n = hex_digit (n / 16 ^ w % 16) ∷ hex w n

-- `%d` of a natural number, with fuel for its digits: one unit more than the number is enough.
unfoldable pub decimal_fuel : ℕ → ℕ → List ℕ
decimal_fuel zero n = []
decimal_fuel (suc f) n =
    let rest = decimal_fuel f (n / 10) in
    if ltb n 10 then (n + 48) ∷ [] else rest ++ (n % 10 + 48) ∷ []

-- `%d`
unfoldable pub decimal : ℤ → List ℕ
unfolding decimal_fuel
decimal (pos n) = decimal_fuel (suc n) n
decimal (negsuc n) = b'-' ∷ decimal_fuel (suc (suc n)) (suc n)

-- `unicode.IsPrint(r) && r <= unicode.MaxASCII`
abbrev pub is_printable : ℕ → Bool
is_printable r = leb 32 r && leb r 126

-- What `translateString` writes for one rune, and whether that wants the `e` prefix. `special` holds
-- the further runes to escape.
unfoldable pub translate_rune : List ℕ → ℕ → List ℕ × Bool
translate_rune special r =
    if r == 92 || any (λ c. c == r) special
    then (92 ∷ r ∷ [], false)
    else if r == 39
    then (92 ∷ 39 ∷ [], true)
    else if r == 10
    then (92 ∷ b'n' ∷ [], true)
    else if r == 9
    then (92 ∷ b't' ∷ [], true)
    else if is_printable r
    then (r ∷ [], false)
    else if ltb r 65535
    then (92 ∷ b'u' ∷ hex 4 r, true)
    else (92 ∷ b'U' ∷ hex 8 r, true)

-- The text and the flag of `translateString`.
unfoldable pub translate_text : List ℕ → List ℕ → List ℕ
unfolding translate_rune
translate_text special [] = []
translate_text special (r ∷ rs) = (translate_rune special r).0 ++ translate_text special rs

unfoldable pub needs_escape : List ℕ → List ℕ → Bool
unfolding translate_rune
needs_escape special [] = false
needs_escape special (r ∷ rs) = (translate_rune special r).1 || needs_escape special rs
