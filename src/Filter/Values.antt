-- ===== src/Filter/Values.antt =====
-- The values of the literals that filter_translator.go writes, as PostgreSQL reads them (section 4.1.2
-- of its manual).
use native.Mathlib.Nat.{pow-suc, div-add-mod, div-div-eq-div-mul}
use fulfillment_service.Common.{
  ℕ, zero, suc, ◌+◌, ◌-◌, ◌*◌, ◌/◌, ◌%◌, ◌^◌, ◌<◌, ◌≡◌, refl, sym, ◌∙◌, ap, Bool, true, false, ◌&&◌,
  ◌||◌, Option, none, some, List, [], ◌∷◌, ◌++◌, ◌==◌, leb, any, Bool-cases, inl, inr, arith,
  if◌then◌else◌,
}
use fulfillment_service.Filter.Strings.{hex_digit, hex, translate_rune}

-- Where the reader of an escape literal is: at a character, after a backslash, or in the digits of a code
-- point, with the number of digits to come and the number so far.
pub data Mode : Type 0 where
  at_character after_backslash : Mode
  in_digits : ℕ → ℕ → Mode

-- What a character does: it is refused, it only moves the reader, or it completes a character.
pub data Step : Type 0 where
  refuse : Step
  move : Mode → Step
  give : ℕ → Step

unfoldable pub digit_value : ℕ → Option ℕ
digit_value c =
    if leb b'0' c && leb c b'9'
    then some (c - 48)
    else if leb b'a' c && leb c b'f'
    then some (c - 87)
    else if leb b'A' c && leb c b'F'
    then some (c - 55)
    else none

-- The other escapes, \b, \f, \r, \x and the octal ones, are left out.
abbrev pub is_other_escape : ℕ → Bool
is_other_escape c = c == b'b' || c == b'f' || c == b'r' || c == b'x' || leb b'0' c && leb c b'7'

-- A last digit: there is no character with the number 0.
abbrev pub complete : ℕ → Step
complete zero = refuse
complete (suc n) = give (suc n)

-- A digit, if it is one, with the number of digits still to come.
abbrev pub read_digit : ℕ → ℕ → Option ℕ → Step
read_digit k n none = refuse
read_digit zero n (some d) = complete (n * 16 + d)
read_digit (suc k) n (some d) = move (in_digits k (n * 16 + d))

abbrev pub next_step : Mode → ℕ → Step
next_step at_character c =
    if c == 92 then move after_backslash else if c == 39 then refuse else give c
next_step after_backslash c =
    if c == b'n'
    then give 10
    else if c == b't'
    then give 9
    else if c == b'u'
    then move (in_digits 3 0)
    else if c == b'U'
    then move (in_digits 7 0)
    else if is_other_escape c
    then refuse
    else give c
next_step (in_digits k n) c = read_digit k n (digit_value c)

abbrev pub put : ℕ → Option (List ℕ) → Option (List ℕ)
put a none = none
put a (some rest) = some (a ∷ rest)

abbrev pub follow : Step → (Mode → Option (List ℕ)) → Option (List ℕ)
follow refuse f = none
follow (move m) f = f m
follow (give a) f = put a (f at_character)

-- The value of the text between the quotes of an escape literal.
abbrev pub escape_value : Mode → List ℕ → Option (List ℕ)
escape_value at_character [] = some []
escape_value after_backslash [] = none
escape_value (in_digits k n) [] = none
escape_value m (c ∷ cs) = follow (next_step m c) (λ t. escape_value t cs)

-- The value of a literal, with the `e` prefix or without; a standard literal with a quote is refused.
abbrev pub literal_value : Bool → List ℕ → Option (List ℕ)
literal_value true text = escape_value at_character text
literal_value false text = if any (λ c. c == 39) text then none else some text

digit_value-hex_digit : (d : ℕ) → digit_value (hex_digit (d % 16)) ≡ some (d % 16)
unfolding digit_value
digit_value-hex_digit d = ground arith

complete_positive : (n r : ℕ) → n ≡ r → 0 < r → complete n ≡ give r
complete_positive zero r e p = absurd (omega arith)
complete_positive (suc n) r e p = ap give e

digit_move :
    (k n d : ℕ) (ys : List ℕ)
    → escape_value (in_digits (suc k) n) (hex_digit (d % 16) ∷ ys)
      ≡ escape_value (in_digits k (n * 16 + d % 16)) ys
digit_move k n d ys =
    ap (λ o. follow (read_digit (suc k) n o) (λ t. escape_value t ys)) (digit_value-hex_digit d)

digit_complete :
    (n d r : ℕ) (ys : List ℕ)
    → n * 16 + d % 16 ≡ r
    → 0 < r
    → escape_value (in_digits 0 n) (hex_digit (d % 16) ∷ ys) ≡ put r (escape_value at_character ys)
digit_complete n d r ys e p =
    ap (λ o. follow (read_digit 0 n o) (λ t. escape_value t ys)) (digit_value-hex_digit d)
    ∙ ap (λ x. follow x (λ t. escape_value t ys)) (complete_positive (n * 16 + d % 16) r e p)

cancel : (b h q x y z r : ℕ) → b * 16 * h + z ≡ r → b * q + y ≡ r → 16 * h + x ≡ q → z ≡ x * b + y
cancel b h q x y z r whole parts digit =
    let expanded : b * q ≡ b * 16 * h + x * b = ap (λ (k : ℕ). b * k) (sym digit) ∙ grind arith in
    omega arith

-- The remainder of a number with one more digit.
mod_split : (r b : ℕ) → r % (b * 16) ≡ r / b % 16 * b + r % b
mod_split r b =
    cancel b (r / (b * 16)) (r / b) (r / b % 16) (r % b) (r % (b * 16)) r (div-add-mod r (b * 16))
      (div-add-mod r b)
      (ap (λ (k : ℕ). 16 * k + r / b % 16) (sym (div-div-eq-div-mul r b 16))
        ∙ div-add-mod (r / b) 16)

-- A digit that moves from the remainder to the number so far.
shift_digit :
    (n x y b whole m : ℕ) → n * (b * 16) + whole ≡ m → whole ≡ x * b + y → (n * 16 + x) * b + y ≡ m
shift_digit n x y b whole m e split =
    let expanded : (n * 16 + x) * b ≡ n * (b * 16) + x * b = grind arith in omega arith

-- The digits of `hex` complete the number that they started from.
hex_value :
    (w n r m : ℕ) (ys : List ℕ)
    → 0 < m
    → n * 16 ^ suc w + r % 16 ^ suc w ≡ m
    → escape_value (in_digits w n) (hex (suc w) r ++ ys) ≡ put m (escape_value at_character ys)
hex_value zero n r m ys p e = digit_complete n (r / 16 ^ 0) m ys (grind arith) p
hex_value (suc w) n r m ys p e =
    digit_move w n (r / 16 ^ suc w) (hex (suc w) r ++ ys)
    ∙ hex_value w (n * 16 + r / 16 ^ suc w % 16) r m ys p (
        shift_digit n (r / 16 ^ suc w % 16) (r % 16 ^ suc w) (16 ^ suc w) (r % (16 ^ suc w * 16)) m
          (rw (sym (pow-suc 16 (suc w))) e) (mod_split r (16 ^ suc w)))

hex4_value :
    (r : ℕ) (ys : List ℕ)
    → 0 < r
    → r < 65536
    → escape_value (in_digits 3 0) (hex 4 r ++ ys) ≡ put r (escape_value at_character ys)
hex4_value r ys p q = hex_value 3 0 r r ys p (omega arith)

hex8_value :
    (r : ℕ) (ys : List ℕ)
    → 0 < r
    → r < 1114112
    → escape_value (in_digits 7 0) (hex 8 r ++ ys) ≡ put r (escape_value at_character ys)
hex8_value r ys p q = hex_value 7 0 r r ys p (omega arith)

pub rune_value :
    (r : ℕ) (ys : List ℕ)
    → 0 < r
    → r < 1114112
    → escape_value at_character ((translate_rune [] r).0 ++ ys)
      ≡ put r (escape_value at_character ys)
unfolding translate_rune
rune_value r ys p q = elim (Bool-cases (r == 92)) [
  | inl h ↦ let same : r ≡ 92 = ground arith in rw same refl
  | inr h ↦ ground (arith, hex4_value r ys p, hex8_value r ys p)
]
