-- ===== src/Filter/Literals.antt =====
-- The literals that `translateLiteral` and `translateToLike` of filter_translator.go write are closed.
use fulfillment_service.Common.{
  ℕ, zero, suc, ◌+◌, ◌/◌, ◌%◌, ◌^◌, ◌≡◌, refl, ◌∙◌, Bool, true, false, ◌&&◌, some, List, [], ◌∷◌,
  ◌++◌, ◌==◌, ltb, leb, any, All, Bool-cases, inl, inr, arith,
}
use fulfillment_service.Common.Int.{ℤ, pos, negsuc}
use fulfillment_service.Filter.Strings.{
  hex_digit, hex, decimal_fuel, decimal, translate_rune, translate_text, needs_escape,
}
use fulfillment_service.Filter.Operators.{quote}
use fulfillment_service.Filter.Lexer.{outside, word, dash, standard, escape, scan, scan_through}
use fulfillment_service.Filter.Closed.{at_word, at_standard_end, at_escape_end, IsClosed}

hex_digit_range :
    (d : ℕ) → (hex_digit (d % 16) == 39) ≡ false × ((hex_digit (d % 16) == 92) ≡ false)
hex_digit_range d = (ground arith, ground arith)

hex-escape : (n w r : ℕ) → scan (escape n) (hex w r) ≡ some (escape n)
hex-escape n zero r = refl
hex-escape n (suc w) r =
    let (plain, bare) = hex_digit_range (r / 16 ^ w) in rw (plain, bare) (hex-escape n w r)

-- What is written for a rune leaves an escape literal open.
rune-escape :
    (n : ℕ) (special : List ℕ) (r : ℕ)
    → scan (escape n) (translate_rune special r).0 ≡ some (escape n)
unfolding translate_rune
rune-escape n special r = ground (arith, hex-escape n 4 r, hex-escape n 8 r)

special_other :
    (special : List ℕ) (r : ℕ)
    → any (λ c. c == 39) special ≡ false
    → any (λ c. c == r) special ≡ true
    → (r == 39) ≡ false
special_other [] r h k = cc
special_other (c ∷ special) r h k = ground (arith, special_other special r)

-- A rune that wants no prefix leaves a standard literal open, if the quote isn't special.
rune-standard :
    (n : ℕ) (special : List ℕ) (r : ℕ)
    → any (λ c. c == 39) special ≡ false
    → (translate_rune special r).1 ≡ false
    → scan (standard n) (translate_rune special r).0 ≡ some (standard n)
unfolding translate_rune
rune-standard n special r h k = ground (arith, special_other special r h)

text-escape :
    (n : ℕ) (special rs : List ℕ) → scan (escape n) (translate_text special rs) ≡ some (escape n)
unfolding translate_text
text-escape n special [] = refl
text-escape n special (r ∷ rs) =
    scan_through (escape n) (escape n) (translate_rune special r).0 (translate_text special rs)
      (rune-escape n special r)
    ∙ text-escape n special rs

text-standard :
    (n : ℕ) (special rs : List ℕ)
    → any (λ c. c == 39) special ≡ false
    → needs_escape special rs ≡ false
    → scan (standard n) (translate_text special rs) ≡ some (standard n)
unfolding translate_text needs_escape
text-standard n special [] h k = refl
text-standard n special (r ∷ rs) h k =
    scan_through (standard n) (standard n) (translate_rune special r).0 (translate_text special rs)
      (rune-standard n special r h (ground arith))
    ∙ text-standard n special rs h (ground arith)

-- A literal is closed if its text leaves a literal of its form open.
quote-IsClosed :
    (b : Bool) (text : List ℕ)
    → ((n : ℕ) → scan (escape n) text ≡ some (escape n))
    → (b ≡ false → (n : ℕ) → scan (standard n) text ≡ some (standard n))
    → IsClosed (quote b text)
quote-IsClosed true text h k n =
    (at_escape_end, scan_through (escape n) (escape n) text (39 ∷ []) (h n))
quote-IsClosed false text h k n =
    (at_standard_end, scan_through (standard n) (standard n) text (39 ∷ []) (k refl n))

-- What stands around a pattern leaves both forms of literals open.
abbrev pub IsNeutral : List ℕ → Type 0
IsNeutral t =
    ((n : ℕ) → scan (escape n) t ≡ some (escape n))
    × ((n : ℕ) → scan (standard n) t ≡ some (standard n))

pub literal-IsClosed :
    (special rs prefix suffix : List ℕ)
    → any (λ c. c == 39) special ≡ false
    → IsNeutral prefix
    → IsNeutral suffix
    → IsClosed (quote (needs_escape special rs) (prefix ++ (translate_text special rs ++ suffix)))
literal-IsClosed special rs prefix suffix h (pe, ps) (se, ss) =
    quote-IsClosed (needs_escape special rs) _
      (λ n.
        scan_through (escape n) (escape n) prefix (translate_text special rs ++ suffix) (pe n)
        ∙ scan_through (escape n) (escape n) (translate_text special rs) suffix
            (text-escape n special rs)
        ∙ se n)
      (λ k n.
        scan_through (standard n) (standard n) prefix (translate_text special rs ++ suffix) (ps n)
        ∙ scan_through (standard n) (standard n) (translate_text special rs) suffix
            (text-standard n special rs h k)
        ∙ ss n)

pub string-IsClosed : (rs : List ℕ) → IsClosed (quote (needs_escape [] rs) (translate_text [] rs))
string-IsClosed rs =
    quote-IsClosed (needs_escape [] rs) (translate_text [] rs) (λ n. text-escape n [] rs)
      (λ k n. text-standard n [] rs refl k)

abbrev pub is_digit : ℕ → Bool
is_digit c = leb b'0' c && leb c b'9'

All-append_one :
    (ds : List ℕ) (d : ℕ)
    → All (λ c. is_digit c ≡ true) ds
    → is_digit d ≡ true
    → All (λ c. is_digit c ≡ true) (ds ++ d ∷ [])
All-append_one [] d h k = (k, tt)
All-append_one (c ∷ ds) d h k = (h.0, All-append_one ds d h.1 k)

pub decimal_fuel-All : (f k : ℕ) → All (λ c. is_digit c ≡ true) (decimal_fuel f k)
unfolding decimal_fuel
decimal_fuel-All zero k = tt
decimal_fuel-All (suc f) k = elim (Bool-cases (ltb k 10)) [
  | inl one ↦ rw one (ground arith, tt)
  | inr more ↦ rw more (
      All-append_one (decimal_fuel f (k / 10)) (k % 10 + 48) (decimal_fuel-All f (k / 10))
        (ground arith))
]

append_one-shape : (ds : List ℕ) (d : ℕ) → (c : ℕ) × (cs : List ℕ) × (ds ++ d ∷ [] ≡ c ∷ cs)
append_one-shape [] d = (d, [], refl)
append_one-shape (c ∷ ds) d = (c, ds ++ d ∷ [], refl)

pub decimal_fuel-shape : (f k : ℕ) → (c : ℕ) × (cs : List ℕ) × (decimal_fuel (suc f) k ≡ c ∷ cs)
unfolding decimal_fuel
decimal_fuel-shape f k = elim (Bool-cases (ltb k 10)) [
  | inl one ↦ rw one (k + 48, [], refl)
  | inr more ↦ rw more (append_one-shape (decimal_fuel f (k / 10)) (k % 10 + 48))
]

digits-word :
    (n : ℕ) (ds : List ℕ) → All (λ c. is_digit c ≡ true) ds → scan (word n) ds ≡ some (word n)
digits-word n [] h = refl
digits-word n (c ∷ ds) h = ground (arith, digits-word n ds h.1)

-- Digits after a minus sign, or at the beginning of a token.
digits-begin :
    (n : ℕ) (ds : List ℕ) (c : ℕ) (cs : List ℕ)
    → ds ≡ c ∷ cs
    → All (λ c. is_digit c ≡ true) ds
    → (scan (outside n) ds ≡ some (word n)) × (scan (dash n) ds ≡ some (word n))
digits-begin n [] c cs e h = cc
digits-begin n (d ∷ ds) c cs e h =
    (ground (arith, digits-word n ds h.1), ground (arith, digits-word n ds h.1))

pub decimal-IsClosed : (i : ℤ) → IsClosed (decimal i)
unfolding decimal
decimal-IsClosed (pos k) n =
    let (c, cs, shape) = decimal_fuel-shape k k in
    (at_word, (digits-begin n _ c cs shape (decimal_fuel-All (suc k) k)).0)
decimal-IsClosed (negsuc k) n =
    let (c, cs, shape) = decimal_fuel-shape (suc k) (suc k) in
    (at_word, (digits-begin n _ c cs shape (decimal_fuel-All (suc (suc k)) (suc k))).1)
