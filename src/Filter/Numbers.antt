-- ===== src/Filter/Numbers.antt =====
-- The integer literals that filter_translator.go writes, against the numbers that they stand for.
use fulfillment_service.Common.{
  ℕ, zero, suc, ◌+◌, ◌-◌, ◌*◌, ◌/◌, ◌%◌, ◌<◌, ◌≡◌, refl, ◌∙◌, ap, List, [], ◌∷◌, ◌++◌, ltb, arith,
  All, Bool-cases, inl, inr, true, ◌==◌, if◌then◌else◌,
}
use fulfillment_service.Common.Int.{ℤ, pos, negsuc}
use fulfillment_service.Filter.Strings.{decimal, decimal_fuel}
use fulfillment_service.Filter.Literals.{is_digit, decimal_fuel-All, decimal_fuel-shape}

-- The number that a list of decimal digits stands for, after the digits of another one.
abbrev pub digits_value : ℕ → List ℕ → ℕ
digits_value n [] = n
digits_value n (c ∷ cs) = digits_value (n * 10 + (c - 48)) cs

-- The integer of a literal with an optional minus sign.
abbrev pub integer_value : List ℕ → ℤ
integer_value [] = pos 0
integer_value (c ∷ cs) =
    if c == b'-' then negsuc (digits_value 0 cs - 1) else pos (digits_value 0 (c ∷ cs))

digits_value-append :
    (n : ℕ) (xs : List ℕ) (c : ℕ)
    → digits_value n (xs ++ c ∷ []) ≡ digits_value n xs * 10 + (c - 48)
digits_value-append n [] c = refl
digits_value-append n (x ∷ xs) c = digits_value-append (n * 10 + (x - 48)) xs c

-- More fuel than the number is enough for its digits.
decimal_fuel-value : (f k : ℕ) → k < f → digits_value 0 (decimal_fuel f k) ≡ k
unfolding decimal_fuel
decimal_fuel-value zero k h = absurd (omega arith)
decimal_fuel-value (suc f) k h = elim (Bool-cases (ltb k 10)) [
  | inl one ↦ rw one (omega arith)
  | inr more ↦
      let bound : k / 10 < f = ground arith in
      rw
        (
          more,
          digits_value-append 0 (decimal_fuel f (k / 10)) (k % 10 + 48),
          decimal_fuel-value f (k / 10) bound,
        )
        (omega arith)
]

unsigned_value :
    (ds : List ℕ) (c : ℕ) (cs : List ℕ)
    → ds ≡ c ∷ cs
    → All (λ x. is_digit x ≡ true) ds
    → integer_value ds ≡ pos (digits_value 0 ds)
unsigned_value [] c cs e h = cc
unsigned_value (d ∷ ds) c cs e h = ground arith

-- The text of any integer literal, read as decimal digits with an optional minus sign, stands for
-- that integer: the fuel that its digits run on is enough.
pub decimal-value : (i : ℤ) → integer_value (decimal i) ≡ i
unfolding decimal
decimal-value (pos n) =
    let (c, cs, shape) = decimal_fuel-shape n n in
    unsigned_value (decimal_fuel (suc n) n) c cs shape (decimal_fuel-All (suc n) n)
    ∙ ap pos (decimal_fuel-value (suc n) n (omega arith))
decimal-value (negsuc n) =
    ap (λ (k : ℕ). negsuc (k - 1)) (decimal_fuel-value (suc (suc n)) (suc n) (omega arith))
    ∙ ap negsuc (omega arith)
