-- ===== src/Filter/Roundtrip.antt =====
-- The texts that `translateString` of filter_translator.go writes, against the values that PostgreSQL reads
-- from the literals.
use fulfillment_service.Common.{
  ℕ, ◌<◌, ◌≤◌, ◌≡◌, refl, sym, ◌∙◌, ap, true, false, some, List, [], ◌∷◌, ◌++◌, ◌==◌, any, All,
  length, length-append, Bool-cases, inl, inr, ◌⊎◌, arith,
}
use fulfillment_service.Filter.Strings.{translate_rune, translate_text, needs_escape}
use fulfillment_service.Filter.Values.{put, escape_value, at_character, literal_value, rune_value}

-- A character of Unicode that PostgreSQL can store.
abbrev pub IsCharacter : ℕ → Type 0
IsCharacter r = (0 < r) × (r < 1114112)

text_value :
    (rs : List ℕ) → All IsCharacter rs → escape_value at_character (translate_text [] rs) ≡ some rs
unfolding translate_text
text_value [] h = refl
text_value (r ∷ rs) h =
    rune_value r (translate_text [] rs) h.0.0 h.0.1 ∙ ap (put r) (text_value rs h.1)

unescaped_rune :
    (r : ℕ)
    → (translate_rune [] r).1 ≡ false
    → (r == 92) ≡ false
    → ((translate_rune [] r).0 ≡ r ∷ []) × ((r == 39) ≡ false)
unfolding translate_rune
unescaped_rune r h k = (ground arith, ground arith)

-- Without the prefix, and without backslashes, the text stands as it is.
unescaped_text :
    (rs : List ℕ)
    → needs_escape [] rs ≡ false
    → All (λ r. (r == 92) ≡ false) rs
    → (translate_text [] rs ≡ rs) × (any (λ c. c == 39) rs ≡ false)
unfolding translate_text needs_escape
unescaped_text [] h k = (refl, refl)
unescaped_text (r ∷ rs) h k =
    let (one, quote) = unescaped_rune r (ground arith) k.0 in
    let (rest, quotes) = unescaped_text rs (ground arith) k.1 in
    (ap (λ t. t ++ translate_text [] rs) one ∙ ap (◌∷◌ r) rest, rw (quote, quotes) refl)

-- PostgreSQL reads the literal that translateString writes where it is given no special characters,
-- as in comparisons and lists but not in the patterns of LIKE, as the text that it was given, for a
-- text of Unicode characters other than NUL, if the literal has the e prefix or the text has no
-- backslash.
pub translate_text-value :
    (rs : List ℕ)
    → All IsCharacter rs
    → (needs_escape [] rs ≡ true) ⊎ All (λ r. (r == 92) ≡ false) rs
    → literal_value (needs_escape [] rs) (translate_text [] rs) ≡ some rs
translate_text-value rs h (inl escaped) = rw escaped (text_value rs h)
translate_text-value rs h (inr bare) = elim (Bool-cases (needs_escape [] rs)) [
  | inl escaped ↦ rw escaped (text_value rs h)
  | inr standard ↦
      let (same, quotes) = unescaped_text rs standard bare in rw (standard, same) (rw quotes refl)
]

rune_length :
    (r : ℕ)
    → (translate_rune [] r).1 ≡ false
    → (1 ≤ length (translate_rune [] r).0) × ((r == 92) ≡ true → 2 ≤ length (translate_rune [] r).0)
unfolding translate_rune
rune_length r h = (ground arith, λ k. ground arith)

-- Without the prefix, a backslash makes the text longer.
longer_text :
    (rs : List ℕ)
    → needs_escape [] rs ≡ false
    → (length rs ≤ length (translate_text [] rs))
      × (any (λ r. r == 92) rs ≡ true → length rs < length (translate_text [] rs))
unfolding translate_text needs_escape
longer_text [] h = (omega arith, λ k. absurd (cc))
longer_text (r ∷ rs) h =
    let (one, two) = rune_length r (ground arith) in
    let (rest, more) = longer_text rs (ground arith) in
    let sum = length-append (translate_rune [] r).0 (translate_text [] rs) in
    (omega arith, λ k. ground (arith, two, more))

standard_value : (t rs : List ℕ) → literal_value false t ≡ some rs → length t ≡ length rs
standard_value t rs e = ground arith

-- PostgreSQL never reads the literal of a text with a backslash that is written without the e prefix
-- as that text: the backslash is doubled, and a standard literal keeps both.
pub translate_text-backslash :
    (rs : List ℕ)
    → needs_escape [] rs ≡ false
    → any (λ r. r == 92) rs ≡ true
    → ¬ (literal_value (needs_escape [] rs) (translate_text [] rs) ≡ some rs)
translate_text-backslash rs h k e =
    let more = (longer_text rs h).1 k in
    let same =
      standard_value (translate_text [] rs) rs
        (ap (λ b. literal_value b (translate_text [] rs)) (sym h) ∙ e) in
    omega arith
