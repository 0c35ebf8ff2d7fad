-- ===== src/Filter/Closed.antt =====
-- Closed SQL text: it leaves the reader outside of any literal, at the depth at which it began.
use fulfillment_service.Common.{ℕ, suc, ◌≡◌, refl, ◌∙◌, some, List, [], ◌∷◌, ◌++◌, codes}
use fulfillment_service.Filter.Lexer.{
  State, outside, word, standard_end, escape_end, scan, scan_through,
}

-- Where closed text may end: between tokens, in a word, or right after a literal.
pub data End : Type 0 where
  at_outside at_word at_standard_end at_escape_end : End

abbrev pub end_state : End → ℕ → State
end_state at_outside n = outside n
end_state at_word n = word n
end_state at_standard_end n = standard_end n
end_state at_escape_end n = escape_end n

abbrev pub IsClosed : List ℕ → Type 0
IsClosed t = (n : ℕ) → (e : End) × (scan (outside n) t ≡ some (end_state e n))

-- Text that may follow closed text, and that leads to state `s` from wherever that ended.
abbrev pub Leads : List ℕ → (ℕ → State) → Type 0
Leads t s = (e : End) (n : ℕ) → scan (end_state e n) t ≡ some (s n)

-- Closed text, what leads on, and closed text again.
pub infix-IsClosed :
    (a op b : List ℕ) → IsClosed a → Leads op outside → IsClosed b → IsClosed (a ++ (op ++ b))
infix-IsClosed a op b ca lead cb n =
    let (ea, ha) = ca n in
    let (eb, hb) = cb n in
    (
      eb,
      scan_through (outside n) (end_state ea n) a (op ++ b) ha
          ∙ scan_through (end_state ea n) (outside n) op b (lead ea n)
          ∙ hb,
    )

pub close_paren : (e : End) (n : ℕ) → scan (end_state e (suc n)) (codes ")") ≡ some (outside n)
close_paren at_outside n = refl
close_paren at_word n = refl
close_paren at_standard_end n = refl
close_paren at_escape_end n = refl

-- Text that opens a parenthesis, closed text, and text that closes it.
pub enclosed :
    (before a after : List ℕ)
    → ((e : End) (n : ℕ) → scan (end_state e n) before ≡ some (outside (suc n)))
    → IsClosed a
    → ((e : End) (n : ℕ) → scan (end_state e (suc n)) after ≡ some (outside n))
    → (e : End) (n : ℕ) → scan (end_state e n) (before ++ (a ++ after)) ≡ some (outside n)
enclosed before a after opens ca closes e n =
    let (ea, ha) = ca (suc n) in
    scan_through (end_state e n) (outside (suc n)) before (a ++ after) (opens e n)
    ∙ scan_through (outside (suc n)) (end_state ea (suc n)) a after ha
    ∙ closes ea n

open_paren : (e : End) (n : ℕ) → scan (end_state e n) (codes "(") ≡ some (outside (suc n))
open_paren at_outside n = refl
open_paren at_word n = refl
open_paren at_standard_end n = refl
open_paren at_escape_end n = refl

pub paren-IsClosed : (a : List ℕ) → IsClosed a → IsClosed (b'(' ∷ (a ++ b')' ∷ []))
paren-IsClosed a ca n =
    (at_outside, enclosed (codes "(") a (codes ")") open_paren ca close_paren at_outside n)

pub nil-IsClosed : IsClosed []
nil-IsClosed n = (at_outside, refl)
