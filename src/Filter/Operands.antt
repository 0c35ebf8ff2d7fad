-- ===== src/Filter/Operands.antt =====
-- The texts that the operators, identifiers and literals of filter_translator.go build are closed.
use fulfillment_service.Common.{
  ℕ, ◌≡◌, refl, ◌∙◌, true, false, some, List, [], ◌∷◌, ◌++◌, String, codes, str_eq, Bool-cases, inl,
  inr, ltb,
}
use mathlib.Core.Path.{subst}
use fulfillment_service.Filter.Syntax.{
  Function, add, subtract, multiply, divide, modulo, equals, not_equals, greater, greater_equals,
  less, less_equals, logical_and, logical_or, logical_not, in_operator, contains, starts_with,
  ends_with, other_function, Literal, null_literal, bool_literal, int_literal, string_literal,
  other_literal, Kind, boolean_kind, Translation, not_precedence,
}
use fulfillment_service.Filter.Operators.{
  wrap, is_null, infix_sql, equality, binary, negation, translate_ident, translate_literal,
}
use fulfillment_service.Filter.Lexer.{outside, scan, scan_through}
use fulfillment_service.Filter.Closed.{
  at_outside, at_word, at_standard_end, at_escape_end, IsClosed, Leads, infix-IsClosed,
  paren-IsClosed, nil-IsClosed,
}
use fulfillment_service.Filter.Literals.{string-IsClosed, decimal-IsClosed}
use fulfillment_service.Filter.Selected.{IsSafe}

-- A text that, after a space, leads with the space behind it to the beginning of a token.
abbrev pub IsOperator : List ℕ → Type 0
IsOperator op = (n : ℕ) → scan (outside n) (op ++ b' ' ∷ []) ≡ some (outside n)

-- Closed text, text that begins with a space and ends at the beginning of a token, and closed text.
pub after_space :
    (a mark b : List ℕ)
    → IsClosed a
    → ((n : ℕ) → scan (outside n) mark ≡ some (outside n))
    → IsClosed b
    → IsClosed (a ++ ((b' ' ∷ mark) ++ b))
after_space a mark b ca h cb = infix-IsClosed a (b' ' ∷ mark) b ca lead cb
  where
    lead : Leads (b' ' ∷ mark) outside
    lead at_outside n = h n
    lead at_word n = h n
    lead at_standard_end n = h n
    lead at_escape_end n = h n

spaced : (op b : List ℕ) → (op ++ b' ' ∷ []) ++ b ≡ op ++ b' ' ∷ b
spaced [] b = refl
spaced (c ∷ op) b = cc (spaced op b)

operator-IsClosed :
    (a op b : List ℕ)
    → IsClosed a
    → IsOperator op
    → IsClosed b
    → IsClosed (a ++ (b' ' ∷ (op ++ b' ' ∷ b)))
operator-IsClosed a op b ca lead cb =
    subst (λ t. IsClosed (a ++ (b' ' ∷ t))) (spaced op b)
      (after_space a (op ++ b' ' ∷ []) b ca lead cb)

module _ {M : Type 0} where
  pub wrap-IsClosed : (p : ℕ) (tr : Translation M) → IsClosed tr.sql → IsClosed (wrap p tr)
  wrap-IsClosed p tr c = elim (Bool-cases (ltb tr.precedence p)) [
    | inl low ↦ rw low (paren-IsClosed tr.sql c)
    | inr high ↦ rw high c
  ]

  infix_sql-IsClosed :
      (op : List ℕ) (p : ℕ) (k : Kind) (l r : Translation M)
      → IsOperator op
      → IsClosed l.sql
      → IsClosed r.sql
      → IsClosed (infix_sql op p k l r).sql
  unfolding infix_sql
  infix_sql-IsClosed op p k l r lead cl cr =
      operator-IsClosed (wrap p l) op (wrap p r) (wrap-IsClosed p l cl) lead (wrap-IsClosed p r cr)

  equality-IsClosed :
      (null_op op : List ℕ) (l r : Translation M)
      → IsOperator null_op
      → IsOperator op
      → IsClosed l.sql
      → IsClosed r.sql
      → IsClosed (equality null_op op l r).sql
  unfolding equality
  equality-IsClosed null_op op l r ln lo cl cr = elim (Bool-cases (is_null l.kind)) [
    | inl swap ↦ rw (swap, swap) (infix_sql-IsClosed null_op _ boolean_kind r l ln cr cl)
    | inr keep ↦ elim (Bool-cases (is_null r.kind)) [
      | inl null ↦ rw (keep, null) (infix_sql-IsClosed null_op _ boolean_kind l r ln cl cr)
      | inr value ↦ rw (keep, value) (infix_sql-IsClosed op _ boolean_kind l r lo cl cr)
    ]
  ]

  pub binary-IsSafe :
      (f : Function) (l r : Translation M) → IsClosed l.sql → IsClosed r.sql → IsSafe (binary f l r)
  unfolding binary
  binary-IsSafe add l r c d = infix_sql-IsClosed (codes "+") _ l.kind l r (λ n. refl) c d
  binary-IsSafe subtract l r c d = infix_sql-IsClosed (codes "-") _ l.kind l r (λ n. refl) c d
  binary-IsSafe multiply l r c d = infix_sql-IsClosed (codes "*") _ l.kind l r (λ n. refl) c d
  binary-IsSafe divide l r c d = infix_sql-IsClosed (codes "/") _ l.kind l r (λ n. refl) c d
  binary-IsSafe modulo l r c d = infix_sql-IsClosed (codes "%") _ l.kind l r (λ n. refl) c d
  binary-IsSafe equals l r c d =
      equality-IsClosed (codes "is") (codes "=") l r (λ n. refl) (λ n. refl) c d
  binary-IsSafe not_equals l r c d =
      equality-IsClosed (codes "is not") (codes "!=") l r (λ n. refl) (λ n. refl) c d
  binary-IsSafe greater l r c d = infix_sql-IsClosed (codes ">") _ boolean_kind l r (λ n. refl) c d
  binary-IsSafe greater_equals l r c d =
      infix_sql-IsClosed (codes ">=") _ boolean_kind l r (λ n. refl) c d
  binary-IsSafe less l r c d = infix_sql-IsClosed (codes "<") _ boolean_kind l r (λ n. refl) c d
  binary-IsSafe less_equals l r c d =
      infix_sql-IsClosed (codes "<=") _ boolean_kind l r (λ n. refl) c d
  binary-IsSafe logical_and l r c d =
      infix_sql-IsClosed (codes "and") _ boolean_kind l r (λ n. refl) c d
  binary-IsSafe logical_or l r c d =
      infix_sql-IsClosed (codes "or") _ boolean_kind l r (λ n. refl) c d
  binary-IsSafe logical_not l r c d = tt
  binary-IsSafe in_operator l r c d = tt
  binary-IsSafe contains l r c d = tt
  binary-IsSafe starts_with l r c d = tt
  binary-IsSafe ends_with l r c d = tt
  binary-IsSafe (other_function name) l r c d = tt

  pub negation-IsClosed : (v : Translation M) → IsClosed v.sql → IsClosed (negation v).sql
  unfolding negation
  negation-IsClosed v c n =
      let (e, h) = wrap-IsClosed not_precedence v c n in
      (e, scan_through (outside n) (outside n) (codes "not ") (wrap not_precedence v) refl ∙ h)

pub translate_literal-IsSafe : (M : Type 0) (l : Literal) → IsSafe (translate_literal {M = M} l)
unfolding translate_literal
translate_literal-IsSafe M null_literal = λ n. (at_word, refl)
translate_literal-IsSafe M (bool_literal true) = λ n. (at_word, refl)
translate_literal-IsSafe M (bool_literal false) = λ n. (at_word, refl)
translate_literal-IsSafe M (int_literal i) = decimal-IsClosed i
translate_literal-IsSafe M (string_literal text) = string-IsClosed text
translate_literal-IsSafe M other_literal = tt

pub translate_ident-IsSafe : (M : Type 0) (name : String) → IsSafe (translate_ident {M = M} name)
unfolding translate_ident
translate_ident-IsSafe M name = elim (Bool-cases (str_eq name "this")) [
  | inl this ↦ rw this nil-IsClosed
  | inr other ↦ elim (Bool-cases (str_eq name "now")) [
    | inl now ↦ rw (other, now) (λ n. (at_outside, refl))
    | inr unknown ↦ rw (other, unknown) tt
  ]
]
