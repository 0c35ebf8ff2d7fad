-- ===== src/Filter/Operators.antt =====
-- filter_translator.go: what `translateBinary`, `translateNot`, `translateIdent` and `translateLiteral`
-- build from translated operands.
use fulfillment_service.Common.{
  ℕ, Bool, true, false, none, List, [], ◌∷◌, ◌++◌, String, Result, ok, err, ltb, str_eq, codes,
  if◌then◌else◌,
}
use fulfillment_service.Filter.Syntax.{
  Function, add, subtract, multiply, divide, modulo, equals, not_equals, greater, greater_equals,
  less, less_equals, logical_and, logical_or, Literal, null_literal, bool_literal, int_literal,
  string_literal, other_literal, Kind, null_kind, boolean_kind, numeric_kind, time_kind,
  string_kind, this_kind, Translation, TranslateError, unsupported, max_precedence,
  multiplicative_precedence, additive_precedence, is_precedence, comparison_precedence,
  not_precedence, and_precedence, or_precedence,
}
use fulfillment_service.Filter.Strings.{decimal, translate_text, needs_escape}

-- `if tr.precedence < resultPrecedence { "(" + tr.sql + ")" } else { tr.sql }`
abbrev pub wrap : {M : Type 0} → ℕ → Translation M → List ℕ
wrap p tr = if ltb tr.precedence p then b'(' ∷ (tr.sql ++ b')' ∷ []) else tr.sql

-- `'…'`, or `e'…'` if the text has escape sequences.
abbrev pub quote : Bool → List ℕ → List ℕ
quote true text = b'e' ∷ 39 ∷ (text ++ 39 ∷ [])
quote false text = 39 ∷ (text ++ 39 ∷ [])

abbrev pub is_null : Kind → Bool
is_null null_kind = true
is_null _ = false

module _ {M : Type 0} where
  abbrev pub plain : List ℕ → ℕ → Kind → Translation M
  plain sql precedence kind = record {
    sql = sql;
    precedence = precedence;
    kind = kind;
    desc = none;
  }

  -- The end of `translateBinary`, once operator, precedence and kind are chosen.
  unfoldable pub infix_sql : List ℕ → ℕ → Kind → Translation M → Translation M → Translation M
  infix_sql op p kind left right =
      plain (wrap p left ++ (b' ' ∷ (op ++ b' ' ∷ wrap p right))) p kind

  -- `==` and `!=`: a null goes to the right, and turns the operator into `is` or `is not`.
  unfoldable pub equality : List ℕ → List ℕ → Translation M → Translation M → Translation M
  unfolding infix_sql
  equality null_op op left right =
      let (l, r) = if is_null left.kind then (right, left) else (left, right) in
      if is_null r.kind
      then infix_sql null_op is_precedence boolean_kind l r
      else infix_sql op comparison_precedence boolean_kind l r

  -- The switch of `translateBinary`, on the translated operands.
  unfoldable pub binary :
      Function → Translation M → Translation M → Result TranslateError (Translation M)
  unfolding infix_sql equality
  binary add l r = ok (infix_sql (codes "+") additive_precedence l.kind l r)
  binary subtract l r = ok (infix_sql (codes "-") additive_precedence l.kind l r)
  binary multiply l r = ok (infix_sql (codes "*") multiplicative_precedence l.kind l r)
  binary divide l r = ok (infix_sql (codes "/") multiplicative_precedence l.kind l r)
  binary modulo l r = ok (infix_sql (codes "%") multiplicative_precedence l.kind l r)
  binary equals l r = ok (equality (codes "is") (codes "=") l r)
  binary not_equals l r = ok (equality (codes "is not") (codes "!=") l r)
  binary greater l r = ok (infix_sql (codes ">") comparison_precedence boolean_kind l r)
  binary greater_equals l r = ok (infix_sql (codes ">=") comparison_precedence boolean_kind l r)
  binary less l r = ok (infix_sql (codes "<") comparison_precedence boolean_kind l r)
  binary less_equals l r = ok (infix_sql (codes "<=") comparison_precedence boolean_kind l r)
  binary logical_and l r = ok (infix_sql (codes "and") and_precedence boolean_kind l r)
  binary logical_or l r = ok (infix_sql (codes "or") or_precedence boolean_kind l r)
  binary _ l r = err unsupported

  -- `translateNot`, on the translated operand.
  unfoldable pub negation : Translation M → Translation M
  negation v = plain (codes "not " ++ wrap not_precedence v) not_precedence boolean_kind

  -- `translateIdent`
  unfoldable pub translate_ident : String → Result TranslateError (Translation M)
  translate_ident name =
      if str_eq name "this"
      then ok (plain [] max_precedence this_kind)
      else if str_eq name "now"
      then ok (plain (codes "now()") max_precedence time_kind)
      else err unsupported

  -- `translateLiteral`
  unfoldable pub translate_literal : Literal → Result TranslateError (Translation M)
  unfolding decimal translate_text needs_escape
  translate_literal null_literal = ok (plain (codes "null") max_precedence null_kind)
  translate_literal (bool_literal b) =
      ok (plain (if b then codes "true" else codes "false") max_precedence boolean_kind)
  translate_literal (int_literal i) = ok (plain (decimal i) max_precedence numeric_kind)
  translate_literal (string_literal text) =
      ok (plain (quote (needs_escape [] text) (translate_text [] text)) max_precedence string_kind)
  translate_literal other_literal = err unsupported
