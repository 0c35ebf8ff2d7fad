-- ===== src/Filter/Translate.antt =====
-- filter_translator.go: `translate`, `translateCall`, `translateIn` and `translateToLike`. The functions
-- on calls take the arguments with their translations, so that only `translate` recurs.
use fulfillment_service.Common.{ℕ, suc, List, [], ◌∷◌, ◌++◌, Result, ok, err, codes, ◌>>=◌}
use fulfillment_service.Filter.Syntax.{
  Function, logical_not, in_operator, contains, starts_with, ends_with, other_function,
  string_literal, Expr, Exprs, call, ident, literal, select, list, nil, cons, unspecified,
  other_expr, boolean_kind, null_kind, Descriptors, Translation, TranslateError, unsupported, panic,
  argument_count, not_a_literal, in_precedence,
}
use fulfillment_service.Filter.Strings.{translate_text, needs_escape}
use fulfillment_service.Filter.Operators.{
  wrap, quote, plain, binary, negation, translate_ident, translate_literal,
}
use fulfillment_service.Filter.Fields.{select_field}

-- A translation, or the error that ended it.
abbrev pub Translated : Type 0 → Type 0
Translated M = Result TranslateError (Translation M)

-- The loop of `translateInList` over the values, from the index of the first.
unfoldable pub in_values : ℕ → Exprs → Result TranslateError (List (List ℕ))
unfolding translate_literal
in_values i nil = ok []
in_values i (cons (literal l) es) =
    translate_literal {M = Unit {0}} l >>= λ tr. in_values (suc i) es >>= λ rest. ok (tr.sql ∷ rest)
in_values i (cons _ es) = err (not_a_literal i)

-- The texts, with commas between them.
unfoldable pub comma_separated : List (List ℕ) → List ℕ
comma_separated [] = []
comma_separated (t ∷ []) = t
comma_separated (t ∷ u ∷ ts) = t ++ (codes ", " ++ comma_separated (u ∷ ts))

module _ {M : Type 0} where
  -- `translateInList`: the kind of the result isn't set, so it is the first one, null.
  unfoldable pub in_list : Translation M → Exprs → Translated M
  unfolding in_values comma_separated
  in_list key es = in_values 0 es >>= λ texts. ok (
      plain (wrap in_precedence key ++ (codes " in (" ++ (comma_separated texts ++ b')' ∷ [])))
        in_precedence null_kind)

  -- `translateInField`
  unfoldable pub in_field : Translation M → Translation M → Translated M
  in_field key value =
      ok (
        plain (value.sql ++ (codes " @> array[" ++ (key.sql ++ b']' ∷ []))) in_precedence null_kind)

  -- `translateIn`
  unfoldable pub translate_in : Translated M → Expr → Translated M → Translated M
  unfolding in_list in_field
  translate_in key (list es) value = key >>= λ k. in_list k es
  translate_in key (select e f t) value = key >>= λ k. value >>= λ v. in_field k v
  translate_in key _ value = err unsupported

  -- `translateToLike`, with what it puts around the pattern.
  unfoldable pub to_like : Translated M → Expr → List ℕ → List ℕ → Translated M
  unfolding translate_text needs_escape
  to_like target (literal (string_literal text)) prefix suffix = target >>= λ t. ok (
      plain
        (wrap in_precedence t
          ++ (codes " like "
              ++ quote (needs_escape (codes "%_") text)
                  (prefix ++ (translate_text (codes "%_") text ++ suffix))))
        in_precedence boolean_kind)
  to_like target _ prefix suffix = target >>= λ t. err unsupported

  -- The cases of `translateCall`, by the number of arguments that they want. The arguments come with
  -- their translations.
  abbrev pub binary_call : Function → List (Expr × Translated M) → Translated M
  binary_call f ((e, l) ∷ (e', r) ∷ []) = l >>= λ ltr. r >>= λ rtr. binary f ltr rtr
  binary_call f args = err (argument_count f)

  abbrev pub not_call : List (Expr × Translated M) → Translated M
  not_call ((e, v) ∷ args) = v >>= λ tr. ok (negation tr)
  not_call [] = err panic

  abbrev pub in_call : List (Expr × Translated M) → Translated M
  in_call ((e, k) ∷ (values, v) ∷ args) = translate_in k values v
  in_call args = err panic

  abbrev pub like_call :
      Function → Translated M → List (Expr × Translated M) → List ℕ → List ℕ → Translated M
  like_call f target ((e, v) ∷ []) prefix suffix = to_like target e prefix suffix
  like_call f target args prefix suffix = err (argument_count f)

  -- `translateCall`, on the translated target.
  unfoldable pub translate_call :
      Function → Translated M → List (Expr × Translated M) → Translated M
  unfolding translate_in to_like binary negation
  translate_call logical_not target args = not_call args
  translate_call in_operator target args = in_call args
  translate_call contains target args = like_call contains target args (codes "%") (codes "%")
  translate_call starts_with target args = like_call starts_with target args [] (codes "%")
  translate_call ends_with target args = like_call ends_with target args (codes "%") []
  translate_call (other_function name) target args = err unsupported
  translate_call f target args = binary_call f args

module _ {M : Type 0} (ds : Descriptors M) where
  unfoldable mutual
    unfolding translate_call translate_ident translate_literal select_field

    -- `translate`, with `translateSelectField` on the translated operand.
    pub translate : Expr → Translated M
    translate (call f target args) = translate_call f (translate target) (translate_all args)
    translate (ident name) = translate_ident name
    translate (literal l) = translate_literal l
    translate (select operand field test_only) =
        translate operand >>= λ tr. select_field ds tr field test_only
    translate (list es) = err unsupported
    translate unspecified = err unsupported
    translate other_expr = err unsupported

    pub translate_all : Exprs → List (Expr × Translated M)
    translate_all nil = []
    translate_all (cons e es) = (e, translate e) ∷ translate_all es
