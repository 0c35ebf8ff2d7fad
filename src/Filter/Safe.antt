-- ===== src/Filter/Safe.antt =====
-- What filter_translator.go makes of any filter is closed SQL text: it can't end the clause in which it
-- stands, nor hide or change the rest of the statement.
use fulfillment_service.Common.{ℕ, ◌≡◌, refl, List, [], ◌∷◌, ok, err, All, codes, ◌>>=◌}
use mathlib.Core.Path.{subst}
use fulfillment_service.Filter.Syntax.{
  Function, add, subtract, multiply, divide, modulo, equals, not_equals, greater, greater_equals,
  less, less_equals, logical_and, logical_or, logical_not, in_operator, contains, starts_with,
  ends_with, other_function, null_literal, bool_literal, int_literal, string_literal, other_literal,
  Expr, Exprs, call, ident, literal, select, list, nil, cons, unspecified, other_expr, Descriptors,
  Translation, unsupported, in_precedence,
}
use fulfillment_service.Filter.Operators.{wrap}
use fulfillment_service.Filter.Translate.{
  Translated, to_like, binary_call, not_call, in_call, like_call, translate_call, translate,
  translate_all,
}
use fulfillment_service.Filter.Closed.{IsClosed}
use fulfillment_service.Filter.Literals.{literal-IsClosed, IsNeutral}
use fulfillment_service.Filter.Selected.{IsName, IsSafe, select_field-IsSafe}
use fulfillment_service.Filter.Operands.{
  wrap-IsClosed, binary-IsSafe, negation-IsClosed, translate_literal-IsSafe, translate_ident-IsSafe,
  after_space,
}
use fulfillment_service.Filter.Members.{bind-IsSafe, translate_in-IsSafe}

percent-IsNeutral : IsNeutral (codes "%")
percent-IsNeutral = ((λ n. refl), (λ n. refl))

nil-IsNeutral : IsNeutral []
nil-IsNeutral = ((λ n. refl), (λ n. refl))

-- Arguments with their translations, which are safe.
abbrev AreArguments : {M : Type 0} → List (Expr × Translated M) → Type 0
AreArguments args = All (λ arg. IsSafe arg.1) args

module _ {M : Type 0} where
  unsupported-IsSafe :
      (target : Translated M) → IsSafe target → IsSafe {M = M} (target >>= λ t. err unsupported)
  unsupported-IsSafe target c = bind-IsSafe target _ c (λ t d. tt)

  to_like-IsSafe :
      (target : Translated M) (e : Expr) (prefix suffix : List ℕ)
      → IsSafe target
      → IsNeutral prefix
      → IsNeutral suffix
      → IsSafe (to_like target e prefix suffix)
  unfolding to_like
  to_like-IsSafe target (literal (string_literal text)) prefix suffix c p s =
      bind-IsSafe target _ c (λ t d.
        after_space (wrap in_precedence t) (codes "like ") _ (wrap-IsClosed in_precedence t d)
          (λ n. refl) (literal-IsClosed (codes "%_") text prefix suffix refl p s))
  to_like-IsSafe target (literal null_literal) prefix suffix c p s = unsupported-IsSafe target c
  to_like-IsSafe target (literal (bool_literal b)) prefix suffix c p s = unsupported-IsSafe target c
  to_like-IsSafe target (literal (int_literal i)) prefix suffix c p s = unsupported-IsSafe target c
  to_like-IsSafe target (literal other_literal) prefix suffix c p s = unsupported-IsSafe target c
  to_like-IsSafe target (call f t args) prefix suffix c p s = unsupported-IsSafe target c
  to_like-IsSafe target (ident name) prefix suffix c p s = unsupported-IsSafe target c
  to_like-IsSafe target (select e f t) prefix suffix c p s = unsupported-IsSafe target c
  to_like-IsSafe target (list es) prefix suffix c p s = unsupported-IsSafe target c
  to_like-IsSafe target unspecified prefix suffix c p s = unsupported-IsSafe target c
  to_like-IsSafe target other_expr prefix suffix c p s = unsupported-IsSafe target c

  binary_call-IsSafe :
      (f : Function) (args : List (Expr × Translated M))
      → AreArguments args
      → IsSafe (binary_call f args)
  binary_call-IsSafe f [] h = tt
  binary_call-IsSafe f (x ∷ []) h = tt
  binary_call-IsSafe f ((e, l) ∷ (e', r) ∷ []) (cl, (cr, u)) =
      bind-IsSafe l _ cl (λ ltr dl. bind-IsSafe r _ cr (λ rtr dr. binary-IsSafe f ltr rtr dl dr))
  binary_call-IsSafe f (x ∷ y ∷ z ∷ args) h = tt

  not_call-IsSafe : (args : List (Expr × Translated M)) → AreArguments args → IsSafe (not_call args)
  not_call-IsSafe [] h = tt
  not_call-IsSafe ((e, v) ∷ args) h = bind-IsSafe v _ h.0 (λ tr c. negation-IsClosed tr c)

  in_call-IsSafe : (args : List (Expr × Translated M)) → AreArguments args → IsSafe (in_call args)
  in_call-IsSafe [] h = tt
  in_call-IsSafe (x ∷ []) h = tt
  in_call-IsSafe ((e, k) ∷ (values, v) ∷ args) h = translate_in-IsSafe k values v h.0 h.1.0

  like_call-IsSafe :
      (f : Function) (target : Translated M) (args : List (Expr × Translated M))
      (prefix suffix : List ℕ)
      → IsSafe target
      → IsNeutral prefix
      → IsNeutral suffix
      → IsSafe (like_call f target args prefix suffix)
  like_call-IsSafe f target [] prefix suffix c p s = tt
  like_call-IsSafe f target ((e, v) ∷ []) prefix suffix c p s =
      to_like-IsSafe target e prefix suffix c p s
  like_call-IsSafe f target (x ∷ y ∷ args) prefix suffix c p s = tt

  translate_call-IsSafe :
      (f : Function) (target : Translated M) (args : List (Expr × Translated M))
      → IsSafe target
      → AreArguments args
      → IsSafe (translate_call f target args)
  unfolding translate_call
  translate_call-IsSafe add target args c h = binary_call-IsSafe add args h
  translate_call-IsSafe subtract target args c h = binary_call-IsSafe subtract args h
  translate_call-IsSafe multiply target args c h = binary_call-IsSafe multiply args h
  translate_call-IsSafe divide target args c h = binary_call-IsSafe divide args h
  translate_call-IsSafe modulo target args c h = binary_call-IsSafe modulo args h
  translate_call-IsSafe equals target args c h = binary_call-IsSafe equals args h
  translate_call-IsSafe not_equals target args c h = binary_call-IsSafe not_equals args h
  translate_call-IsSafe greater target args c h = binary_call-IsSafe greater args h
  translate_call-IsSafe greater_equals target args c h = binary_call-IsSafe greater_equals args h
  translate_call-IsSafe less target args c h = binary_call-IsSafe less args h
  translate_call-IsSafe less_equals target args c h = binary_call-IsSafe less_equals args h
  translate_call-IsSafe logical_and target args c h = binary_call-IsSafe logical_and args h
  translate_call-IsSafe logical_or target args c h = binary_call-IsSafe logical_or args h
  translate_call-IsSafe logical_not target args c h = not_call-IsSafe args h
  translate_call-IsSafe in_operator target args c h = in_call-IsSafe args h
  translate_call-IsSafe contains target args c h =
      like_call-IsSafe contains target args (codes "%") (codes "%") c percent-IsNeutral
        percent-IsNeutral
  translate_call-IsSafe starts_with target args c h =
      like_call-IsSafe starts_with target args [] (codes "%") c nil-IsNeutral percent-IsNeutral
  translate_call-IsSafe ends_with target args c h =
      like_call-IsSafe ends_with target args (codes "%") [] c percent-IsNeutral nil-IsNeutral
  translate_call-IsSafe (other_function name) target args c h = tt

-- The fields that an expression selects have names of letters, digits and underscores.
unfoldable mutual
  pub IsPlain : Expr → Type 0
  IsPlain (call f target args) = IsPlain target × ArePlain args
  IsPlain (ident name) = Unit
  IsPlain (literal l) = Unit
  IsPlain (select operand field test_only) = IsPlain operand × IsName field
  IsPlain (list es) = Unit
  IsPlain unspecified = Unit
  IsPlain other_expr = Unit

  pub ArePlain : Exprs → Type 0
  ArePlain nil = Unit
  ArePlain (cons e es) = IsPlain e × ArePlain es

module _ {M : Type 0} (ds : Descriptors M) where
  mutual
    unfolding translate translate_all IsPlain ArePlain

    translate-IsSafe : (e : Expr) → IsPlain e → IsSafe (translate ds e)
    translate-IsSafe (call f target args) h =
        translate_call-IsSafe f (translate ds target) (translate_all ds args)
          (translate-IsSafe target h.0) (translate_all-AreArguments args h.1)
    translate-IsSafe (ident name) h = translate_ident-IsSafe M name
    translate-IsSafe (literal l) h = translate_literal-IsSafe M l
    translate-IsSafe (select operand field test_only) h =
        bind-IsSafe (translate ds operand) _ (translate-IsSafe operand h.0)
          (λ tr c. select_field-IsSafe ds tr field test_only c h.1)
    translate-IsSafe (list es) h = tt
    translate-IsSafe unspecified h = tt
    translate-IsSafe other_expr h = tt

    translate_all-AreArguments : (es : Exprs) → ArePlain es → AreArguments (translate_all ds es)
    translate_all-AreArguments nil h = tt
    translate_all-AreArguments (cons e es) h =
        (translate-IsSafe e h.0, translate_all-AreArguments es h.1)

  -- The SQL text of any filter that is translated is closed, if the names of the fields that it
  -- selects consist of letters, digits and underscores: from a token of its own and at any depth of
  -- parentheses, it reads to the same depth and outside of any literal, and it holds no semicolon,
  -- comment, quoted identifier, dollar quote or unmatched parenthesis outside of a literal, whatever
  -- the texts of the literals.
  pub translate-IsClosed :
      (e : Expr) (tr : Translation M) → IsPlain e → translate ds e ≡ ok tr → IsClosed tr.sql
  translate-IsClosed e tr h good = subst IsSafe good (translate-IsSafe e h)
