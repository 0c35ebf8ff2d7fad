-- ===== src/Filter/Members.antt =====
-- The texts that `translateIn` of filter_translator.go builds are closed.
use fulfillment_service.Common.{
  ℕ, suc, ◌≡◌, refl, ◌∙◌, some, List, [], ◌∷◌, ◌++◌, Result, ok, err, All, codes, ◌>>=◌,
}
use fulfillment_service.Filter.Syntax.{
  Expr, Exprs, call, ident, literal, select, list, nil, cons, unspecified, other_expr, null_kind,
  Translation, TranslateError, in_precedence,
}
use fulfillment_service.Filter.Operators.{plain, wrap, translate_literal}
use fulfillment_service.Filter.Translate.{
  Translated, in_values, comma_separated, in_list, in_field, translate_in,
}
use fulfillment_service.Filter.Lexer.{outside, scan, scan_through}
use fulfillment_service.Filter.Closed.{
  End, at_outside, at_word, at_standard_end, at_escape_end, end_state, IsClosed, close_paren,
  infix-IsClosed, nil-IsClosed,
}
use fulfillment_service.Filter.Selected.{IsSafe}
use fulfillment_service.Filter.Operands.{wrap-IsClosed, translate_literal-IsSafe}

-- The texts of values that all succeed are closed.
abbrev AreSafe : Result TranslateError (List (List ℕ)) → Type 0
AreSafe (ok texts) = All IsClosed texts
AreSafe (err e) = Unit

value-AreSafe :
    (v : Translated (Unit {0})) (rest : Result TranslateError (List (List ℕ)))
    → IsSafe v
    → AreSafe rest
    → AreSafe (v >>= λ tr. rest >>= λ texts. ok (tr.sql ∷ texts))
value-AreSafe (ok tr) (ok texts) c all = (c, all)
value-AreSafe (ok tr) (err e) c all = tt
value-AreSafe (err e) rest c all = tt

in_values-AreSafe : (i : ℕ) (es : Exprs) → AreSafe (in_values i es)
unfolding in_values
in_values-AreSafe i nil = tt
in_values-AreSafe i (cons (literal l) es) =
    value-AreSafe (translate_literal l) (in_values (suc i) es)
      (translate_literal-IsSafe (Unit {0}) l) (in_values-AreSafe (suc i) es)
in_values-AreSafe i (cons (call f t args) es) = tt
in_values-AreSafe i (cons (ident name) es) = tt
in_values-AreSafe i (cons (select e f t) es) = tt
in_values-AreSafe i (cons (list vs) es) = tt
in_values-AreSafe i (cons unspecified es) = tt
in_values-AreSafe i (cons other_expr es) = tt

comma : (e : End) (n : ℕ) → scan (end_state e n) (codes ", ") ≡ some (outside n)
comma at_outside n = refl
comma at_word n = refl
comma at_standard_end n = refl
comma at_escape_end n = refl

comma_separated-IsClosed :
    (texts : List (List ℕ)) → All IsClosed texts → IsClosed (comma_separated texts)
unfolding comma_separated
comma_separated-IsClosed [] h = nil-IsClosed
comma_separated-IsClosed (t ∷ []) h = h.0
comma_separated-IsClosed (t ∷ u ∷ texts) h =
    infix-IsClosed t (codes ", ") (comma_separated (u ∷ texts)) h.0 comma
      (comma_separated-IsClosed (u ∷ texts) h.1)

-- Closed text, text that begins with a space and opens a bracket, and closed text with its end.
bracketed :
    (a opening b close : List ℕ) (d : ℕ → ℕ)
    → IsClosed a
    → ((n : ℕ) → scan (outside n) opening ≡ some (outside (d n)))
    → IsClosed b
    → ((e : End) (n : ℕ) → scan (end_state e (d n)) close ≡ some (outside n))
    → IsClosed (a ++ ((b' ' ∷ opening) ++ (b ++ close)))
bracketed a opening b close d ca opens cb closes n =
    let (ea, ha) = ca n in
    let (eb, hb) = cb (d n) in
    (
      at_outside,
      scan_through (outside n) (end_state ea n) a ((b' ' ∷ opening) ++ (b ++ close)) ha
          ∙ scan_through (end_state ea n) (outside (d n)) (b' ' ∷ opening) (b ++ close) (lead ea)
          ∙ scan_through (outside (d n)) (end_state eb (d n)) b close hb
          ∙ closes eb n,
    )
  where
    lead : (e : End) → scan (end_state e n) (b' ' ∷ opening) ≡ some (outside (d n))
    lead at_outside = opens n
    lead at_word = opens n
    lead at_standard_end = opens n
    lead at_escape_end = opens n

close_bracket : (e : End) (n : ℕ) → scan (end_state e n) (codes "]") ≡ some (outside n)
close_bracket at_outside n = refl
close_bracket at_word n = refl
close_bracket at_standard_end n = refl
close_bracket at_escape_end n = refl

module _ {M : Type 0} where
  in_texts-IsSafe :
      (key : Translation M) (texts : Result TranslateError (List (List ℕ)))
      → IsClosed key.sql
      → AreSafe texts
      → IsSafe {M = M} (
          texts >>= λ ts. ok (
            plain
              (wrap in_precedence key ++ (codes " in (" ++ (comma_separated ts ++ b')' ∷ [])))
              in_precedence
              null_kind))
  in_texts-IsSafe key (ok ts) c all =
      bracketed (wrap in_precedence key) (codes "in (") (comma_separated ts) (codes ")") suc
        (wrap-IsClosed in_precedence key c) (λ n. refl) (comma_separated-IsClosed ts all)
        close_paren
  in_texts-IsSafe key (err e) c all = tt

  in_list-IsSafe : (key : Translation M) (es : Exprs) → IsClosed key.sql → IsSafe (in_list key es)
  unfolding in_list
  in_list-IsSafe key es c = in_texts-IsSafe key (in_values 0 es) c (in_values-AreSafe 0 es)

  in_field-IsSafe :
      (key value : Translation M)
      → IsClosed key.sql
      → IsClosed value.sql
      → IsSafe (in_field key value)
  unfolding in_field
  in_field-IsSafe key value ck cv =
      bracketed value.sql (codes "@> array[") key.sql (codes "]") (λ n. n) cv (λ n. refl) ck
        close_bracket

  pub bind-IsSafe :
      (v : Translated M) (f : Translation M → Translated M)
      → IsSafe v
      → ((tr : Translation M) → IsClosed tr.sql → IsSafe (f tr))
      → IsSafe (v >>= f)
  bind-IsSafe (ok tr) f c h = h tr c
  bind-IsSafe (err e) f c h = tt

  pub translate_in-IsSafe :
      (key : Translated M) (e : Expr) (value : Translated M)
      → IsSafe key
      → IsSafe value
      → IsSafe (translate_in key e value)
  unfolding translate_in
  translate_in-IsSafe key (list es) value ck cv =
      bind-IsSafe key _ ck (λ k c. in_list-IsSafe k es c)
  translate_in-IsSafe key (select e f t) value ck cv =
      bind-IsSafe key _ ck (λ k c. bind-IsSafe value _ cv (λ v d. in_field-IsSafe k v c d))
  translate_in-IsSafe key (call f t args) value ck cv = tt
  translate_in-IsSafe key (ident name) value ck cv = tt
  translate_in-IsSafe key (literal l) value ck cv = tt
  translate_in-IsSafe key unspecified value ck cv = tt
  translate_in-IsSafe key other_expr value ck cv = tt
