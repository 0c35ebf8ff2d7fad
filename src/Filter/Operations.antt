-- ===== src/Filter/Operations.antt =====
-- What `translateBinary` of filter_translator.go makes of nulls, and of operators of equal precedence.
use mathlib.Core.List.{append_assoc}
use fulfillment_service.Common.{
  ℕ, ◌≤◌, true, false, ◌≡◌, ap, sym, ◌∙◌, List, ◌∷◌, ◌++◌, codes, arith,
}
use fulfillment_service.Filter.Syntax.{equals, not_equals, Kind, Translation, is_precedence}
use fulfillment_service.Filter.Operators.{wrap, is_null, infix_sql, equality, binary}

module _ {M : Type 0} where
  -- A comparison by == or != of something of another kind with null is translated in one way
  -- whichever side the null is on: with is or is not, and with the null on the right.
  pub binary-null :
      (x null : Translation M)
      → is_null x.kind ≡ false
      → is_null null.kind ≡ true
      → (binary equals null x ≡ binary equals x null)
        × (binary not_equals null x ≡ binary not_equals x null)
        × ((equality (codes "is") (codes "=") x null).sql
            ≡ wrap is_precedence x ++ (codes " is " ++ wrap is_precedence null))
        × ((equality (codes "is not") (codes "!=") x null).sql
            ≡ wrap is_precedence x ++ (codes " is not " ++ wrap is_precedence null))
  unfolding binary equality infix_sql
  binary-null x null h k = (ground arith, ground arith, ground arith, ground arith)

  no_wrap : (p : ℕ) (tr : Translation M) → p ≤ tr.precedence → wrap p tr ≡ tr.sql
  no_wrap p tr h = ground arith

  -- Where no operand has a lower precedence than the operator, two uses of one operator have one text
  -- whichever of them came first in the filter, so a - (b - c) and (a - b) - c are the same SQL.
  pub infix_sql-regrouped :
      (op : List ℕ) (p : ℕ) (k : Kind) (a b c : Translation M)
      → p ≤ a.precedence
      → p ≤ b.precedence
      → p ≤ c.precedence
      → (infix_sql op p k a (infix_sql op p k b c)).sql
        ≡ (infix_sql op p k (infix_sql op p k a b) c).sql
  unfolding infix_sql
  infix_sql-regrouped op p k a b c ha hb hc =
      let outer = no_wrap p (infix_sql op p k b c) (omega arith) in
      let inner = no_wrap p (infix_sql op p k a b) (omega arith) in
      let right : List ℕ = b' ' ∷ (op ++ b' ' ∷ wrap p c) in
      ap (λ t. wrap p a ++ b' ' ∷ (op ++ b' ' ∷ t)) outer
      ∙ ap (λ t. wrap p a ++ b' ' ∷ t) (sym (append_assoc op (b' ' ∷ wrap p b) right))
      ∙ sym (append_assoc (wrap p a) (b' ' ∷ (op ++ b' ' ∷ wrap p b)) right)
      ∙ ap (λ t. t ++ right) (sym inner)
