-- ===== src/Servers/MapperSafe.antt =====
-- The mapper keeps the types of messages, and reflection does not panic.
use fulfillment_service.Common.{
  true, false, Option, none, some, String, Result, ok, err, ◌≡◌, refl, sym, ap, ◌∙◌, arith, str_eq,
  ◌>>=◌, Bool-cases, inl, inr,
}
use mathlib.Core.Path.{subst}
use fulfillment_service.Api.Message.{
  ElementKind, Kind, Field, Value, Fields, no_fields, with_field, Items, no_items, with_item,
  Entries, no_entries, with_entry, find_field, set_field, set_entry, append_item,
}
use fulfillment_service.Servers.Mapper.{
  GenericMapper, MapperError, missing_field, mismatch, fits, Target, skipped, missing, onto,
  where_fits, find_target,
}
use fulfillment_service.Servers.MapperTypes.{
  IsSafe, AreSame, AreTyped, IsValue, IsElement, AreItems, AreEntries,
}

pub AreSame_refl : (fs : Fields) → AreSame fs fs
AreSame_refl no_fields = tt
AreSame_refl (with_field f v fs) = (refl, AreSame_refl fs)

-- Setting a field keeps the fields.
pub set_field-AreSame :
    (key : String) (v : Value) (fs gs : Fields) → AreSame fs gs → AreSame (set_field key v fs) gs
unfolding set_field
set_field-AreSame key v no_fields gs same = same
set_field-AreSame key v (with_field f w fs) no_fields same = absurd same
set_field-AreSame key v (with_field f w fs) (with_field g x gs) same =
    elim (Bool-cases (str_eq f.name key)) [
      | inl here ↦ rw here same
      | inr there ↦ rw there (same.0, set_field-AreSame key v fs gs same.1)
    ]

pub find_field-AreSame :
    (key : String) (fs gs : Fields) (f : Field) (v : Value)
    → AreSame fs gs
    → find_field key fs ≡ some (f, v)
    → (w : Value) × (find_field key gs ≡ some (f, w))
unfolding find_field
find_field-AreSame key no_fields gs f v same h = absurd cc
find_field-AreSame key (with_field f' w fs) no_fields f v same h = absurd same
find_field-AreSame key (with_field f' w fs) (with_field g x gs) f v same h =
    elim (Bool-cases (str_eq f'.name key)) [
      | inl here ↦ (x, ground (arith, here, same.0))
      | inr there ↦
          let there' : str_eq g.name key ≡ false =
            ap (λ (k : Field). str_eq k.name key) (sym same.0) ∙ there in
          let (y, found) = find_field-AreSame key fs gs f v same.1 (ground (arith, there)) in
          (y, ground (arith, there', found))
    ]

pub find_target_onto :
    (mapper : GenericMapper) (f g : Field) (w : Value) (target : Fields)
    → find_target mapper f target ≡ onto g w
    → find_field f.name target ≡ some (g, w)
unfolding find_target
find_target_onto mapper f g w target h = ground arith

module _ (new : String → Fields) where
  pub find_field-IsValue :
      (key : String) (fs : Fields) (f : Field) (v : Value)
      → AreTyped new fs
      → find_field key fs ≡ some (f, v)
      → IsValue new v f.kind
  unfolding find_field AreTyped
  find_field-IsValue key no_fields f v typed h = absurd cc
  find_field-IsValue key (with_field g w fs) f v typed h = elim (Bool-cases (str_eq g.name key)) [
    | inl here ↦
        let is : some (g, w) ≡ some (f, v) = ground (arith, here) in
        subst
          (λ (p : Option (Field × Value)). elim p [
            | none ↦ Unit
            | some q ↦ IsValue new q.1 q.0.kind
          ])
          is typed.0
    | inr there ↦ find_field-IsValue key fs f v typed.1 (ground (arith, there))
  ]

  pub set_field-AreTyped :
      (key : String) (fs : Fields) (f : Field) (v w : Value)
      → AreTyped new fs
      → find_field key fs ≡ some (f, v)
      → IsValue new w f.kind
      → AreTyped new (set_field key w fs)
  unfolding find_field set_field AreTyped
  set_field-AreTyped key no_fields f v w typed h is = absurd cc
  set_field-AreTyped key (with_field g x fs) f v w typed h is =
      elim (Bool-cases (str_eq g.name key)) [
        | inl here ↦
            let same : ◌≡◌ {A = Option (Field × Value)} (some (g, x)) (some (f, v)) =
              ground (arith, here) in
            let kinds : f.kind ≡ g.kind = ground (arith, same) in
            rw here (subst (IsValue new w) kinds is, typed.1)
        | inr there ↦
            rw there (typed.0, set_field-AreTyped key fs f v w typed.1 (ground (arith, there)) is)
      ]

  pub AreItems-append_item :
      (vs : Items) (v : Value) (e : ElementKind)
      → AreItems new vs e
      → IsElement new v e
      → AreItems new (append_item vs v) e
  unfolding append_item AreTyped
  AreItems-append_item no_items v e typed is = (is, tt)
  AreItems-append_item (with_item w vs) v e typed is =
      (typed.0, AreItems-append_item vs v e typed.1 is)

  pub AreEntries-set_entry :
      (es : Entries) (key : String) (v : Value) (e : ElementKind)
      → AreEntries new es e
      → IsElement new v e
      → AreEntries new (set_entry key v es) e
  unfolding set_entry AreTyped
  AreEntries-set_entry no_entries key v e typed is = (is, tt)
  AreEntries-set_entry (with_entry k w es) key v e typed is = elim (Bool-cases (str_eq k key)) [
    | inl here ↦ rw here (is, typed.1)
    | inr there ↦ rw there (typed.0, AreEntries-set_entry es key v e typed.1 is)
  ]

pub Target-cases :
    {C : Type 0} (t : Target)
    → (t ≡ skipped → C)
    → (t ≡ missing → C)
    → ((g : Field) (w : Value) → t ≡ onto g w → C)
    → C
Target-cases skipped s m o = s refl
Target-cases missing s m o = m refl
Target-cases (onto g w) s m o = o g w refl

module _ {A : Type 0} (P : A → Type 0) where
  pub bind_IsSafe :
      {B : Type 0} (Q : B → Type 0) (r : Result MapperError A) (f : A → Result MapperError B)
      → IsSafe P r
      → ((a : A) → P a → IsSafe Q (f a))
      → IsSafe Q (r >>= f)
  bind_IsSafe Q (ok a) f h k = k a h
  bind_IsSafe Q (err (missing_field key)) f h k = tt
  bind_IsSafe Q (err mismatch) f h k = absurd h

module _ (P : Value → Type 0) where
  pub where_fits-IsSafe :
      (from to : Kind) (r : Result MapperError Value)
      → fits from to ≡ true
      → IsSafe P r
      → IsSafe P (where_fits from to r)
  where_fits-IsSafe from to r fitted h = rw fitted h
