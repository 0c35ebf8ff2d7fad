-- ===== src/Masks/Got.antt =====
-- What one step of a path gets, by the kind of its field.
use fulfillment_service.Common.{
  Bool-cases, inl, inr, true, Option, none, some, List, [], ◌∷◌, String, Result, ok, err, ◌≡◌, sym,
  arith, if◌then◌else◌, Option-cases, str_eq,
}
use mathlib.Core.Path.{subst}
use fulfillment_service.Api.Message.{
  ElementKind, plain, message_of, Kind, singular, list_of, map_of, Field, Value, absent, scalar,
  message, items, entries, Fields, no_fields, with_field, Entries, no_entries, with_entry,
  element_of, has, find_entry,
}
use fulfillment_service.Servers.MapperTypes.{
  AreSame, IsList, IsMap, IsScalar, AreTyped, IsValue, IsElement, AreEntries, IsOf,
}
use fulfillment_service.Masks.Path.{
  StepKind, field_step, list_index, map_key, PathStep, Panic, has_text_keys, select_populated,
}
use fulfillment_service.Masks.Typed.{Suits}

pub AreSame_sym : (fs gs : Fields) → AreSame fs gs → AreSame gs fs
AreSame_sym no_fields no_fields same = tt
AreSame_sym no_fields (with_field g w gs) same = absurd same
AreSame_sym (with_field f v fs) no_fields same = absurd same
AreSame_sym (with_field f v fs) (with_field g w gs) same = (sym same.0, AreSame_sym fs gs same.1)

abbrev pub IsMessageKind : ElementKind → Type 0
IsMessageKind (plain kind) = ⊥
IsMessageKind (message_of type) = Unit

-- A step that is no index, and whose key, if it is one, is for a map with texts as keys.
abbrev pub IsTextual : StepKind → Kind → Type 0
IsTextual field_step kind = Unit
IsTextual (list_index i) kind = ⊥
IsTextual (map_key key) kind = has_text_keys kind ≡ true

-- Every step is textual, and every step before another leads to messages.
abbrev pub AreNavigable : PathStep → List PathStep → Type 0
AreNavigable step [] = IsTextual step.kind step.field.kind
AreNavigable step (next ∷ steps) =
    IsTextual step.kind step.field.kind
    × IsMessageKind (element_of step.field.kind)
    × AreNavigable next steps

abbrev pub last_step : PathStep → List PathStep → PathStep
last_step step [] = step
last_step step (next ∷ steps) = last_step next steps

module _ (new : String → Fields) where
  -- A value of the kind that a step leads to.
  abbrev pub IsLedTo : StepKind → Kind → Value → Type 0
  IsLedTo field_step kind v = IsValue new v kind × (has v ≡ true)
  IsLedTo (list_index i) kind v = ⊥
  IsLedTo (map_key key) kind v = IsElement new v (element_of kind)

  -- Nothing, or a value of the kind; not a panic.
  abbrev pub IsGot : StepKind → Kind → Result Panic (Option Value) → Type 0
  IsGot kind field (err e) = ⊥
  IsGot kind field (ok none) = Unit
  IsGot kind field (ok (some v)) = IsLedTo kind field v

  find_entry-IsElement :
      (key : String) (e : ElementKind) (es : Entries) (v : Value)
      → AreEntries new es e
      → find_entry key es ≡ some v
      → IsElement new v e
  unfolding find_entry AreTyped
  find_entry-IsElement key e no_entries v are h = absurd cc
  find_entry-IsElement key e (with_entry k w es) v are h = elim (Bool-cases (str_eq k key)) [
    | inl here ↦
        let same : ◌≡◌ {A = Option Value} (some w) (some v) = ground (arith, here) in
        subst (λ (o : Option Value). elim o [ none ↦ Unit | some x ↦ IsElement new x e ]) same are.0
    | inr there ↦ find_entry-IsElement key e es v are.1 (ground (arith, there))
  ]

  select_field_IsGot :
      (kind : Kind) (v : Value)
      → IsValue new v kind
      → IsGot field_step kind (if has v then ok (some v) else ok none)
  select_field_IsGot kind v is = elim (Bool-cases (has v)) [
    | inl there ↦ rw there (is, there)
    | inr lacks ↦ rw lacks tt
  ]

  entry_IsGot :
      (key : String) (kind : Kind) (es : Entries)
      → AreEntries new es (element_of kind)
      → IsGot (map_key key) kind (ok (find_entry key es))
  entry_IsGot key kind es are = elim (Option-cases (find_entry key es)) [
    | inl missing ↦ rw missing tt
    | inr (v, found) ↦ rw found (find_entry-IsElement key (element_of kind) es v are found)
  ]

  map_not_scalar : (kind : Kind) → IsMap new kind → IsScalar new kind → ⊥
  map_not_scalar (singular e) is other = is
  map_not_scalar (list_of e) is other = is
  map_not_scalar (map_of key e) is other = other

  map_not_message : (kind : Kind) (fs : Fields) → IsMap new kind → IsOf new kind fs → ⊥
  map_not_message (singular e) fs is other = is
  map_not_message (list_of e) fs is other = is
  map_not_message (map_of key e) fs is other = other

  map_not_list : (kind : Kind) → IsMap new kind → IsList new kind → ⊥
  map_not_list (singular e) is other = is
  map_not_list (list_of e) is other = is
  map_not_list (map_of key e) is other = other

  -- One step from a value of its field's kind.
  pub select_IsGot :
      (step : StepKind) (f : Field) (steps : List PathStep) (v : Value)
      → Suits new step f.kind steps
      → IsTextual step f.kind
      → IsValue new v f.kind
      → IsGot step f.kind (select_populated step (f, v))
  unfolding AreTyped
  select_IsGot field_step f steps v suits textual is = select_field_IsGot f.kind v is
  select_IsGot (list_index i) f steps v suits textual is = absurd textual
  select_IsGot (map_key key) f steps absent suits textual is = tt
  select_IsGot (map_key key) f steps (scalar s) suits textual is =
      absurd (map_not_scalar f.kind suits is)
  select_IsGot (map_key key) f steps (message fs) suits textual is =
      absurd (map_not_message f.kind fs suits is.0)
  select_IsGot (map_key key) f steps (items vs) suits textual is =
      absurd (map_not_list f.kind suits is.0)
  select_IsGot (map_key key) f steps (entries es) suits textual is =
      elim (Bool-cases (has (entries es))) [
        | inl there ↦ rw there (rw textual (entry_IsGot key f.kind es is.1))
        | inr lacks ↦ rw lacks tt
      ]
