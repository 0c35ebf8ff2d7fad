-- ===== src/Masks/Typed.antt =====
-- Paths that fit a type of messages: those that the compiler makes, and what they get.
use fulfillment_service.Common.{
  Bool-cases, inl, inr, ◌⊎◌, Option, none, some, List, [], ◌∷◌, String, Result, ok, err, ◌≡◌, refl,
  sym, ap, ◌∙◌, arith, str_eq, str_eq_iff_eq, Option-cases,
}
use mathlib.Core.Path.{subst}
use fulfillment_service.Api.Message.{
  Kind, singular, list_of, map_of, Field, Value, Fields, no_fields, with_field, element_of,
  find_field,
}
use fulfillment_service.Servers.MapperTypes.{IsList, IsMap}
use fulfillment_service.Masks.Path.{StepKind, field_step, list_index, map_key, PathStep}
use fulfillment_service.Masks.Compiler.{
  CompileError, next_type, prepend, index_step, compile_field, with_declared, compile_segments,
  atoi,
}

-- A field is found under its own name.
name_is :
    (name : String) (fs : Fields) (f : Field) (v : Value)
    → find_field name fs ≡ some (f, v)
    → f.name ≡ name
unfolding find_field
name_is name no_fields f v h = absurd cc
name_is name (with_field g w fs) f v h = elim (Bool-cases (str_eq g.name name)) [
  | inl here ↦
      let same : ◌≡◌ {A = Option (Field × Value)} (some (g, w)) (some (f, v)) =
        ground (arith, here) in
      let field : g ≡ f =
        ap (λ (o : Option (Field × Value)). elim o [ none ↦ g | some p ↦ p.0 ]) same in
      ap (λ (k : Field). k.name) (sym field) ∙ str_eq_iff_eq g.name name here
  | inr there ↦ name_is name fs f v (ground (arith, there))
]

find_field_named :
    (name : String) (fs : Fields) (f : Field) (v : Value)
    → find_field name fs ≡ some (f, v)
    → find_field f.name fs ≡ some (f, v)
find_field_named name fs f v h = ap (λ k. find_field k fs) (name_is name fs f v h) ∙ h

module _ (new : String → Fields) where
  abbrev pub IsSingular : Kind → Type 0
  IsSingular (singular e) = Unit
  IsSingular _ = ⊥

  -- A step suits the kind of its field, which is singular where another step follows a field.
  abbrev pub Suits : StepKind → Kind → List PathStep → Type 0
  Suits field_step kind [] = Unit
  Suits field_step kind (next ∷ steps) = IsSingular kind
  Suits (list_index i) kind steps = IsList new kind
  Suits (map_key key) kind steps = IsMap new kind

  -- The field of each step is one of the type that the steps before it lead to.
  abbrev pub IsPath : String → List PathStep → Type 0
  IsPath type [] = Unit
  IsPath type (step ∷ steps) =
      ((w : Value) × (find_field step.field.name (new type) ≡ some (step.field, w)))
      × Suits step.kind step.field.kind steps
      × IsPath (next_type (element_of step.field.kind) type) steps

  with_declared_ok :
      (segment : String) (o : Option (Field × Value))
      (f : Field → Result CompileError (List PathStep)) (steps : List PathStep)
      → with_declared segment o f ≡ ok steps
      → (found : Field × Value) × (o ≡ some found) × (f found.0 ≡ ok steps)
  with_declared_ok segment none f steps h = absurd cc
  with_declared_ok segment (some found) f steps h = (found, refl, h)

  prepend_ok :
      (step : PathStep) (r : Result CompileError (List PathStep)) (steps : List PathStep)
      → prepend step r ≡ ok steps
      → (rest : List PathStep) × (r ≡ ok rest) × (step ∷ rest ≡ steps)
  prepend_ok step (ok rest) steps h = (rest, refl, cc)
  prepend_ok step (err e) steps h = absurd cc

  -- The first step that `compile_field` makes, and which of the two rests follows it.
  Made :
      Field
      → Result CompileError (List PathStep)
      → Result CompileError (List PathStep)
      → List PathStep
      → Type 0
  Made f one two steps =
      (kind : StepKind) × (rest : List PathStep) × ((one ≡ ok rest) ⊎ (two ≡ ok rest))
      × Suits kind f.kind rest
      × (record { kind = kind; field = f } ∷ rest ≡ steps)

  compile_field_ok :
      (f : Field) (kind : Kind) (segment : String) (one two : Result CompileError (List PathStep))
      (steps : List PathStep)
      → f.kind ≡ kind
      → compile_field f kind segment one two ≡ ok steps
      → Made f one two steps
  unfolding Made
  compile_field_ok f (singular e) segment one two steps is h =
      let (rest, compiled, made) =
        prepend_ok (record { kind = field_step; field = f }) one steps h in
      (field_step, rest, inl compiled, field_suits rest, made)
    where
      field_suits : (rest : List PathStep) → Suits field_step f.kind rest
      field_suits [] = tt
      field_suits (next ∷ rest) = subst IsSingular (sym is) tt
  compile_field_ok f (list_of e) segment one two steps is h = elim (Option-cases (atoi segment)) [
    | inl invalid ↦ absurd (ground (arith, invalid))
    | inr (i, valid) ↦
        let (rest, compiled, made) =
          prepend_ok (record { kind = list_index i; field = f }) two steps
            (ap (λ o. index_step f segment o two) (sym valid) ∙ h) in
        (list_index i, rest, inr compiled, subst (IsList new) (sym is) tt, made)
  ]
  compile_field_ok f (map_of key e) segment one two steps is h =
      let (rest, compiled, made) =
        prepend_ok (record { kind = map_key segment; field = f }) two steps h in
      (map_key segment, rest, inr compiled, subst (IsMap new) (sym is) tt, made)

  pub compile_segments-IsPath :
      (type : String) (segments : List String) (steps : List PathStep)
      → compile_segments new type segments ≡ ok steps
      → IsPath type steps
  unfolding compile_segments Made
  compile_segments-IsPath type [] steps h =
      subst (λ r. elim r [ ok ss ↦ IsPath type ss | err e ↦ Unit ]) h tt
  compile_segments-IsPath type (s ∷ []) steps h =
      let (found, declared, made) = with_declared_ok s (find_field s (new type)) _ steps h in
      subst (λ r. elim r [ ok ss ↦ IsPath type ss | err e ↦ Unit ]) made
        ((found.1, find_field_named s (new type) found.0 found.1 declared), tt, tt)
  compile_segments-IsPath type (s ∷ t ∷ segments) steps h =
      let (found, declared, h1) = with_declared_ok s (find_field s (new type)) _ steps h in
      let (kind, rest, compiled, suits, made) =
        compile_field_ok found.0 found.0.kind t _ _ steps refl h1 in
      let next : String = next_type (element_of found.0.kind) type in
      subst (IsPath type) made (
        (found.1, find_field_named s (new type) found.0 found.1 declared),
        suits,
        elim compiled [
          | inl one ↦ compile_segments-IsPath next (t ∷ segments) rest one
          | inr two ↦ compile_segments-IsPath next segments rest two
        ],
      )
