-- ===== src/Masks/Sound.antt =====
-- What a compiled path gets from a message of its type.
use fulfillment_service.Common.{
  true, Option, none, some, List, [], ◌∷◌, String, Result, ok, err, ◌≡◌, refl, sym, ap, arith,
  ◌>>=◌,
}
use mathlib.Core.Path.{subst}
use fulfillment_service.Api.Message.{
  ElementKind, plain, message_of, Kind, singular, list_of, map_of, Value, absent, scalar, message,
  items, entries, Fields, element_of, has,
}
use fulfillment_service.Servers.MapperTypes.{AreTyped, IsValue, IsElement, IsMessage}
use fulfillment_service.Servers.MapperSafe.{find_field-AreSame, find_field-IsValue}
use fulfillment_service.Masks.Path.{
  StepKind, field_step, list_index, map_key, PathStep, Panic, or_panic, select_populated,
  continue_with, get_steps,
}
use fulfillment_service.Masks.Compiler.{next_type, compile_segments}
use fulfillment_service.Masks.Typed.{Suits, IsPath, IsSingular, compile_segments-IsPath}
use fulfillment_service.Masks.Got.{
  AreSame_sym, IsMessageKind, AreNavigable, last_step, IsLedTo, IsGot, select_IsGot,
}

module _ (new : String → Fields) where
  element_IsMessage :
      (e : ElementKind) (type : String) (v : Value)
      → IsMessageKind e
      → IsElement new v e
      → (fs : Fields) × (v ≡ message fs) × IsMessage new (next_type e type) fs
  unfolding AreTyped
  element_IsMessage (plain kind) type v leads is = absurd leads
  element_IsMessage (message_of other) type absent leads is = absurd is
  element_IsMessage (message_of other) type (scalar s) leads is = absurd is
  element_IsMessage (message_of other) type (message fs) leads is = (fs, refl, is)
  element_IsMessage (message_of other) type (items vs) leads is = absurd is
  element_IsMessage (message_of other) type (entries es) leads is = absurd is

  value_IsMessage :
      (kind : Kind) (type : String) (v : Value)
      → IsSingular new kind
      → IsMessageKind (element_of kind)
      → IsValue new v kind
      → has v ≡ true
      → (fs : Fields) × (v ≡ message fs) × IsMessage new (next_type (element_of kind) type) fs
  unfolding AreTyped
  value_IsMessage (singular (plain k)) type v single leads is there = absurd leads
  value_IsMessage (singular (message_of other)) type absent single leads is there =
      absurd (ground (arith, there))
  value_IsMessage (singular (message_of other)) type (scalar s) single leads is there = absurd is
  value_IsMessage (singular (message_of other)) type (message fs) single leads is there =
      (fs, refl, is)
  value_IsMessage (singular (message_of other)) type (items vs) single leads is there = absurd is.0
  value_IsMessage (singular (message_of other)) type (entries es) single leads is there =
      absurd is.0
  value_IsMessage (list_of e) type v single leads is there = absurd single
  value_IsMessage (map_of key e) type v single leads is there = absurd single

  -- Where another step follows, what a step leads to is a message of the type that it is looked up in.
  led_IsMessage :
      (step : StepKind) (kind : Kind) (next : PathStep) (steps : List PathStep) (type : String)
      (v : Value)
      → Suits new step kind (next ∷ steps)
      → IsMessageKind (element_of kind)
      → IsLedTo new step kind v
      → (fs : Fields) × (v ≡ message fs) × IsMessage new (next_type (element_of kind) type) fs
  led_IsMessage field_step kind next steps type v suits leads is =
      value_IsMessage kind type v suits leads is.0 is.1
  led_IsMessage (list_index i) kind next steps type v suits leads is = absurd is
  led_IsMessage (map_key key) kind next steps type v suits leads is =
      element_IsMessage (element_of kind) type v leads is

  bind_IsGot :
      (kind kind' : StepKind) (field field' : Kind) (r : Result Panic (Option Value))
      (f : Value → Result Panic (Option Value))
      → IsGot new kind field r
      → ((v : Value) → IsLedTo new kind field v → IsGot new kind' field' (f v))
      → IsGot new kind' field' (r >>= continue_with f)
  bind_IsGot kind kind' field field' (ok none) f h k = tt
  bind_IsGot kind kind' field field' (ok (some v)) f h k = k v h
  bind_IsGot kind kind' field field' (err e) f h k = absurd h

  -- The value of the field of a step, and the rest of the path from what the step selects.
  first_step :
      (type : String) (step : PathStep) (steps : List PathStep) (fs : Fields)
      → IsPath new type (step ∷ steps)
      → IsMessage new type fs
      → (v : Value) × IsValue new v step.field.kind
        × (get_steps (step ∷ steps) (message fs)
            ≡ (select_populated step.kind (step.field, v) >>= continue_with (get_steps steps)))
  unfolding get_steps
  first_step type step steps fs path is =
      let (v, found) =
        find_field-AreSame step.field.name (new type) fs step.field path.0.0
          (AreSame_sym fs (new type) is.0) path.0.1 in
      (
        v,
        find_field-IsValue new step.field.name fs step.field v is.1 found,
        ap (λ o. or_panic o >>= select_populated step.kind >>= continue_with (get_steps steps))
            found,
      )

  get_steps-IsGot :
      (type : String) (step : PathStep) (steps : List PathStep) (fs : Fields)
      → IsPath new type (step ∷ steps)
      → AreNavigable step steps
      → IsMessage new type fs
      → IsGot new
          (last_step step steps).kind
          (last_step step steps).field.kind
          (get_steps (step ∷ steps) (message fs))
  unfolding get_steps
  get_steps-IsGot type step [] fs path textual is =
      let (v, typed, runs) = first_step type step [] fs path is in
      subst (IsGot new step.kind step.field.kind) (sym runs) (
        bind_IsGot step.kind step.kind step.field.kind step.field.kind _ (get_steps [])
          (select_IsGot new step.kind step.field [] v path.1 textual typed) (λ x led. led))
  get_steps-IsGot type step (next ∷ steps) fs path navigable is =
      let (v, typed, runs) = first_step type step (next ∷ steps) fs path is in
      let last : PathStep = last_step next steps in
      subst (IsGot new last.kind last.field.kind) (sym runs) (
        bind_IsGot step.kind last.kind step.field.kind last.field.kind _ (get_steps (next ∷ steps))
          (select_IsGot new step.kind step.field (next ∷ steps) v path.1 navigable.0 typed)
          (λ x led.
            let (gs, message_is, typed') =
              led_IsMessage step.kind step.field.kind next steps type x path.1 navigable.1 led in
            subst (λ y. IsGot new last.kind last.field.kind (get_steps (next ∷ steps) y))
              (sym message_is)
              (get_steps-IsGot (next_type (element_of step.field.kind) type) next steps gs path.2
                navigable.2 typed')))

  -- A path that compiles for a type, without indices and with every step before the last leading to
  -- messages, and with keys only of maps that have texts as keys, never makes reflection panic when
  -- it is got from a message of the type, and what it gets has the kind of its last step.
  pub compile-IsGot :
      (type : String) (segments : List String) (step : PathStep) (steps : List PathStep)
      (fs : Fields)
      → compile_segments new type segments ≡ ok (step ∷ steps)
      → AreNavigable step steps
      → IsMessage new type fs
      → IsGot new
          (last_step step steps).kind
          (last_step step steps).field.kind
          (get_steps (step ∷ steps) (message fs))
  compile-IsGot type segments step steps fs compiled navigable is =
      get_steps-IsGot type step steps fs
        (compile_segments-IsPath new type segments (step ∷ steps) compiled) navigable is
