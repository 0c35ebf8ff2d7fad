-- ===== src/Masks/Tests.antt =====
-- Paths on a host.
use fulfillment_service.Common.{[], ◌∷◌, some, none, String, ok, err, ◌≡◌, refl}
use fulfillment_service.Common.Int.{negsuc}
use fulfillment_service.Api.Message.{Value, absent, scalar, message, find_field, set_field}
use fulfillment_service.Api.Sample.{
  name_field, labels_field, status_field, state_field, host, status_of, new,
}
use fulfillment_service.Servers.MapperTypes.{AreTyped, IsMessage}
use fulfillment_service.Masks.Path.{
  field_step, map_key, PathStep, panic, get_steps, set_steps, clear_steps,
}
use fulfillment_service.Masks.Compiler.{compile, compile_segments, split, atoi}
use fulfillment_service.Masks.Reading.{get_steps-set_steps}
use fulfillment_service.Masks.Clearing.{get_steps-clear_steps}
use fulfillment_service.Masks.Got.{IsGot}
use fulfillment_service.Masks.Sound.{compile-IsGot}

abbrev zero_of : String → String
zero_of kind = "0"

abbrev status_step : PathStep
status_step = record { kind = field_step; field = status_field }

abbrev state_step : PathStep
state_step = record { kind = field_step; field = state_field }

abbrev rack_step : PathStep
rack_step = record { kind = map_key "rack"; field = labels_field }

abbrev before : Value
before = message (host (scalar "a") absent absent)

abbrev after : Value
after = message (host (scalar "a") absent (message (status_of (scalar "2"))))

abbrev cleared : Value
cleared = message (host (scalar "a") absent (message (status_of absent)))

splits : split " status . state. " ≡ "status" ∷ "state" ∷ []
unfolding split
splits = refl

compiles : compile new "Host" "status.state" ≡ ok (status_step ∷ state_step ∷ [])
unfolding compile_segments split find_field
compiles = refl

compiles_key : compile new "Host" "labels.rack" ≡ ok (rack_step ∷ [])
unfolding compile_segments split find_field
compiles_key = refl

parses : atoi "-12" ≡ some (negsuc 11)
parses = refl

sets : set_steps new zero_of (status_step ∷ state_step ∷ []) (scalar "2") before ≡ ok after
unfolding set_steps find_field set_field
sets = refl

-- A field of a text has no fields.
panics :
    get_steps (record { kind = field_step; field = name_field } ∷ state_step ∷ []) before
    ≡ err panic
unfolding get_steps find_field
panics = refl

get_steps-set_steps_example :
    get_steps (status_step ∷ state_step ∷ []) after ≡ ok (some (scalar "2"))
unfolding set_steps find_field set_field
get_steps-set_steps_example =
    get_steps-set_steps new zero_of status_step (state_step ∷ []) (scalar "2") before after refl
      refl

get_steps-clear_steps_example : get_steps (status_step ∷ state_step ∷ []) cleared ≡ ok none
unfolding clear_steps find_field set_field
get_steps-clear_steps_example =
    get_steps-clear_steps new zero_of status_step (state_step ∷ []) after cleared tt refl

after_IsMessage : IsMessage new "Host" (host (scalar "a") absent (message (status_of (scalar "2"))))
unfolding AreTyped
after_IsMessage = ((refl, (refl, (refl, tt))), (tt, (tt, (((refl, tt), (tt, tt)), tt))))

compile-IsGot_example : IsGot new state_step.kind state_step.field.kind (
    get_steps
      (status_step ∷ state_step ∷ [])
      (message (host (scalar "a") absent (message (status_of (scalar "2"))))))
unfolding compile_segments find_field
compile-IsGot_example =
    compile-IsGot new "Host" ("status" ∷ "state" ∷ []) status_step (state_step ∷ [])
      (host (scalar "a") absent (message (status_of (scalar "2")))) refl (tt, tt, tt)
      after_IsMessage
