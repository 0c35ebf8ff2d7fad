-- ===== src/Servers/MapperTests.antt =====
-- A private host with labels that is copied to a public one, which lacks one of its fields.
use fulfillment_service.Common.{
  Bool-cases, inl, inr, true, false, Option, none, some, [], ◌∷◌, String, ok, err, ◌≡◌, ◌≢◌, refl,
  arith, str_eq,
}
use mathlib.Core.Path.{subst}
use fulfillment_service.Api.Message.{
  Kind, plain, message_of, singular, map_of, Field, Value, absent, scalar, message, entries, Fields,
  Entries, no_entries, with_entry, find_field, set_field, find_entry, set_entry,
}
use fulfillment_service.Api.Sample.{
  name_field, labels_field, status_field, state_field, host, status_of, private_host, new,
}
use fulfillment_service.Servers.Mapper.{
  IgnoredField, MapperBuilder, GenericMapper, missing_field, find_target, build_mapper,
  ignore_fields, copy_message, merge_message, copy_value,
}
use fulfillment_service.Servers.MapperTypes.{IsSafe, AreTyped, IsMessage, Fit, AreReady}
use fulfillment_service.Servers.MapperSound.{copy-IsMessage}
use fulfillment_service.Servers.Copied.{AreDistinct, find_field-copy}
use fulfillment_service.Servers.CopiedMaps.{find_entry-copy, copy-build_mapper}

abbrev lenient : GenericMapper
lenient = record { strict = false; ignored_names = []; ignored_full_names = [] }

abbrev builder : MapperBuilder
builder = record {
  has_logger = true;
  strict = true;
  ignored_fields = IgnoredField.text "spec" ∷ [];
}

abbrev built : GenericMapper
built = record { strict = false; ignored_names = "spec" ∷ []; ignored_full_names = [] }

abbrev labels : String → String → Entries
labels key value = with_entry key (scalar value) no_entries

abbrev source : Fields
source =
    private_host (scalar "one") (scalar "a") (entries (labels "rack" "4"))
      (message (status_of (scalar "2")))

abbrev target : Fields
target = host (scalar "b") (entries (labels "zone" "east")) absent

abbrev mixed : Entries
mixed = with_entry "zone" (scalar "east") (labels "rack" "4")

abbrev result : Fields
result = host (scalar "a") (entries mixed) (message (status_of (scalar "2")))

copied : copy_message lenient new source target ≡ ok result
unfolding copy_message find_field set_field set_entry find_target
copied = refl

-- A field that the source does not have a value for is kept.
merged :
    merge_message lenient new (host absent absent (message (status_of (scalar "2")))) target
    ≡ ok (host (scalar "b") (entries (labels "zone" "east")) (message (status_of (scalar "2"))))
unfolding merge_message copy_message find_field set_field set_entry find_target
merged = refl

-- The types that are mapped to one another.
data Pairs : String → String → Type 0 where
  hosts : Pairs "PrivateHost" "Host"
  statuses : Pairs "Status" "Status"

Fit-of :
    (k : Kind) (g h : Field) (v w : Value)
    → Fit new Pairs k g.kind
    → ◌≡◌ {A = Option (Field × Value)} (some (g, v)) (some (h, w))
    → Fit new Pairs k h.kind
Fit-of k g h v w fit is =
    subst
      (λ (o : Option (Field × Value)). elim o [ none ↦ Unit | some p ↦ Fit new Pairs k p.0.kind ])
      is fit

ready-Pairs : (t u : String) → Pairs t u → AreReady new Pairs u (new t)
unfolding find_field
ready-Pairs _ _ hosts = (
  (λ g w h. absurd (ground arith)),
  (
    (λ g w h. Fit-of (singular (plain "string")) name_field g absent w (refl, tt) h),
    (
      (λ g w h. Fit-of (map_of "string" (plain "string")) labels_field g absent w (refl, tt) h),
      (
        (λ g w h.
            Fit-of (singular (message_of "Status")) status_field g absent w (refl, statuses) h),
        tt,
      ),
    ),
  ),
)
ready-Pairs _ _ statuses =
    ((λ g w h. Fit-of (singular (plain "enum")) state_field g absent w (refl, tt) h), tt)

new_AreTyped : (type : String) → AreTyped new (new type)
unfolding AreTyped
new_AreTyped type = elim (Bool-cases (str_eq type "Host")) [
  | inl is ↦ rw is (tt, (tt, (tt, tt)))
  | inr other ↦ rw other (elim (Bool-cases (str_eq type "PrivateHost")) [
    | inl is ↦ rw is (tt, (tt, (tt, (tt, tt))))
    | inr different ↦ rw different (elim (Bool-cases (str_eq type "Status")) [
      | inl is ↦ rw is (tt, tt)
      | inr unknown ↦ rw unknown tt
    ])
  ])
]

source_IsMessage : IsMessage new "PrivateHost" source
unfolding AreTyped
source_IsMessage =
    ((refl, (refl, (refl, (refl, tt)))), (tt, (tt, ((tt, (tt, tt)), (((refl, tt), (tt, tt)), tt)))))

target-IsMessage : IsMessage new "Host" target
unfolding AreTyped
target-IsMessage = ((refl, (refl, (refl, tt))), (tt, ((tt, (tt, tt)), (tt, tt))))

copy-IsMessage_example : IsSafe (IsMessage new "Host") (copy_message lenient new source target)
copy-IsMessage_example =
    copy-IsMessage lenient new Pairs new_AreTyped ready-Pairs "PrivateHost" "Host" source target
      hosts source_IsMessage target-IsMessage

source_AreDistinct : AreDistinct source
unfolding find_field
source_AreDistinct = (refl, (refl, (refl, (refl, tt))))

find_field-copy_example :
    (u : Value) × (copy_value lenient new (scalar "a") name_field.kind name_field.kind (scalar "b")
      ≡ ok u)
    × (find_field "name" result ≡ some (name_field, u))
unfolding copy_message find_field set_field set_entry find_target
find_field-copy_example =
    find_field-copy lenient new "name" name_field name_field (scalar "a") (scalar "b") source target
      result source_AreDistinct refl refl refl refl refl

find_entry-copy_example :
    (rs : Entries) × (find_field "labels" result ≡ some (labels_field, entries rs))
    × ((key : String)
        → find_entry key (labels "rack" "4") ≡ none
        → find_entry key rs ≡ find_entry key (labels "zone" "east"))
unfolding copy_message find_field set_field set_entry find_target
find_entry-copy_example =
    find_entry-copy lenient new labels_field labels_field (labels "rack" "4") (labels "zone" "east")
      source target result source_AreDistinct refl refl refl refl refl refl

copy-build_mapper_example : copy_message built new source target ≢ err (missing_field "hub")
unfolding build_mapper ignore_fields
copy-build_mapper_example = copy-build_mapper builder built new source target "hub" refl
