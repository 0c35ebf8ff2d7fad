-- ===== src/Servers/CopiedMaps.antt =====
-- What the mapper does with maps, and with the strict flag of its builder.
use fulfillment_service.Common.{
  Bool-cases, inl, inr, true, false, none, some, String, Result, ok, err, ◌≡◌, ◌≢◌, refl, sym, ap,
  ◌∙◌, arith, if◌then◌else◌, List, [], ◌∷◌, ℕ, suc, ◌>>=◌,
}
use mathlib.Core.Path.{subst}
use fulfillment_service.Api.Message.{
  Kind, Field, Value, absent, scalar, message, items, entries, Fields, no_fields, with_field, Items,
  no_items, with_item, Entries, no_entries, with_entry, has, find_field, set_field, find_entry,
  set_entry, append_item, element_of,
}
use fulfillment_service.Servers.Mapper.{
  IgnoredField, MapperBuilder, GenericMapper, MapperError, missing_field, mismatch, missing,
  mutable_entries, mutable_message, new_of, should_ignore, find_target, ignore_fields, build_mapper,
  copy_message, copy_value, copy_element, copy_list, copy_map, as_entries, where_fits,
}
use fulfillment_service.Servers.MapperSafe.{Target-cases}
use fulfillment_service.Servers.Copied.{AreDistinct, find_field-copy, find_entry-copy_map}

as_entries_ok :
    (from to : Kind) (r : Result MapperError Entries) (v : Value)
    → where_fits from to (as_entries r) ≡ ok v
    → (rs : Entries) × (r ≡ ok rs) × (v ≡ entries rs)
as_entries_ok from to (ok rs) v h = (rs, refl, ground (arith, h))
as_entries_ok from to (err e) v h = absurd (ground (arith, h))

module _ (mapper : GenericMapper) (new : String → Fields) where
  -- When a message with a populated map is copied to another that has entries in the same map,
  -- without error, the map of the result keeps the entries of the target under the keys that the
  -- source does not have. This wants that the field is not ignored, and that the source has no two
  -- fields of one name.
  pub find_entry-copy :
      (f g : Field) (es ds : Entries) (from to result : Fields)
      → AreDistinct from
      → find_field f.name from ≡ some (f, entries es)
      → find_field f.name to ≡ some (g, entries ds)
      → should_ignore mapper f ≡ false
      → should_ignore mapper g ≡ false
      → has (entries es) ≡ true
      → copy_message mapper new from to ≡ ok result
      → (rs : Entries) × (find_field f.name result ≡ some (g, entries rs))
        × ((key : String) → find_entry key es ≡ none → find_entry key rs ≡ find_entry key ds)
  unfolding copy_message
  find_entry-copy f g es ds from to result distinct from_has to_has open_f open_g populated h =
      let (u, valued, set) =
        find_field-copy mapper new f.name f g (entries es) (entries ds) from to result distinct
          from_has to_has open_f open_g h in
      let valued' : where_fits f.kind g.kind (as_entries (copy_map mapper new es g.kind ds))
          ≡ ok u =
        ap
          (λ b.
            if b
            then where_fits f.kind g.kind (as_entries (copy_map mapper new es g.kind ds))
            else ok absent)
          (sym populated)
        ∙ valued in
      let (rs, copied, is) =
        as_entries_ok f.kind g.kind (copy_map mapper new es g.kind ds) u valued' in
      (
        rs,
        set ∙ ap (λ x. some (g, x)) is,
        λ key missing. find_entry-copy_map mapper new key es ds rs g.kind copied missing,
      )

-- Not the error of a field that the target does not have.
abbrev IsLenient : {A : Type 0} → Result MapperError A → Type 0
IsLenient (err (missing_field name)) = ⊥
IsLenient _ = Unit

bind_IsLenient :
    {A B : Type 0} (r : Result MapperError A) (f : A → Result MapperError B)
    → IsLenient r
    → ((a : A) → IsLenient (f a))
    → IsLenient (r >>= f)
bind_IsLenient (ok a) f h k = k a
bind_IsLenient (err (missing_field name)) f h k = absurd h
bind_IsLenient (err mismatch) f h k = tt

module _ (mapper : GenericMapper) (new : String → Fields) (lenient : mapper.strict ≡ false) where
  never_missing : (f : Field) (to : Fields) → find_target mapper f to ≢ missing
  unfolding find_target
  never_missing f to h = ground (arith, lenient)

  mutual
    unfolding copy_message

    message-IsLenient : (fs target : Fields) → IsLenient (copy_message mapper new fs target)
    message-IsLenient no_fields target = tt
    message-IsLenient (with_field f v fs) target =
        Target-cases (find_target mapper f target) (λ skip. rw skip (message-IsLenient fs target))
          (λ miss. absurd (never_missing f target miss))
          (λ g w copied. rw copied (
            bind_IsLenient (copy_value mapper new v f.kind g.kind w)
              (λ u. copy_message mapper new fs (set_field f.name u target))
              (value-IsLenient v f.kind g.kind w)
              (λ u. message-IsLenient fs (set_field f.name u target))))

    value-IsLenient :
        (v : Value) (from to : Kind) (w : Value) → IsLenient (copy_value mapper new v from to w)
    value-IsLenient absent from to w = tt
    value-IsLenient (scalar s) from to w = ground arith
    value-IsLenient (message fs) from to w =
        ground (arith, message-IsLenient fs (mutable_message new to w))
    value-IsLenient (items vs) from to w = ground (arith, list-IsLenient vs to no_items)
    value-IsLenient (entries es) from to w = ground (arith, map-IsLenient es to (mutable_entries w))

    element-IsLenient : (v : Value) (to : Kind) → IsLenient (copy_element mapper new v to)
    element-IsLenient absent to = tt
    element-IsLenient (scalar s) to = tt
    element-IsLenient (message fs) to =
        ground (arith, message-IsLenient fs (new_of new (element_of to)))
    element-IsLenient (items vs) to = tt
    element-IsLenient (entries es) to = tt

    list-IsLenient :
        (vs : Items) (to : Kind) (target : Items) → IsLenient (copy_list mapper new vs to target)
    list-IsLenient no_items to target = tt
    list-IsLenient (with_item v vs) to target =
        bind_IsLenient (copy_element mapper new v to)
          (λ u. copy_list mapper new vs to (append_item target u)) (element-IsLenient v to)
          (λ u. list-IsLenient vs to (append_item target u))

    map-IsLenient :
        (es : Entries) (to : Kind) (target : Entries) → IsLenient (copy_map mapper new es to target)
    map-IsLenient no_entries to target = tt
    map-IsLenient (with_entry key v es) to target =
        bind_IsLenient (copy_element mapper new v to)
          (λ u. copy_map mapper new es to (set_entry key u target)) (element-IsLenient v to)
          (λ u. map-IsLenient es to (set_entry key u target))

ignored_strict :
    (i : ℕ) (fields : List IgnoredField) (m m' : GenericMapper)
    → ignore_fields i fields m ≡ ok m'
    → m'.strict ≡ m.strict
unfolding ignore_fields
ignored_strict i [] m m' h = ground (arith, h)
ignored_strict i (IgnoredField.text field ∷ fields) m m' h =
    ground (arith, ignored_strict (suc i) fields _ m' h)
ignored_strict i (IgnoredField.short_name field ∷ fields) m m' h =
    ground (arith, ignored_strict (suc i) fields _ m' h)
ignored_strict i (IgnoredField.long_name field ∷ fields) m m' h =
    ground (arith, ignored_strict (suc i) fields _ m' h)
ignored_strict i (IgnoredField.other type ∷ fields) m m' h = absurd cc

-- A mapper that is built, whether or not it is to be strict, never fails on a field that the target
-- does not have.
pub copy-build_mapper :
    (b : MapperBuilder) (m : GenericMapper) (new : String → Fields) (from to : Fields)
    (name : String)
    → build_mapper b ≡ ok m
    → copy_message m new from to ≢ err (missing_field name)
unfolding build_mapper
copy-build_mapper b m new from to name built h =
    let strict : m.strict ≡ false = elim (Bool-cases b.has_logger) [
      | inl there ↦
          ignored_strict 0 b.ignored_fields
            (record { strict = false; ignored_names = []; ignored_full_names = [] }) m
            (ground (arith, there))
      | inr lacks ↦ absurd (ground (arith, lacks))
    ] in
    subst IsLenient h (message-IsLenient m new strict from to)
