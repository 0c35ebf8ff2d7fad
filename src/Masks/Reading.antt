-- ===== src/Masks/Reading.antt =====
-- What a path gets after it has been set or cleared.
use fulfillment_service.Common.{
  bind_is_ok, ℕ, zero, suc, Bool-cases, inl, inr, true, false, Option, none, some, List, [], ◌∷◌,
  String, Result, ok, ◌≡◌, refl, sym, ap, ◌∙◌, arith, str_eq, str_eq_refl, ltb, ◌>>=◌,
}
use fulfillment_service.Common.Int.{pos, negsuc}
use fulfillment_service.Api.Message.{
  Field, Value, absent, scalar, message, items, entries, Fields, Items, no_items, with_item,
  Entries, no_entries, with_entry, element_of, has, find_field, set_field, find_entry, set_entry,
}
use fulfillment_service.Servers.Copied.{find_field-set_field}
use fulfillment_service.Masks.Path.{
  StepKind, field_step, list_index, map_key, PathStep, Panic, item_at, items_length, or_panic,
  get_item, has_text_keys, as_fields, select_populated, continue_with, get_steps, put_item,
  new_element, populated, set_last, set_under, set_in, set_steps,
}

pub or_panic_ok : {A : Type 0} (o : Option A) (a : A) → or_panic o ≡ ok a → o ≡ some a
or_panic_ok none a h = absurd cc
or_panic_ok (some b) a h = cc

pub as_fields_ok : (v : Value) (fs : Fields) → as_fields v ≡ ok fs → v ≡ message fs
as_fields_ok absent fs h = absurd cc
as_fields_ok (scalar s) fs h = absurd cc
as_fields_ok (message gs) fs h = cc
as_fields_ok (items vs) fs h = absurd cc
as_fields_ok (entries es) fs h = absurd cc

item_at-put_item :
    (n : ℕ) (v blank : Value) (vs : Items) → item_at n (put_item n v blank vs) ≡ some v
item_at-put_item zero v blank no_items = refl
item_at-put_item (suc n) v blank no_items = item_at-put_item n v blank no_items
item_at-put_item zero v blank (with_item w vs) = refl
item_at-put_item (suc n) v blank (with_item w vs) = item_at-put_item n v blank vs

length-put_item :
    (n : ℕ) (v blank : Value) (vs : Items) → ltb (items_length (put_item n v blank vs)) n ≡ false
length-put_item zero v blank no_items = ground arith
length-put_item (suc n) v blank no_items = ground (arith, length-put_item n v blank no_items)
length-put_item zero v blank (with_item w vs) = ground arith
length-put_item (suc n) v blank (with_item w vs) = ground (arith, length-put_item n v blank vs)

-- An item that was put is got, from a populated list.
pub get_item-put_item :
    (n : ℕ) (v blank : Value) (vs : Items) → get_item (pos n) (put_item n v blank vs) ≡ ok (some v)
get_item-put_item n v blank vs =
    ground (arith, item_at-put_item n v blank vs, length-put_item n v blank vs)

pub has-put_item :
    (n : ℕ) (v blank : Value) (vs : Items) → has (items (put_item n v blank vs)) ≡ true
has-put_item zero v blank no_items = refl
has-put_item (suc n) v blank no_items = refl
has-put_item zero v blank (with_item w vs) = refl
has-put_item (suc n) v blank (with_item w vs) = refl

pub find_entry-set_entry :
    (key : String) (v : Value) (es : Entries) → find_entry key (set_entry key v es) ≡ some v
unfolding find_entry set_entry
find_entry-set_entry key v no_entries = ground (arith, str_eq_refl key)
find_entry-set_entry key v (with_entry k w es) = elim (Bool-cases (str_eq k key)) [
  | inl here ↦ ground (arith, here)
  | inr there ↦ ground (arith, there, find_entry-set_entry key v es)
]

pub has-set_entry :
    (key : String) (v : Value) (es : Entries) → has (entries (set_entry key v es)) ≡ true
unfolding set_entry
has-set_entry key v no_entries = refl
has-set_entry key v (with_entry k w es) = elim (Bool-cases (str_eq k key)) [
  | inl here ↦ rw here refl
  | inr there ↦ rw there refl
]

-- What a step gets from its field is what it selects there, where the field is populated.
pub get_steps-set_field :
    (step : PathStep) (steps : List PathStep) (f : Field) (old u : Value) (fs : Fields)
    (r : Result Panic (Option Value))
    → find_field step.field.name fs ≡ some (f, old)
    → (select_populated step.kind (f, u) >>= continue_with (get_steps steps)) ≡ r
    → get_steps (step ∷ steps) (message (set_field step.field.name u fs)) ≡ r
unfolding get_steps
get_steps-set_field step steps f old u fs r found h =
    ap (λ o. or_panic o >>= select_populated step.kind >>= continue_with (get_steps steps))
      (find_field-set_field step.field.name u old f fs found)
    ∙ h

module _ (new : String → Fields) (zero_of : String → String) where
  select-set_last :
      (kind : StepKind) (f : Field) (value v u : Value)
      → set_last new zero_of kind f.kind value v ≡ ok u
      → has value ≡ true
      → select_populated kind (f, u) ≡ ok (some value)
  select-set_last field_step f value v u h full = ground (arith, h, full)
  select-set_last (list_index (pos n)) f value (items vs) u h full =
      let blank : Value = new_element new zero_of (element_of f.kind) in
      let is : items (put_item n value blank vs) ≡ u = ground arith in
      ap (λ w. select_populated (list_index (pos n)) (f, w)) (sym is)
      ∙ ground (arith, has-put_item n value blank vs, get_item-put_item n value blank vs)
  select-set_last (list_index (pos n)) f value absent u h full = absurd (ground arith)
  select-set_last (list_index (pos n)) f value (scalar s) u h full = absurd (ground arith)
  select-set_last (list_index (pos n)) f value (message fs) u h full = absurd (ground arith)
  select-set_last (list_index (pos n)) f value (entries es) u h full = absurd (ground arith)
  select-set_last (list_index (negsuc n)) f value v u h full = absurd (ground arith)
  select-set_last (map_key key) f value (entries es) u h full =
      ground (arith, has-set_entry key value es, find_entry-set_entry key value es)
  select-set_last (map_key key) f value absent u h full = absurd (ground arith)
  select-set_last (map_key key) f value (scalar s) u h full = absurd (ground arith)
  select-set_last (map_key key) f value (message fs) u h full = absurd (ground arith)
  select-set_last (map_key key) f value (items vs) u h full = absurd (ground arith)

  -- What the steps after one make, and that the step selects it afterwards.
  select-set_under :
      (kind : StepKind) (f : Field) (next : Value → Result Panic Value) (v u : Value)
      → set_under new zero_of kind f.kind next v ≡ ok u
      → (start : Value) × (w : Value) × (next start ≡ ok w)
        × (has w ≡ true → select_populated kind (f, u) ≡ ok (some w))
  select-set_under field_step f next v u h = (v, u, h, λ full. ground (arith, full))
  select-set_under (list_index i) f next v u h = absurd (ground arith)
  select-set_under (map_key key) f next (entries es) u h =
      elim (Bool-cases (has_text_keys f.kind)) [
        | inl text ↦
            let start : Value = new_element new zero_of (element_of f.kind) in
            let (w, made, is) =
              bind_is_ok (next start) (λ w. ok (entries (set_entry key w es))) u
                (ground (arith, text)) in
            (
              start,
              w,
              made,
              λ full.
                  ground (arith, text, is, has-set_entry key w es, find_entry-set_entry key w es),
            )
        | inr other ↦ absurd (ground (arith, other))
      ]
  select-set_under (map_key key) f next absent u h = absurd (ground arith)
  select-set_under (map_key key) f next (scalar s) u h = absurd (ground arith)
  select-set_under (map_key key) f next (message fs) u h = absurd (ground arith)
  select-set_under (map_key key) f next (items vs) u h = absurd (ground arith)

  -- The field that a step sets, and what it sets it to.
  set_in_ok :
      (step : PathStep) (make : Field → Value → Result Panic Value) (v u : Value)
      → set_in new zero_of step make v ≡ ok u
      → (fs : Fields) × (f : Field) × (old : Value) × (w : Value) × (v ≡ message fs)
        × (find_field step.field.name fs ≡ some (f, old))
        × (make f (populated new zero_of (f, old)) ≡ ok w)
        × (message (set_field step.field.name w fs) ≡ u)
  set_in_ok step make v u h =
      let (fs, is, h1) = bind_is_ok (as_fields v) _ u h in
      let (found, has_it, h2) = bind_is_ok (or_panic (find_field step.field.name fs)) _ u h1 in
      let (w, made, h3) = bind_is_ok (make found.0 (populated new zero_of found)) _ u h2 in
      (
        fs,
        found.0,
        found.1,
        w,
        as_fields_ok v fs is,
        or_panic_ok _ found has_it,
        made,
        ground arith,
      )

  has-set_in :
      (step : PathStep) (make : Field → Value → Result Panic Value) (v u : Value)
      → set_in new zero_of step make v ≡ ok u
      → has u ≡ true
  has-set_in step make v u h =
      let (fs, f, old, w, is, found, made, result) = set_in_ok step make v u h in
      ap has (sym result)

  has-set_steps :
      (step : PathStep) (steps : List PathStep) (value v u : Value)
      → set_steps new zero_of (step ∷ steps) value v ≡ ok u
      → has u ≡ true
  unfolding set_steps
  has-set_steps step [] value v u h =
      has-set_in step (λ f w. set_last new zero_of step.kind f.kind value w) v u h
  has-set_steps step (next ∷ steps) value v u h =
      has-set_in step
        (λ f w.
          set_under new zero_of step.kind f.kind (set_steps new zero_of (next ∷ steps) value) w)
        v u h

  -- When a path that has steps is set to a populated value without a panic, getting the path gives
  -- that value.
  pub get_steps-set_steps :
      (step : PathStep) (steps : List PathStep) (value v u : Value)
      → has value ≡ true
      → set_steps new zero_of (step ∷ steps) value v ≡ ok u
      → get_steps (step ∷ steps) u ≡ ok (some value)
  unfolding set_steps get_steps
  get_steps-set_steps step [] value v u full h =
      let (fs, f, old, w, is, found, made, result) =
        set_in_ok step (λ f w. set_last new zero_of step.kind f.kind value w) v u h in
      ap (get_steps (step ∷ [])) (sym result)
      ∙ get_steps-set_field step [] f old w fs (ok (some value)) found (
          ap (λ r. r >>= continue_with (get_steps []))
            (select-set_last step.kind f value _ w made full))
  get_steps-set_steps step (next ∷ steps) value v u full h =
      let (fs, f, old, w, is, found, made, result) =
        set_in_ok step
          (λ f w.
            set_under new zero_of step.kind f.kind (set_steps new zero_of (next ∷ steps) value) w)
          v u h in
      let (start, x, set, selected) =
        select-set_under step.kind f (set_steps new zero_of (next ∷ steps) value) _ w made in
      ap (get_steps (step ∷ next ∷ steps)) (sym result)
      ∙ get_steps-set_field step (next ∷ steps) f old w fs (ok (some value)) found (
          ap (λ r. r >>= continue_with (get_steps (next ∷ steps)))
            (selected (has-set_steps next steps value start x set))
          ∙ get_steps-set_steps next steps value start x full set)
