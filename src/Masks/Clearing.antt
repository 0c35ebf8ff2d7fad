-- ===== src/Masks/Clearing.antt =====
-- What a path gets after it has been cleared.
use fulfillment_service.Common.{
  bind_is_ok, Bool-cases, inl, inr, ◌⊎◌, true, false, none, some, List, [], ◌∷◌, String, Result, ok,
  ◌≡◌, refl, sym, ap, ◌∙◌, arith, str_eq, ltb, ◌>>=◌,
}
use fulfillment_service.Common.Int.{pos, negsuc}
use fulfillment_service.Api.Message.{
  Field, Value, absent, scalar, message, items, entries, Fields, Entries, no_entries, with_entry,
  has, find_field, set_field, find_entry, set_entry,
}
use fulfillment_service.Masks.Path.{
  StepKind, field_step, list_index, map_key, PathStep, Panic, item_at, items_length, or_panic,
  has_text_keys, as_fields, select_populated, continue_with, get_steps, put_item, remove_entry,
  clear_last, clear_under_entry, clear_under, clear_in, clear_steps,
}
use fulfillment_service.Masks.Reading.{
  or_panic_ok, get_item-put_item, has-put_item, find_entry-set_entry, has-set_entry,
  get_steps-set_field,
}

-- A step that leads to a field or a key, and not to an index.
abbrev pub IsKeyed : StepKind → Type 0
IsKeyed field_step = Unit
IsKeyed (list_index i) = ⊥
IsKeyed (map_key key) = Unit

-- The last step of a path is keyed.
abbrev pub EndsKeyed : PathStep → List PathStep → Type 0
EndsKeyed step [] = IsKeyed step.kind
EndsKeyed step (next ∷ steps) = EndsKeyed next steps

find_entry-remove_entry :
    (key : String) (es : Entries) → find_entry key (remove_entry key es) ≡ none
unfolding find_entry
find_entry-remove_entry key no_entries = refl
find_entry-remove_entry key (with_entry k v es) = elim (Bool-cases (str_eq k key)) [
  | inl here ↦ rw here (find_entry-remove_entry key es)
  | inr there ↦ ground (arith, there, find_entry-remove_entry key es)
]

module _ (new : String → Fields) (zero_of : String → String) where
  select-clear_last :
      (kind : StepKind) (f : Field) (v u : Value)
      → IsKeyed kind
      → clear_last new zero_of kind f.kind v ≡ ok u
      → select_populated kind (f, u) ≡ ok none
  select-clear_last field_step f v u keyed h = ground arith
  select-clear_last (list_index i) f v u keyed h = absurd keyed
  select-clear_last (map_key key) f (entries es) u keyed h =
      ground (arith, find_entry-remove_entry key es)
  select-clear_last (map_key key) f absent u keyed h = absurd (ground arith)
  select-clear_last (map_key key) f (scalar s) u keyed h = absurd (ground arith)
  select-clear_last (map_key key) f (message fs) u keyed h = absurd (ground arith)
  select-clear_last (map_key key) f (items vs) u keyed h = absurd (ground arith)

  -- A step before others leads to nothing, or to what the others make of what it led to.
  abbrev Leads : StepKind → Field → (Value → Result Panic Value) → Value → Type 0
  Leads kind f next u =
      (select_populated kind (f, u) ≡ ok none)
      ⊎ ((start : Value) × (w : Value) × (next start ≡ ok w)
          × (has w ≡ true → select_populated kind (f, u) ≡ ok (some w)))

  Leads-clear_under :
      (kind : StepKind) (f : Field) (next : Value → Result Panic Value) (v u : Value)
      → has v ≡ true
      → clear_under new zero_of kind f.kind next v ≡ ok u
      → Leads kind f next u
  Leads-clear_under field_step f next v u there h = inr (v, u, h, λ full. ground (arith, full))
  Leads-clear_under (list_index (pos n)) f next (items vs) u there h =
      elim (Bool-cases (ltb (items_length vs) n)) [
        | inl beyond ↦ inl (ground (arith, beyond))
        | inr within ↦
            let h' : (or_panic (item_at n vs) >>= λ old.
            next old >>= λ w. ok (items (put_item n w old vs)))
                ≡ ok u =
              ground (arith, within) in
            let (old, found, h1) =
              bind_is_ok (or_panic (item_at n vs))
                (λ old. next old >>= λ w. ok (items (put_item n w old vs))) u h' in
            let (w, made, is) =
              bind_is_ok (next old) (λ w. ok (items (put_item n w old vs))) u h1 in
            inr (
              old,
              w,
              made,
              λ full. ground (arith, is, has-put_item n w old vs, get_item-put_item n w old vs),
            )
      ]
  Leads-clear_under (list_index (negsuc n)) f next (items vs) u there h = absurd (ground arith)
  Leads-clear_under (list_index i) f next absent u there h = absurd (ground arith)
  Leads-clear_under (list_index i) f next (scalar s) u there h = absurd (ground arith)
  Leads-clear_under (list_index i) f next (message fs) u there h = absurd (ground arith)
  Leads-clear_under (list_index i) f next (entries es) u there h = absurd (ground arith)
  Leads-clear_under (map_key key) f next (entries es) u there h =
      elim (Bool-cases (has_text_keys f.kind)) [
        | inl text ↦
            let h' : clear_under_entry new zero_of key next es ≡ ok u = ground (arith, text) in
            let (old, found, h1) =
              bind_is_ok (or_panic (find_entry key es))
                (λ old. next old >>= λ w. ok (entries (set_entry key w es))) u h' in
            let (w, made, is) =
              bind_is_ok (next old) (λ w. ok (entries (set_entry key w es))) u h1 in
            inr (
              old,
              w,
              made,
              λ full.
                  ground (arith, text, is, has-set_entry key w es, find_entry-set_entry key w es),
            )
        | inr other ↦ absurd (ground (arith, other))
      ]
  Leads-clear_under (map_key key) f next absent u there h = absurd (ground arith)
  Leads-clear_under (map_key key) f next (scalar s) u there h = absurd (ground arith)
  Leads-clear_under (map_key key) f next (message fs) u there h = absurd (ground arith)
  Leads-clear_under (map_key key) f next (items vs) u there h = absurd (ground arith)

  -- A field that isn't populated is left so; another is set to what the steps make of its value.
  clear_in_ok :
      (step : PathStep) (make : Field → Value → Result Panic Value) (v u : Value)
      → clear_in new zero_of step make v ≡ ok u
      → (fs : Fields) × (f : Field) × (old : Value) × (find_field step.field.name fs
          ≡ some (f, old))
        × (((has old ≡ false) × (u ≡ message fs))
            ⊎ ((w : Value) × (has old ≡ true)
                × (make f old ≡ ok w)
                × (message (set_field step.field.name w fs) ≡ u)))
  clear_in_ok step make v u h =
      let (fs, is, h1) = bind_is_ok (as_fields v) _ u h in
      let (found, has_it, h2) = bind_is_ok (or_panic (find_field step.field.name fs)) _ u h1 in
      (
        fs,
        found.0,
        found.1,
        or_panic_ok _ found has_it,
        elim (Bool-cases (has found.1)) [
          | inl populated ↦
              let h3 : (make found.0 found.1 >>= λ w. ok (message (set_field step.field.name w fs)))
                  ≡ ok u =
                ground (arith, populated) in
              let (w, made, result) =
                bind_is_ok (make found.0 found.1)
                  (λ w. ok (message (set_field step.field.name w fs))) u h3 in
              inr (w, populated, made, ground arith)
          | inr lacks ↦ inl (lacks, ground (arith, lacks))
        ],
      )

  has-clear_in :
      (step : PathStep) (make : Field → Value → Result Panic Value) (v u : Value)
      → clear_in new zero_of step make v ≡ ok u
      → has u ≡ true
  has-clear_in step make v u h =
      let (fs, f, old, found, or) = clear_in_ok step make v u h in
      elim or [ inl left ↦ ap has left.1 | inr (w, there, made, result) ↦ ap has (sym result) ]

  has-clear_steps :
      (step : PathStep) (steps : List PathStep) (v u : Value)
      → clear_steps new zero_of (step ∷ steps) v ≡ ok u
      → has u ≡ true
  unfolding clear_steps
  has-clear_steps step [] v u h =
      has-clear_in step (λ f w. clear_last new zero_of step.kind f.kind w) v u h
  has-clear_steps step (next ∷ steps) v u h =
      has-clear_in step
        (λ f w. clear_under new zero_of step.kind f.kind (clear_steps new zero_of (next ∷ steps)) w)
        v u h

  unpopulated :
      (step : PathStep) (steps : List PathStep) (f : Field) (old : Value) (fs : Fields)
      → find_field step.field.name fs ≡ some (f, old)
      → has old ≡ false
      → get_steps (step ∷ steps) (message fs) ≡ ok none
  unfolding get_steps
  unpopulated step steps f old fs found lacks = ground (arith, found, lacks)

  -- When a path that ends in a field or a key is cleared without a panic, getting the path finds
  -- nothing.
  pub get_steps-clear_steps :
      (step : PathStep) (steps : List PathStep) (v u : Value)
      → EndsKeyed step steps
      → clear_steps new zero_of (step ∷ steps) v ≡ ok u
      → get_steps (step ∷ steps) u ≡ ok none
  unfolding clear_steps get_steps
  get_steps-clear_steps step [] v u keyed h =
      let (fs, f, old, found, or) =
        clear_in_ok step (λ f w. clear_last new zero_of step.kind f.kind w) v u h in
      elim or [
        | inl left ↦ ap (get_steps (step ∷ [])) left.1 ∙ unpopulated step [] f old fs found left.0
        | inr (w, there, made, result) ↦
            ap (get_steps (step ∷ [])) (sym result)
            ∙ get_steps-set_field step [] f old w fs (ok none) found (
                ap (λ r. r >>= continue_with (get_steps []))
                  (select-clear_last step.kind f old w keyed made))
      ]
  get_steps-clear_steps step (next ∷ steps) v u keyed h =
      let (fs, f, old, found, or) =
        clear_in_ok step
          (λ f w.
            clear_under new zero_of step.kind f.kind (clear_steps new zero_of (next ∷ steps)) w)
          v u h in
      elim or [
        | inl left ↦
            ap (get_steps (step ∷ next ∷ steps)) left.1
            ∙ unpopulated step (next ∷ steps) f old fs found left.0
        | inr (w, there, made, result) ↦
            ap (get_steps (step ∷ next ∷ steps)) (sym result)
            ∙ get_steps-set_field step (next ∷ steps) f old w fs (ok none) found
                (elim (Leads-clear_under step.kind f (clear_steps new zero_of (next ∷ steps)) old w
                  there made) [
                    | inl nothing ↦ ap (λ r. r >>= continue_with (get_steps (next ∷ steps))) nothing
                    | inr (start, x, cleared, selected) ↦
                        ap (λ r. r >>= continue_with (get_steps (next ∷ steps)))
                          (selected (has-clear_steps next steps start x cleared))
                        ∙ get_steps-clear_steps next steps start x keyed cleared
                  ])
      ]
