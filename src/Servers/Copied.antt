-- ===== src/Servers/Copied.antt =====
-- What the mapper leaves in each field of the message that it copies to.
use fulfillment_service.Common.{
  bind_is_ok, Bool-cases, inl, inr, false, Option, none, some, String, ok, err, ◌≡◌, refl, sym, ap,
  ◌∙◌, arith, str_eq, str_eq_iff_eq, ◌>>=◌,
}
use fulfillment_service.Api.Message.{
  Kind, Field, Value, Fields, no_fields, with_field, Entries, no_entries, with_entry, find_field,
  set_field, find_entry, set_entry,
}
use fulfillment_service.Servers.Mapper.{
  GenericMapper, MapperError, onto, at_target, should_ignore, find_target, copy_message, copy_value,
  copy_element, copy_map,
}
use fulfillment_service.Servers.MapperSafe.{Target-cases}

-- No two fields have one name.
abbrev pub AreDistinct : Fields → Type 0
AreDistinct no_fields = Unit
AreDistinct (with_field f v fs) = (find_field f.name fs ≡ none) × AreDistinct fs

pub find_field-set_field_other :
    (key other : String) (v : Value) (fs : Fields)
    → str_eq key other ≡ false
    → find_field other (set_field key v fs) ≡ find_field other fs
unfolding find_field set_field
find_field-set_field_other key other v no_fields differs = refl
find_field-set_field_other key other v (with_field f w fs) differs =
    elim (Bool-cases (str_eq f.name key)) [
      | inl here ↦ ground (arith, here, differs, str_eq_iff_eq f.name key here)
      | inr there ↦ ground (arith, there, find_field-set_field_other key other v fs differs)
    ]

pub find_field-set_field :
    (key : String) (v w : Value) (g : Field) (fs : Fields)
    → find_field key fs ≡ some (g, w)
    → find_field key (set_field key v fs) ≡ some (g, v)
unfolding find_field set_field
find_field-set_field key v w g no_fields found = absurd cc
find_field-set_field key v w g (with_field f x fs) found = elim (Bool-cases (str_eq f.name key)) [
  | inl here ↦ ground (arith, here)
  | inr there ↦ ground (arith, there, find_field-set_field key v w g fs (ground (arith, there)))
]

pub find_entry-set_entry_other :
    (key other : String) (v : Value) (es : Entries)
    → str_eq key other ≡ false
    → find_entry other (set_entry key v es) ≡ find_entry other es
unfolding find_entry set_entry
find_entry-set_entry_other key other v no_entries differs = ground (arith, differs)
find_entry-set_entry_other key other v (with_entry k w es) differs =
    elim (Bool-cases (str_eq k key)) [
      | inl here ↦ ground (arith, here, differs, str_eq_iff_eq k key here)
      | inr there ↦ ground (arith, there, find_entry-set_entry_other key other v es differs)
    ]

find_target_found :
    (mapper : GenericMapper) (f g : Field) (w : Value) (to : Fields)
    → should_ignore mapper f ≡ false
    → find_field f.name to ≡ some (g, w)
    → should_ignore mapper g ≡ false
    → find_target mapper f to ≡ onto g w
unfolding find_target
find_target_found mapper f g w to open_f found open_g = ground (arith, found)

module _ (mapper : GenericMapper) (new : String → Fields) where
  -- The value that the first field is set to, and the rest of the copy.
  first_set :
      (f g : Field) (v w : Value) (fs to result : Fields)
      → copy_message mapper new (with_field f v fs) to ≡ ok result
      → find_target mapper f to ≡ onto g w
      → (u : Value) × (copy_value mapper new v f.kind g.kind w ≡ ok u)
        × (copy_message mapper new fs (set_field f.name u to) ≡ ok result)
  unfolding copy_message
  first_set f g v w fs to result h copied =
      bind_is_ok (copy_value mapper new v f.kind g.kind w)
        (λ u. copy_message mapper new fs (set_field f.name u to)) result
        (ap
            (λ t.
              at_target t (copy_message mapper new fs to) (err (MapperError.missing_field f.name))
                (λ g w. copy_value mapper new v f.kind g.kind w >>= λ u.
                  copy_message mapper new fs (set_field f.name u to)))
            (sym copied)
          ∙ h)

  -- A field whose name the source does not have is kept.
  pub find_field-copy_other :
      (key : String) (from to result : Fields)
      → copy_message mapper new from to ≡ ok result
      → find_field key from ≡ none
      → find_field key result ≡ find_field key to
  unfolding copy_message find_field
  find_field-copy_other key no_fields to result h other = ground (arith, h)
  find_field-copy_other key (with_field f v fs) to result h other =
      let differs : str_eq f.name key ≡ false = ground arith in
      let rest : find_field key fs ≡ none = ground (arith, differs) in
      Target-cases (find_target mapper f to)
        (λ skip. find_field-copy_other key fs to result (ground (arith, skip)) rest)
        (λ miss. absurd (ground (arith, miss)))
        (λ g w copied.
          let (u, valued, copy) = first_set f g v w fs to result h copied in
          find_field-copy_other key fs (set_field f.name u to) result copy rest
          ∙ find_field-set_field_other f.name key u to differs)

  -- When a message without two fields of one name is copied to another without error, each field of
  -- the source that the target has too and that is not ignored is set in the result to what its value
  -- is copied to.
  pub find_field-copy :
      (key : String) (f g : Field) (v w : Value) (from to result : Fields)
      → AreDistinct from
      → find_field key from ≡ some (f, v)
      → find_field key to ≡ some (g, w)
      → should_ignore mapper f ≡ false
      → should_ignore mapper g ≡ false
      → copy_message mapper new from to ≡ ok result
      → (u : Value) × (copy_value mapper new v f.kind g.kind w ≡ ok u)
        × (find_field key result ≡ some (g, u))
  unfolding copy_message find_field
  find_field-copy key f g v w no_fields to result distinct from_has to_has open_f open_g h =
      absurd cc
  find_field-copy key f g v w (with_field f' v' fs) to result distinct from_has to_has open_f open_g
        h =
      elim (Bool-cases (str_eq f'.name key)) [
        | inl here ↦
            let same : ◌≡◌ {A = Option (Field × Value)} (some (f', v')) (some (f, v)) =
              ground (arith, here) in
            let field : f' ≡ f =
              ap (λ (o : Option (Field × Value)). elim o [ none ↦ f' | some p ↦ p.0 ]) same in
            let value : v' ≡ v =
              ap (λ (o : Option (Field × Value)). elim o [ none ↦ v' | some p ↦ p.1 ]) same in
            let named : key ≡ f'.name = sym (str_eq_iff_eq f'.name key here) in
            let found : find_field f'.name to ≡ some (g, w) =
              ap (λ k. find_field k to) (sym named) ∙ to_has in
            let open_f' : should_ignore mapper f' ≡ false =
              ap (should_ignore mapper) field ∙ open_f in
            let (u, valued, copy) =
              first_set f' g v' w fs to result h
                (find_target_found mapper f' g w to open_f' found open_g) in
            (
              u,
              (λ i. copy_value mapper new (sym value i) (sym field i).kind g.kind w) ∙ valued,
              ap (λ k. find_field k result) named
                  ∙ find_field-copy_other f'.name fs (set_field f'.name u to) result copy distinct.0
                  ∙ find_field-set_field f'.name u w g to found,
            )
        | inr there ↦
            let later : find_field key fs ≡ some (f, v) = ground (arith, there) in
            Target-cases (find_target mapper f' to)
              (λ skip.
                find_field-copy key f g v w fs to result distinct.1 later to_has open_f open_g
                  (ground (arith, skip)))
              (λ miss. absurd (ground (arith, miss)))
              (λ g' w' copied.
                let (u, valued, copy) = first_set f' g' v' w' fs to result h copied in
                find_field-copy key f g v w fs (set_field f'.name u to) result distinct.1 later
                  (find_field-set_field_other f'.name key u to there ∙ to_has) open_f open_g copy)
      ]

  -- The entries of the target stay under the keys that the source does not have.
  pub find_entry-copy_map :
      (key : String) (from to result : Entries) (kind : Kind)
      → copy_map mapper new from kind to ≡ ok result
      → find_entry key from ≡ none
      → find_entry key result ≡ find_entry key to
  unfolding copy_message find_entry
  find_entry-copy_map key no_entries to result kind h other = ground (arith, h)
  find_entry-copy_map key (with_entry k v es) to result kind h other =
      let differs : str_eq k key ≡ false = ground arith in
      let (u, valued, copy) =
        bind_is_ok (copy_element mapper new v kind)
          (λ u. copy_map mapper new es kind (set_entry k u to)) result h in
      find_entry-copy_map key es (set_entry k u to) result kind copy (ground (arith, differs))
      ∙ find_entry-set_entry_other k key u to differs
