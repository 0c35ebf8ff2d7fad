-- ===== src/Masks/Path.antt =====
-- internal/masks/mask_path.go: getting, setting and clearing what a path leads to. Each fails where
-- reflection panics: on a value that is no message where a step wants one, and on an index that the
-- list doesn't have.
use fulfillment_service.Common.{
  ℕ, zero, suc, Bool, false, Option, none, some, List, [], ◌∷◌, String, Result, ok, err, str_eq,
  if◌then◌else◌, ◌>>=◌, ltb,
}
use fulfillment_service.Common.Int.{ℤ, pos, negsuc}
use fulfillment_service.Api.Message.{
  ElementKind, plain, message_of, Kind, singular, list_of, map_of, Field, Value, absent, scalar,
  message, items, entries, Fields, Items, no_items, with_item, Entries, no_entries, with_entry,
  element_of, has, find_field, set_field, find_entry, set_entry,
}

pub data StepKind : Type 0 where
  field_step : StepKind
  list_index : ℤ → StepKind
  map_key : String → StepKind

pub record PathStep : Type 0 where
  pub kind : StepKind
  pub field : Field

pub data Panic : Type 0 where
  panic : Panic

abbrev pub item_at : ℕ → Items → Option Value
item_at n no_items = none
item_at zero (with_item v vs) = some v
item_at (suc n) (with_item v vs) = item_at n vs

abbrev pub items_length : Items → ℕ
items_length no_items = 0
items_length (with_item v vs) = suc (items_length vs)

abbrev pub or_panic : {A : Type 0} → Option A → Result Panic A
or_panic none = err panic
or_panic (some a) = ok a

abbrev pub present : {A : Type 0} → Result Panic A → Result Panic (Option A)
present (ok a) = ok (some a)
present (err e) = err e

-- The item with an index, where `Get` of the path finds one: an index beyond the length is absent, and
-- the length itself and a negative one are no indices of the list.
abbrev pub get_item : ℤ → Items → Result Panic (Option Value)
get_item (pos n) vs = if ltb (items_length vs) n then ok none else present (or_panic (item_at n vs))
get_item (negsuc n) vs = err panic

-- A key of a path is a text, which only suits a map with such keys.
abbrev pub has_text_keys : Kind → Bool
has_text_keys (map_of key e) = str_eq key "string"
has_text_keys _ = false

-- What a step takes from the value of its field.
abbrev pub select : StepKind → Kind → Value → Result Panic (Option Value)
select field_step kind v = ok (some v)
select (list_index i) kind (items vs) = get_item i vs
select (list_index i) kind _ = err panic
select (map_key key) kind (entries es) =
    if has_text_keys kind then ok (find_entry key es) else err panic
select (map_key key) kind _ = err panic

-- `Message` of a value.
abbrev pub as_fields : Value → Result Panic Fields
as_fields (message fs) = ok fs
as_fields _ = err panic

abbrev pub select_populated : StepKind → Field × Value → Result Panic (Option Value)
select_populated kind (f, v) = if has v then select kind f.kind v else ok none

-- One step from a message.
abbrev pub get_step : PathStep → Fields → Result Panic (Option Value)
get_step step fs = or_panic (find_field step.field.name fs) >>= select_populated step.kind

abbrev pub continue_with :
    {A B : Type 0} → (A → Result Panic (Option B)) → Option A → Result Panic (Option B)
continue_with f none = ok none
continue_with f (some a) = f a

-- The loop of `Get`, from a value.
unfoldable pub get_steps : List PathStep → Value → Result Panic (Option Value)
get_steps [] v = ok (some v)
get_steps (step ∷ steps) v = do
  fs ← as_fields v
  selected ← get_step step fs
  continue_with (get_steps steps) selected

abbrev pub get : List PathStep → Option Fields → Result Panic (Option Value)
get steps none = ok none
get steps (some fs) = get_steps steps (message fs)

abbrev pub put_item : ℕ → Value → Value → Items → Items
put_item zero v blank no_items = with_item v no_items
put_item (suc n) v blank no_items = with_item blank (put_item n v blank no_items)
put_item zero v blank (with_item w vs) = with_item v vs
put_item (suc n) v blank (with_item w vs) = with_item w (put_item n v blank vs)

abbrev pub map_items : (Items → Items) → Value → Result Panic Value
map_items f (items vs) = ok (items (f vs))
map_items f _ = err panic

abbrev pub map_entries : (Entries → Entries) → Value → Result Panic Value
map_entries f (entries es) = ok (entries (f es))
map_entries f _ = err panic

abbrev pub remove_entry : String → Entries → Entries
remove_entry key no_entries = no_entries
remove_entry key (with_entry k v es) =
    if str_eq k key then remove_entry key es else with_entry k v (remove_entry key es)

abbrev pub where_text_keys : Kind → Result Panic Value → Result Panic Value
where_text_keys kind r = if has_text_keys kind then r else err panic

module _ (new : String → Fields) (zero_of : String → String) where
  -- `NewElement`, `NewValue` and `NewField`.
  abbrev pub new_element : ElementKind → Value
  new_element (plain type) = scalar (zero_of type)
  new_element (message_of type) = message (new type)

  abbrev pub new_field : Kind → Value
  new_field (singular e) = new_element e
  new_field (list_of e) = items no_items
  new_field (map_of key e) = entries no_entries

  abbrev pub populated : Field × Value → Value
  populated (f, v) = if has v then v else new_field f.kind

  -- The last step of `Set`, on the value of its field.
  abbrev pub set_last : StepKind → Kind → Value → Value → Result Panic Value
  set_last field_step kind value v = ok value
  set_last (list_index (pos n)) kind value v =
      map_items (put_item n value (new_element (element_of kind))) v
  set_last (list_index (negsuc n)) kind value v = err panic
  set_last (map_key key) kind value v = where_text_keys kind (map_entries (set_entry key value) v)

  -- A step before others: what they start from, and where what they make of it goes. An index leaves
  -- the list as the value, which is no message; a key starts from a new value.
  abbrev pub set_under : StepKind → Kind → (Value → Result Panic Value) → Value → Result Panic Value
  set_under field_step kind next v = next v
  set_under (list_index i) kind next v = err panic
  set_under (map_key key) kind next (entries es) =
      where_text_keys kind
        (next (new_element (element_of kind)) >>= λ u. ok (entries (set_entry key u es)))
  set_under (map_key key) kind next v = err panic

  abbrev pub set_in : PathStep → (Field → Value → Result Panic Value) → Value → Result Panic Value
  set_in step make v = do
    fs ← as_fields v
    found ← or_panic (find_field step.field.name fs)
    u ← make found.0 (populated found)
    ok (message (set_field step.field.name u fs))

  -- The loop of `Set`.
  unfoldable pub set_steps : List PathStep → Value → Value → Result Panic Value
  set_steps [] value v = ok v
  set_steps (step ∷ []) value v = set_in step (λ f w. set_last step.kind f.kind value w) v
  set_steps (step ∷ next ∷ steps) value v =
      set_in step (λ f w. set_under step.kind f.kind (set_steps (next ∷ steps) value) w) v

  abbrev pub set : List PathStep → Value → Option Fields → Result Panic (Option Value)
  set steps value none = ok none
  set steps value (some fs) = present (set_steps steps value (message fs))

  abbrev pub clear_item : ℤ → Kind → Items → Result Panic Value
  clear_item (pos n) kind vs =
      if ltb (items_length vs) n
      then ok (items vs)
      else (or_panic (item_at n vs) >>= λ old.
          ok (items (put_item n (new_element (element_of kind)) old vs)))
  clear_item (negsuc n) kind vs = err panic

  abbrev pub clear_last : StepKind → Kind → Value → Result Panic Value
  clear_last field_step kind v = ok absent
  clear_last (list_index i) kind (items vs) = clear_item i kind vs
  clear_last (list_index i) kind _ = err panic
  clear_last (map_key key) kind v = where_text_keys kind (map_entries (remove_entry key) v)

  abbrev pub clear_under_item : ℤ → (Value → Result Panic Value) → Items → Result Panic Value
  clear_under_item (pos n) next vs =
      if ltb (items_length vs) n
      then ok (items vs)
      else (or_panic (item_at n vs) >>= λ old. next old >>= λ u. ok (items (put_item n u old vs)))
  clear_under_item (negsuc n) next vs = err panic

  -- A key that the map does not have leads to a value that is no message.
  abbrev pub clear_under_entry :
      String → (Value → Result Panic Value) → Entries → Result Panic Value
  clear_under_entry key next es = do
    old ← or_panic (find_entry key es)
    u ← next old
    ok (entries (set_entry key u es))

  abbrev pub clear_under :
      StepKind → Kind → (Value → Result Panic Value) → Value → Result Panic Value
  clear_under field_step kind next v = next v
  clear_under (list_index i) kind next (items vs) = clear_under_item i next vs
  clear_under (list_index i) kind next _ = err panic
  clear_under (map_key key) kind next (entries es) =
      where_text_keys kind (clear_under_entry key next es)
  clear_under (map_key key) kind next _ = err panic

  abbrev pub clear_populated :
      (Field → Value → Result Panic Value) → String → Fields → Field × Value → Result Panic Value
  clear_populated make name fs (f, v) =
      if has v then (make f v >>= λ u. ok (message (set_field name u fs))) else ok (message fs)

  abbrev pub clear_in : PathStep → (Field → Value → Result Panic Value) → Value → Result Panic Value
  clear_in step make v = do
    fs ← as_fields v
    found ← or_panic (find_field step.field.name fs)
    clear_populated make step.field.name fs found

  -- The loop of `Clear`.
  unfoldable pub clear_steps : List PathStep → Value → Result Panic Value
  clear_steps [] v = ok v
  clear_steps (step ∷ []) v = clear_in step (λ f w. clear_last step.kind f.kind w) v
  clear_steps (step ∷ next ∷ steps) v =
      clear_in step (λ f w. clear_under step.kind f.kind (clear_steps (next ∷ steps)) w) v

  abbrev pub clear : List PathStep → Option Fields → Result Panic (Option Value)
  clear steps none = ok none
  clear steps (some fs) = present (clear_steps steps (message fs))
