-- ===== src/Api/Message.antt =====
-- Messages of any type, as the mappers and the paths of field masks see them through reflection: the
-- fields of the type in order, each with its descriptor and its value. An enumeration is a plain kind.
use fulfillment_service.Common.{
  Bool, true, false, Option, none, some, String, str_eq, if◌then◌else◌,
}

-- The kind of a field without its cardinality: the name of a plain kind, or the type of a message.
pub data ElementKind : Type 0 where
  plain : String → ElementKind
  message_of : String → ElementKind

-- A map has the kind of its keys and the one of its values.
pub data Kind : Type 0 where
  singular : ElementKind → Kind
  list_of : ElementKind → Kind
  map_of : String → ElementKind → Kind

pub record Field : Type 0 where
  pub name : String
  pub full_name : String
  pub kind : Kind

mutual
  pub data Value : Type 0 where
    absent : Value
    scalar : String → Value
    message : Fields → Value
    items : Items → Value
    entries : Entries → Value

  pub data Fields : Type 0 where
    no_fields : Fields
    with_field : Field → Value → Fields → Fields

  pub data Items : Type 0 where
    no_items : Items
    with_item : Value → Items → Items

  pub data Entries : Type 0 where
    no_entries : Entries
    with_entry : String → Value → Entries → Entries

abbrev pub element_of : Kind → ElementKind
element_of (singular e) = e
element_of (list_of e) = e
element_of (map_of key e) = e

-- `Has`: a list or a map that is there but empty is not populated.
abbrev pub has : Value → Bool
has absent = false
has (scalar text) = true
has (message fs) = true
has (items no_items) = false
has (items (with_item v vs)) = true
has (entries no_entries) = false
has (entries (with_entry key v es)) = true

-- `ByName` on the fields of a message, with the value.
unfoldable pub find_field : String → Fields → Option (Field × Value)
find_field name no_fields = none
find_field name (with_field f v fs) = if str_eq f.name name then some (f, v) else find_field name fs

unfoldable pub set_field : String → Value → Fields → Fields
set_field name v no_fields = no_fields
set_field name v (with_field f w fs) =
    if str_eq f.name name then with_field f v fs else with_field f w (set_field name v fs)

-- `Get` and `Set` of a map. The order of the keys stands for the one in which a range visits them.
unfoldable pub find_entry : String → Entries → Option Value
find_entry key no_entries = none
find_entry key (with_entry k v es) = if str_eq k key then some v else find_entry key es

unfoldable pub set_entry : String → Value → Entries → Entries
set_entry key v no_entries = with_entry key v no_entries
set_entry key v (with_entry k w es) =
    if str_eq k key then with_entry k v es else with_entry k w (set_entry key v es)

-- `Append` of a list.
unfoldable pub append_item : Items → Value → Items
append_item no_items v = with_item v no_items
append_item (with_item w vs) v = with_item w (append_item vs v)
