-- ===== src/Servers/Mapper.antt =====
-- generic_mapper.go: the mapper between the private and the public messages, by reflection. What an
-- error leaves in the message that was to be changed is left out: the servers discard it.
use fulfillment_service.Common.{
  ℕ, suc, Bool, true, false, ◌&&◌, ◌||◌, Option, none, some, List, [], ◌∷◌, String, Result, ok, err,
  str_eq, contains, if◌then◌else◌, ◌>>=◌, ◌==◌, codes,
}
use fulfillment_service.Api.Message.{
  ElementKind, plain, message_of, Kind, singular, list_of, map_of, Field, Value, absent, scalar,
  message, items, entries, Fields, no_fields, with_field, Items, no_items, with_item, Entries,
  no_entries, with_entry, element_of, has, find_field, set_field, find_entry, set_entry,
  append_item,
}

-- What `AddIgnoredFields` takes: a text, a name, a full name, or a value of another type.
pub data IgnoredField : Type 0 where
  text short_name long_name : String → IgnoredField
  other : String → IgnoredField

pub record MapperBuilder : Type 0 where
  pub has_logger : Bool
  pub strict : Bool
  pub ignored_fields : List IgnoredField

pub record GenericMapper : Type 0 where
  pub strict : Bool
  pub ignored_names : List String
  pub ignored_full_names : List String

-- The errors of `Build`, and those of copying and merging, with the panics of reflection.
pub data MapperBuildError : Type 0 where
  logger_mandatory : MapperBuildError
  bad_ignored_field : ℕ → String → MapperBuildError

pub data MapperError : Type 0 where
  missing_field : String → MapperError
  mismatch : MapperError

abbrev has_dot : List ℕ → Bool
has_dot [] = false
has_dot (c ∷ cs) = c == 46 || has_dot cs

abbrev ignoring_name : String → GenericMapper → GenericMapper
ignoring_name field m = record m { ignored_names = field ∷ m.ignored_names }

abbrev ignoring_full_name : String → GenericMapper → GenericMapper
ignoring_full_name field m = record m { ignored_full_names = field ∷ m.ignored_full_names }

-- The loop of `Build` over the ignored fields, from an index.
unfoldable pub ignore_fields :
    ℕ → List IgnoredField → GenericMapper → Result MapperBuildError GenericMapper
ignore_fields i [] m = ok m
ignore_fields i (text field ∷ fields) m =
    ignore_fields (suc i) fields
      (if has_dot (codes field) then ignoring_full_name field m else ignoring_name field m)
ignore_fields i (short_name field ∷ fields) m = ignore_fields (suc i) fields (ignoring_name field m)
ignore_fields i (long_name field ∷ fields) m =
    ignore_fields (suc i) fields (ignoring_full_name field m)
ignore_fields i (other type ∷ fields) m = err (bad_ignored_field i type)

-- `Build` does not pass the strict flag of the builder on.
unfoldable pub build_mapper : MapperBuilder → Result MapperBuildError GenericMapper
build_mapper b =
    if b.has_logger
    then ignore_fields 0 b.ignored_fields
        (record { strict = false; ignored_names = []; ignored_full_names = [] })
    else err logger_mandatory

-- Whether reflection takes a value of the first kind for a field of the second.
abbrev pub fits_element : ElementKind → ElementKind → Bool
fits_element (plain t) (plain u) = str_eq t u
fits_element (message_of t) (message_of u) = true
fits_element (plain t) (message_of u) = false
fits_element (message_of t) (plain u) = false

abbrev pub fits : Kind → Kind → Bool
fits (singular e) (singular f) = fits_element e f
fits (list_of e) (list_of f) = fits_element e f
fits (map_of k e) (map_of l f) = str_eq k l && fits_element e f
fits _ _ = false

-- The messages of each type without values, for `Mutable`, `NewElement` and `NewValue`.
abbrev pub new_of : (String → Fields) → ElementKind → Fields
new_of new (plain type) = no_fields
new_of new (message_of type) = new type

-- What `Mutable` returns, for a value of the kind.
abbrev pub mutable_message : (String → Fields) → Kind → Value → Fields
mutable_message new kind (message fs) = fs
mutable_message new kind _ = new_of new (element_of kind)

abbrev pub mutable_entries : Value → Entries
mutable_entries (entries es) = es
mutable_entries _ = no_entries

abbrev pub mutable_items : Value → Items
mutable_items (items vs) = vs
mutable_items _ = no_items

-- What happens to a field of the source: nothing, an error, or a copy to a field with a value.
pub data Target : Type 0 where
  skipped missing : Target
  onto : Field → Value → Target

-- What is done for each target.
abbrev pub at_target : {A : Type 0} → Target → A → A → (Field → Value → A) → A
at_target skipped a b f = a
at_target missing a b f = b
at_target (onto g w) a b f = f g w

abbrev pub as_message : Result MapperError Fields → Result MapperError Value
as_message r = r >>= λ fs. ok (message fs)

abbrev pub as_items : Result MapperError Items → Result MapperError Value
as_items r = r >>= λ vs. ok (items vs)

abbrev pub as_entries : Result MapperError Entries → Result MapperError Value
as_entries r = r >>= λ es. ok (entries es)

-- Where the kinds fit; reflection panics where they do not.
abbrev pub where_fits : Kind → Kind → Result MapperError Value → Result MapperError Value
where_fits from to r = if fits from to then r else err mismatch

module _ (mapper : GenericMapper) where
  abbrev pub should_ignore : Field → Bool
  should_ignore f =
      contains mapper.ignored_names f.name || contains mapper.ignored_full_names f.full_name

  abbrev pub target_of : Option (Field × Value) → Target
  target_of none = if mapper.strict then missing else skipped
  target_of (some (g, w)) = if should_ignore g then skipped else onto g w

  unfoldable pub find_target : Field → Fields → Target
  find_target f to = if should_ignore f then skipped else target_of (find_field f.name to)

module _ (mapper : GenericMapper) (new : String → Fields) where
  -- `copyMessage` by the fields of the source in order, what it does with the value of one of them,
  -- `copyList` and `copyMap`, and what these do with an element. The target has kind `to`.
  unfoldable mutual
    pub copy_message : Fields → Fields → Result MapperError Fields
    copy_message no_fields target = ok target
    copy_message (with_field f v fs) target =
        at_target (find_target mapper f target) (copy_message fs target)
          (err (missing_field f.name))
          (λ g w. copy_value v f.kind g.kind w >>= λ u. copy_message fs (set_field f.name u target))

    pub copy_value : Value → Kind → Kind → Value → Result MapperError Value
    copy_value absent from to w = ok absent
    copy_value (scalar s) from to w = where_fits from to (ok (scalar s))
    copy_value (message fs) from to w =
        where_fits from to (as_message (copy_message fs (mutable_message new to w)))
    copy_value (items vs) from to w =
        if has (items vs)
        then where_fits from to (as_items (copy_list vs to no_items))
        else ok absent
    copy_value (entries es) from to w =
        if has (entries es)
        then where_fits from to (as_entries (copy_map es to (mutable_entries w)))
        else ok absent

    pub copy_element : Value → Kind → Result MapperError Value
    copy_element absent to = err mismatch
    copy_element (scalar s) to = ok (scalar s)
    copy_element (message fs) to = as_message (copy_message fs (new_of new (element_of to)))
    copy_element (items vs) to = err mismatch
    copy_element (entries es) to = err mismatch

    pub copy_list : Items → Kind → Items → Result MapperError Items
    copy_list no_items to target = ok target
    copy_list (with_item v vs) to target = do
      u ← copy_element v to
      copy_list vs to (append_item target u)

    pub copy_map : Entries → Kind → Entries → Result MapperError Entries
    copy_map no_entries to target = ok target
    copy_map (with_entry key v es) to target = do
      u ← copy_element v to
      copy_map es to (set_entry key u target)

  -- The same for `mergeMessage`: a field without value is left alone, a list is appended to, and the
  -- value that a map has for a key is merged with.
  unfoldable mutual
    pub merge_message : Fields → Fields → Result MapperError Fields
    merge_message no_fields target = ok target
    merge_message (with_field f v fs) target =
        at_target (find_target mapper f target) (merge_message fs target)
          (err (missing_field f.name))
          (λ g w.
            if has v
            then (merge_value v f.kind g.kind w >>= λ u.
                merge_message fs (set_field f.name u target))
            else merge_message fs target)

    pub merge_value : Value → Kind → Kind → Value → Result MapperError Value
    merge_value absent from to w = ok w
    merge_value (scalar s) from to w = where_fits from to (ok (scalar s))
    merge_value (message fs) from to w =
        where_fits from to (as_message (merge_message fs (mutable_message new to w)))
    merge_value (items vs) from to w =
        where_fits from to (as_items (copy_list vs to (mutable_items w)))
    merge_value (entries es) from to w =
        where_fits from to (as_entries (merge_map es to (mutable_entries w)))

    pub merge_map : Entries → Kind → Entries → Result MapperError Entries
    merge_map no_entries to target = ok target
    merge_map (with_entry key v es) to target = do
      u ← merge_element v to (find_entry key target)
      merge_map es to (set_entry key u target)

    pub merge_element : Value → Kind → Option Value → Result MapperError Value
    merge_element (message fs) to (some w) =
        as_message (merge_message fs (mutable_message new to w))
    merge_element v to w = copy_element v to

  -- `Copy` and `Merge`: nothing is done where one of the messages is nil.
  abbrev pub copy : Option Fields → Option Fields → Result MapperError (Option Fields)
  copy (some from) (some to) = do result ← copy_message from to; ok (some result)
  copy _ to = ok to

  abbrev pub merge : Option Fields → Option Fields → Result MapperError (Option Fields)
  merge (some from) (some to) = do result ← merge_message from to; ok (some result)
  merge _ to = ok to
