-- ===== src/Servers/MapperTypes.antt =====
-- Types of messages, and that the mapper keeps them: where the fields that two types share have kinds
-- that fit, reflection never panics.
use fulfillment_service.Common.{true, some, String, Result, ok, err, ◌≡◌}
use fulfillment_service.Api.Message.{
  ElementKind, plain, message_of, Kind, singular, list_of, map_of, Field, Value, absent, scalar,
  message, items, entries, Fields, no_fields, with_field, Items, no_items, with_item, Entries,
  no_entries, with_entry, element_of, find_field,
}
use fulfillment_service.Servers.Mapper.{MapperError, mismatch, fits}

-- Not a panic of reflection, and with a property of what is returned.
abbrev pub IsSafe : {A : Type 0} → (A → Type 0) → Result MapperError A → Type 0
IsSafe P (ok a) = P a
IsSafe P (err mismatch) = ⊥
IsSafe P (err _) = Unit

-- The same fields in the same order, whatever their values.
abbrev pub AreSame : Fields → Fields → Type 0
AreSame no_fields no_fields = Unit
AreSame no_fields (with_field g w gs) = ⊥
AreSame (with_field f v fs) no_fields = ⊥
AreSame (with_field f v fs) (with_field g w gs) = (f ≡ g) × AreSame fs gs

module _ (new : String → Fields) where
  abbrev pub IsPlain : ElementKind → Type 0
  IsPlain (plain type) = Unit
  IsPlain (message_of type) = ⊥

  abbrev pub IsOfElement : ElementKind → Fields → Type 0
  IsOfElement (plain type) fs = ⊥
  IsOfElement (message_of type) fs = AreSame fs (new type)

  abbrev pub IsScalar : Kind → Type 0
  IsScalar (singular e) = IsPlain e
  IsScalar _ = ⊥

  abbrev pub IsOf : Kind → Fields → Type 0
  IsOf (singular e) fs = IsOfElement e fs
  IsOf _ fs = ⊥

  abbrev pub IsList : Kind → Type 0
  IsList (list_of e) = Unit
  IsList _ = ⊥

  abbrev pub IsMap : Kind → Type 0
  IsMap (map_of key e) = Unit
  IsMap _ = ⊥

  -- The values of the fields have the kinds of the fields.
  unfoldable mutual
    pub AreTyped : Fields → Type 0
    AreTyped no_fields = Unit
    AreTyped (with_field f v fs) = IsValue v f.kind × AreTyped fs

    pub IsValue : Value → Kind → Type 0
    IsValue absent kind = Unit
    IsValue (scalar s) kind = IsScalar kind
    IsValue (message fs) kind = IsOf kind fs × AreTyped fs
    IsValue (items vs) kind = IsList kind × AreItems vs (element_of kind)
    IsValue (entries es) kind = IsMap kind × AreEntries es (element_of kind)

    pub IsElement : Value → ElementKind → Type 0
    IsElement absent e = ⊥
    IsElement (scalar s) e = IsPlain e
    IsElement (message fs) e = IsOfElement e fs × AreTyped fs
    IsElement (items vs) e = ⊥
    IsElement (entries es) e = ⊥

    pub AreItems : Items → ElementKind → Type 0
    AreItems no_items e = Unit
    AreItems (with_item v vs) e = IsElement v e × AreItems vs e

    pub AreEntries : Entries → ElementKind → Type 0
    AreEntries no_entries e = Unit
    AreEntries (with_entry key v es) e = IsElement v e × AreEntries es e

  -- A message of a type.
  abbrev pub IsMessage : String → Fields → Type 0
  IsMessage type fs = AreSame fs (new type) × AreTyped fs

  module _ (Pairs : String → String → Type 0) where
    abbrev pub FitElements : ElementKind → ElementKind → Type 0
    FitElements (message_of t) (message_of u) = Pairs t u
    FitElements _ _ = Unit

    -- Kinds that fit, with types of messages that are mapped to one another.
    abbrev pub Fit : Kind → Kind → Type 0
    Fit from to = (fits from to ≡ true) × FitElements (element_of from) (element_of to)

    -- The fields that the type has under the names of those of a message fit them.
    abbrev pub AreReady : String → Fields → Type 0
    AreReady type no_fields = Unit
    AreReady type (with_field f v fs) =
        ((g : Field) (w : Value) → find_field f.name (new type) ≡ some (g, w) → Fit f.kind g.kind)
        × AreReady type fs
