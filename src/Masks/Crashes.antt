-- ===== src/Masks/Crashes.antt =====
-- Paths that make reflection panic.
use fulfillment_service.Common.{[], ◌∷◌, some, none, String, ok, err, ◌≡◌, refl, arith}
use fulfillment_service.Common.Int.{pos}
use fulfillment_service.Api.Message.{
  plain, singular, Field, Value, scalar, message, Fields, Items, no_items, with_item, find_field,
}
use fulfillment_service.Masks.Path.{
  field_step, PathStep, panic, item_at, items_length, get_item, get_steps,
}
use fulfillment_service.Masks.Compiler.{compile_segments}

-- The name of a field without fields of its own and the name of another field of the message are a
-- path: it is accepted, and getting it panics wherever the first field is populated.
compile_plain :
    (new : String → Fields) (type first second kind : String) (f g : Field) (w x : Value)
    → find_field first (new type) ≡ some (f, w)
    → f.kind ≡ singular (plain kind)
    → find_field second (new type) ≡ some (g, x)
    → compile_segments new type (first ∷ second ∷ [])
      ≡ ok (record { kind = field_step; field = f } ∷ record { kind = field_step; field = g } ∷ [])
unfolding compile_segments
compile_plain new type first second kind f g w x declared is other =
    ground (arith, declared, is, other)

get_plain :
    (f : Field) (next : PathStep) (text : String) (fs : Fields)
    → find_field f.name fs ≡ some (f, scalar text)
    → get_steps (record { kind = field_step; field = f } ∷ next ∷ []) (message fs) ≡ err panic
unfolding get_steps
get_plain f next text fs found = ground (arith, found)

item_at-length : (vs : Items) → item_at (items_length vs) vs ≡ none
item_at-length no_items = refl
item_at-length (with_item v vs) = item_at-length vs

-- An index that is the length of the list is not refused, but the list has no such item.
get_item-length : (vs : Items) → get_item (pos (items_length vs)) vs ≡ err panic
get_item-length vs = ground (arith, item_at-length vs)
