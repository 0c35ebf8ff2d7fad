-- ===== src/Servers/PublicTests.antt =====
-- A public server over the generic server, whose public and private messages are both notes.
use fulfillment_service.Common.{
  none, Option, Bool-cases, inl, inr, sym, true, false, some, [], ◌∷◌, String, List, ◌≡◌, refl, ok,
  str_eq, if◌then◌else◌,
}
use fulfillment_service.Common.Int.{pos, int32}
use fulfillment_service.Database.Tx.{query, reporting, report_error}
use fulfillment_service.Dao.Types.{Object, Store}
use fulfillment_service.Dao.Metadata.{add_tenancy_filter, string_leb}
use fulfillment_service.Dao.Listing.{
  ListRequest, ListResponse, list, list_filter, decode_rows, effective_limit,
}
use fulfillment_service.Dao.Sample.{dao, env, session, object}
use fulfillment_service.Servers.Generic.{Paths, Status, UpdateRequest, list_objects}
use fulfillment_service.Servers.Public.{
  Server, Mappers, create_public, list_public, get_public, update_replacing, update_merged,
  copy_items,
}
use fulfillment_service.Servers.PublicServers.{generic_methods}
use fulfillment_service.Servers.Mapped.{AreCopied, list_public-AreCopied, IsMapping}
use fulfillment_service.Servers.Processed.{IsProcessed, methods-IsProcessed}
use fulfillment_service.Servers.Mapper.{
  GenericMapper, MapperBuilder, build_mapper, ignore_fields, copy_message, find_target,
}
use fulfillment_service.Servers.MapperTypes.{Fit, AreTyped, IsMessage, AreReady}
use fulfillment_service.Api.Message.{
  plain, singular, Field, Value, absent, scalar, Fields, no_fields, with_field, find_field,
  set_field,
}
use mathlib.Core.Path.{subst}

abbrev paths : Paths String
paths = record {
  Compiled = String;
  Value = String;
  compile = λ text. ok text;
  get_value = λ path o. some o.payload;
  set_value = λ path o value. record o { payload = value };
  clear_value = λ path o. record o { payload = "" };
}

abbrev id_field : Field
id_field = record { name = "id"; full_name = "Note.id"; kind = singular (plain "string") }

abbrev text_field : Field
text_field = record { name = "text"; full_name = "Note.text"; kind = singular (plain "string") }

abbrev note : Value → Value → Fields
note id text = with_field id_field id (with_field text_field text no_fields)

abbrev new : String → Fields
new type = if str_eq type "Note" then note absent absent else no_fields

abbrev text_of : Option (Field × Value) → String
text_of (some (f, scalar text)) = text
text_of _ = ""

abbrev fields_of : Object String → Fields
fields_of o = note (scalar o.id) (scalar o.payload)

abbrev object_of : Fields → Object String
object_of fs = record {
  id = text_of (find_field "id" fs);
  metadata = none;
  payload = text_of (find_field "text" fs);
}

abbrev mapper : GenericMapper
mapper = record { strict = false; ignored_names = []; ignored_full_names = [] }

-- Both messages are notes.
abbrev mappers : Mappers String String
mappers = record {
  in_mapper = mapper;
  out_mapper = mapper;
  new_message = new;
  new_public = object "";
  new_private = object "";
  public_fields = fields_of;
  private_fields = fields_of;
  public_of = object_of;
  private_of = object_of;
}

data Pairs : String → String → Type 0 where
  notes : Pairs "Note" "Note"

text_Fit :
    (g h : Field) (v w : Value)
    → g.kind ≡ singular (plain "string")
    → ◌≡◌ {A = Option (Field × Value)} (some (g, v)) (some (h, w))
    → Fit new Pairs (singular (plain "string")) h.kind
text_Fit g h v w kind is =
    subst
      (λ (o : Option (Field × Value)). elim o [
        | none ↦ Unit
        | some p ↦ Fit new Pairs (singular (plain "string")) p.0.kind
      ])
      is (subst (Fit new Pairs (singular (plain "string"))) (sym kind) (refl, tt))

note-AreReady : (t u : String) → Pairs t u → AreReady new Pairs u (new t)
unfolding find_field
note-AreReady _ _ notes = (
  (λ g w h. text_Fit id_field g absent w refl h),
  ((λ g w h. text_Fit text_field g absent w refl h), tt),
)

new-AreTyped : (type : String) → AreTyped new (new type)
unfolding AreTyped
new-AreTyped type = elim (Bool-cases (str_eq type "Note")) [
  | inl is ↦ rw is (tt, (tt, tt))
  | inr other ↦ rw other tt
]

note-IsMessage : (o : Object String) → IsMessage new "Note" (fields_of o)
unfolding AreTyped
note-IsMessage o = ((refl, (refl, tt)), (tt, (tt, tt)))

abbrev builder : MapperBuilder
builder = record { has_logger = true; strict = true; ignored_fields = [] }

mappers-IsMapping : IsMapping mappers Pairs
unfolding build_mapper ignore_fields
mappers-IsMapping = record {
  in_builder = builder;
  out_builder = builder;
  in_built = refl;
  out_built = refl;
  public_type = "Note";
  private_type = "Note";
  in_pair = notes;
  out_pair = notes;
  new_typed = new-AreTyped;
  ready = note-AreReady;
  public_typed = note-IsMessage;
  private_typed = note-IsMessage;
}

abbrev server : Server Status (Store (List String)) String
server = generic_methods dao env paths

methods-IsProcessed_example :
    ((request : ListRequest) (s : Store (List String))
      → IsProcessed (list_public mappers server request s).0)
    × ((id : String) (s : Store (List String)) → IsProcessed (get_public mappers server id s).0)
    × ((o : Option (Object String)) (s : Store (List String))
        → IsProcessed (create_public mappers server o s).0)
    × ((request : UpdateRequest String) (s : Store (List String))
        → IsProcessed (update_replacing mappers server request s).0)
    × ((mask : Option (List String) → Option (List String)) (request : UpdateRequest String)
          (s : Store (List String))
        → IsProcessed (update_merged mappers server mask request s).0)
methods-IsProcessed_example = methods-IsProcessed mappers server Pairs mappers-IsMapping

abbrev request : ListRequest
request = record { offset = pos 0; limit = pos 1; filter = "" }

abbrev listed : ListResponse String
listed = record {
  size = pos 1;
  total = pos 2;
  items = record { id = "free"; metadata = none; payload = "data" } ∷ [];
}

list_public-AreCopied_example :
    (private : ListResponse String) × ((generic_methods dao env paths).list request session
      ≡ (ok private, (list_objects dao env request session).1))
    × (listed.size ≡ private.size)
    × (listed.total ≡ private.total)
    × AreCopied mappers (generic_methods dao env paths) private.items listed.items
unfolding generic_methods list_objects reporting report_error list list_public copy_items query
    list_filter add_tenancy_filter decode_rows effective_limit string_leb int32 copy_message
    find_field set_field find_target
list_public-AreCopied_example =
    list_public-AreCopied mappers (generic_methods dao env paths) request listed session
      (list_objects dao env request session).1 refl
