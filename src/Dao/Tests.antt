-- ===== src/Dao/Tests.antt =====
-- The methods of generic_dao.go on a small table.
use Prim.Native.Char.{code}
use mathlib.Core.List.{Perm}
use fulfillment_service.Common.{
  ℕ, length, ◌≤◌, arith, leb, Bool, true, false, some, List, [], ◌∷◌, String, ◌≡◌, refl, ok, inl,
  inr, str_eq,
}
use fulfillment_service.Common.Int.{pos, int32}
use fulfillment_service.Database.Tx.{
  Session, working, query, ensure_real, end, reporting, report_error,
}
use fulfillment_service.Database.Interceptor.{unary_server}
use fulfillment_service.Dao.Types.{Object, Error, failure, Row, Tables, Env, raw, both, overlaps}
use fulfillment_service.Dao.Metadata.{string_leb, get_finalizers, add_tenancy_filter}
use fulfillment_service.Dao.Methods.{run_callbacks, get, create, update_write, update, delete}
use fulfillment_service.Dao.Listing.{
  ListRequest, ListResponse, list, list_filter, effective_limit, decode_rows,
}
use fulfillment_service.Dao.Invariant.{IsWellFormed}
use fulfillment_service.Dao.Build.{Schema, Builder, new_builder, build, assemble, list-bounded}
use fulfillment_service.Dao.Calls.{
  create_call, delete_call, invoke, serve_call, serve, serve-IsWellFormed, serve_call_error,
}
use fulfillment_service.Dao.Reading.{Found, get-Found}
use fulfillment_service.Dao.Listed.{IsListing, list-IsListing}
use fulfillment_service.Dao.Paging.{IsOrdered}
use fulfillment_service.Dao.Walking.{wanted, walk, walk-IsOrdered}
use fulfillment_service.Dao.Running.{new_row, stored_as}
use fulfillment_service.Dao.Writing.{deleted_tables, delete_runs}
use fulfillment_service.Dao.Updating.{write, updated_tables, update_write_runs}
use fulfillment_service.Dao.Effects.{get-create, update_unseen}
use fulfillment_service.Dao.Sample.{
  note, dao, env, answering, held, free, foreign, tables, session, visible, object, read,
}

get-Found_example :
    (working (get dao env "held" session).1 ≡ tables)
    × Found dao visible "held" (some (read held)) tables.rows
unfolding get query ensure_real add_tenancy_filter
get-Found_example = get-Found dao env visible refl "held" session (some (read held)) refl

abbrev first_page : ListRequest
first_page = record { offset = pos 0; limit = pos 5; filter = "data" }

-- Two rows match and are seen, in the order of their identifiers.
abbrev two_items : ListResponse String
two_items = record { size = pos 2; total = pos 2; items = read free ∷ read held ∷ [] }

list-IsListing_example :
    (working (list dao env first_page session).1 ≡ tables)
    × IsListing dao env visible first_page tables.rows two_items
unfolding list list_filter query ensure_real add_tenancy_filter string_leb effective_limit
    decode_rows int32
list-IsListing_example = list-IsListing dao env visible refl first_page session two_items refl

abbrev created_row : Row
created_row = new_row env (object "") ("my_user" ∷ []) visible "new"

get-create_example :
    (s' : Session Error (Tables (List String))) × (create dao env (object "") session
      ≡ (ok (stored_as (object "") created_row), s'))
    × ((get dao env "generated" s').0 ≡ ok (some (stored_as (object "") created_row)))
unfolding run_callbacks get_finalizers
get-create_example =
    get-create dao env answering (object "") visible ("my_user" ∷ []) visible "new"
      ("generated" ∷ []) session refl refl refl refl refl refl refl
      (inr ("my_tenant", inl refl, inl refl)) refl

delete_runs_example :
    ((delete dao env "held" session).0 ≡ ok tt)
    × (working (delete dao env "held" session).1
        ≡ deleted_tables env visible "held" held ("held" ∷ []) tables)
unfolding run_callbacks
delete_runs_example =
    delete_runs dao env answering visible "held" held
      (read (record held { deletion_timestamp = 7 })) ("held" ∷ []) session refl refl refl refl refl

abbrev saved : Row → Object String
saved r = stored_as (object r.id) (write [] "new" r)

update_write_runs_example :
    (s' : Session Error (Tables (List String))) × (update_write dao env (object "held") session
      ≡ (ok (some (saved held)), s'))
    × (working s' ≡ updated_tables "held" [] "new" held ("held" ∷ []) tables)
unfolding run_callbacks get_finalizers
update_write_runs_example =
    update_write_runs dao env answering (object "held") "new" held ("held" ∷ []) session refl refl
      refl

update_unseen_example :
    (s' : Session Error (Tables (List String))) × (update dao env (object "foreign") session
      ≡ (ok (some (saved foreign)), s'))
    × (working s' ≡ updated_tables "foreign" [] "new" foreign ("foreign" ∷ []) tables)
unfolding run_callbacks get_finalizers
update_unseen_example =
    update_unseen dao env answering visible (object "foreign") "new" foreign ("foreign" ∷ [])
      session refl refl refl refl refl refl

serve-IsWellFormed_example :
    IsWellFormed
      (serve ((dao, env, delete_call "free") ∷ (dao, env, create_call (object "")) ∷ []) tables)
serve-IsWellFormed_example =
    serve-IsWellFormed ((dao, env, delete_call "free") ∷ (dao, env, create_call (object "")) ∷ [])
      tables
      (record {
        unique = ((refl, (refl, tt)), ((refl, tt), (tt, tt)));
        live = (refl, (refl, (refl, tt)));
      })

serve_call_error_example : (serve_call dao env (create_call (object "free")) tables).1 ≡ tables
unfolding serve_call invoke unary_server reporting report_error end create query ensure_real
    get_finalizers
serve_call_error_example =
    serve_call_error dao env (create_call (object "free")) tables
      (failure "duplicate key value violates unique constraint") refl

-- An order of the identifiers, by their first letter.
abbrev initial : String → ℕ
initial String.[] = 0
initial (String.◌∷◌ c s) = code c

abbrev by_initial : String → String → Bool
by_initial j k = leb (initial j) (initial k)

by_initial-total : (j k : String) → by_initial j k ≡ false → by_initial k j ≡ true
by_initial-total j k h = ground arith

by_initial-transitive :
    (i j k : String) → by_initial i j ≡ true → by_initial j k ≡ true → by_initial i k ≡ true
by_initial-transitive i j k g h = ground arith

abbrev ordering_env : Env
ordering_env = record env { before = by_initial }

-- Two pages of one row.
walk-IsOrdered_example :
    (rs : List Row) × (objects : List (Object String)) × Perm rs
      (wanted dao ordering_env visible "data" tables.rows)
    × IsOrdered by_initial rs
    × (decode_rows dao rs ≡ ok objects)
    × (walk dao ordering_env "data" 1 2 0 tables ≡ (ok objects, tables))
unfolding list_filter add_tenancy_filter
walk-IsOrdered_example =
    walk-IsOrdered dao ordering_env answering visible refl by_initial-total by_initial-transitive
      "data" (some (both (raw "data") (overlaps visible))) 0 2 tables refl refl (omega arith)
      (omega arith) ((read held, refl), ((read free, refl), tt))

abbrev schema : Schema String
schema = record {
  has_id = true;
  has_metadata = true;
  json_encoder = ok (λ payload. ok payload);
  filter_translator = ok (λ text. ok text);
  default_attribution = ok (record { assigned_creators = ok ("my_user" ∷ []) });
  unmarshal_data = λ text. ok text;
  equal_payload = str_eq;
}

abbrev builder : Builder String (List String)
builder = record new_builder {
  logger = true;
  table = "clusters";
  default_limit = pos 1;
  max_limit = pos 2;
  event_callbacks = note ∷ [];
  tenancy_logic = some (record { assigned_tenants = ok visible; visible_tenants = ok visible });
}

list-bounded_example : length two_items.items ≤ dao.max_limit
unfolding build assemble list list_filter query ensure_real add_tenancy_filter string_leb
    effective_limit decode_rows int32
list-bounded_example =
    list-bounded schema builder dao env visible first_page session two_items refl refl refl
