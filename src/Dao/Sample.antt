-- ===== src/Dao/Sample.antt =====
-- A small table, for tests: two clusters of one tenant and one of another.
use fulfillment_service.Common.{none, some, List, [], ◌∷◌, String, refl, Result, ok, str_eq}
use fulfillment_service.Database.Tx.{Session, Faults, begin}
use fulfillment_service.Dao.Types.{Object, Event, Error, Row, Tables, Dao, Env}
use fulfillment_service.Dao.Metadata.{string_leb, row_metadata}
use fulfillment_service.Dao.Running.{NoFaults}

-- A callback that keeps the identifiers of the objects that it was told of.
abbrev pub note : Event String → List String → Result Error (Unit {0}) × List String
note ev seen = (ok tt, ev.object.id ∷ seen)

abbrev pub dao : Dao String (List String)
dao = record {
  table = "clusters";
  default_limit = 1;
  max_limit = 2;
  event_callbacks = note ∷ [];
  translate = λ text. ok text;
  assigned_creators = ok ("my_user" ∷ []);
  assigned_tenants = ok ("my_tenant" ∷ []);
  visible_tenants = ok ("my_tenant" ∷ []);
  marshal_data = λ payload. ok payload;
  unmarshal_data = λ text. ok text;
  equal_payload = str_eq;
}

abbrev pub no_faults : Faults Error
no_faults = record {
  begin_error = none;
  statement_error = λ n. none;
  commit_error = none;
  rollback_error = none;
}

abbrev pub env : Env
env = record {
  now = 7;
  new_id = "generated";
  faults = no_faults;
  where_holds = λ sql r. str_eq sql r.data_column;
  before = string_leb;
}

abbrev pub answering : NoFaults no_faults
answering = record { begin_answers = refl; statement_answers = λ n. refl }

abbrev pub row : String → String → List String → Row
row id tenant finalizers = record {
  id = id;
  creation_timestamp = 5;
  deletion_timestamp = 0;
  finalizers = finalizers;
  creators = "my_user" ∷ [];
  tenants = tenant ∷ [];
  data_column = "data";
}

abbrev pub held : Row
held = row "held" "my_tenant" ("hub" ∷ [])

abbrev pub free : Row
free = row "free" "my_tenant" []

abbrev pub foreign : Row
foreign = row "foreign" "your_tenant" []

abbrev pub tables : Tables (List String)
tables = record { rows = held ∷ foreign ∷ free ∷ []; archived = []; other = [] }

abbrev pub session : Session Error (Tables (List String))
session = begin 0 tables

abbrev pub visible : List String
visible = "my_tenant" ∷ []

abbrev pub object : String → Object String
object id = record { id = id; metadata = none; payload = "new" }

abbrev pub read : Row → Object String
read r = record { id = r.id; metadata = some (row_metadata r); payload = r.data_column }
