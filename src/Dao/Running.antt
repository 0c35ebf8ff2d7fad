-- ===== src/Dao/Running.antt =====
-- What the methods of generic_dao.go do where the database answers every statement.
use fulfillment_service.Common.{
  ℕ, ◌+◌, Bool, false, ◌&&◌, Option, none, some, List, [], ◌∷◌, ◌++◌, String, ◌≡◌, refl, ap, ◌∙◌,
  Result, ok, err, arith, str_eq, any, if◌then◌else◌,
}
use fulfillment_service.Database.Tx.{Session, Faults, working, query}
use fulfillment_service.Dao.Types.{
  Object, Event, EventType, Error, Row, Tables, Clause, id_is, both, overlaps, Dao, Env,
}
use fulfillment_service.Dao.Table.{selects, find_row, select_row, insert_row}
use fulfillment_service.Dao.Metadata.{get_finalizers, row_metadata, add_tenancy_filter}
use fulfillment_service.Dao.Methods.{
  decode_row, decode_found, run_callbacks, on_other, fire_event, get, create,
}
use fulfillment_service.Dao.Visibility.{sees, selects-add_tenancy_filter}

pub record NoFaults {E : Type 0} (f : Faults E) : Type 0 where
  pub begin_answers : f.begin_error ≡ none
  pub statement_answers : (n : ℕ) → f.statement_error n ≡ none

-- The session after a statement that was answered.
abbrev pub after : {E D : Type 0} → Session E D → D → Session E D
after s d = record s { real = some d; statements = s.statements + 1 }

pub query_runs :
    {E D A : Type 0} (f : Faults E) (run : D → Result E A × D) (s : Session E D)
    → NoFaults f
    → query f run s ≡ ((run (working s)).0, after s (run (working s)).1)
unfolding query
query_runs f run s n = ground (arith, n.statement_answers s.statements)

pub find_row_same :
    (p q : Row → Bool) (rs : List Row) → ((r : Row) → p r ≡ q r) → find_row p rs ≡ find_row q rs
find_row_same p q [] h = refl
find_row_same p q (x ∷ rs) h = rw (h x, find_row_same p q rs h)

module _ {P W : Type 0} (d : Dao P W) where
  -- What `get` answers for a row, or for none.
  abbrev pub object_of : Option Row → Result Error (Option (Object P))
  object_of none = ok none
  object_of (some r) = elim (decode_row d r) [ ok object ↦ ok (some object) | err x ↦ err x ]

  decode_found_runs :
      (o : Option Row) (s : Session Error (Tables W)) → (decode_found d o s).0 ≡ object_of o
  decode_found_runs none s = refl
  decode_found_runs (some r) s = ground arith

  decode_found_session :
      (o : Option Row) (s : Session Error (Tables W)) → (decode_found d o s).1 ≡ s
  decode_found_session none s = refl
  decode_found_session (some r) s = ground arith

-- The row with the identifier that the user sees.
abbrev pub row_of : List String → String → List Row → Option Row
row_of visible id = find_row (λ r. str_eq r.id id && sees visible r)

pub tenancy_answers :
    {P W : Type 0} (d : Dao P W) (visible : List String) (id : String)
    → d.visible_tenants ≡ ok visible
    → (filter : Option Clause) × (add_tenancy_filter d (some (id_is id)) ≡ ok filter)
unfolding add_tenancy_filter
tenancy_answers d [] id v = (some (id_is id), ground arith)
tenancy_answers d (t ∷ ts) id v = (some (both (id_is id) (overlaps (t ∷ ts))), ground arith)

-- The row that `create` inserts, and the object that it returns.
abbrev pub new_row : {P : Type 0} → Env → Object P → List String → List String → String → Row
new_row e object creators tenants column = record {
  id = if str_eq object.id "" then e.new_id else object.id;
  creation_timestamp = e.now;
  deletion_timestamp = 0;
  finalizers = get_finalizers object.metadata;
  creators = creators;
  tenants = tenants;
  data_column = column;
}

abbrev pub stored_as : {P : Type 0} → Object P → Row → Object P
stored_as object r = record {
  id = r.id;
  metadata = some (row_metadata r);
  payload = object.payload;
}

module _ {P W : Type 0} (d : Dao P W) (e : Env) (n : NoFaults e.faults) where
  pub read_runs :
      (visible : List String) (id : String) (filter : Option Clause) (s : Session Error (Tables W))
      → d.visible_tenants ≡ ok visible
      → add_tenancy_filter d (some (id_is id)) ≡ ok filter
      → find_row (selects e.where_holds filter) (working s).rows
        ≡ row_of visible id (working s).rows
  read_runs visible id filter s v f =
      find_row_same _ _ (working s).rows
        (λ r. selects-add_tenancy_filter d e.where_holds visible (some (id_is id)) filter r v f)

  pub get_runs :
      (visible : List String) (id : String) (s : Session Error (Tables W))
      → d.visible_tenants ≡ ok visible
      → str_eq id "" ≡ false
      → (get d e id s).0 ≡ object_of d (row_of visible id (working s).rows)
  unfolding get
  get_runs visible id s v given =
      let (filter, f) = tenancy_answers d visible id v in
      rw (given, f, query_runs e.faults (select_row (selects e.where_holds filter)) s n)
        (decode_found_runs d _ _ ∙ ap (object_of d) (read_runs visible id filter s v f))

  -- The session in which `get` leaves the transaction.
  pub get_session :
      (visible : List String) (id : String) (s : Session Error (Tables W))
      → d.visible_tenants ≡ ok visible
      → str_eq id "" ≡ false
      → (get d e id s).1 ≡ after s (working s)
  unfolding get
  get_session visible id s v given =
      let (filter, f) = tenancy_answers d visible id v in
      rw (given, f, query_runs e.faults (select_row (selects e.where_holds filter)) s n)
        (decode_found_session d _ _)

  pub create_runs :
      (object : Object P) (creators tenants : List String) (column : String) (w : W)
      (s : Session Error (Tables W))
      → d.assigned_creators ≡ ok creators
      → d.assigned_tenants ≡ ok tenants
      → d.marshal_data object.payload ≡ ok column
      → (any (λ r. str_eq r.id (new_row e object creators tenants column).id) (working s).rows)
        ≡ false
      → run_callbacks d.event_callbacks
          (record {
            type = EventType.created;
            table = d.table;
            object = stored_as object (new_row e object creators tenants column);
          })
          (working s).other
        ≡ (ok tt, w)
      → (s' : Session Error (Tables W)) × (create d e object s
          ≡ (ok (stored_as object (new_row e object creators tenants column)), s'))
        × (working s' ≡ record (working s) {
          rows = (working s).rows ++ new_row e object creators tenants column ∷ [];
          other = w;
        })
  unfolding create fire_event
  create_runs object creators tenants column w s c t m fresh fired =
      let row = new_row e object creators tenants column in
      let t1 : Tables W = record (working s) { rows = (working s).rows ++ row ∷ [] } in
      let s1 = after s t1 in
      let event : Event P = record {
        type = EventType.created;
        table = d.table;
        object = stored_as object row;
      } in
      (
        after s1 (record t1 { other = w }),
        rw (c, t, m, query_runs e.faults (insert_row row) s n, fresh)
            (rw
              (query_runs e.faults (on_other (run_callbacks d.event_callbacks event)) s1 n, fired)),
        refl,
      )
