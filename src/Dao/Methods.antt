-- ===== src/Dao/Methods.antt =====
-- generic_dao.go: `get`, `exists`, `create`, `update`, `delete`, `archive` and `fireEvent`.

use fulfillment_service.Common.{
  Bool, true, false, not, ◌&&◌, Option, none, some, List, [], ◌∷◌, String, Result, ok, err, ◌==◌,
  ltb, str_eq, length, if◌then◌else◌,
}
use fulfillment_service.Common.Exec.{pure, raise, lift, ◌>>=◌, ◌>>◌}
use fulfillment_service.Database.Tx.{query}
use fulfillment_service.Dao.Types.{
  Object, EventType, Event, Error, mandatory_id, no_rows, not_found, Row, Tables, id_is, Dao, Env,
  Method,
}
use fulfillment_service.Dao.Table.{
  selects, select_row, select_rows, insert_row, update_row, insert_archived, delete_row,
}
use fulfillment_service.Dao.Metadata.{get_finalizers, row_metadata, equivalent, add_tenancy_filter}

-- `&ErrNotFound{…}` or an error, where `Scan` found no row.
abbrev pub or_error : {A W : Type 0} → Error → Option A → Method W A
or_error e none = raise e
or_error e (some a) = pure a

-- A callback, on what it may write.
abbrev pub on_other :
    {W : Type 0} → (W → Result Error (Unit {0}) × W) → Tables W → Result Error (Unit {0}) × Tables W
on_other f t = let (r, w) = f t.other in (r, record t { other = w })

module _ {P W : Type 0} where
  -- The object of a row: `newObject`, `unmarshalData`, `SetId` and `setMetadata`.
  abbrev pub decode_row : Dao P W → Row → Result Error (Object P)
  decode_row d r = elim (d.unmarshal_data r.data_column) [
    | ok p ↦ ok (record { id = r.id; metadata = some (row_metadata r); payload = p })
    | err e ↦ err e
  ]

  -- What `get` returns for the row that it found.
  abbrev pub decode_found : Dao P W → Option Row → Method W (Option (Object P))
  decode_found d none = pure none
  decode_found d (some r) = do object ← lift (decode_row d r); pure (some object)

  -- The callbacks in the order in which they were added, up to the first that fails.
  unfoldable pub run_callbacks :
      List (Event P → W → Result Error (Unit {0}) × W) → Event P → W → Result Error (Unit {0}) × W
  run_callbacks [] ev w = (ok tt, w)
  run_callbacks (c ∷ cs) ev w =
      let (r, w') = c ev w in elim r [ ok _ ↦ run_callbacks cs ev w' | err e ↦ (err e, w') ]

  module _ (d : Dao P W) (e : Env) where
    -- The callbacks write through the same transaction.
    unfoldable pub fire_event : EventType → Object P → Method W (Unit {0})
    fire_event type object = query e.faults (
        on_other (
          run_callbacks d.event_callbacks
            (record { type = type; table = d.table; object = object })))

    unfoldable pub archive : Row → Method W (Unit {0})
    archive r = do
      query e.faults (
          insert_archived (record {
            id = r.id;
            creation_timestamp = r.creation_timestamp;
            deletion_timestamp = r.deletion_timestamp;
            creators = r.creators;
            tenants = r.tenants;
            data_column = r.data_column;
          }))
      query e.faults (delete_row r.id)

    abbrev pub archive_if : Bool → Row → Method W (Unit {0})
    archive_if true r = archive r
    archive_if false r = pure tt

    -- `get`: nothing, and no error, where no visible row has the identifier.
    unfoldable pub get : String → Method W (Option (Object P))
    get id = if str_eq id "" then raise mandatory_id else do
      filter ← lift (add_tenancy_filter d (some (id_is id)))
      found ← query e.faults (select_row (selects e.where_holds filter))
      elim found [
        | none ↦ pure none
        | some r ↦ (do object ← lift (decode_row d r); pure (some object))
      ]

    unfoldable pub exists : String → Method W Bool
    exists id = if str_eq id "" then raise mandatory_id else do
      filter ← lift (add_tenancy_filter d (some (id_is id)))
      counted ← query e.faults (select_rows (selects e.where_holds filter))
      pure (ltb 0 (length counted))

    unfoldable pub create : Object P → Method W (Object P)
    create object = do
      let id : String = if str_eq object.id "" then e.new_id else object.id
      let finalizers : List String = get_finalizers object.metadata
      creators ← lift d.assigned_creators
      tenants ← lift d.assigned_tenants
      column ← lift (d.marshal_data object.payload)
      row ← query e.faults (
          insert_row (record {
            id = id;
            creation_timestamp = e.now;
            deletion_timestamp = 0;
            finalizers = finalizers;
            creators = creators;
            tenants = tenants;
            data_column = column;
          }))
      let created : Object P = record {
        id = id;
        metadata = some (row_metadata row);
        payload = object.payload;
      }
      fire_event EventType.created created
      pure created

    -- The part of `update` that writes. The statement has no tenancy filter.
    unfoldable pub update_write : Object P → Method W (Option (Object P))
    update_write object = do
      let finalizers : List String = get_finalizers object.metadata
      column ← lift (d.marshal_data object.payload)
      found ← query e.faults (
          update_row (λ r. str_eq r.id object.id)
            (λ r. record r { finalizers = finalizers; data_column = column }))
      row ← or_error no_rows found
      let updated : Object P = record {
        id = object.id;
        metadata = some (row_metadata row);
        payload = object.payload;
      }
      fire_event EventType.updated updated
      archive_if (not (row.deletion_timestamp == 0) && (length finalizers == 0)) row
      pure (some updated)

    -- `update`: nothing is written, and nothing returned, if there are no changes.
    unfoldable pub update : Object P → Method W (Option (Object P))
    update object = if str_eq object.id "" then raise mandatory_id else do
      current ← get object.id
      if equivalent d current object then pure none else update_write object

    unfoldable pub delete : String → Method W (Unit {0})
    delete id = if str_eq id "" then raise mandatory_id else do
      filter ← lift (add_tenancy_filter d (some (id_is id)))
      found ←
          query e.faults (
            update_row (selects e.where_holds filter)
              (λ r. record r { deletion_timestamp = e.now }))
      row ← or_error (not_found id) found
      object ← lift (decode_row d row)
      fire_event EventType.deleted object
      archive_if (length row.finalizers == 0) row
