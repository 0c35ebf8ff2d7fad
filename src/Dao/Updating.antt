-- ===== src/Dao/Updating.antt =====
-- What `update` of generic_dao.go writes where the database answers every statement.
use fulfillment_service.Common.{
  false, not, ◌&&◌, Option, some, List, [], ◌∷◌, ◌++◌, String, ◌≡◌, refl, ◌∙◌, ok, ◌==◌, length,
  str_eq, str_eq_iff_eq, if◌then◌else◌,
}
use fulfillment_service.Database.Tx.{Session, working}
use fulfillment_service.Dao.Types.{Object, EventType, Error, Row, Tables, Dao, Env}
use fulfillment_service.Dao.Table.{find_row, update_rows, update_row, delete_rows}
use fulfillment_service.Dao.Metadata.{get_finalizers, row_metadata, equivalent}
use fulfillment_service.Dao.Methods.{run_callbacks, update, update_write}
use fulfillment_service.Dao.Visibility.{find_row-some}
use fulfillment_service.Dao.Running.{
  NoFaults, after, query_runs, object_of, row_of, get_runs, get_session,
}
use fulfillment_service.Dao.Writing.{
  archived_copy, archived_tables, delete-update, update_row-some, fire_runs, archive_if_runs,
}

-- What `update` writes to the row with the identifier.
abbrev pub write : List String → String → Row → Row
write finalizers column r = record r { finalizers = finalizers; data_column = column }

abbrev pub updated_tables :
    {W : Type 0} → String → List String → String → Row → W → Tables W → Tables W
updated_tables id finalizers column r w t =
    if not (r.deletion_timestamp == 0) && (length finalizers == 0)
    then record t {
      rows = delete_rows id t.rows;
      archived = t.archived ++ archived_copy (write finalizers column r) ∷ [];
      other = w;
    }
    else record t {
      rows = update_rows (λ x. str_eq x.id id) (write finalizers column) t.rows;
      other = w;
    }

module _ {P W : Type 0} (d : Dao P W) (e : Env) (n : NoFaults e.faults) where
  updated_shape :
      (id : String) (fs : List String) (column : String) (r : Row) (w : W) (t : Tables W)
      → r.id ≡ id
      → (if not (r.deletion_timestamp == 0) && (length fs == 0)
          then archived_tables (write fs column r) (record t {
            rows = update_rows (λ x. str_eq x.id id) (write fs column) t.rows;
            other = w;
          })
          else record t {
            rows = update_rows (λ x. str_eq x.id id) (write fs column) t.rows;
            other = w;
          })
        ≡ updated_tables id fs column r w t
  updated_shape id fs column r w t at_id = rw (
    at_id,
    delete-update id (λ x. str_eq x.id id) (write fs column) t.rows (λ x. refl) (λ x h. h),
  )

  -- Where the database answers every statement and the callbacks succeed, the part of update that
  -- writes finds the row by its identifier alone, whoever sees it. Finalizers and data change,
  -- nothing else; a deleted row that loses its last finalizer is archived.
  pub update_write_runs :
      (object : Object P) (column : String) (r : Row) (w : W) (s : Session Error (Tables W))
      → d.marshal_data object.payload ≡ ok column
      → find_row (λ x. str_eq x.id object.id) (working s).rows ≡ some r
      → run_callbacks d.event_callbacks
          (record {
            type = EventType.updated;
            table = d.table;
            object = record {
              id = object.id;
              metadata = some (row_metadata (write (get_finalizers object.metadata) column r));
              payload = object.payload;
            };
          })
          (working s).other
        ≡ (ok tt, w)
      → (s' : Session Error (Tables W)) × (update_write d e object s ≡ (
        ok (
            some (record {
              id = object.id;
              metadata = some (row_metadata (write (get_finalizers object.metadata) column r));
              payload = object.payload;
            })),
        s',
      ))
        × (working s'
            ≡ updated_tables object.id (get_finalizers object.metadata) column r w (working s))
  unfolding update_write
  update_write_runs object column r w s m found fired =
      let fs = get_finalizers object.metadata in
      let t1 : Tables W = record (working s) {
        rows = update_rows (λ x. str_eq x.id object.id) (write fs column) (working s).rows;
      } in
      let s1 = after s t1 in
      let s2 = after s1 (record t1 { other = w }) in
      let saved : Object P = record {
        id = object.id;
        metadata = some (row_metadata (write fs column r));
        payload = object.payload;
      } in
      let (s3, archived, shape) =
        archive_if_runs d e n (not (r.deletion_timestamp == 0) && (length fs == 0))
          (write fs column r) s2 in
      let at_id : r.id ≡ object.id =
        let (inside, chosen) =
          find_row-some (λ x. str_eq x.id object.id) (working s).rows r found in
        str_eq_iff_eq r.id object.id chosen in
      (
        s3,
        rw
            (
              m,
              query_runs e.faults (update_row (λ x. str_eq x.id object.id) (write fs column)) s n,
              update_row-some (λ x. str_eq x.id object.id) (write fs column) r (working s) found,
            )
            (rw (fire_runs d e n EventType.updated saved w s1 fired) (rw archived)),
        shape ∙ updated_shape object.id fs column r w (working s) at_id,
      )

  -- `update` as a whole, where the object isn't equivalent to what the user sees.
  pub update_runs :
      (visible : List String) (object : Object P) (current : Option (Object P))
      (s : Session Error (Tables W)) (o : Option (Object P)) (s' : Session Error (Tables W))
      → d.visible_tenants ≡ ok visible
      → str_eq object.id "" ≡ false
      → object_of d (row_of visible object.id (working s).rows) ≡ ok current
      → equivalent d current object ≡ false
      → update_write d e object (after s (working s)) ≡ (ok o, s')
      → update d e object s ≡ (ok o, s')
  unfolding update
  update_runs visible object current s o s' v given read differs written =
      let answered = get_runs d e n visible object.id s v given ∙ read in
      rw (given, answered, get_session d e n visible object.id s v given) (rw differs written)
