-- ===== src/Dao/Effects.antt =====
-- Methods of generic_dao.go one after the other, where the database answers every statement.
use fulfillment_service.Common.{
  Bool, true, false, ◌&&◌, none, some, List, [], ◌∷◌, ◌++◌, String, ◌≡◌, refl, ap, ◌∙◌, ok, arith,
  str_eq, str_eq_refl, any,
}
use fulfillment_service.Database.Tx.{Session, working}
use fulfillment_service.Dao.Types.{Object, EventType, Error, Row, Tables, Dao, Env}
use fulfillment_service.Dao.Table.{find_row, delete_rows}
use fulfillment_service.Dao.Metadata.{get_finalizers, row_metadata, equivalent}
use fulfillment_service.Dao.Methods.{decode_row, run_callbacks, get, create, update, delete}
use fulfillment_service.Dao.Visibility.{CanSee, sees, sees_of_CanSee}
use fulfillment_service.Dao.Running.{
  NoFaults, after, object_of, row_of, get_runs, new_row, stored_as, create_runs,
}
use fulfillment_service.Dao.Writing.{delete_runs}
use fulfillment_service.Dao.Updating.{write, updated_tables, update_write_runs, update_runs}

find_row-append :
    (visible : List String) (rs : List Row) (r : Row)
    → any (λ x. str_eq x.id r.id) rs ≡ false
    → sees visible r ≡ true
    → row_of visible r.id (rs ++ r ∷ []) ≡ some r
find_row-append visible [] r h seen = rw (str_eq_refl r.id, seen)
find_row-append visible (x ∷ rs) r h seen = ground (arith, find_row-append visible rs r)

find_row-delete :
    (p : Row → Bool) (id : String) (rs : List Row)
    → find_row (λ x. str_eq x.id id && p x) (delete_rows id rs) ≡ none
find_row-delete p id [] = refl
find_row-delete p id (x ∷ rs) = ground (arith, find_row-delete p id rs)

module _ {P W : Type 0} (d : Dao P W) (e : Env) (n : NoFaults e.faults) where
  -- Where the database answers every statement, an object that is created can be read back: with the
  -- identifier that it came with or the generated one, the finalizers sorted and without duplicates,
  -- the assigned creators and tenants, the time of creation and no time of deletion. This wants an
  -- identifier that is new, callbacks that succeed, a decoder that reads what the encoder wrote, and
  -- a user who sees one of the assigned tenants.
  pub get-create :
      (object : Object P) (visible creators tenants : List String) (column : String) (w : W)
      (s : Session Error (Tables W))
      → d.assigned_creators ≡ ok creators
      → d.assigned_tenants ≡ ok tenants
      → d.visible_tenants ≡ ok visible
      → d.marshal_data object.payload ≡ ok column
      → d.unmarshal_data column ≡ ok object.payload
      → str_eq (new_row e object creators tenants column).id "" ≡ false
      → (any (λ r. str_eq r.id (new_row e object creators tenants column).id) (working s).rows)
        ≡ false
      → CanSee visible (new_row e object creators tenants column)
      → run_callbacks d.event_callbacks
          (record {
            type = EventType.created;
            table = d.table;
            object = stored_as object (new_row e object creators tenants column);
          })
          (working s).other
        ≡ (ok tt, w)
      → (s' : Session Error (Tables W)) × (create d e object s
          ≡ (ok (stored_as object (new_row e object creators tenants column)), s'))
        × ((get d e (new_row e object creators tenants column).id s').0
            ≡ ok (some (stored_as object (new_row e object creators tenants column))))
  get-create object visible creators tenants column w s c t v m u given fresh seen fired =
      let row = new_row e object creators tenants column in
      let (s', done, shape) =
        create_runs d e n object creators tenants column w s c t m fresh fired in
      (
        s',
        done,
        get_runs d e n visible row.id s' v given
            ∙ ap (λ (tables : Tables W). object_of d (row_of visible row.id tables.rows)) shape
            ∙ ap (object_of d) (
                find_row-append visible (working s).rows row fresh
                  (sees_of_CanSee visible row seen))
            ∙ rw (u, object_of, decode_row),
      )

  -- Where the database answers every statement and the callbacks succeed, a visible row without
  -- finalizers that is deleted cannot be read any more.
  pub get-delete :
      (visible : List String) (id : String) (r : Row) (object : Object P) (w : W)
      (s : Session Error (Tables W))
      → d.visible_tenants ≡ ok visible
      → str_eq id "" ≡ false
      → row_of visible id (working s).rows ≡ some r
      → r.finalizers ≡ []
      → decode_row d (record r { deletion_timestamp = e.now }) ≡ ok object
      → run_callbacks d.event_callbacks
          (record { type = EventType.deleted; table = d.table; object = object })
          (working s).other
        ≡ (ok tt, w)
      → (get d e id (delete d e id s).1).0 ≡ ok none
  get-delete visible id r object w s v given found unheld good fired =
      let (done, shape) = delete_runs d e n visible id r object w s v given found good fired in
      get_runs d e n visible id (delete d e id s).1 v given
      ∙ ap (λ (tables : Tables W). object_of d (row_of visible id tables.rows)) shape
      ∙ rw unheld (rw (find_row-delete (sees visible) id (working s).rows))

  -- Where the database answers every statement and the callbacks succeed, update reads with the
  -- tenancy filter and writes without it: a row that the user cannot see is overwritten, and
  -- returned.
  pub update_unseen :
      (visible : List String) (object : Object P) (column : String) (r : Row) (w : W)
      (s : Session Error (Tables W))
      → d.visible_tenants ≡ ok visible
      → str_eq object.id "" ≡ false
      → row_of visible object.id (working s).rows ≡ none
      → find_row (λ x. str_eq x.id object.id) (working s).rows ≡ some r
      → d.marshal_data object.payload ≡ ok column
      → run_callbacks d.event_callbacks
          (record {
            type = EventType.updated;
            table = d.table;
            object = record {
              id = object.id;
              metadata = some (row_metadata (write (get_finalizers object.metadata) column r));
              payload = object.payload;
            };
          })
          (working s).other
        ≡ (ok tt, w)
      → (s' : Session Error (Tables W)) × (update d e object s ≡ (
        ok (
            some (record {
              id = object.id;
              metadata = some (row_metadata (write (get_finalizers object.metadata) column r));
              payload = object.payload;
            })),
        s',
      ))
        × (working s'
            ≡ updated_tables object.id (get_finalizers object.metadata) column r w (working s))
  unfolding equivalent
  update_unseen visible object column r w s v given unseen found m fired =
      let (s', written, shape) =
        update_write_runs d e n object column r w (after s (working s)) m found fired in
      (s', update_runs d e n visible object none s _ s' v given (rw unseen) refl written, shape)
