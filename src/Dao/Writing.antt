-- ===== src/Dao/Writing.antt =====
-- What `delete` of generic_dao.go write where the database answers every statement.
use fulfillment_service.Common.{
  Bool, true, false, ◌&&◌, Option, none, some, List, [], ◌∷◌, ◌++◌, String, ◌≡◌, refl, ◌∙◌, ok, err,
  arith, ◌==◌, length, str_eq, str_eq_iff_eq, if◌then◌else◌,
}
use fulfillment_service.Database.Tx.{Session, working}
use fulfillment_service.Dao.Types.{
  Object, EventType, Error, not_found, Row, ArchivedRow, Tables, Clause, id_is, Dao, Env,
}
use fulfillment_service.Dao.Table.{
  selects, find_row, update_rows, update_row, delete_rows, delete_row, insert_archived,
}
use fulfillment_service.Dao.Methods.{
  decode_row, run_callbacks, on_other, fire_event, archive, archive_if, delete,
}
use fulfillment_service.Dao.Visibility.{sees, selects-add_tenancy_filter, find_row-some}
use fulfillment_service.Dao.Running.{
  NoFaults, after, query_runs, tenancy_answers, read_runs, row_of,
}

update_rows_same :
    (p q : Row → Bool) (f : Row → Row) (rs : List Row)
    → ((r : Row) → p r ≡ q r)
    → update_rows p f rs ≡ update_rows q f rs
update_rows_same p q f [] h = refl
update_rows_same p q f (x ∷ rs) h = rw (h x, update_rows_same p q f rs h)

pub update_row-none :
    {W : Type 0} (p : Row → Bool) (f : Row → Row) (t : Tables W)
    → find_row p t.rows ≡ none
    → update_row p f t ≡ (ok none, t)
update_row-none p f t h = ground arith

pub update_row-some :
    {W : Type 0} (p : Row → Bool) (f : Row → Row) (r : Row) (t : Tables W)
    → find_row p t.rows ≡ some r
    → update_row p f t ≡ (ok (some (f r)), record t { rows = update_rows p f t.rows })
update_row-some p f r t h = ground arith

-- A row that goes away may have been changed before.
pub delete-update :
    (k : String) (p : Row → Bool) (f : Row → Row) (rs : List Row)
    → ((r : Row) → (f r).id ≡ r.id)
    → ((r : Row) → p r ≡ true → str_eq r.id k ≡ true)
    → delete_rows k (update_rows p f rs) ≡ delete_rows k rs
delete-update k p f [] same at_key = refl
delete-update k p f (x ∷ rs) same at_key =
    ground (arith, same x, at_key x, delete-update k p f rs same at_key)

-- The row of the archive for a row.
abbrev pub archived_copy : Row → ArchivedRow
archived_copy r = record {
  id = r.id;
  creation_timestamp = r.creation_timestamp;
  deletion_timestamp = r.deletion_timestamp;
  creators = r.creators;
  tenants = r.tenants;
  data_column = r.data_column;
}

abbrev pub archived_tables : {W : Type 0} → Row → Tables W → Tables W
archived_tables r t = record t {
  rows = delete_rows r.id t.rows;
  archived = t.archived ++ archived_copy r ∷ [];
}

-- What `delete` does to the row, before the archiving.
abbrev pub mark : Env → Row → Row
mark e r = record r { deletion_timestamp = e.now }

abbrev pub deleted_tables :
    {W : Type 0} → Env → List String → String → Row → W → Tables W → Tables W
deleted_tables e visible id r w t =
    if length r.finalizers == 0
    then record t {
      rows = delete_rows id t.rows;
      archived = t.archived ++ archived_copy (mark e r) ∷ [];
      other = w;
    }
    else record t {
      rows = update_rows (λ x. str_eq x.id id && sees visible x) (mark e) t.rows;
      other = w;
    }

module _ {P W : Type 0} (d : Dao P W) (e : Env) (n : NoFaults e.faults) where
  pub archive_runs :
      (r : Row) (s : Session Error (Tables W))
      → (s' : Session Error (Tables W)) × (archive d e r s ≡ (ok tt, s'))
        × (working s' ≡ archived_tables r (working s))
  unfolding archive
  archive_runs r s =
      let t1 : Tables W = record (working s) {
        archived = (working s).archived ++ archived_copy r ∷ [];
      } in
      let s1 = after s t1 in
      (
        after s1 (archived_tables r (working s)),
        rw (query_runs e.faults (insert_archived (archived_copy r)) s n)
            (query_runs e.faults (delete_row r.id) s1 n),
        refl,
      )

  pub fire_runs :
      (type : EventType) (object : Object P) (w : W) (s : Session Error (Tables W))
      → run_callbacks d.event_callbacks
          (record { type = type; table = d.table; object = object })
          (working s).other
        ≡ (ok tt, w)
      → fire_event d e type object s ≡ (ok tt, after s (record (working s) { other = w }))
  unfolding fire_event
  fire_runs type object w s fired =
      let run =
        run_callbacks d.event_callbacks
          (record { type = type; table = d.table; object = object }) in
      rw (query_runs e.faults (on_other run) s n, fired)

  -- Where the database answers every statement and nothing that the user sees has the identifier,
  -- delete fails with the error that says so and nothing changes.
  pub delete-not_found :
      (visible : List String) (id : String) (s : Session Error (Tables W))
      → d.visible_tenants ≡ ok visible
      → str_eq id "" ≡ false
      → row_of visible id (working s).rows ≡ none
      → ((delete d e id s).0 ≡ err (not_found id)) × (working (delete d e id s).1 ≡ working s)
  unfolding delete
  delete-not_found visible id s v given missing =
      let (filter, f) = tenancy_answers d visible id v in
      let same = read_runs d e n visible id filter s v f ∙ missing in
      rw
        (
          given,
          f,
          query_runs e.faults (update_row (selects e.where_holds filter) (mark e)) s n,
          update_row-none (selects e.where_holds filter) (mark e) (working s) same,
        )
        (refl, refl)

  pub archive_if_runs :
      (b : Bool) (r : Row) (s : Session Error (Tables W))
      → (s' : Session Error (Tables W)) × (archive_if d e b r s ≡ (ok tt, s'))
        × (working s' ≡ (if b then archived_tables r (working s) else working s))
  archive_if_runs true r s = archive_runs r s
  archive_if_runs false r s = (s, refl, refl)

  found_id :
      (visible : List String) (id : String) (rs : List Row) (r : Row)
      → row_of visible id rs ≡ some r
      → r.id ≡ id
  found_id visible id rs r h =
      let (inside, chosen) = find_row-some (λ x. str_eq x.id id && sees visible x) rs r h in
      str_eq_iff_eq r.id id (ground arith)

  deleted_shape :
      (visible : List String) (id : String) (filter : Option Clause) (r : Row) (w : W)
      (t : Tables W)
      → r.id ≡ id
      → ((x : Row) → selects e.where_holds filter x ≡ (str_eq x.id id && sees visible x))
      → (if length r.finalizers == 0
          then archived_tables (mark e r) (record t {
            rows = update_rows (selects e.where_holds filter) (mark e) t.rows;
            other = w;
          })
          else record t {
            rows = update_rows (selects e.where_holds filter) (mark e) t.rows;
            other = w;
          })
        ≡ deleted_tables e visible id r w t
  deleted_shape visible id filter r w t at_id chosen =
      let same = update_rows_same (selects e.where_holds filter) _ (mark e) t.rows chosen in
      let gone =
        delete-update id (λ x. str_eq x.id id && sees visible x) (mark e) t.rows (λ x. refl)
          (λ x h. ground arith) in
      rw (same, at_id, gone)

  -- Where the tenancy logic and the database answer, the identifier is not empty, the data of the row
  -- can be decoded and the callbacks succeed, delete marks a visible row as deleted if it has
  -- finalizers, and archives and removes it if it has none.
  pub delete_runs :
      (visible : List String) (id : String) (r : Row) (object : Object P) (w : W)
      (s : Session Error (Tables W))
      → d.visible_tenants ≡ ok visible
      → str_eq id "" ≡ false
      → row_of visible id (working s).rows ≡ some r
      → decode_row d (mark e r) ≡ ok object
      → run_callbacks d.event_callbacks
          (record { type = EventType.deleted; table = d.table; object = object })
          (working s).other
        ≡ (ok tt, w)
      → ((delete d e id s).0 ≡ ok tt)
        × (working (delete d e id s).1 ≡ deleted_tables e visible id r w (working s))
  unfolding delete
  delete_runs visible id r object w s v given found good fired =
      let (filter, f) = tenancy_answers d visible id v in
      let hit = read_runs d e n visible id filter s v f ∙ found in
      let t1 : Tables W = record (working s) {
        rows = update_rows (selects e.where_holds filter) (mark e) (working s).rows;
      } in
      let s1 = after s t1 in
      let s2 = after s1 (record t1 { other = w }) in
      let (s3, archived, shape) = archive_if_runs (length r.finalizers == 0) (mark e r) s2 in
      rw
        (
          given,
          f,
          query_runs e.faults (update_row (selects e.where_holds filter) (mark e)) s n,
          update_row-some (selects e.where_holds filter) (mark e) r (working s) hit,
        )
        (rw good (
          rw (fire_runs EventType.deleted object w s1 fired) (
            rw archived (
              refl,
              shape
                  ∙ deleted_shape visible id filter r w (working s) (found_id visible id _ r found)
                      (λ x.
                        selects-add_tenancy_filter d e.where_holds visible (some (id_is id)) filter
                          x v f),
            ))))
