-- ===== src/Dao/Preserves.antt =====
-- Every method of the generic DAO keeps the invariant of the tables, when it returns no error.
use fulfillment_service.Common.{
  ap, Bool-cases, Option-cases, inl, inr, any, Bool, true, false, not, ◌&&◌, Option, none, some,
  List, String, ◌≡◌, refl, Result, ok, err, arith, ◌==◌, str_eq, length,
}
use fulfillment_service.Database.Triple.{
  Post, Triple, Triple-pure, Triple-raise, Triple-if, Triple-query, Triple-bind, Triple-bind-lift,
  Triple-weaken,
}
use fulfillment_service.Dao.Types.{
  Object, EventType, Error, not_found, no_rows, Row, Tables, Clause, id_is, Dao, Env, Method,
}
use fulfillment_service.Dao.Table.{selects, find_row, insert_row, update_row}
use fulfillment_service.Dao.Metadata.{get_finalizers, equivalent, add_tenancy_filter}
use fulfillment_service.Dao.Methods.{
  or_error, decode_row, decode_found, run_callbacks, on_other, fire_event, archive, archive_if, get,
  exists, create, update, update_write, delete,
}
use fulfillment_service.Common.Int.{to_nat}
use fulfillment_service.Dao.Listing.{
  ListRequest, list, list_filter, decode_rows, page, effective_limit, order_by_id,
}
use fulfillment_service.Dao.Invariant.{
  Live, IsWellFormed, IsPending, Unique-append_one, All-append_one, Unique-update, pending-update,
  Unique-delete, Live-delete, Live-of_pending,
}

-- A method that keeps a property of the tables.
abbrev pub Keeps : {W A : Type 0} → (Tables W → Type 0) → Method W A → Type 0
Keeps P m = Triple P m (λ _. P)

-- A property that depends on the rows only.
abbrev OfRows : {W : Type 0} → (Tables W → Type 0) → Type 0
OfRows {W} P = (t : Tables W) (w : W) → P t → P (record t { other = w })

on_other-Post :
    {W : Type 0} (P : Tables W → Type 0) (f : W → Result Error (Unit {0}) × W) (t : Tables W)
    → OfRows P
    → P t
    → Post (λ _. P) (on_other f t).0 (on_other f t).1
on_other-Post P f t h p = go (f t.other).0
  where
    go : (r : Result Error (Unit {0})) → Post (λ _. P) r (record t { other = (f t.other).1 })
    go (ok u) = h t (f t.other).1 p
    go (err e) = tt

module _ {P W : Type 0} (d : Dao P W) (e : Env) where
  pub fire_event-Keeps :
      (Q : Tables W → Type 0) (type : EventType) (object : Object P)
      → OfRows Q
      → Keeps Q (fire_event d e type object)
  unfolding fire_event
  fire_event-Keeps Q type object h =
      let run =
        run_callbacks d.event_callbacks
          (record { type = type; table = d.table; object = object }) in
      Triple-query e.faults (on_other run) (λ t p. on_other-Post Q run t h p)

  -- Archiving the pending row, if asked to or if it isn't live, restores the invariant.
  archive-restores : (r : Row) → Triple (IsPending r) (archive d e r) (λ _. IsWellFormed)
  unfolding archive
  archive-restores r =
      Triple-bind (λ _. IsPending r) _ _
        (Triple-query e.faults _ (λ t p. record { unique = p.unique; live = p.live }))
        (λ _. Triple-query e.faults _ (λ t p. record {
          unique = Unique-delete r.id t.rows p.unique;
          live = Live-delete r t.rows p.live;
        }))

  archive_if-restores :
      (F : Type 0) (b : Bool) (r : Row)
      → (F → b ≡ false → Live r)
      → Triple (λ t. IsPending r t × F) (archive_if d e b r) (λ _. IsWellFormed)
  archive_if-restores F true r h = Triple-weaken _ _ (λ t p. p.0) (archive-restores r)
  archive_if-restores F false r h =
      Triple-pure tt (λ t p. record {
        unique = p.0.unique;
        live = Live-of_pending r t.rows (h p.1 refl) p.0.live;
      })

  decode_found-Keeps : (Q : Tables W → Type 0) (o : Option Row) → Keeps Q (decode_found d o)
  decode_found-Keeps Q none = Triple-pure none (λ t p. p)
  decode_found-Keeps Q (some r) =
      Triple-bind-lift (decode_row d r) _ (λ o _. Triple-pure (some o) (λ t p. p))

  -- The methods that only read keep every property.
  pub get-Keeps : (Q : Tables W → Type 0) (id : String) → Keeps Q (get d e id)
  unfolding get
  get-Keeps Q id =
      Triple-if (str_eq id "") _ _ (λ _. Triple-raise _)
        (λ _. Triple-bind-lift (add_tenancy_filter d (some (id_is id))) _ (λ filter _.
          Triple-bind (λ _. Q) _ _ (Triple-query e.faults _ (λ t p. p)) (decode_found-Keeps Q)))

  pub exists-Keeps : (Q : Tables W → Type 0) (id : String) → Keeps Q (exists d e id)
  unfolding exists
  exists-Keeps Q id =
      Triple-if (str_eq id "") _ _ (λ _. Triple-raise _)
        (λ _. Triple-bind-lift (add_tenancy_filter d (some (id_is id))) _ (λ filter _.
          Triple-bind (λ _. Q) _ _ (Triple-query e.faults _ (λ t p. p))
            (λ counted. Triple-pure _ (λ t p. p))))

  pub list-Keeps : (Q : Tables W → Type 0) (request : ListRequest) → Keeps Q (list d e request)
  unfolding list
  list-Keeps Q request = Triple-bind-lift (list_filter d e request.filter) _ (λ filter _.
      Triple-bind (λ _. Q) _ _ (Triple-query e.faults _ (λ t p. p))
        (λ counted.
          Triple-bind (λ _. Q) _ _ (Triple-query e.faults _ (λ t p. p))
            (λ found.
              Triple-bind-lift
                (decode_rows d (
                  page (to_nat request.offset)
                    (effective_limit d.default_limit d.max_limit request.limit)
                    (order_by_id e.before found)))
                _ (λ items _. Triple-pure _ (λ t p. p)))))

insert_row-Post :
    {W : Type 0} (r : Row) (t : Tables W)
    → Live r
    → IsWellFormed t
    → Post (λ _. IsWellFormed) (insert_row r t).0 (insert_row r t).1
insert_row-Post r t l h = elim (Bool-cases (any (λ s. str_eq s.id r.id) t.rows)) [
  | inl taken ↦ rw taken tt
  | inr fresh ↦ rw fresh (record {
    unique = Unique-append_one t.rows r fresh h.unique;
    live = All-append_one Live t.rows r h.live l;
  })
]

-- What an `update` statement leaves: the row that it returns is pending.
abbrev Updated : {W : Type 0} → (Row → Row) → Option Row → Tables W → Type 0
Updated f none t = Unit
Updated f (some r) t = IsPending r t × ((x : Row) × (r ≡ f x))

update_row-Post :
    {W : Type 0} (p : Row → Bool) (f : Row → Row) (k : String) (t : Tables W)
    → ((r : Row) → (f r).id ≡ r.id)
    → ((r : Row) → p r ≡ true → str_eq r.id k ≡ true)
    → IsWellFormed t
    → Post (Updated f) (update_row p f t).0 (update_row p f t).1
update_row-Post p f k t same_id at_key h = elim (Option-cases (find_row p t.rows)) [
  | inl missing ↦ rw (missing, Post, update_row) tt
  | inr (r, found) ↦
      rw (found, Post, update_row)
        (
          record {
            unique = Unique-update p f same_id t.rows h.unique;
            live = pending-update p f k at_key t.rows r found h.unique h.live;
          },
          (r, refl),
        )
]

or_error-Triple :
    {W : Type 0} (missing : Error) (f : Row → Row) (o : Option Row)
    → Triple
        (Updated {W = W} f o)
        (or_error missing o)
        (λ r t. IsPending r t × ((x : Row) × (r ≡ f x)))
or_error-Triple missing f none = Triple-raise missing
or_error-Triple missing f (some r) = Triple-pure r (λ t p. p)

-- The clause of a statement on one object selects its identifier only.
selects_id :
    {P W : Type 0} (d : Dao P W) (e : Env) (id : String) (filter : Option Clause) (r : Row)
    → add_tenancy_filter d (some (id_is id)) ≡ ok filter
    → selects e.where_holds filter r ≡ true
    → str_eq r.id id ≡ true
unfolding add_tenancy_filter
selects_id d e id filter r h k = ground arith

module _ {P W : Type 0} (d : Dao P W) (e : Env) where
  pub create-Keeps : (object : Object P) → Keeps IsWellFormed (create d e object)
  unfolding create
  create-Keeps object = Triple-bind-lift d.assigned_creators _ (λ creators _.
      Triple-bind-lift d.assigned_tenants _ (λ tenants _.
        Triple-bind-lift (d.marshal_data object.payload) _ (λ column _.
          Triple-bind (λ _. IsWellFormed) _ _
            (Triple-query e.faults _ (λ t h. insert_row-Post _ t refl h))
            (λ row.
              Triple-bind (λ _. IsWellFormed) _ _
                (fire_event-Keeps d e IsWellFormed EventType.created _
                  (λ t w h. record { unique = h.unique; live = h.live }))
                (λ _. Triple-pure _ (λ t h. h))))))

  OfRows-IsPending : (r : Row) (F : Type 0) → OfRows {W = W} (λ t. IsPending r t × F)
  OfRows-IsPending r F t w h = (record { unique = h.0.unique; live = h.0.live }, h.1)

  Live-unless_archived :
      (r : Row) (fs : List String)
      → r.finalizers ≡ fs
      → (not (r.deletion_timestamp == 0) && (length fs == 0)) ≡ false
      → Live r
  Live-unless_archived r fs same h = rw same (ground arith)

  -- The part of `update` that writes.
  update_write-Keeps : (object : Object P) → Keeps IsWellFormed (update_write d e object)
  unfolding update_write
  update_write-Keeps object = Triple-bind-lift (d.marshal_data object.payload) _ (λ column _.
      Triple-bind
        (Updated
          (λ r. record r { finalizers = get_finalizers object.metadata; data_column = column }))
        _ _
        (Triple-query e.faults _ (λ t h. update_row-Post _ _ object.id t (λ r. refl) (λ r k. k) h))
        (λ found. Triple-bind _ _ _ (or_error-Triple no_rows _ found) (λ row.
          Triple-bind (λ _ t. IsPending row t × _) _ _
            (fire_event-Keeps d e _ EventType.updated _ (OfRows-IsPending row _))
            (λ _.
              Triple-bind (λ _. IsWellFormed) _ _
                (archive_if-restores d e _ _ row
                  (λ (x, same). Live-unless_archived row _ (ap (λ (r : Row). r.finalizers) same)))
                (λ _. Triple-pure _ (λ t h. h))))))

  pub update-Keeps : (object : Object P) → Keeps IsWellFormed (update d e object)
  unfolding update
  update-Keeps object =
      Triple-if (str_eq object.id "") _ _ (λ _. Triple-raise _)
        (λ _.
          Triple-bind (λ _. IsWellFormed) _ _ (get-Keeps d e IsWellFormed object.id)
            (λ current.
              Triple-if (equivalent d current object) _ _ (λ _. Triple-pure none (λ t h. h))
                (λ _. update_write-Keeps object)))

  pub delete-Keeps : (id : String) → Keeps IsWellFormed (delete d e id)
  unfolding delete
  delete-Keeps id =
      Triple-if (str_eq id "") _ _ (λ _. Triple-raise _)
        (λ _. Triple-bind-lift (add_tenancy_filter d (some (id_is id))) _ (λ filter filtered.
          Triple-bind (Updated (λ r. record r { deletion_timestamp = e.now })) _ _
            (Triple-query e.faults _ (λ t h.
              update_row-Post _ _ id t (λ r. refl) (λ r. selects_id d e id filter r filtered) h))
            (λ found. Triple-bind _ _ _ (or_error-Triple (not_found id) _ found) (λ row.
              Triple-bind-lift (decode_row d row) _ (λ object _.
                Triple-bind (λ _ t. IsPending row t × _) _ _
                  (fire_event-Keeps d e _ EventType.deleted object (OfRows-IsPending row _))
                  (λ _. archive_if-restores d e _ _ row (λ _ b. ground arith)))))))
