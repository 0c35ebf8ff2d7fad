-- ===== src/Dao/Reading.antt =====
-- What `get`, `exists` and `list` of generic_dao.go return, against the rows of the table.
use fulfillment_service.Common.{
  Bool, true, false, ◌&&◌, Option, none, some, List, [], ◌∷◌, String, ◌≡◌, refl, sym, ap, Result,
  ok, arith, str_eq, str_eq_iff_eq, eq_iff, keep, All, In, length, Option-cases, All-map, ltb, inl,
  inr,
}
use mathlib.Core.Path.{subst}
use fulfillment_service.Database.Tx.{Session, working}
use fulfillment_service.Database.Triple.{
  Post, Triple, Triple-pure, Triple-raise, Triple-if, Triple-query, Triple-bind, Triple-bind-lift,
}
use fulfillment_service.Dao.Types.{Object, Error, Row, Tables, Clause, id_is, Dao, Env}
use fulfillment_service.Dao.Table.{selects, find_row, select_row}
use fulfillment_service.Dao.Metadata.{add_tenancy_filter}
use fulfillment_service.Dao.Methods.{decode_row, decode_found, get, exists}
use fulfillment_service.Dao.Visibility.{
  CanSee, sees, CanSee-of_sees, sees_of_CanSee, selects-add_tenancy_filter, find_row-some,
  find_row-none,
}

-- A row with the identifier, which the user sees, and the object that it holds.
pub record IsRowOf {P W : Type 0} (d : Dao P W) (visible : List String) (id : String)
    (object : Object P) (rows : List Row) : Type 0 where
  pub row : Row
  pub present : In row rows
  pub same_id : row.id ≡ id
  pub seen : CanSee visible row
  pub decoded : decode_row d row ≡ ok object

-- What `get` should return.
abbrev pub Found :
    {P W : Type 0} → Dao P W → List String → String → Option (Object P) → List Row → Type 0
Found d visible id none rows = All (λ r. ¬ ((r.id ≡ id) × CanSee visible r)) rows
Found d visible id (some object) rows = IsRowOf d visible id object rows

-- What `exists` should answer.
abbrev pub Answers : List String → String → Bool → List Row → Type 0
Answers visible id true rows = (r : Row) × In r rows × (r.id ≡ id) × CanSee visible r
Answers visible id false rows = All (λ r. ¬ ((r.id ≡ id) × CanSee visible r)) rows

keep-eq-nil : (p : Row → Bool) (rs : List Row) → All (λ r. p r ≡ false) rs → keep p rs ≡ []
keep-eq-nil p [] h = refl
keep-eq-nil p (x ∷ rs) h = ground (arith, keep-eq-nil p rs h.1)

keep_pos :
    (p : Row → Bool) (rs : List Row) (r : Row)
    → find_row p rs ≡ some r
    → ltb 0 (length (keep p rs)) ≡ true
keep_pos p [] r h = cc
keep_pos p (x ∷ rs) r h = ground (arith, keep_pos p rs r)

module _ {P W : Type 0} (d : Dao P W) (e : Env) (visible : List String)
    (known : d.visible_tenants ≡ ok visible) (id : String) (t0 : Tables W) where
  abbrev chosen : Row → Bool
  chosen r = str_eq r.id id && sees visible r

  row_found :
      (filter : Option Clause) (r : Row)
      → add_tenancy_filter d (some (id_is id)) ≡ ok filter
      → selects e.where_holds filter r ≡ true
      → (r.id ≡ id) × CanSee visible r
  row_found filter r f h =
      let split =
        selects-add_tenancy_filter d e.where_holds visible (some (id_is id)) filter r known f in
      (str_eq_iff_eq r.id id (ground arith), CanSee-of_sees visible r (ground arith))

  row_missed :
      (filter : Option Clause) (r : Row)
      → add_tenancy_filter d (some (id_is id)) ≡ ok filter
      → selects e.where_holds filter r ≡ false
      → ¬ ((r.id ≡ id) × CanSee visible r)
  row_missed filter r f h (same, seen) =
      let split =
        selects-add_tenancy_filter d e.where_holds visible (some (id_is id)) filter r known f in
      let shown = sees_of_CanSee visible r seen in ground (arith, eq_iff r.id id)

  abbrev Selected : Option Clause → Option Row → Tables W → Type 0
  Selected filter none t = (t ≡ t0) × Found d visible id none t0.rows
  Selected filter (some r) t = (t ≡ t0) × In r t0.rows × (r.id ≡ id) × CanSee visible r

  selected :
      (filter : Option Clause) (t : Tables W)
      → add_tenancy_filter d (some (id_is id)) ≡ ok filter
      → t ≡ t0
      → Post (Selected filter) (select_row (selects e.where_holds filter) t).0 t
  selected filter t f same =
      subst (λ u. Post (Selected filter) (select_row (selects e.where_holds filter) u).0 u)
        (sym same)
        (elim (Option-cases (find_row (selects e.where_holds filter) t0.rows)) [
          | inl missing ↦
              rw (missing, Post)
                (
                  refl,
                  All-map t0.rows (λ r h. row_missed filter r f h)
                      (find_row-none _ t0.rows missing),
                )
          | inr (r, hit) ↦
              let (inside, holds) = find_row-some _ t0.rows r hit in
              let (same_id, seen) = row_found filter r f holds in
              rw (hit, Post) (refl, inside, same_id, seen)
        ])

  decoded :
      (filter : Option Clause) (o : Option Row)
      → Triple
          (Selected filter o)
          (decode_found d o)
          (λ r t. (t ≡ t0) × Found d visible id r t0.rows)
  decoded filter none = Triple-pure none (λ t h. h)
  decoded filter (some r) = Triple-bind-lift (decode_row d r) _ (λ object good.
      Triple-pure (some object) (λ t h.
        (h.0, record { row = r; present = h.1; same_id = h.2; seen = h.3; decoded = good })))

  get-Triple : Triple (λ t. t ≡ t0) (get d e id) (λ o t. (t ≡ t0) × Found d visible id o t0.rows)
  unfolding get
  get-Triple =
      Triple-if (str_eq id "") _ _ (λ _. Triple-raise _)
        (λ _. Triple-bind-lift (add_tenancy_filter d (some (id_is id))) _ (λ filter f.
          Triple-bind (Selected filter) _ _
            (Triple-query e.faults _ (λ t same. selected filter t f same)) (decoded filter)))

  answer :
      (filter : Option Clause)
      → add_tenancy_filter d (some (id_is id)) ≡ ok filter
      → Answers visible id (ltb 0 (length (keep (selects e.where_holds filter) t0.rows))) t0.rows
  answer filter f = elim (Option-cases (find_row (selects e.where_holds filter) t0.rows)) [
    | inl missing ↦
        rw (keep-eq-nil _ t0.rows (find_row-none _ t0.rows missing))
          (All-map t0.rows (λ r h. row_missed filter r f h) (find_row-none _ t0.rows missing))
    | inr (r, hit) ↦
        let (inside, holds) = find_row-some _ t0.rows r hit in
        let (same_id, seen) = row_found filter r f holds in
        rw (keep_pos _ t0.rows r hit) (r, inside, same_id, seen)
  ]

  exists-Triple :
      Triple (λ t. t ≡ t0) (exists d e id) (λ b t. (t ≡ t0) × Answers visible id b t0.rows)
  unfolding exists
  exists-Triple =
      Triple-if (str_eq id "") _ _ (λ _. Triple-raise _)
        (λ _. Triple-bind-lift (add_tenancy_filter d (some (id_is id))) _ (λ filter f.
          Triple-bind (λ rows t. (t ≡ t0) × (rows ≡ keep (selects e.where_holds filter) t0.rows)) _
            _
            (Triple-query e.faults _ (λ t same.
              (same, ap (λ (u : Tables W). keep (selects e.where_holds filter) u.rows) same)))
            (λ rows. Triple-pure _ (λ t h. (
              h.0,
              subst (λ (x : List Row). Answers visible id (ltb 0 (length x)) t0.rows) (sym h.1)
                  (answer filter f),
            )))))

-- The postcondition at a result that is known.
pub result_of :
    {D A : Type 0} (Q : A → D → Type 0) (r : Result Error A) (t : D) (a : A)
    → Post Q r t
    → r ≡ ok a
    → Q a t
result_of Q r t a h e = subst (λ x. Post Q x t) e h

module _ {P W : Type 0} (d : Dao P W) (e : Env) (visible : List String)
    (known : d.visible_tenants ≡ ok visible) (id : String) (s : Session Error (Tables W)) where
  -- When get returns no error: the object of a row with the identifier that the user sees, or nothing
  -- where there is no such row. The data is unchanged.
  pub get-Found :
      (o : Option (Object P))
      → (get d e id s).0 ≡ ok o
      → (working (get d e id s).1 ≡ working s) × Found d visible id o (working s).rows
  get-Found o h = result_of _ _ _ o ((get-Triple d e visible known id (working s)).at s refl) h

  -- When exists returns no error: whether there is a row with the identifier that the user sees. The
  -- data is unchanged.
  pub exists_iff :
      (b : Bool)
      → (exists d e id s).0 ≡ ok b
      → (working (exists d e id s).1 ≡ working s) × Answers visible id b (working s).rows
  exists_iff b h = result_of _ _ _ b ((exists-Triple d e visible known id (working s)).at s refl) h
