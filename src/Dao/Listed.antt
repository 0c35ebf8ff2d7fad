-- ===== src/Dao/Listed.antt =====
-- What `list` of generic_dao.go returns: its totals, its limits, its order and its pages.
use fulfillment_service.Common.{
  ℕ, zero, suc, ◌≤◌, Bool, true, false, ◌&&◌, Option, none, some, List, [], ◌∷◌, String, ◌≡◌, refl,
  sym, ap, ◌∙◌, Result, ok, err, arith, str_eq, keep, All, In, length, length-take, drop,
  Bool-cases, All-map, All-In, All-keep, All-take, All-drop, inl, inr, if◌then◌else◌,
}
use mathlib.Core.Path.{subst}
use fulfillment_service.Common.Int.{ℤ, pos, negsuc, to_nat, int32}
use fulfillment_service.Database.Tx.{Session, working}
use fulfillment_service.Database.Triple.{
  Triple, Triple-pure, Triple-query, Triple-bind, Triple-bind-lift,
}
use fulfillment_service.Dao.Types.{Object, Error, Row, Tables, Clause, raw, Dao, Env}
use fulfillment_service.Dao.Table.{selects, select_rows}
use fulfillment_service.Dao.Metadata.{add_tenancy_filter}
use fulfillment_service.Dao.Methods.{decode_row}
use fulfillment_service.Dao.Listing.{
  ListRequest, ListResponse, effective_limit, insert_row_by, order_by_id, page, decode_rows,
  list_filter, list,
}
use fulfillment_service.Dao.Visibility.{CanSee, sees, CanSee-of_sees, selects-add_tenancy_filter}
use fulfillment_service.Dao.Reading.{result_of}

-- The filter of a request, on a row: the translated text, where there is one.
abbrev pub matches : {P W : Type 0} → Dao P W → Env → String → Row → Bool
matches d e filter r =
    if str_eq filter ""
    then true
    else (elim (d.translate filter) [ ok sql ↦ e.where_holds sql r | err _ ↦ false ])

-- An object that stands for a row of the table that the user sees and that matches the filter.
pub record IsShown {P W : Type 0} (d : Dao P W) (e : Env) (visible : List String) (filter : String)
    (rows : List Row) (object : Object P) : Type 0 where
  pub row : Row
  pub present : In row rows
  pub seen : CanSee visible row
  pub matching : matches d e filter row ≡ true
  pub decoded : decode_row d row ≡ ok object

-- The response to a request, over the rows of the table. The total counts the matching rows that the
-- user sees, whatever the offset and the limit.
pub record IsListing {P W : Type 0} (d : Dao P W) (e : Env) (visible : List String)
    (request : ListRequest) (rows : List Row) (response : ListResponse P) : Type 0 where
  pub size : response.size ≡ int32 (length response.items)
  pub total :
      response.total
      ≡ int32 (length (keep (λ r. matches d e request.filter r && sees visible r) rows))
  pub bounded : length response.items ≤ effective_limit d.default_limit d.max_limit request.limit
  pub shown : All (IsShown d e visible request.filter rows) response.items
  pub complete :
      decode_rows d (
        page
          (to_nat request.offset)
          (effective_limit d.default_limit d.max_limit request.limit)
          (order_by_id e.before (keep (λ r. matches d e request.filter r && sees visible r) rows)))
      ≡ ok response.items

-- The limit never passes the maximum, for a configuration that `Build` accepts.
pub effective_limit-le :
    (default maximum : ℕ) (l : ℤ) → default ≤ maximum → effective_limit default maximum l ≤ maximum
unfolding effective_limit
effective_limit-le default maximum (negsuc n) h = omega arith
effective_limit-le default maximum (pos zero) h = h
effective_limit-le default maximum (pos (suc n)) h = ground arith

All-insert_row_by :
    (P : Row → Type 0) (before : String → String → Bool) (r : Row) (rs : List Row)
    → P r
    → All P rs
    → All P (insert_row_by before r rs)
All-insert_row_by P before r [] p h = (p, tt)
All-insert_row_by P before r (x ∷ rs) p h = elim (Bool-cases (before x.id r.id)) [
  | inl further ↦ rw further (h.0, All-insert_row_by P before r rs p h.1)
  | inr here ↦ rw here (p, h)
]

pub All-order_by_id :
    (P : Row → Type 0) (before : String → String → Bool) (rs : List Row)
    → All P rs
    → All P (order_by_id before rs)
All-order_by_id P before [] h = tt
All-order_by_id P before (r ∷ rs) h =
    All-insert_row_by P before r (order_by_id before rs) h.0 (All-order_by_id P before rs h.1)

pub both_ok :
    {A : Type 0} (a : Result Error A) (b : Result Error (List A)) (items : List A)
    → (elim a [ err e ↦ err e | ok item ↦ elim b [ ok rest ↦ ok (item ∷ rest) | err e ↦ err e ] ])
      ≡ ok items
    → (x : A) × (xs : List A) × (items ≡ x ∷ xs) × (a ≡ ok x) × (b ≡ ok xs)
both_ok (ok x) (ok xs) items h = (x, xs, ground arith, refl, refl)
both_ok (ok x) (err e) items h = absurd (cc)
both_ok (err e) b items h = absurd (cc)

module _ {P W : Type 0} (d : Dao P W) where
  decoded-All :
      (Q : Row → Type 0) (rs : List Row) (items : List (Object P))
      → decode_rows d rs ≡ ok items
      → All Q rs
      → All (λ o. (r : Row) × Q r × (decode_row d r ≡ ok o)) items
  unfolding decode_rows
  decoded-All Q [] [] h q = tt
  decoded-All Q [] (o ∷ items) h q = absurd (cc)
  decoded-All Q (r ∷ rs) items h q =
      let (x, xs, split, good, rest) = both_ok (decode_row d r) (decode_rows d rs) items h in
      rw split ((r, q.0, good), decoded-All Q rs xs rest q.1)

  pub length-decode_rows :
      (rs : List Row) (items : List (Object P))
      → decode_rows d rs ≡ ok items
      → length items ≡ length rs
  unfolding decode_rows
  length-decode_rows [] [] h = refl
  length-decode_rows [] (o ∷ items) h = absurd (cc)
  length-decode_rows (r ∷ rs) items h =
      let (x, xs, split, good, rest) = both_ok (decode_row d r) (decode_rows d rs) items h in
      rw split (ap suc (length-decode_rows rs xs rest))

module _ {P W : Type 0} (d : Dao P W) (e : Env) (visible : List String)
    (known : d.visible_tenants ≡ ok visible) where
  -- The clause of `list` selects the rows that match the filter and that the user sees.
  pub selects-list_filter :
      (text : String) (filter : Option Clause) (r : Row)
      → list_filter d e text ≡ ok filter
      → selects e.where_holds filter r ≡ (matches d e text r && sees visible r)
  unfolding list_filter
  selects-list_filter text filter r h = elim (Bool-cases (str_eq text "")) [
    | inl empty ↦
        rw empty
          (selects-add_tenancy_filter d e.where_holds visible none filter r known (ground arith))
    | inr given ↦ rw given (translated (d.translate text) (ground arith))
  ]
    where
      translated :
          (t : Result Error String)
          → (elim t [ ok sql ↦ add_tenancy_filter d (some (raw sql)) | err x ↦ err x ]) ≡ ok filter
          → selects e.where_holds filter r
            ≡ ((elim t [ ok sql ↦ e.where_holds sql r | err _ ↦ false ]) && sees visible r)
      translated (ok sql) g =
          selects-add_tenancy_filter d e.where_holds visible (some (raw sql)) filter r known g
      translated (err x) g = absurd (cc)

  module _ (request : ListRequest) (t0 : Tables W) where
    abbrev wanted : Row → Bool
    wanted r = matches d e request.filter r && sees visible r

    wanted_rows :
        (filter : Option Clause)
        → list_filter d e request.filter ≡ ok filter
        → (rs : List Row) → keep (selects e.where_holds filter) rs ≡ keep wanted rs
    wanted_rows filter f [] = refl
    wanted_rows filter f (r ∷ rs) =
        rw (selects-list_filter request.filter filter r f, wanted_rows filter f rs)

    abbrev limit : ℕ
    limit = effective_limit d.default_limit d.max_limit request.limit

    shown_rows :
        All
          (λ r. In r t0.rows × CanSee visible r × (matches d e request.filter r ≡ true))
          (page (to_nat request.offset) limit (order_by_id e.before (keep wanted t0.rows)))
    shown_rows = All-take _ limit _ (
        All-drop _ (to_nat request.offset) _ (
          All-order_by_id _ e.before _ (
            All-keep _ wanted t0.rows (
              All-map t0.rows
                (λ r inside good. (inside, CanSee-of_sees visible r (ground arith), ground arith))
                (All-In t0.rows)))))

    listing :
        (items : List (Object P))
        → decode_rows d
            (page (to_nat request.offset) limit (order_by_id e.before (keep wanted t0.rows)))
          ≡ ok items
        → IsListing d e visible request t0.rows (record {
          size = int32 (length items);
          total = int32 (length (keep wanted t0.rows));
          items = items;
        })
    listing items h = record {
      size = refl;
      total = refl;
      bounded = omega (
        arith,
        length-decode_rows d _ items h,
        length-take limit
            (drop (to_nat request.offset) (order_by_id e.before (keep wanted t0.rows))),
      );
      shown =
          All-map items
            (λ o (r, q, good). record {
              row = r;
              present = q.0;
              seen = q.1;
              matching = q.2;
              decoded = good;
            })
            (decoded-All d _ _ items h shown_rows);
      complete = h;
    }

    abbrev Chosen : List Row → Tables W → Type 0
    Chosen rows t = (t ≡ t0) × (rows ≡ keep wanted t0.rows)

    rows-Chosen :
        (filter : Option Clause) (t : Tables W)
        → list_filter d e request.filter ≡ ok filter
        → t ≡ t0
        → Chosen (keep (selects e.where_holds filter) t.rows) t
    rows-Chosen filter t f same = (
      same,
      ap (λ (u : Tables W). keep (selects e.where_holds filter) u.rows) same
          ∙ wanted_rows filter f t0.rows,
    )

    respond :
        (counted found : List Row) (items : List (Object P))
        → counted ≡ keep wanted t0.rows
        → found ≡ keep wanted t0.rows
        → decode_rows d (page (to_nat request.offset) limit (order_by_id e.before found)) ≡ ok items
        → IsListing d e visible request t0.rows
            (record { size = int32 (length items); total = int32 (length counted); items = items })
    respond counted found items c f good =
        subst
          (λ (rows : List Row).
            IsListing d e visible request t0.rows
              (record { size = int32 (length items); total = int32 (length rows); items = items }))
          (sym c)
          (listing items (
            subst
              (λ (rows : List Row).
                decode_rows d (page (to_nat request.offset) limit (order_by_id e.before rows))
                ≡ ok items)
              f good))

    list-Triple :
        Triple
          (λ t. t ≡ t0)
          (list d e request)
          (λ response t. (t ≡ t0) × IsListing d e visible request t0.rows response)
    unfolding list
    list-Triple = Triple-bind-lift (list_filter d e request.filter) _ (λ filter f.
        Triple-bind Chosen _ _
          (Triple-query e.faults (select_rows (selects e.where_holds filter))
            (λ t same. rows-Chosen filter t f same))
          (λ counted.
            Triple-bind (λ found t. Chosen found t × (counted ≡ keep wanted t0.rows)) _ _
              (Triple-query e.faults (select_rows (selects e.where_holds filter))
                (λ t h. (rows-Chosen filter t f h.0, h.1)))
              (λ found.
                Triple-bind-lift
                  (decode_rows d (page (to_nat request.offset) limit (order_by_id e.before found)))
                  _
                  (λ items good.
                    Triple-pure _ (λ t h. (h.0.0, respond counted found items h.1 h.0.1 good))))))

  -- When list returns no error: the size is the number of items, the total counts the rows that match
  -- and that the user sees, the items are no more than the limit, each item stands for a row that
  -- matches and that the user sees, the items are exactly the page of these rows, ordered by
  -- identifier, that the offset and the limit ask for, and the data is unchanged.
  pub list-IsListing :
      (request : ListRequest) (s : Session Error (Tables W)) (response : ListResponse P)
      → (list d e request s).0 ≡ ok response
      → (working (list d e request s).1 ≡ working s)
        × IsListing d e visible request (working s).rows response
  list-IsListing request s response h =
      result_of _ _ _ response ((list-Triple request (working s)).at s refl) h
