-- ===== src/Dao/Walking.antt =====
-- A client that walks the pages of `list` in generic_dao.go, one call after the other.
use mathlib.Core.List.{Perm}
use mathlib.Core.Path.{subst}
use fulfillment_service.Common.{
  ℕ, zero, suc, ◌+◌, ◌*◌, ◌≤◌, Bool, true, false, ◌&&◌, Option, none, List, [], ◌∷◌, ◌++◌, String,
  ◌≡◌, refl, sym, ap, ◌∙◌, Result, ok, arith, keep, All, length, take, drop,
}
use fulfillment_service.Common.Int.{pos, to_nat, int32}
use fulfillment_service.Common.Exec.{Exec, pure, ◌>>=◌}
use fulfillment_service.Database.Tx.{Session, Faults, working, begin, reporting, report_error, end}
use fulfillment_service.Database.Interceptor.{unary_server, final_result}
use fulfillment_service.Dao.Types.{Object, Error, failure, Row, Tables, Clause, Dao, Env}
use fulfillment_service.Dao.Table.{selects, select_rows}
use fulfillment_service.Dao.Listing.{
  ListRequest, ListResponse, effective_limit, order_by_id, page, decode_rows, list_filter, list,
}
use fulfillment_service.Dao.Visibility.{sees}
use fulfillment_service.Dao.Running.{NoFaults, after, query_runs}
use fulfillment_service.Dao.Listed.{
  matches, All-order_by_id, selects-list_filter, length-decode_rows,
}
use fulfillment_service.Dao.Paging.{
  IsOrdered, pages, pages_all, order_by_id-perm, order_by_id-IsOrdered, length-order_by_id,
}
use fulfillment_service.Dao.Decoded.{Decodes, decode_rows-All, decode_rows-take, decode_rows-drop}

keep_same : (p q : Row → Bool) (rs : List Row) → ((r : Row) → p r ≡ q r) → keep p rs ≡ keep q rs
keep_same p q [] h = refl
keep_same p q (r ∷ rs) h = rw (h r, keep_same p q rs h)

-- The session after two statements that have changed nothing.
abbrev read_twice : {E D : Type 0} → D → Session E D
read_twice t = after (after (begin 0 t) t) t

module _ {E D A : Type 0} (f : Faults E) (failed other : E) (t : D) where
  -- What is done with the answer of a handler and its session.
  abbrev closing : Result E A × Session E D → Result E A × D
  closing r = let (ended, s) = end f other 0 r.1 in (final_result failed r.0 ended, s.committed)

  closing_reads : (a : A) → f.commit_error ≡ none → closing (ok a, read_twice t) ≡ (ok a, t)
  unfolding end
  closing_reads a committed = rw committed refl

  reporting_reads :
      (m : Exec E (Session E D) A) (a : A)
      → m (begin 0 t) ≡ (ok a, read_twice t)
      → reporting m (begin 0 t) ≡ (ok a, read_twice t)
  unfolding reporting report_error
  reporting_reads m a answered = rw answered refl

  -- A call whose method only reads, with two statements, and succeeds, leaves what the database holds.
  unary_server_reads :
      (m : Exec E (Session E D) A) (a : A)
      → f.commit_error ≡ none
      → m (begin 0 t) ≡ (ok a, read_twice t)
      → unary_server f failed other 0 (reporting m) t ≡ (ok a, t)
  unfolding unary_server end
  unary_server_reads m a committed answered =
      subst (λ (r : Result E A × Session E D). closing r ≡ (ok a, t))
        (sym (reporting_reads m a answered)) (closing_reads a committed)

-- A page that isn't larger than the maximum has the size that was asked for.
effective_limit-eq :
    (default maximum n : ℕ)
    → suc n ≤ maximum
    → effective_limit default maximum (pos (suc n)) ≡ suc n
unfolding effective_limit
effective_limit-eq default maximum n h = ground arith

module _ {P W : Type 0} (d : Dao P W) (e : Env) where
  -- A call of `list` in a transaction of its own.
  abbrev pub list_page : ListRequest → Exec Error (Tables W) (ListResponse P)
  list_page request =
      unary_server e.faults (failure "failed to end transaction")
        (failure "transaction belongs to another transaction manager") 0
        (reporting (list d e request))

  -- The items of the pages that `list` answers with, from an offset on, as many as asked for, one
  -- call after the other.
  abbrev pub walk : String → ℕ → ℕ → ℕ → Exec Error (Tables W) (List (Object P))
  walk text size zero offset = pure []
  walk text size (suc count) offset = do
    response ← list_page (record { offset = pos offset; limit = pos size; filter = text })
    rest ← walk text size count (offset + size)
    pure (response.items ++ rest)

module _ {P W : Type 0} (d : Dao P W) (e : Env) (n : NoFaults e.faults) where
  -- What `list` answers where the database answers both statements and the page can be decoded.
  list_runs :
      (request : ListRequest) (filter : Option Clause) (items : List (Object P))
      (s : Session Error (Tables W))
      → list_filter d e request.filter ≡ ok filter
      → decode_rows d (
          page
            (to_nat request.offset)
            (effective_limit d.default_limit d.max_limit request.limit)
            (order_by_id e.before (keep (selects e.where_holds filter) (working s).rows)))
        ≡ ok items
      → list d e request s ≡ (
        ok (record {
          size = int32 (length items);
          total = int32 (length (keep (selects e.where_holds filter) (working s).rows));
          items = items;
        }),
        after (after s (working s)) (working s),
      )
  unfolding list
  list_runs request filter items s f good =
      rw
        (
          f,
          query_runs e.faults (select_rows (selects e.where_holds filter)) s n,
          query_runs e.faults (select_rows (selects e.where_holds filter)) (after s (working s)) n,
          good,
        )
        refl

  list_page_runs :
      (request : ListRequest) (filter : Option Clause) (items : List (Object P)) (t : Tables W)
      → e.faults.commit_error ≡ none
      → list_filter d e request.filter ≡ ok filter
      → decode_rows d (
          page
            (to_nat request.offset)
            (effective_limit d.default_limit d.max_limit request.limit)
            (order_by_id e.before (keep (selects e.where_holds filter) t.rows)))
        ≡ ok items
      → list_page d e request t ≡ (
        ok (record {
          size = int32 (length items);
          total = int32 (length (keep (selects e.where_holds filter) t.rows));
          items = items;
        }),
        t,
      )
  list_page_runs request filter items t committed f good =
      unary_server_reads e.faults (failure "failed to end transaction")
        (failure "transaction belongs to another transaction manager") t (list d e request) _
        committed (list_runs request filter items (begin 0 t) f good)

  module _ (text : String) (filter : Option Clause) (t : Tables W) (objects : List (Object P))
      (committed : e.faults.commit_error ≡ none) (f : list_filter d e text ≡ ok filter)
      (decoded : decode_rows d (order_by_id e.before (keep (selects e.where_holds filter) t.rows))
        ≡ ok objects) where
    page_decoded :
        (k offset : ℕ)
        → suc k ≤ d.max_limit
        → decode_rows d (
            page offset
              (effective_limit d.default_limit d.max_limit (pos (suc k)))
              (order_by_id e.before (keep (selects e.where_holds filter) t.rows)))
          ≡ ok (take (suc k) (drop offset objects))
    page_decoded k offset small = rw (effective_limit-eq d.default_limit d.max_limit k small) (
        decode_rows-take d (suc k) _ (drop offset objects)
          (decode_rows-drop d offset _ objects decoded))

    walk-eq-pages :
        (k : ℕ) (count offset : ℕ)
        → suc k ≤ d.max_limit
        → walk d e text (suc k) count offset t ≡ (ok (pages count (suc k) offset objects), t)
    walk-eq-pages k zero offset small = refl
    walk-eq-pages k (suc count) offset small =
        let request : ListRequest = record {
          offset = pos offset;
          limit = pos (suc k);
          filter = text;
        } in
        rw
          (list_page_runs request filter (take (suc k) (drop offset objects)) t committed f
            (page_decoded k offset small))
          (rw (walk-eq-pages k count (offset + suc k) small) refl)

-- The rows that match a filter and that the user sees.
abbrev pub wanted : {P W : Type 0} → Dao P W → Env → List String → String → List Row → List Row
wanted d e visible text rows = keep (λ r. matches d e text r && sees visible r) rows

module _ {P W : Type 0} (d : Dao P W) (e : Env) (n : NoFaults e.faults) (visible : List String)
    (known : d.visible_tenants ≡ ok visible)
    (total : (i j : String) → e.before i j ≡ false → e.before j i ≡ true)
    (transitive : (i j k : String)
      → e.before i j ≡ true
      → e.before j k ≡ true
      → e.before i k ≡ true) where
  -- A client that walks the pages of list, each call in a transaction of its own, gets the rows that
  -- match the filter and that the user sees, each as often as it stands in the table and ordered by
  -- identifier, and the data is unchanged. The database and the tenancy logic answer, the
  -- transactions are committed, the filter can be translated and the data of these rows decoded, the
  -- database orders identifiers totally, a page has at least one row and at most the maximum, and
  -- there are enough pages.
  pub walk-IsOrdered :
      (text : String) (filter : Option Clause) (k count : ℕ) (t : Tables W)
      → e.faults.commit_error ≡ none
      → list_filter d e text ≡ ok filter
      → suc k ≤ d.max_limit
      → length (wanted d e visible text t.rows) ≤ count * suc k
      → All (Decodes d) (wanted d e visible text t.rows)
      → (rs : List Row) × (objects : List (Object P)) × Perm rs (wanted d e visible text t.rows)
        × IsOrdered e.before rs
        × (decode_rows d rs ≡ ok objects)
        × (walk d e text (suc k) count 0 t ≡ (ok objects, t))
  walk-IsOrdered text filter k count t committed f small enough good =
      let rs = order_by_id e.before (wanted d e visible text t.rows) in
      let (objects, decoded) = decode_rows-All d rs (All-order_by_id _ e.before _ good) in
      (
        rs,
        objects,
        order_by_id-perm e.before (wanted d e visible text t.rows),
        order_by_id-IsOrdered e.before total transitive (wanted d e visible text t.rows),
        decoded,
        whole rs objects decoded refl
            (length-order_by_id e.before (wanted d e visible text t.rows)),
      )
    where
      selected : keep (selects e.where_holds filter) t.rows ≡ wanted d e visible text t.rows
      selected = keep_same _ _ t.rows (λ r. selects-list_filter d e visible known text filter r f)

      whole :
          (rs : List Row) (objects : List (Object P))
          → decode_rows d rs ≡ ok objects
          → rs ≡ order_by_id e.before (wanted d e visible text t.rows)
          → length rs ≡ length (wanted d e visible text t.rows)
          → walk d e text (suc k) count 0 t ≡ (ok objects, t)
      whole rs objects decoded ordered size =
          walk-eq-pages d e n text filter t objects committed f
            (rw selected (subst (λ xs. decode_rows d xs ≡ ok objects) ordered decoded)) k count 0
            small
          ∙ ap (λ (os : List (Object P)). let r : Result Error (List (Object P)) = ok os in (r, t))
              (pages_all count (suc k) objects
                (omega (arith, length-decode_rows d rs objects decoded)))
