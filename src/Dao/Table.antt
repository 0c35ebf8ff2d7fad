-- ===== src/Dao/Table.antt =====
-- The SQL statements of generic_dao.go, on the rows of the table. The identifier is the primary key.
use fulfillment_service.Common.{
  Bool, true, ◌&&◌, Option, none, some, List, [], ◌∷◌, ◌++◌, String, Result, ok, err, str_eq,
  contains, any, keep, if◌then◌else◌,
}
use fulfillment_service.Dao.Types.{
  Row, ArchivedRow, Tables, Clause, id_is, raw, overlaps, both, Error, failure,
}

-- `tenants && $n`: the arrays have an element in common.
abbrev pub overlap : List String → List String → Bool
overlap xs ys = any (contains ys) xs

abbrev pub holds : (String → Row → Bool) → Clause → Row → Bool
holds w (id_is k) r = str_eq r.id k
holds w (raw sql) r = w sql r
holds w (overlaps tenants) r = overlap r.tenants tenants
holds w (both a b) r = holds w a r && holds w b r

-- A statement with no `where` clause reads all rows.
abbrev pub selects : (String → Row → Bool) → Option Clause → Row → Bool
selects w none r = true
selects w (some c) r = holds w c r

-- `select … where c`, for one row.
abbrev pub find_row : (Row → Bool) → List Row → Option Row
find_row p [] = none
find_row p (r ∷ rs) = if p r then some r else find_row p rs

-- `update … set … where c`, on the rows that the clause selects.
abbrev pub update_rows : (Row → Bool) → (Row → Row) → List Row → List Row
update_rows p f [] = []
update_rows p f (r ∷ rs) = (if p r then f r else r) ∷ update_rows p f rs

-- `delete from … where id = $1`
abbrev pub delete_rows : String → List Row → List Row
delete_rows k [] = []
delete_rows k (r ∷ rs) = if str_eq r.id k then delete_rows k rs else r ∷ delete_rows k rs

module _ {W : Type 0} where
  -- `select …`: `none` is `pgx.ErrNoRows`.
  abbrev pub select_row : (Row → Bool) → Tables W → Result Error (Option Row) × Tables W
  select_row p t = (ok (find_row p t.rows), t)

  -- `select … where …`, for all rows, in no order yet.
  abbrev pub select_rows : (Row → Bool) → Tables W → Result Error (List Row) × Tables W
  select_rows p t = (ok (keep p t.rows), t)

  -- `insert into … returning …`: a second row with the identifier is refused.
  abbrev pub insert_row : Row → Tables W → Result Error Row × Tables W
  insert_row r t =
      if any (λ s. str_eq s.id r.id) t.rows
      then (err (failure "duplicate key value violates unique constraint"), t)
      else (ok r, record t { rows = t.rows ++ r ∷ [] })

  -- `update … where … returning …`: the row as it is afterwards.
  abbrev pub update_row :
      (Row → Bool) → (Row → Row) → Tables W → Result Error (Option Row) × Tables W
  update_row p f t = elim (find_row p t.rows) [
    | none ↦ (ok none, t)
    | some r ↦ (ok (some (f r)), record t { rows = update_rows p f t.rows })
  ]

  abbrev pub insert_archived : ArchivedRow → Tables W → Result Error (Unit {0}) × Tables W
  insert_archived a t = (ok tt, record t { archived = t.archived ++ a ∷ [] })

  abbrev pub delete_row : String → Tables W → Result Error (Unit {0}) × Tables W
  delete_row k t = (ok tt, record t { rows = delete_rows k t.rows })
