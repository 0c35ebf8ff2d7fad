-- ===== src/Dao/Listing.antt =====
-- generic_dao.go: `list`, its paging and its decoding loop, and the limits that `Build` accepts.
use fulfillment_service.Common.{
  ℕ, zero, suc, Bool, Option, none, some, List, [], ◌∷◌, String, Result, ok, err, ltb, str_eq, take,
  drop, length, if◌then◌else◌,
}
use fulfillment_service.Common.Int.{ℤ, pos, negsuc, to_nat, int32}
use fulfillment_service.Common.Exec.{pure, lift, ◌>>=◌}
use fulfillment_service.Database.Tx.{query}
use fulfillment_service.Dao.Types.{Object, Error, Row, Clause, raw, Dao, Env, Method}
use fulfillment_service.Dao.Table.{selects, select_rows}
use fulfillment_service.Dao.Metadata.{add_tenancy_filter}
use fulfillment_service.Dao.Methods.{decode_row}

pub record ListRequest : Type 0 where
  pub offset : ℤ
  pub limit : ℤ
  pub filter : String

pub record ListResponse (P : Type 0) : Type 0 where
  pub size : ℤ
  pub total : ℤ
  pub items : List (Object P)

-- The limit of the query, for a default and a maximum.
unfoldable pub effective_limit : ℕ → ℕ → ℤ → ℕ
effective_limit default maximum (negsuc n) = 0
effective_limit default maximum (pos zero) = default
effective_limit default maximum (pos (suc n)) = if ltb maximum (suc n) then maximum else suc n

abbrev pub insert_row_by : (String → String → Bool) → Row → List Row → List Row
insert_row_by before r [] = r ∷ []
insert_row_by before r (x ∷ xs) =
    if before x.id r.id then x ∷ insert_row_by before r xs else r ∷ x ∷ xs

-- What PostgreSQL makes of `order by id`.
abbrev pub order_by_id : (String → String → Bool) → List Row → List Row
order_by_id before [] = []
order_by_id before (r ∷ rs) = insert_row_by before r (order_by_id before rs)

-- What PostgreSQL makes of `offset $n limit $m`.
abbrev pub page : ℕ → ℕ → List Row → List Row
page offset limit rows = take limit (drop offset rows)

module _ {P W : Type 0} where
  -- The loop over `itemsRows`: the first row that can't be decoded ends it.
  unfoldable pub decode_rows : Dao P W → List Row → Result Error (List (Object P))
  decode_rows d [] = ok []
  decode_rows d (r ∷ rs) = elim (decode_row d r) [
    | err e ↦ err e
    | ok item ↦ elim (decode_rows d rs) [ ok items ↦ ok (item ∷ items) | err e ↦ err e ]
  ]

  module _ (d : Dao P W) (e : Env) where
    -- The filter of the request, translated, and the tenancy filter.
    unfoldable pub list_filter : String → Result Error (Option Clause)
    list_filter filter =
        if str_eq filter "" then add_tenancy_filter d none else (elim (d.translate filter) [
          | ok sql ↦ add_tenancy_filter d (some (raw sql))
          | err e ↦ err e
        ])

    unfoldable pub list : ListRequest → Method W (ListResponse P)
    list request = do
      filter ← lift (list_filter request.filter)
      counted ← query e.faults (select_rows (selects e.where_holds filter))
      found ← query e.faults (select_rows (selects e.where_holds filter))
      let limit : ℕ = effective_limit d.default_limit d.max_limit request.limit
      items ← lift (decode_rows d (page (to_nat request.offset) limit (order_by_id e.before found)))
      pure (record { size = int32 (length items); total = int32 (length counted); items = items })
