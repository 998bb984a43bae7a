-- ===== src/Tables/Strings.antt =====
-- src/ida_bridge/sql/tables/core.py: the table of strings, whose plan for an address is a binary
-- search in IDA's string list.
pub mod Search
use ida_bridge.Common.{
  ℕ, zero, suc, ◌+◌, ◌-◌, ◌/◌, String, true, Option, none, some, List, [], ◌∷◌, ltb, number_key,
  ◌==◌, if◌then◌else◌,
}
use ida_bridge.Common.Dict.{Dict}
use ida_bridge.Sql.U64.{SqlValue}
use ida_bridge.Tables.Index.{IndexInfo, find_eq_constraint, eq_plan, plan}
use ida_bridge.Tables.Cursor.{
  ArgSpec, Plans, Result, ok, err, Error, item_failed, out_of_rounds, ◌>>=◌, decode_constraint_args,
  arg,
}
use ida_bridge.Tables.Bounds.{some_address}

abbrev pub full_scan : ℕ
full_scan = 0

abbrev pub address_eq : ℕ
address_eq = 1

unfoldable pub choose_plan : IndexInfo → Option ℕ → IndexInfo
unfolding eq_plan plan
choose_plan ii (some i) = eq_plan i address_eq 10 1 ii
choose_plan ii none = plan full_scan 1000000 10000 ii

-- `StringsTable.BestIndexObject`
unfoldable pub best_index : IndexInfo → IndexInfo
unfolding choose_plan
best_index ii = choose_plan ii (find_eq_constraint ii 0)

abbrev pub plans : Plans
plans = (address_eq, record { name = "address"; u64 = true; what = none } ∷ []) ∷ []

pub record StringRow : Type 0 where
  pub ea : ℕ
  pub length : ℕ
  pub strtype : ℕ

-- IDA's string list: `get_strlist_qty()` and `get_strlist_item`, `none` where that fails.
pub record StringList : Type 0 where
  pub qty : ℕ
  pub item : ℕ → Option StringRow

module _ (api : StringList) where
  -- `_string_row_at_index`
  unfoldable pub string_row_at_index : ℕ → Result StringRow
  string_row_at_index index = elim (api.item index) [
    | some row ↦ ok row
    | none ↦ err (item_failed index)
  ]

  -- `for index in range(qty)`: the rounds left, and the index.
  unfoldable pub rows_from : ℕ → ℕ → Result (List StringRow)
  unfolding string_row_at_index
  rows_from zero index = ok []
  rows_from (suc rounds) index = do
    row ← string_row_at_index index
    rows ← rows_from rounds (index + 1)
    ok (row ∷ rows)

  unfoldable pub strings_all : Result (List StringRow)
  unfolding rows_from
  strings_all = rows_from api.qty 0

  -- The loop `while lo <= hi` on fuel. `top` is `hi + 1`, since `hi` may be -1.
  unfoldable pub search : ℕ → ℕ → ℕ → ℕ → Result (List StringRow)
  unfolding string_row_at_index
  search zero ea lo top = err out_of_rounds
  search (suc rounds) ea lo top =
      let index = (lo + (top - 1)) / 2 in
      let above = search rounds ea (index + 1) top in
      let below = search rounds ea lo index in
      if ltb lo top
      then (do
        row ← string_row_at_index index
        if row.ea == ea then ok (row ∷ []) else if ltb row.ea ea then above else below)
      else ok []

  -- `_string_at_ea`; each round shrinks the range.
  unfoldable pub string_at_ea : ℕ → Result (List StringRow)
  unfolding search
  string_at_ea ea = search (suc api.qty) ea 0 api.qty

  unfoldable pub by_plan : ℕ → Dict String SqlValue → Result (List StringRow)
  unfolding string_at_ea strings_all arg some_address
  by_plan idx_num args =
      if idx_num == address_eq
      then (do value ← arg "address" args; ea ← some_address value; string_at_ea ea)
      else strings_all

  -- `StringsCursor.Filter`, with what the generator raises when it is read.
  unfoldable pub filter : ℕ → List SqlValue → Result (List StringRow)
  unfolding by_plan decode_constraint_args
  filter idx_num argv = do
    args ← decode_constraint_args plans "strings" idx_num argv
    by_plan idx_num args
