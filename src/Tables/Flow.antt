-- ===== src/Tables/Flow.antt =====
-- src/ida_bridge/sql/tables/analysis.py: the tables of basic blocks and of control flow edges, which
-- are read for one function only.
pub mod Edges
use ida_bridge.Common.{
  ℕ, zero, suc, ◌+◌, String, true, Option, none, some, List, [], ◌∷◌, ◌++◌, map, length, number_key,
  ◌==◌, if◌then◌else◌,
}
use ida_bridge.Common.Int.{ℤ, pos, ◌-ℤ◌}
use ida_bridge.Common.Dict.{Dict}
use ida_bridge.Sql.U64.{SqlValue}
use ida_bridge.Tables.Index.{IndexInfo, find_eq_constraint, eq_plan, plan}
use ida_bridge.Tables.Cursor.{
  ArgSpec, Plans, Result, ok, err, requires_func_ea, ◌>>=◌, decode_constraint_args, arg,
}
use ida_bridge.Tables.Ida.{Function}
use ida_bridge.Tables.Bounds.{some_address}

abbrev pub func_ea_eq : ℕ
func_ea_eq = 4

abbrev pub no_push : ℕ
no_push = 99

-- What both `BestIndexObject` choose, which differ in the rows that they expect.
unfoldable pub choose_plan : ℕ → IndexInfo → Option ℕ → IndexInfo
unfolding eq_plan plan
choose_plan rows ii (some i) = eq_plan i func_ea_eq 10 rows ii
choose_plan rows ii none = plan no_push 10000000000 1000000 ii

-- `BlocksTable.BestIndexObject` and `CfgEdgesTable.BestIndexObject`
unfoldable pub blocks_best_index : IndexInfo → IndexInfo
unfolding choose_plan
blocks_best_index ii = choose_plan 10 ii (find_eq_constraint ii 0)

unfoldable pub cfg_edges_best_index : IndexInfo → IndexInfo
unfolding choose_plan
cfg_edges_best_index ii = choose_plan 20 ii (find_eq_constraint ii 0)

abbrev pub plans : Plans
plans = (func_ea_eq, record { name = "func_ea"; u64 = true; what = none } ∷ []) ∷ []

-- A block of a `FlowChart`, with the starts of its successors.
pub record Block : Type 0 where
  pub start_ea : ℕ
  pub end_ea : ℕ
  pub succs : List ℕ

pub record BlockRow : Type 0 where
  pub func_ea : ℕ
  pub start_ea : ℕ
  pub end_ea : ℕ
  pub size : ℤ

pub record CfgEdgeRow : Type 0 where
  pub func_ea : ℕ
  pub src_block : ℕ
  pub dst_block : ℕ
  pub edge_type : String

-- The function of an address, and the flow chart of a function.
pub record FlowApi : Type 0 where
  pub get_func : ℕ → Option Function
  pub flow_chart : Function → List Block

-- The type of the edge to the successor `j` of a block.
unfoldable pub edge_type : ℕ → ℕ → String
edge_type nsucc j =
    if nsucc == 1
    then "flow"
    else if nsucc == 2
    then (if j == 0 then "true" else "false")
    else "switch"

module _ (api : FlowApi) where
  -- `_flowchart`
  unfoldable pub flowchart : ℕ → Option (List Block)
  flowchart func_ea = elim (api.get_func func_ea) [
    | none ↦ none
    | some func ↦ some (api.flow_chart func)
  ]

  unfoldable pub block_row : ℕ → Block → BlockRow
  block_row func_ea block = record {
    func_ea = func_ea;
    start_ea = block.start_ea;
    end_ea = block.end_ea;
    size = pos block.end_ea -ℤ pos block.start_ea;
  }

  -- `_blocks_in_func`
  unfoldable pub blocks_in_func : ℕ → List BlockRow
  unfolding flowchart block_row
  blocks_in_func func_ea = elim (flowchart func_ea) [
    | none ↦ []
    | some fc ↦ map (block_row func_ea) fc
  ]

  -- The loop over the successors of a block, `j` the number of the next one.
  unfoldable pub edges_from : ℕ → ℕ → ℕ → ℕ → List ℕ → List CfgEdgeRow
  unfolding edge_type
  edges_from func_ea src nsucc j [] = []
  edges_from func_ea src nsucc j (dst ∷ succs) =
      record { func_ea = func_ea; src_block = src; dst_block = dst; edge_type = edge_type nsucc j }
      ∷ edges_from func_ea src nsucc (j + 1) succs

  unfoldable pub edges_of_blocks : ℕ → List Block → List CfgEdgeRow
  unfolding edges_from
  edges_of_blocks func_ea [] = []
  edges_of_blocks func_ea (block ∷ blocks) =
      edges_from func_ea block.start_ea (length block.succs) 0 block.succs
      ++ edges_of_blocks func_ea blocks

  -- `_cfg_edges_in_func`
  unfoldable pub cfg_edges_in_func : ℕ → List CfgEdgeRow
  unfolding flowchart edges_of_blocks
  cfg_edges_in_func func_ea = elim (flowchart func_ea) [
    | none ↦ []
    | some fc ↦ edges_of_blocks func_ea fc
  ]

  -- What both `Filter` do, with the rows of a function: without the address of one they raise.
  abbrev pub by_func : {A : Type 0} → (ℕ → List A) → ℕ → Dict String SqlValue → Result (List A)
  by_func rows idx_num args =
      if idx_num == func_ea_eq
      then (do value ← arg "func_ea" args; ea ← some_address value; ok (rows ea))
      else err requires_func_ea

  -- `BlocksCursor.Filter`
  unfoldable pub blocks_filter : ℕ → List SqlValue → Result (List BlockRow)
  unfolding blocks_in_func decode_constraint_args arg some_address
  blocks_filter idx_num argv = do
    args ← decode_constraint_args plans "blocks" idx_num argv
    by_func blocks_in_func idx_num args

  -- `CfgEdgesCursor.Filter`
  unfoldable pub cfg_edges_filter : ℕ → List SqlValue → Result (List CfgEdgeRow)
  unfolding cfg_edges_in_func decode_constraint_args arg some_address
  cfg_edges_filter idx_num argv = do
    args ← decode_constraint_args plans "cfg_edges" idx_num argv
    by_func cfg_edges_in_func idx_num args
