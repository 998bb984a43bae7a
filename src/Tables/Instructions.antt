-- ===== src/Tables/Instructions.antt =====
-- src/ida_bridge/sql/tables/analysis.py: the table of instructions, its plans and what each reads.
pub mod Pushdown
use ida_bridge.Common.{
  ℕ, String, true, Option, none, some, List, [], ◌∷◌, map, ltb, number_key, ◌==◌, if◌then◌else◌,
}
use ida_bridge.Common.Dict.{Dict}
use ida_bridge.Sql.U64.{SqlValue}
use ida_bridge.Tables.Index.{
  IndexInfo, find_eq_constraint, find_range_constraints, eq_plan, range_plan, plan,
}
use ida_bridge.Tables.Cursor.{ArgSpec, Plans, Result, ok, ◌>>=◌, decode_constraint_args, arg}
use ida_bridge.Tables.Ida.{Ida, Function}
use ida_bridge.Tables.Scan.{over_all}
use ida_bridge.Tables.Bounds.{range_bounds, some_address}

abbrev pub full_scan : ℕ
full_scan = 0

abbrev pub ea_eq : ℕ
ea_eq = 3

abbrev pub func_ea_eq : ℕ
func_ea_eq = 4

abbrev pub ea_range : ℕ
ea_range = 5

-- By what is found: an equality on `address` (column 0), one on `func_ea` (column 4), and bounds on
-- `address`.
unfoldable pub choose_plan : IndexInfo → Option ℕ → Option ℕ → Option ℕ × Option ℕ → IndexInfo
unfolding eq_plan range_plan plan
choose_plan ii (some i) func bounds = eq_plan i ea_eq 1 1 ii
choose_plan ii none (some i) bounds = eq_plan i func_ea_eq 100 100 ii
choose_plan ii none none (some lower, some upper) = range_plan lower upper ea_range 100 100 ii
choose_plan ii none none _ = plan full_scan 1000000000 1000000 ii

-- `InstructionsTable.BestIndexObject`
unfoldable pub best_index : IndexInfo → IndexInfo
unfolding choose_plan
best_index ii =
    choose_plan ii (find_eq_constraint ii 0) (find_eq_constraint ii 4) (find_range_constraints ii 0)

abbrev pub plans : Plans
plans =
    (ea_eq, record { name = "address"; u64 = true; what = none } ∷ [])
    ∷ (func_ea_eq, record { name = "func_ea"; u64 = true; what = none } ∷ [])
    ∷ (
      ea_range,
      record { name = "lower"; u64 = true; what = some "instructions.address lower bound" }
          ∷ record { name = "upper"; u64 = true; what = some "instructions.address upper bound" }
          ∷ [],
    )
    ∷ []

-- A row, with the function that its plan knows beforehand.
pub record InstructionRow : Type 0 where
  pub ea : ℕ
  pub cached_func : Option ℕ

abbrev pub bare : ℕ → InstructionRow
bare ea = record { ea = ea; cached_func = none }

abbrev pub in_func : ℕ → ℕ → InstructionRow
in_func start ea = record { ea = ea; cached_func = some start }

pub record Values : Type 0 where
  pub address : ℕ
  pub mnemonic : String
  pub disasm : String
  pub size : ℕ
  pub containing : ℕ

module _ (ida : Ida) where
  unfoldable pub size : ℕ → ℕ
  size ea = let length = ida.decode_insn ea in if ltb 0 length then length else ida.get_item_size ea

  unfoldable pub func_ea : InstructionRow → ℕ
  func_ea row = elim row.cached_func [
    | some ea ↦ ea
    | none ↦ elim (ida.get_func row.ea) [ some func ↦ func.start_ea | none ↦ 0 ]
  ]

  -- The columns of a row.
  unfoldable pub values : InstructionRow → Values
  unfolding size func_ea
  values row = record {
    address = row.ea;
    mnemonic = ida.print_insn_mnem row.ea;
    disasm = ida.get_disasm row.ea;
    size = size row.ea;
    containing = func_ea row;
  }

  unfoldable pub instructions_at_ea : ℕ → List InstructionRow
  instructions_at_ea ea = bare ea ∷ []

  unfoldable pub instructions_in_func : ℕ → List InstructionRow
  instructions_in_func ea = elim (ida.get_func ea) [
    | none ↦ []
    | some func ↦ map (in_func func.start_ea) (ida.heads (some func.start_ea) (some func.end_ea))
  ]

  unfoldable pub instructions_in_range : Option ℕ × Option ℕ → List InstructionRow
  instructions_in_range (start, end) = map bare (ida.heads start end)

  unfoldable pub instructions_all : List InstructionRow
  instructions_all = over_all ida (λ seg. bare)

  unfoldable pub by_plan : ℕ → Option (List ℕ) → Dict String SqlValue → Result (List InstructionRow)
  unfolding instructions_at_ea instructions_in_func instructions_in_range instructions_all arg
      range_bounds some_address
  by_plan idx_num idx_str args =
      if idx_num == ea_eq
      then (do value ← arg "address" args; ea ← some_address value; ok (instructions_at_ea ea))
      else if idx_num == func_ea_eq
      then (do value ← arg "func_ea" args; ea ← some_address value; ok (instructions_in_func ea))
      else if idx_num == ea_range
      then (do
        lower ← arg "lower" args
        upper ← arg "upper" args
        bounds ← range_bounds idx_str lower upper
        ok (instructions_in_range bounds))
      else ok instructions_all

  -- `InstructionsCursor.Filter`: the rows that the cursor is set to.
  unfoldable pub filter : ℕ → Option (List ℕ) → List SqlValue → Result (List InstructionRow)
  unfolding by_plan decode_constraint_args
  filter idx_num idx_str argv = do
    args ← decode_constraint_args plans "instructions" idx_num argv
    by_plan idx_num idx_str args
