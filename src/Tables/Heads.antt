-- ===== src/Tables/Heads.antt =====
-- src/ida_bridge/sql/tables/heads.py: the table of item heads, its plans and what each reads.
pub mod Exact
pub mod Segments
pub mod Functions
pub mod Pushdown
use ida_bridge.Common.{
  ℕ, String, Bool, true, false, Option, none, some, List, [], ◌∷◌, ◌++◌, map, number_key, text_key,
  ◌==◌, if◌then◌else◌,
}
use ida_bridge.Common.Int.{pos}
use ida_bridge.Common.Dict.{Dict, get}
use ida_bridge.Sql.U64.{SqlValue, null, int, text}
use ida_bridge.Tables.Index.{
  IndexInfo, find_eq_constraint, find_range_constraints, eq_plan, range_plan, plan,
}
use ida_bridge.Tables.Cursor.{ArgSpec, Plans, Result, ok, err, ◌>>=◌, decode_constraint_args, arg}
use ida_bridge.Tables.Ida.{Ida, Segment, Function}
use ida_bridge.Tables.Scan.{over_all}
use ida_bridge.Tables.Bounds.{range_bounds, some_address}

abbrev pub full_scan : ℕ
full_scan = 0

abbrev pub segment_eq : ℕ
segment_eq = 1

abbrev pub func_ea_eq : ℕ
func_ea_eq = 2

abbrev pub ea_range : ℕ
ea_range = 3

-- By what is found: an equality on `segment` (column 3), one on `func_ea` (column 4), and bounds
-- on `address` (column 0).
unfoldable pub choose_plan : IndexInfo → Option ℕ → Option ℕ → Option ℕ × Option ℕ → IndexInfo
unfolding eq_plan range_plan plan
choose_plan ii (some i) func bounds = eq_plan i segment_eq 100000 10000 ii
choose_plan ii none (some i) bounds = eq_plan i func_ea_eq 1000 100 ii
choose_plan ii none none (some lower, some upper) = range_plan lower upper ea_range 10000 1000 ii
choose_plan ii none none _ = plan full_scan 1000000000 1000000 ii

-- `HeadsTable.BestIndexObject`
unfoldable pub best_index : IndexInfo → IndexInfo
unfolding choose_plan
best_index ii =
    choose_plan ii (find_eq_constraint ii 3) (find_eq_constraint ii 4) (find_range_constraints ii 0)

abbrev pub plans : Plans
plans =
    (segment_eq, record { name = "segment"; u64 = false; what = none } ∷ [])
    ∷ (func_ea_eq, record { name = "func_ea"; u64 = true; what = none } ∷ [])
    ∷ (
      ea_range,
      record { name = "lower"; u64 = true; what = some "heads.address lower bound" }
          ∷ record { name = "upper"; u64 = true; what = some "heads.address upper bound" }
          ∷ [],
    )
    ∷ []

-- A row with the values that its plan knows beforehand; the others are asked for when read.
pub record HeadRow : Type 0 where
  pub ea : ℕ
  pub cached_segment : Option String
  pub cached_func : Option (Option ℕ)

abbrev pub in_segment : String → ℕ → HeadRow
in_segment name ea = record { ea = ea; cached_segment = some name; cached_func = none }

abbrev pub in_func : ℕ → ℕ → HeadRow
in_func start ea = record { ea = ea; cached_segment = none; cached_func = some (some start) }

abbrev pub bare : ℕ → HeadRow
bare ea = record { ea = ea; cached_segment = none; cached_func = none }

-- The columns of a row, and `_column_value` of a number; no such number is an IndexError.
pub record Values : Type 0 where
  pub address : ℕ
  pub size : ℕ
  pub kind : String
  pub segment : String
  pub containing : Option ℕ

module _ (ida : Ida) where
  -- `_item_type`
  unfoldable pub item_type : ℕ → String
  item_type flags =
      if ida.is_code flags
      then "code"
      else if ida.is_strlit flags
      then "string"
      else if ida.is_struct flags
      then "struct"
      else if ida.is_align flags
      then "align"
      else if ida.is_data flags
      then "data"
      else "unknown"

  unfoldable pub segment_name : HeadRow → String
  segment_name row = elim row.cached_segment [
    | some name ↦ name
    | none ↦ elim (ida.getseg row.ea) [ some seg ↦ seg.name | none ↦ "" ]
  ]

  unfoldable pub func_ea : HeadRow → Option ℕ
  func_ea row = elim row.cached_func [
    | some ea ↦ ea
    | none ↦ elim (ida.get_func row.ea) [ some func ↦ some func.start_ea | none ↦ none ]
  ]

  -- `for i in range(get_segm_qty())`: the first segment of the name.
  unfoldable pub find_segment : String → List (Option Segment) → Option Segment
  find_segment name [] = none
  find_segment name (none ∷ segs) = find_segment name segs
  find_segment name (some seg ∷ segs) =
      let rest = find_segment name segs in if seg.name == name then some seg else rest

  unfoldable pub heads_in_segment : String → List HeadRow
  unfolding find_segment
  heads_in_segment name = elim (find_segment name ida.segments) [
    | none ↦ []
    | some seg ↦ map (in_segment name) (ida.heads (some seg.start_ea) (some seg.end_ea))
  ]

  unfoldable pub heads_in_func : ℕ → List HeadRow
  heads_in_func ea = elim (ida.get_func ea) [
    | none ↦ []
    | some func ↦ map (in_func func.start_ea) (ida.heads (some func.start_ea) (some func.end_ea))
  ]

  unfoldable pub heads_in_range : Option ℕ × Option ℕ → List HeadRow
  heads_in_range (start, end) = map bare (ida.heads start end)

  unfoldable pub heads_all : List HeadRow
  heads_all = over_all ida (λ seg. in_segment seg.name)

  unfoldable pub by_plan : ℕ → Option (List ℕ) → Dict String SqlValue → Result (List HeadRow)
  unfolding heads_in_segment heads_in_func heads_in_range heads_all arg range_bounds some_address
  by_plan idx_num idx_str args =
      if idx_num == segment_eq
      then (do segment ← arg "segment" args; ok (heads_in_segment (ida.str segment)))
      else if idx_num == func_ea_eq
      then (do value ← arg "func_ea" args; ea ← some_address value; ok (heads_in_func ea))
      else if idx_num == ea_range
      then (do
        lower ← arg "lower" args
        upper ← arg "upper" args
        bounds ← range_bounds idx_str lower upper
        ok (heads_in_range bounds))
      else ok heads_all

  -- `HeadsCursor.Filter`: the rows that the cursor is set to.
  unfoldable pub filter : ℕ → Option (List ℕ) → List SqlValue → Result (List HeadRow)
  unfolding by_plan decode_constraint_args
  filter idx_num idx_str argv = do
    args ← decode_constraint_args plans "heads" idx_num argv
    by_plan idx_num idx_str args

  unfoldable pub values : HeadRow → Values
  unfolding item_type segment_name func_ea
  values row = record {
    address = row.ea;
    size = ida.get_item_size row.ea;
    kind = item_type (ida.get_flags row.ea);
    segment = segment_name row;
    containing = func_ea row;
  }
