-- ===== src/Tables/Index.antt =====
-- src/ida_bridge/sql/tables/base.py: the constraints that SQLite offers to a table, and how a table
-- takes them.
pub mod Found
use ida_bridge.Common.{
  ℕ, zero, suc, Bool, true, false, not, ◌&&◌, ◌||◌, Option, none, some, List, [], ◌∷◌, number_key,
  ◌==◌, if◌then◌else◌,
}

abbrev pub op_eq : ℕ
op_eq = 2

abbrev pub op_gt : ℕ
op_gt = 4

abbrev pub op_le : ℕ
op_le = 8

abbrev pub op_lt : ℕ
op_lt = 16

abbrev pub op_ge : ℕ
op_ge = 32

-- A constraint of a query, and what the table decides about it: `argv_index` is 0 while the table
-- does not take it. Column -1, the rowid, is `none`.
pub record Constraint : Type 0 where
  pub column : Option ℕ
  pub op : ℕ
  pub usable : Bool
  pub argv_index : ℕ
  pub omit : Bool

-- `idx_str` is a text of numbers with commas between them, kept as the list of the numbers.
pub record IndexInfo : Type 0 where
  pub constraints : List Constraint
  pub idx_num : ℕ
  pub idx_str : Option (List ℕ)
  pub estimated_cost : ℕ
  pub estimated_rows : ℕ

abbrev pub on_column : Option ℕ → ℕ → Bool
on_column none column = false
on_column (some c) column = c == column

abbrev pub is_eq_on : ℕ → Constraint → Bool
is_eq_on column c = on_column c.column column && (c.op == op_eq && c.usable)

unfoldable pub find_eq_from : ℕ → List Constraint → ℕ → Option ℕ
find_eq_from i [] column = none
find_eq_from i (c ∷ cs) column =
    let rest = find_eq_from (suc i) cs column in if is_eq_on column c then some i else rest

unfoldable pub find_eq_constraint : IndexInfo → ℕ → Option ℕ
unfolding find_eq_from
find_eq_constraint ii column = find_eq_from 0 ii.constraints column

abbrev pub is_lower_on : ℕ → Constraint → Bool
is_lower_on column c = on_column c.column column && (c.usable && (c.op == op_ge || c.op == op_gt))

abbrev pub is_upper_on : ℕ → Constraint → Bool
is_upper_on column c =
    on_column c.column column
    && (c.usable && (not (c.op == op_ge || c.op == op_gt) && (c.op == op_le || c.op == op_lt)))

unfoldable pub find_range_from : ℕ → List Constraint → ℕ → Option ℕ → Option ℕ → Option ℕ × Option ℕ
find_range_from i [] column lower upper = (lower, upper)
find_range_from i (c ∷ cs) column lower upper =
    find_range_from (suc i) cs column (if is_lower_on column c then some i else lower)
      (if is_upper_on column c then some i else upper)

unfoldable pub find_range_constraints : IndexInfo → ℕ → Option ℕ × Option ℕ
unfolding find_range_from
find_range_constraints ii column = find_range_from 0 ii.constraints column none none

unfoldable pub mark_at : List Constraint → ℕ → ℕ → List Constraint
mark_at [] i argv_index = []
mark_at (c ∷ cs) zero argv_index = record c { argv_index = argv_index; omit = true } ∷ cs
mark_at (c ∷ cs) (suc i) argv_index = c ∷ mark_at cs i argv_index

unfoldable pub mark_constraint_used : IndexInfo → ℕ → ℕ → IndexInfo
unfolding mark_at
mark_constraint_used ii i argv_index = record ii {
  constraints = mark_at ii.constraints i argv_index;
}

-- `ii.idxNum = …; ii.estimatedCost = …; ii.estimatedRows = …`
unfoldable pub plan : ℕ → ℕ → ℕ → IndexInfo → IndexInfo
plan idx_num cost rows ii = record ii {
  idx_num = idx_num;
  estimated_cost = cost;
  estimated_rows = rows;
}

-- A plan on one equality, the only constraint that it takes.
unfoldable pub eq_plan : ℕ → ℕ → ℕ → ℕ → IndexInfo → IndexInfo
unfolding plan mark_constraint_used
eq_plan i idx_num cost rows ii = plan idx_num cost rows (mark_constraint_used ii i 1)

-- `ii.get_aConstraint_op(i)`
unfoldable pub op_at : List Constraint → ℕ → ℕ
op_at [] i = 0
op_at (c ∷ cs) zero = c.op
op_at (c ∷ cs) (suc i) = op_at cs i

-- A plan on both bounds of a column, whose operators travel in `idxStr`.
unfoldable pub range_plan : ℕ → ℕ → ℕ → ℕ → ℕ → IndexInfo → IndexInfo
unfolding plan mark_constraint_used op_at
range_plan lower upper idx_num cost rows ii =
    record (plan idx_num cost rows
      (mark_constraint_used (mark_constraint_used ii lower 1) upper 2)) {
        idx_str = some (op_at ii.constraints lower ∷ op_at ii.constraints upper ∷ []);
      }
