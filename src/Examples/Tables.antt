-- ===== src/Examples/Tables.antt =====
-- A small database, and the theorems on the tables (src/ida_bridge/sql/tables) at it.
use ida_bridge.Common.{
  ℕ, ◌≡◌, refl, String, true, false, Option, none, some, List, [], ◌∷◌, map, keep_if, All,
  if◌then◌else◌, arith,
}
use ida_bridge.Common.Int.{pos}
use ida_bridge.Sql.U64.{SqlValue, int, text, decode}
use ida_bridge.Tables.Index.{IndexInfo, op_ge, op_lt, find_eq_constraint, find_range_constraints}
use ida_bridge.Tables.Ida.{Ida, Segment, Function, within, IsDocumented}
use ida_bridge.Tables.Cursor.{ok}
use ida_bridge.Tables.Bounds.{is_address}
use ida_bridge.Tables.Heads.{HeadRow, filter, values, best_index}
use ida_bridge.Tables.Heads.Exact.{head_at}
use ida_bridge.Tables.Heads.Functions.{FunctionsDocumented}
use ida_bridge.Tables.Heads.Pushdown.{Reads, satisfies, pushdown_exact, inner_address-misses}
use ida_bridge.Tables.Omit.{taken_hold}

abbrev pub every_head : List ℕ
every_head = 16 ∷ 18 ∷ 32 ∷ 36 ∷ []

abbrev code_segment : Segment
code_segment = record { start_ea = 16; end_ea = 32; name = ".text" }

abbrev const_segment : Segment
const_segment = record { start_ea = 32; end_ea = 48; name = ".data" }

abbrev pub main : Function
main = record { start_ea = 16; end_ea = 20 }

abbrev start_of : Option ℕ → ℕ
start_of none = 0
start_of (some a) = a

abbrev end_of : Option ℕ → ℕ
end_of none = 1000
end_of (some a) = a

abbrev text_of : SqlValue → String
text_of (text s) = s
text_of _ = ""

abbrev pub db : Ida
db = record {
  segment_starts = 16 ∷ 32 ∷ [];
  getseg = λ ea.
      if within 16 32 ea
      then some code_segment
      else if within 32 48 ea
      then some const_segment
      else none;
  segments = some code_segment ∷ some const_segment ∷ [];
  heads = λ start end. keep_if (within (start_of start) (end_of end)) every_head;
  get_func = λ ea. if within 16 20 ea then some main else none;
  get_item_size = λ ea. 2;
  get_flags = λ ea. ea;
  is_code = λ flags. within 16 32 flags;
  is_strlit = λ flags. false;
  is_struct = λ flags. false;
  is_align = λ flags. false;
  is_data = λ flags. true;
  print_insn_mnem = λ ea. "nop";
  get_disasm = λ ea. "nop";
  decode_insn = λ ea. 2;
  str = text_of;
}

pub db-IsDocumented : IsDocumented db every_head
db-IsDocumented = record {
  ascending = omega arith;
  in_order = (
    refl,
    omega arith,
    omega arith,
    omega arith,
    λ ea h. ground arith,
    (refl, omega arith, omega arith, omega arith, λ ea h. ground arith, tt),
  );
  covered = (refl, (refl, (refl, (refl, tt))));
  heads_lem = λ start end h. refl;
  str_lem = λ s. refl;
}

pub db-FunctionsDocumented : FunctionsDocumented db
db-FunctionsDocumented = record {
  at_start = λ ea f h. ground arith;
  in_chunk = λ ea f e h. ground arith;
  end_small = λ ea f h. ground arith;
}

-- `address >= 18 AND address < 36`, the bounds in the order that SQLite offers them.
abbrev pub two_bounds : IndexInfo
two_bounds = record {
  constraints =
      record { column = some 0; op = op_ge; usable = true; argv_index = 0; omit = false }
      ∷ record { column = some 0; op = op_lt; usable = true; argv_index = 0; omit = false }
      ∷ [];
  idx_num = 0;
  idx_str = none;
  estimated_cost = 0;
  estimated_rows = 0;
}

abbrev pub bounds : List SqlValue
bounds = int (pos 18) ∷ int (pos 36) ∷ []

pushdown_exact_example :
    Reads db every_head db-IsDocumented bounds
      (taken_hold satisfies (best_index two_bounds).constraints bounds)
      (best_index two_bounds).idx_num
      (best_index two_bounds).idx_str
unfolding find_eq_constraint find_range_constraints decode
pushdown_exact_example =
    pushdown_exact db every_head db-IsDocumented two_bounds bounds (refl, (refl, tt))
      db-FunctionsDocumented
      (
        pos 18,
        pos 36,
        refl,
        (omega arith, omega arith),
        (omega arith, omega arith),
        refl,
        omega arith,
      )

inner_address-misses_example :
    (rows : List HeadRow) × (filter db 2 none (int (pos 18) ∷ []) ≡ ok rows)
    × (map (values db) rows ≡ map (head_at db) (keep_if (within 16 20) every_head))
    × All (λ row. is_address (int (pos 18)) row.containing ≡ false) (map (values db) rows)
unfolding decode
inner_address-misses_example =
    inner_address-misses db every_head db-IsDocumented (pos 18) main none db-FunctionsDocumented
      refl (λ e. absurd (omega arith))
