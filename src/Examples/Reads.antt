-- ===== src/Examples/Reads.antt =====
-- The tables of instructions and of cross references (src/ida_bridge/sql/tables/analysis.py) over
-- the small database.
use ida_bridge.Common.{◌≡◌, refl, [], ◌∷◌, keep_if, number_key, ◌==◌, arith}
use ida_bridge.Common.Int.{pos}
use ida_bridge.Sql.U64.{int, decode}
use ida_bridge.Tables.Index.{find_eq_constraint, find_range_constraints}
use ida_bridge.Tables.Cursor.{ok}
use ida_bridge.Tables.Bounds.{address}
use ida_bridge.Tables.Omit.{taken_hold}
use ida_bridge.Tables.Instructions.{best_index}
use ida_bridge.Tables.Instructions.Pushdown.{Reads, satisfies, instructions_exact}
use ida_bridge.Tables.Xrefs.{XrefApi, XrefRow, filter, xrefs_all}
use ida_bridge.Tables.Xrefs.Exact.{xrefs_from_func-exact}
use ida_bridge.Examples.Tables.{
  db, every_head, db-IsDocumented, db-FunctionsDocumented, two_bounds, bounds,
}

instructions_exact_example :
    Reads db every_head db-IsDocumented bounds
      (taken_hold satisfies (best_index two_bounds).constraints bounds)
      (best_index two_bounds).idx_num
      (best_index two_bounds).idx_str
unfolding find_eq_constraint find_range_constraints decode
instructions_exact_example =
    instructions_exact db every_head db-IsDocumented two_bounds bounds (refl, (refl, tt))
      db-FunctionsDocumented
      (
        pos 18,
        pos 36,
        refl,
        (omega arith, omega arith),
        (omega arith, omega arith),
        refl,
        omega arith,
      )

-- Each head refers twice to the start of the code, and once to the data.
abbrev references : XrefApi
references = record {
  xrefs_to = λ ea. [];
  xrefs_from = λ ea.
      record { frm = ea; to = 16; kind = 17; iscode = 1 }
      ∷ record { frm = ea; to = 16; kind = 17; iscode = 1 }
      ∷ record { frm = ea; to = 32; kind = 1; iscode = 0 }
      ∷ [];
}

xrefs_from_func-exact_example :
    filter db references 6 (int (pos 16) ∷ [])
    ≡ ok (keep_if (λ (row : XrefRow). row.from_func == address (pos 16)) (xrefs_all db references))
unfolding decode
xrefs_from_func-exact_example =
    xrefs_from_func-exact db references every_head db-IsDocumented
      (λ ea. (refl, (refl, (refl, tt)))) (pos 16) db-FunctionsDocumented (refl, λ x h. ground arith)
      (λ e. absurd (omega arith))
