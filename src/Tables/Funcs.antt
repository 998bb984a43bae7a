-- ===== src/Tables/Funcs.antt =====
-- src/ida_bridge/sql/tables/core.py: the table of functions, which can be searched by start and by
-- name, and whose name, prototype, comments and flags can be changed.
pub mod Exact
pub mod Writes
use Prim.Native.String.{◌++◌}
use ida_bridge.Common.{
  ℕ, zero, suc, ◌+◌, String, Bool, true, false, not, Option, none, some, List, [], ◌∷◌, get_elem?,
  number_key, text_key, ◌==◌, if◌then◌else◌,
}
use ida_bridge.Common.Int.{ℤ, pos, pos_part, eqb_ℤ}
use ida_bridge.Common.Dict.{Dict}
use ida_bridge.Sql.U64.{SqlValue, null, text, decode}
use ida_bridge.Tables.Index.{IndexInfo, find_eq_constraint, eq_plan, plan}
use ida_bridge.Tables.Cursor.{ArgSpec, Plans, Result, ok, err, ◌>>=◌, decode_constraint_args, arg}
use ida_bridge.Tables.Columns.{
  Schema, WriteError, Checked, passed, raised, reject_readonly_update, decode_u64_update_fields,
}
use ida_bridge.Tables.Bounds.{some_address}
use ida_bridge.Tables.Comments.{truth}
use ida_bridge.Tables.Names.{badaddr}

abbrev pub full_scan : ℕ
full_scan = 0

abbrev pub start_ea_eq : ℕ
start_ea_eq = 1

abbrev pub name_eq : ℕ
name_eq = 2

-- The start is preferred to the name.
unfoldable pub choose_plan : IndexInfo → Option ℕ → Option ℕ → IndexInfo
unfolding eq_plan plan
choose_plan ii (some i) name_idx = eq_plan i start_ea_eq 10 1 ii
choose_plan ii none (some i) = eq_plan i name_eq 10 1 ii
choose_plan ii none none = plan full_scan 1000000 10000 ii

-- `FuncsTable.BestIndexObject`
unfoldable pub best_index : IndexInfo → IndexInfo
unfolding choose_plan
best_index ii = choose_plan ii (find_eq_constraint ii 0) (find_eq_constraint ii 1)

abbrev pub plans : Plans
plans =
    (start_ea_eq, record { name = "start_ea"; u64 = true; what = none } ∷ [])
    ∷ (name_eq, record { name = "name"; u64 = false; what = none } ∷ [])
    ∷ []

-- A function of IDA.
pub record FuncInfo : Type 0 where
  pub start_ea : ℕ
  pub end_ea : ℕ
  pub flags : ℕ

-- `_FuncRow`
pub record FuncRow : Type 0 where
  pub ea : ℕ
  pub func : FuncInfo

-- The functions of a database, their names, prototypes and comments, empty where there are none;
-- a write gives `none` where IDA refuses it. `is_decl` is whether a text ends in a semicolon, and
-- `int_of` Python's `int`, `none` where that raises.
pub record FuncApi : Type 1 where
  pub Db : Type 0
  pub functions : Db → List ℕ
  pub get_func : Db → ℕ → Option FuncInfo
  pub get_name_ea : Db → String → ℕ
  pub get_func_name : Db → ℕ → String
  pub get_name : Db → ℕ → String
  pub print_type : Db → ℕ → String
  pub get_func_cmt : Db → ℕ → Bool → String
  pub set_name : Db → ℕ → String → Option Db
  pub del_tinfo : Db → ℕ → Db
  pub apply_cdecl : Db → ℕ → String → Option Db
  pub set_func_cmt : Db → ℕ → String → Bool → Option Db
  pub update_func : Db → FuncInfo → ℤ → Option Db
  pub mark_cfunc_dirty : Db → ℕ → Db
  pub auto_wait : Db → Db
  pub str : SqlValue → String
  pub int_of : SqlValue → Option ℤ
  pub is_decl : String → Bool

-- `text or None`
abbrev pub or_none : String → Option String
or_none s = if s == "" then none else some s

-- Whether a field equals a text or None.
abbrev pub is_same : SqlValue → Option String → Bool
is_same (text s) (some t) = s == t
is_same null none = true
is_same _ _ = false

pub data FuncError : Type 0 where
  rejected : WriteError → FuncError
  no_function : ℕ → FuncError
  set_name_failed apply_cdecl_failed update_func_failed : ℕ → FuncError
  set_func_cmt_failed : ℕ → Bool → FuncError
  value_error index_error : FuncError

module _ (api : FuncApi) where
  open api use {
    Db, functions, get_func, get_name_ea, get_func_name, get_name, print_type, get_func_cmt,
    set_name, del_tinfo, apply_cdecl, set_func_cmt, update_func, mark_cfunc_dirty, auto_wait, str,
    int_of, is_decl,
  }

  -- The function, if it starts at the address.
  unfoldable pub starting_at : ℕ → Option FuncInfo → Option FuncRow
  starting_at ea none = none
  starting_at ea (some func) =
      if func.start_ea == ea then some (record { ea = ea; func = func }) else none

  -- `_func_row`
  unfoldable pub func_row : Db → ℕ → Option FuncRow
  unfolding starting_at
  func_row db ea = starting_at ea (get_func db ea)

  abbrev pub with_row : Option FuncRow → List FuncRow → List FuncRow
  with_row none rows = rows
  with_row (some row) rows = row ∷ rows

  unfoldable pub rows_of : Db → List ℕ → List FuncRow
  unfolding func_row
  rows_of db [] = []
  rows_of db (ea ∷ eas) = with_row (func_row db ea) (rows_of db eas)

  unfoldable pub funcs_all : Db → List FuncRow
  unfolding rows_of
  funcs_all db = rows_of db (functions db)

  unfoldable pub func_at_ea : Db → ℕ → List FuncRow
  unfolding func_row
  func_at_ea db ea = with_row (func_row db ea) []

  -- The row found for a name, if its function has this name.
  unfoldable pub named : Db → String → Option FuncRow → List FuncRow
  named db name none = []
  named db name (some row) = if get_func_name db row.ea == name then row ∷ [] else []

  unfoldable pub func_named : Db → String → List FuncRow
  unfolding named func_row
  func_named db name =
      let ea = get_name_ea db name in if ea == badaddr then [] else named db name (func_row db ea)

  unfoldable pub by_plan : Db → ℕ → Dict String SqlValue → Result (List FuncRow)
  unfolding func_at_ea func_named funcs_all arg some_address
  by_plan db idx_num args =
      if idx_num == start_ea_eq
      then (do value ← arg "start_ea" args; ea ← some_address value; ok (func_at_ea db ea))
      else if idx_num == name_eq
      then (do value ← arg "name" args; ok (func_named db (str value)))
      else ok (funcs_all db)

  -- `FuncsCursor.Filter`
  unfoldable pub filter : Db → ℕ → List SqlValue → Result (List FuncRow)
  unfolding by_plan decode_constraint_args
  filter db idx_num argv = do
    args ← decode_constraint_args plans "funcs" idx_num argv
    by_plan db idx_num args

  -- A write gives what it raises, if anything, and the database afterwards.
  abbrev pub Write : Type 0
  Write = Db → Option FuncError × Db

  abbrev pub and_then : Option FuncError × Db → Write → Option FuncError × Db
  and_then (some e, db) next = (some e, db)
  and_then (none, db) next = next db

  -- What IDA makes of a write: refused, or done, with the decompiler's cache of the function dirty.
  abbrev pub dirtied : ℕ → FuncError → Db → Option Db → Option FuncError × Db
  dirtied ea e db none = (some e, db)
  dirtied ea e db (some db') = (none, mark_cfunc_dirty db' ea)

  -- The name: NULL changes nothing.
  unfoldable pub apply_name : ℕ → SqlValue → Write
  apply_name ea null db = (none, db)
  apply_name ea value db =
      if str value == get_name db ea
      then (none, db)
      else dirtied ea (set_name_failed ea) db (set_name db ea (str value))

  -- `_apply_prototype`
  unfoldable pub apply_prototype : ℕ → SqlValue → Write
  apply_prototype ea value db =
      let decl = if is_decl (str value) then str value else str value ++ ";" in
      if is_same value (or_none (print_type db ea))
      then (none, db)
      else if not (truth value)
      then (none, mark_cfunc_dirty (del_tinfo db ea) ea)
      else dirtied ea (apply_cdecl_failed ea) db (apply_cdecl db ea decl)

  -- `_apply_comment`
  unfoldable pub apply_comment : FuncInfo → SqlValue → Bool → Write
  apply_comment func value repeatable db =
      if is_same value (or_none (get_func_cmt db func.start_ea repeatable))
      then (none, db)
      else (elim (set_func_cmt db func.start_ea (if truth value then str value else "")
          repeatable) [
            | some db' ↦ (none, db')
            | none ↦ (some (set_func_cmt_failed func.start_ea repeatable), db)
          ])

  -- The flags, with what `int` makes of the field.
  abbrev pub given_flags : ℕ → FuncInfo → Option ℤ → Write
  given_flags ea func none db = (some value_error, db)
  given_flags ea func (some z) db =
      if eqb_ℤ z (pos func.flags)
      then (none, db)
      else dirtied ea (update_func_failed ea) db (update_func db func z)

  unfoldable pub apply_flags : ℕ → FuncInfo → SqlValue → Write
  apply_flags ea func null db = (none, db)
  apply_flags ea func value db = given_flags ea func (int_of value) db

  -- The decoded fields of an UPDATE, in the order of the columns.
  unfoldable pub apply_fields : ℕ → FuncInfo → List SqlValue → Write
  unfolding apply_name apply_prototype apply_comment apply_flags
  apply_fields ea func (start ∷ name ∷ proto ∷ comment ∷ rpt ∷ size ∷ end ∷ flags ∷ rest) db =
      let named = apply_name ea name (auto_wait db) in
      let typed = and_then named (apply_prototype ea proto) in
      let commented = and_then typed (apply_comment func comment false) in
      let repeated = and_then commented (apply_comment func rpt true) in
      let flagged = and_then repeated (apply_flags ea func flags) in
      and_then flagged (λ d. (none, auto_wait d))
  apply_fields ea func _ db = (some index_error, db)

  abbrev pub change_func : ℕ → Option FuncInfo → List SqlValue → Write
  change_func ea none fields db = (some (no_function ea), db)
  change_func ea (some func) fields db = apply_fields ea func fields db

  -- `FuncsTable.UpdateChangeRow`
  unfoldable pub update_change_row : (String → String) → Schema → ℤ → List SqlValue → Write
  unfolding apply_fields reject_readonly_update decode_u64_update_fields decode
  update_change_row what schema rowid fields db = elim (reject_readonly_update schema fields) [
    | raised e ↦ (some (rejected e), db)
    | passed _ ↦ elim (decode_u64_update_fields what schema fields) [
      | raised e ↦ (some (rejected e), db)
      | passed decoded ↦
          let ea = pos_part (decode rowid) in change_func ea (get_func db ea) decoded db
    ]
  ]
