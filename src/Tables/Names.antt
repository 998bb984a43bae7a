-- ===== src/Tables/Names.antt =====
-- src/ida_bridge/sql/tables/core.py: the table of names, which can be searched by address and by name
-- and whose names can be changed.
pub mod Exact
pub mod Writes
use ida_bridge.Common.{
  ℕ, zero, suc, ◌+◌, ◌-◌, ◌^◌, String, Bool, true, false, Option, none, some, List, [], ◌∷◌,
  get_elem?, ltb, number_key, text_key, ◌==◌, if◌then◌else◌,
}
use ida_bridge.Common.Int.{ℤ, pos, negsuc, pos_part}
use ida_bridge.Common.Dict.{Dict}
use ida_bridge.Sql.U64.{SqlValue, null, decode}
use ida_bridge.Tables.Index.{IndexInfo, find_eq_constraint, eq_plan, plan}
use ida_bridge.Tables.Cursor.{
  ArgSpec, Plans, Result, ok, err, ◌>>=◌, or_text, decode_constraint_args, arg,
}
use ida_bridge.Tables.Columns.{
  Schema, WriteError, Checked, passed, raised, reject_readonly_update, decode_u64_update_fields,
}
use ida_bridge.Tables.Bounds.{some_address}

abbrev pub full_scan : ℕ
full_scan = 0

abbrev pub address_eq : ℕ
address_eq = 1

abbrev pub name_eq : ℕ
name_eq = 2

-- The address is preferred to the name.
unfoldable pub choose_plan : IndexInfo → Option ℕ → Option ℕ → IndexInfo
unfolding eq_plan plan
choose_plan ii (some i) name_idx = eq_plan i address_eq 10 1 ii
choose_plan ii none (some i) = eq_plan i name_eq 10 1 ii
choose_plan ii none none = plan full_scan 1000000 10000 ii

-- `NamesTable.BestIndexObject`
unfoldable pub best_index : IndexInfo → IndexInfo
unfolding choose_plan
best_index ii = choose_plan ii (find_eq_constraint ii 0) (find_eq_constraint ii 1)

abbrev pub plans : Plans
plans =
    (address_eq, record { name = "address"; u64 = true; what = none } ∷ [])
    ∷ (name_eq, record { name = "name"; u64 = false; what = none } ∷ [])
    ∷ []

-- `_NameRow`
pub record NameRow : Type 0 where
  pub ea : ℕ
  pub name : String

-- The columns of a row.
pub record Values : Type 0 where
  pub address : ℕ
  pub name : String
  pub is_auto : ℕ

-- `BADADDR`
abbrev pub badaddr : ℕ
badaddr = 2 ^ 64 - 1

-- IDA's list of names, the address of a name, and the flags of an address; Python's `str`.
pub record NameList : Type 0 where
  pub get_nlist_size : ℕ
  pub get_nlist_ea : ℕ → ℕ
  pub get_nlist_name : ℕ → Option String
  pub is_in_nlist : ℕ → Bool
  pub get_nlist_idx : ℕ → ℤ
  pub get_name_ea : String → ℕ
  pub get_flags : ℕ → ℕ
  pub has_user_name : ℕ → Bool
  pub str : SqlValue → String

module _ (api : NameList) where
  -- `_NameRow.is_auto`, and `NamesCursor._column_value`.
  unfoldable pub is_auto : NameRow → ℕ
  is_auto row = if api.has_user_name (api.get_flags row.ea) then 0 else 1

  unfoldable pub values : NameRow → Values
  unfolding is_auto
  values row = record { address = row.ea; name = row.name; is_auto = is_auto row }

  -- `_name_row_at_index`
  unfoldable pub name_row_at_index : ℕ → NameRow
  name_row_at_index index = record {
    ea = api.get_nlist_ea index;
    name = or_text (api.get_nlist_name index) "";
  }

  -- `for index in range(qty)`: the rounds left, and the index.
  unfoldable pub names_from : ℕ → ℕ → List NameRow
  names_from zero index = []
  names_from (suc rounds) index = name_row_at_index index ∷ names_from rounds (index + 1)

  unfoldable pub names_all : List NameRow
  unfolding names_from
  names_all = names_from api.get_nlist_size 0

  -- The row at an index, if the index is in range and the row is at the address.
  unfoldable pub row_at : ℕ → ℤ → Option NameRow
  unfolding name_row_at_index
  row_at ea (negsuc n) = none
  row_at ea (pos index) =
      if ltb index api.get_nlist_size
      then (if (name_row_at_index index).ea == ea then some (name_row_at_index index) else none)
      else none

  unfoldable pub name_row_at_ea : ℕ → Option NameRow
  unfolding row_at
  name_row_at_ea ea = if api.is_in_nlist ea then row_at ea (api.get_nlist_idx ea) else none

  abbrev pub one_row : Option NameRow → List NameRow
  one_row none = []
  one_row (some row) = row ∷ []

  unfoldable pub name_at_ea : ℕ → List NameRow
  unfolding name_row_at_ea
  name_at_ea ea = one_row (name_row_at_ea ea)

  -- The row found for a name, if it has this name.
  unfoldable pub named : String → Option NameRow → List NameRow
  named name none = []
  named name (some row) = if row.name == name then row ∷ [] else []

  unfoldable pub name_by_name : String → List NameRow
  unfolding named name_row_at_ea
  name_by_name name =
      let ea = api.get_name_ea name in if ea == badaddr then [] else named name (name_row_at_ea ea)

  unfoldable pub by_plan : ℕ → Dict String SqlValue → Result (List NameRow)
  unfolding name_at_ea name_by_name names_all arg some_address
  by_plan idx_num args =
      if idx_num == address_eq
      then (do value ← arg "address" args; ea ← some_address value; ok (name_at_ea ea))
      else if idx_num == name_eq
      then (do value ← arg "name" args; ok (name_by_name (api.str value)))
      else ok names_all

  -- `NamesCursor.Filter`
  unfoldable pub filter : ℕ → List SqlValue → Result (List NameRow)
  unfolding by_plan decode_constraint_args
  filter idx_num argv = do
    args ← decode_constraint_args plans "names" idx_num argv
    by_plan idx_num args

-- The names of a database: `get_name`, with an empty text for none, and `set_name`, with `none` where
-- it fails.
pub record NameStore : Type 1 where
  pub Db : Type 0
  pub get_name : Db → ℕ → String
  pub set_name : Db → ℕ → String → Option Db
  pub text_of : SqlValue → String

pub data RenameError : Type 0 where
  rejected : WriteError → RenameError
  set_name_failed : ℕ → RenameError
  no_field : RenameError

module _ (store : NameStore) where
  open store use {Db, get_name, set_name, text_of}

  -- A rename gives what it raises, if anything, and the database afterwards.
  unfoldable pub set_new_name : ℕ → String → Db → Option RenameError × Db
  set_new_name ea new_name db =
      if new_name == get_name db ea then (none, db) else (elim (set_name db ea new_name) [
        | some db' ↦ (none, db')
        | none ↦ (some (set_name_failed ea), db)
      ])

  -- NULL changes nothing.
  unfoldable pub rename : ℕ → Option SqlValue → Db → Option RenameError × Db
  unfolding set_new_name
  rename ea none db = (some no_field, db)
  rename ea (some null) db = (none, db)
  rename ea (some value) db = set_new_name ea (text_of value) db

  -- `NamesTable.UpdateChangeRow`
  unfoldable pub update_change_row :
      (String → String) → Schema → ℤ → List SqlValue → Db → Option RenameError × Db
  unfolding rename reject_readonly_update decode_u64_update_fields decode
  update_change_row what schema rowid fields db = elim (reject_readonly_update schema fields) [
    | raised e ↦ (some (rejected e), db)
    | passed _ ↦ elim (decode_u64_update_fields what schema fields) [
      | raised e ↦ (some (rejected e), db)
      | passed decoded ↦ rename (pos_part (decode rowid)) (get_elem? decoded 1) db
    ]
  ]
