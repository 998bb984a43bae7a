-- ===== src/Examples/Writes.antt =====
-- An UPDATE of the table of names (src/ida_bridge/sql/tables/core.py), and a search of its strings.
use ida_bridge.Common.{
  ℕ, zero, suc, ◌≡◌, ◌↔◌, refl, String, true, false, Option, none, some, List, [], ◌∷◌, get_elem?,
  keep_if, number_key, ◌==◌, ◌<◌, subst, arith,
}
use ida_bridge.Common.Int.{pos}
use ida_bridge.Sql.U64.{SqlValue, null, int, text, no_change}
use ida_bridge.Tables.Cursor.{ok}
use ida_bridge.Tables.Bounds.{address}
use ida_bridge.Tables.Columns.{
  ColumnSpecs, Schema, names_of, is_no_change, apply_schema_specs, passed, reject_readonly_update,
  column_no_change,
}
use ida_bridge.Tables.Columns.Writes.{IsUpdate, OnlyWritable, update_accepted_iff}
use ida_bridge.Tables.Strings.{StringRow, StringList, filter}
use ida_bridge.Tables.Strings.Search.{IsListed, strings_exact}

abbrev names_specs : ColumnSpecs
names_specs =
    ("address", record { hex = true; u64 = true; rowid = true; writable = false })
    ∷ ("name", record { hex = false; u64 = false; rowid = false; writable = true })
    ∷ []

abbrev names_columns : List String
names_columns = "address" ∷ "name" ∷ "is_auto" ∷ []

abbrev no_values : ℕ → SqlValue
no_values i = null

-- `UPDATE names SET name = 'start'`
abbrev rename : ℕ → Option SqlValue
rename zero = none
rename (suc zero) = some (text "start")
rename (suc (suc i)) = none

abbrev rename_fields : List SqlValue
rename_fields = no_change ∷ text "start" ∷ no_change ∷ []

rename_given :
    (i : ℕ) (v : SqlValue)
    → rename i ≡ some v
    → (get_elem? rename_fields i ≡ some v) × (is_no_change v ≡ false)
rename_given zero v e = absurd (cc)
rename_given (suc zero) v e =
    let same : text "start" ≡ v = ground arith in (e, subst (λ w. is_no_change w ≡ false) same refl)
rename_given (suc (suc i)) v e = absurd (cc)

abbrev names_schema : Schema
names_schema = apply_schema_specs "names" names_columns names_specs

rename_kept :
    (i : ℕ)
    → i < 3
    → rename i ≡ none
    → get_elem? rename_fields i ≡ some (column_no_change names_schema no_values i)
unfolding apply_schema_specs column_no_change
rename_kept zero lt e = refl
rename_kept (suc zero) lt e = absurd (cc)
rename_kept (suc (suc zero)) lt e = refl
rename_kept (suc (suc (suc i))) lt e = absurd (omega arith)

rename-IsUpdate : IsUpdate names_schema no_values rename rename_fields
unfolding apply_schema_specs
rename-IsUpdate = record {
  all_there = refl;
  assigned_value = rename_given;
  kept_value = rename_kept;
}

writable_names : names_of (λ spec. spec.writable) names_specs ≡ "name" ∷ []
unfolding names_of
writable_names = refl

update_accepted_iff_example :
    (reject_readonly_update names_schema rename_fields ≡ passed tt)
    ↔ OnlyWritable "names" names_columns names_specs "name" [] writable_names no_values rename
        rename_fields rename-IsUpdate
update_accepted_iff_example =
    update_accepted_iff "names" names_columns names_specs "name" [] writable_names no_values rename
      rename_fields rename-IsUpdate

abbrev two_strings : List StringRow
two_strings =
    record { ea = 32; length = 5; strtype = 0 } ∷ record { ea = 40; length = 3; strtype = 0 } ∷ []

abbrev string_list : StringList
string_list = record { qty = 2; item = get_elem? two_strings }

two_strings-IsListed : IsListed string_list two_strings
two_strings-IsListed = record { qty_lem = refl; item_lem = λ i. refl; sorted = omega arith }

strings_exact_example :
    (filter string_list 0 [] ≡ ok two_strings)
    × (filter string_list 1 (int (pos 40) ∷ [])
        ≡ ok (keep_if (λ row. row.ea == address (pos 40)) two_strings))
strings_exact_example = strings_exact string_list two_strings two_strings-IsListed (pos 40)
