-- ===== src/Tables/Columns.antt =====
-- src/ida_bridge/sql/tables/base.py: what a table says of its columns, and what an UPDATE may assign.
pub mod Writes
use ida_bridge.Common.{
  ℕ, zero, suc, String, Bool, true, false, not, Option, none, some, List, [], ◌∷◌, map, any,
  get_elem?, keep_if, number_key, text_key, ◌==◌, if◌then◌else◌,
}
use ida_bridge.Common.Int.{ℤ, pos}
use ida_bridge.Common.Dict.{Dict, get}
use ida_bridge.Sql.U64.{
  SqlValue, null, int, bool, text, other, no_change, accepted, not_integer, encode,
  decode_sql_u64_input,
}

pub record ColumnSpec : Type 0 where
  pub hex : Bool
  pub u64 : Bool
  pub rowid : Bool
  pub writable : Bool

abbrev pub ColumnSpecs : Type 0
ColumnSpecs = Dict String ColumnSpec

-- The names of the specs that a test selects.
unfoldable pub names_of : (ColumnSpec → Bool) → ColumnSpecs → List String
names_of p [] = []
names_of p ((name, spec) ∷ specs) =
    let rest = names_of p specs in if p spec then name ∷ rest else rest

abbrev pub contains : List String → String → Bool
contains names name = any (λ n. n == name) names

-- `hex_column_names` and `u64_column_names`
unfoldable pub hex_column_names : ColumnSpecs → List String
unfolding names_of
hex_column_names = names_of (λ spec. spec.hex)

unfoldable pub u64_column_names : ColumnSpecs → List String
unfolding names_of
u64_column_names = names_of (λ spec. spec.u64)

-- `enumerate(column_names)` from a number on, and the entries whose name a test selects.
unfoldable pub numbered : (String → Bool) → ℕ → List String → List (ℕ × String)
numbered p i [] = []
numbered p i (name ∷ names) =
    let rest = numbered p (suc i) names in if p name then (i, name) ∷ rest else rest

unfoldable pub u64_column_specs : List String → ColumnSpecs → List (ℕ × String)
unfolding numbered u64_column_names
u64_column_specs column_names specs = numbered (contains (u64_column_names specs)) 0 column_names

pub data SchemaError : Type 0 where
  several_rowids : List String → SchemaError
  rowid_not_in_schema : String → SchemaError

pub data RowidSpec : Type 0 where
  no_rowid : RowidSpec
  rowid_at : ℕ → String → RowidSpec
  invalid : SchemaError → RowidSpec

unfoldable pub first_named : String → ℕ → List String → RowidSpec
first_named name i [] = invalid (rowid_not_in_schema name)
first_named name i (n ∷ names) =
    let rest = first_named name (suc i) names in if n == name then rowid_at i n else rest

unfoldable pub rowid_of : List String → List String → RowidSpec
unfolding first_named
rowid_of column_names [] = no_rowid
rowid_of column_names (name ∷ []) = first_named name 0 column_names
rowid_of column_names names = invalid (several_rowids names)

unfoldable pub rowid_column_spec : List String → ColumnSpecs → RowidSpec
unfolding rowid_of names_of
rowid_column_spec column_names specs = rowid_of column_names (names_of (λ spec. spec.rowid) specs)

-- The indices of the columns that are not writable.
unfoldable pub unwritable_from : List String → ℕ → List String → List ℕ
unwritable_from writable i [] = []
unwritable_from writable i (name ∷ names) =
    let rest = unwritable_from writable (suc i) names in
    if contains writable name then rest else i ∷ rest

-- No column of a table without a writable one.
unfoldable pub no_change_of : List String → List String → List ℕ
unfolding unwritable_from
no_change_of column_names [] = []
no_change_of column_names (w ∷ writable) = unwritable_from (w ∷ writable) 0 column_names

unfoldable pub no_change_columns : List String → ColumnSpecs → List ℕ
unfolding no_change_of names_of
no_change_columns column_names specs =
    no_change_of column_names (names_of (λ spec. spec.writable) specs)

-- What `apply_schema_specs` sets on a table and its cursor; the CREATE TABLE text is given by the
-- names of its columns.
pub record Schema : Type 0 where
  pub table_name : String
  pub column_names : List String
  pub u64_specs : List (ℕ × String)
  pub no_change_indices : List ℕ
  pub rowid_spec : RowidSpec

unfoldable pub apply_schema_specs : String → List String → ColumnSpecs → Schema
unfolding u64_column_specs no_change_columns rowid_column_spec
apply_schema_specs table_name column_names specs = record {
  table_name = table_name;
  column_names = column_names;
  u64_specs = u64_column_specs column_names specs;
  no_change_indices = no_change_columns column_names specs;
  rowid_spec = rowid_column_spec column_names specs;
}

-- What an UPDATE or an INSERT raises before it writes.
pub data WriteError : Type 0 where
  read_only : ℕ → WriteError
  index_error : ℕ → WriteError
  must_be_integer : String → WriteError

pub data Checked {ℓ} (A : Type ℓ) : Type ℓ where
  passed : A → Checked A
  raised : WriteError → Checked A

abbrev pub is_no_change : SqlValue → Bool
is_no_change no_change = true
is_no_change _ = false

-- One round of the loop on the field of an index, and what the rounds after it do.
unfoldable pub reject_field : ℕ → Option SqlValue → Checked (Unit {0}) → Checked (Unit {0})
reject_field idx none rest = raised (index_error idx)
reject_field idx (some value) rest = if is_no_change value then rest else raised (read_only idx)

unfoldable pub reject_each : List ℕ → List SqlValue → Checked (Unit {0})
unfolding reject_field
reject_each [] fields = passed tt
reject_each (idx ∷ indices) fields =
    reject_field idx (get_elem? fields idx) (reject_each indices fields)

unfoldable pub reject_readonly_update : Schema → List SqlValue → Checked (Unit {0})
unfolding reject_each
reject_readonly_update schema fields = reject_each schema.no_change_indices fields

unfoldable pub is_u64_column : Schema → ℕ → Bool
is_u64_column schema number = any (λ spec. spec.0 == number) schema.u64_specs

-- `int(value)` of a value that the cursors hand over, which is an integer or a Boolean.
abbrev int_of : SqlValue → ℤ
int_of (int z) = z
int_of (bool b) = if b then pos 1 else pos 0
int_of _ = pos 0

abbrev is_null : SqlValue → Bool
is_null null = true
is_null _ = false

-- `BaseCursor.Column` on the value of a column.
unfoldable pub column : Schema → (ℕ → SqlValue) → ℕ → SqlValue
unfolding is_u64_column
column schema column_value number =
    let value = column_value number in
    if is_null value
    then value
    else if is_u64_column schema number
    then int (encode (int_of value))
    else value

-- `BaseCursor.ColumnNoChange`
unfoldable pub column_no_change : Schema → (ℕ → SqlValue) → ℕ → SqlValue
unfolding column
column_no_change schema column_value number =
    if any (λ i. i == number) schema.no_change_indices
    then no_change
    else column schema column_value number

-- `decoded[idx] = …`
unfoldable pub set_field : List SqlValue → ℕ → SqlValue → List SqlValue
set_field [] i v = []
set_field (x ∷ xs) zero v = v ∷ xs
set_field (x ∷ xs) (suc i) v = x ∷ set_field xs i v

-- A field of a u64 column: NULL and an unchanged value stay, an integer is decoded.
unfoldable pub decode_field : String → SqlValue → Checked SqlValue
unfolding decode_sql_u64_input
decode_field what null = passed null
decode_field what no_change = passed no_change
decode_field what value = elim (decode_sql_u64_input what value) [
  | accepted v ↦ passed v
  | not_integer w ↦ raised (must_be_integer w)
]

unfoldable pub decode_fields :
    (String → String) → List (ℕ × String) → List SqlValue → Checked (List SqlValue)
unfolding set_field decode_field
decode_fields what [] fields = passed fields
decode_fields what ((idx, name) ∷ specs) fields = elim (get_elem? fields idx) [
  | none ↦ raised (index_error idx)
  | some value ↦ elim (decode_field (what name) value) [
    | passed v ↦ decode_fields what specs (set_field fields idx v)
    | raised e ↦ raised e
  ]
]

-- `decode_u64_update_fields`; `what` is the text that names a column in an error.
unfoldable pub decode_u64_update_fields :
    (String → String) → Schema → List SqlValue → Checked (List SqlValue)
unfolding decode_fields
decode_u64_update_fields what schema fields = decode_fields what schema.u64_specs fields
