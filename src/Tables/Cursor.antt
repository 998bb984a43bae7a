-- ===== src/Tables/Cursor.antt =====
-- src/ida_bridge/sql/tables/base.py: the arguments of a plan, and the cursor that reads rows.
use Prim.Native.String.{◌++◌}
use ida_bridge.Common.{
  ℕ, zero, suc, String, Bool, true, false, ◌||◌, Option, none, some, List, [], ◌∷◌, length, any,
  number_key, text_key, ◌==◌, if◌then◌else◌,
}
use ida_bridge.Common.Int.{ℤ, pos, negsuc, ◌+ℤ◌}
use ida_bridge.Common.Dict.{Dict, get}
use ida_bridge.Sql.U64.{SqlValue, accepted, not_integer, decode_sql_u64_input}

pub record ArgSpec : Type 0 where
  pub name : String
  pub u64 : Bool
  pub what : Option String

-- `CONSTRAINT_PLANS` of a cursor class.
abbrev pub Plans : Type 0
Plans = Dict ℕ (List ArgSpec)

-- What a query raises: the `ValueError`s of base.py and the tables, a failure of the string list,
-- Python's own `KeyError` and `TypeError`. No loop of the code is ever out of rounds.
pub data Error : Type 0 where
  no_plan : ℕ → Error
  duplicate_names : ℕ → Error
  wrong_count : ℕ → ℕ → Error
  must_be_integer : String → Error
  requires_func_ea : Error
  key_error : String → Error
  type_error : Error
  item_failed : ℕ → Error
  out_of_rounds : Error

pub data Result {ℓ} (A : Type ℓ) : Type ℓ where
  ok : A → Result A
  err : Error → Result A

infixl 5 ◌>>=◌ ◌>>◌
abbrev pub ◌>>=◌ {ℓ κ} : {A : Type ℓ} {B : Type κ} → Result A → (A → Result B) → Result B
ok a >>= f = f a
err e >>= f = err e

abbrev pub ◌>>◌ {ℓ κ} : {A : Type ℓ} {B : Type κ} → Result A → Result B → Result B
m >> k = m >>= λ _. k

abbrev pub or_text : Option String → String → String
or_text none s = s
or_text (some t) s = t

unfoldable pub decode_constraint_arg : String → SqlValue → ArgSpec → Result SqlValue
unfolding decode_sql_u64_input
decode_constraint_arg table_name value spec =
    if spec.u64
    then (elim (decode_sql_u64_input
        (or_text spec.what (table_name ++ "." ++ spec.name ++ " constraint")) value) [
          | accepted v ↦ ok v
          | not_integer what ↦ err (must_be_integer what)
        ])
    else ok value

unfoldable pub has_duplicates : List ArgSpec → Bool
has_duplicates [] = false
has_duplicates (spec ∷ specs) = any (λ s. s.name == spec.name) specs || has_duplicates specs

-- The dictionary comprehension over the plan; both lists are equally long.
unfoldable pub decode_each : String → List ArgSpec → List SqlValue → Result (Dict String SqlValue)
unfolding decode_constraint_arg
decode_each table_name (spec ∷ specs) (value ∷ values) = do
  v ← decode_constraint_arg table_name value spec
  rest ← decode_each table_name specs values
  ok ((spec.name, v) ∷ rest)
decode_each table_name _ _ = ok []

unfoldable pub decode_by_plan :
    String → ℕ → Option (List ArgSpec) → List SqlValue → Result (Dict String SqlValue)
unfolding has_duplicates decode_each
decode_by_plan table_name idx_num none [] = ok []
decode_by_plan table_name idx_num none (value ∷ values) = err (no_plan idx_num)
decode_by_plan table_name idx_num (some specs) values =
    if has_duplicates specs
    then err (duplicate_names idx_num)
    else if length values == length specs
    then decode_each table_name specs values
    else err (wrong_count (length specs) (length values))

unfoldable pub decode_constraint_args :
    Plans → String → ℕ → List SqlValue → Result (Dict String SqlValue)
unfolding decode_by_plan get
decode_constraint_args plans table_name idx_num values =
    decode_by_plan table_name idx_num (get idx_num plans) values

-- `args[name]`
unfoldable pub arg : String → Dict String SqlValue → Result SqlValue
unfolding get
arg name args = elim (get name args) [ some v ↦ ok v | none ↦ err (key_error name) ]

-- The generator of rows is the list of what it has left to yield; the `Filter` of each table sets it.
pub record Cursor (Row : Type 0) : Type 0 where
  pub iter : List Row
  pub current : Option Row
  pub eof : Bool
  pub rowid : ℤ

module _ {Row : Type 0} where
  unfoldable pub advance : Cursor Row → Cursor Row
  unfolding ◌+ℤ◌
  advance c = elim c.iter [
    | row ∷ rows ↦ record c {
      iter = rows;
      current = some row;
      eof = false;
      rowid = c.rowid +ℤ pos 1;
    }
    | [] ↦ record c { eof = true }
  ]

  -- `_set_iter`
  unfoldable pub set_iter : List Row → Cursor Row → Cursor Row
  unfolding advance
  set_iter rows c = advance (record c { iter = rows; rowid = negsuc 0 })

  -- SQLite's reading of a cursor: the row and its rowid, then `Next`, until `Eof`.
  unfoldable pub read_all : ℕ → Cursor Row → List (Option Row × ℤ)
  unfolding advance
  read_all zero c = []
  read_all (suc rounds) c =
      let rest = read_all rounds (advance c) in if c.eof then [] else (c.current, c.rowid) ∷ rest
