-- ===== src/Tables/Bounds.antt =====
-- src/ida_bridge/sql/tables/heads.py and analysis.py: an address range as two constraints, whose
-- operators come back in `idxStr`.
pub mod Exact
use package.text.Mathlib.Text.{◌==◌ as str_eq}
use ida_bridge.Common.{
  ℕ, ◌+◌, String, Bool, false, Option, none, some, List, [], ◌∷◌, ltb, leb, number_key, ◌==◌,
  if◌then◌else◌,
}
use ida_bridge.Common.Int.{ℤ, pos, pos_part, ltb_ℤ, leb_ℤ, eqb_ℤ}
use ida_bridge.Sql.U64.{SqlValue, null, int, text, encode, decode}
use ida_bridge.Tables.Index.{op_ge, op_gt, op_le, op_lt}
use ida_bridge.Tables.Cursor.{Result, ok, err, type_error, ◌>>=◌}

-- A decoded argument as the address that the IDA API takes, or None.
unfoldable pub address_of : SqlValue → Result (Option ℕ)
address_of (int z) = ok (some (pos_part z))
address_of null = ok none
address_of _ = err type_error

-- The same for a function of the API that takes no None.
unfoldable pub some_address : SqlValue → Result ℕ
some_address (int z) = ok (pos_part z)
some_address _ = err type_error

-- `value + 1`
unfoldable pub plus_one : Option ℕ → Result (Option ℕ)
plus_one (some n) = ok (some (n + 1))
plus_one none = err type_error

abbrev pub lower_op : Option (List ℕ) → ℕ
lower_op (some (op ∷ ops)) = op
lower_op (some []) = op_ge
lower_op none = op_ge

abbrev pub upper_op : Option (List ℕ) → ℕ
upper_op (some (lower ∷ op ∷ ops)) = op
upper_op (some (lower ∷ [])) = op_le
upper_op (some []) = op_le
upper_op none = op_le

-- The range `[start, end)` of `Heads` for the operators and the values.
unfoldable pub range_bounds : Option (List ℕ) → SqlValue → SqlValue → Result (Option ℕ × Option ℕ)
unfolding address_of plus_one
range_bounds idx_str lower upper = do
  lower_val ← address_of lower
  upper_val ← address_of upper
  start ← if lower_op idx_str == op_ge then ok lower_val else plus_one lower_val
  end ← if upper_op idx_str == op_le then plus_one upper_val else ok upper_val
  ok (start, end)

-- The address that an integer of SQLite stands for.
abbrev pub address : ℤ → ℕ
address z = pos_part (decode z)

-- What a constraint asks of a column of addresses: SQLite compares the signed integer that `Column`
-- gives for the address with the argument.
abbrev pub in_bound : ℕ → SqlValue → ℕ → Bool
in_bound op (int z) ea =
    if op == op_gt
    then ltb_ℤ z (encode (pos ea))
    else if op == op_ge
    then leb_ℤ z (encode (pos ea))
    else if op == op_lt
    then ltb_ℤ (encode (pos ea)) z
    else if op == op_le
    then leb_ℤ (encode (pos ea)) z
    else eqb_ℤ (encode (pos ea)) z
in_bound op _ ea = false

abbrev pub is_address : SqlValue → Option ℕ → Bool
is_address (int z) (some ea) = ea == address z
is_address _ _ = false

abbrev pub is_text : SqlValue → String → Bool
is_text (text s) t = str_eq t s
is_text _ t = false
