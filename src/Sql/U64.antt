-- ===== src/Sql/U64.antt =====
-- src/ida_bridge/sql/u64.py: unsigned 64-bit values as SQLite's signed integers.
use ida_bridge.Common.{ℕ, ◌^◌, ◌≡◌, Bool, ◌||◌, String, Option, arith, if◌then◌else◌}
use ida_bridge.Common.Int.{ℤ, pos, negsuc, ◌+ℤ◌, ◌-ℤ◌, ◌≤ℤ◌, ltb_ℤ, leb_ℤ}
use mathlib.Core.Option

abbrev pub u64_mod : ℕ
u64_mod = 2 ^ 64

abbrev pub s64_max : ℕ
s64_max = 9223372036854775807

-- `encode_sql_u64` on a value that is there.
unfoldable pub encode : ℤ → ℤ
encode value =
    if ltb_ℤ value (pos 0) || leb_ℤ value (pos s64_max) then value else value -ℤ pos u64_mod

unfoldable pub decode : ℤ → ℤ
decode value = if leb_ℤ (pos 0) value then value else value +ℤ pos u64_mod

unfoldable pub encode_sql_u64 : Option ℤ → Option ℤ
encode_sql_u64 = Option.map encode

unfoldable pub decode_sql_u64 : Option ℤ → Option ℤ
decode_sql_u64 = Option.map decode

-- A value that APSW hands over: an integer, a Boolean (a subclass of `int` in Python), NULL, or a
-- value of another class, with its truth; `no_change` is APSW's marker for a column that an UPDATE leaves alone.
pub data SqlValue : Type 0 where
  null : SqlValue
  int : ℤ → SqlValue
  bool : Bool → SqlValue
  text : String → SqlValue
  other : ℕ → Bool → SqlValue
  no_change : SqlValue

pub data Input : Type 0 where
  accepted : SqlValue → Input
  not_integer : String → Input

-- `decode_sql_u64_input`: NULL passes, an integer is decoded, anything else raises a `ValueError`
-- that names what was given.
unfoldable pub decode_sql_u64_input : String → SqlValue → Input
decode_sql_u64_input what null = accepted null
decode_sql_u64_input what (int value) = accepted (int (decode value))
decode_sql_u64_input what _ = not_integer what

abbrev pub IsU64 : ℤ → Type 0
IsU64 z = (pos 0 ≤ℤ z) × (z ≤ℤ pos 18446744073709551615)

abbrev pub IsS64 : ℤ → Type 0
IsS64 z = (negsuc s64_max ≤ℤ z) × (z ≤ℤ pos s64_max)

-- Every unsigned 64-bit value is encoded in the signed 64-bit range, and decodes to itself.
pub decode-encode : (z : ℤ) → IsU64 z → IsS64 (encode z) × (decode (encode z) ≡ z)
unfolding encode decode ◌+ℤ◌ ◌-ℤ◌
decode-encode z h = ground arith

-- Every signed 64-bit value decodes into the unsigned range, and encodes back to itself.
pub encode-decode : (z : ℤ) → IsS64 z → IsU64 (decode z) × (encode (decode z) ≡ z)
unfolding encode decode ◌+ℤ◌ ◌-ℤ◌
encode-decode z h = ground arith
