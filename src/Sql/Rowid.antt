-- ===== src/Sql/Rowid.antt =====
-- src/ida_bridge/sql/rowid.py: an address and a payload packed into one SQLite rowid.
pub mod Bounds
pub mod Roundtrip
use Prim.Native.Nat.{bit_and, bit_or}
use native.Mathlib.Nat.{pow-suc, one-le-pow}
use ida_bridge.Common.{
  ℕ, zero, suc, ◌+◌, ◌-◌, ◌*◌, ◌/◌, ◌%◌, ◌^◌, ◌≤◌, ◌<◌, ◌≡◌, refl, ap, Bool, not, ◌&&◌, ◌||◌, arith,
  ltb, if◌then◌else◌,
}
use ida_bridge.Common.Int.{ℤ, pos, negsuc, pos_part, ◌≤ℤ◌, ltb_ℤ, leb_ℤ, eqb_ℤ}
use ida_bridge.Common.Bits.{or-high_low, or-low_high, and-mask}
use ida_bridge.Sql.U64.{encode, decode, IsU64, IsS64, s64_max}

-- The `ValueError`s of the module; a shift by a negative count is Python's own.
pub data Error : Type 0 where
  payload_does_not_fit : ℤ → ℕ → Error
  not_canonical : ℤ → ℕ → Error
  negative_shift : Error

pub data Result (A : Type 0) : Type 0 where
  ok : A → Result A
  err : Error → Result A

abbrev u64_mask : ℕ
u64_mask = 2 ^ 64 - 1

-- Python's `>>` on an integer of either sign rounds down.
unfoldable pub shr : ℤ → ℕ → ℤ
shr (pos n) k = pos (n / 2 ^ k)
shr (negsuc n) k = negsuc (n / 2 ^ k)

-- `value` is not negative where its bits are taken: `top_bits` would be negative otherwise.
unfoldable pub pack_bits : ℕ → ℕ → ℕ → ℕ
pack_bits value payload bits = bit_and (bit_or (value * 2 ^ bits) payload) u64_mask

abbrev pub top_is_uniform : ℤ → ℕ → Bool
top_is_uniform value bits =
    let top_bits = shr value (63 - bits) in
    eqb_ℤ top_bits (pos 0) || eqb_ℤ top_bits (pos (2 ^ (bits + 1) - 1))

unfoldable pub pack_rowid : ℤ → ℤ → ℕ → Result ℤ
unfolding pack_bits shr
pack_rowid value payload bits =
    if not (leb_ℤ (pos 0) payload && ltb_ℤ payload (pos (2 ^ bits)))
    then err (payload_does_not_fit payload bits)
    else if ltb 63 bits
    then err negative_shift
    else if top_is_uniform value bits
    then ok (encode (pos (pack_bits (pos_part value) (pos_part payload) bits)))
    else err (not_canonical value bits)

-- `raw & ((1 << payload_bits) - 1)` and the address with its high bits regenerated.
unfoldable pub unpack_bits : ℕ → ℕ → ℤ × ℤ
unpack_bits raw bits =
    let value = raw / 2 ^ bits in
    let value_bits = 64 - bits in
    (
      pos (
          if ltb 0 (value / 2 ^ (value_bits - 1))
          then bit_or value (u64_mask - (2 ^ value_bits - 1))
          else value),
      pos (bit_and raw (2 ^ bits - 1)),
    )

-- A rowid of SQLite is a signed 64-bit integer, so what it decodes to is not negative.
unfoldable pub unpack_rowid : ℤ → ℕ → Result (ℤ × ℤ)
unfolding unpack_bits
unpack_rowid rowid bits =
    if ltb 63 bits then err negative_shift else ok (unpack_bits (pos_part (decode rowid)) bits)
