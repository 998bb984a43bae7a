-- ===== src/Tables/Bounds/Exact.antt =====
-- The half-open range that `Filter` makes of two bounds (src/ida_bridge/sql/tables/heads.py and
-- analysis.py) holds the addresses that satisfy both.
use ida_bridge.Common.{
  ℕ, ◌+◌, ◌^◌, ◌<◌, ◌≤◌, ◌≡◌, ◌⊎◌, refl, inl, inr, ◌&&◌, some, [], ◌∷◌, number_key, ◌==◌,
  if◌then◌else◌, arith,
}
use ida_bridge.Common.Int.{ℤ, pos, leb_ℤ, eqb_ℤ, ◌+ℤ◌, ◌-ℤ◌}
use ida_bridge.Sql.U64.{int, encode, decode, IsS64}
use ida_bridge.Tables.Index.{op_ge, op_gt, op_le, op_lt}
use ida_bridge.Tables.Cursor.{ok}
use ida_bridge.Tables.Bounds.{range_bounds, address, in_bound}
use ida_bridge.Tables.Ida.{within}

abbrev pub IsLower : ℕ → Type 0
IsLower op = (op ≡ op_ge) ⊎ (op ≡ op_gt)

abbrev pub IsUpper : ℕ → Type 0
IsUpper op = (op ≡ op_le) ⊎ (op ≡ op_lt)

abbrev pub range_start : ℕ → ℕ → ℕ
range_start op bound = if op == op_ge then bound else bound + 1

abbrev pub range_end : ℕ → ℕ → ℕ
range_end op bound = if op == op_le then bound + 1 else bound

pub range_bounds-integers :
    (l u : ℕ) (lo hi : ℤ)
    → IsLower l
    → IsUpper u
    → range_bounds (some (l ∷ u ∷ [])) (int (decode lo)) (int (decode hi))
      ≡ ok (some (range_start l (address lo)), some (range_end u (address hi)))
unfolding range_bounds
range_bounds-integers l u lo hi (inl e) (inl h) = rw (e, h) refl
range_bounds-integers l u lo hi (inl e) (inr h) = rw (e, h) refl
range_bounds-integers l u lo hi (inr e) (inl h) = rw (e, h) refl
range_bounds-integers l u lo hi (inr e) (inr h) = rw (e, h) refl

-- Two bounds below 2^63, or two from there on: between them the signed order is that of the
-- addresses.
abbrev pub SameHalf : ℤ → ℤ → Type 0
SameHalf lo hi = leb_ℤ (pos 0) lo ≡ leb_ℤ (pos 0) hi

pub within-range :
    (l u : ℕ) (lo hi : ℤ)
    → IsLower l
    → IsUpper u
    → IsS64 lo
    → IsS64 hi
    → SameHalf lo hi
    → (ea : ℕ) → ea < 2 ^ 64
    → within (range_start l (address lo)) (range_end u (address hi)) ea
      ≡ (in_bound u (int hi) ea && in_bound l (int lo) ea)
unfolding encode decode ◌+ℤ◌ ◌-ℤ◌
within-range l u lo hi (inl e) (inl h) a b half ea small = rw (e, h) (ground arith)
within-range l u lo hi (inl e) (inr h) a b half ea small = rw (e, h) (ground arith)
within-range l u lo hi (inr e) (inl h) a b half ea small = rw (e, h) (ground arith)
within-range l u lo hi (inr e) (inr h) a b half ea small = rw (e, h) (ground arith)

pub equal-address :
    (z : ℤ) → IsS64 z → (ea : ℕ) → ea < 2 ^ 64 → eqb_ℤ (encode (pos ea)) z ≡ (ea == address z)
unfolding encode decode ◌+ℤ◌ ◌-ℤ◌
equal-address z a ea small = ground arith

pub range_end-le : (u bound : ℕ) → range_end u bound ≤ bound + 1
range_end-le u bound = ground arith
