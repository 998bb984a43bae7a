-- ===== src/Common/Bits.antt =====
-- `|` of two numbers with no digit in common, and `&` with a low mask, at every width.
use Prim.Native.Nat.{
  ℕ, zero, suc, ◌+◌, ◌-◌, ◌*◌, ◌/◌, ◌%◌, ◌^◌, ◌≤◌, ◌<◌, min, max, bit_and, bit_or, digits, bitwise,
  bit_and-bitwise, bit_or-bitwise,
}
use mathlib.Core.Path.{◌≡◌, refl, ap}
use native.Mathlib.Nat.{pow-suc, one-le-pow}
use native.Mathlib.Omega.{arith}

-- The digit recursion goes by fuel; all fuel from the first number on gives one result.
module _ (rest : ℕ → ℕ) (digit : ℕ → ℕ → ℕ) where
  fuel_irrelevant :
      (x y : ℕ) {n m : ℕ} → x ≤ n → x ≤ m → digits rest digit n x y ≡ digits rest digit m x y
  fuel_irrelevant x y {n} {m} p q = by_fuel n m x y p q
    where
      by_fuel : (n m x y : ℕ) → x ≤ n → x ≤ m → digits rest digit n x y ≡ digits rest digit m x y
      by_fuel zero zero x y p q = refl
      by_fuel zero (suc m) zero y p q = refl
      by_fuel zero (suc m) (suc x) y p q = absurd (omega arith)
      by_fuel (suc n) zero zero y p q = refl
      by_fuel (suc n) zero (suc x) y p q = absurd (omega arith)
      by_fuel (suc n) (suc m) zero y p q = refl
      by_fuel (suc n) (suc m) (suc x) y p q =
          omega (arith, by_fuel n m (suc x / 2) (y / 2) (omega arith) (omega arith))

  one_digit :
      (x y : ℕ)
      → bitwise rest digit (suc x) y
        ≡ bitwise rest digit (suc x / 2) (y / 2) * 2 + digit (suc x % 2) (y % 2)
  one_digit x y = omega (
    arith,
    fuel_irrelevant (suc x / 2) (y / 2) {n = x} {m = suc x / 2} (omega arith) (omega arith),
  )

or_digit : (x y : ℕ) → bit_or x y ≡ bit_or (x / 2) (y / 2) * 2 + max (x % 2) (y % 2)
or_digit zero y = simp bit_or-bitwise (omega arith)
or_digit (suc x) y = simp bit_or-bitwise (one_digit (λ b. b) max x y)

and_digit : (x y : ℕ) → bit_and x y ≡ bit_and (x / 2) (y / 2) * 2 + min (x % 2) (y % 2)
and_digit zero y = simp bit_and-bitwise (omega arith)
and_digit (suc x) y = simp bit_and-bitwise (one_digit (λ b. 0) min x y)

shift_suc : (q k : ℕ) → q * 2 ^ suc k ≡ 2 * (q * 2 ^ k)
shift_suc q k = omega (arith, ap (λ (t : ℕ). q * t) (pow-suc 2 k))

zero-or : (x : ℕ) → bit_or 0 x ≡ x
zero-or x = bit_or-bitwise 0 x

or-zero_below : (n x : ℕ) → x ≤ n → bit_or x 0 ≡ x
or-zero_below n zero h = refl
or-zero_below zero (suc x) h = absurd (omega arith)
or-zero_below (suc n) (suc x) h =
    omega (arith, or_digit (suc x) 0, or-zero_below n (suc x / 2) (omega arith))

and-zero_below : (n x : ℕ) → x ≤ n → bit_and x 0 ≡ 0
and-zero_below n zero h = refl
and-zero_below zero (suc x) h = absurd (omega arith)
and-zero_below (suc n) (suc x) h =
    omega (arith, and_digit (suc x) 0, and-zero_below n (suc x / 2) (omega arith))

-- A field of `k` bits under a number shifted by `k`, in either order.
pub or-high_low : (k q r : ℕ) → r < 2 ^ k → bit_or (q * 2 ^ k) r ≡ q * 2 ^ k + r
or-high_low zero q r h = ground (arith, or-zero_below q q (omega arith))
or-high_low (suc k) q r h =
    ground (arith, or_digit (q * 2 ^ suc k) r, shift_suc q k, or-high_low k q (r / 2) (omega arith))

pub or-low_high : (k q r : ℕ) → r < 2 ^ k → bit_or r (q * 2 ^ k) ≡ q * 2 ^ k + r
or-low_high zero q r h = ground (arith, zero-or q)
or-low_high (suc k) q r h =
    ground (arith, or_digit r (q * 2 ^ suc k), shift_suc q k, or-low_high k q (r / 2) (omega arith))

and-mask_fields : (k q r : ℕ) → r < 2 ^ k → bit_and (q * 2 ^ k + r) (2 ^ k - 1) ≡ r
and-mask_fields zero q r h = ground (arith, and-zero_below (q * 1 + r) (q * 1 + r) (omega arith))
and-mask_fields (suc k) q r h = ground (
  arith,
  and_digit (q * 2 ^ suc k + r) (2 ^ suc k - 1),
  shift_suc q k,
  pow-suc 2 k,
  and-mask_fields k q (r / 2) (omega arith),
)

-- A mask of `k` ones takes the remainder by `2 ^ k`.
pub and-mask : (k x : ℕ) → bit_and x (2 ^ k - 1) ≡ x % 2 ^ k
and-mask k x = ground (arith, one-le-pow k 2, and-mask_fields k (x / 2 ^ k) (x % 2 ^ k))
