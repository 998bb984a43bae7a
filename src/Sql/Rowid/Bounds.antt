-- ===== src/Sql/Rowid/Bounds.antt =====
-- Sizes of the two fields of a rowid (src/ida_bridge/sql/rowid.py): `B` stands for `2 ^ payload_bits`
-- and `H` for the weight of the address's top bit that is kept.
use native.Mathlib.Nat.{pow-suc, add-suc, add-zero, div-add-mod, add-mul-div_left, zero-add}
use ida_bridge.Common.{ℕ, zero, suc, ◌+◌, ◌-◌, ◌*◌, ◌/◌, ◌%◌, ◌^◌, ◌≤◌, ◌<◌, ◌≡◌, sym, ap, arith}

two-pow-add : (a c : ℕ) → 2 ^ a * 2 ^ c ≡ 2 ^ (a + c)
two-pow-add a zero = rw (add-zero a) (omega arith)
two-pow-add a (suc c) = rw (add-suc a c) (
    omega (
      arith,
      pow-suc 2 c,
      pow-suc 2 (a + c),
      two-pow-add a c,
      ap (λ (t : ℕ). 2 ^ a * t) (pow-suc 2 c),
    ))

pub pow_split : (b : ℕ) → b ≤ 63 → 2 ^ b * 2 ^ (63 - b) ≡ 2 ^ 63
pow_split b h =
    rw (two-pow-add b (63 - b)) (ap (λ (t : ℕ). 2 ^ t) {x = b + (63 - b)} {y = 63} (omega arith))

pub pow_above : (b : ℕ) → b ≤ 63 → 2 ^ (64 - b) ≡ 2 * 2 ^ (63 - b)
pow_above b h =
    let e : 64 - b ≡ suc (63 - b) = omega arith in rw e (omega (arith, pow-suc 2 (63 - b)))

mul-le-mul_right : (a b c : ℕ) → b ≤ a → b * c ≤ a * c
mul-le-mul_right a b c h = grind arith

div_unique : (v h t r : ℕ) → v ≡ r + h * t → r < h → v / h ≡ t
div_unique v h t r e small =
    rw (e, add-mul-div_left r t {y = h} (omega arith))
      (let z : r / h ≡ 0 = grind arith in rw (z, zero-add))

module _ (B H : ℕ) (split : B * H ≡ 2 ^ 63) where
  -- A low address: all borrowed bits are 0.
  pub low_fits : (v p : ℕ) → v < H → p < B → v * B + p < 2 ^ 63
  low_fits v p hv hp = grind arith

  pub div-fields : (v p : ℕ) → p < B → (v * B + p) / B ≡ v
  div-fields v p hp = grind arith

  -- A high address: all borrowed bits are 1, and what stays of it is `w`.
  pub high_fits :
      (w p : ℕ) → H ≤ w → w < 2 * H → p < B → (2 ^ 63 ≤ w * B + p) × (w * B + p < 2 ^ 64)
  high_fits w p h1 h2 hp = (
    grind (arith, mul-le-mul_right w H B h1),
    omega (arith, mul-le-mul_right (2 * H) (suc w) B h2, split),
  )

  pub mod-fields : (v p : ℕ) → p < B → (v * B + p) % B ≡ p
  mod-fields v p hp = grind arith

  pub half_bound : 1 ≤ B → H ≤ 2 ^ 63
  half_bound hB = grind (arith, mul-le-mul_right B 1 H hB)

  high_bits : 1 ≤ B → (2 ^ 64 - 2 * H) * B ≡ 2 ^ 64 * (B - 1)
  high_bits hB = distribute (2 ^ 64 - 2 * H) (omega (arith, half_bound hB))
    where
      distribute : (k : ℕ) → k + 2 * H ≡ 2 ^ 64 → k * B ≡ 2 ^ 64 * (B - 1)
      distribute k e = omega (arith, ap (λ (t : ℕ). t * B) e, split)

  pub high_split :
      (v : ℕ)
      → 1 ≤ B
      → 1 ≤ H
      → v / H ≡ 2 * B - 1
      → let k = 2 ^ 64 - 2 * H in (H ≤ v - k) × (v - k < 2 * H) × (v ≡ v - k + k)
  high_split v hB hH e =
      let d : v ≡ H * (2 * B - 1) + v % H = sym (rw e at (div-add-mod v H)) in
      let m : v % H < H = omega arith in
      let s : H * (2 * B - 1) + H ≡ 2 ^ 64 = top_weight (2 * B - 1) (omega arith) in
      omega (arith, half_bound hB)
    where
      top_weight : (t : ℕ) → t + 1 ≡ 2 * B → H * t + H ≡ 2 ^ 64
      top_weight t e' = omega (arith, ap (λ (u : ℕ). H * u) e', split)

  pub high_wrap :
      (w p : ℕ)
      → 1 ≤ B
      → H ≤ w
      → w < 2 * H
      → p < B
      → ((w + (2 ^ 64 - 2 * H)) * B + p) % 2 ^ 64 ≡ w * B + p
  high_wrap w p hB h1 h2 hp =
      let f : w * B + p < 2 ^ 64 = (high_fits w p h1 h2 hp).1 in omega (arith, high_bits hB)

  pub mask_bits : 1 ≤ B → 2 ^ 64 - 2 * H ≡ (B - 1) * (2 * H)
  mask_bits hB = scaled (B - 1) (omega arith)
    where
      scaled : (t : ℕ) → t + 1 ≡ B → 2 ^ 64 - 2 * H ≡ t * (2 * H)
      scaled t e = omega (arith, ap (λ (u : ℕ). u * (2 * H)) e, split)

  pub high_top : (v : ℕ) → 1 ≤ H → 2 ^ 64 - H ≤ v → v < 2 ^ 64 → 1 ≤ B → v / H ≡ 2 * B - 1
  high_top v hH h1 h2 hB = quotient (2 * B - 1) (omega arith)
    where
      quotient : (t : ℕ) → t + 1 ≡ 2 * B → v / H ≡ t
      quotient t e' =
          let s : H * t + H ≡ 2 ^ 64 = omega (arith, ap (λ (u : ℕ). H * u) e', split) in
          let d : v ≡ v - H * t + H * t = omega arith in
          let small : v - H * t < H = omega arith in div_unique v H t (v - H * t) d small
