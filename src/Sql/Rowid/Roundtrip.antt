-- ===== src/Sql/Rowid/Roundtrip.antt =====
-- What `pack_rowid` accepts, `unpack_rowid` gives back (src/ida_bridge/sql/rowid.py).
use Prim.Native.Nat.{bit_and, bit_or}
use native.Mathlib.Nat.{pow-suc, one-le-pow}
use native.Mathlib.Numerals.{add-one}
use ida_bridge.Common.{
  ℕ, ◌+◌, ◌-◌, ◌*◌, ◌/◌, ◌%◌, ◌^◌, ◌≤◌, ◌<◌, ◌≡◌, refl, ap, ◌∙◌, ◌⊎◌, inl, inr, arith,
}
use ida_bridge.Common.Int.{ℤ, pos, negsuc}
use ida_bridge.Common.Bits.{or-high_low, or-low_high, and-mask}
use ida_bridge.Sql.U64.{encode, IsS64, decode-encode}
use ida_bridge.Sql.Rowid.{ok, pack_bits, pack_rowid, unpack_bits, unpack_rowid}
use ida_bridge.Sql.Rowid.Bounds.{
  pow_split, pow_above, low_fits, high_fits, mask_bits, high_split, high_wrap, high_top, half_bound,
  div-fields, mod-fields,
}

pack_bits-mod : (v p b : ℕ) → p < 2 ^ b → pack_bits v p b ≡ (v * 2 ^ b + p) % 2 ^ 64
unfolding pack_bits
pack_bits-mod v p b h = rw (or-high_low b v p h) (and-mask 64 (v * 2 ^ b + p))

div-zero : (v h : ℕ) → 1 ≤ h → v / h ≡ 0 → v < h
div-zero v h pos_h e = grind arith

div-eq-zero : (v h : ℕ) → v < h → v / h ≡ 0
div-eq-zero v h low = grind arith

module _ (b : ℕ) (hb : b ≤ 63) where
  low_weight : 1 ≤ 2 ^ b
  low_weight = one-le-pow b 2 (omega arith)

  top_bit : 1 ≤ 2 ^ (63 - b)
  top_bit = one-le-pow (63 - b) 2 (omega arith)

  -- What the borrowed bits of a high address add to its kept bits.
  abbrev regenerated : ℕ
  regenerated = 2 ^ 64 - 2 * 2 ^ (63 - b)

  pack_bits_low : (v p : ℕ) → p < 2 ^ b → v < 2 ^ (63 - b) → pack_bits v p b ≡ v * 2 ^ b + p
  pack_bits_low v p hp hv =
      rw (pack_bits-mod v p b hp)
        (omega (arith, low_fits (2 ^ b) (2 ^ (63 - b)) (pow_split b hb) v p hv hp))

  pack_bits_high :
      (w p : ℕ)
      → p < 2 ^ b
      → 2 ^ (63 - b) ≤ w
      → w < 2 * 2 ^ (63 - b)
      → pack_bits (w + regenerated) p b ≡ w * 2 ^ b + p
  pack_bits_high w p hp h1 h2 =
      rw (pack_bits-mod (w + regenerated) p b hp)
        (high_wrap (2 ^ b) (2 ^ (63 - b)) (pow_split b hb) w p low_weight h1 h2 hp)

  payload_back : (w p : ℕ) → p < 2 ^ b → bit_and (w * 2 ^ b + p) (2 ^ b - 1) ≡ p
  payload_back w p hp =
      and-mask b (w * 2 ^ b + p) ∙ mod-fields (2 ^ b) (2 ^ (63 - b)) (pow_split b hb) w p hp

  sign_bit : 64 - b - 1 ≡ 63 - b
  sign_bit = omega arith

  unpack_low :
      (v p : ℕ) → p < 2 ^ b → v < 2 ^ (63 - b) → unpack_bits (v * 2 ^ b + p) b ≡ (pos v, pos p)
  unfolding unpack_bits
  unpack_low v p hp hv =
      rw (div-fields (2 ^ b) (2 ^ (63 - b)) (pow_split b hb) v p hp, sign_bit, payload_back v p hp)
        (let z : v / 2 ^ (63 - b) ≡ 0 = grind arith in rw z)

  or_regenerated :
      (w : ℕ) → w < 2 * 2 ^ (63 - b) → bit_or w (2 ^ 64 - 1 - (2 ^ (64 - b) - 1)) ≡ w + regenerated
  or_regenerated w h = rw (mask, low_or w) (sum w)
    where
      mask : 2 ^ 64 - 1 - (2 ^ (64 - b) - 1) ≡ (2 ^ b - 1) * 2 ^ (64 - b)
      mask = rw (pow_above b hb) (
          omega (
            arith,
            top_bit,
            half_bound (2 ^ b) (2 ^ (63 - b)) (pow_split b hb) low_weight,
            mask_bits (2 ^ b) (2 ^ (63 - b)) (pow_split b hb) low_weight,
          ))

      low_or : (x : ℕ) → bit_or w ((2 ^ b - 1) * 2 ^ (64 - b)) ≡ (2 ^ b - 1) * 2 ^ (64 - b) + w
      low_or x = or-low_high (64 - b) (2 ^ b - 1) w (rw (pow_above b hb) h)

      sum : (x : ℕ) → (2 ^ b - 1) * 2 ^ (64 - b) + w ≡ w + regenerated
      sum x =
          rw (pow_above b hb)
            (omega (arith, mask_bits (2 ^ b) (2 ^ (63 - b)) (pow_split b hb) low_weight))

  unpack_high :
      (w p : ℕ)
      → p < 2 ^ b
      → 2 ^ (63 - b) ≤ w
      → w < 2 * 2 ^ (63 - b)
      → unpack_bits (w * 2 ^ b + p) b ≡ (pos (w + regenerated), pos p)
  unfolding unpack_bits
  unpack_high w p hp h1 h2 =
      rw (div-fields (2 ^ b) (2 ^ (63 - b)) (pow_split b hb) w p hp, sign_bit, payload_back w p hp)
        (let z : w / 2 ^ (63 - b) ≡ 1 = grind arith in rw (z, or_regenerated w h2))

Packs : ℤ → ℤ → ℕ → ℤ → Type 0
Packs value payload b rowid =
    (v : ℕ) × (p : ℕ) × (value ≡ pos v)
    × (payload ≡ pos p)
    × (p < 2 ^ b)
    × (b ≤ 63)
    × ((v / 2 ^ (63 - b) ≡ 0) ⊎ (v / 2 ^ (63 - b) ≡ 2 ^ (b + 1) - 1))
    × (rowid ≡ encode (pos (pack_bits v p b)))

pack_rowid-Packs :
    (value payload : ℤ) (b : ℕ) (rowid : ℤ)
    → pack_rowid value payload b ≡ ok rowid
    → Packs value payload b rowid
unfolding pack_rowid Packs
pack_rowid-Packs (pos v) (pos p) b rowid h =
    (v, p, refl, refl, ground arith, ground arith, ground arith, ground arith)
pack_rowid-Packs (negsuc v) (pos p) b rowid h = absurd (ground arith)
pack_rowid-Packs value (negsuc p) b rowid h = absurd (ground arith)

unpack-encode :
    (raw b : ℕ) {r : ℤ × ℤ}
    → b ≤ 63
    → raw < 2 ^ 64
    → unpack_bits raw b ≡ r
    → IsS64 (encode (pos raw)) × (unpack_rowid (encode (pos raw)) b ≡ ok r)
unfolding unpack_rowid
unpack-encode raw b hb fits e =
    let back = decode-encode (pos raw) (omega arith) in (back.0, rw back.1 (ground arith))

abbrev RoundTrips : ℕ → ℕ → ℕ → Type 0
RoundTrips v p b =
    IsS64 (encode (pos (pack_bits v p b)))
    × (unpack_rowid (encode (pos (pack_bits v p b))) b ≡ ok (pos v, pos p))

low-RoundTrips : (v p b : ℕ) (hb : b ≤ 63) → p < 2 ^ b → v < 2 ^ (63 - b) → RoundTrips v p b
low-RoundTrips v p b hb hp low = rw (pack_bits_low b hb v p hp low) (
    unpack-encode (v * 2 ^ b + p) b hb
      (omega (arith, low_fits (2 ^ b) (2 ^ (63 - b)) (pow_split b hb) v p low hp))
      (unpack_low b hb v p hp low))

high-RoundTrips :
    (v w p b : ℕ) (hb : b ≤ 63)
    → p < 2 ^ b
    → 2 ^ (63 - b) ≤ w
    → w < 2 * 2 ^ (63 - b)
    → v ≡ w + (2 ^ 64 - 2 * 2 ^ (63 - b))
    → RoundTrips v p b
high-RoundTrips v w p b hb hp h1 h2 e =
    rw (e, pack_bits_high b hb w p hp h1 h2)
      (unpack-encode (w * 2 ^ b + p) b hb
        (high_fits (2 ^ b) (2 ^ (63 - b)) (pow_split b hb) w p h1 h2 hp).1
        (unpack_high b hb w p hp h1 h2))

fields-RoundTrips :
    (v p b : ℕ) (hb : b ≤ 63)
    → p < 2 ^ b
    → (v / 2 ^ (63 - b) ≡ 0) ⊎ (v / 2 ^ (63 - b) ≡ 2 ^ (b + 1) - 1)
    → RoundTrips v p b
fields-RoundTrips v p b hb hp (inl top) =
    low-RoundTrips v p b hb hp (div-zero v (2 ^ (63 - b)) (top_bit b hb) top)
fields-RoundTrips v p b hb hp (inr top) =
    let ones : v / 2 ^ (63 - b) ≡ 2 * 2 ^ b - 1 =
      top ∙ ap (λ (t : ℕ). t - 1) (rw (add-one b) (omega (arith, pow-suc 2 b))) in
    let (h1, h2, e) =
      high_split (2 ^ b) (2 ^ (63 - b)) (pow_split b hb) v (low_weight b hb) (top_bit b hb) ones in
    high-RoundTrips v (v - (2 ^ 64 - 2 * 2 ^ (63 - b))) p b hb hp h1 h2 e

-- A rowid that `pack_rowid` builds is a signed 64-bit integer, and `unpack_rowid` with the same
-- payload size splits it into the address and the payload that were packed.
pub pack-unpack :
    (value payload : ℤ) (bits : ℕ) (rowid : ℤ)
    → pack_rowid value payload bits ≡ ok rowid
    → IsS64 rowid × (unpack_rowid rowid bits ≡ ok (value, payload))
unfolding Packs
pack-unpack value payload b rowid h =
    let (v, p, ev, ep, hp, hb, top, er) = pack_rowid-Packs value payload b rowid h in
    rw (er, ev, ep) (fields-RoundTrips v p b hb hp top)

-- `pack_rowid` accepts every payload that fits its bits, with every address whose borrowed bits and
-- the bit below them are all 0 or all 1, for up to 63 borrowed bits.
pub pack_rowid-accepts :
    (v p bits : ℕ)
    → bits ≤ 63
    → p < 2 ^ bits
    → (v < 2 ^ (63 - bits)) ⊎ ((2 ^ 64 - 2 ^ (63 - bits) ≤ v) × (v < 2 ^ 64))
    → (rowid : ℤ) × (pack_rowid (pos v) (pos p) bits ≡ ok rowid)
unfolding pack_rowid
pack_rowid-accepts v p b hb hp (inl low) =
    let z : v / 2 ^ (63 - b) ≡ 0 = div-eq-zero v (2 ^ (63 - b)) low in
    (encode (pos (pack_bits v p b)), ground arith)
pack_rowid-accepts v p b hb hp (inr (h1, h2)) =
    let z : v / 2 ^ (63 - b) ≡ 2 ^ (b + 1) - 1 =
      high_top (2 ^ b) (2 ^ (63 - b)) (pow_split b hb) v (top_bit b hb) h1 h2 (low_weight b hb)
      ∙ ap (λ (t : ℕ). t - 1) (rw (add-one b) (omega (arith, pow-suc 2 b))) in
    (encode (pos (pack_bits v p b)), ground arith)
