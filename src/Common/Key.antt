-- ===== src/Common/Key.antt =====
-- Keys of Python dictionaries and sets: values with a Boolean equality that is exact.
use Prim.Native.Nat.{ℕ}
use Prim.Native.String.{String}
use mathlib.Core.Path.{◌≡◌, refl}
use mathlib.Core.Logic.{◌↔◌, ◌≢◌}
use mathlib.Core.Bool.{Bool, true, false}
use text.Mathlib.Text.{◌==◌ as text_eq}
use text.Mathlib.TextEquality.{eq_iff}
use ida_bridge.Common.Tests.{◌==◌ as number_eq, ==_iff}

pub record Key {ℓ} (K : Type ℓ) : Type ℓ where
  pub same : K → K → Bool
  pub same_iff : (a b : K) → (same a b ≡ true) ↔ (a ≡ b)

instance abbrev pub number_key : Key ℕ
number_key = record { same = number_eq; same_iff = ==_iff }

instance abbrev pub text_key : Key String
text_key = record { same = text_eq; same_iff = eq_iff }

infix 50 ◌==◌
abbrev pub ◌==◌ {ℓ} : {K : Type ℓ} ⦃key : Key K⦄ → K → K → Bool
◌==◌ ⦃key⦄ = key.same

module _ {ℓ} {K : Type ℓ} ⦃key : Key K⦄ where
  pub same_iff : (a b : K) → ((a == b) ≡ true) ↔ (a ≡ b)
  same_iff = key.same_iff

  pub same_self : (a : K) → (a == a) ≡ true
  same_self a = (key.same_iff a a).1 refl

  pub differ : (a b : K) → (a == b) ≡ false → a ≢ b
  differ a b e same = let h : (a == b) ≡ true = (same_iff a b).1 same in absurd (cc)
