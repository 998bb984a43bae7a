-- ===== src/Common/Dict.antt =====
-- Python's `dict`, in insertion order: an assignment to a key that is there keeps its place, and a
-- new key goes to the end. A Python `set` is a dictionary with empty values.
use mathlib.Core.Path.{◌≡◌, refl, subst}
use mathlib.Core.Logic.{inl, inr}
use mathlib.Core.Bool.{Bool, true, false}
use mathlib.Core.List.{List, [], ◌∷◌}
use mathlib.Core.Option.{Option, none, some}
use native.Mathlib.Omega.{arith}
use ida_bridge.Common.Tests.{if◌then◌else◌, Bool-cases}
use ida_bridge.Common.Lists.{keep_if, All}
use ida_bridge.Common.Key.{Key, ◌==◌, same_iff, same_self}

abbrev pub Dict {ℓ κ} : Type ℓ → Type κ → Type (ℓ ⊔ κ)
Dict K V = List (K × V)

abbrev pub is_some {κ} : {V : Type κ} → Option V → Bool
is_some none = false
is_some (some v) = true

abbrev pub only_if {κ} : {V : Type κ} → (V → Bool) → Option V → Option V
only_if p none = none
only_if p (some v) = if p v then some v else none

module _ {ℓ κ} {K : Type ℓ} {V : Type κ} ⦃key : Key K⦄ where
  -- d.get(k)
  unfoldable pub get : K → Dict K V → Option V
  get k [] = none
  get k ((j, v) ∷ d) = if j == k then some v else get k d

  -- d[k] = v
  unfoldable pub put : K → V → Dict K V → Dict K V
  put k v [] = (k, v) ∷ []
  put k v ((j, w) ∷ d) = if j == k then (k, v) ∷ d else (j, w) ∷ put k v d

  -- d.pop(k, None)
  unfoldable pub pop : K → Dict K V → Dict K V
  pop k [] = []
  pop k ((j, v) ∷ d) = let rest = pop k d in if j == k then rest else (j, v) ∷ rest

  -- k in d
  abbrev pub has : K → Dict K V → Bool
  has k d = is_some (get k d)

  pub get-put :
      (k j : K) (v : V) (d : Dict K V) → get j (put k v d) ≡ (if k == j then some v else get j d)
  unfolding get put
  get-put k j v [] = refl
  get-put k j v ((i, w) ∷ d) =
      ground (arith, same_iff k j, same_iff i k, same_iff i j, get-put k j v d)

  pub get-pop : (k j : K) (d : Dict K V) → get j (pop k d) ≡ (if k == j then none else get j d)
  unfolding get pop
  get-pop k j [] = ground arith
  get-pop k j ((i, w) ∷ d) = ground (arith, same_iff k j, same_iff i k, same_iff i j, get-pop k j d)

  -- Every key stands once.
  abbrev pub IsUnique : Dict K V → Type (ℓ ⊔ κ)
  IsUnique [] = Unit
  IsUnique ((k, v) ∷ d) = (get k d ≡ none) × IsUnique d

  pub put-IsUnique : (k : K) (v : V) (d : Dict K V) → IsUnique d → IsUnique (put k v d)
  unfolding put
  put-IsUnique k v [] u = (unfold get in refl, tt)
  put-IsUnique k v ((j, w) ∷ d) (fresh, u) =
      ground (arith, same_iff j k, same_iff k j, get-put k j v d, put-IsUnique k v d u)

  pub pop-IsUnique : (k : K) (d : Dict K V) → IsUnique d → IsUnique (pop k d)
  unfolding pop
  pop-IsUnique k [] u = tt
  pop-IsUnique k ((j, w) ∷ d) (fresh, u) = ground (arith, get-pop k j d, pop-IsUnique k d u)

  -- A dictionary filtered by its values.
  pub get-keep_if :
      (p : V → Bool) (k : K) (d : Dict K V)
      → IsUnique d
      → get k (keep_if (λ e. p e.1) d) ≡ only_if p (get k d)
  unfolding get
  get-keep_if p k [] u = refl
  get-keep_if p k ((j, w) ∷ d) (fresh, u) = ground (arith, same_iff j k, get-keep_if p k d u, p w)

  pub keep_if-IsUnique :
      (p : V → Bool) (d : Dict K V) → IsUnique d → IsUnique (keep_if (λ e. p e.1) d)
  keep_if-IsUnique p [] u = tt
  keep_if-IsUnique p ((k, w) ∷ d) (fresh, u) =
      ground (arith, get-keep_if p k d u, keep_if-IsUnique p d u, p w)

  -- Every value of a dictionary is found at its key.
  pub get-All {ρ} :
      (P : V → Type ρ) (d : Dict K V)
      → IsUnique d
      → ((k : K) (v : V) → get k d ≡ some v → P v)
      → All (λ e. P e.1) d
  unfolding get
  get-All P [] u h = tt
  get-All P ((k, v) ∷ d) (fresh, u) h =
      (h k v (rw (same_self k) refl), get-All P d u λ j w e. h j w (behind j w e))
    where
      behind : (j : K) (w : V) → get j d ≡ some w → (if k == j then some v else get j d) ≡ some w
      behind j w e = ground (arith, same_iff k j)

  -- What holds of every entry holds of what a key gives.
  pub All-get {ρ} :
      (P : K → V → Type ρ) (d : Dict K V)
      → All (λ e. P e.0 e.1) d
      → (k : K) (v : V) → get k d ≡ some v
      → P k v
  unfolding get
  All-get P [] all k v e = absurd (cc)
  All-get P ((j, w) ∷ d) (h, all) k v e = elim (Bool-cases (j == k)) [
    | inl same ↦
        let eq : j ≡ k = (same_iff j k).0 same in
        let eq' : w ≡ v = ground arith in subst (λ i. P i v) eq (subst (P j) eq' h)
    | inr differ ↦ All-get P d all k v (rw differ at e)
  ]
