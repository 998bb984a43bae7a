-- ===== src/Tables/Lists.antt =====
-- Lists that several segments yield one after the other, and their filters.
use ida_bridge.Common.{
  ℕ, ◌≤◌, ◌<◌, ◌≡◌, refl, sym, inl, inr, Bool, true, false, ◌||◌, List, [], ◌∷◌, ◌++◌, map, keep_if,
  All, Bool-cases, arith,
}
use ida_bridge.Tables.Ida.{Ascending}

module _ {ℓ} {A : Type ℓ} where
  pub keep_if-cong :
      (p q : A → Bool) (xs : List A) → All (λ x. p x ≡ q x) xs → keep_if p xs ≡ keep_if q xs
  keep_if-cong p q [] h = refl
  keep_if-cong p q (x ∷ xs) (e, h) = rw (e, keep_if-cong p q xs h) refl

  pub keep_if_whole : (p : A → Bool) (xs : List A) → All (λ x. p x ≡ true) xs → keep_if p xs ≡ xs
  keep_if_whole p [] h = refl
  keep_if_whole p (x ∷ xs) (e, h) = rw (e, keep_if_whole p xs h) refl

  pub keep_if-none : (p : A → Bool) (xs : List A) → All (λ x. p x ≡ false) xs → keep_if p xs ≡ []
  keep_if-none p [] h = refl
  keep_if-none p (x ∷ xs) (e, h) = rw e (keep_if-none p xs h)

  pub All-map {κ ρ} :
      (P : A → Type κ) (Q : A → Type ρ) (xs : List A) → ((x : A) → P x → Q x) → All P xs → All Q xs
  All-map P Q [] f h = tt
  All-map P Q (x ∷ xs) f (e, h) = (f x e, All-map P Q xs f h)

  pub All-always {κ} : (P : A → Type κ) (xs : List A) → ((x : A) → P x) → All P xs
  All-always P [] f = tt
  All-always P (x ∷ xs) f = (f x, All-always P xs f)

  pub All-keep_if {κ} :
      (P : A → Type κ) (p : A → Bool) (xs : List A)
      → ((x : A) → p x ≡ true → P x)
      → All P (keep_if p xs)
  All-keep_if P p [] f = tt
  All-keep_if P p (x ∷ xs) f = elim (Bool-cases (p x)) [
    | inl e ↦ rw e (f x e, All-keep_if P p xs f)
    | inr e ↦ rw e (All-keep_if P p xs f)
  ]

  pub All-map_of {κ ρ} :
      {B : Type κ} (P : B → Type ρ) (f : A → B) (xs : List A)
      → All (λ x. P (f x)) xs
      → All P (map f xs)
  All-map_of P f [] h = tt
  All-map_of P f (x ∷ xs) (e, h) = (e, All-map_of P f xs h)

  pub keep_if-map {κ} :
      {B : Type κ} (p : B → Bool) (f : A → B) (xs : List A)
      → keep_if p (map f xs) ≡ map f (keep_if (λ x. p (f x)) xs)
  keep_if-map p f [] = refl
  keep_if-map p f (x ∷ xs) = elim (Bool-cases (p (f x))) [
    | inl e ↦ rw (e, keep_if-map p f xs) refl
    | inr e ↦ rw (e, keep_if-map p f xs) refl
  ]

  pub keep_if-append :
      (p : A → Bool) (xs ys : List A) → keep_if p (xs ++ ys) ≡ keep_if p xs ++ keep_if p ys
  keep_if-append p [] ys = refl
  keep_if-append p (x ∷ xs) ys = elim (Bool-cases (p x)) [
    | inl e ↦ rw (e, keep_if-append p xs ys) refl
    | inr e ↦ rw (e, keep_if-append p xs ys) refl
  ]

not_below :
    (p : ℕ → Bool) (bound x : ℕ)
    → ((x : ℕ) → p x ≡ true → x < bound)
    → bound ≤ x
    → (y : ℕ) → x < y
    → p y ≡ false
not_below p bound x low le y lt = elim (Bool-cases (p y)) [
  | inl e ↦ absurd (omega (arith, low y e))
  | inr e ↦ e
]

-- On an ascending list, what lies below a bound comes before what lies above it.
pub keep_if-split :
    (p q : ℕ → Bool) (bound : ℕ)
    → ((x : ℕ) → p x ≡ true → x < bound)
    → ((x : ℕ) → q x ≡ true → bound ≤ x)
    → (xs : List ℕ) → Ascending xs
    → keep_if p xs ++ keep_if q xs ≡ keep_if (λ x. p x || q x) xs
keep_if-split p q bound low high [] asc = refl
keep_if-split p q bound low high (x ∷ xs) (least, asc) = elim (Bool-cases (p x)) [
  | inl yes_p ↦ elim (Bool-cases (q x)) [
    | inl yes_q ↦ absurd (omega (arith, low x yes_p, high x yes_q))
    | inr no_q ↦ rw (yes_p, no_q, sym (keep_if-split p q bound low high xs asc)) refl
  ]
  | inr no_p ↦ elim (Bool-cases (q x)) [
    | inl yes_q ↦
        rw (no_p, yes_q, sym (keep_if-split p q bound low high xs asc))
          (rw
            (keep_if-none p xs (
              All-map (λ y. x < y) (λ y. p y ≡ false) xs (not_below p bound x low (high x yes_q))
                least))
            refl)
    | inr no_q ↦ rw (no_p, no_q) (keep_if-split p q bound low high xs asc)
  ]
]
