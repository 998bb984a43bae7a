-- ===== src/Tables/Index/Found.antt =====
-- The constraints that `find_eq_constraint` and `find_range_constraints` of
-- src/ida_bridge/sql/tables/base.py find, and what marking one leaves alone.
use ida_bridge.Common.{
  ℕ, zero, suc, ◌+◌, ◌≡◌, ◌≢◌, ◌⊎◌, refl, ap, sym, inl, inr, Bool, true, ◌&&◌, Option, none, some,
  List, [], ◌∷◌, get_elem?, if◌then◌else◌, Bool-cases, arith,
}
use ida_bridge.Tables.Index.{
  Constraint, IndexInfo, is_eq_on, is_lower_on, is_upper_on, find_eq_from, find_eq_constraint,
  find_range_from, find_range_constraints, mark_at, op_at, on_column, op_eq, op_ge, op_gt, op_le,
  op_lt,
}

and_left : (a b : Bool) → (a && b) ≡ true → a ≡ true
and_left a b h = ground arith

on_column_lem : (o : Option ℕ) (column : ℕ) → on_column o column ≡ true → o ≡ some column
on_column_lem none column h = absurd (cc)
on_column_lem (some c) column h = ground arith

-- An index of a list at which a test holds.
abbrev pub At : (Constraint → Bool) → List Constraint → ℕ → Type 0
At p cs k = (c : Constraint) × (get_elem? cs k ≡ some c) × (p c ≡ true)

-- The same at an index that is counted from `i`.
abbrev From : (Constraint → Bool) → ℕ → List Constraint → ℕ → Type 0
From p i cs j = (k : ℕ) × (j ≡ i + k) × At p cs k

tail_lem :
    (p : Constraint → Bool) (i : ℕ) (c : Constraint) (cs : List Constraint) (j : ℕ)
    → From p (suc i) cs j
    → From p i (c ∷ cs) j
tail_lem p i c cs j (k, e, found) = (suc k, omega arith, found)

head_lem :
    (p : Constraint → Bool) (i : ℕ) (c : Constraint) (cs : List Constraint) (j : ℕ)
    → p c ≡ true
    → some i ≡ some j
    → From p i (c ∷ cs) j
head_lem p i c cs j h e = (0, ground arith, (c, refl, h))

find_eq_from-From :
    (i : ℕ) (cs : List Constraint) (column j : ℕ)
    → find_eq_from i cs column ≡ some j
    → From (is_eq_on column) i cs j
unfolding find_eq_from
find_eq_from-From i [] column j e = absurd (cc)
find_eq_from-From i (c ∷ cs) column j e = elim (Bool-cases (is_eq_on column c)) [
  | inl h ↦ head_lem (is_eq_on column) i c cs j h (rw h at e)
  | inr h ↦ tail_lem (is_eq_on column) i c cs j (find_eq_from-From (suc i) cs column j (rw h at e))
]

pub find_eq_constraint-At :
    (ii : IndexInfo) (column j : ℕ)
    → find_eq_constraint ii column ≡ some j
    → At (is_eq_on column) ii.constraints j
unfolding find_eq_constraint
find_eq_constraint-At ii column j e =
    let (k, same, found) = find_eq_from-From 0 ii.constraints column j e in
    let eq : k ≡ j = omega arith in rw eq at found

-- The last of the constraints that fit, or what was found before.
module _ (p : Constraint → Bool) where
  -- One bound of the loop of `find_range_constraints`.
  last_from : ℕ → List Constraint → Option ℕ → Option ℕ
  last_from i [] found = found
  last_from i (c ∷ cs) found = last_from (suc i) cs (if p c then some i else found)

  last_from-From :
      (i : ℕ) (cs : List Constraint) (found : Option ℕ) (j : ℕ)
      → last_from i cs found ≡ some j
      → (found ≡ some j) ⊎ From p i cs j
  unfolding last_from
  last_from-From i [] found j e = inl e
  last_from-From i (c ∷ cs) found j e =
      elim (last_from-From (suc i) cs (if p c then some i else found) j e) [
        | inr h ↦ inr (tail_lem p i c cs j h)
        | inl h ↦ elim (Bool-cases (p c)) [
          | inl fits ↦ inr (head_lem p i c cs j fits (rw fits at h))
          | inr misfits ↦ inl (rw misfits at h)
        ]
      ]

  last_from-At : (cs : List Constraint) (j : ℕ) → last_from 0 cs none ≡ some j → At p cs j
  last_from-At cs j e = elim (last_from-From 0 cs none j e) [
    | inl h ↦ absurd (cc)
    | inr (k, same, found) ↦ let eq : k ≡ j = omega arith in rw eq at found
  ]

find_range_from-last :
    (i : ℕ) (cs : List Constraint) (column : ℕ) (lower upper : Option ℕ)
    → find_range_from i cs column lower upper
      ≡ (last_from (is_lower_on column) i cs lower, last_from (is_upper_on column) i cs upper)
unfolding find_range_from last_from
find_range_from-last i [] column lower upper = refl
find_range_from-last i (c ∷ cs) column lower upper = find_range_from-last (suc i) cs column _ _

pub find_range_constraints-At :
    (ii : IndexInfo) (column l u : ℕ)
    → find_range_constraints ii column ≡ (some l, some u)
    → At (is_lower_on column) ii.constraints l × At (is_upper_on column) ii.constraints u
unfolding find_range_constraints
find_range_constraints-At ii column l u e =
    let h = rw (find_range_from-last 0 ii.constraints column none none) at e in
    (
      last_from-At (is_lower_on column) ii.constraints l (cc),
      last_from-At (is_upper_on column) ii.constraints u (cc),
    )

pub mark_at-other :
    (cs : List Constraint) (i k argv_index : ℕ)
    → i ≢ k
    → get_elem? (mark_at cs i argv_index) k ≡ get_elem? cs k
unfolding mark_at
mark_at-other [] i k a ne = refl
mark_at-other (c ∷ cs) zero zero a ne = absurd (ne refl)
mark_at-other (c ∷ cs) zero (suc k) a ne = refl
mark_at-other (c ∷ cs) (suc i) zero a ne = refl
mark_at-other (c ∷ cs) (suc i) (suc k) a ne = mark_at-other cs i k a (λ e. ne (rw e refl))

-- What a test of a constraint says of its column and its operator.
pub column-is_eq_on :
    (column : ℕ) (c : Constraint) → is_eq_on column c ≡ true → c.column ≡ some column
column-is_eq_on column c h = on_column_lem c.column column (and_left _ _ h)

pub op-is_eq_on : (column : ℕ) (c : Constraint) → is_eq_on column c ≡ true → c.op ≡ op_eq
op-is_eq_on column c h = ground arith

pub column-is_lower_on :
    (column : ℕ) (c : Constraint)
    → is_lower_on column c ≡ true
    → (c.column ≡ some column) × ((c.op ≡ op_ge) ⊎ (c.op ≡ op_gt))
column-is_lower_on column c h = (on_column_lem c.column column (and_left _ _ h), ground arith)

pub column-is_upper_on :
    (column : ℕ) (c : Constraint)
    → is_upper_on column c ≡ true
    → (c.column ≡ some column) × ((c.op ≡ op_le) ⊎ (c.op ≡ op_lt))
column-is_upper_on column c h = (on_column_lem c.column column (and_left _ _ h), ground arith)

pub op_at-get_elem? :
    (cs : List Constraint) (i : ℕ) (c : Constraint) → get_elem? cs i ≡ some c → op_at cs i ≡ c.op
unfolding op_at
op_at-get_elem? [] i c e = absurd (cc)
op_at-get_elem? (d ∷ cs) zero c e =
    let same : d ≡ c = ground arith in ap (λ (x : Constraint). x.op) same
op_at-get_elem? (d ∷ cs) (suc i) c e = op_at-get_elem? cs i c e

-- No constraint is a lower and an upper bound at once.
pub bounds-differ :
    (cs : List Constraint) (l u : ℕ) (c d : Constraint)
    → get_elem? cs l ≡ some c
    → get_elem? cs u ≡ some d
    → (c.op ≡ op_ge) ⊎ (c.op ≡ op_gt)
    → (d.op ≡ op_le) ⊎ (d.op ≡ op_lt)
    → l ≢ u
bounds-differ cs l u c d at_l at_u lower upper same =
    let at_u' = rw (sym same) at at_u in
    let eq : c ≡ d = ground arith in
    let op : c.op ≡ d.op = ap (λ (x : Constraint). x.op) eq in ground arith
