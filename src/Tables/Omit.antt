-- ===== src/Tables/Omit.antt =====
-- The contract of `BestIndexObject` with SQLite: a constraint that a table takes with `omit` is not
-- checked again, so the rows of the plan must be those of the scan that satisfy it.
use ida_bridge.Common.{
  ℕ, zero, suc, ◌-◌, ◌≡◌, ◌≢◌, refl, ap, ◌∙◌, Bool, true, false, ◌&&◌, Option, none, some, List, [],
  ◌∷◌, get_elem?, if◌then◌else◌, All, arith,
}
use ida_bridge.Sql.U64.{SqlValue, null}
use ida_bridge.Tables.Index.{Constraint, mark_at}
use ida_bridge.Tables.Index.Found.{mark_at-other}

abbrev pub or_null : Option SqlValue → SqlValue
or_null none = null
or_null (some v) = v

-- What SQLite offers at first: nothing is taken.
abbrev pub IsFresh : List Constraint → Type 0
IsFresh cs = All (λ c. c.omit ≡ false) cs

and-true : (b : Bool) → (b && true) ≡ b
and-true true = refl
and-true false = refl

fresh_at :
    (cs : List Constraint) (i : ℕ) (c : Constraint)
    → IsFresh cs
    → get_elem? cs i ≡ some c
    → c.omit ≡ false
fresh_at [] i c h e = absurd (cc)
fresh_at (d ∷ cs) zero c h e = let same : d ≡ c = ground arith in rw same at h.0
fresh_at (d ∷ cs) (suc i) c h e = fresh_at cs i c h.1 e

-- A constraint as the table has taken it, with the argument of a place.
abbrev pub taken : ℕ → Constraint → Constraint
taken n c = record c { argv_index = suc n; omit = true }

module _ {V : Type 0} (satisfies : Constraint → SqlValue → V → Bool) where
  -- A row satisfies every constraint that the table has taken, with the argument at its place.
  unfoldable pub taken_hold : List Constraint → List SqlValue → V → Bool
  taken_hold [] argv row = true
  taken_hold (c ∷ cs) argv row =
      (if c.omit then satisfies c (or_null (get_elem? argv (c.argv_index - 1))) row else true)
      && taken_hold cs argv row

  pub taken_hold-IsFresh :
      (cs : List Constraint) (argv : List SqlValue) (row : V)
      → IsFresh cs
      → taken_hold cs argv row ≡ true
  unfolding taken_hold
  taken_hold-IsFresh [] argv row h = refl
  taken_hold-IsFresh (c ∷ cs) argv row (e, h) = rw (e, taken_hold-IsFresh cs argv row h) refl

  taken_hold-untaken :
      (c : Constraint) (cs : List Constraint) (argv : List SqlValue) (row : V)
      → c.omit ≡ false
      → taken_hold cs argv row ≡ taken_hold (c ∷ cs) argv row
  unfolding taken_hold
  taken_hold-untaken c cs argv row h = ground arith

  pub taken_hold-mark_at :
      (cs : List Constraint) (i n : ℕ) (argv : List SqlValue) (row : V) (c : Constraint)
      → get_elem? cs i ≡ some c
      → c.omit ≡ false
      → taken_hold (mark_at cs i (suc n)) argv row ≡ (
          satisfies (record c { argv_index = suc n; omit = true }) (or_null (get_elem? argv n)) row
          && taken_hold cs argv row)
  unfolding taken_hold mark_at
  taken_hold-mark_at [] i n argv row c e h = absurd (cc)
  taken_hold-mark_at (d ∷ cs) zero n argv row c e h =
      let same : d ≡ c = ground arith in
      let place : suc n - 1 ≡ n = omega arith in
      rw (same, place)
        (ap
          (λ b.
            satisfies (record c { argv_index = suc n; omit = true }) (or_null (get_elem? argv n))
              row
            && b)
          (taken_hold-untaken c cs argv row h))
  taken_hold-mark_at (d ∷ cs) (suc i) n argv row c e h =
      ground (arith, taken_hold-mark_at cs i n argv row c e h)

  pub taken_hold-one :
      (cs : List Constraint) (i : ℕ) (argv : List SqlValue) (row : V) (c : Constraint)
      → IsFresh cs
      → get_elem? cs i ≡ some c
      → taken_hold (mark_at cs i 1) argv row
        ≡ satisfies (taken 0 c) (or_null (get_elem? argv 0)) row
  taken_hold-one cs i argv row c fresh e =
      rw (taken_hold-mark_at cs i 0 argv row c e (fresh_at cs i c fresh e))
        (rw (taken_hold-IsFresh cs argv row fresh) (and-true _))

  pub taken_hold-two :
      (cs : List Constraint) (i k : ℕ) (argv : List SqlValue) (row : V) (c d : Constraint)
      → IsFresh cs
      → get_elem? cs i ≡ some c
      → get_elem? cs k ≡ some d
      → i ≢ k
      → taken_hold (mark_at (mark_at cs i 1) k 2) argv row ≡ (
          satisfies (taken 1 d) (or_null (get_elem? argv 1)) row
          && satisfies (taken 0 c) (or_null (get_elem? argv 0)) row)
  taken_hold-two cs i k argv row c d fresh e h ne =
      rw
        (taken_hold-mark_at (mark_at cs i 1) k 1 argv row d (mark_at-other cs i k 1 ne ∙ h)
          (fresh_at cs k d fresh h))
        (rw (taken_hold-one cs i argv row c fresh e) refl)
