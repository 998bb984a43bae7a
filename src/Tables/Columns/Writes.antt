-- ===== src/Tables/Columns/Writes.antt =====
-- The write contract of src/ida_bridge/sql/tables/base.py: an UPDATE passes exactly if it assigns
-- writable columns only.
use ida_bridge.Common.{
  ℕ, zero, suc, ◌+◌, ◌<◌, ◌≡◌, ◌↔◌, refl, ap, sym, ◌∙◌, inl, inr, String, true, false, ◌||◌, Option,
  none, some, List, [], ◌∷◌, length, any, get_elem?, number_key, text_key, ◌==◌, All, subst,
  Bool-cases, Option-cases, arith,
}
use ida_bridge.Sql.U64.{SqlValue, no_change}
use ida_bridge.Tables.Lists.{All-map}
use ida_bridge.Tables.Columns.{
  ColumnSpecs, Schema, contains, names_of, unwritable_from, apply_schema_specs, Checked, passed,
  is_no_change, reject_field, reject_each, reject_readonly_update, column_no_change,
}

-- The fields that APSW passes for an UPDATE under `use_no_change`: an assigned column has its value,
-- any other what `ColumnNoChange` gave.
pub record IsUpdate (schema : Schema) (column_value : ℕ → SqlValue) (assigned : ℕ → Option SqlValue)
    (fields : List SqlValue) : Type 0 where
  pub all_there : length fields ≡ length schema.column_names
  pub assigned_value :
      (i : ℕ) (v : SqlValue)
      → assigned i ≡ some v
      → (get_elem? fields i ≡ some v) × (is_no_change v ≡ false)
  pub kept_value :
      (i : ℕ)
      → i < length fields
      → assigned i ≡ none
      → get_elem? fields i ≡ some (column_no_change schema column_value i)

-- No field of the indices is a value.
abbrev Unchanged : List SqlValue → ℕ → Type 0
Unchanged fields i = get_elem? fields i ≡ some no_change

is_no_change-eq : (v : SqlValue) → is_no_change v ≡ true → v ≡ no_change
is_no_change-eq v h = ground arith

reject_field-passed :
    (i : ℕ) (o : Option SqlValue) (rest : Checked (Unit {0}))
    → reject_field i o rest ≡ passed tt
    → (o ≡ some no_change) × (rest ≡ passed tt)
unfolding reject_field
reject_field-passed i none rest h = absurd (cc)
reject_field-passed i (some v) rest h = elim (Bool-cases (is_no_change v)) [
  | inl same ↦ (ap some (is_no_change-eq v same), rw same at h)
  | inr value ↦ absurd (let h' = rw value at h in cc)
]

passes-Unchanged :
    (indices : List ℕ) (fields : List SqlValue)
    → reject_each indices fields ≡ passed tt
    → All (Unchanged fields) indices
unfolding reject_each
passes-Unchanged [] fields h = tt
passes-Unchanged (i ∷ indices) fields h =
    let (e, rest) = reject_field-passed i (get_elem? fields i) (reject_each indices fields) h in
    (e, passes-Unchanged indices fields rest)

Unchanged-passes :
    (indices : List ℕ) (fields : List SqlValue)
    → All (Unchanged fields) indices
    → reject_each indices fields ≡ passed tt
unfolding reject_each
Unchanged-passes [] fields h = refl
Unchanged-passes (i ∷ indices) fields (e, h) =
    rw (reject_each, e) (Unchanged-passes indices fields h)

every_found : (xs : List ℕ) → All (λ n. any (λ j. j == n) xs ≡ true) xs
every_found [] = tt
every_found (x ∷ xs) = (
  ground arith,
  All-map (λ n. any (λ j. j == n) xs ≡ true) (λ n. any (λ j. j == n) (x ∷ xs) ≡ true) xs
      (λ n h. later x n xs h) (every_found xs),
)
  where
    later :
        (x n : ℕ) (xs : List ℕ)
        → any (λ j. j == n) xs ≡ true
        → (x == n || any (λ j. j == n) xs) ≡ true
    later x n xs h = rw h (ground arith)

module _ (writable : List String) where
  -- What holds of every index in the list holds of every column that is not writable.
  unwritable-All :
      (P : ℕ → Type 0) (k : ℕ) (names : List String)
      → All P (unwritable_from writable k names)
      → (i : ℕ) (name : String) → get_elem? names i ≡ some name
      → contains writable name ≡ false
      → P (k + i)
  unfolding unwritable_from
  unwritable-All P k [] all i name e h = absurd (cc)
  unwritable-All P k (n ∷ names) all zero name e h =
      let same : n ≡ name = ground arith in
      let h' : contains writable n ≡ false = rw same h in
      let here : k ≡ k + 0 = omega arith in subst P here ((rw h' at all).0)
  unwritable-All P k (n ∷ names) all (suc i) name e h =
      let next : suc k + i ≡ k + suc i = omega arith in
      elim (Bool-cases (contains writable n)) [
        | inl w ↦ subst P next (unwritable-All P (suc k) names (rw w at all) i name e h)
        | inr u ↦ subst P next (unwritable-All P (suc k) names ((rw u at all).1) i name e h)
      ]

  -- The list holds the columns that are not writable only.
  All-unwritable :
      (P : ℕ → Type 0) (k : ℕ) (names : List String)
      → ((i : ℕ) (name : String)
          → get_elem? names i ≡ some name
          → contains writable name ≡ false
          → P (k + i))
      → All P (unwritable_from writable k names)
  unfolding unwritable_from
  All-unwritable P k [] h = tt
  All-unwritable P k (n ∷ names) h =
      let rest = All-unwritable P (suc k) names (λ i name e u.
        let next : k + suc i ≡ suc k + i = omega arith in subst P next (h (suc i) name e u)) in
      elim (Bool-cases (contains writable n)) [
        | inl w ↦ rw w rest
        | inr u ↦ rw u (let here : k + 0 ≡ k = omega arith in subst P here (h 0 n refl u), rest)
      ]

  unwritable-any :
      (k : ℕ) (names : List String) (i : ℕ) (name : String)
      → get_elem? names i ≡ some name
      → contains writable name ≡ false
      → any (λ j. j == k + i) (unwritable_from writable k names) ≡ true
  unwritable-any k names =
      unwritable-All (λ n. any (λ j. j == n) (unwritable_from writable k names) ≡ true) k names
        (every_found (unwritable_from writable k names))

clash :
    (o : Option SqlValue) (v : SqlValue)
    → o ≡ some v
    → o ≡ some no_change
    → is_no_change v ≡ false
    → ⊥
clash o v e h differ = let same : v ≡ no_change = cc in ground arith

zero_add : (i : ℕ) → i ≡ 0 + i
zero_add i = omega arith

in_range :
    (names : List String) (i : ℕ) (name : String) → get_elem? names i ≡ some name → i < length names
in_range [] i name e = absurd (cc)
in_range (n ∷ names) zero name e = omega arith
in_range (n ∷ names) (suc i) name e = omega (arith, in_range names i name e)

module _ (table : String) (names : List String) (specs : ColumnSpecs) (w : String)
    (ws : List String) (has_writable : names_of (λ spec. spec.writable) specs ≡ w ∷ ws)
    (column_value : ℕ → SqlValue) (assigned : ℕ → Option SqlValue) (fields : List SqlValue)
    (update : IsUpdate (apply_schema_specs table names specs) column_value assigned fields) where
  abbrev pub schema : Schema
  schema = apply_schema_specs table names specs

  -- Every column that the UPDATE assigns is writable.
  abbrev pub OnlyWritable : Type 0
  OnlyWritable =
      (i : ℕ) (name : String) (v : SqlValue)
      → get_elem? names i ≡ some name
      → assigned i ≡ some v
      → contains (w ∷ ws) name ≡ true

  indices_lem : schema.no_change_indices ≡ unwritable_from (w ∷ ws) 0 names
  unfolding apply_schema_specs
  indices_lem = rw has_writable refl

  there : length fields ≡ length names
  unfolding apply_schema_specs
  there = update.all_there

  column_no_change-lem :
      (i : ℕ)
      → any (λ j. j == i) schema.no_change_indices ≡ true
      → column_no_change schema column_value i ≡ no_change
  unfolding column_no_change
  column_no_change-lem i h = rw h refl

  passes-OnlyWritable : reject_readonly_update schema fields ≡ passed tt → OnlyWritable
  unfolding reject_readonly_update
  passes-OnlyWritable h i name v e a = elim (Bool-cases (contains (w ∷ ws) name)) [
    | inl yes_w ↦ yes_w
    | inr no_w ↦
        let all = passes-Unchanged _ fields (rw indices_lem at h) in
        let kept = unwritable-All (w ∷ ws) (Unchanged fields) 0 names all i name e no_w in
        let (value, given) = update.assigned_value i v a in
        absurd (clash _ v value (ap (get_elem? fields) (zero_add i) ∙ kept) given)
  ]

  OnlyWritable-passes : OnlyWritable → reject_readonly_update schema fields ≡ passed tt
  unfolding reject_readonly_update
  OnlyWritable-passes only = rw indices_lem (
      Unchanged-passes _ fields (
        All-unwritable (w ∷ ws) (Unchanged fields) 0 names (λ i name e u.
          elim (Option-cases (assigned i)) [
            | inr (v, a) ↦ absurd (let w_true = only i name v e a in cc)
            | inl free ↦
                ap (get_elem? fields) (sym (zero_add i))
                ∙ update.kept_value i (omega (arith, there, in_range names i name e)) free
                ∙ ap some (
                    column_no_change-lem i (
                      rw indices_lem (
                        ap (λ (n : ℕ). any (λ j. j == n) (unwritable_from (w ∷ ws) 0 names))
                          (zero_add i)
                        ∙ unwritable-any (w ∷ ws) 0 names i name e u)))
          ])))

  -- On a table with a writable column, an UPDATE is let through exactly if every column that it
  -- assigns is writable; its other fields are those that ColumnNoChange reports.
  pub update_accepted_iff : (reject_readonly_update schema fields ≡ passed tt) ↔ OnlyWritable
  update_accepted_iff = (passes-OnlyWritable, OnlyWritable-passes)
