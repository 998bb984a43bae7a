-- ===== src/Tables/Instructions/Pushdown.antt =====
-- What `InstructionsTable.BestIndexObject` and `InstructionsCursor.Filter` of
-- src/ida_bridge/sql/tables/analysis.py read together, against the scan of everything.
use ida_bridge.Common.{
  All, ℕ, ◌+◌, ◌^◌, ◌<◌, ◌≡◌, ◌≢◌, refl, ap, sym, ◌∙◌, inl, inr, Bool, true, false, ◌&&◌, Option,
  none, some, List, [], ◌∷◌, map, number_key, ◌==◌, if◌then◌else◌, keep_if, any, Option-cases,
  arith,
}
use ida_bridge.Common.Int.{ℤ}
use ida_bridge.Sql.U64.{SqlValue, int, IsS64}
use ida_bridge.Tables.Index.{
  Constraint, IndexInfo, is_eq_on, find_eq_constraint, find_range_constraints,
}
use ida_bridge.Tables.Index.Found.{
  find_eq_constraint-At, find_range_constraints-At, column-is_eq_on, column-is_lower_on,
  column-is_upper_on, op_at-get_elem?, bounds-differ, op-is_eq_on,
}
use ida_bridge.Tables.Cursor.{ok}
use ida_bridge.Tables.Ida.{Ida, Function, IsDocumented}
use ida_bridge.Tables.Omit.{IsFresh, taken_hold, taken_hold-IsFresh, taken_hold-one, taken_hold-two}
use ida_bridge.Tables.Lists.{
  keep_if-cong, keep_if-map, keep_if_whole, keep_if-none, All-map, All-always,
}
use ida_bridge.Tables.Scan.{heads_small, only_head, heads-known, over_all-values}
use ida_bridge.Tables.Bounds.{address, in_bound, is_address}
use ida_bridge.Tables.Bounds.Exact.{
  SameHalf, equal-address, IsLower, IsUpper, range_start, range_end, range_bounds-integers,
  within-range, range_end-le,
}
use ida_bridge.Tables.Heads as Heads
use ida_bridge.Tables.Heads.Functions.{FunctionsDocumented, IsEntry, lies_in, lies_in-contained}
use ida_bridge.Tables.Instructions.{
  InstructionRow, Values, bare, in_func, choose_plan, best_index, filter, by_plan, values, func_ea,
  instructions_at_ea, instructions_in_func, instructions_in_range, instructions_all,
}

-- What a constraint on a column of the table asks of a row: a bound on `address`, and equality with
-- an address on `func_ea`.
abbrev pub asks : Option ℕ → ℕ → SqlValue → Values → Bool
asks none op arg row = false
asks (some column) op arg row =
    if column == 0
    then in_bound op arg row.address
    else if column == 4
    then is_address arg (some row.containing)
    else false

abbrev pub satisfies : Constraint → SqlValue → Values → Bool
satisfies c arg row = asks c.column c.op arg row

-- The arguments that SQLite passes for the plan, and when the plan is exact: an address is that of
-- an item head, a function's address is where it starts and it has one chunk, or lies in no function
-- and is not 0, the bounds of a range are both below 2^63 or both from there on, and below the last
-- address.
abbrev pub Suits : Ida → List ℕ → List SqlValue → Option ℕ → Option ℕ → Option ℕ × Option ℕ → Type 0
Suits ida every argv (some i) f r =
    (z : ℤ) × (argv ≡ int z ∷ []) × IsS64 z × (any (λ ea. ea == address z) every ≡ true)
Suits ida every argv none (some i) r =
    (z : ℤ) × (argv ≡ int z ∷ [])
    × IsEntry ida (address z) (ida.get_func (address z))
    × (address z ≢ 0)
Suits ida every argv none none (some l, some u) =
    (lo : ℤ) × (hi : ℤ) × (argv ≡ int lo ∷ int hi ∷ [])
    × IsS64 lo
    × IsS64 hi
    × SameHalf lo hi
    × (address hi + 1 < 2 ^ 64)
Suits ida every argv none none _ = argv ≡ []

module _ (ida : Ida) where
  -- The columns of the instruction at an address, with nothing known beforehand.
  abbrev instruction_at : ℕ → Values
  instruction_at ea = values ida (bare ea)

  -- The containing function, where it is known, is what `get_func` would find.
  same_func :
      (f : Function) (ea : ℕ)
      → ida.get_func ea ≡ some f
      → values ida (in_func f.start_ea ea) ≡ instruction_at ea
  unfolding values func_ea
  same_func f ea e = rw e refl

  -- An address in no function has 0 here and NULL in the table of heads.
  contained-heads :
      (z : ℤ)
      → address z ≢ 0
      → (ea : ℕ)
      → is_address (int z) (some (instruction_at ea).containing)
        ≡ is_address (int z) (Heads.func_ea ida (Heads.bare ea))
  unfolding values func_ea Heads.func_ea
  contained-heads z nonzero ea = elim (Option-cases (ida.get_func ea)) [
    | inl e ↦ rw e (ground arith)
    | inr (f, e) ↦ rw e refl
  ]

  module _ (every : List ℕ) (doc : IsDocumented ida every) where
    instructions_all-values : map (values ida) (instructions_all ida) ≡ map instruction_at every
    unfolding instructions_all
    instructions_all-values =
        over_all-values ida every doc (values ida) instruction_at (λ seg. bare) (λ g ea e. refl)

    rows_of :
        (functions : FunctionsDocumented ida) (z : ℤ) (o : Option Function)
        → ida.get_func (address z) ≡ o
        → map (values ida) (instructions_in_func ida (address z))
          ≡ map instruction_at (keep_if (lies_in o) every)
    unfolding instructions_in_func
    rows_of functions z none e =
        rw (instructions_in_func, e)
          (ap (map instruction_at) (
            sym (
              keep_if-none (lies_in none) every
                (All-always (λ x. false ≡ false) every (λ x. refl)))))
    rows_of functions z (some f) e =
        rw (instructions_in_func, e)
          (heads-known ida every doc (values ida) instruction_at (in_func f.start_ea) f.start_ea
            f.end_ea (functions.end_small _ f e)
            (λ ea inside.
              same_func f ea (functions.in_chunk ea f (functions.at_start _ f e) inside)))

    -- Rows that are the heads of a test are the scan's rows of a filter, if both agree.
    exact :
        (rows : List InstructionRow) (p : ℕ → Bool) (t : Values → Bool)
        → map (values ida) rows ≡ map instruction_at (keep_if p every)
        → All (λ ea. p ea ≡ t (instruction_at ea)) every
        → map (values ida) rows ≡ keep_if t (map (values ida) (instructions_all ida))
    exact rows p t e agree =
        e
        ∙ ap (map instruction_at) (keep_if-cong p (λ ea. t (instruction_at ea)) every agree)
        ∙ sym (keep_if-map t instruction_at every)
        ∙ ap (keep_if t) (sym instructions_all-values)

    module _ (argv : List SqlValue) (t : Values → Bool) where
      -- The rows of a plan are those of the scan for which the taken constraints hold.
      abbrev pub Reads : ℕ → Option (List ℕ) → Type 0
      Reads idx_num idx_str =
          (rows : List InstructionRow) × (filter ida idx_num idx_str argv ≡ ok rows)
          × (map (values ida) rows ≡ keep_if t (map (values ida) (instructions_all ida)))

      scan-Reads : argv ≡ [] → ((row : Values) → t row ≡ true) → (s : Option (List ℕ)) → Reads 0 s
      unfolding filter
      scan-Reads e all s =
          (instructions_all ida, rw e refl, sym (keep_if_whole t _ (All-always _ _ all)))

      at-Reads :
          (z : ℤ)
          → argv ≡ int z ∷ []
          → any (λ ea. ea == address z) every ≡ true
          → ((ea : ℕ) → ea < 2 ^ 64 → t (instruction_at ea) ≡ (ea == address z))
          → (s : Option (List ℕ)) → Reads 3 s
      unfolding filter
      at-Reads z e is_head agree s = (
        instructions_at_ea ida (address z),
        rw e refl,
        exact (instructions_at_ea ida (address z)) (λ ea. ea == address z) t
            (ap (map instruction_at) (sym (only_head (address z) every doc.ascending is_head)))
            (All-map (λ ea. ea < 2 ^ 64) _ every (λ ea low. sym (agree ea low))
              (heads_small ida every doc)),
      )

      func-Reads :
          (z : ℤ)
          → argv ≡ int z ∷ []
          → (functions : FunctionsDocumented ida)
          → IsEntry ida (address z) (ida.get_func (address z))
          → address z ≢ 0
          → ((ea : ℕ)
              → t (instruction_at ea) ≡ is_address (int z) (some (instruction_at ea).containing))
          → (s : Option (List ℕ)) → Reads 4 s
      unfolding filter
      func-Reads z e functions entry nonzero agree s = (
        instructions_in_func ida (address z),
        rw e refl,
        exact (instructions_in_func ida (address z)) _ t (rows_of functions z _ refl) (
            All-always _ every (λ ea.
              lies_in-contained ida functions z entry ea
              ∙ sym (agree ea ∙ contained-heads z nonzero ea))),
      )

      range-Reads :
          (lo hi : ℤ) (l u : ℕ)
          → argv ≡ int lo ∷ int hi ∷ []
          → IsLower l
          → IsUpper u
          → IsS64 lo
          → IsS64 hi
          → SameHalf lo hi
          → address hi + 1 < 2 ^ 64
          → ((ea : ℕ) → t (instruction_at ea) ≡ (in_bound u (int hi) ea && in_bound l (int lo) ea))
          → Reads 5 (some (l ∷ u ∷ []))
      unfolding filter
      range-Reads lo hi l u e lower upper lo64 hi64 half small agree = (
        instructions_in_range ida
            (some (range_start l (address lo)), some (range_end u (address hi))),
        rw (e, by_plan, range_bounds-integers l u lo hi lower upper) refl,
        exact _ _ t
            (unfold instructions_in_range in
              heads-known ida every doc (values ida) instruction_at bare _ _
                (omega (arith, range_end-le u (address hi))) (λ ea h. refl))
            (All-map (λ ea. ea < 2 ^ 64) _ every
              (λ ea low. within-range l u lo hi lower upper lo64 hi64 half ea low ∙ sym (agree ea))
              (heads_small ida every doc)),
      )

    -- An equality on `address` asks for that address.
    asks-eq :
        (c : Constraint) (z : ℤ) (row : Values)
        → is_eq_on 0 c ≡ true
        → IsS64 z
        → row.address < 2 ^ 64
        → asks c.column c.op (int z) row ≡ (row.address == address z)
    asks-eq c z row h z64 low =
        ap (λ col. asks col c.op (int z) row) (column-is_eq_on 0 c h)
        ∙ ap (λ (op : ℕ). in_bound op (int z) row.address) (op-is_eq_on 0 c h)
        ∙ equal-address z z64 row.address low

    -- By what `BestIndexObject` finds.
    by_choice :
        (ii : IndexInfo) (argv : List SqlValue) (f0 f4 : Option ℕ) (r : Option ℕ × Option ℕ)
        → IsFresh ii.constraints
        → FunctionsDocumented ida
        → find_eq_constraint ii 0 ≡ f0
        → find_eq_constraint ii 4 ≡ f4
        → find_range_constraints ii 0 ≡ r
        → Suits ida every argv f0 f4 r
        → Reads argv
            (taken_hold satisfies (choose_plan ii f0 f4 r).constraints argv)
            (choose_plan ii f0 f4 r).idx_num
            (choose_plan ii f0 f4 r).idx_str
    unfolding choose_plan values
    by_choice ii argv (some i) f4 r fresh functions e0 e4 er (z, e, z64, is_head) =
        let (c, at, h) = find_eq_constraint-At ii 0 i e0 in
        at-Reads argv _ z e is_head
          (λ ea low.
            taken_hold-one satisfies ii.constraints i argv (instruction_at ea) c fresh at
            ∙ rw e (asks-eq c z (instruction_at ea) h z64 low))
          ii.idx_str
    by_choice ii argv none (some i) r fresh functions e0 e4 er (z, e, entry, nonzero) =
        let (c, at, h) = find_eq_constraint-At ii 4 i e4 in
        func-Reads argv _ z e functions entry nonzero
          (λ ea.
            taken_hold-one satisfies ii.constraints i argv (instruction_at ea) c fresh at
            ∙ rw e (ap (λ col. asks col c.op (int z) (instruction_at ea)) (column-is_eq_on 4 c h)))
          ii.idx_str
    by_choice ii argv none none (some l, some u) fresh functions e0 e4 er
          (lo, hi, e, lo64, hi64, half, small) =
        let ((c, at_l, low), (d, at_u, high)) = find_range_constraints-At ii 0 l u er in
        let (col_c, lower) = column-is_lower_on 0 c low in
        let (col_d, upper) = column-is_upper_on 0 d high in
        rw (op_at-get_elem? ii.constraints l c at_l, op_at-get_elem? ii.constraints u d at_u)
          (range-Reads argv _ lo hi c.op d.op e lower upper lo64 hi64 half small (λ ea.
            taken_hold-two satisfies ii.constraints l u argv (instruction_at ea) c d fresh at_l at_u
              (bounds-differ ii.constraints l u c d at_l at_u lower upper)
            ∙ rw e (
                ap
                  (λ col.
                    asks col d.op (int hi) (instruction_at ea)
                    && asks c.column c.op (int lo) (instruction_at ea))
                  col_d
                ∙ ap
                    (λ col. in_bound d.op (int hi) ea && asks col c.op (int lo) (instruction_at ea))
                    col_c)))
    by_choice ii argv none none (none, u) fresh functions e0 e4 er e =
        scan-Reads argv _ e (λ row. taken_hold-IsFresh satisfies ii.constraints argv row fresh)
          ii.idx_str
    by_choice ii argv none none (some l, none) fresh functions e0 e4 er e =
        scan-Reads argv _ e (λ row. taken_hold-IsFresh satisfies ii.constraints argv row fresh)
          ii.idx_str

    -- Whatever constraints SQLite offers, the plan that BestIndexObject chooses reads, for arguments
    -- that suit it, exactly the rows of the full scan that satisfy, as SQLite compares, the constraints that it takes, in
    -- the same order; SQLite does not check those again. It holds where scans ascend, segments are
    -- disjoint and a function contains its own chunk. The bounds of a range are both for addresses below
    -- 2^63 or both for addresses from there on, the upper one not the last.
    pub instructions_exact :
        (ii : IndexInfo) (argv : List SqlValue)
        → IsFresh ii.constraints
        → FunctionsDocumented ida
        → Suits ida every argv
            (find_eq_constraint ii 0)
            (find_eq_constraint ii 4)
            (find_range_constraints ii 0)
        → Reads argv
            (taken_hold satisfies (best_index ii).constraints argv)
            (best_index ii).idx_num
            (best_index ii).idx_str
    unfolding best_index
    instructions_exact ii argv fresh functions suits =
        by_choice ii argv (find_eq_constraint ii 0) (find_eq_constraint ii 4)
          (find_range_constraints ii 0) fresh functions refl refl refl suits
