-- ===== src/Tables/Heads/Pushdown.antt =====
-- What `HeadsTable.BestIndexObject` and `HeadsCursor.Filter` of src/ida_bridge/sql/tables/heads.py
-- read together, against the scan of everything.
use ida_bridge.Common.{
  ℕ, ◌+◌, ◌^◌, ◌<◌, ◌≡◌, ◌≢◌, refl, ap, sym, ◌∙◌, String, Bool, true, false, ◌&&◌, Option, none,
  some, List, [], ◌∷◌, map, number_key, text_key, ◌==◌, if◌then◌else◌, keep_if, All, arith,
}
use ida_bridge.Common.Int.{ℤ}
use ida_bridge.Sql.U64.{SqlValue, int, text, IsS64}
use ida_bridge.Tables.Index.{Constraint, IndexInfo, find_eq_constraint, find_range_constraints}
use ida_bridge.Tables.Index.Found.{
  find_eq_constraint-At, find_range_constraints-At, column-is_eq_on, column-is_lower_on,
  column-is_upper_on, op_at-get_elem?, bounds-differ,
}
use ida_bridge.Tables.Cursor.{ok}
use ida_bridge.Tables.Ida.{Ida, Function, within, IsDocumented}
use ida_bridge.Tables.Omit.{IsFresh, taken_hold, taken_hold-IsFresh, taken_hold-one, taken_hold-two}
use ida_bridge.Tables.Lists.{
  keep_if-cong, keep_if-map, keep_if_whole, All-map, All-always, All-map_of, All-keep_if,
}
use ida_bridge.Tables.Scan.{heads_small}
use ida_bridge.Tables.Bounds.{address, in_bound, is_address, is_text}
use ida_bridge.Tables.Bounds.Exact.{
  SameHalf, IsLower, IsUpper, range_start, range_end, range_bounds-integers, within-range,
  range_end-le,
}
use ida_bridge.Tables.Heads.{
  HeadRow, Values, best_index, choose_plan, filter, by_plan, values, segment_name, func_ea,
  heads_in_segment, heads_in_func, heads_in_range, heads_all,
}
use ida_bridge.Tables.Heads.Exact.{head_at, heads_all-values, heads_in_range-values}
use ida_bridge.Tables.Heads.Segments as Segments
use ida_bridge.Tables.Heads.Functions as Functions

-- What a constraint on a column of the table asks of a row: equality with a text on `segment`, with
-- an address on `func_ea`, and a bound on `address`.
abbrev pub asks : Option ℕ → ℕ → SqlValue → Values → Bool
asks none op arg row = false
asks (some column) op arg row =
    if column == 0
    then in_bound op arg row.address
    else if column == 3
    then is_text arg row.segment
    else if column == 4
    then is_address arg row.containing
    else false

abbrev pub satisfies : Constraint → SqlValue → Values → Bool
satisfies c arg row = asks c.column c.op arg row

-- The arguments that SQLite passes for the plan, and when the plan is exact: a segment's name is a
-- text that one segment has at most, a function's address is where it starts and it has one
-- chunk, the bounds of a range are both below 2^63 or both from there on, and below the last address.
abbrev pub Suits : Ida → List SqlValue → Option ℕ → Option ℕ → Option ℕ × Option ℕ → Type 0
Suits ida argv (some i) f r =
    (name : String) × (argv ≡ text name ∷ []) × Segments.IsOnly name ida.segments
Suits ida argv none (some i) r =
    (z : ℤ) × (argv ≡ int z ∷ []) × Functions.IsEntry ida (address z) (ida.get_func (address z))
Suits ida argv none none (some l, some u) =
    (lo : ℤ) × (hi : ℤ) × (argv ≡ int lo ∷ int hi ∷ [])
    × IsS64 lo
    × IsS64 hi
    × SameHalf lo hi
    × (address hi + 1 < 2 ^ 64)
Suits ida argv none none _ = argv ≡ []

module _ (ida : Ida) (every : List ℕ) (doc : IsDocumented ida every) where
  -- Rows that are the heads of a test are the scan's rows of a filter, if both agree on each head.
  exact :
      (rows : List HeadRow) (p : ℕ → Bool) (t : Values → Bool)
      → map (values ida) rows ≡ map (head_at ida) (keep_if p every)
      → All (λ ea. p ea ≡ t (head_at ida ea)) every
      → map (values ida) rows ≡ keep_if t (map (values ida) (heads_all ida))
  exact rows p t e agree =
      e
      ∙ ap (map (head_at ida)) (keep_if-cong p (λ ea. t (head_at ida ea)) every agree)
      ∙ sym (keep_if-map t (head_at ida) every)
      ∙ ap (keep_if t) (sym (heads_all-values ida every doc))

  module _ (argv : List SqlValue) (t : Values → Bool) where
    -- The rows of a plan are those of the scan for which the taken constraints hold.
    abbrev pub Reads : ℕ → Option (List ℕ) → Type 0
    Reads idx_num idx_str =
        (rows : List HeadRow) × (filter ida idx_num idx_str argv ≡ ok rows)
        × (map (values ida) rows ≡ keep_if t (map (values ida) (heads_all ida)))

    scan-Reads : argv ≡ [] → ((row : Values) → t row ≡ true) → (s : Option (List ℕ)) → Reads 0 s
    unfolding filter
    scan-Reads e all s = (heads_all ida, rw e refl, sym (keep_if_whole t _ (All-always _ _ all)))

    segment-Reads :
        (name : String)
        → argv ≡ text name ∷ []
        → Segments.IsOnly name ida.segments
        → ((ea : ℕ) → t (head_at ida ea) ≡ is_text (text name) (head_at ida ea).segment)
        → (s : Option (List ℕ)) → Reads 1 s
    unfolding filter values segment_name
    segment-Reads name e only agree s = (
      heads_in_segment ida name,
      rw e (rw (doc.str_lem name) refl),
      exact (heads_in_segment ida name) _ t (Segments.heads_in_segment-values ida name every doc) (
          All-map _ _ every
            (λ ea c.
              Segments.lies_in-named ida name 0 ida.segment_starts ida.segments doc.in_order only ea
                c
              ∙ sym (agree ea))
            doc.covered),
    )

    func-Reads :
        (z : ℤ)
        → argv ≡ int z ∷ []
        → (functions : Functions.FunctionsDocumented ida)
        → Functions.IsEntry ida (address z) (ida.get_func (address z))
        → ((ea : ℕ) → t (head_at ida ea) ≡ is_address (int z) (head_at ida ea).containing)
        → (s : Option (List ℕ)) → Reads 2 s
    unfolding filter values func_ea
    func-Reads z e functions entry agree s = (
      heads_in_func ida (address z),
      rw e refl,
      exact (heads_in_func ida (address z)) _ t
          (Functions.heads_in_func-values ida functions z every doc)
          (All-always _ every
            (λ ea. Functions.lies_in-contained ida functions z entry ea ∙ sym (agree ea))),
    )

    range-Reads :
        (lo hi : ℤ) (l u : ℕ)
        → argv ≡ int lo ∷ int hi ∷ []
        → IsLower l
        → IsUpper u
        → IsS64 lo
        → IsS64 hi
        → SameHalf lo hi
        → address hi + 1 < 2 ^ 64
        → ((ea : ℕ) → t (head_at ida ea) ≡ (in_bound u (int hi) ea && in_bound l (int lo) ea))
        → Reads 3 (some (l ∷ u ∷ []))
    unfolding filter values
    range-Reads lo hi l u e lower upper lo64 hi64 half small agree = (
      heads_in_range ida (some (range_start l (address lo)), some (range_end u (address hi))),
      rw (e, by_plan, range_bounds-integers l u lo hi lower upper) refl,
      exact _ _ t
          (heads_in_range-values ida every doc _ _ (omega (arith, range_end-le u (address hi))))
          (All-map (λ ea. ea < 2 ^ 64) _ every
            (λ ea low. within-range l u lo hi lower upper lo64 hi64 half ea low ∙ sym (agree ea))
            (heads_small ida every doc)),
    )

  -- By what `BestIndexObject` finds.
  by_choice :
      (ii : IndexInfo) (argv : List SqlValue) (f3 f4 : Option ℕ) (r : Option ℕ × Option ℕ)
      → IsFresh ii.constraints
      → Functions.FunctionsDocumented ida
      → find_eq_constraint ii 3 ≡ f3
      → find_eq_constraint ii 4 ≡ f4
      → find_range_constraints ii 0 ≡ r
      → Suits ida argv f3 f4 r
      → Reads argv
          (taken_hold satisfies (choose_plan ii f3 f4 r).constraints argv)
          (choose_plan ii f3 f4 r).idx_num
          (choose_plan ii f3 f4 r).idx_str
  unfolding choose_plan values
  by_choice ii argv (some i) f4 r fresh functions e3 e4 er (name, e, only) =
      let (c, at, h) = find_eq_constraint-At ii 3 i e3 in
      segment-Reads argv _ name e only
        (λ ea.
          taken_hold-one satisfies ii.constraints i argv (head_at ida ea) c fresh at
          ∙ rw e (ap (λ col. asks col c.op (text name) (head_at ida ea)) (column-is_eq_on 3 c h)))
        ii.idx_str
  by_choice ii argv none (some i) r fresh functions e3 e4 er (z, e, entry) =
      let (c, at, h) = find_eq_constraint-At ii 4 i e4 in
      func-Reads argv _ z e functions entry
        (λ ea.
          taken_hold-one satisfies ii.constraints i argv (head_at ida ea) c fresh at
          ∙ rw e (ap (λ col. asks col c.op (int z) (head_at ida ea)) (column-is_eq_on 4 c h)))
        ii.idx_str
  by_choice ii argv none none (some l, some u) fresh functions e3 e4 er
        (lo, hi, e, lo64, hi64, half, small) =
      let ((c, at_l, low), (d, at_u, high)) = find_range_constraints-At ii 0 l u er in
      let (col_c, lower) = column-is_lower_on 0 c low in
      let (col_d, upper) = column-is_upper_on 0 d high in
      rw (op_at-get_elem? ii.constraints l c at_l, op_at-get_elem? ii.constraints u d at_u)
        (range-Reads argv _ lo hi c.op d.op e lower upper lo64 hi64 half small (λ ea.
          taken_hold-two satisfies ii.constraints l u argv (head_at ida ea) c d fresh at_l at_u
            (bounds-differ ii.constraints l u c d at_l at_u lower upper)
          ∙ rw e (
              ap
                (λ col.
                  asks col d.op (int hi) (head_at ida ea)
                  && asks c.column c.op (int lo) (head_at ida ea))
                col_d
              ∙ ap (λ col. in_bound d.op (int hi) ea && asks col c.op (int lo) (head_at ida ea))
                  col_c)))
  by_choice ii argv none none (none, u) fresh functions e3 e4 er e =
      scan-Reads argv (taken_hold satisfies _ argv) e
        (λ row. taken_hold-IsFresh satisfies ii.constraints argv row fresh) ii.idx_str
  by_choice ii argv none none (some l, none) fresh functions e3 e4 er e =
      scan-Reads argv (taken_hold satisfies _ argv) e
        (λ row. taken_hold-IsFresh satisfies ii.constraints argv row fresh) ii.idx_str

  -- Whatever constraints SQLite offers, the plan that BestIndexObject chooses reads, for arguments
  -- that suit it, exactly the rows of the full scan that satisfy, as SQLite compares, the constraints that it takes, in
  -- the same order; SQLite does not check those again. It holds where scans ascend, segments are
  -- disjoint and a function contains its own chunk. The bounds of a range are both for addresses below
  -- 2^63 or both for addresses from there on, the upper one not the last.
  pub pushdown_exact :
      (ii : IndexInfo) (argv : List SqlValue)
      → IsFresh ii.constraints
      → Functions.FunctionsDocumented ida
      → Suits ida argv
          (find_eq_constraint ii 3)
          (find_eq_constraint ii 4)
          (find_range_constraints ii 0)
      → Reads argv
          (taken_hold satisfies (best_index ii).constraints argv)
          (best_index ii).idx_num
          (best_index ii).idx_str
  unfolding best_index
  pushdown_exact ii argv fresh functions suits =
      by_choice ii argv (find_eq_constraint ii 3) (find_eq_constraint ii 4)
        (find_range_constraints ii 0) fresh functions refl refl refl suits

  -- A query for an address inside a function, past its start, gives the rows of that function,
  -- none of which satisfies the constraint that the plan has taken; where scans ascend.
  pub inner_address-misses :
      (z : ℤ) (f : Function) (s : Option (List ℕ))
      → Functions.FunctionsDocumented ida
      → ida.get_func (address z) ≡ some f
      → f.start_ea ≢ address z
      → (rows : List HeadRow) × (filter ida 2 s (int z ∷ []) ≡ ok rows)
        × (map (values ida) rows ≡ map (head_at ida) (keep_if (within f.start_ea f.end_ea) every))
        × All (λ row. is_address (int z) row.containing ≡ false) (map (values ida) rows)
  unfolding filter values
  inner_address-misses z f s functions e inner =
      let read = Functions.heads_in_func-values ida functions z every doc in
      let read' = rw e at read in
      (
        heads_in_func ida (address z),
        refl,
        read',
        rw read' (
            All-map_of _ (head_at ida) (keep_if (within f.start_ea f.end_ea) every) (
              All-keep_if _ (within f.start_ea f.end_ea) every (λ ea inside.
                Functions.contained-other ida functions z f (address z) ea e inner inside))),
      )
