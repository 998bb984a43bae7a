-- ===== src/Tables/Dedupe.antt =====
-- The `seen` sets of src/ida_bridge/sql/tables/analysis.py: a row that was yielded before is
-- skipped.
use ida_bridge.Common.{
  ◌≡◌, refl, inl, inr, Bool, true, false, ◌||◌, List, [], ◌∷◌, ◌++◌, ◌==◌, same_iff, if◌then◌else◌,
  keep_if, Bool-cases,
}
use ida_bridge.Common.Key.{Key}

module _ {Row : Type 0} ⦃key : Key Row⦄ where
  unfoldable pub is_seen : Row → List Row → Bool
  is_seen row [] = false
  is_seen row (r ∷ seen) = r == row || is_seen row seen

  -- The rows of an iteration that are yielded, and the set afterwards.
  unfoldable pub dedupe : List Row → List Row → List Row × List Row
  unfolding is_seen
  dedupe seen [] = ([], seen)
  dedupe seen (row ∷ rows) =
      let skipped = dedupe seen rows in
      let kept = dedupe (row ∷ seen) rows in
      if is_seen row seen then skipped else (row ∷ kept.0, kept.1)

  -- One iteration after another shares the set.
  pub dedupe-append :
      (seen xs ys : List Row)
      → dedupe seen (xs ++ ys)
        ≡ ((dedupe seen xs).0 ++ (dedupe (dedupe seen xs).1 ys).0, (dedupe (dedupe seen xs).1 ys).1)
  unfolding dedupe
  dedupe-append seen [] ys = refl
  dedupe-append seen (x ∷ xs) ys = elim (Bool-cases (is_seen x seen)) [
    | inl e ↦ rw e (dedupe-append seen xs ys)
    | inr e ↦ rw (e, dedupe-append (x ∷ seen) xs ys) refl
  ]

  is_seen-keep_if :
      (p : Row → Bool) (row : Row) (seen : List Row)
      → p row ≡ true
      → is_seen row (keep_if p seen) ≡ is_seen row seen
  unfolding is_seen
  is_seen-keep_if p row [] h = refl
  is_seen-keep_if p row (r ∷ seen) h = elim (Bool-cases (p r)) [
    | inl e ↦ rw (e, is_seen-keep_if p row seen h) refl
    | inr e ↦
        rw (e, is_seen-keep_if p row seen h)
          (elim (Bool-cases (r == row)) [
            | inl same ↦ let eq = (same_iff r row).0 same in absurd (cc)
            | inr differ ↦ rw differ refl
          ])
  ]

  -- Filtering afterwards is filtering before.
  pub keep_if-dedupe :
      (p : Row → Bool) (seen rows : List Row)
      → keep_if p (dedupe seen rows).0 ≡ (dedupe (keep_if p seen) (keep_if p rows)).0
  unfolding dedupe
  keep_if-dedupe p seen [] = refl
  keep_if-dedupe p seen (row ∷ rows) = elim (Bool-cases (p row)) [
    | inl h ↦ elim (Bool-cases (is_seen row seen)) [
      | inl old ↦ rw (h, old, is_seen-keep_if p row seen h, old) (keep_if-dedupe p seen rows)
      | inr new ↦
          rw (new, h, is_seen-keep_if p row seen h, new, keep_if-dedupe p (row ∷ seen) rows, h) refl
    ]
    | inr h ↦ elim (Bool-cases (is_seen row seen)) [
      | inl old ↦ rw (h, old) (keep_if-dedupe p seen rows)
      | inr new ↦ rw (h, new, h, keep_if-dedupe p (row ∷ seen) rows, h) refl
    ]
  ]
