-- ===== src/Tables/Comments/Scan.antt =====
-- The plan for an address in the table of comments (src/ida_bridge/sql/tables/analysis.py) against
-- its scan.
use mathlib.Core.List.{append-nil, append_assoc}
use ida_bridge.Common.{
  ℕ, ◌≡◌, refl, ap, sym, ◌∙◌, inl, inr, Bool, true, false, some, List, [], ◌∷◌, ◌++◌, any,
  number_key, text_key, ◌==◌, keep_if, if◌then◌else◌, Bool-cases, Option-cases,
}
use ida_bridge.Common.Int.{ℤ}
use ida_bridge.Sql.U64.{int}
use ida_bridge.Tables.Cursor.{ok}
use ida_bridge.Tables.Bounds.{address}
use ida_bridge.Tables.Ida.{Ida, IsDocumented}
use ida_bridge.Tables.Lists.{keep_if-append}
use ida_bridge.Tables.Scan.{map-same, only_head, over_segments, over_all, over_all-values}
use ida_bridge.Tables.Comments.{
  CommentApi, CommentRow, comment_at, comments_at_ea, comments_of_heads, comments_of_segments,
  comments_all, filter,
}

module _ (api : CommentApi) (db : api.Db) where
  keep_if-comment_at :
      (a ea : ℕ) (r : Bool)
      → keep_if (λ (row : CommentRow). row.ea == a) (comment_at api db ea r)
        ≡ (if ea == a then comment_at api db ea r else [])
  unfolding comment_at
  keep_if-comment_at a ea r = elim (Bool-cases (api.get_cmt db ea r == "")) [
    | inl blank ↦ elim (Bool-cases (ea == a)) [
      | inl e ↦ rw (blank, e) refl
      | inr e ↦ rw (blank, e) refl
    ]
    | inr full ↦ elim (Bool-cases (ea == a)) [
      | inl e ↦ rw (full, e) refl
      | inr e ↦ rw (full, e) refl
    ]
  ]

  keep_if-comments_at_ea :
      (a ea : ℕ)
      → keep_if (λ (row : CommentRow). row.ea == a) (comments_at_ea api db ea)
        ≡ (if ea == a then comments_at_ea api db ea else [])
  unfolding comments_at_ea
  keep_if-comments_at_ea a ea =
      keep_if-append (λ (row : CommentRow). row.ea == a) (comment_at api db ea false)
        (comment_at api db ea true)
      ∙ rw (keep_if-comment_at a ea false, keep_if-comment_at a ea true)
          (elim (Bool-cases (ea == a)) [ inl e ↦ rw e refl | inr e ↦ rw e refl ])

  keep_if-comments_of_heads :
      (a : ℕ) (heads : List ℕ)
      → keep_if (λ (row : CommentRow). row.ea == a) (comments_of_heads api db heads)
        ≡ comments_of_heads api db (keep_if (λ ea. ea == a) heads)
  unfolding comments_of_heads
  keep_if-comments_of_heads a [] = refl
  keep_if-comments_of_heads a (ea ∷ heads) =
      keep_if-append (λ (row : CommentRow). row.ea == a) (comments_at_ea api db ea)
        (comments_of_heads api db heads)
      ∙ rw (keep_if-comments_at_ea a ea, keep_if-comments_of_heads a heads)
          (elim (Bool-cases (ea == a)) [ inl e ↦ rw e refl | inr e ↦ rw e refl ])

  comments_of_heads-append :
      (xs ys : List ℕ)
      → comments_of_heads api db (xs ++ ys)
        ≡ comments_of_heads api db xs ++ comments_of_heads api db ys
  unfolding comments_of_heads
  comments_of_heads-append [] ys = refl
  comments_of_heads-append (x ∷ xs) ys =
      ap (λ rows. comments_at_ea api db x ++ rows) (comments_of_heads-append xs ys)
      ∙ sym (
          append_assoc (comments_at_ea api db x) (comments_of_heads api db xs)
            (comments_of_heads api db ys))

  module _ (ida : Ida) where
    comments_of_segments-heads :
        (starts : List ℕ)
        → comments_of_segments api ida db starts
          ≡ comments_of_heads api db (over_segments ida (λ seg ea. ea) starts)
    unfolding comments_of_segments over_segments comments_of_heads
    comments_of_segments-heads [] = refl
    comments_of_segments-heads (start ∷ starts) = elim (Option-cases (ida.getseg start)) [
      | inl e ↦ rw (comments_of_segments, over_segments, e) (comments_of_segments-heads starts)
      | inr (seg, e) ↦
          let heads = ida.heads (some seg.start_ea) (some seg.end_ea) in
          rw
            (comments_of_segments, over_segments, e, map-same heads, comments_of_heads-append heads)
            (ap (λ rows. comments_of_heads api db heads ++ rows)
              (comments_of_segments-heads starts))
    ]

    module _ (every : List ℕ) (doc : IsDocumented ida every) where
      comments_all-heads : comments_all api ida db ≡ comments_of_heads api db every
      unfolding comments_all over_all
      comments_all-heads =
          comments_of_segments-heads ida.segment_starts
          ∙ ap (comments_of_heads api db) (
              sym (map-same _)
              ∙ over_all-values ida every doc (λ (ea : ℕ). ea) (λ (ea : ℕ). ea) (λ seg ea. ea)
                  (λ g ea e. refl)
              ∙ map-same every)

      -- The plan for an address reads, at an item head, exactly the rows of the scan at this address,
      -- in the same order; where scans ascend and segments are disjoint.
      pub comments_exact :
          (z : ℤ)
          → any (λ ea. ea == address z) every ≡ true
          → filter api ida db 3 (int z ∷ [])
            ≡ ok (keep_if (λ row. row.ea == address z) (comments_all api ida db))
      unfolding filter comments_of_heads
      comments_exact z is_head = ap ok (
          sym (
            ap (keep_if (λ (row : CommentRow). row.ea == address z)) comments_all-heads
            ∙ keep_if-comments_of_heads (address z) every
            ∙ rw (only_head (address z) every doc.ascending is_head) (append-nil _)))
