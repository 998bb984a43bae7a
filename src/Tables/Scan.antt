-- ===== src/Tables/Scan.antt =====
-- The scan over every segment's heads that the tables of src/ida_bridge/sql/tables share:
-- `for seg_start in Segments(): … for ea in Heads(seg.start_ea, seg.end_ea): …`.
use mathlib.Core.List.{map-append}
use ida_bridge.Common.{
  ℕ, ◌^◌, ◌≤◌, ◌<◌, ◌≡◌, refl, ap, sym, ◌∙◌, inl, inr, Bool-cases, any, number_key, ◌==◌, true,
  false, Option, none, some, List, [], ◌∷◌, ◌++◌, map, keep_if, All, arith,
}
use ida_bridge.Tables.Ida.{Ida, Segment, within, Ascending, covers, InOrder, IsDocumented}
use ida_bridge.Tables.Lists.{
  keep_if_whole, keep_if-none, All-map, All-always, All-keep_if, keep_if-split,
}

pub map-same : {A : Type 0} (xs : List A) → map (λ (x : A). x) xs ≡ xs
map-same [] = refl
map-same (x ∷ xs) = ap (λ ys. x ∷ ys) (map-same xs)

differ_later : (a x : ℕ) → (x == a) ≡ true → (y : ℕ) → x < y → (y == a) ≡ false
differ_later a x e y lt = ground arith

-- One head, or one function, of an ascending list of addresses.
pub only_head :
    (a : ℕ) (heads : List ℕ)
    → Ascending heads
    → any (λ ea. ea == a) heads ≡ true
    → keep_if (λ ea. ea == a) heads ≡ a ∷ []
only_head a [] asc h = absurd (cc)
only_head a (x ∷ heads) (least, asc) h = elim (Bool-cases (x == a)) [
  | inl e ↦
      let same : x ≡ a = ground arith in
      let none_later =
        keep_if-none (λ ea. ea == a) heads (All-map _ _ heads (differ_later a x e) least) in
      rw (e, none_later) (ap (λ y. y ∷ []) same)
  | inr e ↦ rw e (only_head a heads asc (rw e at h))
]

module _ (ida : Ida) {A : Type 0} (row : Segment → ℕ → A) where
  unfoldable pub over_segments : List ℕ → List A
  over_segments [] = []
  over_segments (start ∷ starts) = elim (ida.getseg start) [
    | none ↦ over_segments starts
    | some seg ↦
        map (row seg) (ida.heads (some seg.start_ea) (some seg.end_ea)) ++ over_segments starts
  ]

  unfoldable pub over_all : List A
  unfolding over_segments
  over_all = over_segments ida.segment_starts

  over_segments-some :
      (s : ℕ) (starts : List ℕ) (g : Segment)
      → ida.getseg s ≡ some g
      → over_segments (s ∷ starts)
        ≡ map (row g) (ida.heads (some g.start_ea) (some g.end_ea)) ++ over_segments starts
  unfolding over_segments
  over_segments-some s starts g e = rw (over_segments, e) refl

module _ {A B : Type 0} (value : A → B) (row : ℕ → A) (at : ℕ → B) where
  -- Rows that have the value of their address.
  pub map-known :
      (xs : List ℕ) → All (λ ea. value (row ea) ≡ at ea) xs → map value (map row xs) ≡ map at xs
  map-known [] h = refl
  map-known (x ∷ xs) (e, h) = rw (e, map-known xs h) refl

covers-small :
    (getseg : ℕ → Option Segment) (lo : ℕ) (starts : List ℕ) (gs : List (Option Segment))
    → InOrder getseg lo starts gs
    → (ea : ℕ) → covers gs ea ≡ true
    → ea < 2 ^ 64
covers-small getseg lo [] [] h ea e = absurd (cc)
covers-small getseg lo [] (g ∷ gs) h ea e = absurd h
covers-small getseg lo (s ∷ starts) [] h ea e = absurd h
covers-small getseg lo (s ∷ starts) (none ∷ gs) h ea e = absurd h
covers-small getseg lo (s ∷ starts) (some g ∷ gs) h ea e =
    elim (Bool-cases (within g.start_ea g.end_ea ea)) [
      | inl inside ↦ ground (arith, h.3)
      | inr outside ↦ covers-small getseg g.end_ea starts gs h.5 ea (rw outside at e)
    ]

-- Every head is a 64-bit address.
pub heads_small :
    (ida : Ida) (every : List ℕ) → IsDocumented ida every → All (λ ea. ea < 2 ^ 64) every
heads_small ida every doc =
    All-map (λ ea. covers ida.segments ea ≡ true) (λ ea. ea < 2 ^ 64) every
      (covers-small ida.getseg 0 ida.segment_starts ida.segments doc.in_order) doc.covered

covers-above :
    (getseg : ℕ → Option Segment) (lo : ℕ) (starts : List ℕ) (gs : List (Option Segment))
    → InOrder getseg lo starts gs
    → (ea : ℕ) → covers gs ea ≡ true
    → lo ≤ ea
covers-above getseg lo [] [] h ea e = absurd (cc)
covers-above getseg lo [] (g ∷ gs) h ea e = absurd h
covers-above getseg lo (s ∷ starts) [] h ea e = absurd h
covers-above getseg lo (s ∷ starts) (none ∷ gs) h ea e = absurd h
covers-above getseg lo (s ∷ starts) (some g ∷ gs) h ea e =
    ground (arith, covers-above getseg g.end_ea starts gs h.5 ea)

module _ (ida : Ida) (every : List ℕ) (doc : IsDocumented ida every) {A B : Type 0} (value : A → B)
    (at : ℕ → B) where
  -- The rows of a range of heads.
  pub heads-known :
      (row : ℕ → A) (start end : ℕ)
      → end < 2 ^ 64
      → ((ea : ℕ) → within start end ea ≡ true → value (row ea) ≡ at ea)
      → map value (map row (ida.heads (some start) (some end)))
        ≡ map at (keep_if (within start end) every)
  heads-known row start end small same = rw (doc.heads_lem start end small) (
      map-known value row at (keep_if (within start end) every)
        (All-keep_if (λ ea. value (row ea) ≡ at ea) (within start end) every same))

  module _ (row : Segment → ℕ → A)
      (same : (g : Segment) (ea : ℕ) → ida.getseg ea ≡ some g → value (row g ea) ≡ at ea) where
    over_segments-values :
        (lo : ℕ) (starts : List ℕ) (gs : List (Option Segment))
        → InOrder ida.getseg lo starts gs
        → map value (over_segments ida row starts) ≡ map at (keep_if (covers gs) every)
    unfolding over_segments
    over_segments-values lo [] [] h =
        ap (map at)
          (sym (keep_if-none (covers []) every (All-always (λ x. false ≡ false) every (λ x. refl))))
    over_segments-values lo [] (g ∷ gs) h = absurd h
    over_segments-values lo (s ∷ starts) [] h = absurd h
    over_segments-values lo (s ∷ starts) (none ∷ gs) h = absurd h
    over_segments-values lo (s ∷ starts) (some g ∷ gs) h =
        rw
          (
            over_segments-some ida row s starts g h.0,
            map-append,
            heads-known (row g) g.start_ea g.end_ea h.3 (λ ea e. same g ea (h.4 ea e)),
            over_segments-values g.end_ea starts gs h.5,
          )
          (sym (map-append at (keep_if (within g.start_ea g.end_ea) every) _)
            ∙ ap (map at) (
                keep_if-split (within g.start_ea g.end_ea) (covers gs) g.end_ea
                  (λ x e. ground arith) (covers-above ida.getseg g.end_ea starts gs h.5) every
                  doc.ascending))

    -- The scan of everything reads every head once, in ascending order.
    pub over_all-values : map value (over_all ida row) ≡ map at every
    unfolding over_all
    over_all-values =
        over_segments-values 0 ida.segment_starts ida.segments doc.in_order
        ∙ ap (map at) (keep_if_whole (covers ida.segments) every doc.covered)
