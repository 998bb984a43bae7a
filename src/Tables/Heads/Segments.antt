-- ===== src/Tables/Heads/Segments.antt =====
-- The plan of the table of heads (src/ida_bridge/sql/tables/heads.py) for a segment's name: it
-- reads the first segment of that name.
use package.text.Mathlib.Text.{◌==◌ as str_eq}
use package.text.Mathlib.TextEquality.{eq_iff}
use ida_bridge.Common.{
  ℕ, ◌<◌, ◌^◌, ◌≡◌, refl, ap, sym, inl, inr, String, Bool, true, false, Option, none, some, List,
  [], ◌∷◌, map, keep_if, text_key, ◌==◌, Bool-cases, arith,
}
use ida_bridge.Tables.Ida.{Ida, Segment, within, covers, InOrder, IsDocumented}
use ida_bridge.Tables.Heads.{bare, in_segment, segment_name, find_segment, heads_in_segment, values}
use ida_bridge.Tables.Heads.Exact.{head_at, same_segment}
use ida_bridge.Tables.Scan.{heads-known}
use ida_bridge.Tables.Lists.{keep_if-none, All-always}

-- No segment of the list has the name.
abbrev pub IsUnnamed : String → List (Option Segment) → Type 0
IsUnnamed name [] = Unit
IsUnnamed name (none ∷ gs) = IsUnnamed name gs
IsUnnamed name (some g ∷ gs) = (str_eq g.name name ≡ false) × IsUnnamed name gs

-- At most one segment has the name.
abbrev pub IsOnly : String → List (Option Segment) → Type 0
IsOnly name [] = Unit
IsOnly name (none ∷ gs) = IsOnly name gs
IsOnly name (some g ∷ gs) = (str_eq g.name name ≡ true → IsUnnamed name gs) × IsOnly name gs

abbrev pub lies_in : Option Segment → ℕ → Bool
lies_in none ea = false
lies_in (some g) ea = within g.start_ea g.end_ea ea

module _ (ida : Ida) (name : String) where
  abbrev named : ℕ → Bool
  named ea = str_eq (segment_name ida (bare ea)) name

  -- The name of the segment that `getseg` finds.
  named-getseg : (g : Segment) (ea : ℕ) → ida.getseg ea ≡ some g → named ea ≡ str_eq g.name name
  unfolding segment_name
  named-getseg g ea e = rw e refl

  find-above :
      (lo : ℕ) (starts : List ℕ) (gs : List (Option Segment))
      → InOrder ida.getseg lo starts gs
      → (ea : ℕ) → ea < lo
      → lies_in (find_segment ida name gs) ea ≡ false
  unfolding find_segment
  find-above lo [] [] h ea lt = refl
  find-above lo [] (g ∷ gs) h ea lt = absurd h
  find-above lo (s ∷ starts) [] h ea lt = absurd h
  find-above lo (s ∷ starts) (none ∷ gs) h ea lt = absurd h
  find-above lo (s ∷ starts) (some g ∷ gs) h ea lt = elim (Bool-cases (g.name == name)) [
    | inl e ↦ rw e (ground arith)
    | inr e ↦ rw e (find-above g.end_ea starts gs h.5 ea (omega arith))
  ]

  unnamed-named :
      (lo : ℕ) (starts : List ℕ) (gs : List (Option Segment))
      → InOrder ida.getseg lo starts gs
      → IsUnnamed name gs
      → (ea : ℕ) → covers gs ea ≡ true
      → named ea ≡ false
  unnamed-named lo [] [] h u ea c = absurd (cc)
  unnamed-named lo [] (g ∷ gs) h u ea c = absurd h
  unnamed-named lo (s ∷ starts) [] h u ea c = absurd h
  unnamed-named lo (s ∷ starts) (none ∷ gs) h u ea c = absurd h
  unnamed-named lo (s ∷ starts) (some g ∷ gs) h u ea c =
      elim (Bool-cases (within g.start_ea g.end_ea ea)) [
        | inl e ↦ rw (named-getseg g ea (h.4 ea e)) u.0
        | inr e ↦ unnamed-named g.end_ea starts gs h.5 u.1 ea (rw e at c)
      ]

  -- A head lies in the segment that is read exactly if its own segment has the name.
  pub lies_in-named :
      (lo : ℕ) (starts : List ℕ) (gs : List (Option Segment))
      → InOrder ida.getseg lo starts gs
      → IsOnly name gs
      → (ea : ℕ) → covers gs ea ≡ true
      → lies_in (find_segment ida name gs) ea ≡ named ea
  unfolding find_segment
  lies_in-named lo [] [] h only ea c = absurd (cc)
  lies_in-named lo [] (g ∷ gs) h only ea c = absurd h
  lies_in-named lo (s ∷ starts) [] h only ea c = absurd h
  lies_in-named lo (s ∷ starts) (none ∷ gs) h only ea c = absurd h
  lies_in-named lo (s ∷ starts) (some g ∷ gs) h only ea c =
      elim (Bool-cases (within g.start_ea g.end_ea ea)) [
        | inl inside ↦ elim (Bool-cases (g.name == name)) [
          | inl e ↦ rw (named-getseg g ea (h.4 ea inside), e, inside) refl
          | inr e ↦
              rw (named-getseg g ea (h.4 ea inside), e)
                (find-above g.end_ea starts gs h.5 ea (ground arith))
        ]
        | inr outside ↦ elim (Bool-cases (g.name == name)) [
          | inl e ↦
              rw (e, outside, unnamed-named g.end_ea starts gs h.5 (only.0 e) ea (rw outside at c))
                refl
          | inr e ↦ rw e (lies_in-named g.end_ea starts gs h.5 only.1 ea (rw outside at c))
        ]
      ]

  -- A segment of the name whose addresses `getseg` knows.
  abbrev Sound : Segment → Type 0
  Sound g =
      (g.name ≡ name)
      × (g.end_ea < 2 ^ 64)
      × ((ea : ℕ) → within g.start_ea g.end_ea ea ≡ true → ida.getseg ea ≡ some g)

  found_known :
      (lo : ℕ) (starts : List ℕ) (gs : List (Option Segment))
      → InOrder ida.getseg lo starts gs
      → (g : Segment) → find_segment ida name gs ≡ some g
      → Sound g
  unfolding find_segment
  found_known lo [] [] h g e = absurd (cc)
  found_known lo [] (o ∷ gs) h g e = absurd h
  found_known lo (s ∷ starts) [] h g e = absurd h
  found_known lo (s ∷ starts) (none ∷ gs) h g e = absurd h
  found_known lo (s ∷ starts) (some k ∷ gs) h g e = elim (Bool-cases (k.name == name)) [
    | inl same ↦
        let eq : some k ≡ some g = rw same at e in
        let eq' : k ≡ g = cc in
        let found : Sound k = ((eq_iff k.name name).0 same, h.3, h.4) in rw eq' at found
    | inr differ ↦ found_known k.end_ea starts gs h.5 g (rw differ at e)
  ]

  module _ (every : List ℕ) (doc : IsDocumented ida every) where
    rows_of :
        (o : Option Segment)
        → find_segment ida name ida.segments ≡ o
        → map (values ida) (heads_in_segment ida name)
          ≡ map (head_at ida) (keep_if (lies_in o) every)
    unfolding heads_in_segment
    rows_of none e =
        rw (heads_in_segment, e)
          (ap (map (head_at ida)) (
            sym (
              keep_if-none (lies_in none) every
                (All-always (λ x. false ≡ false) every (λ x. refl)))))
    rows_of (some g) e =
        let (same, small, found) = found_known 0 ida.segment_starts ida.segments doc.in_order g e in
        rw (heads_in_segment, e, sym same)
          (heads-known ida every doc (values ida) (head_at ida) (in_segment g.name) g.start_ea
            g.end_ea small (λ ea inside. same_segment ida g ea (found ea inside)))

    -- The plan reads the heads of the segment that the search finds.
    pub heads_in_segment-values :
        map (values ida) (heads_in_segment ida name)
        ≡ map (head_at ida) (keep_if (lies_in (find_segment ida name ida.segments)) every)
    heads_in_segment-values = rows_of (find_segment ida name ida.segments) refl
