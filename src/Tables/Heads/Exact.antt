-- ===== src/Tables/Heads/Exact.antt =====
-- The scan of the table of heads (src/ida_bridge/sql/tables/heads.py), and its plan for a range.
use ida_bridge.Common.{ℕ, ◌^◌, ◌<◌, ◌≡◌, refl, some, List, map, keep_if}
use ida_bridge.Tables.Ida.{Ida, Segment, within, IsDocumented}
use ida_bridge.Tables.Scan.{heads-known, over_all-values}
use ida_bridge.Tables.Heads.{
  Values, bare, in_segment, segment_name, func_ea, heads_in_range, heads_all, values,
}

module _ (ida : Ida) where
  -- The columns of the head at an address, with nothing known beforehand.
  abbrev pub head_at : ℕ → Values
  head_at ea = values ida (bare ea)

  -- A segment's name, where it is known, is what `getseg` would find.
  pub same_segment :
      (g : Segment) (ea : ℕ)
      → ida.getseg ea ≡ some g
      → values ida (in_segment g.name ea) ≡ head_at ea
  unfolding values segment_name func_ea
  same_segment g ea e = rw e refl

  module _ (every : List ℕ) (doc : IsDocumented ida every) where
    -- The heads of a range, with nothing known beforehand.
    pub heads_in_range-values :
        (start end : ℕ)
        → end < 2 ^ 64
        → map (values ida) (heads_in_range ida (some start, some end))
          ≡ map head_at (keep_if (within start end) every)
    unfolding heads_in_range
    heads_in_range-values start end small =
        heads-known ida every doc (values ida) head_at bare start end small (λ ea e. refl)

    -- The scan of everything reads every head once, in ascending order.
    pub heads_all-values : map (values ida) (heads_all ida) ≡ map head_at every
    unfolding heads_all
    heads_all-values =
        over_all-values ida every doc (values ida) head_at (λ seg. in_segment seg.name) same_segment
