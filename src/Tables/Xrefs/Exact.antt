-- ===== src/Tables/Xrefs/Exact.antt =====
-- What the plans of the table of cross references (src/ida_bridge/sql/tables/analysis.py) read,
-- against the scan of everything.
use mathlib.Core.List.{append-nil, append_assoc}
use ida_bridge.Common.{
  ℕ, ◌≡◌, ◌≢◌, refl, ap, sym, ◌∙◌, inl, inr, Bool, true, false, Option, none, some, List, [], ◌∷◌,
  ◌++◌, map, number_key, ◌==◌, keep_if, All, Bool-cases, Option-cases, any, arith,
}
use ida_bridge.Common.Int.{ℤ}
use ida_bridge.Sql.U64.{int}
use ida_bridge.Tables.Cursor.{ok}
use ida_bridge.Tables.Ida.{Ida, Function, within, IsDocumented}
use ida_bridge.Tables.Bounds.{address, is_address}
use ida_bridge.Tables.Lists.{
  keep_if-append, keep_if_whole, keep_if-none, All-map_of, All-map, All-keep_if, All-always,
}
use ida_bridge.Tables.Heads.Functions.{FunctionsDocumented, IsEntry, lies_in, lies_in-contained}
use ida_bridge.Tables.Heads.{bare, func_ea}
use ida_bridge.Tables.Scan.{map-same, only_head, over_segments, over_all, over_all-values}
use ida_bridge.Tables.Dedupe.{dedupe, dedupe-append, keep_if-dedupe}
use ida_bridge.Tables.Xrefs.{
  Xref, XrefRow, XrefApi, row_key, make_xref_row, func_row, get_from_func, over_heads, xrefs_from,
  xrefs_from_func, xrefs_of_segments, xrefs_all, filter,
}

module _ (api : XrefApi) where
  -- The rows of the heads' cross references, those that come twice included.
  gather : (Xref → XrefRow) → List ℕ → List XrefRow
  gather row [] = []
  gather row (ea ∷ heads) = map row (api.xrefs_from ea) ++ gather row heads

  gather-append :
      (row : Xref → XrefRow) (xs ys : List ℕ)
      → gather row (xs ++ ys) ≡ gather row xs ++ gather row ys
  unfolding gather
  gather-append row [] ys = refl
  gather-append row (x ∷ xs) ys =
      ap (λ rs. map row (api.xrefs_from x) ++ rs) (gather-append row xs ys)
      ∙ sym (append_assoc (map row (api.xrefs_from x)) (gather row xs) (gather row ys))

  over_heads-gather :
      (ida : Ida) (row : Xref → XrefRow) (seen : List XrefRow) (heads : List ℕ)
      → over_heads ida api row seen heads ≡ dedupe seen (gather row heads)
  unfolding over_heads gather
  over_heads-gather ida row seen [] = unfold dedupe in refl
  over_heads-gather ida row seen (ea ∷ heads) =
      rw
        (
          over_heads-gather ida row (dedupe seen (map row (api.xrefs_from ea))).1 heads,
          dedupe-append seen (map row (api.xrefs_from ea)) (gather row heads),
        )
        refl

  -- A test of rows that is a test of their head.
  keep_if-gather :
      (row : Xref → XrefRow) (t : XrefRow → Bool) (p : ℕ → Bool) (heads : List ℕ)
      → All (λ ea. All (λ x. t (row x) ≡ p ea) (api.xrefs_from ea)) heads
      → keep_if t (gather row heads) ≡ gather row (keep_if p heads)
  unfolding gather
  keep_if-gather row t p [] h = refl
  keep_if-gather row t p (ea ∷ heads) (h, hs) =
      keep_if-append t (map row (api.xrefs_from ea)) (gather row heads) ∙ elim (Bool-cases (p ea)) [
        | inl e ↦
            rw
              (
                e,
                keep_if-gather row t p heads hs,
                keep_if_whole t (map row (api.xrefs_from ea))
                    (All-map_of (λ r. t r ≡ true) row _ (All-map _ _ _ (λ x g. g ∙ e) h)),
              )
              refl
        | inr e ↦
            rw
              (
                e,
                keep_if-gather row t p heads hs,
                keep_if-none t (map row (api.xrefs_from ea))
                    (All-map_of (λ r. t r ≡ false) row _ (All-map _ _ _ (λ x g. g ∙ e) h)),
              )
              refl
      ]

map-agree : (f g : Xref → XrefRow) (xs : List Xref) → All (λ x. f x ≡ g x) xs → map f xs ≡ map g xs
map-agree f g [] h = refl
map-agree f g (x ∷ xs) (e, h) = rw (e, map-agree f g xs h) refl

module _ (ida : Ida) where
  from_agrees :
      (z : ℤ) (ea : ℕ) (x : Xref)
      → x.frm ≡ ea
      → ((make_xref_row ida x).from_ea == address z) ≡ (ea == address z)
  unfolding make_xref_row
  from_agrees z ea x e = ap (λ (n : ℕ). n == address z) e

  module _ (functions : FunctionsDocumented ida) where
    known_row :
        (a : ℕ) (f : Function) (ea : ℕ)
        → ida.get_func a ≡ some f
        → within f.start_ea f.end_ea ea ≡ true
        → (x : Xref) → x.frm ≡ ea
        → make_xref_row ida x ≡ func_row f x
    unfolding make_xref_row func_row
    known_row a f ea e inside x at =
        let found = functions.in_chunk ea f (functions.at_start a f e) inside in
        rw (get_from_func, at, found) refl

    -- The function that a row names, 0 where there is none.
    pub named_func :
        (z : ℤ) (ea : ℕ)
        → address z ≢ 0
        → (get_from_func ida ea == address z) ≡ is_address (int z) (func_ea ida (bare ea))
    unfolding get_from_func func_ea
    named_func z ea nonzero = elim (Option-cases (ida.get_func ea)) [
      | inl e ↦ rw (get_from_func, func_ea, e) (ground arith)
      | inr (f, e) ↦ rw (get_from_func, func_ea, e) refl
    ]

    func_agrees :
        (z : ℤ)
        → IsEntry ida (address z) (ida.get_func (address z))
        → address z ≢ 0
        → (ea : ℕ) (x : Xref) → x.frm ≡ ea
        → ((make_xref_row ida x).from_func == address z) ≡ lies_in (ida.get_func (address z)) ea
    unfolding make_xref_row
    func_agrees z entry nonzero ea x e =
        ap (λ (n : ℕ). get_from_func ida n == address z) e
        ∙ named_func z ea nonzero
        ∙ sym (lies_in-contained ida functions z entry ea)

module _ (ida : Ida) (api : XrefApi) where
  xrefs_of_segments-gather :
      (seen : List XrefRow) (starts : List ℕ)
      → xrefs_of_segments ida api seen starts
        ≡ (dedupe seen (gather api (make_xref_row ida) (over_segments ida (λ seg ea. ea) starts))).0
  unfolding xrefs_of_segments over_segments gather
  xrefs_of_segments-gather seen [] = unfold dedupe in refl
  xrefs_of_segments-gather seen (start ∷ starts) = elim (Option-cases (ida.getseg start)) [
    | inl e ↦ rw (xrefs_of_segments, over_segments, e) (xrefs_of_segments-gather seen starts)
    | inr (seg, e) ↦
        let heads = ida.heads (some seg.start_ea) (some seg.end_ea) in
        rw
          (
            xrefs_of_segments,
            over_segments,
            e,
            map-same heads,
            over_heads-gather api ida (make_xref_row ida) seen heads,
            gather-append api (make_xref_row ida) heads,
            dedupe-append,
          )
          (ap (λ rs. (dedupe seen (gather api (make_xref_row ida) heads)).0 ++ rs)
            (xrefs_of_segments-gather (dedupe seen (gather api (make_xref_row ida) heads)).1
              starts))
  ]

  module _ (every : List ℕ) (doc : IsDocumented ida every) where
    -- The scan yields each distinct row of the heads' cross references once.
    xrefs_all-gather : xrefs_all ida api ≡ (dedupe [] (gather api (make_xref_row ida) every)).0
    unfolding xrefs_all over_all
    xrefs_all-gather =
        xrefs_of_segments-gather [] ida.segment_starts
        ∙ ap (λ (heads : List ℕ). (dedupe [] (gather api (make_xref_row ida) heads)).0)
            (sym (map-same _)
              ∙ over_all-values ida every doc (λ (ea : ℕ). ea) (λ (ea : ℕ). ea) (λ seg ea. ea)
                  (λ g ea e. refl)
              ∙ map-same every)

    -- A test of rows that is a test of their head selects the rows of the heads that pass it.
    keep_if-xrefs_all :
        (t : XrefRow → Bool) (p : ℕ → Bool)
        → All (λ ea. All (λ x. t (make_xref_row ida x) ≡ p ea) (api.xrefs_from ea)) every
        → keep_if t (xrefs_all ida api)
          ≡ (dedupe [] (gather api (make_xref_row ida) (keep_if p every))).0
    keep_if-xrefs_all t p h =
        ap (keep_if t) xrefs_all-gather
        ∙ keep_if-dedupe t [] (gather api (make_xref_row ida) every)
        ∙ ap (λ rows. (dedupe [] rows).0) (keep_if-gather api (make_xref_row ida) t p every h)

    module _ (from_head : (ea : ℕ) → All (λ x. x.frm ≡ ea) (api.xrefs_from ea)) (z : ℤ) where
      gather-known :
          (functions : FunctionsDocumented ida) (a : ℕ) (f : Function)
          → ida.get_func a ≡ some f
          → (heads : List ℕ) → All (λ ea. within f.start_ea f.end_ea ea ≡ true) heads
          → gather api (make_xref_row ida) heads ≡ gather api (func_row f) heads
      unfolding gather
      gather-known functions a f e [] h = refl
      gather-known functions a f e (ea ∷ heads) (inside, h) =
          rw
            (
              map-agree (make_xref_row ida) (func_row f) (api.xrefs_from ea) (
                  All-map _ _ (api.xrefs_from ea)
                    (λ x at. known_row ida functions a f ea e inside x at) (from_head ea)),
              gather-known functions a f e heads h,
            )
            refl

      func_rows :
          (functions : FunctionsDocumented ida) (o : Option Function)
          → ida.get_func (address z) ≡ o
          → (dedupe [] (gather api (make_xref_row ida) (keep_if (lies_in o) every))).0
            ≡ xrefs_from_func ida api (address z)
      unfolding xrefs_from_func gather
      func_rows functions none e =
          rw
            (
              xrefs_from_func,
              e,
              keep_if-none (lies_in none) every (All-always (λ x. false ≡ false) every (λ x. refl)),
            )
            (unfold dedupe in refl)
      func_rows functions (some f) e =
          rw
            (
              xrefs_from_func,
              e,
              doc.heads_lem f.start_ea f.end_ea (functions.end_small _ f e),
              over_heads-gather api ida (func_row f) []
                  (keep_if (within f.start_ea f.end_ea) every),
              gather-known functions (address z) f e (keep_if (within f.start_ea f.end_ea) every)
                  (All-keep_if _ (within f.start_ea f.end_ea) every (λ ea h. h)),
            )
            refl

      -- The plan for the source of a reference reads, at an item head, the rows of the scan that
      -- come from that address, each once and in the same order.
      pub xrefs_from-exact :
          any (λ ea. ea == address z) every ≡ true
          → filter ida api 1 (int z ∷ [])
            ≡ ok (keep_if (λ row. row.from_ea == address z) (xrefs_all ida api))
      unfolding filter xrefs_from gather
      xrefs_from-exact is_head = ap ok (
          sym (
            keep_if-xrefs_all (λ row. row.from_ea == address z) (λ ea. ea == address z)
              (All-always _ every
                (λ ea. All-map _ _ (api.xrefs_from ea) (from_agrees ida z ea) (from_head ea)))
            ∙ rw (only_head (address z) every doc.ascending is_head)
                (ap (λ rows. (dedupe [] rows).0) (append-nil _))))

      -- The plan for a function's address, where it is the start of a function of one chunk or,
      -- not being 0, lies in none, reads the rows of the scan that the function contains, each once and
      -- in the same order; where scans ascend and IDA's references from an address start there.
      pub xrefs_from_func-exact :
          FunctionsDocumented ida
          → IsEntry ida (address z) (ida.get_func (address z))
          → address z ≢ 0
          → filter ida api 6 (int z ∷ [])
            ≡ ok (keep_if (λ row. row.from_func == address z) (xrefs_all ida api))
      unfolding filter
      xrefs_from_func-exact functions entry nonzero = ap ok (
          sym (
            keep_if-xrefs_all (λ row. row.from_func == address z)
              (lies_in (ida.get_func (address z)))
              (All-always _ every (λ ea.
                All-map _ _ (api.xrefs_from ea) (func_agrees ida functions z entry nonzero ea)
                  (from_head ea)))
            ∙ func_rows functions (ida.get_func (address z)) refl))
