-- ===== src/Tables/Xrefs.antt =====
-- src/ida_bridge/sql/tables/analysis.py: the table of cross references.
pub mod Exact
use Prim.Native.Nat.{bit_and}
use ida_bridge.Common.{
  ℕ, String, Bool, true, false, ◌&&◌, Option, none, some, List, [], ◌∷◌, ◌++◌, map, number_key,
  text_key, ◌==◌, if◌then◌else◌, ◌≡◌, ◌↔◌, refl, same_iff, arith,
}
use ida_bridge.Common.Key.{Key}
use ida_bridge.Common.Dict.{Dict, get}
use ida_bridge.Sql.U64.{SqlValue}
use ida_bridge.Tables.Index.{IndexInfo, find_eq_constraint, eq_plan, plan}
use ida_bridge.Tables.Cursor.{ArgSpec, Plans, Result, ok, err, ◌>>=◌, decode_constraint_args, arg}
use ida_bridge.Tables.Ida.{Ida, Segment, Function}
use ida_bridge.Tables.Bounds.{some_address}
use ida_bridge.Tables.Dedupe.{dedupe}

abbrev pub full_scan : ℕ
full_scan = 0

abbrev pub xref_from : ℕ
xref_from = 1

abbrev pub xref_to : ℕ
xref_to = 2

abbrev pub xref_from_func : ℕ
xref_from_func = 6

-- By what is found: an equality on `to_ea` (column 1), else on `from_ea` (column 0), else on
-- `from_func` (column 2).
unfoldable pub choose_plan : IndexInfo → Option ℕ → Option ℕ → Option ℕ → IndexInfo
unfolding eq_plan plan
choose_plan ii (some i) from func = eq_plan i xref_to 10 5 ii
choose_plan ii none (some i) func = eq_plan i xref_from 10 5 ii
choose_plan ii none none (some i) = eq_plan i xref_from_func 100 20 ii
choose_plan ii none none none = plan full_scan 1000000 100000 ii

-- `XrefsTable.BestIndexObject`
unfoldable pub best_index : IndexInfo → IndexInfo
unfolding choose_plan
best_index ii =
    choose_plan ii (find_eq_constraint ii 1) (find_eq_constraint ii 0) (find_eq_constraint ii 2)

abbrev pub plans : Plans
plans =
    (xref_to, record { name = "to_ea"; u64 = true; what = none } ∷ [])
    ∷ (xref_from, record { name = "from_ea"; u64 = true; what = none } ∷ [])
    ∷ (xref_from_func, record { name = "from_func"; u64 = true; what = none } ∷ [])
    ∷ []

-- What `XrefsFrom` and `XrefsTo` yield.
pub record Xref : Type 0 where
  pub frm : ℕ
  pub to : ℕ
  pub kind : ℕ
  pub iscode : ℕ

pub record XrefRow : Type 0 where
  pub from_ea : ℕ
  pub to_ea : ℕ
  pub from_func : ℕ
  pub kind : ℕ
  pub type_name : Option String
  pub is_code : ℕ

abbrev pub xref_type_names : Dict ℕ String
xref_type_names =
    (0, "unknown")
    ∷ (1, "offset")
    ∷ (2, "write")
    ∷ (3, "read")
    ∷ (4, "text")
    ∷ (5, "info")
    ∷ (6, "enum")
    ∷ (16, "call")
    ∷ (17, "call")
    ∷ (18, "jump")
    ∷ (19, "jump")
    ∷ (21, "flow")
    ∷ []

unfoldable pub xref_type_name : ℕ → Option String
unfolding get
xref_type_name kind = get (bit_and kind 0x1F) xref_type_names

abbrev same_name : Option String → Option String → Bool
same_name none none = true
same_name (some a) (some b) = a == b
same_name _ _ = false

abbrev pub same_row : XrefRow → XrefRow → Bool
same_row a b =
    a.from_ea == b.from_ea
    && (a.to_ea == b.to_ea
        && (a.from_func == b.from_func
            && (a.kind == b.kind && (same_name a.type_name b.type_name && a.is_code == b.is_code))))

same_name_iff : (a b : Option String) → (same_name a b ≡ true) ↔ (a ≡ b)
same_name_iff none none = ground arith
same_name_iff none (some b) = ground arith
same_name_iff (some a) none = ground arith
same_name_iff (some a) (some b) = ground (arith, same_iff a b)

pub same_row_iff : (a b : XrefRow) → (same_row a b ≡ true) ↔ (a ≡ b)
same_row_iff a b = (
  λ h. ground (arith, (same_name_iff a.type_name b.type_name).0),
  λ e. rw e (ground (arith, (same_name_iff b.type_name b.type_name).1 refl)),
)

-- The tuples of a `seen` set are compared by value.
instance abbrev pub row_key : Key XrefRow
row_key = record { same = same_row; same_iff = same_row_iff }

-- What the table asks IDA beside the heads: `XrefsTo(ea, 0)` and `XrefsFrom(ea, 0)`.
pub record XrefApi : Type 0 where
  pub xrefs_to : ℕ → List Xref
  pub xrefs_from : ℕ → List Xref

-- The row of a cross reference from a function that is known.
unfoldable pub func_row : Function → Xref → XrefRow
unfolding xref_type_name
func_row func xref = record {
  from_ea = xref.frm;
  to_ea = xref.to;
  from_func = func.start_ea;
  kind = xref.kind;
  type_name = xref_type_name xref.kind;
  is_code = xref.iscode;
}

module _ (ida : Ida) where
  -- `_get_from_func`
  unfoldable pub get_from_func : ℕ → ℕ
  get_from_func ea = elim (ida.get_func ea) [ some func ↦ func.start_ea | none ↦ 0 ]

  unfoldable pub make_xref_row : Xref → XrefRow
  unfolding get_from_func xref_type_name
  make_xref_row xref = record {
    from_ea = xref.frm;
    to_ea = xref.to;
    from_func = get_from_func xref.frm;
    kind = xref.kind;
    type_name = xref_type_name xref.kind;
    is_code = xref.iscode;
  }

module _ (ida : Ida) (api : XrefApi) where
  unfoldable pub xrefs_to : ℕ → List XrefRow
  unfolding make_xref_row dedupe
  xrefs_to ea = (dedupe [] (map (make_xref_row ida) (api.xrefs_to ea))).0

  unfoldable pub xrefs_from : ℕ → List XrefRow
  unfolding make_xref_row dedupe
  xrefs_from ea = (dedupe [] (map (make_xref_row ida) (api.xrefs_from ea))).0

  -- `for ea in heads: for xref in XrefsFrom(ea, 0): …` with one set; the rows and the set.
  unfoldable pub over_heads : (Xref → XrefRow) → List XrefRow → List ℕ → List XrefRow × List XrefRow
  unfolding dedupe
  over_heads row seen [] = ([], seen)
  over_heads row seen (ea ∷ heads) =
      let (rows, seen') = dedupe seen (map row (api.xrefs_from ea)) in
      let (rest, seen'') = over_heads row seen' heads in (rows ++ rest, seen'')

  unfoldable pub xrefs_from_func : ℕ → List XrefRow
  unfolding func_row over_heads
  xrefs_from_func ea = elim (ida.get_func ea) [
    | none ↦ []
    | some func ↦
        (over_heads (func_row func) [] (ida.heads (some func.start_ea) (some func.end_ea))).0
  ]

  unfoldable pub xrefs_of_segments : List XrefRow → List ℕ → List XrefRow
  unfolding make_xref_row over_heads
  xrefs_of_segments seen [] = []
  xrefs_of_segments seen (start ∷ starts) = elim (ida.getseg start) [
    | none ↦ xrefs_of_segments seen starts
    | some seg ↦
        let heads = ida.heads (some seg.start_ea) (some seg.end_ea) in
        let (rows, seen') = over_heads (make_xref_row ida) seen heads in
        rows ++ xrefs_of_segments seen' starts
  ]

  unfoldable pub xrefs_all : List XrefRow
  unfolding xrefs_of_segments
  xrefs_all = xrefs_of_segments [] ida.segment_starts

  unfoldable pub by_plan : ℕ → Dict String SqlValue → Result (List XrefRow)
  unfolding arg some_address xrefs_to xrefs_from xrefs_from_func xrefs_all
  by_plan idx_num args =
      if idx_num == xref_to
      then (do value ← arg "to_ea" args; ea ← some_address value; ok (xrefs_to ea))
      else if idx_num == xref_from
      then (do value ← arg "from_ea" args; ea ← some_address value; ok (xrefs_from ea))
      else if idx_num == xref_from_func
      then (do value ← arg "from_func" args; ea ← some_address value; ok (xrefs_from_func ea))
      else ok xrefs_all

  -- `XrefsCursor.Filter`: the rows that the cursor is set to.
  unfoldable pub filter : ℕ → List SqlValue → Result (List XrefRow)
  unfolding by_plan decode_constraint_args
  filter idx_num argv = do
    args ← decode_constraint_args plans "xrefs" idx_num argv
    by_plan idx_num args
