-- ===== src/Tables/Ida.antt =====
-- What the tables of src/ida_bridge/sql/tables ask IDA: its API is a parameter, and what the
-- tables rely on is stated as laws of it.
use ida_bridge.Common.{
  ℕ, ◌^◌, ◌≤◌, ◌<◌, ◌≡◌, String, Bool, true, false, ◌&&◌, ◌||◌, Option, none, some, List, [], ◌∷◌,
  ltb, leb, keep_if, All,
}
use ida_bridge.Sql.U64.{SqlValue, text}

-- `func_t` and `segment_t`: half-open ranges of addresses.
pub record Function : Type 0 where
  pub start_ea : ℕ
  pub end_ea : ℕ

pub record Segment : Type 0 where
  pub start_ea : ℕ
  pub end_ea : ℕ
  pub name : String

pub record Ida : Type 0 where
  -- `idautils.Segments()`, `ida_segment.getseg`, and `getnseg` of 0, 1, … below `get_segm_qty()`
  pub segment_starts : List ℕ
  pub getseg : ℕ → Option Segment
  pub segments : List (Option Segment)
  -- `idautils.Heads(start, end)`, where None stands for an end of the database
  pub heads : Option ℕ → Option ℕ → List ℕ
  pub get_func : ℕ → Option Function
  pub get_item_size : ℕ → ℕ
  pub get_flags : ℕ → ℕ
  pub is_code : ℕ → Bool
  pub is_strlit : ℕ → Bool
  pub is_struct : ℕ → Bool
  pub is_align : ℕ → Bool
  pub is_data : ℕ → Bool
  pub print_insn_mnem : ℕ → String
  pub get_disasm : ℕ → String
  pub decode_insn : ℕ → ℕ
  -- Python's `str` of a value that SQLite hands over
  pub str : SqlValue → String

abbrev pub within : ℕ → ℕ → ℕ → Bool
within start end ea = leb start ea && ltb ea end

abbrev pub Ascending : List ℕ → Type 0
Ascending [] = Unit
Ascending (x ∷ xs) = All (λ y. x < y) xs × Ascending xs

-- Some segment of the list holds the address.
abbrev pub covers : List (Option Segment) → ℕ → Bool
covers [] ea = false
covers (none ∷ gs) ea = covers gs ea
covers (some g ∷ gs) ea = within g.start_ea g.end_ea ea || covers gs ea

-- The segments stand in ascending order and do not overlap, both enumerations agree, and
-- `getseg` finds a segment from each of its addresses.
abbrev pub InOrder : (ℕ → Option Segment) → ℕ → List ℕ → List (Option Segment) → Type 0
InOrder getseg lo [] [] = Unit
InOrder getseg lo (s ∷ starts) (some g ∷ gs) =
    (getseg s ≡ some g)
    × (lo ≤ g.start_ea)
    × (g.start_ea ≤ g.end_ea)
    × (g.end_ea < 2 ^ 64)
    × ((ea : ℕ) → within g.start_ea g.end_ea ea ≡ true → getseg ea ≡ some g)
    × InOrder getseg g.end_ea starts gs
InOrder getseg lo _ _ = ⊥

-- The item heads of the database are one ascending list, every head lies in a segment, and
-- `Heads` yields those of a range.
pub record IsDocumented (ida : Ida) (every_head : List ℕ) : Type 0 where
  pub ascending : Ascending every_head
  pub in_order : InOrder ida.getseg 0 ida.segment_starts ida.segments
  pub covered : All (λ ea. covers ida.segments ea ≡ true) every_head
  pub heads_lem :
      (start end : ℕ)
      → end < 2 ^ 64
      → ida.heads (some start) (some end) ≡ keep_if (within start end) every_head
  pub str_lem : (s : String) → ida.str (text s) ≡ s
