-- ===== src/Examples/Names.antt =====
-- The table of names (src/ida_bridge/sql/tables/core.py) over two names.
use ida_bridge.Common.{
  ℕ, zero, suc, ◌<◌, ◌≡◌, ◌≢◌, refl, sym, inl, inr, String, true, ◌||◌, Option, some, [], ◌∷◌,
  keep_if, number_key, text_key, ◌==◌, same_iff, if◌then◌else◌, Bool-cases, arith,
}
use ida_bridge.Common.Int.{pos}
use ida_bridge.Sql.U64.{SqlValue, int, text}
use ida_bridge.Tables.Cursor.{ok, or_text}
use ida_bridge.Tables.Bounds.{address}
use ida_bridge.Tables.Names.{NameList, NameRow, badaddr, filter, names_all}
use ida_bridge.Tables.Names.Exact.{IsListed, names_exact}

abbrev text_of : SqlValue → String
text_of (text s) = s
text_of _ = ""

abbrev address_at : ℕ → ℕ
address_at zero = 16
address_at (suc i) = 32

abbrev name_at : ℕ → Option String
name_at zero = some "start"
name_at (suc i) = some "data"

-- `unk_40` is a dummy name, which is not listed.
abbrev resolve : String → ℕ
resolve name =
    if name == "start"
    then 16
    else if name == "data"
    then 32
    else if name == "unk_40"
    then 40
    else badaddr

abbrev two_names : NameList
two_names = record {
  get_nlist_size = 2;
  get_nlist_ea = address_at;
  get_nlist_name = name_at;
  is_in_nlist = λ ea. ea == 16 || ea == 32;
  get_nlist_idx = λ ea. if ea == 16 then pos 0 else pos 1;
  get_name_ea = resolve;
  get_flags = λ ea. 0;
  has_user_name = λ flags. true;
  str = text_of;
}

place_of : (ea : ℕ) → (ea == 16 || ea == 32) ≡ true → (i : ℕ) × (i < 2) × (address_at i ≡ ea)
place_of ea h = elim (Bool-cases (ea == 16)) [
  | inl e ↦ (0, omega arith, sym ((same_iff ea 16).0 e))
  | inr e ↦ (1, omega arith, (let here : ea ≡ 32 = ground arith in sym here))
]

listed_at : (i : ℕ) → i < 2 → two_names.is_in_nlist (address_at i) ≡ true
listed_at zero lt = refl
listed_at (suc i) lt = refl

index_at : (i : ℕ) → i < 2 → two_names.get_nlist_idx (address_at i) ≡ pos i
index_at zero lt = refl
index_at (suc zero) lt = refl
index_at (suc (suc i)) lt = absurd (omega arith)

resolved_at : (i : ℕ) → i < 2 → resolve (or_text (name_at i) "") ≡ address_at i
resolved_at zero lt = refl
resolved_at (suc i) lt = refl

valid_at : (i : ℕ) → i < 2 → address_at i ≢ badaddr
valid_at zero lt e = absurd (omega (arith, e))
valid_at (suc i) lt e = absurd (omega (arith, e))

two_names-IsListed : IsListed two_names
two_names-IsListed = record {
  place = place_of;
  listed = listed_at;
  index = index_at;
  resolved = resolved_at;
  valid = valid_at;
  str_lem = λ s. refl;
}

-- The search by name is for the dummy name, which resolves to an address that is not listed.
names_exact_example :
    (filter two_names 1 (int (pos 32) ∷ [])
      ≡ ok (keep_if (λ (row : NameRow). row.ea == address (pos 32)) (names_all two_names)))
    × (filter two_names 2 (text "unk_40" ∷ [])
        ≡ ok (keep_if (λ (row : NameRow). row.name == "unk_40") (names_all two_names)))
names_exact_example = names_exact two_names two_names-IsListed (pos 32) "unk_40"
