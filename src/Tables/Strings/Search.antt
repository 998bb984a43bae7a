-- ===== src/Tables/Strings/Search.antt =====
-- The binary search of src/ida_bridge/sql/tables/core.py against the scan of the string list.
use ida_bridge.Common.{
  ℕ, zero, suc, ◌+◌, ◌-◌, ◌/◌, ◌≤◌, ◌<◌, ◌≡◌, refl, ap, sym, ◌∙◌, subst, inl, inr, Bool, true,
  false, some, List, [], ◌∷◌, ltb, number_key, ◌==◌, keep_if, All, length, get_elem?, Bool-cases,
  arith,
}
use ida_bridge.Common.Int.{ℤ}
use ida_bridge.Sql.U64.{int}
use ida_bridge.Tables.Cursor.{ok}
use ida_bridge.Tables.Bounds.{address}
use ida_bridge.Tables.Lists.{keep_if-none}
use ida_bridge.Tables.Strings.{
  StringRow, StringList, string_row_at_index, rows_from, strings_all, search, string_at_ea, filter,
}

-- Each string starts past the one before it.
abbrev pub IsSorted : List StringRow → Type 0
IsSorted [] = Unit
IsSorted (x ∷ xs) = All (λ y. x.ea < y.ea) xs × IsSorted xs

-- The string list is a list of rows in ascending order.
pub record IsListed (api : StringList) (rows : List StringRow) : Type 0 where
  pub qty_lem : api.qty ≡ length rows
  pub item_lem : (i : ℕ) → api.item i ≡ get_elem? rows i
  pub sorted : IsSorted rows

get_elem?-in_range :
    (xs : List StringRow) (i : ℕ) → i < length xs → (x : StringRow) × (get_elem? xs i ≡ some x)
get_elem?-in_range [] i h = elim h [ ]
get_elem?-in_range (x ∷ xs) zero h = (x, refl)
get_elem?-in_range (x ∷ xs) (suc i) h = get_elem?-in_range xs i (omega arith)

All-get_elem? {κ} :
    (P : StringRow → Type κ) (xs : List StringRow)
    → ((i : ℕ) (x : StringRow) → get_elem? xs i ≡ some x → P x)
    → All P xs
All-get_elem? P [] h = tt
All-get_elem? P (x ∷ xs) h = (h 0 x refl, All-get_elem? P xs (λ i y e. h (suc i) y e))

get_elem?-All {κ} :
    (P : StringRow → Type κ) (xs : List StringRow)
    → All P xs
    → (i : ℕ) (x : StringRow) → get_elem? xs i ≡ some x
    → P x
get_elem?-All P [] h i x e = absurd (cc)
get_elem?-All P (y ∷ xs) h zero x e = let same : y ≡ x = ground arith in subst P same h.0
get_elem?-All P (y ∷ xs) h (suc i) x e = get_elem?-All P xs h.1 i x e

ascending :
    (xs : List StringRow)
    → IsSorted xs
    → (i j : ℕ) (x y : StringRow) → get_elem? xs i ≡ some x
    → get_elem? xs j ≡ some y
    → i < j
    → x.ea < y.ea
ascending [] s i j x y e h lt = absurd (cc)
ascending (z ∷ xs) s zero zero x y e h lt = absurd (omega arith)
ascending (z ∷ xs) s zero (suc j) x y e h lt =
    let same : z ≡ x = ground arith in rw (sym same) (get_elem?-All (λ w. z.ea < w.ea) xs s.0 j y h)
ascending (z ∷ xs) s (suc i) zero x y e h lt = absurd (omega arith)
ascending (z ∷ xs) s (suc i) (suc j) x y e h lt = ascending xs s.1 i j x y e h (omega arith)

get_elem?-past :
    (xs : List StringRow) (i : ℕ) (x : StringRow) → get_elem? xs i ≡ some x → length xs ≤ i → ⊥
get_elem?-past [] i x e le = cc
get_elem?-past (y ∷ xs) zero x e le = omega arith
get_elem?-past (y ∷ xs) (suc i) x e le = get_elem?-past xs i x e (omega arith)

abbrev hit : ℕ → StringRow → Bool
hit ea row = row.ea == ea

-- One row of a sorted list has the address of a row that is there.
one_hit :
    (xs : List StringRow)
    → IsSorted xs
    → (i : ℕ) (x : StringRow) (ea : ℕ) → get_elem? xs i ≡ some x
    → x.ea ≡ ea
    → keep_if (hit ea) xs ≡ x ∷ []
one_hit [] s i x ea e h = absurd (cc)
one_hit (y ∷ xs) s zero x ea e h =
    let same : y ≡ x = ground arith in
    let at : hit ea y ≡ true = rw same (ground arith) in
    let rest = keep_if-none (hit ea) xs (
      All-get_elem? (λ w. hit ea w ≡ false) xs
        (λ j w g. later w (rw same at (get_elem?-All (λ v. y.ea < v.ea) xs s.0 j w g)))) in
    rw (at, rest) (ap (λ w. w ∷ []) same)
  where
    later : (w : StringRow) → x.ea < w.ea → hit ea w ≡ false
    later w lt = ground arith
one_hit (y ∷ xs) s (suc i) x ea e h =
    let lt : y.ea < x.ea = get_elem?-All (λ w. y.ea < w.ea) xs s.0 i x e in
    let miss : hit ea y ≡ false = ground arith in rw miss (one_hit xs s.1 i x ea e h)

module _ (api : StringList) (rows : List StringRow) (doc : IsListed api rows) (ea : ℕ) where
  -- Strings before `lo` start below the address, those from `top` on above it.
  abbrev Below : ℕ → Type 0
  Below lo = (i : ℕ) (x : StringRow) → get_elem? rows i ≡ some x → i < lo → x.ea < ea

  abbrev Above : ℕ → Type 0
  Above top = (i : ℕ) (x : StringRow) → get_elem? rows i ≡ some x → top ≤ i → ea < x.ea

  row_at : (i : ℕ) (x : StringRow) → get_elem? rows i ≡ some x → string_row_at_index api i ≡ ok x
  unfolding string_row_at_index
  row_at i x e = rw (string_row_at_index, doc.item_lem i, e) refl

  next_lower : (k : ℕ) (x : StringRow) → get_elem? rows k ≡ some x → x.ea < ea → Below (k + 1)
  next_lower k x e lt i y h le = elim (Bool-cases (i == k)) [
    | inl same ↦
        let eq : i ≡ k = ground arith in
        let row : y ≡ x = ground (arith, ap (λ (n : ℕ). get_elem? rows n) eq) in rw row lt
    | inr differ ↦
        let before : i < k = ground arith in
        omega (arith, ascending rows doc.sorted i k y x h e before)
  ]

  next_upper : (k : ℕ) (x : StringRow) → get_elem? rows k ≡ some x → ea < x.ea → Above k
  next_upper k x e lt i y h le = elim (Bool-cases (i == k)) [
    | inl same ↦
        let eq : i ≡ k = ground arith in
        let row : y ≡ x = ground (arith, ap (λ (n : ℕ). get_elem? rows n) eq) in rw row lt
    | inr differ ↦
        let after : k < i = ground arith in
        omega (arith, ascending rows doc.sorted k i x y e h after)
  ]

  missing : (lo top : ℕ) → top ≤ lo → Below lo → Above top → keep_if (hit ea) rows ≡ []
  missing lo top le low high = keep_if-none (hit ea) rows (
      All-get_elem? (λ w. hit ea w ≡ false) rows
        (λ i x e. elim (Bool-cases (ltb i lo)) [
          | inl under ↦ ground (arith, low i x e)
          | inr over ↦ ground (arith, high i x e)
        ]))

  search-exact :
      (rounds lo top : ℕ)
      → lo ≤ top
      → top < lo + rounds
      → top ≤ length rows
      → Below lo
      → Above top
      → search api rounds ea lo top ≡ ok (keep_if (hit ea) rows)
  unfolding search
  search-exact zero lo top le enough inside low high = absurd (omega arith)
  search-exact (suc rounds) lo top le enough inside low high = elim (Bool-cases (ltb lo top)) [
    | inr done ↦ rw (done, missing lo top (ground arith) low high) refl
    | inl more ↦
        let index = (lo + (top - 1)) / 2 in
        let (x, e) = get_elem?-in_range rows index (ground arith) in
        rw (more, row_at index x e)
          (elim (Bool-cases (x.ea == ea)) [
            | inl same ↦ rw (same, one_hit rows doc.sorted index x ea e (ground arith)) refl
            | inr differ ↦ elim (Bool-cases (ltb x.ea ea)) [
              | inl under ↦
                  rw (differ, under)
                    (search-exact rounds (index + 1) top (ground arith) (ground arith) inside
                      (next_lower index x e (ground arith)) high)
              | inr over ↦
                  rw (differ, over)
                    (search-exact rounds lo index (ground arith) (ground arith) (ground arith) low
                      (next_upper index x e (ground arith)))
            ]
          ])
  ]

  -- The search ends within as many rounds as there are strings, and finds what a scan would keep.
  string_at_ea-exact : string_at_ea api ea ≡ ok (keep_if (hit ea) rows)
  unfolding string_at_ea
  string_at_ea-exact =
      search-exact (suc api.qty) 0 api.qty (omega arith) (omega arith) (omega (arith, doc.qty_lem))
        (λ i x e lt. absurd (omega arith))
        (λ i x e le. absurd (get_elem?-past rows i x e (omega (arith, doc.qty_lem))))

  rows_from-exact :
      (rest : List StringRow) (index : ℕ)
      → ((i : ℕ) → get_elem? rest i ≡ get_elem? rows (index + i))
      → rows_from api (length rest) index ≡ ok rest
  unfolding rows_from
  rows_from-exact [] index same = refl
  rows_from-exact (x ∷ rest) index same =
      let here : index ≡ index + 0 = omega arith in
      let first : get_elem? rows index ≡ some x =
        ap (λ (n : ℕ). get_elem? rows n) here ∙ sym (same 0) in
      rw
        (
          row_at index x first,
          rows_from-exact rest (index + 1)
              (λ i. same (suc i) ∙ ap (λ (n : ℕ). get_elem? rows n) (omega arith)),
        )
        refl

  strings_all-exact : strings_all api ≡ ok rows
  unfolding strings_all
  strings_all-exact =
      rw doc.qty_lem (rows_from-exact rows 0 (λ i. ap (λ (n : ℕ). get_elem? rows n) (omega arith)))

-- On a string list in ascending order the binary search for an address ends, and gives exactly the
-- rows of the scan that start there.
pub strings_exact :
    (api : StringList) (rows : List StringRow) (doc : IsListed api rows) (z : ℤ)
    → (filter api 0 [] ≡ ok rows)
      × (filter api 1 (int z ∷ []) ≡ ok (keep_if (λ row. row.ea == address z) rows))
unfolding filter
strings_exact api rows doc z =
    (strings_all-exact api rows doc (address z), string_at_ea-exact api rows doc (address z))
