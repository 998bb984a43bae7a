-- ===== src/Tables/Funcs/Exact.antt =====
-- Both searches of the table of functions (src/ida_bridge/sql/tables/core.py) against its scan.
use ida_bridge.Common.{
  ℕ, ◌≡◌, refl, ap, sym, ◌∙◌, subst, inl, inr, String, Bool, true, false, Option, none, some, List,
  [], ◌∷◌, any, number_key, text_key, ◌==◌, same_iff, same_self, keep_if, All, if◌then◌else◌,
  Bool-cases, arith,
}
use ida_bridge.Common.Int.{ℤ}
use ida_bridge.Sql.U64.{int, text}
use ida_bridge.Tables.Cursor.{ok}
use ida_bridge.Tables.Bounds.{address}
use ida_bridge.Tables.Ida.{Ascending}
use ida_bridge.Tables.Lists.{keep_if-cong, keep_if-none, All-map, All-always}
use ida_bridge.Tables.Scan.{only_head}
use ida_bridge.Tables.Names.{badaddr}
use ida_bridge.Tables.Funcs.{
  FuncInfo, FuncRow, FuncApi, starting_at, func_row, with_row, rows_of, funcs_all, func_at_ea,
  named, func_named, filter,
}

-- What IDA documents of its functions: `Functions` gives the starts of all of them in ascending
-- order, none is at `BADADDR`, and the name of a function resolves to its start. Of another name,
-- `get_name_ea` may find any address.
pub record IsListed (api : FuncApi) (db : api.Db) : Type 0 where
  pub ascending : Ascending (api.functions db)
  pub complete :
      (ea : ℕ) (f : FuncInfo)
      → api.get_func db ea ≡ some f
      → any (λ start. start == f.start_ea) (api.functions db) ≡ true
  pub nowhere : api.get_func db badaddr ≡ none
  pub resolved : All (λ ea. api.get_name_ea db (api.get_func_name db ea) ≡ ea) (api.functions db)
  pub str_lem : (s : String) → api.str (text s) ≡ s

any-none : (a : ℕ) (xs : List ℕ) → any (λ x. x == a) xs ≡ false → All (λ x. (x == a) ≡ false) xs
any-none a [] h = tt
any-none a (x ∷ xs) h = (ground arith, any-none a xs (ground arith))

module _ (api : FuncApi) (db : api.Db) where
  func_row-ea :
      (ea : ℕ) (o : Option FuncInfo) (row : FuncRow) → starting_at api ea o ≡ some row → row.ea ≡ ea
  unfolding starting_at
  func_row-ea ea none row h = absurd (cc)
  func_row-ea ea (some f) row h = elim (Bool-cases (f.start_ea == ea)) [
    | inl e ↦
        let h' = rw e at h in
        let same : record { ea = ea; func = f } ≡ row = ground arith in
        sym (ap (λ (r : FuncRow). r.ea) same)
    | inr e ↦ absurd (let h' = rw e at h in cc)
  ]

  row-ea : (ea : ℕ) (row : FuncRow) → func_row api db ea ≡ some row → row.ea ≡ ea
  unfolding func_row
  row-ea ea row h = func_row-ea ea (api.get_func db ea) row h

  keep_if-with_row :
      (q : ℕ → Bool) (ea : ℕ) (b : Bool)
      → q ea ≡ b
      → (o : Option FuncRow) → ((row : FuncRow) → o ≡ some row → row.ea ≡ ea)
      → (rows : List FuncRow)
      → keep_if (λ row. q row.ea) (with_row api o rows) ≡ (
          if b
          then with_row api o (keep_if (λ row. q row.ea) rows)
          else keep_if (λ row. q row.ea) rows)
  keep_if-with_row q ea true e none at rows = refl
  keep_if-with_row q ea false e none at rows = refl
  keep_if-with_row q ea true e (some row) at rows =
      let hit : q row.ea ≡ true = ap q (at row refl) ∙ e in rw hit refl
  keep_if-with_row q ea false e (some row) at rows =
      let miss : q row.ea ≡ false = ap q (at row refl) ∙ e in rw miss refl

  -- A test of rows by their start selects the rows of the starts that pass it.
  keep_if-rows_of :
      (q : ℕ → Bool) (eas : List ℕ)
      → keep_if (λ row. q row.ea) (rows_of api db eas) ≡ rows_of api db (keep_if q eas)
  unfolding rows_of
  keep_if-rows_of q [] = refl
  keep_if-rows_of q (ea ∷ eas) = elim (Bool-cases (q ea)) [
    | inl hit ↦ rw hit (
        keep_if-with_row q ea true hit (func_row api db ea) (row-ea ea) (rows_of api db eas)
        ∙ ap (with_row api (func_row api db ea)) (keep_if-rows_of q eas))
    | inr miss ↦ rw miss (
        keep_if-with_row q ea false miss (func_row api db ea) (row-ea ea) (rows_of api db eas)
        ∙ keep_if-rows_of q eas)
  ]

module _ (api : FuncApi) (db : api.Db) (doc : IsListed api db) where
  unlisted-start :
      (a : ℕ) (o : Option FuncInfo)
      → api.get_func db a ≡ o
      → any (λ ea. ea == a) (api.functions db) ≡ false
      → starting_at api a o ≡ none
  unfolding starting_at
  unlisted-start a none e out = refl
  unlisted-start a (some f) e out = elim (Bool-cases (f.start_ea == a)) [
    | inr h ↦ rw h refl
    | inl h ↦
        let listed = doc.complete a f e in
        let same : f.start_ea ≡ a = (same_iff _ _).0 h in
        let listed' : any (λ ea. ea == a) (api.functions db) ≡ true =
          subst (λ (n : ℕ). any (λ ea. ea == n) (api.functions db) ≡ true) same listed in
        absurd (cc)
  ]

  unlisted : (a : ℕ) → any (λ ea. ea == a) (api.functions db) ≡ false → func_row api db a ≡ none
  unfolding func_row
  unlisted a out = unlisted-start a (api.get_func db a) refl out

  rows_of-start :
      (a : ℕ)
      → rows_of api db (keep_if (λ ea. ea == a) (api.functions db))
        ≡ with_row api (func_row api db a) []
  unfolding rows_of
  rows_of-start a = elim (Bool-cases (any (λ ea. ea == a) (api.functions db))) [
    | inl here ↦ rw (only_head a (api.functions db) doc.ascending here) refl
    | inr out ↦
        rw
          (
            keep_if-none (λ ea. ea == a) (api.functions db) (any-none a (api.functions db) out),
            unlisted a out,
          )
          refl
  ]

  func_at_ea-exact : (a : ℕ) → func_at_ea api db a ≡ keep_if (λ row. row.ea == a) (funcs_all api db)
  unfolding func_at_ea funcs_all
  func_at_ea-exact a =
      sym (keep_if-rows_of api db (λ ea. ea == a) (api.functions db) ∙ rows_of-start a)

  -- The test of a row by its name, and by the one start that the name can be at.
  abbrev has_name : String → ℕ → Bool
  has_name name ea = api.get_func_name db ea == name

  abbrev at_name : String → ℕ → Bool
  at_name name ea =
      let start = api.get_name_ea db name in if has_name name start then ea == start else false

  apart :
      (name : String) (ea start : ℕ)
      → has_name name ea ≡ false
      → has_name name start ≡ true
      → (ea == start) ≡ false
  apart name ea start miss there = elim (Bool-cases (ea == start)) [
    | inr h ↦ h
    | inl h ↦
        let same : ea ≡ start = (same_iff _ _).0 h in
        absurd (let e = sym (ap (has_name name) same ∙ there) ∙ miss in cc)
  ]

  has_name-at_name :
      (name : String) (ea : ℕ)
      → api.get_name_ea db (api.get_func_name db ea) ≡ ea
      → has_name name ea ≡ at_name name ea
  has_name-at_name name ea resolved = elim (Bool-cases (has_name name ea)) [
    | inl hit ↦
        let start : api.get_name_ea db name ≡ ea =
          ap (api.get_name_ea db) (sym ((same_iff _ _).0 hit)) ∙ resolved in
        rw (start, hit, same_self ea) refl
    | inr miss ↦ elim (Bool-cases (has_name name (api.get_name_ea db name))) [
      | inr other ↦ rw (miss, other) refl
      | inl there ↦ rw (miss, there) (sym (apart name ea (api.get_name_ea db name) miss there))
    ]
  ]

  named-lem :
      (name : String) (ea : ℕ) (o : Option FuncRow)
      → ((row : FuncRow) → o ≡ some row → row.ea ≡ ea)
      → named api db name o ≡ (if has_name name ea then with_row api o [] else [])
  unfolding named
  named-lem name ea none at = elim (Bool-cases (has_name name ea)) [
    | inl h ↦ rw h refl
    | inr h ↦ rw h refl
  ]
  named-lem name ea (some row) at =
      ap (λ (b : Bool). if b then row ∷ [] else []) (ap (has_name name) (at row refl))

  start-rows :
      (b : Bool) (start : ℕ)
      → rows_of api db (keep_if (λ ea. if b then ea == start else false) (api.functions db))
        ≡ (if b then with_row api (func_row api db start) [] else [])
  unfolding rows_of
  start-rows true start = rows_of-start start
  start-rows false start =
      rw
        (keep_if-none (λ ea. false) (api.functions db)
          (All-always (λ ea. false ≡ false) (api.functions db) (λ ea. refl)))
        refl

  bad_row : func_row api db badaddr ≡ none
  unfolding func_row starting_at
  bad_row = rw doc.nowhere refl

  func_named-lem :
      (name : String)
      → func_named api db name ≡ named api db name (func_row api db (api.get_name_ea db name))
  unfolding func_named named
  func_named-lem name = elim (Bool-cases (api.get_name_ea db name == badaddr)) [
    | inl bad ↦
        let same : api.get_name_ea db name ≡ badaddr = (same_iff _ _).0 bad in
        rw bad (
          sym (
            ap (λ (a : ℕ). named api db name (func_row api db a)) same
            ∙ ap (named api db name) bad_row))
    | inr good ↦ rw good refl
  ]

  func_named-exact :
      (name : String)
      → func_named api db name ≡ keep_if (λ row. has_name name row.ea) (funcs_all api db)
  unfolding funcs_all
  func_named-exact name =
      func_named-lem name
      ∙ named-lem name (api.get_name_ea db name) (func_row api db (api.get_name_ea db name))
          (row-ea api db (api.get_name_ea db name))
      ∙ sym (start-rows (has_name name (api.get_name_ea db name)) (api.get_name_ea db name))
      ∙ ap (rows_of api db) (
          sym (
            keep_if-cong (has_name name) (at_name name) (api.functions db) (
              All-map (λ ea. api.get_name_ea db (api.get_func_name db ea) ≡ ea)
                (λ ea. has_name name ea ≡ at_name name ea) (api.functions db)
                (has_name-at_name name) doc.resolved)))
      ∙ sym (keep_if-rows_of api db (has_name name) (api.functions db))

  -- The plans for a start and for a name read exactly the rows of the scan with this start or with
  -- this name, also where the start is an address inside a function, which gives no row, and the name
  -- one that resolves elsewhere; where the functions are as IDA documents them.
  pub funcs_exact :
      (z : ℤ) (s : String)
      → (filter api db 1 (int z ∷ [])
          ≡ ok (keep_if (λ row. row.ea == address z) (funcs_all api db)))
        × (filter api db 2 (text s ∷ [])
            ≡ ok (keep_if (λ row. api.get_func_name db row.ea == s) (funcs_all api db)))
  unfolding filter
  funcs_exact z s = (
    ap ok (func_at_ea-exact (address z)),
    ap (λ name. ok (func_named api db name)) (doc.str_lem s) ∙ ap ok (func_named-exact s),
  )
