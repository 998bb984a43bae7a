-- ===== src/Tables/Names/Exact.antt =====
-- Both searches of the table of names (src/ida_bridge/sql/tables/core.py) against its scan.
use ida_bridge.Common.{
  ℕ, zero, suc, ◌+◌, ◌≤◌, ◌<◌, ◌≡◌, ◌≢◌, refl, ap, sym, ◌∙◌, inl, inr, String, Bool, true, false,
  none, some, [], ◌∷◌, lt→ltb, number_key, text_key, ◌==◌, same_iff, same_self, keep_if, Bool-cases,
  arith,
}
use ida_bridge.Common.Int.{ℤ, pos, pos_part}
use ida_bridge.Sql.U64.{int, text}
use ida_bridge.Tables.Cursor.{ok, or_text}
use ida_bridge.Tables.Bounds.{address}
use ida_bridge.Tables.Names.{
  NameRow, NameList, badaddr, name_row_at_index, names_from, names_all, row_at, name_row_at_ea,
  one_row, name_at_ea, named, name_by_name, filter,
}

-- What IDA documents of its list of names: it lists the addresses that `is_in_nlist` accepts, each
-- once, `get_nlist_idx` finds the place of an address, and a listed name is that of one address, which
-- `get_name_ea` finds. Of a name that is not listed, such as a dummy name, it may find any address.
pub record IsListed (api : NameList) : Type 0 where
  pub place :
      (ea : ℕ)
      → api.is_in_nlist ea ≡ true
      → (i : ℕ) × (i < api.get_nlist_size) × (api.get_nlist_ea i ≡ ea)
  pub listed : (i : ℕ) → i < api.get_nlist_size → api.is_in_nlist (api.get_nlist_ea i) ≡ true
  pub index : (i : ℕ) → i < api.get_nlist_size → api.get_nlist_idx (api.get_nlist_ea i) ≡ pos i
  pub resolved :
      (i : ℕ)
      → i < api.get_nlist_size
      → api.get_name_ea (or_text (api.get_nlist_name i) "") ≡ api.get_nlist_ea i
  pub valid : (i : ℕ) → i < api.get_nlist_size → api.get_nlist_ea i ≢ badaddr
  pub str_lem : (s : String) → api.str (text s) ≡ s

module _ (api : NameList) (p : NameRow → Bool) where
  names_from-none :
      (rounds index : ℕ)
      → ((i : ℕ) → index ≤ i → i < index + rounds → p (name_row_at_index api i) ≡ false)
      → keep_if p (names_from api rounds index) ≡ []
  unfolding names_from
  names_from-none zero index h = refl
  names_from-none (suc rounds) index h =
      rw
        (
          h index (omega arith) (omega arith),
          names_from-none rounds (index + 1) (λ i le lt. h i (omega arith) (omega arith)),
        )
        refl

  names_from-one :
      (rounds index k : ℕ)
      → index ≤ k
      → k < index + rounds
      → p (name_row_at_index api k) ≡ true
      → ((i : ℕ) → i < index + rounds → i ≢ k → p (name_row_at_index api i) ≡ false)
      → keep_if p (names_from api rounds index) ≡ name_row_at_index api k ∷ []
  unfolding names_from
  names_from-one zero index k le lt hit others = absurd (omega arith)
  names_from-one (suc rounds) index k le lt hit others = elim (Bool-cases (index == k)) [
    | inl e ↦
        let here : index ≡ k = (same_iff index k).0 e in
        let hit' : p (name_row_at_index api index) ≡ true =
          ap (λ (n : ℕ). p (name_row_at_index api n)) here ∙ hit in
        let none_later =
          names_from-none rounds (index + 1)
            (λ i le low. others i (omega arith) (λ same. absurd (omega (arith, same, here)))) in
        rw (hit', none_later) (ap (λ (n : ℕ). name_row_at_index api n ∷ []) here)
    | inr e ↦
        let ne : index ≢ k = ground arith in
        rw
          (
            others index (omega arith) ne,
            names_from-one rounds (index + 1) k (omega arith) (omega arith) hit
                (λ i lt ne. others i (omega arith) ne),
          )
          refl
  ]

  names_all-none :
      ((i : ℕ) → i < api.get_nlist_size → p (name_row_at_index api i) ≡ false)
      → keep_if p (names_all api) ≡ []
  unfolding names_all
  names_all-none h = names_from-none api.get_nlist_size 0 (λ i le lt. h i (omega arith))

  names_all-one :
      (k : ℕ)
      → k < api.get_nlist_size
      → p (name_row_at_index api k) ≡ true
      → ((i : ℕ) → i < api.get_nlist_size → i ≢ k → p (name_row_at_index api i) ≡ false)
      → keep_if p (names_all api) ≡ name_row_at_index api k ∷ []
  unfolding names_all
  names_all-one k lt hit others =
      names_from-one api.get_nlist_size 0 k (omega arith) (omega arith) hit
        (λ i low ne. others i (omega arith) ne)

module _ (api : NameList) (doc : IsListed api) where
  abbrev at_address : ℕ → NameRow → Bool
  at_address ea row = row.ea == ea

  abbrev has_name : String → NameRow → Bool
  has_name name row = row.name == name

  listed_row :
      (i : ℕ)
      → i < api.get_nlist_size
      → name_row_at_ea api (api.get_nlist_ea i) ≡ some (name_row_at_index api i)
  unfolding name_row_at_ea row_at name_row_at_index
  listed_row i lt =
      rw
        (
          doc.listed i lt,
          doc.index i lt,
          lt→ltb i api.get_nlist_size lt,
          same_self (api.get_nlist_ea i),
        )
        refl

  same_place :
      (i k : ℕ)
      → i < api.get_nlist_size
      → k < api.get_nlist_size
      → api.get_nlist_ea i ≡ api.get_nlist_ea k
      → i ≡ k
  same_place i k lt_i lt_k e =
      ap pos_part (sym (doc.index i lt_i) ∙ ap api.get_nlist_idx e ∙ doc.index k lt_k)

  unlisted : (ea : ℕ) → api.is_in_nlist ea ≡ false → name_row_at_ea api ea ≡ none
  unfolding name_row_at_ea
  unlisted ea e = rw e refl

  -- No listed address is one that is not in the list.
  listed-differs :
      (ea i : ℕ)
      → api.is_in_nlist ea ≡ false
      → i < api.get_nlist_size
      → (api.get_nlist_ea i == ea) ≡ false
  listed-differs ea i out lt = elim (Bool-cases (api.get_nlist_ea i == ea)) [
    | inr e ↦ e
    | inl e ↦
        let here = doc.listed i lt in
        let same : api.get_nlist_ea i ≡ ea = (same_iff _ _).0 e in
        absurd (let h = sym (ap api.is_in_nlist same ∙ out) ∙ here in cc)
  ]

  elsewhere :
      (ea k i : ℕ)
      → k < api.get_nlist_size
      → api.get_nlist_ea k ≡ ea
      → i < api.get_nlist_size
      → i ≢ k
      → (api.get_nlist_ea i == ea) ≡ false
  elsewhere ea k i lt_k e lt_i ne = elim (Bool-cases (api.get_nlist_ea i == ea)) [
    | inr h ↦ h
    | inl h ↦ absurd (ne (same_place i k lt_i lt_k ((same_iff _ _).0 h ∙ sym e)))
  ]

  name_at_ea-exact : (ea : ℕ) → name_at_ea api ea ≡ keep_if (at_address ea) (names_all api)
  unfolding name_at_ea name_row_at_index
  name_at_ea-exact ea = elim (Bool-cases (api.is_in_nlist ea)) [
    | inr out ↦
        ap (one_row api) (unlisted ea out)
        ∙ sym (names_all-none api (at_address ea) (λ i lt. listed-differs ea i out lt))
    | inl here ↦
        let (k, lt, e) = doc.place ea here in
        let hit : (api.get_nlist_ea k == ea) ≡ true = (same_iff _ _).1 e in
        ap (λ (a : ℕ). one_row api (name_row_at_ea api a)) (sym e)
        ∙ ap (one_row api) (listed_row k lt)
        ∙ sym
            (names_all-one api (at_address ea) k lt hit (λ i low ne. elsewhere ea k i lt e low ne))
  ]

  -- A listed name resolves to the address of its row.
  resolved_row :
      (name : String) (i : ℕ)
      → i < api.get_nlist_size
      → ((name_row_at_index api i).name == name) ≡ true
      → api.get_nlist_ea i ≡ api.get_name_ea name
  unfolding name_row_at_index
  resolved_row name i lt e = sym (doc.resolved i lt) ∙ ap api.get_name_ea ((same_iff _ _).0 e)

  -- No row has a name that resolves to no row's address.
  no_row :
      (name : String)
      → ((i : ℕ) → i < api.get_nlist_size → api.get_nlist_ea i ≢ api.get_name_ea name)
      → [] ≡ keep_if (has_name name) (names_all api)
  no_row name nowhere = sym (
      names_all-none api (has_name name) (λ i lt.
        elim (Bool-cases ((name_row_at_index api i).name == name)) [
          | inr h ↦ h
          | inl h ↦ absurd (nowhere i lt (resolved_row name i lt h))
        ]))

  -- Only the row at the address that a name resolves to can have it.
  other_name :
      (name : String) (k i : ℕ)
      → k < api.get_nlist_size
      → api.get_nlist_ea k ≡ api.get_name_ea name
      → i < api.get_nlist_size
      → i ≢ k
      → ((name_row_at_index api i).name == name) ≡ false
  other_name name k i lt e low ne = elim (Bool-cases ((name_row_at_index api i).name == name)) [
    | inr h ↦ h
    | inl h ↦ absurd (ne (same_place i k low lt (resolved_row name i low h ∙ sym e)))
  ]

  name_at :
      (name : String) (k : ℕ)
      → k < api.get_nlist_size
      → api.get_nlist_ea k ≡ api.get_name_ea name
      → named api name (some (name_row_at_index api k)) ≡ keep_if (has_name name) (names_all api)
  unfolding named
  name_at name k lt e = elim (Bool-cases ((name_row_at_index api k).name == name)) [
    | inl hit ↦ rw hit (
        sym (
          names_all-one api (has_name name) k lt hit (λ i low ne. other_name name k i lt e low ne)))
    | inr miss ↦ rw miss (
        sym (
          names_all-none api (has_name name) (λ i low. elim (Bool-cases (i == k)) [
            | inr ne ↦ other_name name k i lt e low (ground arith)
            | inl same ↦
                ap (λ (n : ℕ). (name_row_at_index api n).name == name) ((same_iff i k).0 same)
                ∙ miss
          ])))
  ]

  name_by_name-exact :
      (name : String) → name_by_name api name ≡ keep_if (has_name name) (names_all api)
  unfolding name_by_name named
  name_by_name-exact name = elim (Bool-cases (api.get_name_ea name == badaddr)) [
    | inl bad ↦ rw bad (no_row name (λ i lt e. doc.valid i lt (e ∙ (same_iff _ _).0 bad)))
    | inr good ↦ rw good (elim (Bool-cases (api.is_in_nlist (api.get_name_ea name))) [
      | inr out ↦
          ap (named api name) (unlisted (api.get_name_ea name) out)
          ∙ no_row name
              (λ i lt e. let h = sym (doc.listed i lt) ∙ ap api.is_in_nlist e ∙ out in absurd (cc))
      | inl here ↦
          let (k, lt, e) = doc.place (api.get_name_ea name) here in
          ap (λ (a : ℕ). named api name (name_row_at_ea api a)) (sym e)
          ∙ ap (named api name) (listed_row k lt)
          ∙ name_at name k lt e
    ])
  ]

  -- The plans for an address and for a name read exactly the rows of the scan with this address or
  -- with this name, also for a name that IDA resolves to an address that is not listed,
  -- where the list is as IDA documents it.
  pub names_exact :
      (z : ℤ) (s : String)
      → (filter api 1 (int z ∷ []) ≡ ok (keep_if (at_address (address z)) (names_all api)))
        × (filter api 2 (text s ∷ []) ≡ ok (keep_if (has_name s) (names_all api)))
  unfolding filter
  names_exact z s = (
    ap ok (name_at_ea-exact (address z)),
    ap (λ name. ok (name_by_name api name)) (doc.str_lem s) ∙ ap ok (name_by_name-exact s),
  )
