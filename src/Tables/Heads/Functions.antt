-- ===== src/Tables/Heads/Functions.antt =====
-- The plan of the table of heads (src/ida_bridge/sql/tables/heads.py) for a function's address.
use ida_bridge.Common.{
  ℕ, ◌<◌, ◌^◌, ◌≡◌, ◌≢◌, refl, ap, sym, ◌∙◌, inl, inr, Bool, true, false, Option, none, some, List,
  map, keep_if, number_key, ◌==◌, Bool-cases, Option-cases, arith,
}
use ida_bridge.Common.Int.{ℤ}
use ida_bridge.Sql.U64.{int}
use ida_bridge.Tables.Ida.{Ida, Function, within, IsDocumented}
use ida_bridge.Tables.Bounds.{address, is_address}
use ida_bridge.Tables.Heads.{bare, in_func, segment_name, func_ea, heads_in_func, values}
use ida_bridge.Tables.Heads.Exact.{head_at}
use ida_bridge.Tables.Scan.{heads-known}
use ida_bridge.Tables.Lists.{keep_if-none, All-always}

abbrev pub lies_in : Option Function → ℕ → Bool
lies_in none ea = false
lies_in (some f) ea = within f.start_ea f.end_ea ea

-- `get_func` finds a function from its first address, and from every address of its first chunk.
pub record FunctionsDocumented (ida : Ida) : Type 0 where
  pub at_start :
      (ea : ℕ) (f : Function) → ida.get_func ea ≡ some f → ida.get_func f.start_ea ≡ some f
  pub in_chunk :
      (ea : ℕ) (f : Function)
      → ida.get_func f.start_ea ≡ some f
      → within f.start_ea f.end_ea ea ≡ true
      → ida.get_func ea ≡ some f
  pub end_small : (ea : ℕ) (f : Function) → ida.get_func ea ≡ some f → f.end_ea < 2 ^ 64

-- The address is the first one of a function, and that function has one chunk; or it is in none.
abbrev pub IsEntry : Ida → ℕ → Option Function → Type 0
IsEntry ida ea none = Unit
IsEntry ida ea (some f) =
    (f.start_ea ≡ ea) × ((x : ℕ) → ida.get_func x ≡ some f → within f.start_ea f.end_ea x ≡ true)

module _ (ida : Ida) (doc : FunctionsDocumented ida) (z : ℤ) where
  abbrev contained : ℕ → Bool
  contained ea = is_address (int z) (func_ea ida (bare ea))

  contained-some :
      (f : Function) (ea : ℕ) → ida.get_func ea ≡ some f → contained ea ≡ (f.start_ea == address z)
  unfolding func_ea
  contained-some f ea e = rw e refl

  contained-none : (ea : ℕ) → ida.get_func ea ≡ none → contained ea ≡ false
  unfolding func_ea
  contained-none ea e = rw e refl

  -- No head of a function is said to lie in another address's function.
  pub contained-other :
      (f : Function) (a ea : ℕ)
      → ida.get_func a ≡ some f
      → f.start_ea ≢ address z
      → within f.start_ea f.end_ea ea ≡ true
      → contained ea ≡ false
  contained-other f a ea e inner inside =
      contained-some f ea (doc.in_chunk ea f (doc.at_start a f e) inside) ∙ ground arith

  same_function :
      (f g : Function) (ea x : ℕ)
      → ida.get_func ea ≡ some f
      → ida.get_func x ≡ some g
      → f.start_ea ≡ g.start_ea
      → f ≡ g
  same_function f g ea x e h s =
      ground (arith, doc.at_start ea f e, doc.at_start x g h, ap (λ (n : ℕ). ida.get_func n) s)

  -- With the function that the plan finds as a variable.
  agrees :
      (o : Option Function)
      → ida.get_func (address z) ≡ o
      → IsEntry ida (address z) o
      → (ea : ℕ) → lies_in o ea ≡ contained ea
  agrees none e entry ea = elim (Option-cases (ida.get_func ea)) [
    | inl h ↦ sym (contained-none ea h)
    | inr (g, h) ↦ elim (Bool-cases (g.start_ea == address z)) [
      | inr differ ↦ sym (contained-some g ea h ∙ differ)
      | inl same ↦
          let start : g.start_ea ≡ address z = ground arith in
          let found = rw start at (doc.at_start ea g h) in absurd (cc)
    ]
  ]
  agrees (some f) e (start, one_chunk) ea = elim (Option-cases (ida.get_func ea)) [
    | inl h ↦ elim (Bool-cases (within f.start_ea f.end_ea ea)) [
      | inl inside ↦ let found = doc.in_chunk ea f (doc.at_start _ f e) inside in absurd (cc)
      | inr outside ↦ outside ∙ sym (contained-none ea h)
    ]
    | inr (g, h) ↦ elim (Bool-cases (within f.start_ea f.end_ea ea)) [
      | inl inside ↦
          let found = doc.in_chunk ea f (doc.at_start _ f e) inside in
          let same : g ≡ f = ground arith in
          inside ∙ sym (contained-some g ea h ∙ rw same (rw start (ground arith)))
      | inr outside ↦ elim (Bool-cases (g.start_ea == address z)) [
        | inr differ ↦ outside ∙ sym (contained-some g ea h ∙ differ)
        | inl eq ↦
            let starts : f.start_ea ≡ g.start_ea = ground arith in
            let same : g ≡ f = sym (same_function f g (address z) ea e h starts) in
            let inside = one_chunk ea (h ∙ ap some same) in absurd (cc)
      ]
    ]
  ]

  -- An address lies in the function that the plan reads exactly if its containing function is
  -- the one that the query names.
  pub lies_in-contained :
      IsEntry ida (address z) (ida.get_func (address z))
      → (ea : ℕ) → lies_in (ida.get_func (address z)) ea ≡ contained ea
  lies_in-contained entry = agrees (ida.get_func (address z)) refl entry

  module _ (every : List ℕ) (heads : IsDocumented ida every) where
    -- The containing function, where it is known, is what `get_func` would find.
    same_func :
        (f : Function) (ea : ℕ)
        → ida.get_func ea ≡ some f
        → values ida (in_func f.start_ea ea) ≡ head_at ida ea
    unfolding values segment_name func_ea
    same_func f ea e = rw e refl

    rows_of :
        (o : Option Function)
        → ida.get_func (address z) ≡ o
        → map (values ida) (heads_in_func ida (address z))
          ≡ map (head_at ida) (keep_if (lies_in o) every)
    unfolding heads_in_func
    rows_of none e =
        rw (heads_in_func, e)
          (ap (map (head_at ida)) (
            sym (
              keep_if-none (lies_in none) every
                (All-always (λ x. false ≡ false) every (λ x. refl)))))
    rows_of (some f) e =
        rw (heads_in_func, e)
          (heads-known ida every heads (values ida) (head_at ida) (in_func f.start_ea) f.start_ea
            f.end_ea (doc.end_small _ f e)
            (λ ea inside. same_func f ea (doc.in_chunk ea f (doc.at_start _ f e) inside)))

    -- The plan reads the heads of the first chunk of the function that holds the address.
    pub heads_in_func-values :
        map (values ida) (heads_in_func ida (address z))
        ≡ map (head_at ida) (keep_if (lies_in (ida.get_func (address z))) every)
    heads_in_func-values = rows_of (ida.get_func (address z)) refl
