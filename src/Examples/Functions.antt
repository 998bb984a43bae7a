-- ===== src/Examples/Functions.antt =====
-- The table of functions (src/ida_bridge/sql/tables/core.py) over two functions.
use ida_bridge.Common.{
  ℕ, ◌≡◌, refl, ap, sym, inl, inr, String, Bool, true, false, Option, none, some, [], ◌∷◌, any,
  keep_if, number_key, text_key, ◌==◌, if◌then◌else◌, Bool-cases, arith,
}
use ida_bridge.Common.Int.{ℤ, pos}
use ida_bridge.Sql.U64.{SqlValue, int, text, decode}
use ida_bridge.Tables.Cursor.{ok}
use ida_bridge.Tables.Bounds.{address}
use ida_bridge.Tables.Ida.{within}
use ida_bridge.Tables.Funcs.{FuncInfo, FuncApi, FuncRow, filter, funcs_all, update_change_row}
use ida_bridge.Tables.Funcs.Writes.{Quiet, funcs_schema, comment_fields, comment_update_exact}
use ida_bridge.Tables.Funcs.Exact.{IsListed, funcs_exact}

abbrev main : FuncInfo
main = record { start_ea = 16; end_ea = 24; flags = 0 }

abbrev helper : FuncInfo
helper = record { start_ea = 24; end_ea = 32; flags = 0 }

abbrev func_at : ℕ → Option FuncInfo
func_at ea = if within 16 24 ea then some main else if within 24 32 ea then some helper else none

abbrev text_of : SqlValue → String
text_of (text s) = s
text_of _ = ""

abbrev int_of : SqlValue → Option ℤ
int_of (int z) = some z
int_of _ = none

-- The comments of the functions, the only part of them that changes here.
abbrev pub Comments : Type 0
Comments = ℕ → Bool → String

abbrev same_flag : Bool → Bool → Bool
same_flag true b = b
same_flag false true = false
same_flag false false = true

abbrev written : Comments → ℕ → String → Bool → Comments
written db ea s r a r' = if ea == a then (if same_flag r r' then s else db a r') else db a r'

-- A name that is no function's resolves to an address inside one.
abbrev two_funcs : FuncApi
two_funcs = record {
  Db = Comments;
  functions = λ db. 16 ∷ 24 ∷ [];
  get_func = λ db ea. func_at ea;
  get_name_ea = λ db name. if name == "main" then 16 else if name == "helper" then 24 else 20;
  get_func_name = λ db ea. if ea == 16 then "main" else "helper";
  get_name = λ db ea. if ea == 16 then "main" else "helper";
  print_type = λ db ea. "";
  get_func_cmt = λ db ea r. db ea r;
  set_name = λ db ea name. none;
  del_tinfo = λ db ea. db;
  apply_cdecl = λ db ea decl. none;
  set_func_cmt = λ db ea s r. some (written db ea s r);
  update_func = λ db func z. none;
  mark_cfunc_dirty = λ db ea. db;
  auto_wait = λ db. db;
  str = text_of;
  int_of = int_of;
  is_decl = λ s. false;
}

abbrev no_comments : Comments
no_comments ea r = ""

all_listed :
    (ea : ℕ) (f : FuncInfo)
    → func_at ea ≡ some f
    → any (λ start. start == f.start_ea) (16 ∷ 24 ∷ []) ≡ true
all_listed ea f e = elim (Bool-cases (within 16 24 ea)) [
  | inl h ↦
      let e' = rw h at e in
      let same : main ≡ f = ground arith in
      ap (λ (g : FuncInfo). any (λ start. start == g.start_ea) (16 ∷ 24 ∷ [])) (sym same)
  | inr h ↦ elim (Bool-cases (within 24 32 ea)) [
    | inl h2 ↦
        let e' = rw (h, h2) at e in
        let same : helper ≡ f = ground arith in
        ap (λ (g : FuncInfo). any (λ start. start == g.start_ea) (16 ∷ 24 ∷ [])) (sym same)
    | inr h2 ↦ absurd (let e' = rw (h, h2) at e in cc)
  ]
]

two_funcs-IsListed : IsListed two_funcs no_comments
two_funcs-IsListed = record {
  ascending = omega arith;
  complete = all_listed;
  nowhere = refl;
  resolved = (refl, (refl, tt));
  str_lem = λ s. refl;
}

funcs_exact_example :
    (filter two_funcs no_comments 1 (int (pos 24) ∷ [])
      ≡ ok (
          keep_if
            (λ (row : FuncRow). row.ea == address (pos 24))
            (funcs_all two_funcs no_comments)))
    × (filter two_funcs no_comments 2 (text "label" ∷ [])
        ≡ ok (
            keep_if
              (λ (row : FuncRow). two_funcs.get_func_name no_comments row.ea == "label")
              (funcs_all two_funcs no_comments)))
funcs_exact_example = funcs_exact two_funcs no_comments two_funcs-IsListed (pos 24) "label"

keeps_repeatable :
    (s : String) (db' : Comments)
    → some (written no_comments 16 s false) ≡ some db'
    → db' 16 true ≡ no_comments 16 true
keeps_repeatable s db' e =
    let same : written no_comments 16 s false ≡ db' = cc in
    ap (λ (d : Comments). d 16 true) (sym same)

main-Quiet : Quiet two_funcs no_comments (address (pos 16)) main
unfolding decode
main-Quiet = record {
  found = refl;
  one_name = refl;
  idle = refl;
  keeps = keeps_repeatable;
  str_lem = λ s. refl;
  int_lem = λ z. refl;
}

-- `UPDATE funcs SET comment = 'entry' WHERE start_ea = 16`
comment_update_exact_example :
    update_change_row two_funcs
      (λ s. s)
      funcs_schema
      (pos 16)
      (comment_fields two_funcs no_comments (address (pos 16)) main (text "entry"))
      no_comments
    ≡ (none, written no_comments 16 "entry" false)
comment_update_exact_example =
    comment_update_exact two_funcs no_comments main (λ s. s) (pos 16) "entry" main-Quiet refl
