-- ===== src/Tables/Funcs/Writes.antt =====
-- An UPDATE of the table of functions (src/ida_bridge/sql/tables/core.py).
use ida_bridge.Common.{
  ℕ, ◌+◌, ◌≡◌, refl, ap, sym, ◌∙◌, inl, inr, String, true, false, Option, none, some, List, [], ◌∷◌,
  number_key, text_key, ◌==◌, same_iff, same_self, if◌then◌else◌, Bool-cases,
}
use ida_bridge.Common.Int.{ℤ, pos}
use ida_bridge.Sql.U64.{SqlValue, null, int, text, no_change}
use ida_bridge.Tables.Columns.{ColumnSpec, ColumnSpecs, Schema, apply_schema_specs}
use ida_bridge.Tables.Bounds.{address}
use ida_bridge.Tables.Comments.{truth}
use ida_bridge.Tables.Funcs.{
  FuncInfo, FuncApi, FuncError, set_func_cmt_failed, or_none, is_same, apply_name, apply_prototype,
  apply_comment, apply_flags, apply_fields, and_then, change_func, update_change_row,
}

abbrev read_only : ColumnSpec
read_only = record { hex = false; u64 = false; rowid = false; writable = false }

abbrev writable : ColumnSpec
writable = record { hex = false; u64 = false; rowid = false; writable = true }

-- `COLUMN_SPECS` and the columns of the CREATE TABLE text.
abbrev pub column_specs : ColumnSpecs
column_specs =
    ("start_ea", record { hex = true; u64 = true; rowid = true; writable = false })
    ∷ ("name", writable)
    ∷ ("prototype", writable)
    ∷ ("comment", writable)
    ∷ ("rpt_comment", writable)
    ∷ ("size", record { hex = true; u64 = false; rowid = false; writable = false })
    ∷ ("end_ea", record { hex = true; u64 = true; rowid = false; writable = false })
    ∷ ("flags", record { hex = true; u64 = false; rowid = false; writable = true })
    ∷ []

abbrev pub funcs_schema : Schema
funcs_schema =
    apply_schema_specs "funcs"
      ("start_ea" ∷ "name" ∷ "prototype" ∷ "comment" ∷ "rpt_comment" ∷ "size" ∷ "end_ea" ∷ "flags"
        ∷ "return_type" ∷ "arg_count" ∷ "calling_conv" ∷ "type_source" ∷ [])
      column_specs

-- A text or None as the value of a column.
abbrev pub reported : Option String → SqlValue
reported none = null
reported (some s) = text s

reported-same : (o : Option String) → is_same (reported o) o ≡ true
reported-same none = refl
reported-same (some s) = same_self s

module _ (api : FuncApi) (db : api.Db) (ea : ℕ) (func : FuncInfo) where
  -- The fields of an UPDATE that gives the comment: the other writable columns come as the table
  -- reports them, the rest is unchanged.
  abbrev pub comment_fields : SqlValue → List SqlValue
  comment_fields comment =
      no_change
      ∷ text (api.get_func_name db ea)
      ∷ reported (or_none (api.print_type db ea))
      ∷ comment
      ∷ reported (or_none (api.get_func_cmt db func.start_ea true))
      ∷ no_change
      ∷ no_change
      ∷ int (pos func.flags)
      ∷ no_change
      ∷ no_change
      ∷ no_change
      ∷ no_change
      ∷ []

  -- The function is found, it has one name, auto-analysis has nothing to do, and a comment is set
  -- without the repeatable one.
  pub record Quiet : Type 0 where
    pub found : api.get_func db ea ≡ some func
    pub one_name : api.get_name db ea ≡ api.get_func_name db ea
    pub idle : api.auto_wait db ≡ db
    pub keeps :
        (s : String) (db' : api.Db)
        → api.set_func_cmt db func.start_ea s false ≡ some db'
        → api.get_func_cmt db' func.start_ea true ≡ api.get_func_cmt db func.start_ea true
    pub str_lem : (s : String) → api.str (text s) ≡ s
    pub int_lem : (z : ℤ) → api.int_of (int z) ≡ some z

  -- The comment is set, and auto-analysis runs; or IDA refuses it, and nothing has changed.
  abbrev pub commented : Option api.Db → Option FuncError × api.Db
  commented none = (some (set_func_cmt_failed func.start_ea false), db)
  commented (some db') = (none, api.auto_wait db')

  module _ (quiet : Quiet) where
    name_kept : apply_name api ea (text (api.get_func_name db ea)) (api.auto_wait db) ≡ (none, db)
    unfolding apply_name
    name_kept =
        rw
          (
            quiet.idle,
            quiet.str_lem (api.get_func_name db ea),
            quiet.one_name,
            same_self (api.get_func_name db ea),
          )
          refl

    prototype_kept :
        apply_prototype api ea (reported (or_none (api.print_type db ea))) db ≡ (none, db)
    unfolding apply_prototype
    prototype_kept = rw (reported-same (or_none (api.print_type db ea))) refl

    rpt_kept :
        (d : api.Db)
        → api.get_func_cmt d func.start_ea true ≡ api.get_func_cmt db func.start_ea true
        → apply_comment api func
            (reported (or_none (api.get_func_cmt db func.start_ea true)))
            true
            d
          ≡ (none, d)
    unfolding apply_comment
    rpt_kept d same =
        rw (same, reported-same (or_none (api.get_func_cmt db func.start_ea true))) refl

    flags_kept : (d : api.Db) → apply_flags api ea func (int (pos func.flags)) d ≡ (none, d)
    unfolding apply_flags
    flags_kept d = rw (quiet.int_lem (pos func.flags), same_self (func.flags + 0)) refl

    text_kept : (s : String) → (if truth (text s) then api.str (text s) else "") ≡ s
    text_kept s = elim (Bool-cases (s == "")) [
      | inl e ↦ rw e (sym ((same_iff s "").0 e))
      | inr e ↦ rw e (quiet.str_lem s)
    ]

    -- The comment's own write, for a text that differs from the comment.
    set_comment : Option api.Db → Option FuncError × api.Db
    set_comment none = (some (set_func_cmt_failed func.start_ea false), db)
    set_comment (some db') = (none, db')

    comment_set :
        (s : String) (o : Option api.Db)
        → is_same (text s) (or_none (api.get_func_cmt db func.start_ea false)) ≡ false
        → api.set_func_cmt db func.start_ea s false ≡ o
        → apply_comment api func (text s) false db ≡ set_comment o
    unfolding apply_comment set_comment
    comment_set s none differs e = rw (differs, text_kept s, e) refl
    comment_set s (some db') differs e = rw (differs, text_kept s, e) refl

    -- What follows the comment: the repeatable one, the flags and auto-analysis.
    rest_kept :
        (s : String) (o : Option api.Db)
        → api.set_func_cmt db func.start_ea s false ≡ o
        → and_then api
            (and_then api
              (and_then api (set_comment o) (
                apply_comment api func
                  (reported (or_none (api.get_func_cmt db func.start_ea true)))
                  true))
              (apply_flags api ea func (int (pos func.flags))))
            (λ d. (none, api.auto_wait d))
          ≡ commented o
    unfolding set_comment
    rest_kept s none e = refl
    rest_kept s (some db') e = rw (rpt_kept db' (quiet.keeps s db' e), flags_kept db') refl

    fields_kept :
        (s : String)
        → is_same (text s) (or_none (api.get_func_cmt db func.start_ea false)) ≡ false
        → apply_fields api ea func (comment_fields (text s)) db
          ≡ commented (api.set_func_cmt db func.start_ea s false)
    unfolding apply_fields
    fields_kept s differs =
        rw
          (
            name_kept,
            prototype_kept,
            comment_set s (api.set_func_cmt db func.start_ea s false) differs refl,
          )
          (rest_kept s (api.set_func_cmt db func.start_ea s false) refl)

-- An UPDATE of a function's comment alone, whose other writable columns come back as the table
-- reports them, only sets the comment, and runs auto-analysis; where IDA refuses the comment it
-- raises, and nothing has changed. This holds for a text that differs from the comment, of a function
-- that is found and has one name, while auto-analysis has nothing to do, where setting the comment
-- leaves the repeatable one.
pub comment_update_exact :
    (api : FuncApi) (db : api.Db) (func : FuncInfo) (what : String → String) (rowid : ℤ)
    (s : String)
    → Quiet api db (address rowid) func
    → is_same (text s) (or_none (api.get_func_cmt db func.start_ea false)) ≡ false
    → update_change_row api what funcs_schema rowid
        (comment_fields api db (address rowid) func (text s))
        db
      ≡ commented api db (address rowid) func (api.set_func_cmt db func.start_ea s false)
unfolding update_change_row apply_schema_specs
comment_update_exact api db func what rowid s quiet differs =
    ap
      (λ o.
        change_func api (address rowid) o (comment_fields api db (address rowid) func (text s)) db)
      quiet.found
    ∙ fields_kept api db (address rowid) func quiet s differs
