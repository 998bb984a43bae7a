-- ===== src/Tables/Comments.antt =====
-- src/ida_bridge/sql/tables/analysis.py: the table of comments, which can be read and written.
pub mod Writes
pub mod Scan
use ida_bridge.Common.{
  ℕ, String, Bool, true, false, Option, none, some, List, [], ◌∷◌, ◌++◌, map, get_elem?, number_key,
  text_key, ◌==◌, not, if◌then◌else◌,
}
use ida_bridge.Common.Int.{ℤ, pos, pos_part, eqb_ℤ}
use ida_bridge.Common.Dict.{Dict}
use ida_bridge.Sql.U64.{SqlValue, null, int, bool, text, other, no_change}
use ida_bridge.Sql.Rowid as Rowid
use ida_bridge.Sql.Rowid.{pack_rowid, unpack_rowid}
use ida_bridge.Tables.Index.{IndexInfo, find_eq_constraint, eq_plan, plan}
use ida_bridge.Tables.Cursor as Cursor
use ida_bridge.Tables.Cursor.{ArgSpec, Plans, Result, ok, err, ◌>>=◌, decode_constraint_args, arg}
use ida_bridge.Tables.Columns.{
  Schema, WriteError, Checked, passed, raised, reject_readonly_update, decode_u64_update_fields,
}
use ida_bridge.Tables.Bounds.{some_address}
use ida_bridge.Tables.Ida.{Ida}

abbrev pub full_scan : ℕ
full_scan = 0

abbrev pub ea_eq : ℕ
ea_eq = 3

unfoldable pub choose_plan : IndexInfo → Option ℕ → IndexInfo
unfolding eq_plan plan
choose_plan ii (some i) = eq_plan i ea_eq 10 4 ii
choose_plan ii none = plan full_scan 1000000 10000 ii

-- `CommentsTable.BestIndexObject`
unfoldable pub best_index : IndexInfo → IndexInfo
unfolding choose_plan
best_index ii = choose_plan ii (find_eq_constraint ii 0)

abbrev pub plans : Plans
plans = (ea_eq, record { name = "address"; u64 = true; what = none } ∷ []) ∷ []

-- The comments of a database: `get_cmt`, with an empty text for none, and `set_cmt`, with `none`
-- where it fails; Python's `str` and whether it is blank.
pub record CommentApi : Type 1 where
  pub Db : Type 0
  pub get_cmt : Db → ℕ → Bool → String
  pub set_cmt : Db → ℕ → String → Bool → Option Db
  pub str : SqlValue → String
  pub is_blank : String → Bool

pub record CommentRow : Type 0 where
  pub ea : ℕ
  pub content : String
  pub repeatable : ℕ

-- What a write raises: what base.py checks, the checks of the table, `set_cmt`, or the rowid.
pub data Error : Type 0 where
  rejected : WriteError → Error
  requires_address : Error
  requires_text : Error
  set_failed : ℕ → Error
  rowid_failed : Rowid.Error → Error
  type_error : Error

pub data Outcome (A : Type 0) : Type 0 where
  done : A → Outcome A
  failed : Error → Outcome A

abbrev pub flag : Bool → ℕ
flag true = 1
flag false = 0

-- `bool(repeatable)`, False for NULL.
abbrev pub truth : SqlValue → Bool
truth null = false
truth (int z) = not (eqb_ℤ z (pos 0))
truth (bool b) = b
truth (text s) = not (s == "")
truth (other n holds) = holds
truth no_change = true

module _ (api : CommentApi) where
  open api use {Db, get_cmt, set_cmt, str, is_blank}

  -- One comment of an address, if there is one.
  unfoldable pub comment_at : Db → ℕ → Bool → List CommentRow
  comment_at db ea repeatable =
      let content = get_cmt db ea repeatable in
      if content == ""
      then []
      else record { ea = ea; content = content; repeatable = flag repeatable } ∷ []

  unfoldable pub comments_at_ea : Db → ℕ → List CommentRow
  unfolding comment_at
  comments_at_ea db ea = comment_at db ea false ++ comment_at db ea true

  -- `CommentsCursor.Rowid`
  unfoldable pub rowid : CommentRow → Rowid.Result ℤ
  rowid row = pack_rowid (pos row.ea) (pos row.repeatable) 1

  -- `_decode_comment_rowid`; a rowid of SQLite always splits.
  unfoldable pub decode_comment_rowid : ℤ → ℕ × Bool
  decode_comment_rowid id = elim (unpack_rowid id 1) [
    | Rowid.ok (ea, repeatable) ↦ (pos_part ea, not (eqb_ℤ repeatable (pos 0)))
    | Rowid.err e ↦ (0, false)
  ]

  -- Each write gives what it returns or raises, and the database afterwards.
  unfoldable pub set_comment : ℕ → String → Bool → Db → Outcome (Unit {0}) × Db
  set_comment ea content repeatable db = elim (set_cmt db ea content repeatable) [
    | some db' ↦ (done tt, db')
    | none ↦ (failed (set_failed ea), db)
  ]

  -- The new text of an UPDATE: NULL changes nothing.
  unfoldable pub change_text : ℕ × Bool → Option SqlValue → Db → Outcome (Unit {0}) × Db
  unfolding set_comment
  change_text (ea, repeatable) (some null) db = (done tt, db)
  change_text (ea, repeatable) (some value) db =
      set_comment ea (if truth value then str value else "") repeatable db
  change_text (ea, repeatable) none db = (failed type_error, db)

  unfoldable pub update_change_row : Schema → ℤ → List SqlValue → Db → Outcome (Unit {0}) × Db
  unfolding change_text decode_comment_rowid reject_readonly_update
  update_change_row schema id fields db = elim (reject_readonly_update schema fields) [
    | raised e ↦ (failed (rejected e), db)
    | passed _ ↦ change_text (decode_comment_rowid id) (get_elem? fields 1) db
  ]

  unfoldable pub row_made : Rowid.Result ℤ → Db → Outcome ℤ × Db
  row_made (Rowid.ok id) db = (done id, db)
  row_made (Rowid.err e) db = (failed (rowid_failed e), db)

  -- The rowid of the new row, made after the comment is set.
  unfoldable pub new_rowid : ℕ → Bool → Outcome (Unit {0}) × Db → Outcome ℤ × Db
  unfolding row_made
  new_rowid ea repeatable (failed e, db) = (failed e, db)
  new_rowid ea repeatable (done _, db) = row_made (pack_rowid (pos ea) (pos (flag repeatable)) 1) db

  -- The decoded fields of an INSERT: address, text and repeatable.
  unfoldable pub insert_fields : List SqlValue → Db → Outcome ℤ × Db
  unfolding new_rowid set_comment
  insert_fields (null ∷ content ∷ repeatable ∷ rest) db = (failed requires_address, db)
  insert_fields (ea ∷ null ∷ repeatable ∷ rest) db = (failed requires_text, db)
  insert_fields (int ea ∷ content ∷ repeatable ∷ rest) db =
      if is_blank (str content)
      then (failed requires_text, db)
      else new_rowid (pos_part ea) (truth repeatable)
          (set_comment (pos_part ea) (str content) (truth repeatable) db)
  insert_fields _ db = (failed type_error, db)

  unfoldable pub update_insert_row :
      (String → String) → Schema → List SqlValue → Db → Outcome ℤ × Db
  unfolding insert_fields decode_u64_update_fields
  update_insert_row what schema fields db = elim (decode_u64_update_fields what schema fields) [
    | raised e ↦ (failed (rejected e), db)
    | passed decoded ↦ insert_fields decoded db
  ]

  unfoldable pub delete_at : ℕ × Bool → Db → Outcome (Unit {0}) × Db
  unfolding set_comment
  delete_at (ea, repeatable) db = set_comment ea "" repeatable db

  unfoldable pub update_delete_row : ℤ → Db → Outcome (Unit {0}) × Db
  unfolding delete_at decode_comment_rowid
  update_delete_row id db = delete_at (decode_comment_rowid id) db

  -- `_comments_all`: the comments of the heads of each segment.
  unfoldable pub comments_of_heads : Db → List ℕ → List CommentRow
  unfolding comments_at_ea
  comments_of_heads db [] = []
  comments_of_heads db (ea ∷ eas) = comments_at_ea db ea ++ comments_of_heads db eas

  unfoldable pub comments_of_segments : Ida → Db → List ℕ → List CommentRow
  unfolding comments_of_heads
  comments_of_segments ida db [] = []
  comments_of_segments ida db (start ∷ starts) =
      let rest = comments_of_segments ida db starts in
      elim (ida.getseg start) [
        | none ↦ rest
        | some seg ↦ comments_of_heads db (ida.heads (some seg.start_ea) (some seg.end_ea)) ++ rest
      ]

  unfoldable pub comments_all : Ida → Db → List CommentRow
  unfolding comments_of_segments
  comments_all ida db = comments_of_segments ida db ida.segment_starts

  unfoldable pub by_plan : Ida → Db → ℕ → Dict String SqlValue → Result (List CommentRow)
  unfolding comments_at_ea comments_all arg some_address
  by_plan ida db idx_num args =
      if idx_num == ea_eq
      then (do value ← arg "address" args; ea ← some_address value; ok (comments_at_ea db ea))
      else ok (comments_all ida db)

  -- `CommentsCursor.Filter`
  unfoldable pub filter : Ida → Db → ℕ → List SqlValue → Result (List CommentRow)
  unfolding by_plan decode_constraint_args
  filter ida db idx_num argv = do
    args ← decode_constraint_args plans "comments" idx_num argv
    by_plan ida db idx_num args
