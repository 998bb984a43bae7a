-- ===== src/Examples/Comments.antt =====
-- Writes to the table of comments (src/ida_bridge/sql/tables/analysis.py) at a concrete database.
use ida_bridge.Common.{
  ℕ, ◌≡◌, refl, ap, sym, String, Bool, true, false, ◌&&◌, some, [], ◌∷◌, keep_if, number_key,
  text_key, ◌==◌, if◌then◌else◌,
}
use ida_bridge.Common.Int.{pos}
use ida_bridge.Sql.U64.{SqlValue, int, text, decode, encode}
use ida_bridge.Sql.Rowid as Rowid
use ida_bridge.Sql.Rowid.{pack_rowid, unpack_rowid}
use ida_bridge.Tables.Columns.{apply_schema_specs}
use ida_bridge.Tables.Comments.{
  CommentApi, CommentRow, filter, comments_all, failed, rowid_failed, decode_comment_rowid, rowid,
  update_insert_row,
}
use ida_bridge.Tables.Bounds.{address}
use ida_bridge.Tables.Cursor.{ok}
use ida_bridge.Tables.Comments.Scan.{comments_exact}
use ida_bridge.Examples.Tables.{db, every_head, db-IsDocumented}
use ida_bridge.Tables.Comments.Writes.{
  comments_schema, same_flag, SetsOne, Written, insert_exact, insert_raises_late,
}

abbrev Comments : Type 0
Comments = ℕ → Bool → String

abbrev text_of : SqlValue → String
text_of (text s) = s
text_of _ = ""

abbrev written : Comments → ℕ → String → Bool → Comments
written db ea content r a r' = if ea == a && same_flag r r' then content else db a r'

abbrev api : CommentApi
api = record {
  Db = Comments;
  get_cmt = λ db a r. db a r;
  set_cmt = λ db ea content r. some (written db ea content r);
  str = text_of;
  is_blank = λ s. s == "";
}

api-SetsOne : SetsOne api
api-SetsOne db db' ea content r h a r' =
    let same : written db ea content r ≡ db' = cc in ap (λ (d : Comments). d a r') (sym same)

abbrev no_comments : Comments
no_comments a r = ""

abbrev one_comment : Comments
one_comment = written no_comments 16 "entry" true

insert_exact_example :
    Written api api-SetsOne no_comments 16 true "entry" one_comment
    × (decode_comment_rowid api (pos 33) ≡ (16, true))
    × (rowid api (record { ea = 16; content = "entry"; repeatable = 1 }) ≡ Rowid.ok (pos 33))
unfolding decode encode update_insert_row apply_schema_specs pack_rowid
insert_exact_example =
    insert_exact api api-SetsOne (λ s. s) (pos 16) "entry" (int (pos 1)) (pos 33) no_comments
      one_comment refl refl

comments_exact_example :
    filter api db one_comment 3 (int (pos 16) ∷ [])
    ≡ ok (
        keep_if
          (λ (row : CommentRow). row.ea == address (pos 16))
          (comments_all api db one_comment))
unfolding decode
comments_exact_example = comments_exact api one_comment db every_head db-IsDocumented (pos 16) refl

-- An address with only bit 62 set.
abbrev far : ℕ
far = 4611686018427387904

insert_raises_late_example :
    (update_insert_row api
        (λ s. s)
        comments_schema
        (int (pos far) ∷ text "lost" ∷ int (pos 0) ∷ [])
        no_comments
      ≡ (
        failed (rowid_failed (Rowid.not_canonical (pos far) 1)),
        written no_comments far "lost" false,
      ))
    × Written api api-SetsOne no_comments far false "lost" (written no_comments far "lost" false)
unfolding pack_rowid decode
insert_raises_late_example =
    insert_raises_late api api-SetsOne (λ s. s) (pos far) "lost" (int (pos 0))
      (Rowid.not_canonical (pos far) 1) no_comments (written no_comments far "lost" false) refl refl
      refl
