-- ===== src/Tables/Comments/Writes.antt =====
-- Writes to the table of comments (src/ida_bridge/sql/tables/analysis.py), and the rowids by which
-- its rows are found again.
use ida_bridge.Common.{
  ℕ, ◌≡◌, refl, ap, sym, ◌∙◌, inl, inr, String, Bool, true, false, ◌&&◌, not, some, [], ◌∷◌,
  number_key, text_key, ◌==◌, if◌then◌else◌, Option-cases, arith,
}
use ida_bridge.Common.Int.{ℤ, pos}
use ida_bridge.Sql.U64.{SqlValue, int, text, no_change}
use ida_bridge.Sql.Rowid as Rowid
use ida_bridge.Sql.Rowid.{pack_rowid, unpack_rowid}
use ida_bridge.Sql.Rowid.Roundtrip.{pack-unpack}
use ida_bridge.Tables.Columns.{ColumnSpecs, Schema, apply_schema_specs}
use ida_bridge.Tables.Bounds.{address}
use ida_bridge.Tables.Comments.{
  CommentApi, CommentRow, Outcome, done, failed, rowid_failed, flag, truth, rowid,
  decode_comment_rowid, set_comment, change_text, update_change_row, row_made, new_rowid,
  update_insert_row, delete_at, update_delete_row,
}

-- `COLUMN_SPECS` and the columns of the CREATE TABLE text.
abbrev pub column_specs : ColumnSpecs
column_specs =
    ("address", record { hex = true; u64 = true; rowid = false; writable = false })
    ∷ ("text", record { hex = false; u64 = false; rowid = false; writable = true })
    ∷ []

abbrev pub comments_schema : Schema
comments_schema =
    apply_schema_specs "comments" ("address" ∷ "text" ∷ "repeatable" ∷ []) column_specs

abbrev pub same_flag : Bool → Bool → Bool
same_flag true b = b
same_flag false b = not b

-- `set_cmt` writes one comment of one address.
abbrev pub SetsOne : CommentApi → Type 0
SetsOne api =
    (db db' : api.Db) (ea : ℕ) (content : String) (repeatable : Bool)
    → api.set_cmt db ea content repeatable ≡ some db'
    → (a : ℕ) (r : Bool)
    → api.get_cmt db' a r
      ≡ (if ea == a && same_flag repeatable r then content else api.get_cmt db a r)

chosen : (b : Bool) (x y : String) → (if b then x else y) ≡ (if not b then y else x)
chosen true x y = refl
chosen false x y = refl

module _ (api : CommentApi) (sets : SetsOne api) where
  open api use {Db, get_cmt, set_cmt, str, is_blank}

  -- The database is the old one with one comment written.
  abbrev pub Written : Db → ℕ → Bool → String → Db → Type 0
  Written db ea repeatable content db' =
      (a : ℕ) (r : Bool)
      → get_cmt db' a r ≡ (if ea == a && same_flag repeatable r then content else get_cmt db a r)

  -- A rowid that the table makes leads back to the comment.
  decode-rowid :
      (a : ℕ) (r : Bool) (id : ℤ)
      → pack_rowid (pos a) (pos (flag r)) 1 ≡ Rowid.ok id
      → decode_comment_rowid api id ≡ (a, r)
  unfolding decode_comment_rowid
  decode-rowid a true id e = rw (decode_comment_rowid, (pack-unpack (pos a) (pos 1) 1 id e).1) refl
  decode-rowid a false id e = rw (decode_comment_rowid, (pack-unpack (pos a) (pos 0) 1 id e).1) refl

  set_comment-done :
      (ea : ℕ) (content : String) (r : Bool) (db db' : Db)
      → set_comment api ea content r db ≡ (done tt, db')
      → Written db ea r content db'
  unfolding set_comment
  set_comment-done ea content r db db' h = elim (Option-cases (set_cmt db ea content r)) [
    | inl e ↦ absurd (let h' = rw (set_comment, e) at h in cc)
    | inr (d, e) ↦
        let h' = rw (set_comment, e) at h in
        let same : d ≡ db' = cc in sets db db' ea content r (e ∙ ap some same)
  ]

  -- UPDATE and DELETE by the rowid of a row write the comment of that row, and no other.
  pub delete_exact :
      (row : CommentRow) (r : Bool) (id : ℤ) (db db' : Db)
      → row.repeatable ≡ flag r
      → rowid api row ≡ Rowid.ok id
      → update_delete_row api id db ≡ (done tt, db')
      → Written db row.ea r "" db'
  unfolding update_delete_row rowid
  delete_exact row r id db db' flagged e h =
      let e' : pack_rowid (pos row.ea) (pos (flag r)) 1 ≡ Rowid.ok id =
        ap (λ (n : ℕ). pack_rowid (pos row.ea) (pos n) 1) (sym flagged) ∙ e in
      set_comment-done row.ea "" r db db'
        (sym (ap (λ at. delete_at api at db) (decode-rowid row.ea r id e')) ∙ h)

  -- An UPDATE of the text by the rowid of a row writes the comment of that row, and no other; an
  -- empty text clears it.
  pub update_exact :
      (row : CommentRow) (r : Bool) (id : ℤ) (s : String) (db db' : Db)
      → row.repeatable ≡ flag r
      → rowid api row ≡ Rowid.ok id
      → update_change_row api comments_schema id (no_change ∷ text s ∷ no_change ∷ []) db
        ≡ (done tt, db')
      → Written db row.ea r (if s == "" then "" else str (text s)) db'
  unfolding update_change_row rowid change_text apply_schema_specs
  update_exact row r id s db db' flagged e h =
      let e' : pack_rowid (pos row.ea) (pos (flag r)) 1 ≡ Rowid.ok id =
        ap (λ (n : ℕ). pack_rowid (pos row.ea) (pos n) 1) (sym flagged) ∙ e in
      let content = if s == "" then "" else str (text s) in
      set_comment-done row.ea content r db db' (
        ap (λ c. set_comment api row.ea c r db) (chosen (s == "") "" (str (text s)))
        ∙ sym (ap (λ at. change_text api at (some (text s)) db) (decode-rowid row.ea r id e'))
        ∙ h)

  row_made-done :
      (p : Rowid.Result ℤ) (d db' : Db) (id : ℤ)
      → row_made api p d ≡ (done id, db')
      → (d ≡ db') × (p ≡ Rowid.ok id)
  unfolding row_made
  row_made-done (Rowid.ok i) d db' id h = (ap (λ x. x.1) h, ground arith)
  row_made-done (Rowid.err e) d db' id h = absurd (cc)

  new_rowid-done :
      (a : ℕ) (r : Bool) (o : Outcome (Unit {0}) × Db) (db' : Db) (id : ℤ)
      → new_rowid api a r o ≡ (done id, db')
      → (o ≡ (done tt, db')) × (pack_rowid (pos a) (pos (flag r)) 1 ≡ Rowid.ok id)
  unfolding new_rowid
  new_rowid-done a r (failed e, d) db' id h = absurd (cc)
  new_rowid-done a r (done u, d) db' id h =
      let (same, packed) = row_made-done (pack_rowid (pos a) (pos (flag r)) 1) d db' id h in
      (ap (λ x. (done tt, x)) same, packed)

  insert_row-lem :
      (what : String → String) (z : ℤ) (s : String) (rep : SqlValue) (db : Db)
      → is_blank (str (text s)) ≡ false
      → update_insert_row api what comments_schema (int z ∷ text s ∷ rep ∷ []) db
        ≡ new_rowid api
            (address z)
            (truth rep)
            (set_comment api (address z) (str (text s)) (truth rep) db)
  unfolding update_insert_row apply_schema_specs
  insert_row-lem what z s rep db h = rw h refl

  -- An INSERT that gives a rowid has written its comment, and no other; the rowid leads back to the
  -- comment, and it is the one that the table reports for the row; for an integer address and a text
  -- that is not blank, where `set_cmt` writes one comment.
  pub insert_exact :
      (what : String → String) (z : ℤ) (s : String) (rep : SqlValue) (id : ℤ) (db db' : Db)
      → is_blank (str (text s)) ≡ false
      → update_insert_row api what comments_schema (int z ∷ text s ∷ rep ∷ []) db ≡ (done id, db')
      → Written db (address z) (truth rep) (str (text s)) db'
        × (decode_comment_rowid api id ≡ (address z, truth rep))
        × (rowid api
              (record { ea = address z; content = str (text s); repeatable = flag (truth rep) })
            ≡ Rowid.ok id)
  unfolding rowid
  insert_exact what z s rep id db db' solid h =
      let (set, packed) =
        new_rowid-done (address z) (truth rep) _ db' id
          (sym (insert_row-lem what z s rep db solid) ∙ h) in
      (
        set_comment-done (address z) (str (text s)) (truth rep) db db' set,
        decode-rowid (address z) (truth rep) id packed,
        packed,
      )

  -- An INSERT at an address that no rowid can carry raises, but it has written its comment, where
  -- `set_cmt` takes it; for a text that is not blank.
  pub insert_raises_late :
      (what : String → String) (z : ℤ) (s : String) (rep : SqlValue) (e : Rowid.Error) (db db' : Db)
      → is_blank (str (text s)) ≡ false
      → set_cmt db (address z) (str (text s)) (truth rep) ≡ some db'
      → pack_rowid (pos (address z)) (pos (flag (truth rep))) 1 ≡ Rowid.err e
      → (update_insert_row api what comments_schema (int z ∷ text s ∷ rep ∷ []) db
          ≡ (failed (rowid_failed e), db'))
        × Written db (address z) (truth rep) (str (text s)) db'
  unfolding new_rowid set_comment
  insert_raises_late what z s rep e db db' solid set bad = (
    insert_row-lem what z s rep db solid ∙ rw (set_comment, set, new_rowid, bad) refl,
    sets db db' (address z) (str (text s)) (truth rep) set,
  )
