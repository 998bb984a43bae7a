-- ===== src/Tables/Names/Writes.antt =====
-- An UPDATE of the table of names (src/ida_bridge/sql/tables/core.py).
use ida_bridge.Common.{
  ℕ, ◌≡◌, ◌≢◌, refl, ap, sym, ◌∙◌, subst, inl, inr, String, true, false, none, some, [], ◌∷◌,
  number_key, text_key, ◌==◌, same_iff, same_self, if◌then◌else◌, Bool-cases, Option-cases, arith,
}
use ida_bridge.Common.Int.{ℤ}
use ida_bridge.Sql.U64.{text, no_change}
use ida_bridge.Tables.Columns.{ColumnSpecs, Schema, apply_schema_specs}
use ida_bridge.Tables.Bounds.{address}
use ida_bridge.Tables.Names.{NameStore, set_new_name, rename, update_change_row}

-- `COLUMN_SPECS` and the columns of the CREATE TABLE text.
abbrev pub column_specs : ColumnSpecs
column_specs =
    ("address", record { hex = true; u64 = true; rowid = true; writable = false })
    ∷ ("name", record { hex = false; u64 = false; rowid = false; writable = true })
    ∷ []

abbrev pub names_schema : Schema
names_schema = apply_schema_specs "names" ("address" ∷ "name" ∷ "is_auto" ∷ []) column_specs

-- `set_name` gives one address a name, when the name is not empty; an empty one clears the name, and
-- `get_name` may then make one up.
abbrev pub SetsName : NameStore → Type 0
SetsName store =
    (db db' : store.Db) (ea : ℕ) (name : String)
    → (name == "") ≡ false
    → store.set_name db ea name ≡ some db'
    → (a : ℕ) → store.get_name db' a ≡ (if ea == a then name else store.get_name db a)

module _ (store : NameStore) (sets : SetsName store) where
  open store use {Db, get_name, set_name, text_of}

  -- One address has this name, and the others have the names that they had.
  pub record Named (db : Db) (ea : ℕ) (name : String) (db' : Db) : Type 0 where
    pub given : get_name db' ea ≡ name
    pub kept : (a : ℕ) → ea ≢ a → get_name db' a ≡ get_name db a

  set_name-Named :
      (ea : ℕ) (name : String) (db db' : Db)
      → (name == "") ≡ false
      → set_name db ea name ≡ some db'
      → Named db ea name db'
  set_name-Named ea name db db' solid set = record {
    given = sets db db' ea name solid set ea ∙ rw (same_self ea) refl;
    kept = λ a ne.
        let other : (ea == a) ≡ false = ground arith in
        sets db db' ea name solid set a ∙ rw other refl;
  }

  set_new_name-Named :
      (ea : ℕ) (name : String) (db db' : Db)
      → (name == "") ≡ false
      → set_new_name store ea name db ≡ (none, db')
      → Named db ea name db'
  unfolding set_new_name
  set_new_name-Named ea name db db' solid h = elim (Bool-cases (name == get_name db ea)) [
    | inl e ↦
        let h' = rw e at h in
        let same : db ≡ db' = ap (λ r. r.1) h' in
        let found : get_name db ea ≡ name = sym ((same_iff name (get_name db ea)).0 e) in
        subst (λ d. Named db ea name d) same (record { given = found; kept = λ a ne. refl })
    | inr e ↦ elim (Option-cases (set_name db ea name)) [
      | inl failed ↦ absurd (let h' = rw (e, failed) at h in cc)
      | inr (d, set) ↦
          let h' = rw (e, set) at h in
          let same : d ≡ db' = ap (λ r. r.1) h' in
          set_name-Named ea name db db' solid (set ∙ ap some same)
    ]
  ]

  -- An UPDATE of the name, by the rowid of a row, to a name that is not empty: when it does not raise,
  -- the address of the row has this name, and every other address the name that it had.
  pub rename_exact :
      (what : String → String) (rowid : ℤ) (s : String) (db db' : Db)
      → (text_of (text s) == "") ≡ false
      → update_change_row store what names_schema rowid (no_change ∷ text s ∷ no_change ∷ []) db
        ≡ (none, db')
      → Named db (address rowid) (text_of (text s)) db'
  unfolding update_change_row rename apply_schema_specs
  rename_exact what rowid s db db' solid h =
      set_new_name-Named (address rowid) (text_of (text s)) db db' solid h
