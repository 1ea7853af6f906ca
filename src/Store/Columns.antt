-- ===== src/Store/Columns.antt =====
-- What the table descriptors of src/store.rs have in common.
use braird_core.Prelude.{
  String, ◌≡◌, false, some, List, [], ◌∷◌, All, str_eq, eq_iff, arith, Bool-cases, inl, inr, subst,
  some,
}
use braird_core.Prelude.Maps
use braird_core.Store.Schema.{
  text, int, bool, TableSchema, find_table, table_schema, descriptor_tables,
}

module _ (P : TableSchema → Type 0) where
  find_table-All :
      (name : String) (ts : List TableSchema) (t : TableSchema)
      → All P ts
      → find_table name ts ≡ some t
      → P t × (t.name ≡ name)
  unfolding find_table
  find_table-All name [] t h e = absurd (ground arith)
  find_table-All name (u ∷ ts) t h e = elim (Bool-cases (str_eq u.name name)) [
    | inl found ↦
        let same : u ≡ t = ground arith in
        (subst P same h.0, rw (← same) ((eq_iff u.name name).0 found))
    | inr other ↦ find_table-All name ts t h.1 (ground arith)
  ]

-- The columns that the synchronisation reads on every table.
pub record IsSynced (t : TableSchema) : Type 0 where
  pub updated_at : Maps.lookup "updated_at" t.columns ≡ some int
  pub deleted : Maps.lookup "deleted" t.columns ≡ some bool
  pub key : Maps.lookup t.pk t.columns ≡ some text

IsSynced-All : All IsSynced descriptor_tables
unfolding descriptor_tables Maps.lookup
IsSynced-All = ground arith

-- Every table that a name finds has these columns, and that name.
pub table_schema-IsSynced :
    (name : String) (t : TableSchema) → table_schema name ≡ some t → IsSynced t × (t.name ≡ name)
unfolding table_schema
table_schema-IsSynced name t h = find_table-All IsSynced name descriptor_tables t IsSynced-All h

-- No table's primary key is one of the columns that an import rewrites.
pub record HasPlainKey (t : TableSchema) : Type 0 where
  pub text : str_eq "text" t.pk ≡ false
  pub content_tag : str_eq "content_tag" t.pk ≡ false
  pub url : str_eq "url" t.pk ≡ false
  pub status : str_eq "status" t.pk ≡ false
  pub kind : str_eq "kind" t.pk ≡ false
  pub updated_at : str_eq "updated_at" t.pk ≡ false
  pub user_id : str_eq "user_id" t.pk ≡ false
  pub deleted : str_eq "deleted" t.pk ≡ false

HasPlainKey-All : All HasPlainKey descriptor_tables
unfolding descriptor_tables
HasPlainKey-All = ground arith

pub table_schema-HasPlainKey :
    (name : String) (t : TableSchema) → table_schema name ≡ some t → HasPlainKey t
unfolding table_schema
table_schema-HasPlainKey name t h =
    (find_table-All HasPlainKey name descriptor_tables t HasPlainKey-All h).0
