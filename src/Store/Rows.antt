-- ===== src/Store/Rows.antt =====
-- Reads after writes in src/store.rs: what `get_row` sees after `apply_row`.
use braird_core.Prelude.{
  String, ℤ, pos, ◌≡◌, refl, ap, ◌∙◌, ◌&&◌, Option, none, some, arith, eq_iff, str_eq,
  if◌then◌else◌, unwrap_or, Option-cases, inl, inr,
}
use braird_core.Json
use braird_core.Json.{Value, Map, Serde, str, as_i64, as_str}
use braird_core.Store.Schema.{TableSchema, table_schema}
use braird_core.Store.Columns.{table_schema-IsSynced}
use braird_core.Store.Cells.{json_to_sql, project, read_cells, get-read_cells, int_column}
use braird_core.Store.State.{
  ok, Store, update, schema_or_err, get_row, replace_row, drop_embedding, apply_row,
}

-- The stamp by which a row is compared, 0 where it has none.

unfoldable pub row_stamp : Map → ℤ
row_stamp row = unwrap_or (as_i64 (Json.get "updated_at" row)) (pos 0)

-- The primary key of a row for a table, where it is a text.
unfoldable pub key_of : String → Map → Option String
key_of table row = elim (table_schema table) [
  | none ↦ none
  | some schema ↦ as_str (Json.get schema.pk row)
]

module _ {Text : Type 0} ⦃serde : Serde Text⦄ where
  -- The stamp of the stored row, none where there is no row.
  unfoldable pub local_updated : Store Text → String → String → Option ℤ
  local_updated s table id = elim (get_row s table id) [
    | ok (some row) ↦ some (row_stamp row)
    | _ ↦ none
  ]

  module _ (s : Store Text) (table : String) (row : Map) where
    rows-drop_embedding : (drop_embedding s table row).rows ≡ s.rows
    unfolding drop_embedding
    rows-drop_embedding = ground arith

    outbox-drop_embedding : (drop_embedding s table row).outbox ≡ s.outbox
    unfolding drop_embedding
    outbox-drop_embedding = ground arith

    outbox-replace_row : (schema : TableSchema) → (replace_row s schema row).outbox ≡ s.outbox
    unfolding replace_row
    outbox-replace_row schema = ground arith

    last_outbox_id-apply :
        (schema : TableSchema)
        → (drop_embedding (replace_row s schema row) table row).last_outbox_id ≡ s.last_outbox_id
    unfolding replace_row drop_embedding
    last_outbox_id-apply schema = ground arith

    -- A row with its key replaces the row of that key, and no other.
    rows-replace_row :
        (schema : TableSchema) (id : String)
        → Json.get schema.pk row ≡ some (str id)
        → (replace_row s schema row).rows
          ≡ update s.rows schema.name
              (update (s.rows schema.name) id (some (project schema.columns row)))
    unfolding replace_row json_to_sql
    rows-replace_row schema id key = rw (key, replace_row) refl

    pub apply_row-inv :
        {t : Store Text}
        → apply_row s table row ≡ ok t
        → (schema : TableSchema) × (table_schema table ≡ some schema)
          × (t ≡ drop_embedding (replace_row s schema row) table row)
    unfolding apply_row schema_or_err
    apply_row-inv h = elim (Option-cases (table_schema table)) [
      | inl e ↦ absurd (ground arith)
      | inr (schema, e) ↦ (schema, e, ground arith)
    ]

  -- A write of a row leaves the queue alone.
  pub outbox-apply_row :
      (s : Store Text) (table : String) (row : Map) {t : Store Text}
      → apply_row s table row ≡ ok t
      → t.outbox ≡ s.outbox
  outbox-apply_row s table row h =
      let (schema, found, e) = apply_row-inv s table row h in
      rw e (
        outbox-drop_embedding (replace_row s schema row) table row
        ∙ outbox-replace_row s table row schema)

  pub last_outbox_id-apply_row :
      (s : Store Text) (table : String) (row : Map) {t : Store Text}
      → apply_row s table row ≡ ok t
      → t.last_outbox_id ≡ s.last_outbox_id
  last_outbox_id-apply_row s table row h =
      let (schema, found, e) = apply_row-inv s table row h in
      rw e (last_outbox_id-apply s table row schema)

  -- The stored stamps depend on the rows alone.
  pub local_updated_rows :
      (s t : Store Text)
      → t.rows ≡ s.rows
      → (table j : String) → local_updated t table j ≡ local_updated s table j
  unfolding local_updated get_row
  local_updated_rows s t e table j = rw (e, local_updated, get_row) refl

  -- The reads of a store depend on the rows alone.
  pub get_row_rows :
      (s t : Store Text)
      → t.rows ≡ s.rows
      → (table j : String) → get_row t table j ≡ get_row s table j
  unfolding get_row
  get_row_rows s t e table j = rw (e, get_row) refl

  module _ (s : Store Text) (table : String) (row : Map) (schema : TableSchema) (id : String)
      {t : Store Text} (found : table_schema table ≡ some schema)
      (key : Json.get schema.pk row ≡ some (str id)) (applied : apply_row s table row ≡ ok t) where
    rows-apply_row :
        (name j : String)
        → t.rows name j ≡ (
            if str_eq table name && str_eq id j
            then some (project schema.columns row)
            else s.rows name j)
    rows-apply_row name j =
        let (schema', found', e) = apply_row-inv s table row applied in
        let same : schema' ≡ schema = ground arith in
        let named : schema.name ≡ table = (table_schema-IsSynced table schema found).1 in
        let rows : t.rows
            ≡ update s.rows table (update (s.rows table) id (some (project schema.columns row))) =
          ap (λ (u : Store Text). u.rows) e
          ∙ rows-drop_embedding (replace_row s schema' row) table row
          ∙ ap (λ c. (replace_row s c row).rows) same
          ∙ rows-replace_row s table row schema id key
          ∙ ap (λ n. update s.rows n (update (s.rows n) id (some (project schema.columns row))))
              named in
        rw rows (unfold update in ground (arith, eq_iff table name))

    -- After a row is written, `get_row` reads it back through its columns, and every other row as
    -- before.
    pub get_row-apply_row :
        (other j : String)
        → get_row t other j ≡ (
            if str_eq table other && str_eq id j
            then ok (some (read_cells schema.columns (project {Text = Text} schema.columns row)))
            else get_row s other j)
    unfolding get_row schema_or_err
    get_row-apply_row other j = elim (Option-cases (table_schema other)) [
      | inl e ↦ ground (arith, eq_iff table other)
      | inr (schema', e) ↦ ground (
        arith,
        eq_iff table other,
        table_schema-IsSynced other schema' e,
        rows-apply_row schema'.name j,
      )
    ]

    row_stamp-read :
        row_stamp (read_cells schema.columns (project {Text = Text} schema.columns row))
        ≡ row_stamp row
    unfolding row_stamp
    row_stamp-read =
        let synced = (table_schema-IsSynced table schema found).0 in
        ground (
          arith,
          synced.updated_at,
          get-read_cells Text schema.columns row "updated_at",
          int_column Text (Json.get "updated_at" row),
        )

    -- Only the stamp of the written row changes, to the stamp of what was written.
    pub local_updated-apply_row :
        (other j : String)
        → local_updated t other j ≡ (
            if str_eq table other && str_eq id j
            then some (row_stamp row)
            else local_updated s other j)
    unfolding local_updated
    local_updated-apply_row other j = ground (arith, get_row-apply_row other j, row_stamp-read)
