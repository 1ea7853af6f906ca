-- ===== src/Pull/Fill.antt =====
-- `fill_null_book_columns` of src/store.rs, as src/sync/pull.rs calls it.
use braird_core.Prelude.{
  sym, any, String, ◌≡◌, refl, ap, ◌∙◌, false, ◌&&◌, none, some, List, [], ◌∷◌, str_eq,
  if◌then◌else◌, Option-cases, Bool-cases, inl, inr, arith, eq_iff,
}
use braird_core.Json
use braird_core.Json.{Value, Map, Serde, as_str, as_i64}
use braird_core.Json.Laws.{get-insert}
use braird_core.Store.Schema.{ColType, TableSchema, table_schema, book_fillable_columns}
use braird_core.Store.Columns.{table_schema-IsSynced}
use braird_core.Store.Cells.{SqlValue, read_cells, sql_to_json}
use braird_core.Store.State.{Store, update, get_row, schema_or_err}
use braird_core.Store.Rows.{row_stamp, local_updated, local_updated_rows}
use braird_core.Pull.{fill_cells, fill_column, fill_columns, fill_null_book_columns}

get-insert-other :
    (k j : String) (v : Value) (m : Map)
    → str_eq k j ≡ false
    → Json.get j (Json.insert k v m) ≡ Json.get j m
get-insert-other k j v m other = ground (arith, get-insert k j v m)

module _ {Text : Type 0} ⦃serde : Serde Text⦄ where
  -- A filled row reads as before in every other column.
  get-fill_cells :
      (columns : List (String × ColType)) (col value name : String) (cells : List (SqlValue Text))
      → str_eq col name ≡ false
      → Json.get name (read_cells columns (fill_cells columns col value cells))
        ≡ Json.get name (read_cells columns cells)
  unfolding fill_cells read_cells
  get-fill_cells [] col value name cells other = refl
  get-fill_cells ((column, ty) ∷ columns) col value name [] other = refl
  get-fill_cells ((column, ty) ∷ columns) col value name (cell ∷ cells) other =
      elim (Bool-cases (str_eq column name)) [
        | inl e ↦
            let kept : str_eq column col ≡ false =
              ground (arith, eq_iff column name, eq_iff column col, eq_iff col name) in
            rw kept (
              ground (
                arith,
                get-insert column name (sql_to_json cell ty) (read_cells columns cells),
                get-insert column name (sql_to_json cell ty)
                    (read_cells columns (fill_cells columns col value cells)),
              ))
        | inr e ↦
            get-insert-other column name _ _ e
            ∙ get-fill_cells columns col value name cells other
            ∙ sym (get-insert-other column name _ _ e)
      ]

  row_stamp-fill_cells :
      (columns : List (String × ColType)) (col value : String) (cells : List (SqlValue Text))
      → str_eq col "updated_at" ≡ false
      → row_stamp (read_cells columns (fill_cells columns col value cells))
        ≡ row_stamp (read_cells columns cells)
  unfolding row_stamp
  row_stamp-fill_cells columns col value cells other =
      rw (get-fill_cells columns col value "updated_at" cells other)

  outbox-fill_column :
      (s : Store Text) (id col value : String) → (fill_column s id col value).outbox ≡ s.outbox
  unfolding fill_column
  outbox-fill_column s id col value = ground arith

  module _ (s : Store Text) (id col value : String) where
    -- Where the book is stored, its cells are filled.
    rows-fill_column :
        (books : TableSchema) (cells : List (SqlValue Text))
        → table_schema "books" ≡ some books
        → s.rows books.name id ≡ some cells
        → (fill_column s id col value).rows
          ≡ update s.rows books.name
              (update (s.rows books.name) id (some (fill_cells books.columns col value cells)))
    unfolding fill_column
    rows-fill_column books cells e stored = ground (arith, e, stored)

    -- Where it is not, nothing changes.
    rows-fill_column-none :
        (books : TableSchema)
        → table_schema "books" ≡ some books
        → s.rows books.name id ≡ none
        → (fill_column s id col value).rows ≡ s.rows
    unfolding fill_column
    rows-fill_column-none books e stored = ground (arith, e, stored)

    rows-fill_column-unknown :
        table_schema "books" ≡ none → (fill_column s id col value).rows ≡ s.rows
    unfolding fill_column
    rows-fill_column-unknown e = ground (arith, e)

    filled-stamp :
        (books : TableSchema) (cells : List (SqlValue Text))
        → table_schema "books" ≡ some books
        → s.rows books.name id ≡ some cells
        → str_eq col "updated_at" ≡ false
        → (table j : String)
        → local_updated (fill_column s id col value) table j ≡ local_updated s table j
    unfolding local_updated get_row schema_or_err
    filled-stamp books cells e stored other table j = elim (Option-cases (table_schema table)) [
      | inl none' ↦ ground arith
      | inr (schema, found) ↦
          let at : (fill_column s id col value).rows schema.name j ≡ (
              if str_eq books.name schema.name && str_eq id j
              then some (fill_cells books.columns col value cells)
              else s.rows schema.name j) =
            rw (rows-fill_column books cells e stored)
              (unfold update in ground (arith, eq_iff books.name schema.name)) in
          let named : schema.name ≡ table = (table_schema-IsSynced table schema found).1 in
          let named_books : books.name ≡ "books" = (table_schema-IsSynced "books" books e).1 in
          elim (Bool-cases (str_eq books.name schema.name && str_eq id j)) [
            | inl here ↦
                let same_table : table ≡ "books" = ground (arith, eq_iff books.name schema.name) in
                let same : some schema ≡ some books = sym found ∙ ap table_schema same_table ∙ e in
                let same_id : id ≡ j = ground (arith, eq_iff id j) in
                ground (
                  arith,
                  at,
                  same,
                  stored,
                  same_id,
                  row_stamp-fill_cells books.columns col value cells other,
                )
            | inr away ↦ ground (arith, at)
          ]
    ]

    local_updated-fill_column :
        str_eq col "updated_at" ≡ false
        → (table j : String)
        → local_updated (fill_column s id col value) table j ≡ local_updated s table j
    local_updated-fill_column other table j = elim (Option-cases (table_schema "books")) [
      | inl e ↦ local_updated_rows s _ (rows-fill_column-unknown e) table j
      | inr (books, e) ↦ elim (Option-cases (s.rows books.name id)) [
        | inl none' ↦ local_updated_rows s _ (rows-fill_column-none books e none') table j
        | inr (cells, stored) ↦ filled-stamp books cells e stored other table j
      ]
    ]

  -- The columns that are filled are not the stamp.
  fill_columns-stamps :
      (cols : List String) (s : Store Text) (id : String) (incoming : Map)
      → any (λ col. str_eq col "updated_at") cols ≡ false
      → (table j : String)
      → local_updated (fill_columns cols s id incoming) table j ≡ local_updated s table j
  unfolding fill_columns any
  fill_columns-stamps [] s id incoming plain table j = refl
  fill_columns-stamps (col ∷ cols) s id incoming plain table j =
      elim (Option-cases (as_str (Json.get col incoming))) [
        | inl e ↦
            rw (e, fill_columns) (fill_columns-stamps cols s id incoming (ground arith) table j)
        | inr (value, e) ↦
            rw (e, fill_columns)
              (fill_columns-stamps cols (fill_column s id col value) id incoming (ground arith)
                  table j
                ∙ local_updated-fill_column s id col value (ground arith) table j)
      ]

  fill_columns-outbox :
      (cols : List String) (s : Store Text) (id : String) (incoming : Map)
      → (fill_columns cols s id incoming).outbox ≡ s.outbox
  unfolding fill_columns
  fill_columns-outbox [] s id incoming = refl
  fill_columns-outbox (col ∷ cols) s id incoming =
      elim (Option-cases (as_str (Json.get col incoming))) [
        | inl e ↦ rw (e, fill_columns) (fill_columns-outbox cols s id incoming)
        | inr (value, e) ↦
            rw (e, fill_columns)
              (fill_columns-outbox cols (fill_column s id col value) id incoming
                ∙ outbox-fill_column s id col value)
      ]

  module _ (s : Store Text) (id : String) (incoming : Map) where
    -- Filling columns of a book changes no stamp and no queued write.
    pub fill_null_book_columns-stamps :
        (table j : String)
        → local_updated (fill_null_book_columns s id incoming) table j ≡ local_updated s table j
    unfolding fill_null_book_columns any
    fill_null_book_columns-stamps table j =
        fill_columns-stamps book_fillable_columns s id incoming refl table j

    pub fill_null_book_columns-outbox : (fill_null_book_columns s id incoming).outbox ≡ s.outbox
    unfolding fill_null_book_columns
    fill_null_book_columns-outbox = fill_columns-outbox book_fillable_columns s id incoming
