-- ===== src/Store/State.antt =====
-- The state behind `Store` of src/store.rs, and its reads and writes below the transactions. SQLite
-- is read as what its statements say: a table as its rows by primary key, and the `outbox` table in
-- the order of its AUTOINCREMENT ids. Failures of SQLite itself (I/O, a full disk) are not modelled.
use braird_core.Prelude.{
  ℕ, String, ℤ, pos, ◌+ℤ◌, Bool, false, ◌&&◌, Option, none, some, List, [], ◌∷◌, ◌++◌, str_eq,
  if◌then◌else◌, sort_by_key, filter, not, eqb_ℤ, any,
}
use braird_core.Json
use braird_core.Json.{
  Value, Map, Serde, num, int, bool, obj, empty, as_i64, as_str, as_bool, truthy,
}
use braird_core.Store.Schema.{ColType, TableSchema, table_schema}
use braird_core.Store.Cells.{SqlValue, text, json_to_sql, project, read_cells}

-- `rusqlite::Error`, as far as the code itself raises it

pub data SqlError : Type 0 where
  unknown_table stamp_overflow : SqlError

-- `rusqlite::Result`
pub data Result {ℓ} (A : Type ℓ) : Type ℓ where
  err : SqlError → Result A
  ok : A → Result A

-- The `?` operator: the transaction stops at the first error.
module _ {ℓ κ} {A : Type ℓ} {B : Type κ} where
  infixl 5 ◌>>=◌
  abbrev pub ◌>>=◌ : Result A → (A → Result B) → Result B
  err e >>= next = err e
  ok value >>= next = next value

pub record OutboxRow (Text : Type 0) : Type 0 where
  pub id : ℤ
  pub table_name : String
  pub record_id : Option String
  pub payload : Text
  pub created_at : ℤ

-- A row of `embeddings` or `question_embeddings`, by its note or question.
pub record Embedding : Type 0 where
  pub model_version : String
  pub content_token : String
  pub encrypted_vector : Option (List ℕ)
  pub updated_at : ℤ

-- A value of the `meta` table: what its text was printed from, a decimal number or a JSON text.
pub data MetaValue (Text : Type 0) : Type 0 where
  decimal : ℤ → MetaValue Text
  json_text : Text → MetaValue Text

pub record Store (Text : Type 0) : Type 0 where
  -- the rows of a table by the text of their primary key
  pub rows : String → String → Option (List (SqlValue Text))
  -- rows whose primary key is NULL: SQLite keeps them, and no lookup by key finds them
  pub keyless : List (String × List (SqlValue Text))
  pub outbox : List (OutboxRow Text)
  -- the last id that AUTOINCREMENT gave out
  pub last_outbox_id : ℤ
  pub meta : String → Option (MetaValue Text)
  pub embeddings : String → Option Embedding
  pub question_embeddings : String → Option Embedding

-- A table or a key set anew.
unfoldable pub update {ℓ} : {A : Type ℓ} → (String → A) → String → A → String → A
update f k v j = if str_eq k j then v else f j

unfoldable pub schema_or_err : String → Result TableSchema
schema_or_err table = elim (table_schema table) [ none ↦ err unknown_table | some t ↦ ok t ]

module _ {Text : Type 0} ⦃serde : Serde Text⦄ where
  -- INSERT INTO outbox
  unfoldable pub enqueue : Store Text → String → String → Text → ℤ → Store Text
  enqueue s table_name record_id payload created_at =
      let id = s.last_outbox_id +ℤ pos 1 in
      record s {
        outbox =
            s.outbox
            ++ record {
              id = id;
              table_name = table_name;
              record_id = some record_id;
              payload = payload;
              created_at = created_at;
            }
              ∷ [];
        last_outbox_id = id;
      }

  -- ORDER BY created_at, id: the table is in the order of its ids, and the sort is stable.
  unfoldable pub outbox_items : Store Text → List (OutboxRow Text)
  outbox_items s = sort_by_key (λ r. r.created_at) s.outbox

  -- DELETE FROM outbox WHERE id = ?1, for each of the ids
  unfoldable pub clear_outbox : Store Text → List ℤ → Store Text
  clear_outbox s ids = record s {
    outbox = filter (λ r. not (any (λ id. eqb_ℤ id r.id) ids)) s.outbox;
  }

  -- WHERE table_name = ?1 AND record_id = ?2
  unfoldable pub is_for : String → String → OutboxRow Text → Bool
  is_for table record_id r = elim r.record_id [
    | none ↦ false
    | some id ↦ str_eq r.table_name table && str_eq id record_id
  ]

  -- The columns that a payload gives: none where the text is no JSON object.
  unfoldable pub payload_fields : Text → Map
  payload_fields payload = elim (serde.from_str payload) [ some (obj m) ↦ m | _ ↦ empty ]

  unfoldable pub is_pending_delete : String → String → OutboxRow Text → Bool
  is_pending_delete table record_id r =
      is_for table record_id r && truthy (Json.get "deleted" (payload_fields r.payload))

  unfoldable pub drop_pending_deletes_inner : Store Text → String → String → Store Text
  drop_pending_deletes_inner s table record_id = record s {
    outbox = filter (λ r. not (is_pending_delete table record_id r)) s.outbox;
  }

  unfoldable pub get_row : Store Text → String → String → Result (Option Map)
  get_row s table id = do
    schema ← schema_or_err table
    ok (elim (s.rows schema.name id) [
      | none ↦ none
      | some cells ↦ some (read_cells schema.columns cells)
    ])

  -- INSERT OR REPLACE: the row of that primary key is replaced.
  unfoldable pub replace_row : Store Text → TableSchema → Map → Store Text
  replace_row s schema row =
      let cells = project schema.columns row in
      elim (json_to_sql {Text = Text} (Json.get schema.pk row) ColType.text) [
        | text id ↦ record s {
          rows = update s.rows schema.name (update (s.rows schema.name) id (some cells));
        }
        | _ ↦ record s { keyless = s.keyless ++ (schema.name, cells) ∷ [] }
      ]

  -- A tombstone of a note or a question takes its vector with it.
  unfoldable pub drop_embedding : Store Text → String → Map → Store Text
  drop_embedding s table row = elim (as_str (Json.get "id" row)) [
    | none ↦ s
    | some id ↦
        if truthy (Json.get "deleted" row)
        then (if str_eq table "notes"
            then record s { embeddings = update s.embeddings id none }
            else if str_eq table "questions"
            then record s { question_embeddings = update s.question_embeddings id none }
            else s)
        else s
  ]

  unfoldable pub apply_row : Store Text → String → Map → Result (Store Text)
  apply_row s table row = do
    schema ← schema_or_err table
    ok (drop_embedding (replace_row s schema row) table row)
