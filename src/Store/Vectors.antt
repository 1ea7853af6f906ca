-- ===== src/Store/Vectors.antt =====
-- `apply_row` of src/store.rs on the tables of vectors, derived from the texts of notes and questions.
use braird_core.Prelude.{
  String, ◌≡◌, ap, ◌∙◌, none, some, arith, str_eq, eq_iff, if◌then◌else◌, ◌&&◌,
}
use braird_core.Json
use braird_core.Json.{Map, Serde, str, truthy, as_str}
use braird_core.Store.Schema.{TableSchema}
use braird_core.Store.State.{ok, Store, update, replace_row, drop_embedding, apply_row}
use braird_core.Store.Rows.{apply_row-inv}

module _ {Text : Type 0} ⦃serde : Serde Text⦄ (s : Store Text) (table : String) (row : Map)
    (id : String) (named : Json.get "id" row ≡ some (str id)) where
  embeddings-drop :
      (schema : TableSchema) (j : String)
      → (drop_embedding (replace_row s schema row) table row).embeddings j ≡ (
          if truthy (Json.get "deleted" row) && str_eq table "notes" && str_eq id j
          then none
          else s.embeddings j)
  unfolding drop_embedding replace_row update as_str
  embeddings-drop schema j = ground (arith, named)

  question_embeddings-drop :
      (schema : TableSchema) (j : String)
      → (drop_embedding (replace_row s schema row) table row).question_embeddings j ≡ (
          if truthy (Json.get "deleted" row) && str_eq table "questions" && str_eq id j
          then none
          else s.question_embeddings j)
  unfolding drop_embedding replace_row update as_str
  question_embeddings-drop schema j =
      ground
        (arith, named, eq_iff table "notes", eq_iff table "questions", eq_iff "notes" "questions")

  -- A row with an id that is applied drops the vector of its note or question where it is a
  -- tombstone of one, and no other vector of either table.
  pub apply_row-vectors :
      {t : Store Text}
      → apply_row s table row ≡ ok t
      → (j : String)
      → (t.embeddings j ≡ (
          if truthy (Json.get "deleted" row) && str_eq table "notes" && str_eq id j
          then none
          else s.embeddings j))
        × (t.question_embeddings j ≡ (
            if truthy (Json.get "deleted" row) && str_eq table "questions" && str_eq id j
            then none
            else s.question_embeddings j))
  apply_row-vectors applied j =
      let (schema, found, e) = apply_row-inv s table row applied in
      (
        ap (λ (u : Store Text). u.embeddings j) e ∙ embeddings-drop schema j,
        ap (λ (u : Store Text). u.question_embeddings j) e ∙ question_embeddings-drop schema j,
      )
