-- ===== src/Store/Schema.antt =====
-- The table descriptors of src/store.rs. Every primary key there is a single column, so `pk` is its
-- name.
use Prim.Native.String.{◌++◌ as append}
use braird_core.Prelude.{
  String, Option, none, some, List, [], ◌∷◌, ◌++◌, map, str_eq, if◌then◌else◌,
}

pub data ColType : Type 0 where
  text int bool real json : ColType

pub record TableSchema : Type 0 where
  pub name : String
  pub pk : String
  pub columns : List (String × ColType)

unfoldable pub synced_schema : List TableSchema
synced_schema =
    record {
      name = "books";
      pk = "id";
      columns =
          ("id", text)
          ∷ ("title", text)
          ∷ ("author", text)
          ∷ ("isbn", text)
          ∷ ("cover_url", text)
          ∷ ("cover_source", text)
          ∷ ("cover_resolved_at", int)
          ∷ ("merged_into", text)
          ∷ ("status", text)
          ∷ ("kind", text)
          ∷ ("url", text)
          ∷ ("created_at", int)
          ∷ ("updated_at", int)
          ∷ ("deleted", bool)
          ∷ [];
    }
    ∷ record {
      name = "notes";
      pk = "id";
      columns =
          ("id", text)
          ∷ ("book_id", text)
          ∷ ("text", text)
          ∷ ("page", text)
          ∷ ("tags", json)
          ∷ ("image_path", text)
          ∷ ("ink_crop_path", text)
          ∷ ("source", text)
          ∷ ("source_id", text)
          ∷ ("source_meta", json)
          ∷ ("chapter", text)
          ∷ ("content_tag", text)
          ∷ ("created_at", int)
          ∷ ("updated_at", int)
          ∷ ("deleted", bool)
          ∷ [];
    }
    ∷ record {
      name = "custom_ideas";
      pk = "id";
      columns =
          ("id", text)
          ∷ ("name", text)
          ∷ ("description", text)
          ∷ ("created_at", int)
          ∷ ("updated_at", int)
          ∷ ("deleted", bool)
          ∷ [];
    }
    ∷ record {
      name = "note_links";
      pk = "id";
      columns =
          ("id", text)
          ∷ ("from_note_id", text)
          ∷ ("to_note_id", text)
          ∷ ("relation_type", text)
          ∷ ("created_at", int)
          ∷ ("updated_at", int)
          ∷ ("deleted", bool)
          ∷ [];
    }
    ∷ record {
      name = "lenses";
      pk = "id";
      columns =
          ("id", text)
          ∷ ("name", text)
          ∷ ("leaf_ids", json)
          ∷ ("combinator", text)
          ∷ ("threshold", int)
          ∷ ("created_at", int)
          ∷ ("updated_at", int)
          ∷ ("deleted", bool)
          ∷ [];
    }
    ∷ record {
      name = "collections";
      pk = "id";
      columns =
          ("id", text)
          ∷ ("name", text)
          ∷ ("created_at", int)
          ∷ ("updated_at", int)
          ∷ ("deleted", bool)
          ∷ [];
    }
    ∷ record {
      name = "collection_memberships";
      pk = "id";
      columns =
          ("id", text)
          ∷ ("note_id", text)
          ∷ ("collection_id", text)
          ∷ ("created_at", int)
          ∷ ("updated_at", int)
          ∷ ("deleted", bool)
          ∷ [];
    }
    ∷ record {
      name = "note_signals";
      pk = "note_id";
      columns =
          ("note_id", text)
          ∷ ("source_prior", real)
          ∷ ("return_visits", int)
          ∷ ("has_annotation", bool)
          ∷ ("stitch_spawns", int)
          ∷ ("exposure_recency_at", int)
          ∷ ("engagement_recency_at", int)
          ∷ ("importance", real)
          ∷ ("created_at", int)
          ∷ ("updated_at", int)
          ∷ ("deleted", bool)
          ∷ [];
    }
    ∷ []

unfoldable pub native_schema : List TableSchema
native_schema =
    record {
      name = "questions";
      pk = "id";
      columns =
          ("id", text)
          ∷ ("text", text)
          ∷ ("status", text)
          ∷ ("tone", text)
          ∷ ("resolved_at", int)
          ∷ ("checkin_at", int)
          ∷ ("checkin_response", text)
          ∷ ("created_at", int)
          ∷ ("updated_at", int)
          ∷ ("deleted", bool)
          ∷ [];
    }
    ∷ record {
      name = "question_notes";
      pk = "id";
      columns =
          ("id", text)
          ∷ ("question_id", text)
          ∷ ("note_id", text)
          ∷ ("created_at", int)
          ∷ ("updated_at", int)
          ∷ ("deleted", bool)
          ∷ [];
    }
    ∷ record {
      name = "user_settings";
      pk = "key";
      columns = ("key", text) ∷ ("value", text) ∷ ("updated_at", int) ∷ ("deleted", bool) ∷ [];
    }
    ∷ []

unfoldable pub descriptor_tables : List TableSchema
unfolding synced_schema native_schema
descriptor_tables = synced_schema ++ native_schema

-- `Iterator::find` by name
unfoldable pub find_table : String → List TableSchema → Option TableSchema
find_table name [] = none
find_table name (t ∷ ts) = if str_eq t.name name then some t else find_table name ts

unfoldable pub table_schema : String → Option TableSchema
unfolding find_table descriptor_tables
table_schema name = find_table name descriptor_tables

unfoldable pub synced_table_names : List String
unfolding descriptor_tables
synced_table_names = map (λ t. t.name) descriptor_tables

unfoldable pub membership_id : String → String → String
membership_id collection_id note_id = append collection_id (append ":" note_id)

unfoldable pub question_note_id : String → String → String
question_note_id question_id note_id = append question_id (append ":" note_id)

abbrev pub book_fillable_columns : List String
book_fillable_columns = "status" ∷ "kind" ∷ "url" ∷ []
