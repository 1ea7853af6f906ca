-- ===== src/Store/Batches.antt =====
-- The batches of src/store.rs at a concrete store: local writes and a tombstone.
use braird_core.Prelude.{
  String, pos, max_ℤ, ◌+ℤ◌, checked_add, ◌≡◌, refl, Option, some, none, true, List, [], ◌∷◌,
}
use braird_core.Json
use braird_core.Json.{
  Value, Items, Map, Number, Serde, IsReread, null, bool, num, str, arr, obj, int, real, nil, cons,
  empty, entry, map_reals, map_reals_items, map_reals_map, as_i64, nonzero, truthy,
}
use braird_core.Json.Kept.{kept_value}
use braird_core.Store.Schema.{table_schema}
use braird_core.Store.Cells.{json_to_sql, sql_to_json, read_cells, project}
use braird_core.Store.State.{
  ok, drop_embedding, replace_row, drop_pending_deletes_inner, update, Store, enqueue,
  schema_or_err, get_row, apply_row,
}
use braird_core.Store.Staging.{stage_write_inner, clamp_stamp, raise_stamp, stored_updated}
use braird_core.Store.Staging.{stage_local_writes, stage_one, is_tombstone}
use braird_core.Store.Examples.{fresh, note, first, second, value_of}

abbrev edits : List (String × String × Map)
edits = ("notes", "n1", note (pos 3) "b") ∷ []

unfoldable edited : Store (Option Value)
edited = value_of (stage_local_writes first edits (pos 7))

edits-staged : stage_local_writes first edits (pos 7) ≡ ok edited
unfolding edited stage_local_writes stage_one is_tombstone second first stage_write_inner get_row
    schema_or_err table_schema clamp_stamp as_i64 Json.get checked_add ◌+ℤ◌ stored_updated apply_row
    value_of enqueue drop_embedding Json.as_str Json.extend raise_stamp max_ℤ Json.insert Json.place
    Json.remove Json.truthy replace_row json_to_sql update read_cells project sql_to_json
    drop_pending_deletes_inner
edits-staged = refl

-- A note with a vector, and its tombstone.
abbrev embedded : Store (Option Value)
embedded = record fresh {
  embeddings = λ id. some (record {
    model_version = "m";
    content_token = "t";
    encrypted_vector = none;
    updated_at = pos 1;
  });
}

abbrev tombstone : Map
tombstone = entry "id" (str "n1") (entry "deleted" (bool true) empty)

unfoldable dropped : Store (Option Value)
dropped = value_of (apply_row embedded "notes" tombstone)

tombstone-applied : apply_row embedded "notes" tombstone ≡ ok dropped
unfolding dropped value_of apply_row schema_or_err table_schema
tombstone-applied = refl
