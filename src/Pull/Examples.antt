-- ===== src/Pull/Examples.antt =====
-- Runs of src/sync/pull.rs, and its theorems at a concrete store.
use braird_core.Prelude.{ℤ, pos, ◌≡◌, refl, Option, none, some, [], ◌∷◌}
use braird_core.Json
use braird_core.Json.{
  Value, Map, str, num, int, obj, empty, entry, as_str, as_i64, as_bool, truthy, map_reals,
}
use braird_core.Json.Kept.{kept_value}
use braird_core.Store.Schema.{TableSchema, table_schema}
use braird_core.Store.Cells.{json_to_sql, sql_to_json, read_cells, project}
use braird_core.Store.State.{
  Store, Result, ok, err, get_row, schema_or_err, apply_row, drop_embedding, replace_row, update,
}
use braird_core.Store.Staging.{apply_row_rebasing_outbox}
use braird_core.Store.Rows.{row_stamp, local_updated}
use braird_core.Store.Backed.{IsBacked}
use braird_core.Pull.{
  PageMerge, page, refusal, Source, merge_object, local_stamp, should_apply, apply_winner,
  keep_local,
}
use braird_core.Pull.Merge.{is_deletion}
use braird_core.Pull.Settle.{settle, merge_object-settles, merge_object-IsBacked}
use braird_core.Pull.Pages.{no_stats, pull_table}
use braird_core.Pull.Outcome.{IsSettled, pull_table-IsSettled}

abbrev blank : Store (Option Value)
blank = record {
  rows = λ table id. none;
  keyless = [];
  outbox = [];
  last_outbox_id = pos 0;
  meta = λ key. none;
  embeddings = λ id. none;
  question_embeddings = λ id. none;
}

unfoldable start : PageMerge (Option Value)
start = record { store = blank; stats = no_stats; page_max = pos 0 }

abbrev note : ℤ → Map
note stamp = entry "id" (str "n1") (
    entry "text" (str "c")
      (entry "updated_at" (num (int stamp)) (entry "change_seq" (num (int (pos 4))) empty)))

unfoldable notes : TableSchema
unfolding table_schema
notes = elim (table_schema "notes") [
  | some t ↦ t
  | none ↦ record { name = ""; pk = ""; columns = [] }
]

notes-found : table_schema "notes" ≡ some notes
unfolding notes table_schema
notes-found = refl

note-key : (stamp : ℤ) → Json.get notes.pk (note stamp) ≡ some (str "n1")
unfolding notes table_schema Json.get
note-key stamp = refl

unfoldable value_of : Result (PageMerge (Option Value)) → PageMerge (Option Value)
value_of (ok m) = m
value_of (err e) = start

unfoldable once : PageMerge (Option Value)
once = value_of (merge_object "notes" "n1" (note (pos 9)) start)

once-merged : merge_object "notes" "n1" (note (pos 9)) start ≡ ok once
unfolding once value_of start merge_object get_row schema_or_err table_schema as_bool Json.get
    should_apply local_stamp apply_winner apply_row_rebasing_outbox apply_row
once-merged = refl

unfoldable twice : PageMerge (Option Value)
twice = value_of (merge_object "notes" "n1" (note (pos 9)) once)

twice-merged : merge_object "notes" "n1" (note (pos 9)) once ≡ ok twice
unfolding twice once value_of start merge_object get_row schema_or_err table_schema as_bool Json.get
    should_apply local_stamp apply_winner apply_row_rebasing_outbox apply_row as_str drop_embedding
    truthy replace_row json_to_sql update read_cells project sql_to_json as_i64 row_stamp
    Json.insert Json.place Json.remove keep_local kept_value map_reals
twice-merged = refl

merge_object-settles_example :
    local_updated once.store "notes" "n1"
    ≡ settle
        (local_updated start.store "notes" "n1")
        (is_deletion (note (pos 9)))
        (row_stamp (note (pos 9)))
merge_object-settles_example =
    merge_object-settles "notes" "n1" (note (pos 9)) notes notes-found (note-key (pos 9)) start
      once-merged "notes" "n1"

merge_object-IsBacked_example : IsBacked once.store
unfolding start
merge_object-IsBacked_example =
    merge_object-IsBacked "notes" "n1" (note (pos 9)) notes notes-found (note-key (pos 9)) start
      once-merged tt

-- A server with one page, after a failure of the transport.
abbrev source : Source
source [] request = refusal "transport: reset"
source (earlier ∷ asked) request = page (obj (note (pos 9)) ∷ [])

pull_table-IsSettled_example : IsSettled (pull_table source [] blank "notes" 1000)
pull_table-IsSettled_example = pull_table-IsSettled source [] blank "notes" 1000 tt
