-- ===== src/System/Examples.antt =====
-- A run of src/store.rs, src/sync/push.rs and src/sync/pull.rs together, and its theorem.
use braird_core.Prelude.{Option, some, [], ◌∷◌, pos, ◌≡◌, refl, true, ◌+ℤ◌, checked_add, max_ℤ}
use braird_core.Json
use braird_core.Json.{Value, Map, obj, as_i64}
use braird_core.Json.Kept.{kept_value}
use braird_core.Store.Schema.{table_schema, synced_table_names}
use braird_core.Store.State.{
  Store, clear_outbox, get_row, schema_or_err, apply_row, enqueue, drop_embedding, replace_row,
}
use braird_core.Store.Cells.{json_to_sql}
use braird_core.Store.Meta.{meta_get}
use braird_core.Store.Staging.{
  stage_local_write, stage_write_inner, clamp_stamp, stored_updated, raise_stamp,
}
use braird_core.Store.Backed.{IsBacked}
use braird_core.Store.Writes.{IsStamped}
use braird_core.Store.Examples.{
  fresh, note, notes, notes-found, notes-key, first, first-staged, value_of,
}
use braird_core.Pull.{Source, page}
use braird_core.Pull.Pages.{no_result, pull}
use braird_core.Push.{Server, FlushRun}
use braird_core.Push.Flush.{flush, flush_tables, fresh_run, load_remap, collapsed_queue}
use braird_core.System.{Step, Reach, Reach-IsBacked}

abbrev server : Server
server sent request = true

-- One row from another device, then empty pages.
abbrev source : Source
source [] request = page (obj (note (pos 9) "c") ∷ [])
source (earlier ∷ asked) request = page []

write : IsStamped "notes" "n1" (note (pos 5) "a")
write = record {
  schema = notes;
  stamp = pos 5;
  found = notes-found;
  key = notes-key;
  stamped = unfold as_i64 Json.get in refl;
}

unfoldable outcome : Store (Option Value) × FlushRun
outcome =
    flush_tables server "u1" (collapsed_queue first []) synced_table_names (first, fresh_run [])

abbrev sent : Store (Option Value)
sent = clear_outbox outcome.0 outcome.1.ok_ids

flushed : flush server "u1" first ≡ some (sent, outcome.1)
unfolding flush load_remap meta_get outcome first value_of stage_write_inner get_row schema_or_err
    table_schema clamp_stamp as_i64 Json.get checked_add ◌+ℤ◌ stored_updated apply_row enqueue
    drop_embedding Json.as_str Json.extend raise_stamp max_ℤ Json.insert Json.place Json.remove
    Json.truthy replace_row json_to_sql
flushed = refl

abbrev pulled : Store (Option Value)
pulled = (pull source ("notes" ∷ []) [] sent no_result).0

written : Reach first
unfolding stage_local_write
written =
    Reach.later (Reach.start {s = fresh} refl)
      (Step.writes "notes" "n1" (note (pos 5) "a") (pos 5) write first-staged)

run : Reach pulled
run =
    Reach.later (Reach.later written (Step.flushes server "u1" outcome.1 flushed))
      (Step.pulls source ("notes" ∷ []) [] no_result refl)

Reach-IsBacked_example : IsBacked pulled
Reach-IsBacked_example = Reach-IsBacked run
