-- ===== src/Push/Examples.antt =====
-- Runs of src/sync/push.rs, and its theorems at a concrete queue.
use braird_core.Prelude.{
  map, sort_by_key, filter_map, pos, ◌≡◌, refl, true, false, not, Option, none, some, [], ◌∷◌, ◌++◌,
  str_eq, All, filter, any, eqb_ℤ,
}
use mathlib.Core.List.{Perm}
use braird_core.Prelude.Maps
use braird_core.Json
use braird_core.Json.{
  contains_key, as_str, as_i64, truthy, is_null, Value, Map, str, bool, num, int, obj, empty, entry,
}
use braird_core.Json.Kept.{kept_value}
use braird_core.Outbox.{
  record_id_of, resolve_book_id, resolve_hops, repoint_payload, collapse, collapse_groups,
  collapse_items, collapse_step, absorb, new_group, merge_payload, group_key, repoint_all, repoint,
}
use braird_core.Store.Schema.{table_schema, synced_table_names}
use braird_core.Store.State.{update, outbox_items, Store, OutboxRow, clear_outbox}
use braird_core.Store.Meta.{meta_get}
use braird_core.Push.{
  upsert, patch, Server, FlushRun, flush_groups, flush_group, is_blocked, fk_deps, arm, prepare,
  request_for, is_sparse, required_insert_columns, upsert_group, patch_group, sent_record_id,
  record_id_column, fail_group, finish_group, learn_server_id, has_member, drop_nulls,
  on_conflict_for,
}
use braird_core.Push.Flush.{
  read_item, persist_remap, flush, flush_tables, fresh_run, load_remap, collapsed_queue,
}
use braird_core.Push.Parents.{sent_fields}
use braird_core.Push.Shape.{IsWhole}
use braird_core.Push.Outcome.{flush-outbox, flush-IsWhole, flush_refused}
use braird_core.Push.Queue.{IsSyncedEntry, is_readable, flush-decided, flush_accepted-left}
use braird_core.Push.Refused.{IsApart, refused_ids, record_of, flush-IsApart}

abbrev book : OutboxRow (Option Value)
book = record {
  id = pos 1;
  table_name = "books";
  record_id = some "b1";
  payload = some (
      obj (
        entry "id" (str "b1")
          (entry "title" (str "Walden") (entry "created_at" (num (int (pos 5))) empty))));
  created_at = pos 10;
}

abbrev note : OutboxRow (Option Value)
note = record {
  id = pos 2;
  table_name = "notes";
  record_id = some "n1";
  payload = some (
      obj (
        entry "id" (str "n1") (
          entry "book_id" (str "b1")
            (entry "text" (str "c") (entry "created_at" (num (int (pos 6))) empty)))));
  created_at = pos 11;
}

abbrev setting : OutboxRow (Option Value)
setting = record {
  id = pos 3;
  table_name = "user_settings";
  record_id = some "prompt_tone";
  payload = some (obj (entry "key" (str "prompt_tone") (entry "value" (str "productive") empty)));
  created_at = pos 12;
}

abbrev queued : Store (Option Value)
queued = record {
  rows = λ table id. none;
  keyless = [];
  outbox = book ∷ note ∷ setting ∷ [];
  last_outbox_id = pos 3;
  meta = λ key. none;
  embeddings = λ id. none;
  question_embeddings = λ id. none;
}

-- A server that refuses books.
abbrev server : Server
server sent (upsert table on_conflict rows) = not (str_eq table "books")
server sent (patch table primary_key record_id row) = true

unfoldable outcome : Store (Option Value) × FlushRun
outcome =
    flush_tables server "u1" (collapsed_queue queued []) synced_table_names (queued, fresh_run [])

abbrev after : Store (Option Value)
after = clear_outbox outcome.0 outcome.1.ok_ids

loaded : load_remap queued ≡ some []
unfolding load_remap meta_get
loaded = refl

flushed : flush server "u1" queued ≡ some (after, outcome.1)
unfolding flush load_remap meta_get outcome
flushed = refl

-- The refused book holds its note back, and the setting is flushed.
test_held : (outcome.1.ok_ids ≡ pos 3 ∷ []) × (outcome.1.failed_ids ≡ pos 1 ∷ pos 2 ∷ [])
unfolding outcome flush_tables flush_groups flush_group is_blocked fk_deps arm prepare
    repoint_payload request_for is_sparse required_insert_columns upsert_group patch_group
    sent_record_id record_id_column table_schema fail_group finish_group learn_server_id has_member
    fresh_run synced_table_names collapsed_queue collapse collapse_groups collapse_items
    collapse_step absorb new_group merge_payload group_key outbox_items read_item kept_value
    sort_by_key filter_map Maps.lookup any persist_remap drop_nulls contains_key Json.get
    Json.extend Json.insert Json.remove as_str truthy update on_conflict_for repoint_all repoint
    is_null Maps.insert Maps.place Maps.without record_id_of Json.place resolve_book_id resolve_hops
test_held = (refl, refl)

queued-IsSyncedEntry : All IsSyncedEntry queued.outbox
unfolding synced_table_names any
queued-IsSyncedEntry = (refl, (refl, (refl, tt)))

flush-decided_example :
    Perm
      (outcome.1.ok_ids ++ outcome.1.failed_ids)
      (map (λ r. r.id) (filter is_readable queued.outbox))
flush-decided_example = flush-decided server "u1" queued flushed queued-IsSyncedEntry

flush-IsApart_example :
    All (IsApart (λ table. refused_ids server table outcome.1.sent)) outcome.1.sent
flush-IsApart_example = flush-IsApart server "u1" queued flushed

-- The server refused the book.
test_refused : refused_ids server "books" outcome.1.sent ≡ "b1" ∷ []
unfolding refused_ids record_of sent_fields outcome flush_tables flush_groups flush_group is_blocked
    fk_deps arm prepare repoint_payload request_for is_sparse required_insert_columns upsert_group
    patch_group sent_record_id record_id_column table_schema fail_group finish_group learn_server_id
    has_member fresh_run synced_table_names collapsed_queue collapse collapse_groups collapse_items
    collapse_step absorb new_group merge_payload group_key outbox_items read_item kept_value
    sort_by_key filter_map Maps.lookup any persist_remap drop_nulls contains_key Json.get
    Json.extend Json.insert Json.remove as_str truthy update on_conflict_for repoint_all repoint
    is_null Maps.insert Maps.place Maps.without record_id_of Json.place resolve_book_id resolve_hops
test_refused = refl

flush-IsWhole_example : All (IsWhole "u1") outcome.1.sent
flush-IsWhole_example = flush-IsWhole server "u1" queued flushed

flush-outbox_example :
    (after.rows ≡ queued.rows)
    × (after.outbox ≡ filter (λ r. not (any (λ id. eqb_ℤ id r.id) outcome.1.ok_ids)) queued.outbox)
flush-outbox_example = flush-outbox server "u1" queued flushed

abbrev open_server : Server
open_server sent request = true

unfoldable accepted : Store (Option Value) × FlushRun
accepted =
    flush_tables open_server "u1" (collapsed_queue queued []) synced_table_names
      (queued, fresh_run [])

accepted-flushed :
    flush open_server "u1" queued ≡ some (clear_outbox accepted.0 accepted.1.ok_ids, accepted.1)
unfolding flush load_remap meta_get accepted
accepted-flushed = refl

flush_accepted-left_example :
    (accepted.1.failed_ids ≡ [])
    × All (λ r. r.payload ≡ none) (clear_outbox accepted.0 accepted.1.ok_ids).outbox
unfolding kept_value
flush_accepted-left_example =
    flush_accepted-left open_server "u1" queued accepted-flushed (λ sent request. refl)
      queued-IsSyncedEntry

abbrev closed_server : Server
closed_server sent request = false

unfoldable rejected : Store (Option Value) × FlushRun
rejected =
    flush_tables closed_server "u1" (collapsed_queue queued []) synced_table_names
      (queued, fresh_run [])

rejected-flushed :
    flush closed_server "u1" queued ≡ some (clear_outbox rejected.0 rejected.1.ok_ids, rejected.1)
unfolding flush load_remap meta_get rejected
rejected-flushed = refl

flush_refused_example : (clear_outbox rejected.0 rejected.1.ok_ids).outbox ≡ queued.outbox
flush_refused_example =
    flush_refused closed_server "u1" queued rejected-flushed (λ sent request. refl)
