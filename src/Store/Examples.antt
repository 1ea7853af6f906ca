-- ===== src/Store/Examples.antt =====
-- Runs of src/store.rs, and its theorems at a concrete store. A text is here the value that it
-- holds, so that a run computes.
use braird_core.Prelude.{
  negsuc, any, not, ◌&&◌, is_none, false, ◌↔◌, String, ℤ, pos, in_i64, max_ℤ, ◌+ℤ◌, checked_add,
  ◌≡◌, ◌≢◌, ◌<ℤ◌, refl, true, Option, none, some, List, [], ◌∷◌, unwrap_or, i64_max, arith,
}
use braird_core.Json
use braird_core.Json.{
  Value, Items, Map, Number, Serde, IsReread, null, bool, num, str, arr, obj, int, real, nil, cons,
  empty, entry, map_reals, map_reals_items, map_reals_map, as_i64, nonzero,
}
use braird_core.Json.Kept.{kept_value}
use braird_core.Store.Schema.{TableSchema, table_schema, find_table, descriptor_tables}
use braird_core.Store.Cells.{
  f64_of, f64_round, f64_unit, json_to_sql, sql_to_json, read_cells, project,
}
use braird_core.Store.State.{
  Result, ok, err, drop_embedding, replace_row, update, payload_fields, stamp_overflow, Store,
  enqueue, schema_or_err, get_row, apply_row, is_for,
}
use braird_core.Store.Staging.{
  stage_write_inner, clamp_stamp, raise_stamp, is_stale, dropped_entry, stored_updated,
  dropped_entries, apply_row_rebasing_outbox, payload_stamp,
}
use braird_core.Store.Rows.{row_stamp, local_updated}
use braird_core.Store.Readback.{ReadsBack, apply_row-ReadsBack}
use braird_core.Store.Stage.{Advances, stage_write_inner-Advances}
use braird_core.Store.Backed.{IsBacked, stage_write_inner-IsBacked}
use braird_core.Store.Rebase.{Splits, rebase-unqueued, rebase-dropped}
use braird_core.Store.Overflow.{stage_write_inner_total}

abbrev pub fresh : Store (Option Value)
fresh = record {
  rows = λ table id. none;
  keyless = [];
  outbox = [];
  last_outbox_id = pos 0;
  meta = λ key. none;
  embeddings = λ id. none;
  question_embeddings = λ id. none;
}

abbrev pub note : ℤ → String → Map
note stamp text =
    entry "id" (str "n1") (entry "text" (str text) (entry "updated_at" (num (int stamp)) empty))

unfoldable pub value_of : Result (Store (Option Value)) → Store (Option Value)
value_of (ok t) = t
value_of (err e) = fresh

unfoldable pub notes : TableSchema
unfolding table_schema
notes = unwrap_or (table_schema "notes") (record { name = ""; pk = ""; columns = [] })

pub notes-found : table_schema "notes" ≡ some notes
unfolding notes table_schema find_table descriptor_tables
notes-found = refl

pub notes-key : Json.get notes.pk (note (pos 5) "a") ≡ some (str "n1")
unfolding notes table_schema find_table descriptor_tables Json.get
notes-key = refl

-- A first write at 5, then one whose clock is behind, at 3.
unfoldable pub first : Store (Option Value)
unfolding stage_write_inner
first = value_of (stage_write_inner fresh "notes" "n1" (note (pos 5) "a") (pos 5))

pub first-staged : stage_write_inner fresh "notes" "n1" (note (pos 5) "a") (pos 5) ≡ ok first
unfolding first stage_write_inner get_row schema_or_err table_schema clamp_stamp as_i64 Json.get
    checked_add ◌+ℤ◌ stored_updated apply_row value_of enqueue
first-staged = refl

-- Then a write whose clock is behind, at 3: it is stamped 6.
unfoldable pub second : Store (Option Value)
unfolding stage_write_inner first
second = value_of (stage_write_inner first "notes" "n1" (note (pos 3) "b") (pos 7))

second-staged : stage_write_inner first "notes" "n1" (note (pos 3) "b") (pos 7) ≡ ok second
unfolding second first stage_write_inner get_row schema_or_err table_schema clamp_stamp as_i64
    Json.get checked_add ◌+ℤ◌ stored_updated apply_row value_of enqueue drop_embedding Json.as_str
    Json.extend raise_stamp max_ℤ Json.insert Json.place Json.remove Json.truthy replace_row
    json_to_sql update read_cells project sql_to_json
second-staged = refl

pub second-key : Json.get notes.pk (note (pos 3) "b") ≡ some (str "n1")
unfolding notes table_schema find_table descriptor_tables Json.get
second-key = refl

pub asked : (n : ℤ) → in_i64 n ≡ true → as_i64 (Json.get "updated_at" (note n "b")) ≡ some n
unfolding as_i64 Json.get
asked n h = rw h refl

stage_write_inner-Advances_example :
    Advances first "notes" "n1"
      (note (pos 3) "b")
      (pos 7)
      notes
      notes-found
      second-key
      second-staged
      (pos 3)
stage_write_inner-Advances_example =
    stage_write_inner-Advances first "notes" "n1" (note (pos 3) "b") (pos 7) notes notes-found
      second-key second-staged (pos 3) (asked (pos 3) refl)

pub first-IsBacked : IsBacked first
first-IsBacked =
    stage_write_inner-IsBacked fresh "notes" "n1" (note (pos 5) "a") (pos 5) notes (pos 5)
      notes-found notes-key (unfold as_i64 Json.get in refl) first-staged tt

pub second-IsBacked : IsBacked second
second-IsBacked =
    stage_write_inner-IsBacked first "notes" "n1" (note (pos 3) "b") (pos 7) notes (pos 3)
      notes-found second-key (asked (pos 3) refl) second-staged first-IsBacked

stage_write_inner-IsBacked_example : IsBacked second
stage_write_inner-IsBacked_example =
    stage_write_inner-IsBacked first "notes" "n1" (note (pos 3) "b") (pos 7) notes (pos 3)
      notes-found second-key (asked (pos 3) refl) second-staged first-IsBacked

stage_write_inner_total_example :
    (((t : Store (Option Value)) × (stage_write_inner first "notes" "n1" (note (pos 3) "b") (pos 7)
          ≡ ok t))
      ↔ local_updated first "notes" "n1" ≢ some i64_max)
    × ((stage_write_inner first "notes" "n1" (note (pos 3) "b") (pos 7) ≡ err stamp_overflow)
        ↔ (local_updated first "notes" "n1" ≡ some i64_max))
stage_write_inner_total_example =
    stage_write_inner_total first "notes" "n1" (note (pos 3) "b") (pos 7) (pos 3) notes notes-found
      (asked (pos 3) refl)

-- A pulled row at 9, which is newer than the stored 6.
unfoldable pulled : List (ℤ × ℤ) × Store (Option Value)
pulled = elim (apply_row_rebasing_outbox second "notes" (note (pos 9) "c") (pos 9)) [
  | ok r ↦ r
  | err e ↦ ([], fresh)
]

pulled-rebased :
    apply_row_rebasing_outbox second "notes" (note (pos 9) "c") (pos 9) ≡ ok (pulled.0, pulled.1)
unfolding pulled apply_row_rebasing_outbox second first stage_write_inner get_row schema_or_err
    table_schema clamp_stamp as_i64 Json.get checked_add ◌+ℤ◌ stored_updated apply_row value_of
    enqueue drop_embedding Json.as_str Json.extend raise_stamp max_ℤ Json.insert Json.place
    Json.remove Json.truthy replace_row json_to_sql update read_cells project sql_to_json
pulled-rebased = refl

pulled-key : Json.get notes.pk (note (pos 9) "c") ≡ some (str "n1")
unfolding notes table_schema find_table descriptor_tables Json.get
pulled-key = refl

pulled-stamp : row_stamp (note (pos 9) "c") ≡ pos 9
unfolding row_stamp as_i64 Json.get
pulled-stamp = refl

pub second-stamp : local_updated second "notes" "n1" ≡ some (pos 6)
unfolding local_updated row_stamp second first stage_write_inner get_row schema_or_err table_schema
    clamp_stamp as_i64 Json.get checked_add ◌+ℤ◌ stored_updated apply_row value_of enqueue
    drop_embedding Json.as_str Json.extend raise_stamp max_ℤ Json.insert Json.place Json.remove
    Json.truthy replace_row json_to_sql update read_cells project sql_to_json
second-stamp = refl

second-newer : (old : ℤ) → local_updated second "notes" "n1" ≡ some old → old <ℤ pos 9
second-newer old h = ground (arith, second-stamp)

test_dropped : pulled.0 ≡ (pos 1, pos 5) ∷ (pos 2, pos 6) ∷ []
unfolding pulled apply_row_rebasing_outbox dropped_entries dropped_entry is_stale is_for
    payload_stamp payload_fields map_reals kept_value second first stage_write_inner get_row
    schema_or_err table_schema clamp_stamp as_i64 Json.get checked_add ◌+ℤ◌ stored_updated apply_row
    value_of enqueue drop_embedding Json.as_str Json.extend raise_stamp max_ℤ Json.insert Json.place
    Json.remove Json.truthy replace_row json_to_sql update read_cells project sql_to_json
test_dropped = refl

rebase-unqueued_example :
    any (λ r. is_for "notes" "n1" r && not (is_none (payload_stamp r))) pulled.1.outbox ≡ false
rebase-unqueued_example =
    rebase-unqueued second "notes" "n1" (note (pos 9) "c") (pos 9) notes notes-found pulled-key
      pulled-rebased pulled-stamp second-newer second-IsBacked

rebase-dropped_example : Splits "notes" "n1" (pos 9) second.outbox pulled.0 pulled.1.outbox
rebase-dropped_example =
    rebase-dropped second "notes" "n1" (note (pos 9) "c") (pos 9) notes notes-found pulled-key
      pulled-rebased

unfoldable overwritten : Store (Option Value)
unfolding second
overwritten = value_of (apply_row second "notes" (note (pos 9) "c"))

overwritten-applied : apply_row second "notes" (note (pos 9) "c") ≡ ok overwritten
unfolding overwritten first stage_write_inner get_row schema_or_err table_schema clamp_stamp as_i64
    Json.get checked_add ◌+ℤ◌ stored_updated apply_row value_of enqueue drop_embedding Json.as_str
    Json.extend raise_stamp max_ℤ Json.insert Json.place Json.remove Json.truthy replace_row
    json_to_sql update read_cells project sql_to_json second
overwritten-applied = refl

apply_row-ReadsBack_example : ReadsBack second "notes" (note (pos 9) "c") "n1" notes overwritten
apply_row-ReadsBack_example =
    apply_row-ReadsBack second "notes" (note (pos 9) "c") "n1" notes notes-found pulled-key
      overwritten-applied

-- Integers above 2^53 are rounded, halves to the even one.
test_f64_of :
    (f64_of (pos 9007199254740993) ≡ pos 9007199254740992)
    × (f64_of (pos 9007199254740995) ≡ pos 9007199254740996)
    × (f64_of (negsuc 9007199254740992) ≡ negsuc 9007199254740991)
    × (f64_of (pos 18446744073709551615) ≡ pos 18446744073709551616)
    × (f64_of (negsuc 6) ≡ negsuc 6)
unfolding f64_of f64_round f64_unit
test_f64_of = (refl, refl, refl, refl, refl)
