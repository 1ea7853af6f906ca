-- ===== src/Reconcile/Stranded/Examples.antt =====
-- A run of the repair of stranded notes of src/sync/reconcile.rs, and its theorem at it.
use braird_core.Prelude.{
  pos, true, Option, some, [], ◌≡◌, refl, ◌+ℤ◌, max_ℤ, min_ℤ, checked_add, any, filter, sort_by_key,
}
use braird_core.Json
use braird_core.Json.{Value, Map, Serde, null, bool, num, str, int, empty, entry, as_str}
use braird_core.Json.Kept.{kept_value}
use braird_core.Prelude.Maps
use braird_core.Store.Schema.{table_schema, find_table, descriptor_tables}
use braird_core.Store.Cells.{json_to_sql, sql_to_json, project, read_cells}
use braird_core.Store.State.{
  get_row, schema_or_err, apply_row, enqueue, drop_embedding, replace_row, update,
}
use braird_core.Store.Staging.{
  stage_local_write, is_tombstone, stage_write_inner, clamp_stamp, stored_updated, raise_stamp,
}
use braird_core.Store.Writes.{IsStamped}
use braird_core.Store.Listing.{
  list_live, is_live, matches_column, created_key, backwards, skip_rows, page_of, keyed_rows,
  keyless_rows,
}
use braird_core.Store.Meta.{meta_get, meta_set}
use braird_core.Outbox.{resolve_book_id, resolve_hops}
use braird_core.Reconcile.{
  Run, ◌>>=◌, commit, read, done, load_merged_book_ids, save_merged_book_ids, rehome_patch, row_str,
  row_i64,
}
use braird_core.Reconcile.Sound.{IsSound, stage-Ends, book_patch-IsStamped}
use braird_core.Reconcile.Survivor.{resolve_survivor, liveness_of, next_book, merged_into, walk}
use braird_core.Reconcile.Stranded.{
  reconcile_stranded_notes, repair_listed, repair_notes, repair_all, repair_if_stranded, repair,
  rehome,
}
use braird_core.Reconcile.Stranded.Kept.{reconcile_stranded_notes-IsSound}
use braird_core.Reconcile.Duplicates.{
  merge_books, clean_loser_ids, clean_from, merge_into, merge_cleaned, record_redirects,
  start_merging, merge_losers, merge_live, rehome_notes, finish_merge, tombstone_losers,
  tombstone_patch, survivor_patch, reassign, close_loser,
}
use braird_core.Push.{has_member}
use braird_core.Reconcile.Examples.{row, scan, shelf, column, shelf-IsSound}

-- The second book is deleted elsewhere, and its note is left behind.

abbrev moved : Map
moved = tombstone_patch (row "b2" (pos 2)) "b1" (pos 9)

unfoldable stranded : Run (Option Value) Unit
stranded = commit shelf.0 (stage_local_write shelf.0 "books" "b2" moved (pos 9))

moved-IsStamped : IsStamped "books" "b2" moved
unfolding tombstone_patch Json.get Json.insert Json.place Json.remove
moved-IsStamped =
    book_patch-IsStamped "b2"
      (Json.insert "merged_into" (str "b1") (Json.insert "deleted" (bool true) (row "b2" (pos 2))))
      (pos 9) refl refl

stranded-IsSound : IsSound stranded.0
unfolding stranded
stranded-IsSound =
    (stage-Ends shelf.0 "books" "b2" moved (pos 9) moved-IsStamped shelf-IsSound).sound

keyless : stranded.0.keyless ≡ []
unfolding shelf sql_to_json ◌>>=◌ commit read stage_local_write stage_write_inner get_row
    schema_or_err table_schema find_table descriptor_tables clamp_stamp Json.as_i64 Json.get
    checked_add ◌+ℤ◌ stored_updated apply_row enqueue drop_embedding Json.as_str Json.extend
    raise_stamp max_ℤ Json.insert Json.place Json.remove Json.truthy replace_row json_to_sql update
    project read_cells stranded merge_books clean_loser_ids clean_from merge_into merge_cleaned
    load_merged_book_ids save_merged_book_ids record_redirects start_merging merge_losers merge_live
    rehome_notes finish_merge tombstone_losers tombstone_patch survivor_patch rehome_patch reassign
    close_loser list_live is_live matches_column created_key backwards skip_rows page_of keyed_rows
    keyless_rows row_str row_i64 is_tombstone has_member any filter sort_by_key Maps.insert
    Maps.place Maps.lookup Maps.without meta_get meta_set resolve_book_id resolve_hops min_ℤ
keyless = refl

reconcile_stranded_notes-IsSound_example :
    IsSound (reconcile_stranded_notes scan (λ n. pos 20) stranded.0).0
reconcile_stranded_notes-IsSound_example =
    reconcile_stranded_notes-IsSound scan (λ n. pos 20) stranded.0 (λ n. refl) keyless
      stranded-IsSound

-- The note follows the pointer.
test_stranded :
    column "notes" "n1" "book_id"
      ((reconcile_stranded_notes scan (λ n. pos 20) stranded.0).0, done tt)
    ≡ some (str "b1")
unfolding shelf sql_to_json ◌>>=◌ commit read stage_local_write stage_write_inner get_row
    schema_or_err table_schema find_table descriptor_tables clamp_stamp Json.as_i64 Json.get
    checked_add ◌+ℤ◌ stored_updated apply_row enqueue drop_embedding Json.as_str Json.extend
    raise_stamp max_ℤ Json.insert Json.place Json.remove Json.truthy replace_row json_to_sql update
    project read_cells stranded reconcile_stranded_notes repair_listed repair_notes repair_all
    repair_if_stranded repair rehome resolve_survivor walk next_book merged_into liveness_of
    merge_books clean_loser_ids clean_from merge_into merge_cleaned load_merged_book_ids
    save_merged_book_ids record_redirects start_merging merge_losers merge_live rehome_notes
    finish_merge tombstone_losers tombstone_patch survivor_patch rehome_patch reassign close_loser
    list_live is_live matches_column created_key backwards skip_rows page_of keyed_rows keyless_rows
    row_str row_i64 is_tombstone has_member any filter sort_by_key Maps.insert Maps.place
    Maps.lookup Maps.without meta_get meta_set resolve_book_id resolve_hops min_ℤ
test_stranded = refl
