-- ===== src/Reconcile/Examples.antt =====
-- Runs of src/sync/reconcile.rs, and its theorems at them.
use braird_core.Prelude.{
  String, ℤ, pos, false, Option, none, some, [], ◌∷◌, ◌≡◌, refl, arith, eq_iff, ◌+ℤ◌, max_ℤ, min_ℤ,
  checked_add, any, filter, sort_by_key,
}
use braird_core.Json
use braird_core.Json.{Value, Map, Serde, null, bool, num, str, int, empty, entry, as_str}
use braird_core.Json.Kept.{kept_value}
use braird_core.Prelude.Maps
use braird_core.Store.Schema.{table_schema, find_table, descriptor_tables}
use braird_core.Store.Cells.{json_to_sql, sql_to_json, project, read_cells}
use braird_core.Store.State.{
  ok, get_row, schema_or_err, apply_row, enqueue, drop_embedding, replace_row, update,
}
use braird_core.Store.Staging.{
  stage_local_write, is_tombstone, stage_write_inner, clamp_stamp, stored_updated, raise_stamp,
}
use braird_core.Store.Examples.{fresh, notes, notes-found}
use braird_core.Store.Writes.{IsStamped}
use braird_core.Store.Listing.{
  Scan, list_live, is_live, matches_column, created_key, backwards, skip_rows, page_of, keyed_rows,
  keyless_rows,
}
use braird_core.Store.Meta.{meta_get, meta_set}
use braird_core.Outbox.{resolve_book_id, resolve_hops}
use braird_core.Reconcile.{
  Run, ◌>>=◌, commit, read, done, load_merged_book_ids, save_merged_book_ids, rehome_patch, row_str,
  row_i64,
}
use braird_core.Reconcile.Sound.{IsSound, then-Ends, Ends-map, stage-Ends, book_patch-IsStamped}
use braird_core.Reconcile.Duplicates.Gathered.{IsMerged}
use braird_core.Reconcile.Duplicates.{
  BookMergeUndo, merge_books, clean_loser_ids, clean_from, merge_into, merge_cleaned,
  record_redirects, start_merging, merge_losers, merge_live, rehome_notes, finish_merge,
  tombstone_losers, tombstone_patch, survivor_patch, reassign, close_loser,
}
use braird_core.Reconcile.Duplicates.Kept.{merge_books-IsSound, merge_books-IsMerged}
use braird_core.Reconcile.Duplicates.Restored.{unmerge_books-IsSound}
use braird_core.Reconcile.Duplicates.Undo.{unmerge_books}
use braird_core.Push.{has_member}

abbrev pub row : String → ℤ → Map
row id created = Json.insert "updated_at" (num (int (pos 4))) (
    entry "created_at" (num (int created))
      (entry "deleted" (bool false) (entry "id" (str id) empty)))

abbrev pub note : Map
note = entry "book_id" (str "b2") (
    entry "deleted" (bool false)
      (entry "id" (str "n1") (entry "updated_at" (num (int (pos 4))) empty)))

abbrev pub scan : Scan (Option Value)
scan s table = "n1" ∷ []

-- Two books, and a note on the second.
unfoldable pub shelf : Run (Option Value) Unit
shelf =
    commit fresh (stage_local_write fresh "books" "b1" (row "b1" (pos 3)) (pos 4)) >>= λ s first.
    commit s (stage_local_write s "books" "b2" (row "b2" (pos 2)) (pos 4)) >>= λ t second.
    commit t (stage_local_write t "notes" "n1" note (pos 4))

unfoldable merged : Run (Option Value) BookMergeUndo
merged = merge_books scan "b1" (pos 9) ("b2" ∷ "" ∷ "b2" ∷ []) shelf.0

abbrev undo : BookMergeUndo
undo = record {
  survivor_id = "b1";
  loser_ids = "b2" ∷ [];
  survivor_prior_created_at = some (pos 3);
  reassignments = record { note_id = "n1"; prior_book_id = some "b2" } ∷ [];
}

abbrev pub column : String → String → String → Run (Option Value) Unit → Option Value
column table id name run = elim (get_row run.0 table id) [
  | ok (some found) ↦ Json.get name found
  | _ ↦ none
]

fresh-IsSound : IsSound fresh
fresh-IsSound = record {
  backed = tt;
  keyed = λ table schema id found known read. absurd (unfold get_row schema_or_err in ground arith);
}

note-IsStamped : IsStamped "notes" "n1" note
unfolding notes table_schema find_table descriptor_tables Json.get Json.as_i64
note-IsStamped = record {
  schema = notes;
  stamp = pos 4;
  found = notes-found;
  key = refl;
  stamped = refl;
}

row-IsStamped : (id : String) (created : ℤ) → IsStamped "books" id (row id created)
row-IsStamped id created =
    book_patch-IsStamped id _ (pos 4) refl (unfold Json.get in ground (arith, eq_iff id id))

pub shelf-IsSound : IsSound shelf.0
unfolding shelf
shelf-IsSound =
    (then-Ends (stage-Ends fresh "books" "b1" _ (pos 4) (row-IsStamped "b1" (pos 3)) fresh-IsSound)
      λ s first h u.
        then-Ends (stage-Ends s "books" "b2" _ (pos 4) (row-IsStamped "b2" (pos 2)) h)
          λ t second k v.
            Ends-map {Q = λ after committed. Unit} (λ u committed e. tt)
              (stage-Ends t "notes" "n1" note (pos 4) note-IsStamped k)).sound

merge_books-IsSound_example : IsSound merged.0
unfolding merged
merge_books-IsSound_example =
    merge_books-IsSound scan "b1" (pos 9) refl ("b2" ∷ "" ∷ "b2" ∷ []) shelf.0 shelf-IsSound

merged-IsSound : IsSound merged.0
unfolding merged
merged-IsSound =
    merge_books-IsSound scan "b1" (pos 9) refl ("b2" ∷ "" ∷ "b2" ∷ []) shelf.0 shelf-IsSound

unmerge_books-IsSound_example : IsSound (unmerge_books (pos 10) undo merged.0).0
unmerge_books-IsSound_example = unmerge_books-IsSound (pos 10) refl undo merged.0 merged-IsSound

test_rehomed :
    (column "notes" "n1" "book_id" (merged.0, done tt) ≡ some (str "b1"))
    × (column "books" "b2" "merged_into" (merged.0, done tt) ≡ some (str "b1"))
unfolding shelf sql_to_json ◌>>=◌ commit read stage_local_write stage_write_inner get_row
    schema_or_err table_schema find_table descriptor_tables clamp_stamp Json.as_i64 Json.get
    checked_add ◌+ℤ◌ stored_updated apply_row enqueue drop_embedding Json.as_str Json.extend
    raise_stamp max_ℤ Json.insert Json.place Json.remove Json.truthy replace_row json_to_sql update
    project read_cells merged merge_books clean_loser_ids clean_from merge_into merge_cleaned
    load_merged_book_ids save_merged_book_ids record_redirects start_merging merge_losers merge_live
    rehome_notes finish_merge tombstone_losers tombstone_patch survivor_patch rehome_patch reassign
    close_loser list_live is_live matches_column created_key backwards skip_rows page_of keyed_rows
    keyless_rows row_str row_i64 is_tombstone has_member any filter sort_by_key Maps.insert
    Maps.place Maps.lookup Maps.without meta_get meta_set resolve_book_id resolve_hops min_ℤ
test_rehomed = (refl, refl)

merged-done : merged ≡ (merged.0, done undo)
unfolding shelf sql_to_json ◌>>=◌ commit read stage_local_write stage_write_inner get_row
    schema_or_err table_schema find_table descriptor_tables clamp_stamp Json.as_i64 Json.get
    checked_add ◌+ℤ◌ stored_updated apply_row enqueue drop_embedding Json.as_str Json.extend
    raise_stamp max_ℤ Json.insert Json.place Json.remove Json.truthy replace_row json_to_sql update
    project read_cells merged merge_books clean_loser_ids clean_from merge_into merge_cleaned
    load_merged_book_ids save_merged_book_ids record_redirects start_merging merge_losers merge_live
    rehome_notes finish_merge tombstone_losers tombstone_patch survivor_patch rehome_patch reassign
    close_loser list_live is_live matches_column created_key backwards skip_rows page_of keyed_rows
    keyless_rows row_str row_i64 is_tombstone has_member any filter sort_by_key Maps.insert
    Maps.place Maps.lookup Maps.without meta_get meta_set resolve_book_id resolve_hops min_ℤ
merged-done = refl

merge_books-IsMerged_example : IsMerged "b1" merged.0 undo
unfolding merged
merge_books-IsMerged_example =
    merge_books-IsMerged scan "b1" (pos 9) refl ("b2" ∷ "" ∷ "b2" ∷ []) shelf.0 shelf-IsSound
      merged-done
