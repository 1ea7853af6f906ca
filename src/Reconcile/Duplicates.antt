-- ===== src/Reconcile/Duplicates.antt =====
-- `merge_books` and `unmerge_books` of src/sync/reconcile.rs: the host's merge of duplicate books and
-- its undo. `now` is the reading of the clock at the start.
pub mod Losers
pub mod Undo
pub mod Retired
pub mod Moved
pub mod Gathered
pub mod Kept
pub mod Restored
use braird_core.Prelude.{
  String, ℤ, pos, negsuc, min_ℤ, Bool, true, false, not, ◌&&◌, ◌||◌, Option, none, some, List, [],
  ◌∷◌, ◌++◌, any, is_none, str_eq, if◌then◌else◌, unwrap_or,
}
use braird_core.Prelude.Maps
use braird_core.Json
use braird_core.Json.{Map, Value, Serde, null, bool, num, str, int, empty}
use braird_core.Outbox.{resolve_book_id}
use braird_core.Push.{has_member}
use braird_core.Store.State.{Store, get_row}
use braird_core.Store.Staging.{is_tombstone, stage_local_write, stage_local_write_resurrecting}
use braird_core.Store.Listing.{Scan, list_live}
use braird_core.Reconcile.{
  done, failed, empty_survivor, no_live_survivor, redirect_cycle, Run, ◌>>=◌, read, commit, row_str,
  row_i64, rehome_patch, load_merged_book_ids, save_merged_book_ids,
}

pub record NoteBookAssignment : Type 0 where
  pub note_id : String
  pub prior_book_id : Option String

pub record BookMergeUndo : Type 0 where
  pub survivor_id : String
  pub loser_ids : List String
  pub survivor_prior_created_at : Option ℤ
  pub reassignments : List NoteBookAssignment

-- The ids but the empty one, the survivor's and those seen before.
unfoldable pub clean_from : String → List String → List String → List String
clean_from survivor_id seen [] = []
clean_from survivor_id seen (id ∷ ids) =
    elim (not (str_eq id "") && not (str_eq id survivor_id) && not (has_member seen id)) [
      | true ↦ id ∷ clean_from survivor_id (id ∷ seen) ids
      | false ↦ clean_from survivor_id seen ids
    ]

unfoldable pub clean_loser_ids : String → List String → List String
clean_loser_ids survivor_id loser_ids = clean_from survivor_id [] loser_ids

-- The rows that a merge changes carry their whole stored shape.
unfoldable pub survivor_patch : Map → ℤ → ℤ → Map
survivor_patch row created_at now =
    Json.insert "updated_at" (num (int now)) (Json.insert "created_at" (num (int created_at)) row)

unfoldable pub tombstone_patch : Map → String → ℤ → Map
tombstone_patch row survivor_id now =
    Json.insert "updated_at" (num (int now))
      (Json.insert "merged_into" (str survivor_id) (Json.insert "deleted" (bool true) row))

unfoldable pub resurrect_patch : Map → ℤ → Map
resurrect_patch row now =
    Json.insert "updated_at" (num (int now))
      (Json.insert "merged_into" null (Json.insert "deleted" (bool false) row))

unfoldable pub or_bare : Option Map → String → Map
or_bare found id = unwrap_or found (Json.insert "id" (str id) empty)

unfoldable pub record_redirects :
    String → List String → List (String × String) → List (String × String)
record_redirects survivor_id [] map = map
record_redirects survivor_id (id ∷ ids) map =
    record_redirects survivor_id ids (Maps.insert id survivor_id map)

unfoldable pub prune_redirects :
    String → List String → List (String × String) → List (String × String)
prune_redirects survivor_id [] map = map
prune_redirects survivor_id (id ∷ ids) map =
    prune_redirects survivor_id ids (elim (Maps.lookup id map) [
      | none ↦ map
      | some target ↦ if str_eq target survivor_id then Maps.without id map else map
    ])

-- What the loop over the losers gathers.
pub record Merging : Type 0 where
  pub undo : BookMergeUndo
  pub earliest : ℤ
  pub to_tombstone : List (String × Map)

unfoldable pub reassign : String → String → Bool → BookMergeUndo → BookMergeUndo
reassign note_id id resumed undo = if resumed then undo else record undo {
  reassignments = undo.reassignments ++ record { note_id = note_id; prior_book_id = some id } ∷ [];
}

unfoldable pub close_loser : String → Map → Bool → BookMergeUndo → Merging → Merging
close_loser id row resumed undo m = record {
  undo = if resumed then undo else record undo { loser_ids = undo.loser_ids ++ id ∷ [] };
  earliest = min_ℤ m.earliest (row_i64 row "created_at");
  to_tombstone = m.to_tombstone ++ (id, row) ∷ [];
}

unfoldable pub start_merging : String → ℤ → Merging
start_merging survivor_id created_at = record {
  undo = record {
    survivor_id = survivor_id;
    loser_ids = [];
    survivor_prior_created_at = some created_at;
    reassignments = [];
  };
  earliest = created_at;
  to_tombstone = [];
}

unfoldable pub empty_undo : String → BookMergeUndo
empty_undo survivor_id = record {
  survivor_id = survivor_id;
  loser_ids = [];
  survivor_prior_created_at = none;
  reassignments = [];
}

module _ {Text : Type 0} ⦃serde : Serde Text⦄ (survivor_id : String) (now : ℤ) where
  unfoldable pub rehome_notes :
      String → Bool → List Map → Store Text → BookMergeUndo → Run Text BookMergeUndo
  rehome_notes id resumed [] s undo = (s, done undo)
  rehome_notes id resumed (note ∷ notes) s undo =
      let note_id = row_str note "id" in
      commit s
        (stage_local_write s "notes" note_id (rehome_patch note_id (str survivor_id) now) now)
      >>= λ t committed. rehome_notes id resumed notes t (reassign note_id id resumed undo)

  unfoldable pub tombstone_losers : List (String × Map) → Store Text → Run Text Unit
  tombstone_losers [] s = (s, done tt)
  tombstone_losers ((id, row) ∷ losers) s =
      commit s (stage_local_write s "books" id (tombstone_patch row survivor_id now) now)
      >>= λ t committed. tombstone_losers losers t

  unfoldable pub finish_merge : Map → Store Text → Merging → Run Text BookMergeUndo
  finish_merge survivor s m = elim m.to_tombstone [
    | [] ↦ (s, done m.undo)
    | loser ∷ losers ↦
        commit s
          (stage_local_write s "books" survivor_id (survivor_patch survivor m.earliest now) now)
        >>= λ t committed. tombstone_losers (loser ∷ losers) t >>= λ u tombstoned. (u, done m.undo)
  ]

module _ {Text : Type 0} ⦃serde : Serde Text⦄ (scan : Scan Text) (survivor_id : String)
    (now : ℤ) where
  -- A loser that is there and not deleted; `resumed` where the map had it before.
  unfoldable pub merge_live :
      List (String × String) → String → Map → Store Text → Merging → Run Text Merging
  merge_live prior_map id row s m =
      let resumed = not (is_none (Maps.lookup id prior_map)) in
      read s (list_live scan s "notes" (some ("book_id", id)) (negsuc 0) (pos 0)) >>= λ s notes.
      rehome_notes survivor_id now id resumed notes s m.undo >>= λ t undo.
      (t, done (close_loser id row resumed undo m))

  unfoldable pub merge_losers :
      List (String × String) → List String → Store Text → Merging → Run Text Merging
  merge_losers prior_map [] s m = (s, done m)
  merge_losers prior_map (id ∷ ids) s m = read s (get_row s "books" id) >>= λ s found. elim found [
    | none ↦ merge_losers prior_map ids s m
    | some row ↦ elim (is_tombstone row) [
      | true ↦ merge_losers prior_map ids s m
      | false ↦ merge_live prior_map id row s m >>= λ t next. merge_losers prior_map ids t next
    ]
  ]

  unfoldable pub merge_cleaned : List String → Map → Store Text → Run Text BookMergeUndo
  merge_cleaned losers survivor s = (s, load_merged_book_ids s) >>= λ s map.
      if any (λ id. str_eq (resolve_book_id survivor_id map) id) losers
      then (s, failed redirect_cycle)
      else (merge_losers map losers
            (save_merged_book_ids s (record_redirects survivor_id losers map))
            (start_merging survivor_id (row_i64 survivor "created_at"))
          >>= λ t m. finish_merge survivor_id now survivor t m)

  unfoldable pub merge_into : List String → Store Text → Run Text BookMergeUndo
  merge_into [] s = (s, done (empty_undo survivor_id))
  merge_into (id ∷ ids) s = read s (get_row s "books" survivor_id) >>= λ s found. elim found [
    | none ↦ (s, failed no_live_survivor)
    | some survivor ↦
        if is_tombstone survivor
        then (s, failed no_live_survivor)
        else merge_cleaned (id ∷ ids) survivor s
  ]

  unfoldable pub merge_books : List String → Store Text → Run Text BookMergeUndo
  merge_books loser_ids s =
      if str_eq survivor_id ""
      then (s, failed empty_survivor)
      else merge_into (clean_loser_ids survivor_id loser_ids) s
