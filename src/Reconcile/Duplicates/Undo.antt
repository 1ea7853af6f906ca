-- ===== src/Reconcile/Duplicates/Undo.antt =====
-- `unmerge_books` of src/sync/reconcile.rs.
use braird_core.Prelude.{
  String, ℤ, min_ℤ, not, ◌&&◌, Option, none, some, List, [], ◌∷◌, str_eq, if◌then◌else◌,
}
use braird_core.Json.{Value, Serde, null, str}
use braird_core.Push.{has_member}
use braird_core.Store.State.{Store, get_row}
use braird_core.Store.Staging.{stage_local_write, stage_local_write_resurrecting}
use braird_core.Reconcile.{
  done, Run, ◌>>=◌, read, commit, row_i64, rehome_patch, load_merged_book_ids, save_merged_book_ids,
}
use braird_core.Reconcile.Duplicates.{
  NoteBookAssignment, BookMergeUndo, survivor_patch, resurrect_patch, or_bare, prune_redirects,
}

-- A missing book is none.

unfoldable pub prior_book : Option String → Value
prior_book none = null
prior_book (some id) = str id

module _ {Text : Type 0} ⦃serde : Serde Text⦄ where
  -- The earliest of the given stamp and of the books that still point at the survivor.
  unfoldable pub earliest_merged :
      BookMergeUndo → List (String × String) → Store Text → ℤ → Run Text ℤ
  earliest_merged undo [] s earliest = (s, done earliest)
  earliest_merged undo ((id, target) ∷ map) s earliest =
      (if str_eq target undo.survivor_id && not (has_member undo.loser_ids id)
        then read s (get_row s "books" id)
        else (s, done none))
      >>= λ s found.
          earliest_merged undo map s
            (elim found [ none ↦ earliest | some row ↦ min_ℤ earliest (row_i64 row "created_at") ])

module _ {Text : Type 0} ⦃serde : Serde Text⦄ (now : ℤ) where
  unfoldable pub restore_notes : List NoteBookAssignment → Store Text → Run Text Unit
  restore_notes [] s = (s, done tt)
  restore_notes (r ∷ reassignments) s =
      commit s (
        stage_local_write s "notes" r.note_id
          (rehome_patch r.note_id (prior_book r.prior_book_id) now) now)
      >>= λ t committed. restore_notes reassignments t

  unfoldable pub resurrect_losers : List String → Store Text → Run Text Unit
  resurrect_losers [] s = (s, done tt)
  resurrect_losers (id ∷ ids) s = read s (get_row s "books" id) >>= λ s found.
      commit s
        (stage_local_write_resurrecting s "books" id (resurrect_patch (or_bare found id) now) now)
      >>= λ t committed. resurrect_losers ids t

  unfoldable pub restore_survivor :
      BookMergeUndo → List (String × String) → Option ℤ → Store Text → Run Text Unit
  restore_survivor undo map none s = (s, done tt)
  restore_survivor undo map (some prior) s = earliest_merged undo map s prior >>= λ s earliest.
      read s (get_row s "books" undo.survivor_id) >>= λ s found. commit s (
        stage_local_write s "books" undo.survivor_id
          (survivor_patch (or_bare found undo.survivor_id) earliest now) now)

  unfoldable pub unmerge_losers : BookMergeUndo → Store Text → Run Text Unit
  unmerge_losers undo s = restore_notes undo.reassignments s >>= λ s restored.
      resurrect_losers undo.loser_ids s >>= λ s resurrected.
      (s, load_merged_book_ids s) >>= λ s map.
      restore_survivor undo map undo.survivor_prior_created_at s >>= λ s restored.
      (save_merged_book_ids s (prune_redirects undo.survivor_id undo.loser_ids map), done tt)

  unfoldable pub unmerge_books : BookMergeUndo → Store Text → Run Text Unit
  unmerge_books undo s = elim undo.loser_ids [
    | [] ↦ (s, done tt)
    | id ∷ ids ↦ unmerge_losers undo s
  ]
