-- ===== src/Reconcile/Duplicates/Restored.antt =====
-- The invariant over `unmerge_books` of src/sync/reconcile.rs.
use braird_core.Prelude.{
  String, ℤ, true, false, in_i64, not, ◌&&◌, Option, none, some, List, [], ◌∷◌, ◌≡◌, refl, arith,
  Bool-cases, inl, inr, str_eq,
}
use braird_core.Json
use braird_core.Json.{Map, Serde, null, bool, num, str, int, empty}
use braird_core.Json.Laws.{get-insert}
use braird_core.Push.{has_member}
use braird_core.Store.State.{Store, get_row}
use braird_core.Reconcile.{done, load_merged_book_ids}
use braird_core.Reconcile.Sound.{
  IsSound, Ends, then-Ends, Ends-map, read-Ends, stage-Ends, resurrect-Ends, load-Ends,
  save-IsSound, book-Ends, Carries, get-insert-id, rehome_patch-IsStamped, book_patch-IsStamped,
}
use braird_core.Reconcile.Duplicates.{
  BookMergeUndo, NoteBookAssignment, survivor_patch, resurrect_patch, or_bare, prune_redirects,
}
use braird_core.Reconcile.Duplicates.Undo.{
  prior_book, restore_notes, resurrect_losers, earliest_merged, restore_survivor, unmerge_losers,
  unmerge_books,
}

or_bare-key :
    (found : Option Map) (id : String)
    → Carries id found
    → Json.get "id" (or_bare found id) ≡ some (str id)
unfolding or_bare
or_bare-key none id h = ground (arith, get-insert "id" "id" (str id) empty)
or_bare-key (some row) id h = h

module _ {Text : Type 0} ⦃serde : Serde Text⦄ where
  earliest_merged-Ends :
      (undo : BookMergeUndo) (map : List (String × String)) (s : Store Text) (earliest : ℤ)
      → IsSound s
      → Ends (λ after earliest. Unit) (earliest_merged undo map s earliest)
  unfolding earliest_merged
  earliest_merged-Ends undo [] s earliest h = record { sound = h; result = tt }
  earliest_merged-Ends undo ((id, target) ∷ map) s earliest h =
      elim (Bool-cases (str_eq target undo.survivor_id && not (has_member undo.loser_ids id))) [
        | inl still ↦ rw still (
            then-Ends (read-Ends s (get_row s "books" id) h)
              λ t found k got. earliest_merged-Ends undo map t _ k)
        | inr gone ↦ rw gone (
            then-Ends (load-Ends {A = Option Map} s (done none) h)
              λ t found k got. earliest_merged-Ends undo map t _ k)
      ]

module _ {Text : Type 0} ⦃serde : Serde Text⦄ (now : ℤ) (range : in_i64 now ≡ true) where
  restore_notes-Ends :
      (reassignments : List NoteBookAssignment) (s : Store Text)
      → IsSound s
      → Ends (λ after restored. Unit) (restore_notes now reassignments s)
  unfolding restore_notes
  restore_notes-Ends [] s h = record { sound = h; result = tt }
  restore_notes-Ends (r ∷ reassignments) s h =
      then-Ends
        (stage-Ends s "notes" r.note_id _ now
          (rehome_patch-IsStamped r.note_id (prior_book r.prior_book_id) now range) h)
        λ t committed k u. restore_notes-Ends reassignments t k

  resurrect_losers-Ends :
      (ids : List String) (s : Store Text)
      → IsSound s
      → Ends (λ after resurrected. Unit) (resurrect_losers now ids s)
  unfolding resurrect_losers resurrect_patch
  resurrect_losers-Ends [] s h = record { sound = h; result = tt }
  resurrect_losers-Ends (id ∷ ids) s h = then-Ends (book-Ends s id h) λ t found k carried.
      then-Ends
        (resurrect-Ends t "books" id _ now
          (book_patch-IsStamped id _ now range (
            get-insert-id "merged_into" id null _ refl
              (get-insert-id "deleted" id (bool false) _ refl (or_bare-key found id carried.1))))
          k)
        λ u committed l w. resurrect_losers-Ends ids u l

  restore_survivor-Ends :
      (undo : BookMergeUndo) (map : List (String × String)) (prior : Option ℤ) (s : Store Text)
      → IsSound s
      → Ends (λ after restored. Unit) (restore_survivor now undo map prior s)
  unfolding restore_survivor survivor_patch
  restore_survivor-Ends undo map none s h = record { sound = h; result = tt }
  restore_survivor-Ends undo map (some prior) s h =
      then-Ends (earliest_merged-Ends undo map s prior h) λ t earliest k u.
        then-Ends (book-Ends t undo.survivor_id k) λ v found l carried.
          Ends-map (λ x committed e. tt)
            (stage-Ends v "books" undo.survivor_id _ now
              (book_patch-IsStamped undo.survivor_id _ now range (
                get-insert-id "created_at" undo.survivor_id (num (int earliest)) _ refl
                  (or_bare-key found undo.survivor_id carried.1)))
              l)

  unmerge_losers-Ends :
      (undo : BookMergeUndo) (s : Store Text)
      → IsSound s
      → Ends (λ after unmerged. Unit) (unmerge_losers now undo s)
  unfolding unmerge_losers
  unmerge_losers-Ends undo s h =
      then-Ends (restore_notes-Ends undo.reassignments s h) λ t restored k u.
        then-Ends (resurrect_losers-Ends undo.loser_ids t k) λ v resurrected l w.
          then-Ends (load-Ends v (load_merged_book_ids v) l) λ x map m loaded.
            then-Ends (restore_survivor-Ends undo map undo.survivor_prior_created_at x m)
              λ y restored n z. record {
                sound = save-IsSound y (prune_redirects undo.survivor_id undo.loser_ids map) n;
                result = tt;
              }

  -- The undo of a merge of books, at a clock in the range of `i64`, keeps every queued payload backed
  -- by its stored row and every row under its key, wherever it stops: its errors included.
  pub unmerge_books-IsSound :
      (undo : BookMergeUndo) (s : Store Text) → IsSound s → IsSound (unmerge_books now undo s).0
  unfolding unmerge_books
  unmerge_books-IsSound undo s h = (unmerge undo.loser_ids).sound
    where
      unmerge :
          (ids : List String)
          → Ends
              (λ after unmerged. Unit)
              (elim ids [ [] ↦ (s, done tt) | id ∷ ids ↦ unmerge_losers now undo s ])
      unmerge [] = record { sound = h; result = tt }
      unmerge (id ∷ ids) = unmerge_losers-Ends undo s h
