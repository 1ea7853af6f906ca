-- ===== src/Reconcile/Duplicates/Kept.antt =====
-- The invariant over `merge_books` of src/sync/reconcile.rs, and what a merge has done.
use braird_core.Prelude.{
  sym, false, Bool, String, ℤ, true, in_i64, List, [], ◌∷◌, ◌≡◌, subst, Bool-cases, Option-cases,
  inl, inr, str_eq, any,
}
use braird_core.Reconcile.Duplicates.Retired.{IsOwn}
use braird_core.Json.{Map, Serde}
use braird_core.Outbox.{resolve_book_id}
use braird_core.Store.State.{Store}
use braird_core.Store.Staging.{is_tombstone}
use braird_core.Store.Listing.{Scan}
use braird_core.Reconcile.{done, row_i64, load_merged_book_ids}
use braird_core.Reconcile.Sound.{
  IsSound, Ends, then-Ends, read-Ends, load-Ends, save-IsSound, book-Ends, Carries,
}
use braird_core.Reconcile.Duplicates.{
  close_loser, BookMergeUndo, Merging, record_redirects, empty_undo, start_merging, merge_live,
  merge_losers, merge_cleaned, merge_into, merge_books, clean_loser_ids,
}
use braird_core.Reconcile.Duplicates.Moved.{Moves, rehome_notes-Ends}
use braird_core.Reconcile.Duplicates.Gathered.{AreOwn, close_loser-own, IsMerged, finish_merge-Ends}

close_loser-Moves :
    {Text : Type 0} ⦃serde : Serde Text⦄ (survivor_id : String) (t : Store Text) (id : String)
    (row : Map) (resumed : Bool) (undo : BookMergeUndo) (m : Merging)
    → Moves survivor_id t undo
    → Moves survivor_id t (close_loser id row resumed undo m).undo
unfolding close_loser
close_loser-Moves survivor_id t id row true undo m h = h
close_loser-Moves survivor_id t id row false undo m h = h

module _ {Text : Type 0} ⦃serde : Serde Text⦄ (scan : Scan Text) (survivor_id : String) (now : ℤ)
    (range : in_i64 now ≡ true) where
  abbrev Gathers : Store Text → Merging → Type 0
  Gathers s m = AreOwn m × Moves survivor_id s m.undo

  merge_live-Ends :
      (prior_map : List (String × String)) (id : String) (row : Map) (s : Store Text) (m : Merging)
      → IsOwn (id, row)
      → Gathers s m
      → IsSound s
      → Ends Gathers (merge_live scan survivor_id now prior_map id row s m)
  unfolding merge_live
  merge_live-Ends prior_map id row s m own (all, moves) h =
      then-Ends (read-Ends s _ h) λ t notes k listed.
        then-Ends
          (rehome_notes-Ends survivor_id now range id _ notes t m.undo
            (subst (λ u. Moves survivor_id u m.undo) (sym listed.0) moves) k)
          λ u undo l moved. record {
            sound = l;
            result = (
              close_loser-own id row _ undo m own all moved.0,
              close_loser-Moves survivor_id u id row _ undo m moved.1,
            );
          }

  merge_losers-Ends :
      (prior_map : List (String × String)) (ids : List String) (s : Store Text) (m : Merging)
      → Gathers s m
      → IsSound s
      → Ends Gathers (merge_losers scan survivor_id now prior_map ids s m)
  unfolding merge_losers
  merge_losers-Ends prior_map [] s m g h = record { sound = h; result = g }
  merge_losers-Ends prior_map (id ∷ ids) s m g h = then-Ends (book-Ends s id h) λ t found k carried.
      let here = subst (λ u. Gathers u m) (sym carried.0) g in
      elim (Option-cases found) [
        | inl missing ↦ rw missing (merge_losers-Ends prior_map ids t m here k)
        | inr (row, there) ↦ elim (Bool-cases (is_tombstone row)) [
          | inl dead ↦ rw (there, dead) (merge_losers-Ends prior_map ids t m here k)
          | inr live ↦
              rw (there, live)
                (then-Ends
                  (merge_live-Ends prior_map id row t m (subst (Carries id) there carried.1) here k)
                  λ u next l gathered. merge_losers-Ends prior_map ids u next gathered l)
        ]
      ]

  merge_cleaned-Ends :
      (losers : List String) (survivor : Map) (s : Store Text)
      → IsOwn (survivor_id, survivor)
      → IsSound s
      → Ends (IsMerged survivor_id) (merge_cleaned scan survivor_id now losers survivor s)
  unfolding merge_cleaned start_merging
  merge_cleaned-Ends losers survivor s own h =
      then-Ends (load-Ends s (load_merged_book_ids s) h) λ t map k loaded.
        elim (Bool-cases (any (λ id. str_eq (resolve_book_id survivor_id map) id) losers)) [
          | inl cycle ↦ rw cycle (record { sound = k; result = tt })
          | inr straight ↦ rw straight (
              then-Ends
                (merge_losers-Ends map losers _
                  (start_merging survivor_id (row_i64 survivor "created_at")) ((tt, tt), tt)
                  (save-IsSound t (record_redirects survivor_id losers map) k))
                λ u m l g. finish_merge-Ends survivor_id now range survivor u m own g.0 g.1 l)
        ]

  merge_into-Ends :
      (losers : List String) (s : Store Text)
      → IsSound s
      → Ends (IsMerged survivor_id) (merge_into scan survivor_id now losers s)
  unfolding merge_into empty_undo
  merge_into-Ends [] s h = record { sound = h; result = (tt, tt) }
  merge_into-Ends (id ∷ ids) s h = then-Ends (book-Ends s survivor_id h) λ t found k carried.
      elim (Option-cases found) [
        | inl missing ↦ rw missing (record { sound = k; result = tt })
        | inr (survivor, there) ↦ elim (Bool-cases (is_tombstone survivor)) [
          | inl dead ↦ rw (there, dead) (record { sound = k; result = tt })
          | inr live ↦
              rw (there, live)
                (merge_cleaned-Ends (id ∷ ids) survivor t
                  (subst (Carries survivor_id) there carried.1) k)
        ]
      ]

  merge_books-Ends :
      (loser_ids : List String) (s : Store Text)
      → IsSound s
      → Ends (IsMerged survivor_id) (merge_books scan survivor_id now loser_ids s)
  unfolding merge_books
  merge_books-Ends loser_ids s h = elim (Bool-cases (str_eq survivor_id "")) [
    | inl none' ↦ rw none' (record { sound = h; result = tt })
    | inr named ↦ rw named (merge_into-Ends (clean_loser_ids survivor_id loser_ids) s h)
  ]

  -- A merge of books, at a clock in the range of `i64`, keeps every queued payload backed by its
  -- stored row and every row under its key, wherever it stops: its errors included.
  pub merge_books-IsSound :
      (loser_ids : List String) (s : Store Text)
      → IsSound s
      → IsSound (merge_books scan survivor_id now loser_ids s).0
  merge_books-IsSound loser_ids s h = (merge_books-Ends loser_ids s h).sound

  -- After a merge of books that succeeds, at a clock in the range of `i64`, from a store that keeps
  -- its rows under their keys and its queue backed, every loser of the undo is a deleted book that
  -- points at the survivor, and every note that the undo would move back is on the survivor.
  pub merge_books-IsMerged :
      (loser_ids : List String) (s : Store Text) {t : Store Text} {undo : BookMergeUndo}
      → IsSound s
      → merge_books scan survivor_id now loser_ids s ≡ (t, done undo)
      → IsMerged survivor_id t undo
  merge_books-IsMerged loser_ids s h e =
      (subst (Ends (IsMerged survivor_id)) e (merge_books-Ends loser_ids s h)).result
