-- ===== src/Reconcile/Stranded/Kept.antt =====
-- What `reconcile_stranded_notes` of src/sync/reconcile.rs keeps.
use braird_core.Prelude.{
  ℕ, suc, String, ℤ, pos, negsuc, true, in_i64, ◌≡◌, refl, Option, none, some, List, [], ◌∷◌, All,
  All-map, Bool-cases, inl, inr, if◌then◌else◌,
}
use braird_core.Prelude.Pairs.{Pairwise}
use braird_core.Json
use braird_core.Json.{Map, Serde, null, str, as_str, as_i64}
use braird_core.Store.State.{Result, ok, err, Store, get_row}
use braird_core.Store.Staging.{is_tombstone}
use braird_core.Store.Listing.{Scan, list_live}
use braird_core.Store.Listed.{Differ, list_live-IsListed}
use braird_core.Reconcile.{Answer, done, failed, ◌>>=◌, read, row_str, load_merged_book_ids}
use braird_core.Reconcile.Sound.{IsSound, notes-HasId}
use braird_core.Reconcile.Survivor.{SurvivorLiveness, live, deleted, absent, resolve_survivor}
use braird_core.Reconcile.Stranded.{
  Pass, rehome, detach, repair, repair_if_stranded, repair_all, reconcile_stranded_notes,
  repair_notes, repair_listed,
}
use braird_core.Reconcile.Stranded.Repair.{
  IsFresh, IsListed-IsFresh, Leaves, rehome-Leaves, detach-Leaves, row-id,
}

module _ {Text : Type 0} ⦃serde : Serde Text⦄ where
  module _ (row : Map) (rows : List Map) (apart : All (Differ row) rows) where
    repair-Leaves :
        (map : List (String × String)) (p : Pass Text) (book_id : String) (book : Map)
        (now created_at : ℤ)
        → in_i64 now ≡ true
        → IsSound p.store
        → IsFresh p.store row
        → All (IsFresh p.store) rows
        → Leaves rows (repair map p row book_id book now created_at)
    unfolding repair
    repair-Leaves map p book_id book now created_at range h f later =
        by_case (resolve_survivor p.store map book_id book)
      where
        by_case :
            (resolved : Result (String × SurvivorLiveness))
            → Leaves rows (elim resolved [
              | err e ↦ p
              | ok (survivor, live) ↦ rehome p (row_str row "id") survivor now created_at
              | ok (survivor, deleted) ↦ detach p row
              | ok (survivor, absent) ↦ p
            ])
        by_case (err e) = record { sound = h; fresh = later }
        by_case (ok (survivor, live)) =
            rw (row-id row f.id f.key)
              (rehome-Leaves row rows apart p survivor now created_at range h f later)
        by_case (ok (survivor, deleted)) = detach-Leaves row rows apart p h f later
        by_case (ok (survivor, absent)) = record { sound = h; fresh = later }

    repair_if_stranded-Leaves :
        (map : List (String × String)) (p : Pass Text) (now created_at : ℤ)
        → in_i64 now ≡ true
        → IsSound p.store
        → IsFresh p.store row
        → All (IsFresh p.store) rows
        → Leaves rows (repair_if_stranded map p row now created_at)
    unfolding repair_if_stranded
    repair_if_stranded-Leaves map p now created_at range h f later =
        by_book (as_str (Json.get "book_id" row))
      where
        by_row :
            (book_id : String) (read : Result (Option Map))
            → Leaves rows (elim read [
              | ok (some book) ↦
                  if is_tombstone book then repair map p row book_id book now created_at else p
              | _ ↦ p
            ])
        by_row book_id (err e) = record { sound = h; fresh = later }
        by_row book_id (ok none) = record { sound = h; fresh = later }
        by_row book_id (ok (some book)) = elim (Bool-cases (is_tombstone book)) [
          | inl dead ↦ rw dead (repair-Leaves map p book_id book now created_at range h f later)
          | inr alive ↦ rw alive (record { sound = h; fresh = later })
        ]

        by_book :
            (book_id : Option String)
            → Leaves rows (elim book_id [
              | none ↦ p
              | some book_id ↦ elim (get_row p.store "books" book_id) [
                | ok (some book) ↦
                    if is_tombstone book then repair map p row book_id book now created_at else p
                | _ ↦ p
              ]
            ])
        by_book none = record { sound = h; fresh = later }
        by_book (some book_id) = by_row book_id (get_row p.store "books" book_id)

  module _ (map : List (String × String)) (clock : ℕ → ℤ)
      (range : (n : ℕ) → in_i64 (clock n) ≡ true) where
    repair_all-IsSound :
        (place : ℕ) (p : Pass Text) (rows : List Map)
        → IsSound p.store
        → All (IsFresh p.store) rows
        → Pairwise Differ rows
        → IsSound (repair_all map clock place p rows).store
    unfolding repair_all
    repair_all-IsSound place p [] h f d = h
    repair_all-IsSound place p (row ∷ rows) h f d =
        let leaves =
          repair_if_stranded-Leaves row rows d.0 map p (clock place) (clock (suc place))
            (range place) h f.0 f.1 in
        repair_all-IsSound (suc (suc place)) _ rows leaves.sound leaves.fresh d.1

  -- At clocks in the range of `i64`, and where no note has a NULL key, the pass over the stranded notes
  -- keeps every queued payload backed by its stored row, though a detached note is written without a
  -- new stamp, and every row under its key.
  pub reconcile_stranded_notes-IsSound :
      (scan : Scan Text) (clock : ℕ → ℤ) (s : Store Text)
      → ((n : ℕ) → in_i64 (clock n) ≡ true)
      → s.keyless ≡ []
      → IsSound s
      → IsSound (reconcile_stranded_notes scan clock s).0
  unfolding reconcile_stranded_notes repair_listed repair_notes ◌>>=◌ read
  reconcile_stranded_notes-IsSound scan clock s range none_keyless h =
      by_map (load_merged_book_ids s)
    where
      by_notes :
          (map : List (String × String)) (notes : Result (List Map))
          → list_live scan s "notes" none (negsuc 0) (pos 0) ≡ notes
          → IsSound (read s notes >>= repair_notes clock map).0
      by_notes map (err e) listed = h
      by_notes map (ok notes) listed =
          let (all, differ) =
            list_live-IsListed scan s "notes" notes-HasId.schema notes-HasId.found notes-HasId.key
              h.keyed none_keyless listed in
          repair_all-IsSound map clock range 0 _ notes h (All-map notes (IsListed-IsFresh s) all)
            differ

      by_map :
          (answer : Answer (List (String × String)))
          → IsSound ((s, answer) >>= repair_listed scan clock).0
      by_map (failed e) = h
      by_map (done map) = by_notes map (list_live scan s "notes" none (negsuc 0) (pos 0)) refl
