-- ===== src/Reconcile/Stranded.antt =====
-- `reconcile_books` and `reconcile_stranded_notes` of src/sync/reconcile.rs. The readings of the
-- clock are an argument, by their number.
pub mod Repair
pub mod Kept
pub mod Examples
use braird_core.Prelude.{
  ℕ, suc, String, ℤ, pos, negsuc, none, some, List, [], ◌∷◌, if◌then◌else◌, map,
}
use braird_core.Prelude.Maps
use braird_core.Json
use braird_core.Json.{Map, Value, Serde, null, str, obj, as_str}
use braird_core.Store.State.{ok, err, Store, get_row, apply_row}
use braird_core.Store.Staging.{is_tombstone, stage_local_write}
use braird_core.Store.Listing.{Scan, list_live}
use braird_core.Pull.{page, refusal}
use braird_core.Snapshot.Fetch.{IdRequest, Lookup}
use braird_core.Reconcile.{
  done, failed, fetch_failed, Run, ◌>>=◌, read, row_str, rehome_patch, load_merged_book_ids,
}
use braird_core.Reconcile.Survivor.{live, deleted, absent, resolve_survivor}

-- What the pass has counted, and its store.

pub record Pass (Text : Type 0) : Type 0 where
  pub store : Store Text
  pub rehomed : ℕ
  pub detached : ℕ

unfoldable pub detached_row : Map → Map
detached_row row = Json.insert "content_tag" null (Json.insert "book_id" null row)

module _ {Text : Type 0} ⦃serde : Serde Text⦄ where
  unfoldable pub rehome : Pass Text → String → String → ℤ → ℤ → Pass Text
  rehome p note_id survivor now created_at =
      elim (stage_local_write p.store "notes" note_id (rehome_patch note_id (str survivor) now)
        created_at) [
          | ok t ↦ record { store = t; rehomed = suc p.rehomed; detached = p.detached }
          | err e ↦ p
        ]

  unfoldable pub detach : Pass Text → Map → Pass Text
  unfolding detached_row
  detach p row = elim (apply_row p.store "notes" (detached_row row)) [
    | ok t ↦ record { store = t; rehomed = p.rehomed; detached = suc p.detached }
    | err e ↦ p
  ]

  -- One note of a deleted book.
  unfoldable pub repair :
      List (String × String) → Pass Text → Map → String → Map → ℤ → ℤ → Pass Text
  repair map p row book_id book now created_at = elim (resolve_survivor p.store map book_id book) [
    | err e ↦ p
    | ok (survivor, live) ↦ rehome p (row_str row "id") survivor now created_at
    | ok (survivor, deleted) ↦ detach p row
    | ok (survivor, absent) ↦ p
  ]

  unfoldable pub repair_if_stranded : List (String × String) → Pass Text → Map → ℤ → ℤ → Pass Text
  repair_if_stranded map p row now created_at = elim (as_str (Json.get "book_id" row)) [
    | none ↦ p
    | some book_id ↦ elim (get_row p.store "books" book_id) [
      | ok (some book) ↦
          if is_tombstone book then repair map p row book_id book now created_at else p
      | _ ↦ p
    ]
  ]

  -- The loop over the notes; each has two readings of the clock.
  unfoldable pub repair_all :
      List (String × String) → (ℕ → ℤ) → ℕ → Pass Text → List Map → Pass Text
  repair_all map clock place p [] = p
  repair_all map clock place p (row ∷ rows) =
      repair_all map clock (suc (suc place))
        (repair_if_stranded map p row (clock place) (clock (suc place))) rows

  unfoldable pub repair_notes :
      (ℕ → ℤ) → List (String × String) → Store Text → List Map → Run Text (ℕ × ℕ)
  repair_notes clock map s notes =
      let p = repair_all map clock 0 (record { store = s; rehomed = 0; detached = 0 }) notes in
      (p.store, done (p.rehomed, p.detached))

  unfoldable pub repair_listed :
      Scan Text → (ℕ → ℤ) → Store Text → List (String × String) → Run Text (ℕ × ℕ)
  repair_listed scan clock s map =
      read s (list_live scan s "notes" none (negsuc 0) (pos 0)) >>= repair_notes clock map

  unfoldable pub reconcile_stranded_notes : Scan Text → (ℕ → ℤ) → Store Text → Run Text (ℕ × ℕ)
  reconcile_stranded_notes scan clock s = (s, load_merged_book_ids s) >>= repair_listed scan clock

  -- The ids of the books that live notes refer to and the store does not have, once each.
  unfoldable pub missing_ids : Store Text → List Map → List (String × String)
  missing_ids s [] = []
  missing_ids s (row ∷ rows) = elim (as_str (Json.get "book_id" row)) [
    | none ↦ missing_ids s rows
    | some book_id ↦ elim (get_row s "books" book_id) [
      | ok none ↦ Maps.insert book_id book_id (missing_ids s rows)
      | _ ↦ missing_ids s rows
    ]
  ]

  unfoldable pub backfill : Store Text → ℕ → List Value → Store Text × ℕ
  backfill s count [] = (s, count)
  backfill s count (obj row ∷ rows) = elim (apply_row s "books" row) [
    | ok t ↦ backfill t (suc count) rows
    | err e ↦ backfill s count rows
  ]
  backfill s count (row ∷ rows) = backfill s count rows

  -- What the server has of them is written as it is, and not queued.
  unfoldable pub reconcile_books : Scan Text → Lookup → Store Text → Run Text ℕ
  reconcile_books scan lookup s =
      read s (list_live scan s "notes" none (negsuc 0) (pos 0)) >>= λ s notes.
      elim (map (λ entry. entry.0) (missing_ids s notes)) [
        | [] ↦ (s, done 0)
        | id ∷ ids ↦
            let request : IdRequest = record {
              table = "books";
              primary_key = "id";
              ids = id ∷ ids;
            } in
            elim (lookup [] request) [
              | refusal e ↦ (s, failed fetch_failed)
              | page fetched ↦ let filled = backfill s 0 fetched in (filled.0, done filled.1)
            ]
      ]
