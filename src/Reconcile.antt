-- ===== src/Reconcile.antt =====
-- src/sync/reconcile.rs: the repair passes after a pull, and the merge of duplicate books.
pub mod Sound
pub mod Survivor
pub mod Stranded
pub mod Duplicates
pub mod Examples
use braird_core.Prelude.{
  String, ℤ, pos, ◌≡◌, refl, Option, none, some, List, [], ◌∷◌, arith, unwrap_or,
}
use braird_core.Prelude.Maps
use braird_core.Json
use braird_core.Json.{Map, Value, Serde, null, str, num, int, obj, empty, as_i64, as_str}
use braird_core.Store.State.{Result, ok, err, Store, json_text}
use braird_core.Store.Meta.{meta_get, meta_set}
use braird_core.Push.Flush.{texts_of, remap_value}

-- The errors of the passes; of their texts, the causes are kept.
pub data ReconcileError : Type 0 where
  store_failed fetch_failed unreadable_map empty_survivor no_live_survivor redirect_cycle :
      ReconcileError

pub data Answer (A : Type 0) : Type 0 where
  failed : ReconcileError → Answer A
  done : A → Answer A

-- What a pass leaves behind, whether it fails or not: its writes are transactions of their own.
abbrev pub Run : Type 0 → Type 0 → Type 0
Run Text A = Store Text × Answer A

-- The `?` operator
infixl 5 ◌>>=◌
unfoldable pub ◌>>=◌ : {Text A B : Type 0} → Run Text A → (Store Text → A → Run Text B) → Run Text B
(s, failed e) >>= next = (s, failed e)
(s, done a) >>= next = next s a

-- A transaction: the store stays as it is where it fails.
unfoldable pub commit : {Text : Type 0} → Store Text → Result (Store Text) → Run Text Unit
commit s (err e) = (s, failed store_failed)
commit s (ok t) = (t, done tt)

-- A read of the store
unfoldable pub read : {Text A : Type 0} → Store Text → Result A → Run Text A
read s (err e) = (s, failed store_failed)
read s (ok a) = (s, done a)

-- `row_str` and `row_i64`
unfoldable pub row_str : Map → String → String
row_str row key = unwrap_or (as_str (Json.get key row)) ""

unfoldable pub row_i64 : Map → String → ℤ
row_i64 row key = unwrap_or (as_i64 (Json.get key row)) (pos 0)

-- A note moved to a book: its content tag is stale, and cleared.
unfoldable pub rehome_patch : String → Value → ℤ → Map
rehome_patch note_id book_id now = Json.insert "updated_at" (num (int now)) (
    Json.insert "content_tag" null
      (Json.insert "book_id" book_id (Json.insert "id" (str note_id) empty)))

module _ {Text : Type 0} ⦃serde : Serde Text⦄ where
  unfoldable pub load_merged_book_ids : Store Text → Answer (List (String × String))
  load_merged_book_ids s = elim (meta_get s "mergedBookIds") [
    | none ↦ done []
    | some (json_text text) ↦ elim (serde.from_str text) [
      | some (obj m) ↦ elim (texts_of m) [ none ↦ failed unreadable_map | some map ↦ done map ]
      | _ ↦ failed unreadable_map
    ]
    | _ ↦ failed unreadable_map
  ]

  unfoldable pub save_merged_book_ids : Store Text → List (String × String) → Store Text
  save_merged_book_ids s map =
      meta_set s "mergedBookIds" (json_text (serde.to_string (obj (remap_value map))))
