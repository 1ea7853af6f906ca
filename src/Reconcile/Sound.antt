-- ===== src/Reconcile/Sound.antt =====
-- The invariant of src/sync/reconcile.rs over its transactions.
use braird_core.Prelude.{
  String, ℤ, true, false, in_i64, List, [], str_eq, ◌⊎◌, inl, inr, ◌≡◌, refl, some, none, Option,
  arith, unwrap_or,
}
use braird_core.Json
use braird_core.Json.{Map, Value, Serde, null, bool, num, str, int, empty, as_i64}
use braird_core.Json.Laws.{get-insert}
use braird_core.Store.Schema.{TableSchema, table_schema, find_table, descriptor_tables}
use braird_core.Store.State.{SqlError, Result, ok, err, Store, get_row}
use braird_core.Store.Meta.{meta_set}
use braird_core.Store.Staging.{stage_local_write, stage_write_inner, stage_local_write_resurrecting}
use braird_core.Store.Clamp.{as_i64-int}
use braird_core.Store.Backed.{IsBacked, IsBacked-same}
use braird_core.Store.Keyed.{IsKeyed, IsKeyed-same, stage_write-IsKeyed, resurrecting-IsKeyed}
use braird_core.Store.Writes.{IsStamped, stage_write-IsBacked, resurrecting-IsBacked}
use braird_core.Reconcile.{
  Answer, done, failed, Run, ◌>>=◌, read, commit, rehome_patch, save_merged_book_ids,
}

pub Result-cases :
    {A : Type 0} (r : Result A) → ((e : SqlError) × (r ≡ err e)) ⊎ ((a : A) × (r ≡ ok a))
Result-cases (err e) = inl (e, refl)
Result-cases (ok a) = inr (a, refl)

-- A table's descriptor, with the key `id`.

pub record HasId (table : String) : Type 0 where
  pub schema : TableSchema
  pub found : table_schema table ≡ some schema
  pub key : schema.pk ≡ "id"

schema_of : String → TableSchema
schema_of table = unwrap_or (table_schema table) (record { name = ""; pk = ""; columns = [] })

pub notes-HasId : HasId "notes"
unfolding schema_of table_schema find_table descriptor_tables
notes-HasId = record { schema = schema_of "notes"; found = refl; key = refl }

books-HasId : HasId "books"
unfolding schema_of table_schema find_table descriptor_tables
books-HasId = record { schema = schema_of "books"; found = refl; key = refl }

stamped_by :
    (table id : String) (row : Map) (now : ℤ)
    → HasId table
    → in_i64 now ≡ true
    → Json.get "id" row ≡ some (str id)
    → IsStamped table id (Json.insert "updated_at" (num (int now)) row)
stamped_by table id row now t range key = record {
  schema = t.schema;
  stamp = now;
  found = t.found;
  key = ground (arith, t.key, key, get-insert "updated_at" "id" (num (int now)) row);
  stamped =
      ground
        (arith, get-insert "updated_at" "updated_at" (num (int now)) row, as_i64-int now range);
}

pub get-insert-id :
    (column id : String) (v : Value) (row : Map)
    → str_eq column "id" ≡ false
    → Json.get "id" row ≡ some (str id)
    → Json.get "id" (Json.insert column v row) ≡ some (str id)
get-insert-id column id v row apart key = ground (arith, get-insert column "id" v row)

pub rehome_patch-IsStamped :
    (note_id : String) (v : Value) (now : ℤ)
    → in_i64 now ≡ true
    → IsStamped "notes" note_id (rehome_patch note_id v now)
unfolding rehome_patch
rehome_patch-IsStamped note_id v now range = stamped_by "notes" note_id _ now notes-HasId range (
    get-insert-id "content_tag" note_id null _ refl (
      get-insert-id "book_id" note_id v _ refl
        (ground (arith, get-insert "id" "id" (str note_id) empty))))

-- A book's patch: some columns but the key, then the stamp.
pub book_patch-IsStamped :
    (id : String) (row : Map) (now : ℤ)
    → in_i64 now ≡ true
    → Json.get "id" row ≡ some (str id)
    → IsStamped "books" id (Json.insert "updated_at" (num (int now)) row)
book_patch-IsStamped id row now range key = stamped_by "books" id row now books-HasId range key

-- A property of a result, where there is one.
abbrev pub Holds : {A : Type 0} → (A → Type 0) → Answer A → Type 0
Holds P (failed e) = Unit
Holds P (done a) = P a

-- A stored book carries its id.
abbrev pub Carries : String → Option Map → Type 0
Carries id none = Unit
Carries id (some row) = Json.get "id" row ≡ some (str id)

module _ {Text : Type 0} ⦃serde : Serde Text⦄ where
  -- No queued stamp is above its row's, and every row stands under its key.
  pub record IsSound (s : Store Text) : Type 0 where
    pub backed : IsBacked s
    pub keyed : IsKeyed s

  -- A run that ends in a sound store, with P of its result where it has one.
  pub record Ends {A : Type 0} (P : Store Text → A → Type 0) (m : Run Text A) : Type 0 where
    pub sound : IsSound m.0
    pub result : Holds (P m.0) m.1

  pub then-Ends :
      {A B : Type 0} {P : Store Text → A → Type 0} {Q : Store Text → B → Type 0} {m : Run Text A}
      {next : Store Text → A → Run Text B}
      → Ends P m
      → ((t : Store Text) (a : A) → IsSound t → P t a → Ends Q (next t a))
      → Ends Q (m >>= next)
  unfolding ◌>>=◌
  then-Ends {m = (s, failed e)} h f = record { sound = h.sound; result = tt }
  then-Ends {m = (s, done a)} h f = f s a h.sound h.result

  -- A read changes nothing, and what it gives is a value of the store.
  pub read-Ends :
      {A : Type 0} (s : Store Text) (r : Result A)
      → IsSound s
      → Ends (λ after a. (after ≡ s) × (r ≡ ok a)) (read s r)
  unfolding read
  read-Ends s (ok a) h = record { sound = h; result = (refl, refl) }
  read-Ends s (err e) h = record { sound = h; result = tt }

  commit-Ends :
      (s : Store Text) (r : Result (Store Text))
      → IsSound s
      → ((t : Store Text) → r ≡ ok t → IsSound t)
      → Ends (λ after committed. r ≡ ok after) (commit s r)
  unfolding commit
  commit-Ends s (ok t) h f = record { sound = f t refl; result = refl }
  commit-Ends s (err e) h f = record { sound = h; result = tt }

  -- A stamped local write
  pub stage-Ends :
      (s : Store Text) (table id : String) (patch : Map) (created_at : ℤ)
      → IsStamped table id patch
      → IsSound s
      → Ends
          (λ after committed. stage_write_inner s table id patch created_at ≡ ok after)
          (commit s (stage_local_write s table id patch created_at))
  unfolding stage_local_write
  stage-Ends s table id patch created_at write h =
      commit-Ends s (stage_write_inner s table id patch created_at) h λ t staged. record {
        backed = stage_write-IsBacked s table id patch created_at write h.backed staged;
        keyed = stage_write-IsKeyed s table id patch created_at write h.keyed staged;
      }

  pub resurrect-Ends :
      (s : Store Text) (table id : String) (patch : Map) (created_at : ℤ)
      → IsStamped table id patch
      → IsSound s
      → Ends
          (λ after committed. stage_local_write_resurrecting s table id patch created_at ≡ ok after)
          (commit s (stage_local_write_resurrecting s table id patch created_at))
  resurrect-Ends s table id patch created_at write h =
      commit-Ends s (stage_local_write_resurrecting s table id patch created_at) h λ t staged.
        record {
          backed = resurrecting-IsBacked s table id patch created_at write h.backed staged;
          keyed = resurrecting-IsKeyed s table id patch created_at write h.keyed staged;
        }

  pub Ends-map :
      {A : Type 0} {P Q : Store Text → A → Type 0} {m : Run Text A}
      → ((t : Store Text) (a : A) → P t a → Q t a)
      → Ends P m
      → Ends Q m
  Ends-map {m = (s, failed e)} f h = record { sound = h.sound; result = tt }
  Ends-map {m = (s, done a)} f h = record { sound = h.sound; result = f s a h.result }

  -- The map of the device is read, and nothing written.
  pub load-Ends :
      {A : Type 0} (s : Store Text) (answer : Answer A)
      → IsSound s
      → Ends (λ after a. Unit) (s, answer)
  load-Ends s (failed e) h = record { sound = h; result = tt }
  load-Ends s (done a) h = record { sound = h; result = tt }

  pub save-IsSound :
      (s : Store Text) (map : List (String × String))
      → IsSound s
      → IsSound (save_merged_book_ids s map)
  unfolding save_merged_book_ids meta_set
  save-IsSound s map h = record {
    backed = IsBacked-same s (save_merged_book_ids s map) refl refl h.backed;
    keyed = IsKeyed-same s (save_merged_book_ids s map) refl h.keyed;
  }

  book-key :
      (s : Store Text) (id : String) (row : Map)
      → IsSound s
      → get_row s "books" id ≡ ok (some row)
      → Json.get "id" row ≡ some (str id)
  book-key s id row h found =
      ground
        (arith, books-HasId.key, h.keyed "books" books-HasId.schema id row books-HasId.found found)

  found-Carries :
      (s : Store Text) (id : String) (found : Option Map)
      → IsSound s
      → get_row s "books" id ≡ ok found
      → Carries id found
  found-Carries s id none h e = tt
  found-Carries s id (some row) h e = book-key s id row h e

  pub book-Ends :
      (s : Store Text) (id : String)
      → IsSound s
      → Ends (λ after found. (after ≡ s) × Carries id found) (read s (get_row s "books" id))
  unfolding read
  book-Ends s id h = elim (Result-cases (get_row s "books" id)) [
    | inl (e, failure) ↦ rw failure (record { sound = h; result = tt })
    | inr (found, e) ↦ rw e (record { sound = h; result = (refl, found-Carries s id found h e) })
  ]
