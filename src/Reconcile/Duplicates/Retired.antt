-- ===== src/Reconcile/Duplicates/Retired.antt =====
-- The tombstones of `merge_books` of src/sync/reconcile.rs.
use braird_core.Prelude.{
  String, ℤ, true, in_i64, ◌≡◌, refl, ap, ◌∙◌, subst, ◌&&◌, some, List, [], ◌∷◌, map, All, arith,
  eq_iff, str_eq, Bool-cases, inl, inr,
}
use braird_core.Prelude.Maps
use braird_core.Json
use braird_core.Json.{Map, Serde, bool, num, str, int}
use braird_core.Json.Laws.{get-insert}
use braird_core.Store.Schema.{
  TableSchema, ColType, text, find_table, table_schema, descriptor_tables,
}
use braird_core.Store.Cells.{through, sql_to_json, json_to_sql}
use braird_core.Store.State.{Store, ok}
use braird_core.Store.Staging.{stage_write_inner}
use braird_core.Store.Columns.{table_schema-IsSynced}
use braird_core.Store.Column.{stored_column, stage-other, stage-column}
use braird_core.Store.Writes.{IsStamped}
use braird_core.Reconcile.Sound.{
  IsSound, Ends, then-Ends, stage-Ends, Ends-map, get-insert-id, book_patch-IsStamped,
}
use braird_core.Reconcile.Duplicates.{tombstone_patch, tombstone_losers}

-- A row with the id of its entry.

abbrev pub IsOwn : String × Map → Type 0
IsOwn (id, row) = Json.get "id" row ≡ some (str id)

abbrev pub ids_of : List (String × Map) → List String
ids_of losers = map (λ entry. entry.0) losers

books-merged_into :
    (schema : TableSchema)
    → table_schema "books" ≡ some schema
    → Maps.lookup "merged_into" schema.columns ≡ some text
unfolding table_schema find_table descriptor_tables Maps.lookup
books-merged_into schema found = ground arith

through-bool :
    (Text : Type 0) ⦃serde : Serde Text⦄ → through Text ColType.bool (some (bool true)) ≡ bool true
unfolding through sql_to_json json_to_sql
through-bool Text = refl

pub through-id :
    (Text : Type 0) ⦃serde : Serde Text⦄ (id : String) → through Text text (some (str id)) ≡ str id
unfolding through sql_to_json json_to_sql
through-id Text id = refl

module _ (survivor_id : String) (now : ℤ) where
  patch-deleted :
      (row : Map) → Json.get "deleted" (tombstone_patch row survivor_id now) ≡ some (bool true)
  unfolding tombstone_patch
  patch-deleted row =
      let dead = Json.insert "deleted" (bool true) row in
      ground (
        arith,
        get-insert "updated_at" "deleted" (num (int now))
            (Json.insert "merged_into" (str survivor_id) dead),
        get-insert "merged_into" "deleted" (str survivor_id) dead,
        get-insert "deleted" "deleted" (bool true) row,
      )

  patch-merged_into :
      (row : Map)
      → Json.get "merged_into" (tombstone_patch row survivor_id now) ≡ some (str survivor_id)
  unfolding tombstone_patch
  patch-merged_into row =
      let dead = Json.insert "deleted" (bool true) row in
      ground (
        arith,
        get-insert "updated_at" "merged_into" (num (int now))
            (Json.insert "merged_into" (str survivor_id) dead),
        get-insert "merged_into" "merged_into" (str survivor_id) dead,
      )

  tombstone_patch-IsStamped :
      (id : String) (row : Map)
      → in_i64 now ≡ true
      → IsOwn (id, row)
      → IsStamped "books" id (tombstone_patch row survivor_id now)
  unfolding tombstone_patch
  tombstone_patch-IsStamped id row range own = book_patch-IsStamped id _ now range (
      get-insert-id "merged_into" id (str survivor_id) _ refl
        (get-insert-id "deleted" id (bool true) row refl own))

module _ {Text : Type 0} ⦃serde : Serde Text⦄ (survivor_id : String) where
  -- A book that is deleted and points at the survivor.
  abbrev pub IsRetired : Store Text → String → Type 0
  IsRetired s id =
      (stored_column s "books" id "deleted" ≡ some (bool true))
      × (stored_column s "books" id "merged_into" ≡ some (str survivor_id))

  module _ (now : ℤ) (range : in_i64 now ≡ true) where
    module _ (s t : Store Text) (id : String) (row : Map) (own : IsOwn (id, row))
        (staged : stage_write_inner s "books" id (tombstone_patch row survivor_id now) now
          ≡ ok t) where
      tombstone-IsRetired : IsRetired t id
      tombstone-IsRetired =
          let write = tombstone_patch-IsStamped survivor_id now id row range own in
          let patch = tombstone_patch row survivor_id now in
          (
            stage-column s "books" id patch now write staged "deleted" ColType.bool (bool true)
                  (λ e. absurd (ground (arith, eq_iff "deleted" "updated_at")))
                  ((table_schema-IsSynced "books" write.schema write.found).0.deleted)
                  (patch-deleted survivor_id now row)
                ∙ ap some (through-bool Text),
            stage-column s "books" id patch now write staged "merged_into" text (str survivor_id)
                  (λ e. absurd (ground (arith, eq_iff "merged_into" "updated_at")))
                  (books-merged_into write.schema write.found)
                  (patch-merged_into survivor_id now row)
                ∙ ap some (through-id Text survivor_id),
          )

      IsRetired-stays : (j : String) → IsRetired s j → IsRetired t j
      IsRetired-stays j r =
          let write = tombstone_patch-IsStamped survivor_id now id row range own in
          let patch = tombstone_patch row survivor_id now in
          elim (Bool-cases (str_eq "books" "books" && str_eq id j)) [
            | inl same ↦ subst (IsRetired t) (ground (arith, eq_iff id j)) tombstone-IsRetired
            | inr apart ↦ (
              stage-other s "books" id patch now write staged "books" j "deleted" apart ∙ r.0,
              stage-other s "books" id patch now write staged "books" j "merged_into" apart ∙ r.1,
            )
          ]

    -- The losers are retired, what was retired stays so, and the notes stay on their books.
    abbrev Retires : List (String × Map) → Store Text → Store Text → Type 0
    Retires losers s t =
        (((j : String) → IsRetired s j → IsRetired t j)
          × ((j : String)
              → stored_column t "notes" j "book_id" ≡ stored_column s "notes" j "book_id"))
        × All (IsRetired t) (ids_of losers)

    pub tombstone_losers-Ends :
        (losers : List (String × Map)) (s : Store Text)
        → All IsOwn losers
        → IsSound s
        → Ends
            (λ after tombstoned. Retires losers s after)
            (tombstone_losers survivor_id now losers s)
    unfolding tombstone_losers
    tombstone_losers-Ends [] s own h = record { sound = h; result = ((λ j r. r, λ j. refl), tt) }
    tombstone_losers-Ends ((id, row) ∷ losers) s own h =
        let write = tombstone_patch-IsStamped survivor_id now id row range own.0 in
        then-Ends (stage-Ends s "books" id _ now write h) λ t committed k staged.
          Ends-map
            (λ u tombstoned later. (
              (
                λ j r. later.0.0 j (IsRetired-stays s t id row own.0 staged j r),
                λ j.
                    later.0.1 j
                    ∙ stage-other s "books" id (tombstone_patch row survivor_id now) now write
                        staged "notes" j "book_id" refl,
              ),
              (later.0.0 id (tombstone-IsRetired s t id row own.0 staged), later.1),
            ))
            (tombstone_losers-Ends losers t own.1 k)
