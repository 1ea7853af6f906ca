-- ===== src/Reconcile/Survivor.antt =====
-- `resolve_survivor` of src/sync/reconcile.rs: the walk from a merged book to the one that is left.
pub mod Walk
pub mod Examples
use braird_core.Prelude.{
  ℕ, zero, suc, String, true, false, Option, none, some, List, str_eq, if◌then◌else◌,
}
use braird_core.Prelude.Maps
use braird_core.Json
use braird_core.Json.{Map, Serde, as_str}
use braird_core.Store.State.{Result, ok, ◌>>=◌, Store, get_row}
use braird_core.Store.Staging.{is_tombstone}

pub data SurvivorLiveness : Type 0 where
  live deleted absent : SurvivorLiveness

-- The pointer of a stored row; an empty one counts as none.
unfoldable pub merged_into : Option Map → Option String
merged_into none = none
merged_into (some row) = elim (as_str (Json.get "merged_into" row)) [
  | none ↦ none
  | some next ↦ if str_eq next "" then none else some next
]

-- The row's pointer, else the entry of the device's map.
unfoldable pub next_book : List (String × String) → String → Option Map → Option String
next_book map id row = elim (merged_into row) [ none ↦ Maps.lookup id map | some next ↦ some next ]

unfoldable pub liveness_of : Option Map → SurvivorLiveness
liveness_of none = absent
liveness_of (some row) = if is_tombstone row then deleted else live

module _ {Text : Type 0} ⦃serde : Serde Text⦄ (s : Store Text) (map : List (String × String)) where
  -- At most `hops` rounds of the loop.
  unfoldable pub walk : ℕ → String → Option Map → Result (String × Option Map)
  walk zero id row = ok (id, row)
  walk (suc hops) id row = elim (next_book map id row) [
    | none ↦ ok (id, row)
    | some next ↦ elim (str_eq next id) [
      | true ↦ ok (id, row)
      | false ↦ get_row s "books" next >>= λ found. walk hops next found
    ]
  ]

  unfoldable pub resolve_survivor : String → Map → Result (String × SurvivorLiveness)
  resolve_survivor start_id start_row =
      walk 20 start_id (some start_row) >>= λ end. ok (end.0, liveness_of end.1)
