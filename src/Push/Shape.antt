-- ===== src/Push/Shape.antt =====
-- The shape of what `flush` in src/sync/push.rs sends.
use braird_core.Prelude.{
  String, ◌≡◌, refl, false, not, is_none, some, List, [], ◌∷◌, str_eq, any, All, inl, inr,
  Bool-cases, arith, eq_iff,
}
use braird_core.Json
use braird_core.Json.{Value, Map, Serde, str, contains_key, empty, entry}
use braird_core.Json.Laws.{get-insert}
use braird_core.Outbox.{Collapsed}
use braird_core.Store.State.{Store}
use braird_core.Push.{
  Request, upsert, patch, Server, FlushRun, flush_groups, fail_group, finish_group, is_sparse,
  required_insert_columns, request_for, upsert_group, patch_group,
}
use braird_core.Push.Round.{Round, held, flushed, refused, flush_group-Round}
use braird_core.Push.Flush.{flush_tables}
use braird_core.Push.Parents.{sent_fields}

-- An upsert has the required columns of its table, and the user.

abbrev pub IsWhole : String → Request → Type 0
IsWhole user_id (upsert table on_conflict rows) =
    (is_sparse table (sent_fields (upsert table on_conflict rows)) ≡ false)
    × (Json.get "user_id" (sent_fields (upsert table on_conflict rows)) ≡ some (str user_id))
IsWhole user_id (patch table primary_key record_id row) = Unit

contains_key-get : (k : String) (m : Map) → contains_key k m ≡ not (is_none (Json.get k m))
unfolding contains_key Json.get
contains_key-get k empty = refl
contains_key-get k (entry j v m) = ground (arith, contains_key-get k m)

missing-insert :
    (columns : List String) (k : String) (v : Value) (payload : Map)
    → any (λ column. not (contains_key column payload)) columns ≡ false
    → any (λ column. not (contains_key column (Json.insert k v payload))) columns ≡ false
unfolding any
missing-insert [] k v payload h = refl
missing-insert (column ∷ columns) k v payload h = ground (
  arith,
  contains_key-get column payload,
  contains_key-get column (Json.insert k v payload),
  get-insert k column v payload,
  missing-insert columns k v payload,
)

request_for-IsWhole :
    (user_id table : String) (payload : Map) → IsWhole user_id (request_for user_id table payload)
unfolding request_for upsert_group patch_group
request_for-IsWhole user_id table payload = elim (Bool-cases (is_sparse table payload)) [
  | inl e ↦ rw (e, IsWhole) tt
  | inr e ↦
      rw (e, IsWhole)
        (
          unfold sent_fields is_sparse in
              missing-insert (required_insert_columns table) "user_id" (str user_id) payload e,
          unfold sent_fields in
              ground (
                arith,
                get-insert "user_id" "user_id" (str user_id) payload,
                eq_iff "user_id" "user_id",
              ),
        )
]

module _ (server : Server) (user_id : String) where
  Round-IsWhole :
      {table : String} {group : Collapsed} {run after : FlushRun}
      → Round server user_id table group run after
      → All (IsWhole user_id) run.sent
      → All (IsWhole user_id) after.sent
  unfolding fail_group finish_group
  Round-IsWhole (held e) whole = whole
  Round-IsWhole (flushed e a) whole = (request_for-IsWhole user_id _ _, whole)
  Round-IsWhole (refused e a) whole = (request_for-IsWhole user_id _ _, whole)

  flush_groups-IsWhole :
      (table : String) (groups : List Collapsed) (run : FlushRun)
      → All (IsWhole user_id) run.sent
      → All (IsWhole user_id) (flush_groups server user_id table groups run).sent
  unfolding flush_groups
  flush_groups-IsWhole table [] run whole = whole
  flush_groups-IsWhole table (group ∷ groups) run whole =
      elim (Bool-cases (str_eq group.table table)) [
        | inl e ↦
            rw (e, flush_groups)
              (flush_groups-IsWhole table groups _
                (Round-IsWhole (flush_group-Round server user_id table group run) whole))
        | inr e ↦ rw (e, flush_groups) (flush_groups-IsWhole table groups run whole)
      ]

  pub flush_tables-IsWhole :
      {Text : Type 0} ⦃serde : Serde Text⦄ (collapsed : List Collapsed) (tables : List String)
      (state : Store Text × FlushRun)
      → All (IsWhole user_id) state.1.sent
      → All (IsWhole user_id) (flush_tables server user_id collapsed tables state).1.sent
  unfolding flush_tables
  flush_tables-IsWhole collapsed [] state whole = whole
  flush_tables-IsWhole collapsed (table ∷ tables) state whole =
      flush_tables-IsWhole collapsed tables _ (flush_groups-IsWhole table collapsed state.1 whole)
