-- ===== src/Push/Refused.antt =====
-- What `flush` in src/sync/push.rs sends after the server has refused a write.
use braird_core.Prelude.{
  ap, String, ◌≡◌, ◌≢◌, refl, subst, sym, ◌∙◌, true, false, not, ◌&&◌, some, List, [], ◌∷◌, str_eq,
  unwrap_or, if◌then◌else◌, any, All, All-map, inl, inr, Bool-cases, Option-cases, arith, eq_iff,
}
use braird_core.Json
use braird_core.Json.{Map, Serde, as_str, str}
use braird_core.Json.Laws.{get-insert}
use braird_core.Outbox.{Collapsed}
use braird_core.Store.Schema.{table_schema, synced_table_names}
use braird_core.Store.Columns.{table_schema-HasPlainKey}
use braird_core.Store.State.{Store, update}
use braird_core.Push.{
  Request, upsert, patch, Server, FlushRun, flush_groups, fail_group, finish_group, has_member,
  is_blocked, is_sparse, fk_deps, request_for, upsert_group, patch_group, record_id_column,
  sent_record_id,
}
use braird_core.Push.Round.{
  Round, payload_of, request_of, record_id_of, held, flushed, refused, flush_group-Round,
}
use braird_core.Push.Flush.{flush, flush_tables, fresh_run, collapsed_queue}
use braird_core.Push.Parents.{table_of, sent_fields}
use braird_core.Push.Order.{table_of-request_for}
use braird_core.Push.Outcome.{parts, flush-IsClear}

-- The record that a request is about.

unfoldable pub record_of : Request → String
record_of (upsert table on_conflict rows) =
    unwrap_or
      (as_str (Json.get (record_id_column table) (sent_fields (upsert table on_conflict rows)))) ""
record_of (patch table primary_key record_id row) = record_id

-- The records of a table whose request the server refused, from what was sent alone.
unfoldable pub refused_ids : Server → String → List Request → List String
unfolding record_of
refused_ids server table [] = []
refused_ids server table (request ∷ sent) =
    let earlier = refused_ids server table sent in
    if str_eq (table_of request) table && not (server sent request)
    then record_of request ∷ earlier
    else earlier

-- A request none of whose foreign keys is one of the records.
abbrev pub IsApart : (String → List String) → Request → Type 0
IsApart records request =
    All
      (λ (dep : String × String).
        All (λ id. as_str (Json.get dep.0 (sent_fields request)) ≢ some id) (records dep.1))
      (fk_deps (table_of request))

-- The run knows every refused record.
abbrev IsKnown : Server → FlushRun → Type 0
IsKnown server run =
    (table : String)
    → All (λ id. has_member (run.failed table) id ≡ true) (refused_ids server table run.sent)

refused_ids-accepted :
    (server : Server) (table : String) (request : Request) (sent : List Request)
    → server sent request ≡ true
    → refused_ids server table (request ∷ sent) ≡ refused_ids server table sent
unfolding refused_ids
refused_ids-accepted server table request sent h =
    rw (h, refused_ids)
      (elim (Bool-cases (str_eq (table_of request) table)) [
        | inl e ↦ rw e refl
        | inr e ↦ rw e refl
      ])

refused_ids-All :
    (P : String → Type 0) (server : Server) (table : String) (request : Request)
    (sent : List Request)
    → (table_of request ≡ table → P (record_of request))
    → All P (refused_ids server table sent)
    → All P (refused_ids server table (request ∷ sent))
unfolding refused_ids
refused_ids-All P server table request sent own earlier =
    elim (Bool-cases (str_eq (table_of request) table && not (server sent request))) [
      | inl e ↦ rw e (own ((eq_iff (table_of request) table).0 (ground arith)), earlier)
      | inr e ↦ rw e earlier
    ]

has_member-update :
    (failed : String → List String) (table other record_id id : String)
    → has_member (failed other) id ≡ true
    → has_member (update failed table (record_id ∷ failed table) other) id ≡ true
unfolding has_member any update
has_member-update failed table other record_id id h = ground (arith, eq_iff table other)

has_member-own :
    (failed : String → List String) (table id : String)
    → has_member (update failed table (id ∷ failed table) table) id ≡ true
unfolding has_member any update
has_member-own failed table id = ground (arith, eq_iff table table, eq_iff id id)

-- The key of a table is not the user's column.
user_id-ne-key : (table : String) → str_eq "user_id" (record_id_column table) ≡ false
unfolding record_id_column
user_id-ne-key table = elim (Option-cases (table_schema table)) [
  | inl e ↦ rw (e, record_id_column) refl
  | inr (schema, e) ↦ rw (e, record_id_column) (table_schema-HasPlainKey table schema e).user_id
]

record_of-request_for :
    (user_id table : String) (payload : Map)
    → record_of (request_for user_id table payload) ≡ sent_record_id table payload
unfolding record_of request_for upsert_group patch_group sent_fields sent_record_id
record_of-request_for user_id table payload = elim (Bool-cases (is_sparse table payload)) [
  | inl e ↦ rw e refl
  | inr e ↦ rw e (
      ground (
        arith,
        get-insert "user_id" (record_id_column table) (str user_id) payload,
        user_id-ne-key table,
      ))
]

is_blocked-IsApart :
    (failed records : String → List String) (deps : List (String × String)) (fields : Map)
    → ((table : String) → All (λ id. has_member (failed table) id ≡ true) (records table))
    → is_blocked failed deps fields ≡ false
    → All
        (λ (dep : String × String).
          All (λ id. as_str (Json.get dep.0 fields) ≢ some id) (records dep.1))
        deps
unfolding is_blocked any
is_blocked-IsApart failed records [] fields known b = tt
is_blocked-IsApart failed records (dep ∷ deps) fields known b = (
  All-map (records dep.1) (λ id member e. absurd (ground (arith, e, member))) (known dep.1),
  is_blocked-IsApart failed records deps fields known (ground arith),
)

module _ (server : Server) (user_id table : String) where
  Round-IsKnown :
      {group : Collapsed} {run after : FlushRun}
      → Round server user_id table group run after
      → IsKnown server run
      → IsKnown server after
  unfolding fail_group finish_group
  Round-IsKnown {group = group} {run = run} (held e) known other =
      All-map (refused_ids server other run.sent)
        (λ id.
          has_member-update run.failed table other (record_id_of server user_id table group run) id)
        (known other)
  Round-IsKnown {group = group} {run = run} (flushed e a) known other =
      rw (refused_ids-accepted server other (request_of server user_id table group run) run.sent a)
        (known other)
  Round-IsKnown {group = group} {run = run} (refused e a) known other =
      let id = record_id_of server user_id table group run in
      let request = request_of server user_id table group run in
      let earlier =
        All-map (refused_ids server other run.sent)
          (λ id'. has_member-update run.failed table other id id') (known other) in
      let own : table_of request ≡ table =
        table_of-request_for user_id table (payload_of server user_id table group run) in
      let about : record_of request ≡ id =
        record_of-request_for user_id table (payload_of server user_id table group run) in
      refused_ids-All _ server other request run.sent
        (λ same.
          let here : table ≡ other = sym own ∙ same in
          rw (about, ← here) (has_member-own run.failed table id))
        earlier

  flush_groups-IsKnown :
      (groups : List Collapsed) (run : FlushRun)
      → IsKnown server run
      → IsKnown server (flush_groups server user_id table groups run)
  unfolding flush_groups
  flush_groups-IsKnown [] run known = known
  flush_groups-IsKnown (group ∷ groups) run known = elim (Bool-cases (str_eq group.table table)) [
    | inl e ↦
        rw (e, flush_groups)
          (flush_groups-IsKnown groups _
            (Round-IsKnown (flush_group-Round server user_id table group run) known))
    | inr e ↦ rw (e, flush_groups) (flush_groups-IsKnown groups run known)
  ]

module _ {Text : Type 0} ⦃serde : Serde Text⦄ (server : Server) (user_id : String) where
  flush_tables-IsKnown :
      (collapsed : List Collapsed) (tables : List String) (state : Store Text × FlushRun)
      → IsKnown server state.1
      → IsKnown server (flush_tables server user_id collapsed tables state).1
  unfolding flush_tables
  flush_tables-IsKnown collapsed [] state known = known
  flush_tables-IsKnown collapsed (table ∷ tables) state known =
      flush_tables-IsKnown collapsed tables _
        (flush_groups-IsKnown server user_id table collapsed state.1 known)

  -- No request that a flush sends points, by a foreign key, at a record whose own request the server
  -- refused in that flush, whatever the server answers to the others.
  pub flush-IsApart :
      (s : Store Text) {t : Store Text} {run : FlushRun}
      → flush server user_id s ≡ some (t, run)
      → All (IsApart (λ table. refused_ids server table run.sent)) run.sent
  unfolding fresh_run refused_ids
  flush-IsApart s {run = run} ran =
      let p = parts server user_id s ran in
      let known : IsKnown server run =
        subst (IsKnown server) (sym (p.same_run ∙ ap (λ (d : Store Text × FlushRun). d.1) p.passes))
          (flush_tables-IsKnown (collapsed_queue s p.remap) synced_table_names
            (s, fresh_run p.remap) (λ table. tt)) in
      All-map run.sent
        (λ request clear.
          is_blocked-IsApart run.failed (λ table. refused_ids server table run.sent)
            (fk_deps (table_of request)) (sent_fields request) known clear)
        (flush-IsClear server user_id s ran)
