-- ===== src/Push/Answers.antt =====
-- `flush` of src/sync/push.rs against a server that accepts everything, or nothing.
use braird_core.Prelude.{
  String, ◌≡◌, refl, true, false, List, [], ◌∷◌, str_eq, any, inl, inr, Bool-cases, arith,
}
use braird_core.Json.{Map, Serde}
use braird_core.Outbox.{Collapsed}
use braird_core.Store.State.{Store}
use braird_core.Push.{
  Request, Server, FlushRun, flush_groups, fail_group, finish_group, is_blocked, fk_deps,
  has_member,
}
use braird_core.Push.Round.{
  Round, payload_of, request_of, held, flushed, refused, flush_group-Round,
}
use braird_core.Push.Flush.{flush_tables}

-- Nothing has failed.

pub record IsSmooth (run : FlushRun) : Type 0 where
  pub none_failed : run.failed_ids ≡ []
  pub none_held : (table : String) → run.failed table ≡ []

is_blocked-none :
    (failed : String → List String) (deps : List (String × String)) (payload : Map)
    → ((table : String) → failed table ≡ [])
    → is_blocked failed deps payload ≡ false
unfolding is_blocked any has_member
is_blocked-none failed [] payload h = refl
is_blocked-none failed (dep ∷ deps) payload h =
    ground (arith, h dep.1, is_blocked-none failed deps payload h)

module _ (server : Server) (user_id : String) where
  module _ (accepts : (sent : List Request) (request : Request) → server sent request ≡ true) where
    Round-IsSmooth :
        {table : String} {group : Collapsed} {run after : FlushRun}
        → Round server user_id table group run after
        → IsSmooth run
        → IsSmooth after
    unfolding finish_group
    Round-IsSmooth {table = table} {group = group} {run = run} (held e) smooth = absurd (
        ground (
          arith,
          is_blocked-none run.failed (fk_deps table) (payload_of server user_id table group run)
              smooth.none_held,
          e,
        ))
    Round-IsSmooth (flushed e a) smooth = record {
      none_failed = smooth.none_failed;
      none_held = smooth.none_held;
    }
    Round-IsSmooth {table = table} {group = group} {run = run} (refused e a) smooth =
        absurd (ground (arith, accepts run.sent (request_of server user_id table group run), a))

    flush_groups-IsSmooth :
        (table : String) (groups : List Collapsed) (run : FlushRun)
        → IsSmooth run
        → IsSmooth (flush_groups server user_id table groups run)
    unfolding flush_groups
    flush_groups-IsSmooth table [] run smooth = smooth
    flush_groups-IsSmooth table (group ∷ groups) run smooth =
        elim (Bool-cases (str_eq group.table table)) [
          | inl e ↦
              rw (e, flush_groups)
                (flush_groups-IsSmooth table groups _
                  (Round-IsSmooth (flush_group-Round server user_id table group run) smooth))
          | inr e ↦ rw (e, flush_groups) (flush_groups-IsSmooth table groups run smooth)
        ]

    pub flush_tables-IsSmooth :
        {Text : Type 0} ⦃serde : Serde Text⦄ (collapsed : List Collapsed) (tables : List String)
        (state : Store Text × FlushRun)
        → IsSmooth state.1
        → IsSmooth (flush_tables server user_id collapsed tables state).1
    unfolding flush_tables
    flush_tables-IsSmooth collapsed [] state smooth = smooth
    flush_tables-IsSmooth collapsed (table ∷ tables) state smooth =
        flush_tables-IsSmooth collapsed tables _
          (flush_groups-IsSmooth table collapsed state.1 smooth)

  module _ (refuses : (sent : List Request) (request : Request) → server sent request ≡ false) where
    Round-refused :
        {table : String} {group : Collapsed} {run after : FlushRun}
        → Round server user_id table group run after
        → run.ok_ids ≡ []
        → after.ok_ids ≡ []
    unfolding fail_group
    Round-refused (held e) h = h
    Round-refused {table = table} {group = group} {run = run} (flushed e a) h =
        absurd (ground (arith, refuses run.sent (request_of server user_id table group run), a))
    Round-refused (refused e a) h = h

    flush_groups-refused :
        (table : String) (groups : List Collapsed) (run : FlushRun)
        → run.ok_ids ≡ []
        → (flush_groups server user_id table groups run).ok_ids ≡ []
    unfolding flush_groups
    flush_groups-refused table [] run h = h
    flush_groups-refused table (group ∷ groups) run h =
        elim (Bool-cases (str_eq group.table table)) [
          | inl e ↦
              rw (e, flush_groups)
                (flush_groups-refused table groups _
                  (Round-refused (flush_group-Round server user_id table group run) h))
          | inr e ↦ rw (e, flush_groups) (flush_groups-refused table groups run h)
        ]

    pub flush_tables-refused :
        {Text : Type 0} ⦃serde : Serde Text⦄ (collapsed : List Collapsed) (tables : List String)
        (state : Store Text × FlushRun)
        → state.1.ok_ids ≡ []
        → (flush_tables server user_id collapsed tables state).1.ok_ids ≡ []
    unfolding flush_tables
    flush_tables-refused collapsed [] state h = h
    flush_tables-refused collapsed (table ∷ tables) state h =
        flush_tables-refused collapsed tables _ (flush_groups-refused table collapsed state.1 h)
