-- ===== src/Push/Order.antt =====
-- The order of the tables in `flush` of src/sync/push.rs, and the records that a run counts as
-- failed.
use braird_core.Prelude.{
  not, any, subst, sym, ◌&&◌, ◌∙◌, String, ◌≡◌, refl, Bool, true, false, List, [], ◌∷◌, str_eq, All,
  All-map, inl, inr, Bool-cases, arith,
}
use braird_core.Prelude.Maps
use braird_core.Json.{Map, Serde}
use braird_core.Outbox.{Collapsed}
use braird_core.Store.Schema.{synced_table_names}
use braird_core.Store.State.{Store, update}
use braird_core.Push.{
  Request, Server, FlushRun, flush_groups, fail_group, finish_group, is_blocked, fk_deps, arm,
  request_for, upsert_group, patch_group,
}
use braird_core.Push.Round.{Round, request_of, held, flushed, refused, flush_group-Round}
use braird_core.Push.Flush.{flush_tables}
use braird_core.Push.Parents.{
  table_of, sent_fields, IsClear, is_parent, is_blocked-update, is_blocked-FromPayload,
  request_for-FromPayload, fk_deps-All,
}

-- No table of the list is a parent of the request's.

abbrev pub IsFree : List String → Request → Type 0
IsFree tables request = All (λ table. is_parent table (fk_deps (table_of request)) ≡ false) tables

-- A table that depends neither on itself nor on the later ones.
abbrev pub IsFirst : String → List String → Type 0
IsFirst table tables = All (λ later. is_parent later (fk_deps table) ≡ false) (table ∷ tables)

-- Whether each table comes after those that it depends on.
unfoldable pub is_topological : List String → Bool
unfolding is_parent
is_topological [] = true
is_topological (table ∷ tables) =
    not (any (λ later. is_parent later (fk_deps table)) (table ∷ tables)) && is_topological tables

any-All : {A : Type 0} (p : A → Bool) (xs : List A) → any p xs ≡ false → All (λ x. p x ≡ false) xs
unfolding any
any-All p [] h = tt
any-All p (x ∷ xs) h = (ground arith, any-All p xs (ground arith))

is_topological-IsFirst :
    (table : String) (tables : List String)
    → is_topological (table ∷ tables) ≡ true
    → IsFirst table tables × (is_topological tables ≡ true)
unfolding is_topological
is_topological-IsFirst table tables h = (
  any-All (λ later. is_parent later (fk_deps table)) (table ∷ tables) (ground arith),
  ground arith,
)

pub table_of-request_for :
    (user_id table : String) (payload : Map) → table_of (request_for user_id table payload) ≡ table
unfolding request_for upsert_group patch_group
table_of-request_for user_id table payload = ground arith

-- The requests point at no failed row, and depend on no table that is still to come.
pub record IsSound (tables : List String) (run : FlushRun) : Type 0 where
  pub clear : All (IsClear run.failed) run.sent
  pub free : All (IsFree tables) run.sent

failed-IsClear :
    (failed : String → List String) (table : String) (ids tables : List String)
    (sent : List Request)
    → All (IsClear failed) sent
    → All (IsFree (table ∷ tables)) sent
    → All (IsClear (update failed table ids)) sent
failed-IsClear failed table ids tables [] c f = tt
failed-IsClear failed table ids tables (request ∷ sent) c f = (
  is_blocked-update failed table ids (fk_deps (table_of request)) (sent_fields request) f.0.0 ∙ c.0,
  failed-IsClear failed table ids tables sent c.1 f.1,
)

request_for-IsClear :
    (failed : String → List String) (user_id table : String) (payload : Map)
    → is_blocked failed (fk_deps table) payload ≡ false
    → IsClear failed (request_for user_id table payload)
request_for-IsClear failed user_id table payload b =
    rw (table_of-request_for user_id table payload) (
      is_blocked-FromPayload failed (fk_deps table)
        (sent_fields (request_for user_id table payload)) payload
        (All-map (fk_deps table)
          (λ dep other. request_for-FromPayload user_id table payload dep.0 other)
          (fk_deps-All table))
        b)

request_for-IsFree :
    (user_id table : String) (payload : Map) (tables : List String)
    → IsFirst table tables
    → IsFree (table ∷ tables) (request_for user_id table payload)
request_for-IsFree user_id table payload tables first =
    subst (λ t. All (λ later. is_parent later (fk_deps t) ≡ false) (table ∷ tables))
      (sym (table_of-request_for user_id table payload)) first

module _ (server : Server) (user_id : String) {table : String} (tables : List String)
    (first : IsFirst table tables) where
  Round-IsSound :
      {group : Collapsed} {run after : FlushRun}
      → Round server user_id table group run after
      → IsSound (table ∷ tables) run
      → IsSound (table ∷ tables) after
  unfolding fail_group finish_group
  Round-IsSound {run = run} (held e) sound = record {
    clear = failed-IsClear run.failed table _ tables run.sent sound.clear sound.free;
    free = sound.free;
  }
  Round-IsSound {run = run} (flushed e a) sound = record {
    clear = (request_for-IsClear run.failed user_id table _ e, sound.clear);
    free = (request_for-IsFree user_id table _ tables first, sound.free);
  }
  Round-IsSound {group = group} {run = run} (refused e a) sound =
      let request = request_of server user_id table group run in
      let free' : All (IsFree (table ∷ tables)) (request ∷ run.sent) =
        (request_for-IsFree user_id table _ tables first, sound.free) in
      record {
        clear =
            failed-IsClear run.failed table _ tables (request ∷ run.sent)
              (request_for-IsClear run.failed user_id table _ e, sound.clear) free';
        free = free';
      }

  flush_groups-IsSound :
      (groups : List Collapsed) (run : FlushRun)
      → IsSound (table ∷ tables) run
      → IsSound (table ∷ tables) (flush_groups server user_id table groups run)
  unfolding flush_groups
  flush_groups-IsSound [] run sound = sound
  flush_groups-IsSound (group ∷ groups) run sound = elim (Bool-cases (str_eq group.table table)) [
    | inl e ↦
        rw (e, flush_groups)
          (flush_groups-IsSound groups _
            (Round-IsSound (flush_group-Round server user_id table group run) sound))
    | inr e ↦ rw (e, flush_groups) (flush_groups-IsSound groups run sound)
  ]

module _ {Text : Type 0} ⦃serde : Serde Text⦄ (server : Server) (user_id : String)
    (collapsed : List Collapsed) where
  pub flush_tables-IsClear :
      (tables : List String) (state : Store Text × FlushRun)
      → is_topological tables ≡ true
      → IsSound tables state.1
      → All
          (IsClear (flush_tables server user_id collapsed tables state).1.failed)
          (flush_tables server user_id collapsed tables state).1.sent
  unfolding flush_tables
  flush_tables-IsClear [] state order sound = sound.clear
  flush_tables-IsClear (table ∷ tables) state order sound =
      let (first, later) = is_topological-IsFirst table tables order in
      let after = flush_groups-IsSound server user_id tables first collapsed state.1 sound in
      flush_tables-IsClear tables _ later
        (record { clear = after.clear; free = All-map _ (λ request free. free.1) after.free })

pub synced_table_names-is_topological : is_topological synced_table_names ≡ true
unfolding synced_table_names fk_deps is_parent is_topological any arm Maps.lookup
synced_table_names-is_topological = refl
