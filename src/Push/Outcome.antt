-- ===== src/Push/Outcome.antt =====
-- What a whole `flush` of src/sync/push.rs leaves behind: the queue, the store and the requests.
use braird_core.Prelude.{
  String, ℤ, ◌≡◌, refl, ap, sym, subst, ◌∙◌, true, false, not, some, List, [], ◌∷◌, ◌++◌, str_eq,
  All, All-map, filter, any, eqb_ℤ, inl, inr, Bool-cases, Option-cases, arith,
}
use mathlib.Core.List.{Perm, append-nil}
use braird_core.Json.{Serde}
use braird_core.Outbox.{Collapsed}
use braird_core.Outbox.Ids.{all_ids}
use braird_core.Store.Schema.{synced_table_names}
use braird_core.Store.State.{Store, clear_outbox}
use braird_core.Store.Meta.{meta_set}
use braird_core.Store.Backed.{IsBacked, Backed, Backed-same, clear_outbox-IsBacked}
use braird_core.Push.{Request, Server, FlushRun, flush_groups, has_member}
use braird_core.Push.Flush.{
  flush_tables, fresh_run, flush, load_remap, persist_remap, collapsed_queue,
}
use braird_core.Push.Partition.{decided, of_tables, IsUnique, flush_tables-decided}
use braird_core.Push.Parents.{IsClear}
use braird_core.Push.Shape.{IsWhole, flush_tables-IsWhole}
use braird_core.Push.Answers.{flush_tables-IsSmooth, flush_tables-refused}
use braird_core.Push.Order.{synced_table_names-is_topological, flush_tables-IsClear}

synced_table_names-IsUnique : IsUnique synced_table_names
unfolding synced_table_names has_member any
synced_table_names-IsUnique =
    (refl, (refl, (refl, (refl, (refl, (refl, (refl, (refl, (refl, (refl, (refl, tt)))))))))))

filter_all :
    {A : Type 0} (xs : List A) → filter (λ (x : A). not (any (λ (id : ℤ). false) [])) xs ≡ xs
unfolding filter any
filter_all [] = refl
filter_all (x ∷ xs) = ap (λ ys. x ∷ ys) (filter_all xs)

module _ {Text : Type 0} ⦃serde : Serde Text⦄ where
  -- The passes change the `meta` table of the store, and no rows and no queue.
  record SameTables (s t : Store Text) : Type 0 where
    rows : t.rows ≡ s.rows
    outbox : t.outbox ≡ s.outbox

  flush_tables-SameTables :
      (server : Server) (user_id : String) (collapsed : List Collapsed) (tables : List String)
      (s : Store Text) (run : FlushRun)
      → SameTables s (flush_tables server user_id collapsed tables (s, run)).0
  unfolding flush_tables persist_remap meta_set
  flush_tables-SameTables server user_id collapsed [] s run = record { rows = refl; outbox = refl }
  flush_tables-SameTables server user_id collapsed (table ∷ tables) s run =
      let after = flush_groups server user_id table collapsed run in
      elim (Bool-cases (str_eq table "books")) [
        | inl e ↦
            let rest =
              flush_tables-SameTables server user_id collapsed tables (persist_remap s after.remap)
                after in
            rw (e, flush_tables) (record { rows = rest.rows; outbox = rest.outbox })
        | inr e ↦
            rw (e, flush_tables) (flush_tables-SameTables server user_id collapsed tables s after)
      ]

  module _ (server : Server) (user_id : String) (s : Store Text) {t : Store Text} {run : FlushRun}
      (flushed : flush server user_id s ≡ some (t, run)) where
    pub record FlushParts : Type 0 where
      pub remap : List (String × String)
      pub loaded : load_remap s ≡ some remap
      pub done : Store Text × FlushRun
      pub passes :
          done
          ≡ flush_tables server user_id
              (collapsed_queue s remap)
              synced_table_names
              (s, fresh_run remap)
      pub store : t ≡ clear_outbox done.0 run.ok_ids
      pub same_run : run ≡ done.1

    pub parts : FlushParts
    unfolding flush
    parts = elim (Option-cases (load_remap s)) [
      | inl e ↦ absurd (ground arith)
      | inr (remap, e) ↦ record {
        remap = remap;
        loaded = e;
        done =
            flush_tables server user_id (collapsed_queue s remap) synced_table_names
              (s, fresh_run remap);
        passes = refl;
        store = ground arith;
        same_run = ground arith;
      }
    ]

    final : FlushRun
    final =
        (flush_tables server user_id (collapsed_queue s parts.remap) synced_table_names
          (s, fresh_run parts.remap)).1

    run-final : run ≡ final
    unfolding final fresh_run
    run-final = parts.same_run ∙ ap (λ (d : Store Text × FlushRun). d.1) parts.passes

    -- The ids of the run are those of the collapsed groups.
    pub flush-partition :
        {remap : List (String × String)}
        → load_remap s ≡ some remap
        → Perm
            (run.ok_ids ++ run.failed_ids)
            (all_ids (of_tables synced_table_names (collapsed_queue s remap)))
    unfolding final fresh_run
    flush-partition {remap} loaded =
        let same : parts.remap ≡ remap = ground (arith, parts.loaded, loaded) in
        let ids = all_ids (of_tables synced_table_names (collapsed_queue s parts.remap)) in
        let all : Perm (decided final) (ids ++ []) =
          flush_tables-decided server user_id (collapsed_queue s parts.remap) synced_table_names
            (s, fresh_run parts.remap) synced_table_names-IsUnique in
        subst
          (λ r.
            Perm (run.ok_ids ++ run.failed_ids)
              (all_ids (of_tables synced_table_names (collapsed_queue s r))))
          same
          (subst (λ r. Perm (decided r) ids) (sym run-final)
            (subst (Perm (decided final)) (append-nil ids) all))

    -- No request points at a record that the run counts as failed.
    pub flush-IsClear : All (IsClear run.failed) run.sent
    unfolding final fresh_run
    flush-IsClear =
        subst (λ (r : FlushRun). All (IsClear r.failed) r.sent) (sym run-final)
          (flush_tables-IsClear server user_id (collapsed_queue s parts.remap) synced_table_names
            (s, fresh_run parts.remap) synced_table_names-is_topological
            (record { clear = tt; free = tt }))

    flushed-tables : SameTables s parts.done.0
    flushed-tables =
        subst (λ (d : Store Text × FlushRun). SameTables s d.0) (sym parts.passes)
          (flush_tables-SameTables server user_id (collapsed_queue s parts.remap) synced_table_names
            s (fresh_run parts.remap))

    -- A flush changes no row, and removes from the queue the flushed ids and nothing else.
    pub flush-outbox :
        (t.rows ≡ s.rows)
        × (t.outbox ≡ filter (λ r. not (any (λ id. eqb_ℤ id r.id) run.ok_ids)) s.outbox)
    unfolding clear_outbox
    flush-outbox = (
      ap (λ (u : Store Text). u.rows) parts.store ∙ flushed-tables.rows,
      ap (λ (u : Store Text). u.outbox) parts.store
          ∙ ap (filter (λ r. not (any (λ id. eqb_ℤ id r.id) run.ok_ids))) flushed-tables.outbox,
    )

    -- It keeps every queued payload backed.
    pub flush-IsBacked : IsBacked s → IsBacked t
    flush-IsBacked b =
        let same = flushed-tables in
        subst IsBacked (sym parts.store) (
          clear_outbox-IsBacked parts.done.0 run.ok_ids (
            subst (All (Backed parts.done.0)) (sym same.outbox)
              (All-map s.outbox (λ r k. Backed-same s parts.done.0 r same.rows k) b)))

    -- Every upsert that a flush sends is for a payload that has all the columns that an insert into
    -- its table requires, and carries the user.
    pub flush-IsWhole : All (IsWhole user_id) run.sent
    unfolding final fresh_run
    flush-IsWhole =
        subst (λ (r : FlushRun). All (IsWhole user_id) r.sent) (sym run-final)
          (flush_tables-IsWhole server user_id (collapsed_queue s parts.remap) synced_table_names
            (s, fresh_run parts.remap) tt)

    -- Where the server accepts every request, the run has no failed id.
    pub flush_accepted :
        ((sent : List Request) (request : Request) → server sent request ≡ true)
        → run.failed_ids ≡ []
    unfolding final fresh_run
    flush_accepted accepts =
        subst (λ (r : FlushRun). r.failed_ids ≡ []) (sym run-final)
          (flush_tables-IsSmooth server user_id accepts (collapsed_queue s parts.remap)
            synced_table_names (s, fresh_run parts.remap)
            (record { none_failed = refl; none_held = λ table. refl })).none_failed

    -- Where the server refuses every request, the queue stays as it is.
    pub flush_refused :
        ((sent : List Request) (request : Request) → server sent request ≡ false)
        → t.outbox ≡ s.outbox
    unfolding final fresh_run any
    flush_refused refuses =
        let nothing : run.ok_ids ≡ [] =
          subst (λ (r : FlushRun). r.ok_ids ≡ []) (sym run-final)
            (flush_tables-refused server user_id refuses (collapsed_queue s parts.remap)
              synced_table_names (s, fresh_run parts.remap) refl) in
        flush-outbox.1
        ∙ ap (λ ids. filter (λ r. not (any (λ id. eqb_ℤ id r.id) ids)) s.outbox) nothing
        ∙ filter_all s.outbox
