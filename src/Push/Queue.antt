-- ===== src/Push/Queue.antt =====
-- The entries of the queue across a `flush` of src/sync/push.rs: which are decided on, and which
-- stay.
use braird_core.Prelude.{
  String, ℤ, ◌≡◌, refl, ap, sym, subst, ◌∙◌, true, not, is_none, Bool, none, some, List, [], ◌∷◌,
  ◌++◌, map, str_eq, All, All-sort_by_key, filter, filter_map, any, eqb_ℤ, sort_by_key,
  filter-sort_by_key, Mem-any, inl, inr, Bool-cases, Option-cases,
}
use mathlib.Core.List.{Perm, Mem, mem-cons, append-nil}
use mathlib.Core.List.Perm
use mathlib.Core.Logic.Or
use braird_core.Json.{Serde}
use braird_core.Outbox.{OutboxItem, Collapsed, collapse}
use braird_core.Outbox.Ids.{all_ids, collapse-ids}
use braird_core.Outbox.Tables.{collapse-tables}
use braird_core.Store.Schema.{synced_table_names}
use braird_core.Store.State.{OutboxRow, Store, outbox_items}
use braird_core.Push.{Request, Server, FlushRun, has_member}
use braird_core.Push.Flush.{flush, read_item, collapsed_queue}
use braird_core.Push.Partition.{of_tables}
use braird_core.Push.Outcome.{parts, flush-partition, flush-outbox, flush_accepted}

of_tables-all :
    (tables : List String) (groups : List Collapsed)
    → All (λ (g : Collapsed). has_member tables g.table ≡ true) groups
    → of_tables tables groups ≡ groups
unfolding filter
of_tables-all tables [] h = refl
of_tables-all tables (group ∷ groups) h = rw (h.0, of_tables-all tables groups h.1)

module _ {Text : Type 0} ⦃serde : Serde Text⦄ where
  -- An entry whose payload is JSON.
  abbrev pub is_readable : OutboxRow Text → Bool
  is_readable r = not (is_none (serde.from_str r.payload))

  -- An entry of a table that is synced.
  abbrev pub IsSyncedEntry : OutboxRow Text → Type 0
  IsSyncedEntry r = any (λ table. str_eq table r.table_name) synced_table_names ≡ true

  read_items-ids :
      (rows : List (OutboxRow Text))
      → map (λ i. i.id) (filter_map read_item rows) ≡ map (λ r. r.id) (filter is_readable rows)
  unfolding filter_map read_item filter
  read_items-ids [] = refl
  read_items-ids (r ∷ rows) = elim (Option-cases (serde.from_str r.payload)) [
    | inl e ↦ rw (e, read_item, filter_map, filter) (read_items-ids rows)
    | inr (v, e) ↦
        rw (e, read_item, filter_map, filter) (ap (λ ids. r.id ∷ ids) (read_items-ids rows))
  ]

  read_items-All :
      (rows : List (OutboxRow Text))
      → All IsSyncedEntry rows
      → All
          (λ (i : OutboxItem). has_member synced_table_names i.table_name ≡ true)
          (filter_map read_item rows)
  unfolding filter_map read_item has_member
  read_items-All [] h = tt
  read_items-All (r ∷ rows) h = elim (Option-cases (serde.from_str r.payload)) [
    | inl e ↦ rw (e, read_item, filter_map) (read_items-All rows h.1)
    | inr (v, e) ↦ rw (e, read_item, filter_map) (h.0, read_items-All rows h.1)
  ]

  queue-ids :
      (s : Store Text) (remap : List (String × String))
      → All IsSyncedEntry s.outbox
      → Perm
          (all_ids (of_tables synced_table_names (collapsed_queue s remap)))
          (map (λ r. r.id) (filter is_readable s.outbox))
  unfolding collapsed_queue outbox_items
  queue-ids s remap synced =
      let sorted = sort_by_key (λ (r : OutboxRow Text). r.created_at) s.outbox in
      let items = filter_map read_item sorted in
      let tables =
        collapse-tables (λ table. has_member synced_table_names table ≡ true) items remap
          (read_items-All sorted
            (All-sort_by_key IsSyncedEntry (λ r. r.created_at) s.outbox synced)) in
      rw (of_tables-all synced_table_names (collapse items remap) tables) (
        Perm.trans (collapse-ids items remap) (
          rw (read_items-ids sorted) (
            Perm.map (λ (r : OutboxRow Text). r.id)
              (filter-sort_by_key is_readable (λ (r : OutboxRow Text). r.created_at) s.outbox))))

  -- What is left once the ids of all readable entries are cleared.
  left :
      (ids : List ℤ) (rows : List (OutboxRow Text))
      → ((id : ℤ)
          → Mem id (map (λ r. r.id) (filter is_readable rows))
          → any (λ i. eqb_ℤ i id) ids ≡ true)
      → All
          (λ (r : OutboxRow Text). serde.from_str r.payload ≡ none)
          (filter (λ r. not (any (λ i. eqb_ℤ i r.id) ids)) rows)
  unfolding filter
  left ids [] cleared = tt
  left ids (r ∷ rows) cleared = elim (Option-cases (serde.from_str r.payload)) [
    | inl e ↦
        let rest = left ids rows (λ id m. cleared id (rw (e, filter) m)) in
        elim (Bool-cases (any (λ i. eqb_ℤ i r.id) ids)) [
          | inl gone ↦ rw gone rest
          | inr stays ↦ rw stays (e, rest)
        ]
    | inr (v, e) ↦
        let rest = left ids rows (λ id m. cleared id (rw (e, filter) (mem-cons.1 (Or.inr m)))) in
        let gone : any (λ i. eqb_ℤ i r.id) ids ≡ true =
          cleared r.id (rw (e, filter) (mem-cons.1 (Or.inl refl))) in
        rw gone rest
  ]

  module _ (server : Server) (user_id : String) (s : Store Text) {t : Store Text} {run : FlushRun}
      (flushed : flush server user_id s ≡ some (t, run)) where
    -- Where every queued write is of a synced table, a flush decides on each one whose payload is
    -- JSON: its id is either flushed or failed, and once. It decides on no other.
    pub flush-decided :
        All IsSyncedEntry s.outbox
        → Perm (run.ok_ids ++ run.failed_ids) (map (λ r. r.id) (filter is_readable s.outbox))
    flush-decided synced =
        let p = parts server user_id s flushed in
        Perm.trans (flush-partition server user_id s flushed p.loaded) (queue-ids s p.remap synced)

    -- Where every queued write is of a synced table and the server accepts every request, no write
    -- fails, and every entry that is left in the queue has a payload that is no JSON.
    pub flush_accepted-left :
        ((sent : List Request) (request : Request) → server sent request ≡ true)
        → All IsSyncedEntry s.outbox
        → (run.failed_ids ≡ []) × All (λ r. serde.from_str r.payload ≡ none) t.outbox
    flush_accepted-left accepts synced =
        let nothing = flush_accepted server user_id s flushed accepts in
        let all : Perm run.ok_ids (map (λ r. r.id) (filter is_readable s.outbox)) =
          subst (λ ids. Perm ids (map (λ r. r.id) (filter is_readable s.outbox)))
            (ap (λ ids. run.ok_ids ++ ids) nothing ∙ append-nil run.ok_ids)
            (flush-decided synced) in
        (
          nothing,
          subst (All (λ (r : OutboxRow Text). serde.from_str r.payload ≡ none))
              (sym (flush-outbox server user_id s flushed).1)
              (left run.ok_ids s.outbox (λ id m. Mem-any id run.ok_ids ((Perm.mem_iff all).1 m))),
        )
