-- ===== src/Store/Rebase.antt =====
-- `apply_row_rebasing_outbox` of src/store.rs: a pulled row against the queued writes of its record.
use braird_core.Prelude.{
  any, is_none, false, String, ℤ, ◌≤ℤ◌, ◌<ℤ◌, ◌≡◌, refl, sym, ◌∙◌, subst, Bool, true, not, ◌&&◌,
  none, some, List, [], ◌∷◌, arith, eq_iff, str_eq, if◌then◌else◌, Option-cases, Bool-cases, inl,
  inr, All, All-map, All-filter, filter,
}
use braird_core.Json
use braird_core.Json.{Value, Map, Serde, str, as_i64, as_str}
use braird_core.Store.Schema.{TableSchema, table_schema}
use braird_core.Store.State.{Result, ok, ◌>>=◌, OutboxRow, Store, schema_or_err, apply_row, is_for}
use braird_core.Store.Staging.{
  payload_stamp, is_stale, dropped_entry, dropped_entries, apply_row_rebasing_outbox,
}
use braird_core.Store.Rows.{
  row_stamp, local_updated, local_updated_rows, outbox-apply_row, local_updated-apply_row,
}
use braird_core.Store.Stage.{>>=-inv}
use braird_core.Store.Backed.{Backed-grow, Backed-read, Backed, IsBacked}

is_for-own :
    {Text : Type 0} ⦃serde : Serde Text⦄ (table id : String) (r : OutboxRow Text)
    → is_for table id r ≡ true
    → (r.table_name ≡ table) × (r.record_id ≡ some id)
unfolding is_for
is_for-own table id r own = elim (Option-cases r.record_id) [
  | inl e ↦ absurd (ground arith)
  | inr (k, e) ↦ (ground (arith, eq_iff r.table_name table), ground (arith, eq_iff k id))
]

module _ {Text : Type 0} ⦃serde : Serde Text⦄ (table record_id : String) (incoming : ℤ) where
  -- A queued write that stays, of another record, newer than the pulled row, or without a stamp.
  abbrev Survives : OutboxRow Text → Type 0
  Survives r =
      (stamp : ℤ)
      → is_for table record_id r ≡ true
      → payload_stamp r ≡ some stamp
      → incoming <ℤ stamp

  -- A queued write that the pulled row supersedes: of its record, and with a stamp up to its own.
  pub record Superseded (r : OutboxRow Text) (stamp : ℤ) : Type 0 where
    for_table : r.table_name ≡ table
    for_record : r.record_id ≡ some record_id
    stamped : payload_stamp r ≡ some stamp
    below : stamp ≤ℤ incoming

  -- A queue, what is reported of it, and what stays of it.
  pub data Splits : List (OutboxRow Text) → List (ℤ × ℤ) → List (OutboxRow Text) → Type 0 where
    nothing : Splits [] [] []
    stays :
        {r : OutboxRow Text} {q left : List (OutboxRow Text)} {reported : List (ℤ × ℤ)}
        → Survives r
        → Splits q reported left
        → Splits (r ∷ q) reported (r ∷ left)
    goes :
        {r : OutboxRow Text} {q left : List (OutboxRow Text)} {reported : List (ℤ × ℤ)} {stamp : ℤ}
        → Superseded r stamp
        → Splits q reported left
        → Splits (r ∷ q) ((r.id, stamp) ∷ reported) left

  is_stale-Survives :
      (r : OutboxRow Text) → is_stale table record_id incoming r ≡ false → Survives r
  unfolding is_stale
  is_stale-Survives r k stamp own p = ground arith

  is_stale-Superseded :
      (r : OutboxRow Text)
      → is_stale table record_id incoming r ≡ true
      → Superseded r (dropped_entry r).1
  unfolding is_stale dropped_entry
  is_stale-Superseded r k = elim (Option-cases (payload_stamp r)) [
    | inl e ↦ absurd (ground arith)
    | inr (stamp, e) ↦
        let (named, written) = is_for-own table record_id r (ground arith) in
        rw (e, dropped_entry)
          (record { for_table = named; for_record = written; stamped = e; below = ground arith })
  ]

module _ {Text : Type 0} ⦃serde : Serde Text⦄ (s : Store Text) (table record_id : String)
    (row : Map) (incoming : ℤ) {t : Store Text} {dropped : List (ℤ × ℤ)} (schema : TableSchema)
    (found : table_schema table ≡ some schema) (key : Json.get schema.pk row ≡ some (str record_id))
    (rebased : apply_row_rebasing_outbox s table row incoming ≡ ok (dropped, t)) where
  kept : OutboxRow Text → Bool
  kept r = not (is_stale table record_id incoming r)

  record RebaseParts : Type 0 where
    applied : Store Text
    apply : apply_row s table row ≡ ok applied
    queue : t.outbox ≡ filter kept s.outbox
    rows : t.rows ≡ applied.rows
    report : dropped ≡ dropped_entries table record_id incoming s.outbox

  parts : RebaseParts
  unfolding apply_row_rebasing_outbox schema_or_err kept as_str
  parts =
      let body : TableSchema → Store Text → Result (List (ℤ × ℤ) × Store Text) = λ schema' applied.
        ok (elim (as_str (Json.get schema'.pk row)) [
          | none ↦ ([], applied)
          | some id ↦ (
            dropped_entries table id incoming applied.outbox,
            record applied {
              outbox = filter (λ r. not (is_stale table id incoming r)) applied.outbox;
            },
          )
        ]) in
      let (schema', read, h1) =
        >>=-inv (schema_or_err table) (λ c. apply_row s table row >>= body c) rebased in
      let (applied, apply, h2) = >>=-inv (apply_row s table row) (body schema') h1 in
      let same : schema' ≡ schema = ground arith in
      record {
        applied = applied;
        apply = apply;
        queue = ground (arith, outbox-apply_row s table row apply);
        rows = ground (arith, outbox-apply_row s table row apply);
        report = ground (arith, outbox-apply_row s table row apply);
      }

  -- Only the record's own stamp changes, to that of the pulled row.
  pub local_updated-rebase :
      (other j : String)
      → local_updated t other j ≡ (
          if str_eq table other && str_eq record_id j
          then some (row_stamp row)
          else local_updated s other j)
  local_updated-rebase other j =
      local_updated_rows parts.applied t parts.rows other j
      ∙ local_updated-apply_row s table row schema record_id found key parts.apply other j

  kept-Survives : (r : OutboxRow Text) → kept r ≡ true → Survives table record_id incoming r
  unfolding kept
  kept-Survives r k = is_stale-Survives table record_id incoming r (ground arith)

  filter-kept :
      (q : List (OutboxRow Text)) → All (Survives table record_id incoming) (filter kept q)
  unfolding filter
  filter-kept [] = tt
  filter-kept (r ∷ q) = elim (Bool-cases (kept r)) [
    | inl e ↦ rw e (kept-Survives r e, filter-kept q)
    | inr e ↦ rw e (filter-kept q)
  ]

  -- The queued writes that stay are newer than the pulled row.
  rebase-Survives : All (Survives table record_id incoming) t.outbox
  rebase-Survives =
      subst (All (Survives table record_id incoming)) (sym parts.queue) (filter-kept s.outbox)

  module _ (stamped : row_stamp row ≡ incoming)
      (newer : (old : ℤ) → local_updated s table record_id ≡ some old → old <ℤ incoming) where
    rebase-grow :
        (other j : String) (old : ℤ)
        → local_updated s other j ≡ some old
        → (new : ℤ) × (local_updated t other j ≡ some new) × (old ≤ℤ new)
    rebase-grow other j old h = elim (Bool-cases (str_eq table other && str_eq record_id j)) [
      | inl e ↦ (
        incoming,
        ground (arith, local_updated-rebase other j),
        ground (arith, newer old, eq_iff table other, eq_iff record_id j),
      )
      | inr e ↦ (old, ground (arith, local_updated-rebase other j), omega arith)
    ]

    -- A pulled row that is newer than the stored one keeps every queued payload backed.
    pub rebase-IsBacked : IsBacked s → IsBacked t
    rebase-IsBacked b = subst (All (Backed t)) (sym parts.queue) (
        All-map (filter kept s.outbox) (λ r k. Backed-grow s t r rebase-grow k)
          (All-filter (Backed s) kept s.outbox b))

    abbrev Unqueued : OutboxRow Text → Type 0
    Unqueued r = is_for table record_id r ≡ true → payload_stamp r ≡ none

    Backed-Unqueued :
        (r : OutboxRow Text) → Survives table record_id incoming r → Backed t r → Unqueued r
    Backed-Unqueued r late b own = elim (Option-cases (payload_stamp r)) [
      | inl e ↦ e
      | inr (stamp, e) ↦
          let (named, written) = is_for-own table record_id r own in
          let (old, stored, above) = Backed-read t r record_id stamp b written e in
          absurd (
            ground (
              arith,
              late stamp own e,
              local_updated-rebase r.table_name record_id,
              eq_iff table r.table_name,
              eq_iff record_id record_id,
            ))
    ]

    unqueued :
        (q : List (OutboxRow Text))
        → All (Survives table record_id incoming) q
        → All (Backed t) q
        → any (λ r. is_for table record_id r && not (is_none (payload_stamp r))) q ≡ false
    unfolding any
    unqueued [] a b = refl
    unqueued (r ∷ q) a b = ground (arith, Backed-Unqueued r a.0 b.0, unqueued q a.1 b.1)

    -- A pulled row that is newer than the stored one, with every queued payload backed, leaves no
    -- queued write of its record that has a stamp: none can be pushed over it.
    pub rebase-unqueued :
        IsBacked s
        → any (λ r. is_for table record_id r && not (is_none (payload_stamp r))) t.outbox ≡ false
    rebase-unqueued b = unqueued t.outbox rebase-Survives (rebase-IsBacked b)

  splits :
      (q : List (OutboxRow Text))
      → Splits table record_id incoming q
          (dropped_entries table record_id incoming q)
          (filter kept q)
  unfolding dropped_entries kept filter dropped_entry
  splits [] = nothing
  splits (r ∷ q) = elim (Bool-cases (is_stale table record_id incoming r)) [
    | inl e ↦
        rw (e, dropped_entries, filter, kept)
          (goes (is_stale-Superseded table record_id incoming r e) (splits q))
    | inr e ↦
        rw (e, dropped_entries, filter, kept)
          (stays (is_stale-Survives table record_id incoming r e) (splits q))
  ]

  -- The queue is split, in its order: an entry of the pulled row's record with a stamp up to the
  -- row's own leaves it and is reported by its id and that stamp; every other entry stays.
  pub rebase-dropped : Splits table record_id incoming s.outbox dropped t.outbox
  rebase-dropped = rw (parts.report, parts.queue) (splits s.outbox)
