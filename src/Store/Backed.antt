-- ===== src/Store/Backed.antt =====
-- The queue of src/store.rs against the stored rows, by their stamps.
use braird_core.Prelude.{
  Option, none, Option-cases, String, ℤ, ◌≤ℤ◌, ◌≡◌, refl, sym, ◌∙◌, subst, ◌&&◌, some, List, [],
  ◌∷◌, arith, eq_iff, str_eq, Bool-cases, inl, inr, All, All-map, All-filter, All-append,
}
use braird_core.Json
use braird_core.Json.{Value, Map, Serde, str, as_i64, as_str}
use braird_core.Store.Schema.{TableSchema, table_schema}
use braird_core.Store.State.{ok, OutboxRow, Store, clear_outbox, drop_pending_deletes_inner}
use braird_core.Store.Staging.{stage_write_inner, payload_stamp}
use braird_core.Store.Rows.{local_updated, local_updated_rows}
use braird_core.Store.Stage.{Advances, stage_write_inner-Advances}

-- A stamp that is not above the stored one.
abbrev pub IsUnder : ℤ → Option ℤ → Type 0
IsUnder stamp none = ⊥
IsUnder stamp (some t) = stamp ≤ℤ t

module _ {Text : Type 0} ⦃serde : Serde Text⦄ where
  -- A payload with a stamp, for a record, whose stored row has a stamp that is not below.
  abbrev pub IsCovered : Store Text → String → Option String → Option ℤ → Type 0
  IsCovered s table (some id) (some stamp) = IsUnder stamp (local_updated s table id)
  IsCovered s table none stamp = Unit
  IsCovered s table (some id) none = Unit

  abbrev pub Backed : Store Text → OutboxRow Text → Type 0
  Backed s r = IsCovered s r.table_name r.record_id (payload_stamp r)

  pub Backed-read :
      (s : Store Text) (r : OutboxRow Text) (id : String) (stamp : ℤ)
      → Backed s r
      → r.record_id ≡ some id
      → payload_stamp r ≡ some stamp
      → (t : ℤ) × (local_updated s r.table_name id ≡ some t) × (stamp ≤ℤ t)
  Backed-read s r id stamp b e p = elim (Option-cases (local_updated s r.table_name id)) [
    | inl none' ↦ absurd (ground (arith, b))
    | inr (t, h) ↦ (t, h, ground (arith, b))
  ]

  IsCovered-write :
      (s : Store Text) (table : String) (o : Option String) (p : Option ℤ)
      → ((id : String) (stamp : ℤ)
          → o ≡ some id
          → p ≡ some stamp
          → (t : ℤ) × (local_updated s table id ≡ some t) × (stamp ≤ℤ t))
      → IsCovered s table o p
  IsCovered-write s table none p f = tt
  IsCovered-write s table (some id) none f = tt
  IsCovered-write s table (some id) (some stamp) f =
      let (t, h, below) = f id stamp refl refl in rw (IsUnder, h) below

  pub Backed-write :
      (s : Store Text) (r : OutboxRow Text)
      → ((id : String) (stamp : ℤ)
          → r.record_id ≡ some id
          → payload_stamp r ≡ some stamp
          → (t : ℤ) × (local_updated s r.table_name id ≡ some t) × (stamp ≤ℤ t))
      → Backed s r
  Backed-write s r f = IsCovered-write s r.table_name r.record_id (payload_stamp r) f

  abbrev pub IsBacked : Store Text → Type 0
  IsBacked s = All (Backed s) s.outbox

  -- Stored stamps that only grow keep a payload backed.
  pub Backed-grow :
      (s t : Store Text) (r : OutboxRow Text)
      → ((table j : String) (old : ℤ)
          → local_updated s table j ≡ some old
          → (new : ℤ) × (local_updated t table j ≡ some new) × (old ≤ℤ new))
      → Backed s r
      → Backed t r
  Backed-grow s t r grow b = Backed-write t r λ id stamp e p.
      let (old, stored, below) = Backed-read s r id stamp b e p in
      let (new, stored', above) = grow r.table_name id old stored in (new, stored', omega arith)

  pub Backed-same :
      (s t : Store Text) (r : OutboxRow Text) → t.rows ≡ s.rows → Backed s r → Backed t r
  Backed-same s t r e b =
      Backed-grow s t r (λ table j old h. (old, local_updated_rows s t e table j ∙ h, omega arith))
        b

  pub IsBacked-same :
      (s t : Store Text) → t.rows ≡ s.rows → t.outbox ≡ s.outbox → IsBacked s → IsBacked t
  IsBacked-same s t rows outbox b =
      subst (All (Backed t)) (sym outbox) (All-map s.outbox (λ r k. Backed-same s t r rows k) b)

  -- Entries leave the queue when they were sent, or when a tombstone is dropped.
  pub clear_outbox-IsBacked :
      (s : Store Text) (ids : List ℤ) → IsBacked s → IsBacked (clear_outbox s ids)
  unfolding clear_outbox
  clear_outbox-IsBacked s ids b =
      All-map (clear_outbox s ids).outbox (λ r k. Backed-same s (clear_outbox s ids) r refl k)
        (All-filter (Backed s) _ s.outbox b)

  pub drop_pending_deletes-IsBacked :
      (s : Store Text) (table id : String)
      → IsBacked s
      → IsBacked (drop_pending_deletes_inner s table id)
  unfolding drop_pending_deletes_inner
  drop_pending_deletes-IsBacked s table id b =
      let t = drop_pending_deletes_inner s table id in
      All-map t.outbox (λ r k. Backed-same s t r refl k) (All-filter (Backed s) _ s.outbox b)

  module _ (s : Store Text) (table record_id : String) (partial : Map) (created_at : ℤ)
      {t : Store Text} (schema : TableSchema) (stamp : ℤ) (found : table_schema table ≡ some schema)
      (key : Json.get schema.pk partial ≡ some (str record_id))
      (asked : as_i64 (Json.get "updated_at" partial) ≡ some stamp)
      (staged : stage_write_inner s table record_id partial created_at ≡ ok t) where
    advance : Advances s table record_id partial created_at schema found key staged stamp
    advance =
        stage_write_inner-Advances s table record_id partial created_at schema found key staged
          stamp asked

    advance-grow :
        (other j : String) (old : ℤ)
        → local_updated s other j ≡ some old
        → (new : ℤ) × (local_updated t other j ≡ some new) × (old ≤ℤ new)
    advance-grow other j old h = elim (Bool-cases (str_eq table other && str_eq record_id j)) [
      | inl e ↦ (
        advance.new,
        ground (arith, advance.stored other j),
        ground (arith, advance.above_stored, eq_iff table other, eq_iff record_id j),
      )
      | inr e ↦ (old, ground (arith, advance.stored other j), omega arith)
    ]

    advance-Backed : Backed t advance.row
    advance-Backed = Backed-write t advance.row λ id written e p. (
      advance.new,
      ground (
        arith,
        advance.stored advance.row.table_name id,
        advance.for_table,
        advance.for_record,
        eq_iff table advance.row.table_name,
        eq_iff record_id id,
      ),
      ground (arith, advance.payload),
    )

    -- A stamped local write keeps every queued payload backed by its stored row.
    pub stage_write_inner-IsBacked : IsBacked s → IsBacked t
    stage_write_inner-IsBacked b = subst (All (Backed t)) (sym advance.queue) (
        All-append (Backed t) s.outbox (advance.row ∷ [])
          (All-map s.outbox (λ r k. Backed-grow s t r advance-grow k) b) (advance-Backed, tt))
