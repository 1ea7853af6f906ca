-- ===== src/Store/Stage.antt =====
-- `stage_write_inner` of src/store.rs: the stored row and the queued payload.
use braird_core.Prelude.{
  String, ℤ, pos, ◌+ℤ◌, ◌≤ℤ◌, ◌<ℤ◌, ◌≡◌, ◌≢◌, false, refl, ap, ◌∙◌, Option, none, some, [], ◌∷◌,
  ◌++◌, arith, str_eq, ◌&&◌, if◌then◌else◌, unwrap_or, max_ℤ, +ℤ_parts,
}
use braird_core.Prelude.Maps
use braird_core.Json
use braird_core.Json.{
  Value, Map, Serde, num, int, obj, str, empty, as_i64, map_reals, map_reals_map,
}
use braird_core.Json.Laws.{get-extend, get-map_reals, as_i64-map_reals, or_else}
use braird_core.Store.Schema.{TableSchema, table_schema}
use braird_core.Store.Columns.{table_schema-IsSynced}
use braird_core.Store.State.{
  Result, ok, err, ◌>>=◌, OutboxRow, Store, get_row, apply_row, enqueue, payload_fields,
}
use braird_core.Store.Staging.{stored_updated, clamp_stamp, stage_write_inner, payload_stamp}
use braird_core.Store.Rows.{
  row_stamp, local_updated, local_updated_rows, last_outbox_id-apply_row, outbox-apply_row,
  local_updated-apply_row, get_row-apply_row, get_row_rows,
}
use braird_core.Store.Clamp.{clamp_stamp-stamp, clamp_stamp-other}

-- A transaction that commits has passed its first part.
pub >>=-inv :
    {Got Wanted : Type 0} (first : Result Got) (next : Got → Result Wanted) {wanted : Wanted}
    → (first >>= next) ≡ ok wanted
    → (got : Got) × (first ≡ ok got) × (next got ≡ ok wanted)
>>=-inv (ok got) next h = (got, refl, h)
>>=-inv (err e) next h = absurd (ground arith)

as_i64-or_else : (a b : Option Value) {n : ℤ} → as_i64 a ≡ some n → as_i64 (or_else a b) ≡ some n
as_i64-or_else none b h = absurd (unfold as_i64 in ground arith)
as_i64-or_else (some v) b h = h

-- The stamp in a queued payload is read back as it was written.
pub payload_stamp-to_string :
    {Text : Type 0} ⦃serde : Serde Text⦄ (m : Map) (r : OutboxRow Text)
    → r.payload ≡ serde.to_string (obj m)
    → payload_stamp r ≡ as_i64 (Json.get "updated_at" m)
unfolding payload_stamp payload_fields map_reals
payload_stamp-to_string ⦃serde⦄ m r e = ground (
  arith,
  serde.from_str-to_string (obj m),
  get-map_reals serde.reread "updated_at" m,
  as_i64-map_reals serde.reread serde.reread-IsReread (Json.get "updated_at" m),
)

-- The primary key is not the stamp.
pk-ne-updated_at :
    (table : String) (schema : TableSchema)
    → table_schema table ≡ some schema
    → schema.pk ≢ "updated_at"
pk-ne-updated_at table schema found e =
    let synced = (table_schema-IsSynced table schema found).0 in
    ground (arith, synced.updated_at, synced.key, ap (λ k. Maps.lookup k schema.columns) e)

module _ {Text : Type 0} ⦃serde : Serde Text⦄ (s : Store Text) (table record_id : String)
    (partial : Map) (created_at : ℤ) where
  -- The parts of a successful `stage_write_inner`.
  pub record StageParts (t : Store Text) : Type 0 where
    pub existing : Option Map
    pub clamped : Map
    pub applied : Store Text
    pub read : get_row s table record_id ≡ ok existing
    pub clamp : clamp_stamp (stored_updated existing) partial ≡ ok clamped
    pub apply : apply_row s table (Json.extend (unwrap_or existing empty) clamped) ≡ ok applied
    pub queued : t ≡ enqueue applied table record_id (serde.to_string (obj clamped)) created_at

  pub stage_write-parts :
      {t : Store Text}
      → stage_write_inner s table record_id partial created_at ≡ ok t
      → StageParts t
  unfolding stage_write_inner
  stage_write-parts h =
      let (existing, read, h1) = >>=-inv _ _ h in
      let (clamped, clamp, h2) = >>=-inv _ _ h1 in
      let (applied, apply, h3) = >>=-inv _ _ h2 in
      record {
        existing = existing;
        clamped = clamped;
        applied = applied;
        read = read;
        clamp = clamp;
        apply = apply;
        queued = ground arith;
      }

module _ {Text : Type 0} ⦃serde : Serde Text⦄ (s : Store Text) (table record_id : String)
    (partial : Map) (created_at : ℤ) {t : Store Text} (schema : TableSchema)
    (found : table_schema table ≡ some schema)
    (key : Json.get schema.pk partial ≡ some (str record_id))
    (staged : stage_write_inner s table record_id partial created_at ≡ ok t) where
  pub parts : StageParts s table record_id partial created_at t
  parts = stage_write-parts s table record_id partial created_at staged

  pub merged : Map
  merged = Json.extend (unwrap_or parts.existing empty) parts.clamped

  pub merged-key : Json.get schema.pk merged ≡ some (str record_id)
  unfolding merged
  merged-key = ground (
    arith,
    get-extend (unwrap_or parts.existing empty) parts.clamped schema.pk,
    clamp_stamp-other (stored_updated parts.existing) partial parts.clamped schema.pk
        (pk-ne-updated_at table schema found) parts.clamp,
    key,
  )

  -- A column that the write gives, but the stamp.
  pub get-merged :
      (column : String) (v : Value)
      → column ≢ "updated_at"
      → Json.get column partial ≡ some v
      → Json.get column merged ≡ some v
  unfolding merged
  get-merged column v other given = ground (
    arith,
    get-extend (unwrap_or parts.existing empty) parts.clamped column,
    clamp_stamp-other (stored_updated parts.existing) partial parts.clamped column other
        parts.clamp,
    given,
  )

  pub merged-apply : apply_row s table merged ≡ ok parts.applied
  unfolding merged
  merged-apply = parts.apply

  stored-local : stored_updated parts.existing ≡ unwrap_or (local_updated s table record_id) (pos 0)
  unfolding stored_updated local_updated row_stamp
  stored-local = ground (arith, parts.read)

  queued_row : OutboxRow Text
  queued_row = record {
    id = s.last_outbox_id +ℤ pos 1;
    table_name = table;
    record_id = some record_id;
    payload = serde.to_string (obj parts.clamped);
    created_at = created_at;
  }

  outbox-stage : t.outbox ≡ s.outbox ++ queued_row ∷ []
  unfolding enqueue queued_row
  outbox-stage = ground (
    arith,
    parts.queued,
    outbox-apply_row s table merged merged-apply,
    last_outbox_id-apply_row s table merged merged-apply,
  )

  local_updated-stage :
      (other j : String)
      → local_updated t other j ≡ (
          if str_eq table other && str_eq record_id j
          then some (row_stamp merged)
          else local_updated s other j)
  unfolding enqueue
  local_updated-stage other j =
      local_updated_rows parts.applied t (ap (λ (u : Store Text). u.rows) parts.queued) other j
      ∙ local_updated-apply_row s table merged schema record_id found merged-key merged-apply other
          j

  get_row-stage :
      (other j : String)
      → (str_eq table other && str_eq record_id j) ≡ false
      → get_row t other j ≡ get_row s other j
  unfolding enqueue
  get_row-stage other j e =
      get_row_rows parts.applied t (ap (λ (u : Store Text). u.rows) parts.queued) other j
      ∙ get_row-apply_row s table merged schema record_id found merged-key merged-apply other j
      ∙ rw e refl

  -- What a write with a stamp leaves behind.
  pub record Advances (stamp : ℤ) : Type 0 where
    pub new : ℤ
    pub row : OutboxRow Text
    -- strictly above the stored stamp, and at least what the caller asked for
    pub above_stored : unwrap_or (local_updated s table record_id) (pos 0) <ℤ new
    pub above_asked : stamp ≤ℤ new
    -- the stored row carries it, and no other row's stamp changes
    pub stored :
        (other j : String)
        → local_updated t other j
          ≡ (if str_eq table other && str_eq record_id j then some new else local_updated s other j)
    -- every other row is read as before
    pub kept :
        (other j : String)
        → (str_eq table other && str_eq record_id j) ≡ false
        → get_row t other j ≡ get_row s other j
    -- the queue ends in the payload of the record, which carries the same stamp
    pub queue : t.outbox ≡ s.outbox ++ row ∷ []
    pub for_table : row.table_name ≡ table
    pub for_record : row.record_id ≡ some record_id
    pub payload : payload_stamp row ≡ some new

  module _ (stamp : ℤ) (asked : as_i64 (Json.get "updated_at" partial) ≡ some stamp) where
    new_stamp : ℤ
    new_stamp = max_ℤ stamp (stored_updated parts.existing +ℤ pos 1)

    clamped-stamp : as_i64 (Json.get "updated_at" parts.clamped) ≡ some new_stamp
    unfolding new_stamp
    clamped-stamp =
        clamp_stamp-stamp (stored_updated parts.existing) partial parts.clamped stamp asked
          parts.clamp

    merged-stamp : row_stamp merged ≡ new_stamp
    unfolding row_stamp merged
    merged-stamp = ground (
      arith,
      get-extend (unwrap_or parts.existing empty) parts.clamped "updated_at",
      as_i64-or_else (Json.get "updated_at" parts.clamped)
          (Json.get "updated_at" (unwrap_or parts.existing empty)) clamped-stamp,
    )

    -- A successful local write with a stamp, of a known table and with its record's key, is
    -- stamped strictly after the row that it replaces, in the stored row and in the queued payload
    -- alike; every other row is read as before, and the queue gains that one payload.
    pub stage_write_inner-Advances : Advances stamp
    stage_write_inner-Advances = record {
      new = new_stamp;
      row = queued_row;
      above_stored = rw (← stored-local) (
          unfold new_stamp max_ℤ in
          ground (arith, +ℤ_parts (stored_updated parts.existing) (pos 1)));
      above_asked =
          unfold new_stamp max_ℤ in
          ground (arith, +ℤ_parts (stored_updated parts.existing) (pos 1));
      stored = λ other j. rw (← merged-stamp) (local_updated-stage other j);
      kept = get_row-stage;
      queue = outbox-stage;
      for_table = unfold queued_row in refl;
      for_record = unfold queued_row in refl;
      payload =
          payload_stamp-to_string parts.clamped queued_row (unfold queued_row in refl)
          ∙ clamped-stamp;
    }
