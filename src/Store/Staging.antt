-- ===== src/Store/Staging.antt =====
-- The transactions of src/store.rs. Each returns the new store, or an error and no store: the
-- transaction is rolled back, and the caller still has the store as it was.
use braird_core.Prelude.{
  String, ℤ, pos, Bool, true, false, ◌&&◌, Option, none, some, List, [], ◌∷◌, if◌then◌else◌, filter,
  not, max_ℤ, eqb_ℤ, leb_ℤ, checked_add, unwrap_or,
}
use braird_core.Json
use braird_core.Json.{Value, Map, Serde, num, int, bool, obj, empty, as_i64, as_str, as_bool}
use braird_core.Store.State.{
  stamp_overflow, Result, ok, err, ◌>>=◌, OutboxRow, Store, schema_or_err, enqueue, is_for,
  payload_fields, drop_pending_deletes_inner, get_row, apply_row,
}

-- `matches!(row.get("deleted"), Some(Value::Bool(true)))`

unfoldable pub is_tombstone : Map → Bool
is_tombstone row = elim (Json.get "deleted" row) [ some (bool true) ↦ true | _ ↦ false ]

-- `stored_updated` of `stage_write_inner`, 0 where no row or no stamp is stored.
unfoldable pub stored_updated : Option Map → ℤ
stored_updated none = pos 0
stored_updated (some row) = unwrap_or (as_i64 (Json.get "updated_at" row)) (pos 0)

-- `partial.insert` of the clamped stamp, where it differs.
unfoldable pub raise_stamp : ℤ → ℤ → Map → Map
raise_stamp stamp floor partial =
    let clamped = max_ℤ stamp floor in
    if eqb_ℤ clamped stamp then partial else Json.insert "updated_at" (num (int clamped)) partial

-- The clamp of `stage_write_inner`: a stamp is raised above the stored one, or the write fails.
unfoldable pub clamp_stamp : ℤ → Map → Result Map
clamp_stamp stored partial = elim (as_i64 (Json.get "updated_at" partial)) [
  | none ↦ ok partial
  | some stamp ↦ elim (checked_add stored (pos 1)) [
    | none ↦ err stamp_overflow
    | some floor ↦ ok (raise_stamp stamp floor partial)
  ]
]

module _ {Text : Type 0} ⦃serde : Serde Text⦄ where
  unfoldable pub stage_write_inner : Store Text → String → String → Map → ℤ → Result (Store Text)
  stage_write_inner s table record_id partial created_at = do
    existing ← get_row s table record_id
    clamped ← clamp_stamp (stored_updated existing) partial
    applied ← apply_row s table (Json.extend (unwrap_or existing empty) clamped)
    ok (enqueue applied table record_id (serde.to_string (obj clamped)) created_at)

  unfoldable pub stage_local_write : Store Text → String → String → Map → ℤ → Result (Store Text)
  unfolding stage_write_inner
  stage_local_write = stage_write_inner

  unfoldable pub stage_local_write_resurrecting :
      Store Text → String → String → Map → ℤ → Result (Store Text)
  stage_local_write_resurrecting s table record_id partial created_at =
      stage_write_inner (drop_pending_deletes_inner s table record_id) table record_id partial
        created_at

  -- One write of a batch: a live one drops the record's queued tombstones first.
  unfoldable pub stage_one : Store Text → String → String → Map → ℤ → Result (Store Text)
  stage_one s table record_id row created_at =
      stage_write_inner
        (if is_tombstone row then s else drop_pending_deletes_inner s table record_id) table
        record_id row created_at

  unfoldable pub stage_local_writes :
      Store Text → List (String × String × Map) → ℤ → Result (Store Text)
  stage_local_writes s [] created_at = ok s
  stage_local_writes s ((table, record_id, row) ∷ writes) created_at =
      stage_one s table record_id row created_at >>= λ t. stage_local_writes t writes created_at

  -- `ok none` is the error `TargetMissing`.
  unfoldable pub stage_local_write_existing_live :
      Store Text
      → String
      → String
      → Map
      → List (String × String × Map)
      → ℤ
      → Result (Option (Store Text))
  stage_local_write_existing_live s table record_id partial extra_writes created_at = do
    found ← get_row s table record_id
    elim found [
      | none ↦ ok none
      | some existing ↦
          if unwrap_or (as_bool (Json.get "deleted" existing)) false then ok none else do
            t ← stage_write_inner s table record_id partial created_at
            u ← stage_local_writes t extra_writes created_at
            ok (some u)
    ]

  unfoldable pub stage_import_batch :
      Store Text → List (String × String × Map) → ℤ → Result (Store Text)
  stage_import_batch s [] batch_timestamp = ok s
  stage_import_batch s ((table, record_id, row) ∷ writes) batch_timestamp =
      apply_row (drop_pending_deletes_inner s table record_id) table row >>= λ t.
      stage_import_batch (enqueue t table record_id (serde.to_string (obj row)) batch_timestamp)
        writes batch_timestamp

  -- The stamp of a queued payload, if it can be read.
  unfoldable pub payload_stamp : OutboxRow Text → Option ℤ
  payload_stamp r = as_i64 (Json.get "updated_at" (payload_fields r.payload))

  -- A queued write of the record whose stamp is at most the incoming one.
  unfoldable pub is_stale : String → String → ℤ → OutboxRow Text → Bool
  is_stale table record_id incoming_updated r =
      is_for table record_id r
      && elim (payload_stamp r) [ none ↦ false | some stamp ↦ leb_ℤ stamp incoming_updated ]

  -- The id and the stamp that a dropped entry is reported by.
  unfoldable pub dropped_entry : OutboxRow Text → ℤ × ℤ
  dropped_entry r = (r.id, unwrap_or (payload_stamp r) (pos 0))

  unfoldable pub dropped_entries : String → String → ℤ → List (OutboxRow Text) → List (ℤ × ℤ)
  dropped_entries table record_id incoming_updated [] = []
  dropped_entries table record_id incoming_updated (r ∷ rest) =
      let later = dropped_entries table record_id incoming_updated rest in
      if is_stale table record_id incoming_updated r then dropped_entry r ∷ later else later

  unfoldable pub apply_row_rebasing_outbox :
      Store Text → String → Map → ℤ → Result (List (ℤ × ℤ) × Store Text)
  apply_row_rebasing_outbox s table row incoming_updated = do
    schema ← schema_or_err table
    applied ← apply_row s table row
    ok (elim (as_str (Json.get schema.pk row)) [
      | none ↦ ([], applied)
      | some record_id ↦ (
        dropped_entries table record_id incoming_updated applied.outbox,
        record applied {
          outbox = filter (λ r. not (is_stale table record_id incoming_updated r)) applied.outbox;
        },
      )
    ])
