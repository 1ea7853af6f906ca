-- ===== src/Store/Overflow.antt =====
-- `StampOverflow` of `stage_write_inner` in src/store.rs: when the monotonic clamp refuses.
use braird_core.Prelude.{
  eqb_ℤ, Bool-cases, ◌↔◌, String, ℤ, pos, ◌+ℤ◌, ◌≡◌, ◌≢◌, refl, +ℤ_parts, eq_of_parts, true, Option,
  none, some, arith, unwrap_or, Option-cases, inl, inr, in_i64, i64_max, checked_add,
}
use braird_core.Json
use braird_core.Json.{Map, Serde, as_i64, empty, obj}
use braird_core.Store.Schema.{TableSchema, table_schema}
use braird_core.Store.State.{
  ok, err, stamp_overflow, Store, schema_or_err, get_row, apply_row, enqueue, replace_row,
  drop_embedding,
}
use braird_core.Store.Cells.{read_cells}
use braird_core.Store.Staging.{stored_updated, clamp_stamp, raise_stamp, stage_write_inner}
use braird_core.Store.Rows.{row_stamp, local_updated}
use braird_core.Store.Clamp.{as_i64_range}

stored_range : (existing : Option Map) → in_i64 (stored_updated existing) ≡ true
unfolding stored_updated
stored_range none = refl
stored_range (some row) = elim (Option-cases (as_i64 (Json.get "updated_at" row))) [
  | inl e ↦ rw e refl
  | inr (n, e) ↦ rw e (as_i64_range (Json.get "updated_at" row) e)
]

checked_add-max : checked_add i64_max (pos 1) ≡ none
unfolding checked_add ◌+ℤ◌
checked_add-max = refl

-- The next stamp exists below the greatest one.
checked_add-next :
    (n : ℤ) → in_i64 n ≡ true → n ≢ i64_max → checked_add n (pos 1) ≡ some (n +ℤ pos 1)
unfolding checked_add
checked_add-next n h other = ground (arith, +ℤ_parts n (pos 1), eq_of_parts n i64_max)

module _ (stored : ℤ) (partial : Map) (stamp : ℤ)
    (asked : as_i64 (Json.get "updated_at" partial) ≡ some stamp) where
  clamp_stamp-max : clamp_stamp i64_max partial ≡ err stamp_overflow
  unfolding clamp_stamp
  clamp_stamp-max = ground (arith, asked, checked_add-max)

  clamp_stamp-below :
      in_i64 stored ≡ true → stored ≢ i64_max → (m : Map) × (clamp_stamp stored partial ≡ ok m)
  unfolding clamp_stamp
  clamp_stamp-below h other =
      (raise_stamp stamp (stored +ℤ pos 1) partial, ground (arith, checked_add-next stored h other))

module _ {Text : Type 0} ⦃serde : Serde Text⦄ (s : Store Text) (table record_id : String)
    (partial : Map) (created_at stamp : ℤ) (schema : TableSchema)
    (found : table_schema table ≡ some schema)
    (asked : as_i64 (Json.get "updated_at" partial) ≡ some stamp) where
  get_row-ok : (existing : Option Map) × (get_row s table record_id ≡ ok existing)
  unfolding get_row schema_or_err
  get_row-ok = (
    elim (s.rows schema.name record_id) [
      | none ↦ none
      | some cells ↦ some (read_cells schema.columns cells)
    ],
    ground arith,
  )

  apply_row-ok : (row : Map) → (t : Store Text) × (apply_row s table row ≡ ok t)
  unfolding apply_row schema_or_err
  apply_row-ok row = (drop_embedding (replace_row s schema row) table row, ground arith)

  stored-local :
      (existing : Option Map)
      → get_row s table record_id ≡ ok existing
      → stored_updated existing ≡ unwrap_or (local_updated s table record_id) (pos 0)
  unfolding stored_updated local_updated row_stamp
  stored-local existing read = ground (arith, read)

  stage-max :
      local_updated s table record_id ≡ some i64_max
      → stage_write_inner s table record_id partial created_at ≡ err stamp_overflow
  unfolding stage_write_inner
  stage-max top =
      let (existing, read) = get_row-ok in
      let stored = stored-local existing read in
      rw (read, stored, top, clamp_stamp-max (pos 0) partial stamp asked) refl

  stage-below :
      local_updated s table record_id ≢ some i64_max
      → (t : Store Text) × (stage_write_inner s table record_id partial created_at ≡ ok t)
  unfolding stage_write_inner
  stage-below below =
      let (existing, read) = get_row-ok in
      let stored = stored-local existing read in
      let (m, clamp) =
        clamp_stamp-below (stored_updated existing) partial stamp asked (stored_range existing)
          (λ e. below (ground (arith, stored))) in
      let (u, applied) = apply_row-ok (Json.extend (unwrap_or existing empty) m) in
      (
        enqueue u table record_id (serde.to_string (obj m)) created_at,
        rw (read, clamp, applied) refl,
      )

  is_max : Dec (local_updated s table record_id ≡ some i64_max)
  is_max = elim (Option-cases (local_updated s table record_id)) [
    | inl e ↦ no (ground arith)
    | inr (n, e) ↦ elim (Bool-cases (eqb_ℤ n i64_max)) [
      | inl same ↦ yes (ground (arith, eq_of_parts n i64_max))
      | inr other ↦ no (ground arith)
    ]
  ]

  -- A stamped write to a known table succeeds unless the stored stamp is `i64::MAX`, where it
  -- fails with the overflow error.
  pub stage_write_inner_total :
      (((t : Store Text) × (stage_write_inner s table record_id partial created_at ≡ ok t))
        ↔ local_updated s table record_id ≢ some i64_max)
      × ((stage_write_inner s table record_id partial created_at ≡ err stamp_overflow)
          ↔ (local_updated s table record_id ≡ some i64_max))
  stage_write_inner_total = (
    (λ (t, h) top. absurd (ground (arith, stage-max top)), stage-below),
    (
      λ h. elim is_max [
        | yes e ↦ e
        | no below ↦ let (t, e) = stage-below below in absurd (ground arith)
      ],
      stage-max,
    ),
  )
