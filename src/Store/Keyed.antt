-- ===== src/Store/Keyed.antt =====
-- The primary keys of the rows of src/store.rs, across its writes.
use braird_core.Prelude.{
  String, ℤ, ◌≡◌, refl, ap, sym, ◌∙◌, ◌&&◌, some, arith, eq_iff, str_eq, Bool-cases, inl, inr,
}
use braird_core.Json
use braird_core.Json.{Map, Serde, str, as_str}
use braird_core.Store.Schema.{TableSchema, ColType, table_schema}
use braird_core.Store.Columns.{table_schema-IsSynced}
use braird_core.Store.Cells.{project, read_cells, get-read_cells, through, sql_to_json, json_to_sql}
use braird_core.Store.State.{ok, Store, get_row, apply_row, enqueue, drop_pending_deletes_inner}
use braird_core.Store.Staging.{stage_write_inner, stage_local_write_resurrecting}
use braird_core.Store.Rows.{get_row-apply_row, get_row_rows}
use braird_core.Store.Stage.{parts, merged, merged-key, merged-apply}
use braird_core.Store.Writes.{IsStamped}

through-text :
    (Text : Type 0) ⦃serde : Serde Text⦄ (id : String)
    → through Text ColType.text (some (str id)) ≡ str id
unfolding through sql_to_json json_to_sql
through-text Text id = refl

read-key :
    (Text : Type 0) ⦃serde : Serde Text⦄ (table : String) (schema : TableSchema) (row : Map)
    (id : String)
    → table_schema table ≡ some schema
    → Json.get schema.pk row ≡ some (str id)
    → Json.get schema.pk (read_cells schema.columns (project {Text = Text} schema.columns row))
      ≡ some (str id)
read-key Text table schema row id found key = ground (
  arith,
  (table_schema-IsSynced table schema found).0.key,
  get-read_cells Text schema.columns row schema.pk,
  through-text Text id,
  key,
)

module _ {Text : Type 0} ⦃serde : Serde Text⦄ where
  abbrev pub IsKeyed : Store Text → Type 0
  IsKeyed s =
      (table : String) (schema : TableSchema) (id : String) (row : Map)
      → table_schema table ≡ some schema
      → get_row s table id ≡ ok (some row)
      → Json.get schema.pk row ≡ some (str id)

  pub IsKeyed-same : (s t : Store Text) → t.rows ≡ s.rows → IsKeyed s → IsKeyed t
  IsKeyed-same s t e k table schema id row found h =
      k table schema id row found (sym (get_row_rows s t e table id) ∙ h)

  -- A row that is written with its key is read back under it.
  pub apply_row-IsKeyed :
      (s : Store Text) (table : String) (row : Map) (schema : TableSchema) (record_id : String)
      {t : Store Text}
      → table_schema table ≡ some schema
      → Json.get schema.pk row ≡ some (str record_id)
      → apply_row s table row ≡ ok t
      → IsKeyed s
      → IsKeyed t
  apply_row-IsKeyed s table row schema record_id found key applied k other schema' id found_row
        found' h =
      elim (Bool-cases (str_eq table other && str_eq record_id id)) [
        | inl e ↦ ground (
          arith,
          get_row-apply_row s table row schema record_id found key applied other id,
          read-key Text table schema row record_id found key,
          eq_iff table other,
          eq_iff record_id id,
        )
        | inr e ↦ k other schema' id found_row found' (
            ground
              (arith, get_row-apply_row s table row schema record_id found key applied other id))
      ]

  -- A stamped local write keeps every row under its key.
  pub stage_write-IsKeyed :
      (s : Store Text) (table record_id : String) (partial : Map) (created_at : ℤ) {t : Store Text}
      → IsStamped table record_id partial
      → IsKeyed s
      → stage_write_inner s table record_id partial created_at ≡ ok t
      → IsKeyed t
  unfolding enqueue
  stage_write-IsKeyed s table record_id partial created_at {t} write k staged =
      let p =
        parts s table record_id partial created_at write.schema write.found write.key staged in
      IsKeyed-same p.applied t (ap (λ (u : Store Text). u.rows) p.queued) (
        apply_row-IsKeyed s table
          (merged s table record_id partial created_at write.schema write.found write.key staged)
          write.schema record_id write.found
          (merged-key s table record_id partial created_at write.schema write.found write.key
            staged)
          (merged-apply s table record_id partial created_at write.schema write.found write.key
            staged)
          k)

  drop_pending_deletes-IsKeyed :
      (s : Store Text) (table id : String)
      → IsKeyed s
      → IsKeyed (drop_pending_deletes_inner s table id)
  unfolding drop_pending_deletes_inner
  drop_pending_deletes-IsKeyed s table id k =
      IsKeyed-same s (drop_pending_deletes_inner s table id) refl k

  pub resurrecting-IsKeyed :
      (s : Store Text) (table record_id : String) (partial : Map) (created_at : ℤ) {t : Store Text}
      → IsStamped table record_id partial
      → IsKeyed s
      → stage_local_write_resurrecting s table record_id partial created_at ≡ ok t
      → IsKeyed t
  unfolding stage_local_write_resurrecting
  resurrecting-IsKeyed s table record_id partial created_at write k staged =
      stage_write-IsKeyed (drop_pending_deletes_inner s table record_id) table record_id partial
        created_at write (drop_pending_deletes-IsKeyed s table record_id k) staged
