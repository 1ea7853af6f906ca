-- ===== src/Store/Column.antt =====
-- One column of a stored row of src/store.rs, across `stage_write_inner`.
use braird_core.Prelude.{
  String, ℤ, ◌≡◌, ◌≢◌, refl, ap, ◌∙◌, false, ◌&&◌, Option, none, some, arith, eq_iff, str_eq,
  if◌then◌else◌,
}
use braird_core.Prelude.Maps
use braird_core.Json
use braird_core.Json.{Map, Value, Serde}
use braird_core.Store.Schema.{ColType}
use braird_core.Store.Cells.{project, read_cells, get-read_cells, through}
use braird_core.Store.State.{ok, Store, get_row, enqueue}
use braird_core.Store.Staging.{stage_write_inner}
use braird_core.Store.Stage.{parts, merged, merged-key, merged-apply, get-merged}
use braird_core.Store.Rows.{get_row-apply_row, get_row_rows}
use braird_core.Store.Writes.{IsStamped}

module _ {Text : Type 0} ⦃serde : Serde Text⦄ where
  unfoldable pub stored_column : Store Text → String → String → String → Option Value
  stored_column s table id column = elim (get_row s table id) [
    | ok (some row) ↦ Json.get column row
    | _ ↦ none
  ]

  module _ (s : Store Text) (table record_id : String) (partial : Map) (created_at : ℤ)
      {t : Store Text} (write : IsStamped table record_id partial)
      (staged : stage_write_inner s table record_id partial created_at ≡ ok t) where
    written : Map
    written = merged s table record_id partial created_at write.schema write.found write.key staged

    get_row-stage :
        (other j : String)
        → get_row t other j ≡ (
            if str_eq table other && str_eq record_id j
            then ok (
                some (
                  read_cells write.schema.columns
                    (project {Text = Text} write.schema.columns written)))
            else get_row s other j)
    unfolding enqueue written
    get_row-stage other j =
        let p =
          parts s table record_id partial created_at write.schema write.found write.key staged in
        get_row_rows p.applied t (ap (λ (u : Store Text). u.rows) p.queued) other j
        ∙ get_row-apply_row s table
            (merged s table record_id partial created_at write.schema write.found write.key staged)
            write.schema record_id write.found
            (merged-key s table record_id partial created_at write.schema write.found write.key
              staged)
            (merged-apply s table record_id partial created_at write.schema write.found write.key
              staged)
            other j

    -- The columns of the other rows stay.
    pub stage-other :
        (other j column : String)
        → (str_eq table other && str_eq record_id j) ≡ false
        → stored_column t other j column ≡ stored_column s other j column
    unfolding stored_column
    stage-other other j column apart = rw (get_row-stage other j, apart, stored_column) refl

    -- A column that the write gives is read back through its cell.
    pub stage-column :
        (column : String) (ty : ColType) (v : Value)
        → column ≢ "updated_at"
        → Maps.lookup column write.schema.columns ≡ some ty
        → Json.get column partial ≡ some v
        → stored_column t table record_id column ≡ some (through Text ty (some v))
    unfolding stored_column written
    stage-column column ty v other known given = ground (
      arith,
      get_row-stage table record_id,
      eq_iff table table,
      eq_iff record_id record_id,
      get-read_cells Text write.schema.columns written column,
      get-merged s table record_id partial created_at write.schema write.found write.key staged
          column v other given,
    )
