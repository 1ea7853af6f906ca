-- ===== src/Store/Import.antt =====
-- `stage_import_batch` of src/store.rs: the rows of a snapshot, under one stamp.
use braird_core.Prelude.{
  String, ℤ, pos, ◌≤ℤ◌, ◌+ℤ◌, ◌≡◌, refl, ap, sym, ◌∙◌, subst, ◌&&◌, Option, none, some, List, [],
  ◌∷◌, ◌++◌, str_eq, if◌then◌else◌, Bool-cases, inl, inr, All, All-map, All-append, arith, eq_iff,
}
use braird_core.Json
use braird_core.Json.{Map, Serde, str, obj, as_i64}
use braird_core.Store.Schema.{TableSchema, table_schema}
use braird_core.Store.State.{
  ok, ◌>>=◌, OutboxRow, Store, enqueue, apply_row, drop_pending_deletes_inner, schema_or_err,
  replace_row, drop_embedding,
}
use braird_core.Store.Staging.{stage_import_batch}
use braird_core.Store.Rows.{
  row_stamp, local_updated, local_updated_rows, outbox-apply_row, local_updated-apply_row,
}
use braird_core.Store.Stage.{payload_stamp-to_string}
use braird_core.Store.Backed.{
  IsBacked, Backed, Backed-grow, Backed-write, drop_pending_deletes-IsBacked,
}

-- A write of a known table, for a record whose key and stamp the row carries.

pub record IsImport (stamp : ℤ) (table record_id : String) (row : Map) : Type 0 where
  pub schema : TableSchema
  pub found : table_schema table ≡ some schema
  pub key : Json.get schema.pk row ≡ some (str record_id)
  pub stamped : as_i64 (Json.get "updated_at" row) ≡ some stamp

abbrev pub AreImports : ℤ → List (String × String × Map) → Type 0
AreImports stamp [] = Unit
AreImports stamp ((table, record_id, row) ∷ writes) =
    IsImport stamp table record_id row × AreImports stamp writes

-- A stored stamp that the batch's stamp is not below.
abbrev pub IsAbove : ℤ → Option ℤ → Type 0
IsAbove stamp none = Unit
IsAbove stamp (some old) = old ≤ℤ stamp

module _ {Text : Type 0} ⦃serde : Serde Text⦄ where
  abbrev pub AreAbove : ℤ → Store Text → List (String × String × Map) → Type 0
  AreAbove stamp s [] = Unit
  AreAbove stamp s ((table, record_id, row) ∷ writes) =
      IsAbove stamp (local_updated s table record_id) × AreAbove stamp s writes

  -- One write of the batch, in a store t from s.
  module _ (stamp : ℤ) (s : Store Text) (table record_id : String) (row : Map) (batch_timestamp : ℤ)
      {t : Store Text} (import : IsImport stamp table record_id row)
      (applied : apply_row s table row ≡ ok t) where
    abbrev pub after : Store Text
    after = enqueue t table record_id (serde.to_string (obj row)) batch_timestamp

    stamp-import :
        (other j : String)
        → (if str_eq table other && str_eq record_id j
            then some (row_stamp row)
            else local_updated s other j)
          ≡ (if str_eq table other && str_eq record_id j
              then some stamp
              else local_updated s other j)
    unfolding row_stamp
    stamp-import other j = rw (import.stamped, row_stamp) refl

    pub local_updated-import :
        (other j : String)
        → local_updated after other j ≡ (
            if str_eq table other && str_eq record_id j
            then some stamp
            else local_updated s other j)
    unfolding enqueue
    local_updated-import other j =
        local_updated_rows t after refl other j
        ∙ local_updated-apply_row s table row import.schema record_id import.found import.key
            applied other j
        ∙ stamp-import other j

    import-grow :
        IsAbove stamp (local_updated s table record_id)
        → (other j : String) (old : ℤ) → local_updated s other j ≡ some old
        → (new : ℤ) × (local_updated after other j ≡ some new) × (old ≤ℤ new)
    import-grow above other j old h = elim (Bool-cases (str_eq table other && str_eq record_id j)) [
      | inl e ↦ (
        stamp,
        ground (arith, local_updated-import other j),
        ground (arith, above, eq_iff table other, eq_iff record_id j),
      )
      | inr e ↦ (old, ground (arith, local_updated-import other j), omega arith)
    ]

    queued : OutboxRow Text
    queued = record {
      id = t.last_outbox_id +ℤ pos 1;
      table_name = table;
      record_id = some record_id;
      payload = serde.to_string (obj row);
      created_at = batch_timestamp;
    }

    queued-Backed : Backed after queued
    queued-Backed = Backed-write after queued λ id written e p. (
      stamp,
      unfold queued in
          ground (arith, local_updated-import table id, eq_iff table table, eq_iff record_id id),
      ground (arith, payload_stamp-to_string row queued (unfold queued in refl), import.stamped),
    )

    outbox-import : after.outbox ≡ s.outbox ++ queued ∷ []
    unfolding enqueue queued
    outbox-import = ap (λ q. q ++ queued ∷ []) (outbox-apply_row s table row applied)

    import-IsBacked : IsAbove stamp (local_updated s table record_id) → IsBacked s → IsBacked after
    import-IsBacked above b = subst (All (Backed after)) (sym outbox-import) (
        All-append (Backed after) s.outbox (queued ∷ [])
          (All-map s.outbox (λ r k. Backed-grow s after r (import-grow above) k) b)
          (queued-Backed, tt))

    IsAbove-import :
        (other j : String)
        → IsAbove stamp (local_updated s other j)
        → IsAbove stamp (local_updated after other j)
    IsAbove-import other j above =
        rw (local_updated-import other j)
          (elim (Bool-cases (str_eq table other && str_eq record_id j)) [
            | inl e ↦ rw e (omega arith)
            | inr e ↦ rw e above
          ])

    import-AreAbove :
        (writes : List (String × String × Map))
        → AreAbove stamp s writes
        → AreAbove stamp after writes
    import-AreAbove [] above = tt
    import-AreAbove ((other, j, row') ∷ writes) (first, rest) =
        (IsAbove-import other j first, import-AreAbove writes rest)

  dropped-AreAbove :
      (stamp : ℤ) (s : Store Text) (table record_id : String)
      (writes : List (String × String × Map))
      → AreAbove stamp s writes
      → AreAbove stamp (drop_pending_deletes_inner s table record_id) writes
  dropped-AreAbove stamp s table record_id [] above = tt
  dropped-AreAbove stamp s table record_id ((other, j, row) ∷ writes) (first, rest) = (
    subst (IsAbove stamp)
        (sym (
          local_updated_rows s (drop_pending_deletes_inner s table record_id)
            (unfold drop_pending_deletes_inner in refl) other j))
        first,
    dropped-AreAbove stamp s table record_id writes rest,
  )

  apply_row-known :
      (s : Store Text) (table : String) (row : Map) (schema : TableSchema)
      → table_schema table ≡ some schema
      → (t : Store Text) × (apply_row s table row ≡ ok t)
  unfolding apply_row schema_or_err
  apply_row-known s table row schema found =
      (drop_embedding (replace_row s schema row) table row, ground arith)

  -- A batch of imported rows of known tables, each with its key and one stamp that no stored row of
  -- the batch is above, is staged whole, and keeps every queued payload backed by its stored row.
  pub stage_import_batch-IsBacked :
      (stamp : ℤ) (s : Store Text) (writes : List (String × String × Map)) (batch_timestamp : ℤ)
      → AreImports stamp writes
      → AreAbove stamp s writes
      → IsBacked s
      → (t : Store Text) × (stage_import_batch s writes batch_timestamp ≡ ok t) × IsBacked t
  unfolding stage_import_batch
  stage_import_batch-IsBacked stamp s [] batch_timestamp imports above b = (s, refl, b)
  stage_import_batch-IsBacked stamp s ((table, record_id, row) ∷ writes) batch_timestamp
        (import, imports) above b =
      let d = drop_pending_deletes_inner s table record_id in
      let (first, rest) =
        dropped-AreAbove stamp s table record_id ((table, record_id, row) ∷ writes) above in
      let (u, applied) = apply_row-known d table row import.schema import.found in
      let next = after stamp d table record_id row batch_timestamp import applied in
      let (t, staged, c) =
        stage_import_batch-IsBacked stamp next writes batch_timestamp imports
          (import-AreAbove stamp d table record_id row batch_timestamp import applied writes rest)
          (import-IsBacked stamp d table record_id row batch_timestamp import applied first
            (drop_pending_deletes-IsBacked s table record_id b)) in
      (
        t,
        ap
              (λ r. r >>= λ v.
                stage_import_batch
                  (enqueue v table record_id (serde.to_string (obj row)) batch_timestamp) writes
                  batch_timestamp)
              applied
            ∙ staged,
        c,
      )
