-- ===== src/Snapshot/Prepared.antt =====
-- The writes that `prepare_write` of src/sync/export_import/merge.rs makes, for
-- `stage_import_batch`.
use braird_core.Prelude.{
  String, ℤ, in_i64, ◌≡◌, refl, ◌∙◌, subst, true, false, Option, none, some, str_eq, arith,
}
use braird_core.Json
use braird_core.Json.{Value, Map, null, str, num, int, bool, as_i64}
use braird_core.Json.Laws.{get-insert}
use braird_core.Store.Schema.{TableSchema, table_schema}
use braird_core.Store.Columns.{table_schema-IsSynced, table_schema-HasPlainKey}
use braird_core.Store.Import.{IsImport}
use braird_core.Crypto.{Bytes, Ciphers}
use braird_core.Crypto.Tag.{Macs}
use braird_core.Normalize.{Unicode}
use braird_core.Snapshot.{SyncError, store_failed, done, done_or, >>=-inv, NormalizedRow}
use braird_core.Snapshot.Prepare.{complete_row, seal_note, seal_url, prepare_write}
use braird_core.Snapshot.Complete.{get-complete_row, get-seal_note, get-seal_url}

-- A candidate of a known table that carries its own key, as the parser makes it.

pub record IsNormal (candidate : String × NormalizedRow) : Type 0 where
  pub schema : TableSchema
  pub found : table_schema candidate.0 ≡ some schema
  pub key : Json.get schema.pk candidate.1.row ≡ some (str candidate.1.primary_key)

done_or-inv :
    {A : Type 0} (e : SyncError) (o : Option A) {a : A} → done_or e o ≡ done a → o ≡ some a
done_or-inv e none h = absurd (ground arith)
done_or-inv e (some a) h = ground arith

module _ ⦃c : Ciphers⦄ ⦃u : Unicode⦄ ⦃m : Macs⦄ (mk iv : Bytes) (table : String)
    (candidate : NormalizedRow) (stamp : ℤ) where
  abbrev stamped : Map → Map
  stamped row = Json.insert "deleted" (bool false) (
      Json.insert "updated_at" (num (int stamp))
        (seal_url mk iv table candidate.primary_key (Json.get "url" row) row))

  get-stamped :
      (k : String) (row : Map)
      → str_eq "deleted" k ≡ false
      → str_eq "updated_at" k ≡ false
      → str_eq "url" k ≡ false
      → Json.get k (stamped row) ≡ Json.get k row
  get-stamped k row h1 h2 h3 =
      let sealed = seal_url mk iv table candidate.primary_key (Json.get "url" row) row in
      ground (
        arith,
        get-insert "deleted" k (bool false) (Json.insert "updated_at" (num (int stamp)) sealed),
        get-insert "updated_at" k (num (int stamp)) sealed,
        get-seal_url mk iv table candidate.primary_key k (Json.get "url" row) row h3,
      )

  stamped-updated_at : (row : Map) → Json.get "updated_at" (stamped row) ≡ some (num (int stamp))
  stamped-updated_at row =
      let sealed = seal_url mk iv table candidate.primary_key (Json.get "url" row) row in
      get-insert "deleted" "updated_at" (bool false)
        (Json.insert "updated_at" (num (int stamp)) sealed)
      ∙ get-insert "updated_at" "updated_at" (num (int stamp)) sealed

  complete-IsImport :
      (schema : TableSchema) (row : Map)
      → table_schema table ≡ some schema
      → in_i64 stamp ≡ true
      → Json.get schema.pk row ≡ some (str candidate.primary_key)
      → IsImport stamp table candidate.primary_key (complete_row schema.columns (stamped row))
  complete-IsImport schema row found range key =
      let plain = table_schema-HasPlainKey table schema found in
      let synced = (table_schema-IsSynced table schema found).0 in
      record {
        schema = schema;
        found = found;
        key = ground (
          arith,
          get-complete_row schema.columns (stamped row) schema.pk,
          get-stamped schema.pk row plain.deleted plain.updated_at plain.url,
          synced.key,
          key,
        );
        stamped =
            unfold as_i64 in
            ground (
              arith,
              get-complete_row schema.columns (stamped row) "updated_at",
              stamped-updated_at row,
              synced.updated_at,
            );
      }

  module _ (normal : IsNormal (table, candidate)) (range : in_i64 stamp ≡ true) where
    -- A prepared write is for its candidate, and carries its key and the batch's stamp.
    pub prepare_write-IsImport :
        {write : String × String × Map}
        → prepare_write mk iv table candidate stamp ≡ done write
        → (write.0 ≡ table)
          × (write.1 ≡ candidate.primary_key)
          × IsImport stamp table candidate.primary_key write.2
    unfolding prepare_write
    prepare_write-IsImport {write} h =
        let (row, sealed, h') =
          >>=-inv (seal_note mk iv table candidate.primary_key candidate.row) _ h in
        let (schema, known, e) = >>=-inv (done_or store_failed (table_schema table)) _ h' in
        let found : table_schema table ≡ some schema =
          done_or-inv store_failed (table_schema table) known in
        let same : normal.schema ≡ schema = ground (arith, normal.found) in
        let plain = table_schema-HasPlainKey table schema found in
        let key : Json.get schema.pk row ≡ some (str candidate.primary_key) =
          get-seal_note mk iv table candidate.primary_key schema.pk candidate.row plain.text
            plain.content_tag sealed
          ∙ subst
              (λ (t : TableSchema). Json.get t.pk candidate.row ≡ some (str candidate.primary_key))
              same normal.key in
        let made : (table, candidate.primary_key, complete_row schema.columns (stamped row))
            ≡ write =
          ground arith in
        subst
          (λ (w : String × String × Map).
            (w.0 ≡ table)
            × (w.1 ≡ candidate.primary_key)
            × IsImport stamp table candidate.primary_key w.2)
          made (refl, refl, complete-IsImport schema row found range key)
