-- ===== src/Store/Writes.antt =====
-- The callers of `stage_write_inner` of src/store.rs: batches, resurrections and edits of a live row.
use braird_core.Prelude.{
  String, ℤ, ◌≡◌, ◌∙◌, subst, false, Option-cases, Bool-cases, inl, inr, if◌then◌else◌, some, List,
  [], ◌∷◌, arith, unwrap_or,
}
use braird_core.Json
use braird_core.Json.{Map, Serde, str, as_i64, as_bool}
use braird_core.Store.Schema.{TableSchema, table_schema}
use braird_core.Store.State.{ok, Store, drop_pending_deletes_inner, get_row, ◌>>=◌}
use braird_core.Store.Staging.{
  is_tombstone, stage_one, stage_local_writes, stage_local_write_resurrecting,
  stage_local_write_existing_live, stage_write_inner,
}
use braird_core.Store.Stage.{>>=-inv}
use braird_core.Store.Backed.{IsBacked, stage_write_inner-IsBacked, drop_pending_deletes-IsBacked}

-- A write of a known table, with its record's key and a stamp.

pub record IsStamped (table record_id : String) (partial : Map) : Type 0 where
  pub schema : TableSchema
  pub stamp : ℤ
  pub found : table_schema table ≡ some schema
  pub key : Json.get schema.pk partial ≡ some (str record_id)
  pub stamped : as_i64 (Json.get "updated_at" partial) ≡ some stamp

abbrev pub AreStamped : List (String × String × Map) → Type 0
AreStamped [] = Unit
AreStamped ((table, record_id, row) ∷ writes) = IsStamped table record_id row × AreStamped writes

module _ {Text : Type 0} ⦃serde : Serde Text⦄ where
  pub stage_write-IsBacked :
      (s : Store Text) (table record_id : String) (partial : Map) (created_at : ℤ) {t : Store Text}
      → IsStamped table record_id partial
      → IsBacked s
      → stage_write_inner s table record_id partial created_at ≡ ok t
      → IsBacked t
  stage_write-IsBacked s table record_id partial created_at write b staged =
      stage_write_inner-IsBacked s table record_id partial created_at write.schema write.stamp
        write.found write.key write.stamped staged b

  pub resurrecting-IsBacked :
      (s : Store Text) (table record_id : String) (partial : Map) (created_at : ℤ) {t : Store Text}
      → IsStamped table record_id partial
      → IsBacked s
      → stage_local_write_resurrecting s table record_id partial created_at ≡ ok t
      → IsBacked t
  unfolding stage_local_write_resurrecting
  resurrecting-IsBacked s table record_id partial created_at write b staged =
      stage_write-IsBacked (drop_pending_deletes_inner s table record_id) table record_id partial
        created_at write (drop_pending_deletes-IsBacked s table record_id b) staged

  stage_one-IsBacked :
      (s : Store Text) (table record_id : String) (row : Map) (created_at : ℤ) {t : Store Text}
      → IsStamped table record_id row
      → IsBacked s
      → stage_one s table record_id row created_at ≡ ok t
      → IsBacked t
  unfolding stage_one
  stage_one-IsBacked s table record_id row created_at write b staged =
      stage_write-IsBacked
        (if is_tombstone row then s else drop_pending_deletes_inner s table record_id) table
        record_id row created_at write
        (elim (Bool-cases (is_tombstone row)) [
          | inl e ↦ rw e b
          | inr e ↦ rw e (drop_pending_deletes-IsBacked s table record_id b)
        ])
        staged

  -- A batch of stamped local writes that commits, live rows and tombstones mixed, keeps every queued
  -- payload backed by its stored row.
  pub stage_local_writes-IsBacked :
      (s : Store Text) (writes : List (String × String × Map)) (created_at : ℤ) {t : Store Text}
      → AreStamped writes
      → IsBacked s
      → stage_local_writes s writes created_at ≡ ok t
      → IsBacked t
  unfolding stage_local_writes
  stage_local_writes-IsBacked s [] created_at writes b staged = subst IsBacked (ground arith) b
  stage_local_writes-IsBacked s ((table, record_id, row) ∷ writes) created_at (write, later) b
        staged =
      let (u, one, rest) = >>=-inv _ _ staged in
      stage_local_writes-IsBacked u writes created_at later
        (stage_one-IsBacked s table record_id row created_at write b one) rest

  module _ (s : Store Text) (table record_id : String) (partial : Map)
      (extra_writes : List (String × String × Map)) (created_at : ℤ) {t : Store Text} where
    -- An edit of a live row that commits has staged its write, then the extra ones.
    pub existing_live-parts :
        stage_local_write_existing_live s table record_id partial extra_writes created_at
          ≡ ok (some t)
        → (u : Store Text) × (stage_write_inner s table record_id partial created_at ≡ ok u)
          × (stage_local_writes u extra_writes created_at ≡ ok t)
    unfolding stage_local_write_existing_live
    existing_live-parts staged =
        let (found, read, h) = >>=-inv (get_row s table record_id) _ staged in
        elim (Option-cases {A = Map} found) [
          | inl e ↦ absurd (ground arith)
          | inr (existing, e) ↦
              elim (Bool-cases (unwrap_or (as_bool (Json.get "deleted" existing)) false)) [
                | inl d ↦ absurd (ground arith)
                | inr d ↦ committed (ground arith)
              ]
        ]
      where
        committed :
            (stage_write_inner s table record_id partial created_at >>= λ u.
            stage_local_writes u extra_writes created_at >>= λ v. ok (some v))
              ≡ ok (some t)
            → (u : Store Text) × (stage_write_inner s table record_id partial created_at ≡ ok u)
              × (stage_local_writes u extra_writes created_at ≡ ok t)
        committed h =
            let (u, one, h1) = >>=-inv _ _ h in
            let (v, rest, h2) = >>=-inv _ _ h1 in (u, one, rest ∙ ground arith)

    pub existing_live-IsBacked :
        IsStamped table record_id partial
        → AreStamped extra_writes
        → IsBacked s
        → stage_local_write_existing_live s table record_id partial extra_writes created_at
          ≡ ok (some t)
        → IsBacked t
    existing_live-IsBacked write extra b staged =
        let (u, one, rest) = existing_live-parts staged in
        stage_local_writes-IsBacked u extra_writes created_at extra
          (stage_write-IsBacked s table record_id partial created_at write b one) rest
