-- ===== src/Reconcile/Stranded/Repair.antt =====
-- One note of `reconcile_stranded_notes` of src/sync/reconcile.rs, rehomed or detached.
use braird_core.Prelude.{
  String, ℤ, true, in_i64, ◌≡◌, ◌≢◌, refl, ap, sym, ◌∙◌, subst, some, List, [], ◌∷◌, All, All-map,
  arith, eq_iff, inl, inr,
}
use braird_core.Json
use braird_core.Json.{Map, Serde, null, str, as_str, as_i64}
use braird_core.Json.Laws.{get-insert}
use braird_core.Store.State.{ok, Store, apply_row}
use braird_core.Store.Staging.{stage_local_write, stage_write_inner}
use braird_core.Store.Rows.{row_stamp, local_updated, local_updated-apply_row, outbox-apply_row}
use braird_core.Store.Stage.{stage_write_inner-Advances}
use braird_core.Store.Backed.{Backed, Backed-grow}
use braird_core.Store.Keyed.{apply_row-IsKeyed, stage_write-IsKeyed}
use braird_core.Store.Writes.{stage_write-IsBacked}
use braird_core.Store.Listed.{Differ, IsListed}
use braird_core.Reconcile.{row_str, rehome_patch}
use braird_core.Reconcile.Sound.{IsSound, notes-HasId, Result-cases, rehome_patch-IsStamped}
use braird_core.Reconcile.Stranded.{Pass, detached_row, rehome, detach}

module _ (row : Map) where
  detached_row-key :
      (id : String)
      → Json.get "id" row ≡ some (str id)
      → Json.get notes-HasId.schema.pk (detached_row row) ≡ some (str id)
  unfolding detached_row
  detached_row-key id key = ground (
    arith,
    notes-HasId.key,
    key,
    get-insert "content_tag" "id" null (Json.insert "book_id" null row),
    get-insert "book_id" "id" null row,
  )

  detached_row-stamp : row_stamp (detached_row row) ≡ row_stamp row
  unfolding detached_row row_stamp
  detached_row-stamp = ground (
    arith,
    get-insert "content_tag" "updated_at" null (Json.insert "book_id" null row),
    get-insert "book_id" "updated_at" null row,
  )

  pub row-id : (id : String) → Json.get "id" row ≡ some (str id) → row_str row "id" ≡ id
  unfolding row_str as_str
  row-id id key = rw key refl

module _ {Text : Type 0} ⦃serde : Serde Text⦄ where
  -- A note whose stored stamp is still the listed one.
  pub record IsFresh (s : Store Text) (row : Map) : Type 0 where
    pub id : String
    pub key : Json.get "id" row ≡ some (str id)
    pub stamp : local_updated s "notes" id ≡ some (row_stamp row)

  pub IsListed-IsFresh : (s : Store Text) (row : Map) → IsListed s "notes" row → IsFresh s row
  unfolding local_updated
  IsListed-IsFresh s row l = record { id = l.id; key = l.key; stamp = ground (arith, l.stored) }

  -- The notes with other ids stay as they were listed.
  module _ (s t : Store Text) (id : String) (row : Map) (key : Json.get "id" row ≡ some (str id))
      (same : (j : String) → id ≢ j → local_updated t "notes" j ≡ local_updated s "notes" j) where
    stays-IsFresh : (other : Map) → Differ row other → IsFresh s other → IsFresh t other
    stays-IsFresh other d f = record {
      id = f.id;
      key = f.key;
      stamp = same f.id (λ e. d (key ∙ ap (λ k. some (str k)) e ∙ sym f.key)) ∙ f.stamp;
    }

    stay-fresh :
        (rows : List Map) → All (Differ row) rows → All (IsFresh s) rows → All (IsFresh t) rows
    stay-fresh [] d f = tt
    stay-fresh (other ∷ rows) d f = (stays-IsFresh other d.0 f.0, stay-fresh rows d.1 f.1)

  -- A repaired note leaves a sound store, and the later notes as they were listed.
  pub record Leaves (rows : List Map) (p : Pass Text) : Type 0 where
    pub sound : IsSound p.store
    pub fresh : All (IsFresh p.store) rows

  -- A write of the note's row, by a transaction that keeps the store sound.
  module _ (row : Map) (rows : List Map) (apart : All (Differ row) rows) where
    pub rehome-Leaves :
        (p : Pass Text) (survivor : String) (now created_at : ℤ)
        → in_i64 now ≡ true
        → IsSound p.store
        → (f : IsFresh p.store row) → All (IsFresh p.store) rows
        → Leaves rows (rehome p f.id survivor now created_at)
    unfolding rehome stage_local_write
    rehome-Leaves p survivor now created_at range h f later =
        let patch = rehome_patch f.id (str survivor) now in
        let write = rehome_patch-IsStamped f.id (str survivor) now range in
        elim (Result-cases (stage_write_inner p.store "notes" f.id patch created_at)) [
          | inl (e, failure) ↦ rw (failure, rehome) (record { sound = h; fresh = later })
          | inr (t, staged) ↦
              let advance =
                stage_write_inner-Advances p.store "notes" f.id patch created_at write.schema
                  write.found write.key staged write.stamp write.stamped in
              rw (staged, rehome)
                (record {
                  sound = record {
                    backed =
                        stage_write-IsBacked p.store "notes" f.id patch created_at write h.backed
                          staged;
                    keyed =
                        stage_write-IsKeyed p.store "notes" f.id patch created_at write h.keyed
                          staged;
                  };
                  fresh =
                      stay-fresh p.store t f.id row f.key
                        (λ j other. ground (arith, advance.stored "notes" j, eq_iff f.id j)) rows
                        apart later;
                })
        ]

    -- The stamp of the note stays, and so does every other.
    module _ (p : Pass Text) (f : IsFresh p.store row) {t : Store Text}
        (applied : apply_row p.store "notes" (detached_row row) ≡ ok t) where
      local_updated-detach :
          (other j : String) → local_updated t other j ≡ local_updated p.store other j
      local_updated-detach other j = ground (
        arith,
        local_updated-apply_row p.store "notes" (detached_row row) notes-HasId.schema f.id
            notes-HasId.found (detached_row-key row f.id f.key) applied other j,
        detached_row-stamp row,
        f.stamp,
        eq_iff "notes" other,
        eq_iff f.id j,
      )

      detach-IsSound : IsSound p.store → IsSound t
      detach-IsSound h = record {
        backed =
            subst (All (Backed t))
              (sym (outbox-apply_row p.store "notes" (detached_row row) applied))
              (All-map p.store.outbox
                (λ r k.
                  Backed-grow p.store t r
                    (λ other j old stored.
                      (old, local_updated-detach other j ∙ stored, omega arith))
                    k)
                h.backed);
        keyed =
            apply_row-IsKeyed p.store "notes" (detached_row row) notes-HasId.schema f.id
              notes-HasId.found (detached_row-key row f.id f.key) applied h.keyed;
      }

    pub detach-Leaves :
        (p : Pass Text)
        → IsSound p.store
        → IsFresh p.store row
        → All (IsFresh p.store) rows
        → Leaves rows (detach p row)
    unfolding detach
    detach-Leaves p h f later = elim (Result-cases (apply_row p.store "notes" (detached_row row))) [
      | inl (e, failure) ↦ rw (failure, detach) (record { sound = h; fresh = later })
      | inr (t, applied) ↦
          rw (applied, detach)
            (record {
              sound = detach-IsSound p f applied h;
              fresh =
                  stay-fresh p.store t f.id row f.key
                    (λ j other. local_updated-detach p f applied "notes" j) rows apart later;
            })
    ]
