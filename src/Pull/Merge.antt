-- ===== src/Pull/Merge.antt =====
-- One row of a page in src/sync/pull.rs: its stamp, and the queue.
use braird_core.Prelude.{
  suc, ◌++◌, String, ℤ, ◌≡◌, ◌≤ℤ◌, refl, subst, Bool, true, false, ◌&&◌, Option, none, some, List,
  str_eq, if◌then◌else◌, unwrap_or, is_none, Bool-cases, inl, inr, arith,
}
use braird_core.Json
use braird_core.Json.{Value, Map, Serde, obj, str, as_bool, as_i64, as_str}
use braird_core.Store.State.{Store, Result, ok, get_row}
use braird_core.Store.Staging.{apply_row_rebasing_outbox}
use braird_core.Store.Rows.{row_stamp, local_updated}
use braird_core.Store.Stage.{>>=-inv}
use braird_core.Pull.{
  PageMerge, TableStats, local_stamp, should_apply, skip_tombstone, apply_winner, keep_local,
  merge_object, superseded_by, lacks_fillable,
}
use braird_core.Pull.Fill.{fill_null_book_columns-stamps, fill_null_book_columns-outbox}

abbrev pub is_deletion : Map → Bool
is_deletion row = unwrap_or (as_bool (Json.get "deleted" row)) false

module _ {Text : Type 0} ⦃serde : Serde Text⦄ (table id : String) (row : Map) where
  -- The ways that a row is merged.
  pub data Merged (m : PageMerge Text) : PageMerge Text → Type 0 where
    skipped :
        is_deletion row ≡ true → local_updated m.store table id ≡ none → Merged m (skip_tombstone m)
    won :
        {t : Store Text} {dropped : List (ℤ × ℤ)} (stats : TableStats)
        → should_apply (local_updated m.store table id) (row_stamp row) ≡ true
        → (is_deletion row && is_none (local_updated m.store table id)) ≡ false
        → apply_row_rebasing_outbox m.store table row (row_stamp row) ≡ ok (dropped, t)
        → Merged m (record m { store = t; stats = stats })
    kept :
        (local : Option Map) (old : ℤ)
        → local_updated m.store table id ≡ some old
        → row_stamp row ≤ℤ old
        → Merged m (keep_local table id row local m)

  module _ (m : PageMerge Text) where
    pub keep_local-stamps :
        (local : Option Map) (other j : String)
        → local_updated (keep_local table id row local m).store other j
          ≡ local_updated m.store other j
    keep_local-stamps local other j =
        elim (Bool-cases
          (str_eq table "books" && elim local [ none ↦ false | some r ↦ lacks_fillable r ])) [
            | inl e ↦
                unfold keep_local in rw e (fill_null_book_columns-stamps m.store id row other j)
            | inr e ↦ unfold keep_local in rw e refl
          ]

    pub keep_local-outbox :
        (local : Option Map) → (keep_local table id row local m).store.outbox ≡ m.store.outbox
    keep_local-outbox local =
        elim (Bool-cases
          (str_eq table "books" && elim local [ none ↦ false | some r ↦ lacks_fillable r ])) [
            | inl e ↦ unfold keep_local in rw e (fill_null_book_columns-outbox m.store id row)
            | inr e ↦ unfold keep_local in rw e refl
          ]

    read-local :
        (local : Option Map)
        → get_row m.store table id ≡ ok local
        → local_updated m.store table id ≡ local_stamp local
    unfolding local_updated local_stamp
    read-local local read = ground (arith, read)

    apply_winner-Merged :
        {after : PageMerge Text}
        → should_apply (local_updated m.store table id) (row_stamp row) ≡ true
        → (is_deletion row && is_none (local_updated m.store table id)) ≡ false
        → apply_winner table id row m ≡ ok after
        → Merged m after
    unfolding apply_winner
    apply_winner-Merged win live h =
        let (rebased, e, h1) =
          >>=-inv (apply_row_rebasing_outbox m.store table row (row_stamp row)) _ h in
        subst (Merged m) (unfold apply_winner in ground arith) (
          won
            (record m.stats {
              merged = suc m.stats.merged;
              superseded = m.stats.superseded ++ superseded_by table id (row_stamp row) rebased.0;
            })
            win live e)

    keep_local-Merged :
        (local : Option Map)
        → local_updated m.store table id ≡ local_stamp local
        → should_apply (local_stamp local) (row_stamp row) ≡ false
        → Merged m (keep_local table id row local m)
    unfolding should_apply local_stamp
    keep_local-Merged none stamp lose = absurd (ground arith)
    keep_local-Merged (some r) stamp lose = kept (some r) (row_stamp r) stamp (ground arith)

    -- What `merge_object` does once it has read the local row.
    decide : Option Map → Result (PageMerge Text)
    decide local =
        if is_deletion row && is_none (local_stamp local)
        then ok (skip_tombstone m)
        else if should_apply (local_stamp local) (row_stamp row)
        then apply_winner table id row m
        else ok (keep_local table id row local m)

    decide-Merged :
        {after : PageMerge Text} (local : Option Map)
        → local_updated m.store table id ≡ local_stamp local
        → decide local ≡ ok after
        → Merged m after
    unfolding decide
    decide-Merged local stamp h =
        elim (Bool-cases (is_deletion row && is_none (local_stamp local))) [
          | inl gone ↦
              subst (Merged m) (ground arith)
                (skipped (ground arith) (unfold local_stamp in ground arith))
          | inr live ↦ elim (Bool-cases (should_apply (local_stamp local) (row_stamp row))) [
            | inl win ↦ apply_winner-Merged (rw stamp win) (rw stamp live) (ground arith)
            | inr lose ↦ subst (Merged m) (ground arith) (keep_local-Merged local stamp lose)
          ]
        ]

    pub merge_object-Merged :
        {after : PageMerge Text} → merge_object table id row m ≡ ok after → Merged m after
    unfolding merge_object decide
    merge_object-Merged h =
        let (local, read, h1) = >>=-inv (get_row m.store table id) decide h in
        decide-Merged local (read-local local read) h1
