-- ===== src/System.antt =====
-- The operations of src/store.rs, src/sync/pull.rs and src/sync/push.rs in any order, on one store.
pub mod Examples
use braird_core.Prelude.{
  ℕ, in_i64, true, String, ℤ, ◌≡◌, refl, ap, sym, subst, Option, some, none, List, [], ◌∷◌, All,
  arith,
}
use braird_core.Json.{Map, Serde}
use braird_core.Store.State.{ok, Store}
use braird_core.Store.Staging.{
  stage_local_write, stage_local_writes, stage_local_write_resurrecting,
  stage_local_write_existing_live, stage_import_batch, stage_write_inner,
}
use braird_core.Store.Backed.{IsBacked, Backed}
use braird_core.Store.Import.{AreImports, AreAbove, stage_import_batch-IsBacked}
use braird_core.Store.Writes.{
  IsStamped, AreStamped, stage_write-IsBacked, resurrecting-IsBacked, stage_local_writes-IsBacked,
  existing_live-IsBacked,
}
use braird_core.Pull.{Source, PageRequest}
use braird_core.Pull.Pages.{PullResult, pull}
use braird_core.Pull.Outcome.{pull-IsBacked}
use braird_core.Crypto.{Bytes, Ciphers}
use braird_core.Crypto.Tag.{Macs}
use braird_core.Normalize.{Unicode}
use braird_core.Snapshot.{NormalizedRow, NormalizedImport, owned_tables, flatten}
use braird_core.Snapshot.Prepared.{IsNormal}
use braird_core.Snapshot.Fetch.{Lookup}
use braird_core.Snapshot.Merge.{merge_parsed_with_sink}
use braird_core.Snapshot.Outcome.{merge_parsed_with_sink-IsBacked}
use braird_core.Store.Keyed.{IsKeyed}
use braird_core.Store.Listing.{Scan}
use braird_core.Reconcile.Stranded.{reconcile_stranded_notes}
use braird_core.Reconcile.Stranded.Kept.{reconcile_stranded_notes-IsSound}
use braird_core.Reconcile.Duplicates.{BookMergeUndo, merge_books}
use braird_core.Reconcile.Duplicates.Kept.{merge_books-IsSound}
use braird_core.Reconcile.Duplicates.Undo.{unmerge_books}
use braird_core.Reconcile.Duplicates.Restored.{unmerge_books-IsSound}
use braird_core.Push.{Server, FlushRun}
use braird_core.Push.Flush.{flush}
use braird_core.Push.Outcome.{flush-IsBacked}

module _ {Text : Type 0} ⦃serde : Serde Text⦄ where
  -- One committed transaction, one pull of some tables, one flush, or one merge.
  pub data Step (s : Store Text) : Store Text → Type 0 where
    writes :
        {t : Store Text} (table record_id : String) (partial : Map) (created_at : ℤ)
        → IsStamped table record_id partial
        → stage_local_write s table record_id partial created_at ≡ ok t
        → Step s t
    resurrects :
        {t : Store Text} (table record_id : String) (partial : Map) (created_at : ℤ)
        → IsStamped table record_id partial
        → stage_local_write_resurrecting s table record_id partial created_at ≡ ok t
        → Step s t
    writes_all :
        {t : Store Text} (rows : List (String × String × Map)) (created_at : ℤ)
        → AreStamped rows
        → stage_local_writes s rows created_at ≡ ok t
        → Step s t
    edits :
        {t : Store Text} (table record_id : String) (partial : Map)
        (extra_writes : List (String × String × Map)) (created_at : ℤ)
        → IsStamped table record_id partial
        → AreStamped extra_writes
        → stage_local_write_existing_live s table record_id partial extra_writes created_at
          ≡ ok (some t)
        → Step s t
    imports :
        {t : Store Text} (stamp : ℤ) (rows : List (String × String × Map)) (batch_timestamp : ℤ)
        → AreImports stamp rows
        → AreAbove stamp s rows
        → stage_import_batch s rows batch_timestamp ≡ ok t
        → Step s t
    pulls :
        {t : Store Text} (source : Source) (tables : List String) (asked : List PageRequest)
        (result : PullResult)
        → (pull source tables asked s result).0 ≡ t
        → Step s t
    flushes :
        {t : Store Text} (server : Server) (user_id : String) (run : FlushRun)
        → flush server user_id s ≡ some (t, run)
        → Step s t
    merges :
        {t : Store Text} (c : Ciphers) (u : Unicode) (m : Macs) (mk : Bytes) (nonces : ℕ → Bytes)
        (source : Source) (lookup : Lookup) (parsed : NormalizedImport) (import_now : ℤ)
        → All IsNormal (flatten (owned_tables parsed))
        → in_i64 import_now ≡ true
        → (merge_parsed_with_sink ⦃c = c⦄ ⦃u = u⦄ ⦃m = m⦄ mk nonces source lookup s parsed
            import_now).0
          ≡ t
        → Step s t
    -- SQLite keeps a row under its primary key.
    merges_books :
        {t : Store Text} (scan : Scan Text) (survivor_id : String) (now : ℤ)
        (loser_ids : List String)
        → in_i64 now ≡ true
        → IsKeyed s
        → (merge_books scan survivor_id now loser_ids s).0 ≡ t
        → Step s t
    unmerges_books :
        {t : Store Text} (now : ℤ) (undo : BookMergeUndo)
        → in_i64 now ≡ true
        → IsKeyed s
        → (unmerge_books now undo s).0 ≡ t
        → Step s t
    repairs :
        {t : Store Text} (scan : Scan Text) (clock : ℕ → ℤ)
        → ((n : ℕ) → in_i64 (clock n) ≡ true)
        → s.keyless ≡ []
        → IsKeyed s
        → (reconcile_stranded_notes scan clock s).0 ≡ t
        → Step s t

  -- The stores that come of some store with nothing queued.
  pub data Reach : Store Text → Type 0 where
    start : {s : Store Text} → s.outbox ≡ [] → Reach s
    later : {s t : Store Text} → Reach s → Step s t → Reach t

  Step-IsBacked : {s t : Store Text} → IsBacked s → Step s t → IsBacked t
  unfolding stage_local_write
  Step-IsBacked {s} b (writes table record_id partial created_at write staged) =
      stage_write-IsBacked s table record_id partial created_at write b staged
  Step-IsBacked {s} b (resurrects table record_id partial created_at write staged) =
      resurrecting-IsBacked s table record_id partial created_at write b staged
  Step-IsBacked {s} b (writes_all rows created_at stamped staged) =
      stage_local_writes-IsBacked s rows created_at stamped b staged
  Step-IsBacked {s} b (edits table record_id partial extra_writes created_at write extra staged) =
      existing_live-IsBacked s table record_id partial extra_writes created_at write extra b staged
  Step-IsBacked {s} {t} b (imports stamp rows batch_timestamp imported above staged) =
      let (u, staged', c) =
        stage_import_batch-IsBacked stamp s rows batch_timestamp imported above b in
      subst IsBacked (ground arith) c
  Step-IsBacked {s} b (pulls source tables asked result e) =
      subst IsBacked e (pull-IsBacked source tables asked s result b)
  Step-IsBacked {s} b (flushes server user_id run e) = flush-IsBacked server user_id s e b
  Step-IsBacked {s} b (merges c u m mk nonces source lookup parsed import_now normal range e) =
      subst IsBacked e (
        merge_parsed_with_sink-IsBacked ⦃c = c⦄ ⦃u = u⦄ ⦃m = m⦄ mk nonces source lookup s parsed
          import_now normal range b)
  Step-IsBacked {s} b (merges_books scan survivor_id now loser_ids range keyed e) =
      subst IsBacked e
        (merge_books-IsSound scan survivor_id now range loser_ids s
          (record { backed = b; keyed = keyed })).backed
  Step-IsBacked {s} b (unmerges_books now undo range keyed e) =
      subst IsBacked e
        (unmerge_books-IsSound now range undo s (record { backed = b; keyed = keyed })).backed
  Step-IsBacked {s} b (repairs scan clock range none_keyless keyed e) =
      subst IsBacked e
        (reconcile_stranded_notes-IsSound scan clock s range none_keyless
          (record { backed = b; keyed = keyed })).backed

  -- No queued payload carries a stamp above that of its stored row, from a store with nothing queued
  -- on, however these steps follow each other: local writes of known tables with their keys and an
  -- `i64` stamp; imports of such rows under one stamp that is not below the stored stamp of any row
  -- that they write; merges of archives whose rows are of known tables and carry their keys; merges
  -- of books and their undo, in a store whose rows stand under their own keys; repairs of stranded
  -- notes in such a store without keyless rows; pulls; and flushes. The clocks of the merges and the
  -- repairs read an `i64`.
  pub Reach-IsBacked : {s : Store Text} → Reach s → IsBacked s
  Reach-IsBacked {s} (start e) = subst (All (Backed s)) (sym e) tt
  Reach-IsBacked (later r step) = Step-IsBacked (Reach-IsBacked r) step
