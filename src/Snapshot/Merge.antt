-- ===== src/Snapshot/Merge.antt =====
-- `merge_parsed_with_sink` and `select_prepare_and_stage` of src/sync/export_import/merge.rs. A merge
-- that fails may have pulled: it comes with the store that it leaves.
use braird_core.Prelude.{ℕ, String, ℤ, pos, Option, none, some, List, [], ◌∷◌, max_ℤ, checked_add}
use braird_core.Json.{Map, Serde}
use braird_core.Crypto.{Bytes, Ciphers}
use braird_core.Crypto.Tag.{Macs}
use braird_core.Normalize.{Unicode}
use braird_core.Store.Schema.{synced_table_names}
use braird_core.Store.State.{ok, err, Store}
use braird_core.Store.Staging.{stage_import_batch}
use braird_core.Pull.{Source}
use braird_core.Pull.Pages.{TableFailure, no_result, pull}
use braird_core.Snapshot.{
  store_failed, preflight_failed, invalid_import, Answer, done, failed, ◌>>=◌, done_or,
  NormalizedRow, NormalizedImport, ImportSummary, no_counts, owned_tables, flatten,
}
use braird_core.Snapshot.Select.{ServerRows, Selection, select_all}
use braird_core.Snapshot.Prepare.{prepare_all}
use braird_core.Snapshot.Fetch.{Lookup, sanitized, fetch_candidate_state}

abbrev pub nothing_selected : Selection
nothing_selected = record {
  imported = no_counts;
  skipped_stale = no_counts;
  accepted = [];
  newest = none;
}

unfoldable pub summary_of : ℕ → Selection → ImportSummary
summary_of schema_version sel = record {
  schema_version = schema_version;
  imported = sel.imported;
  skipped_stale = sel.skipped_stale;
}

-- The stamp of the batch. That some stamp was compared is the `expect` of the source.
unfoldable pub batch_stamp : Option ℤ → ℤ → Answer ℤ
batch_stamp none import_now = failed invalid_import
batch_stamp (some newest) import_now =
    done_or invalid_import (checked_add newest (pos 1)) >>= λ advanced.
    done (max_ℤ import_now advanced)

-- What a step leaves behind, where it fails in that store.
unfoldable pub or_unchanged :
    {Text : Type 0}
    → Store Text
    → Answer (Store Text × ImportSummary)
    → Store Text × Answer ImportSummary
or_unchanged s (failed e) = (s, failed e)
or_unchanged s (done (t, summary)) = (t, done summary)

module _ {Text : Type 0} ⦃serde : Serde Text⦄ ⦃c : Ciphers⦄ ⦃u : Unicode⦄ ⦃m : Macs⦄ (mk : Bytes)
    (nonces : ℕ → Bytes) where
  -- The transaction: its failures are those of the store.
  unfoldable pub stage : Store Text → List (String × String × Map) → ℤ → Answer (Store Text)
  stage s writes batch_timestamp = elim (stage_import_batch s writes batch_timestamp) [
    | err e ↦ failed store_failed
    | ok t ↦ done t
  ]

  unfoldable pub stage_accepted :
      Store Text → List (String × NormalizedRow) → Option ℤ → ℤ → Answer (Store Text)
  stage_accepted s [] newest import_now = done s
  stage_accepted s (first ∷ rest) newest import_now =
      batch_stamp newest import_now >>= λ batch_timestamp.
      prepare_all mk nonces 0 (first ∷ rest) batch_timestamp >>= λ writes.
      stage s writes batch_timestamp

  unfoldable pub select_prepare_and_stage :
      Store Text → NormalizedImport → ServerRows → ℤ → Answer (Store Text × ImportSummary)
  select_prepare_and_stage s parsed server import_now =
      select_all mk s server (flatten (owned_tables parsed)) nothing_selected >>= λ sel.
      stage_accepted s sel.accepted sel.newest import_now >>= λ t.
      done (t, summary_of parsed.schema_version sel)

  unfoldable pub merge_pulled :
      Lookup
      → Store Text
      → List TableFailure
      → NormalizedImport
      → ℤ
      → Store Text × Answer ImportSummary
  merge_pulled lookup s [] parsed import_now = or_unchanged s (
      fetch_candidate_state lookup parsed >>= λ server.
      select_prepare_and_stage s parsed server import_now)
  merge_pulled lookup s (failure ∷ failures) parsed import_now = (s, failed preflight_failed)

  unfoldable pub merge_parsed_with_sink :
      Source → Lookup → Store Text → NormalizedImport → ℤ → Store Text × Answer ImportSummary
  merge_parsed_with_sink source lookup s parsed import_now =
      let pulled = pull (sanitized source) synced_table_names [] s no_result in
      merge_pulled lookup pulled.0 pulled.1.failed_tables parsed import_now
