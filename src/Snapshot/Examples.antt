-- ===== src/Snapshot/Examples.antt =====
-- A merge of src/sync/export_import/merge.rs into an empty store, and its theorems there.
use braird_core.Prelude.{
  false, checked_add, max_ℤ, ◌+ℤ◌, ℕ, pos, ◌≡◌, refl, Option, none, [], ◌∷◌, All,
}
use braird_core.Json
use braird_core.Json.{Value, Map, str, num, int, empty, entry}
use braird_core.Json.Kept.{kept_value}
use braird_core.Crypto.{Bytes}
use braird_core.Crypto.Plain.{plain, zeros}
use braird_core.Crypto.Tag.{Macs}
use braird_core.Normalize.{Unicode}
use braird_core.Store.State.{Store, get_row, schema_or_err, apply_row}
use braird_core.Store.Schema.{table_schema}
use braird_core.Store.Backed.{IsBacked}
use braird_core.Store.Examples.{fresh, notes, notes-found}
use braird_core.Pull.{Source, page}
use braird_core.Snapshot.{
  Answer, done, failed, NormalizedRow, NormalizedImport, ImportSummary, owned_tables, flatten,
  no_counts, increment, count_one,
}
use braird_core.Snapshot.Select.{
  ServerRows, select_all, select_one, local_row, state_timestamp, is_outdated, newer_of, accept,
  keep_book,
}
use braird_core.Snapshot.Prepare.{
  prepare_all, prepare_write, seal_note, nullable_text, sealed_text, book_of, seal_url,
  complete_row,
}
use braird_core.Store.Staging.{stage_import_batch}
use braird_core.Snapshot.Prepared.{IsNormal}
use braird_core.Snapshot.Fetch.{Lookup}
use braird_core.Snapshot.Merge.{
  stage_accepted, batch_stamp, stage, select_prepare_and_stage, merge_parsed_with_sink,
}
use braird_core.Snapshot.Outcome.{
  Merges, select_prepare_and_stage-Merges, merge_parsed_with_sink-IsBacked,
}

instance letters : Unicode
letters = record {
  nfkc = λ s. s;
  to_lowercase = λ s. s;
  is_control = λ c. false;
  is_whitespace = λ c. false;
  is_space_separator = λ c. false;
  is_punctuation = λ c. false;
}

instance macs : Macs
macs = record { hkdf_expand = λ salt ikm info n. []; hmac_hex = λ key message. "tag" }

abbrev nonces : ℕ → Bytes
nonces n = zeros 12

-- A note without a text, changed at 5.
abbrev row : NormalizedRow
row = record {
  primary_key = "n1";
  row = entry "id" (str "n1") (entry "updated_at" (num (int (pos 5))) empty);
  updated_at = pos 5;
}

abbrev archive : NormalizedImport
archive = record {
  schema_version = 19;
  books = [];
  notes = row ∷ [];
  custom_ideas = [];
  note_links = [];
  lenses = [];
  collections = [];
  collection_memberships = [];
  note_signals = [];
}

archive-IsNormal : All IsNormal (flatten (owned_tables archive))
unfolding flatten owned_tables
archive-IsNormal = (
  record { schema = notes; found = notes-found; key = unfold notes table_schema Json.get in refl },
  tt,
)

abbrev server : ServerRows
server table id = none

abbrev merged : Answer (Store (Option Value) × ImportSummary)
merged = select_prepare_and_stage (zeros 32) nonces fresh archive server (pos 7)

unfoldable after : Store (Option Value) × ImportSummary
unfolding select_prepare_and_stage
after = elim merged [
  | done result ↦ result
  | failed e ↦
      (fresh, record { schema_version = 0; imported = no_counts; skipped_stale = no_counts })
]

merges : merged ≡ done (after.0, after.1)
unfolding after select_prepare_and_stage select_all flatten owned_tables select_one local_row
    get_row schema_or_err table_schema state_timestamp is_outdated newer_of accept increment
    count_one stage_accepted batch_stamp checked_add max_ℤ ◌+ℤ◌ prepare_all prepare_write seal_note
    nullable_text sealed_text book_of seal_url complete_row keep_book Json.get Json.insert
    Json.place Json.remove stage stage_import_batch apply_row
merges = refl

select_prepare_and_stage-Merges_example :
    Merges fresh server (pos 7) (flatten (owned_tables archive)) after.0
select_prepare_and_stage-Merges_example =
    select_prepare_and_stage-Merges fresh server (pos 7) (zeros 32) nonces refl tt archive
      archive-IsNormal merges

-- A server that has nothing
abbrev source : Source
source asked request = page []

abbrev lookup : Lookup
lookup asked request = page []

merge_parsed_with_sink-IsBacked_example :
    IsBacked (merge_parsed_with_sink (zeros 32) nonces source lookup fresh archive (pos 7)).0
merge_parsed_with_sink-IsBacked_example =
    merge_parsed_with_sink-IsBacked (zeros 32) nonces source lookup fresh archive (pos 7)
      archive-IsNormal refl tt
