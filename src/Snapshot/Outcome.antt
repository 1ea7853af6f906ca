-- ===== src/Snapshot/Outcome.antt =====
-- What a merge of src/sync/export_import/merge.rs does to the store.
use braird_core.Prelude.{
  ℕ, String, ℤ, pos, max_ℤ, checked_add, in_i64, +ℤ_parts, ◌≤ℤ◌, ◌<ℤ◌, ◌≡◌, refl, ap, ◌∙◌, subst,
  true, Option, none, some, List, [], ◌∷◌, arith, All, All-map, if◌then◌else◌,
}
use braird_core.Json.{Map, Serde}
use braird_core.Crypto.{Bytes, Ciphers}
use braird_core.Crypto.Tag.{Macs}
use braird_core.Normalize.{Unicode}
use braird_core.Store.State.{ok, Store}
use braird_core.Store.Staging.{stage_import_batch}
use braird_core.Store.Rows.{local_updated}
use braird_core.Store.Backed.{IsBacked}
use braird_core.Store.Import.{stage_import_batch-IsBacked}
use braird_core.Store.Imported.{stage_import_batch-stamps}
use braird_core.Snapshot.{
  Answer, done, failed, ◌>>=◌, >>=-inv, done-injective, NormalizedRow, NormalizedImport,
  ImportSummary, owned_tables, flatten,
}
use braird_core.Snapshot.Select.{ServerRows, select_all}
use braird_core.Snapshot.Prepare.{prepare_all}
use braird_core.Snapshot.Prepared.{IsNormal}
use braird_core.Snapshot.Chosen.{IsOlder, server_updated, IsChosen, select_all-IsChosen}
use braird_core.Snapshot.Staged.{
  is_accepted, AreFor, AreFor-AreImports, AreFor-names, AreFor-AreAbove, prepare_all-AreFor,
}
use braird_core.Snapshot.Taken.{is_taken, select_all-taken}
use braird_core.Snapshot.Merge.{
  nothing_selected, batch_stamp, stage, stage_accepted, select_prepare_and_stage, or_unchanged,
  merge_pulled, merge_parsed_with_sink,
}
use braird_core.Snapshot.Fetch.{Lookup, sanitized, fetch_candidate_state}
use braird_core.Store.Schema.{synced_table_names}
use braird_core.Pull.{Source}
use braird_core.Pull.Pages.{TableFailure, no_result, pull}
use braird_core.Pull.Outcome.{pull-IsBacked}

batch_stamp_lem :
    (newest : Option ℤ) (import_now : ℤ) {stamp : ℤ}
    → batch_stamp newest import_now ≡ done stamp
    → in_i64 import_now ≡ true
    → (n : ℤ) × (newest ≡ some n) × (n <ℤ stamp) × (import_now ≤ℤ stamp) × (in_i64 stamp ≡ true)
unfolding batch_stamp checked_add max_ℤ
batch_stamp_lem none import_now h range = absurd (ground arith)
batch_stamp_lem (some n) import_now h range = (
  n,
  refl,
  ground (arith, +ℤ_parts n (pos 1)),
  ground (arith, +ℤ_parts n (pos 1)),
  ground (arith, +ℤ_parts n (pos 1)),
)

module _ {Text : Type 0} ⦃serde : Serde Text⦄ (s : Store Text) (server : ServerRows)
    (import_now : ℤ) where
  -- An accepted candidate is newer than the local row and the server's, and is outranked, as they
  -- are, by the batch's stamp, which is not before the import either.
  pub record IsOutranked (stamp : ℤ) (candidate : String × NormalizedRow) : Type 0 where
    pub newer_local :
        IsOlder (local_updated s candidate.0 candidate.1.primary_key) candidate.1.updated_at
    pub newer_server :
        IsOlder (server_updated server candidate.0 candidate.1.primary_key) candidate.1.updated_at
    pub above_archive : candidate.1.updated_at <ℤ stamp
    pub above_import : import_now ≤ℤ stamp

  -- What a merge of these candidates leaves behind.
  pub record Merges (candidates : List (String × NormalizedRow)) (t : Store Text) : Type 0 where
    pub accepted : List (String × NormalizedRow)
    pub stamp : ℤ
    -- the accepted records are those that a newer candidate is for
    pub taken :
        (other j : String) → is_accepted other j accepted ≡ is_taken s server other j candidates
    pub outranked : All (IsOutranked stamp) accepted
    -- each has the one stamp, and no other stamp changes
    pub stored :
        (other j : String)
        → local_updated t other j
          ≡ (if is_taken s server other j candidates then some stamp else local_updated s other j)
    pub backed : IsBacked t

  unchanged :
      (candidates : List (String × NormalizedRow))
      → ((other j : String) → is_accepted other j [] ≡ is_taken s server other j candidates)
      → IsBacked s
      → Merges candidates s
  unchanged candidates same b = record {
    accepted = [];
    stamp = pos 0;
    taken = same;
    outranked = tt;
    stored = λ other j. rw (← same other j) (unfold is_accepted in refl);
    backed = b;
  }

  module _ ⦃c : Ciphers⦄ (mk : Bytes) (n stamp : ℤ) (below : n <ℤ stamp)
      (now : import_now ≤ℤ stamp) where
    IsChosen-IsOutranked :
        (candidate : String × NormalizedRow)
        → IsChosen mk s server (some n) candidate
        → IsOutranked stamp candidate
    IsChosen-IsOutranked candidate chosen = record {
      newer_local = chosen.newer_local;
      newer_server = chosen.newer_server;
      above_archive = let own : candidate.1.updated_at ≤ℤ n = chosen.own in omega arith;
      above_import = now;
    }

    staged-Merges :
        (candidates accepted : List (String × NormalizedRow))
        (writes : List (String × String × Map)) {t : Store Text}
        → ((other j : String) → is_accepted other j accepted ≡ is_taken s server other j candidates)
        → All (IsChosen mk s server (some n)) accepted
        → AreFor stamp accepted writes
        → IsBacked s
        → stage_import_batch s writes stamp ≡ ok t
        → Merges candidates t
    staged-Merges candidates accepted writes same chosen for b staged =
        let imports = AreFor-AreImports stamp accepted writes for in
        let (t', staged', backed) =
          stage_import_batch-IsBacked stamp s writes stamp imports
            (AreFor-AreAbove mk s server n stamp below accepted writes chosen for) b in
        record {
          accepted = accepted;
          stamp = stamp;
          taken = same;
          outranked = All-map accepted IsChosen-IsOutranked chosen;
          stored = λ other j.
              rw (← same other j, ← AreFor-names stamp other j accepted writes for)
                (stage_import_batch-stamps stamp stamp s writes imports staged other j);
          backed = subst IsBacked (ground arith) backed;
        }

  module _ ⦃c : Ciphers⦄ ⦃u : Unicode⦄ ⦃m : Macs⦄ (mk : Bytes) (nonces : ℕ → Bytes)
      (range : in_i64 import_now ≡ true) (b : IsBacked s) where
    stage-ok :
        (writes : List (String × String × Map)) (stamp : ℤ) {t : Store Text}
        → stage mk nonces s writes stamp ≡ done t
        → stage_import_batch s writes stamp ≡ ok t
    unfolding stage
    stage-ok writes stamp h = ground arith

    stage_accepted-Merges :
        (candidates accepted : List (String × NormalizedRow)) (newest : Option ℤ) {t : Store Text}
        → ((other j : String) → is_accepted other j accepted ≡ is_taken s server other j candidates)
        → All (IsChosen mk s server newest) accepted
        → stage_accepted mk nonces s accepted newest import_now ≡ done t
        → Merges candidates t
    unfolding stage_accepted
    stage_accepted-Merges candidates [] newest same chosen h =
        subst (Merges candidates) (done-injective h) (unchanged candidates same b)
    stage_accepted-Merges candidates (first ∷ rest) newest same chosen h =
        let (stamp, stamped, h1) = >>=-inv (batch_stamp newest import_now) _ h in
        let (writes, prepared, h2) = >>=-inv (prepare_all mk nonces 0 (first ∷ rest) stamp) _ h1 in
        let (n, e, below, now, in_range) = batch_stamp_lem newest import_now stamped range in
        let chosen' = subst (λ o. All (IsChosen mk s server o) (first ∷ rest)) e chosen in
        staged-Merges mk n stamp below now candidates (first ∷ rest) writes same chosen'
          (prepare_all-AreFor mk s server n stamp below nonces in_range 0 (first ∷ rest) chosen'
            prepared)
          b (stage-ok writes stamp h2)

    -- A merge of an archive that succeeds takes exactly the records that have a candidate newer than
    -- the local row and the server's. It stores them all under one stamp, above the archive's and not
    -- before the import, changes no other stamp, and keeps every queued payload backed by its stored
    -- row.
    pub select_prepare_and_stage-Merges :
        (parsed : NormalizedImport) {t : Store Text} {summary : ImportSummary}
        → All IsNormal (flatten (owned_tables parsed))
        → select_prepare_and_stage mk nonces s parsed server import_now ≡ done (t, summary)
        → Merges (flatten (owned_tables parsed)) t
    unfolding select_prepare_and_stage
    select_prepare_and_stage-Merges parsed normal h =
        let (sel, selected, h1) =
          >>=-inv (select_all mk s server (flatten (owned_tables parsed)) nothing_selected) _ h in
        let (t', staged, e) =
          >>=-inv (stage_accepted mk nonces s sel.accepted sel.newest import_now) _ h1 in
        let chosen =
          select_all-IsChosen mk s server (flatten (owned_tables parsed)) nothing_selected normal
            selected tt in
        subst (Merges (flatten (owned_tables parsed)))
          (ap (λ (p : Store Text × ImportSummary). p.0) (done-injective e))
          (stage_accepted-Merges (flatten (owned_tables parsed)) sel.accepted sel.newest
            (λ other j.
              select_all-taken s server other j mk (flatten (owned_tables parsed)) nothing_selected
                selected
              ∙ (unfold is_accepted in refl))
            chosen staged)

module _ {Text : Type 0} ⦃serde : Serde Text⦄ ⦃c : Ciphers⦄ ⦃u : Unicode⦄ ⦃m : Macs⦄ (mk : Bytes)
    (nonces : ℕ → Bytes) where
  merge_pulled-IsBacked :
      (lookup : Lookup) (s : Store Text) (failures : List TableFailure) (parsed : NormalizedImport)
      (import_now : ℤ)
      → All IsNormal (flatten (owned_tables parsed))
      → in_i64 import_now ≡ true
      → IsBacked s
      → IsBacked (merge_pulled mk nonces lookup s failures parsed import_now).0
  unfolding merge_pulled or_unchanged
  merge_pulled-IsBacked lookup s (failure ∷ failures) parsed import_now normal range b = b
  merge_pulled-IsBacked lookup s [] parsed import_now normal range b =
      kept
        (fetch_candidate_state lookup parsed >>= λ server.
          select_prepare_and_stage mk nonces s parsed server import_now)
        λ t summary h.
          let (server, fetched, h1) = >>=-inv (fetch_candidate_state lookup parsed) _ h in
          (select_prepare_and_stage-Merges s server import_now mk nonces range b parsed normal
            h1).backed
    where
      kept :
          (answer : Answer (Store Text × ImportSummary))
          → ((t : Store Text) (summary : ImportSummary) → answer ≡ done (t, summary) → IsBacked t)
          → IsBacked (or_unchanged s answer).0
      kept (failed e) f = b
      kept (done (t, summary)) f = f t summary refl

  -- A merge from the server's pull to the last write keeps every queued payload backed by its stored
  -- row, whether it succeeds or fails.
  pub merge_parsed_with_sink-IsBacked :
      (source : Source) (lookup : Lookup) (s : Store Text) (parsed : NormalizedImport)
      (import_now : ℤ)
      → All IsNormal (flatten (owned_tables parsed))
      → in_i64 import_now ≡ true
      → IsBacked s
      → IsBacked (merge_parsed_with_sink mk nonces source lookup s parsed import_now).0
  unfolding merge_parsed_with_sink
  merge_parsed_with_sink-IsBacked source lookup s parsed import_now normal range b =
      let pulled = pull (sanitized source) synced_table_names [] s no_result in
      merge_pulled-IsBacked lookup pulled.0 pulled.1.failed_tables parsed import_now normal range
        (pull-IsBacked (sanitized source) synced_table_names [] s no_result b)
