-- ===== src/Snapshot/Chosen.antt =====
-- Which candidates `select_prepare_and_stage` of src/sync/export_import/merge.rs accepts.
use braird_core.Prelude.{
  String, ℤ, ◌≤ℤ◌, ◌<ℤ◌, max_ℤ, ◌≡◌, refl, ◌∙◌, subst, false, Option, none, some, List, [], ◌∷◌,
  arith, All, All-map, All-append, Bool-cases, inl, inr,
}
use braird_core.Json
use braird_core.Json.{Map, Serde, as_i64, str}
use braird_core.Crypto.{Bytes, Ciphers}
use braird_core.Store.Columns.{table_schema-HasPlainKey}
use braird_core.Store.State.{Store}
use braird_core.Store.Rows.{local_updated, row_stamp}
use braird_core.Snapshot.{preflight_failed, done, >>=-inv, done-injective, NormalizedRow, increment}
use braird_core.Snapshot.Select.{
  ServerRows, stamp_of, state_timestamp, newer_of, is_outdated, keep_book, existing_rows, Selection,
  local_row, accept, skip, select_one, select_all,
}
use braird_core.Snapshot.Complete.{get-keep_book}
use braird_core.Snapshot.Prepared.{IsNormal}

-- A stamp, where there is one, that is at most the newest, and one that is below a candidate's.

abbrev pub IsCovered : Option ℤ → Option ℤ → Type 0
IsCovered newest none = Unit
IsCovered none (some a) = ⊥
IsCovered (some n) (some a) = a ≤ℤ n

abbrev pub IsOlder : Option ℤ → ℤ → Type 0
IsOlder none updated = Unit
IsOlder (some a) updated = a <ℤ updated

newer_of-left : (n a b : Option ℤ) → IsCovered n a → IsCovered (newer_of n b) a
unfolding newer_of max_ℤ
newer_of-left none none b h = tt
newer_of-left none (some a) b h = absurd h
newer_of-left (some n) none b h = tt
newer_of-left (some n) (some a) none h = h
newer_of-left (some n) (some a) (some b) h = ground arith

newer_of-right : (n b : Option ℤ) → IsCovered (newer_of n b) b
unfolding newer_of max_ℤ
newer_of-right none none = tt
newer_of-right none (some b) = omega arith
newer_of-right (some n) none = tt
newer_of-right (some n) (some b) = ground arith

fresh-IsOlder :
    (lu su : Option ℤ) (updated : ℤ)
    → is_outdated (newer_of lu su) updated ≡ false
    → IsOlder lu updated × IsOlder su updated
unfolding is_outdated newer_of max_ℤ
fresh-IsOlder none none updated h = (tt, tt)
fresh-IsOlder none (some b) updated h = ground arith
fresh-IsOlder (some a) none updated h = ground arith
fresh-IsOlder (some a) (some b) updated h = ground arith

-- The server's stamp of a record, none where it has no row or no stamp.
unfoldable pub server_updated : ServerRows → String → String → Option ℤ
server_updated server table id = elim (server table id) [
  | none ↦ none
  | some row ↦ as_i64 (Json.get "updated_at" row)
]

pub local_stamp :
    {Text : Type 0} ⦃serde : Serde Text⦄ (s : Store Text) (table id : String) (local : Option Map)
    {lu : Option ℤ}
    → local_row s table id ≡ done local
    → state_timestamp local ≡ done lu
    → local_updated s table id ≡ lu
unfolding local_row state_timestamp stamp_of local_updated row_stamp
local_stamp s table id none read h = ground arith
local_stamp s table id (some row) read h = ground arith

pub server_stamp :
    (server : ServerRows) (table id : String) (o : Option Map) {su : Option ℤ}
    → server table id ≡ o
    → stamp_of preflight_failed o ≡ done su
    → server_updated server table id ≡ su
unfolding stamp_of server_updated
server_stamp server table id none e h = ground arith
server_stamp server table id (some row) e h = ground arith

module _ {Text : Type 0} ⦃serde : Serde Text⦄ ⦃c : Ciphers⦄ (mk : Bytes) (s : Store Text)
    (server : ServerRows) where
  -- An accepted candidate: it is newer than the local row and the server's, and the newest stamp is
  -- at least each of the three.
  pub record IsChosen (newest : Option ℤ) (candidate : String × NormalizedRow) : Type 0 where
    pub normal : IsNormal candidate
    pub local : IsCovered newest (local_updated s candidate.0 candidate.1.primary_key)
    pub server_side : IsCovered newest (server_updated server candidate.0 candidate.1.primary_key)
    pub own : IsCovered newest (some candidate.1.updated_at)
    pub newer_local :
        IsOlder (local_updated s candidate.0 candidate.1.primary_key) candidate.1.updated_at
    pub newer_server :
        IsOlder (server_updated server candidate.0 candidate.1.primary_key) candidate.1.updated_at

  IsChosen-later :
      (newest b : Option ℤ) (candidate : String × NormalizedRow)
      → IsChosen newest candidate
      → IsChosen (newer_of newest b) candidate
  IsChosen-later newest b candidate h = record {
    normal = h.normal;
    local = newer_of-left newest (local_updated s candidate.0 candidate.1.primary_key) b h.local;
    server_side =
        newer_of-left newest (server_updated server candidate.0 candidate.1.primary_key) b
          h.server_side;
    own = newer_of-left newest (some candidate.1.updated_at) b h.own;
    newer_local = h.newer_local;
    newer_server = h.newer_server;
  }

  module _ (table : String) (candidate : NormalizedRow) (local : Option Map) (lu su : Option ℤ)
      (sel : Selection) (normal : IsNormal (table, candidate))
      (here : local_updated s table candidate.primary_key ≡ lu)
      (there : server_updated server table candidate.primary_key ≡ su)
      (fresh : is_outdated (newer_of lu su) candidate.updated_at ≡ false) where
    abbrev id : String
    id = candidate.primary_key

    abbrev kept : NormalizedRow
    kept = record candidate {
      row = keep_book mk table id (existing_rows local (server table id) lu su) candidate.row;
    }

    abbrev newest : Option ℤ
    newest = newer_of (newer_of (newer_of sel.newest (some candidate.updated_at)) lu) su

    kept-IsNormal : IsNormal (table, kept)
    kept-IsNormal =
        let plain = table_schema-HasPlainKey table normal.schema normal.found in
        record {
          schema = normal.schema;
          found = normal.found;
          key =
              get-keep_book mk id normal.schema.pk table
                (existing_rows local (server table id) lu su) candidate.row plain.status plain.kind
                plain.url
              ∙ normal.key;
        }

    kept-IsChosen : IsChosen newest (table, kept)
    kept-IsChosen =
        let own = newer_of sel.newest (some candidate.updated_at) in
        record {
          normal = kept-IsNormal;
          local = rw here (newer_of-left (newer_of own lu) lu su (newer_of-right own lu));
          server_side = rw there (newer_of-right (newer_of own lu) su);
          own = newer_of-left (newer_of own lu) (some candidate.updated_at) su (
              newer_of-left own (some candidate.updated_at) lu
                (newer_of-right sel.newest (some candidate.updated_at)));
          newer_local = rw here (fresh-IsOlder lu su candidate.updated_at fresh).0;
          newer_server = rw there (fresh-IsOlder lu su candidate.updated_at fresh).1;
        }

    accept-IsChosen :
        {next : Selection}
        → accept mk s server table candidate local lu su sel ≡ done next
        → All (IsChosen sel.newest) sel.accepted
        → All (IsChosen next.newest) next.accepted
    unfolding accept
    accept-IsChosen h all =
        let (imported, counted, e) = >>=-inv (increment sel.imported table) _ h in
        let own = some candidate.updated_at in
        subst (λ (n : Selection). All (IsChosen n.newest) n.accepted) (done-injective e)
          (All-append (IsChosen newest) sel.accepted ((table, kept) ∷ [])
            (All-map sel.accepted
              (λ chosen k. IsChosen-later (newer_of (newer_of sel.newest own) lu) su chosen (
                IsChosen-later (newer_of sel.newest own) lu chosen
                  (IsChosen-later sel.newest own chosen k)))
              all)
            (kept-IsChosen, tt))

  skip-IsChosen :
      (table : String) (sel : Selection) {next : Selection}
      → skip table sel ≡ done next
      → All (IsChosen sel.newest) sel.accepted
      → All (IsChosen next.newest) next.accepted
  unfolding skip
  skip-IsChosen table sel h all =
      let (skipped, counted, e) = >>=-inv (increment sel.skipped_stale table) _ h in
      subst (λ (n : Selection). All (IsChosen n.newest) n.accepted) (done-injective e) all

  select_one-IsChosen :
      (candidate : String × NormalizedRow) (sel : Selection) {next : Selection}
      → IsNormal candidate
      → select_one mk s server candidate sel ≡ done next
      → All (IsChosen sel.newest) sel.accepted
      → All (IsChosen next.newest) next.accepted
  unfolding select_one
  select_one-IsChosen (table, candidate) sel normal h all =
      let id = candidate.primary_key in
      let (local, read, h1) = >>=-inv (local_row s table id) _ h in
      let (lu, stamped, h2) = >>=-inv (state_timestamp local) _ h1 in
      let (su, answered, h3) = >>=-inv (stamp_of preflight_failed (server table id)) _ h2 in
      elim (Bool-cases (is_outdated (newer_of lu su) candidate.updated_at)) [
        | inl stale ↦ skip-IsChosen table sel (rw stale at h3) all
        | inr fresh ↦
            accept-IsChosen table candidate local lu su sel normal
              (local_stamp s table id local read stamped)
              (server_stamp server table id (server table id) refl answered) fresh (rw fresh at h3)
              all
      ]

  -- Every accepted candidate is newer than the local row and the server's, and each of their three
  -- stamps is at most the newest that was compared.
  pub select_all-IsChosen :
      (candidates : List (String × NormalizedRow)) (sel : Selection) {final : Selection}
      → All IsNormal candidates
      → select_all mk s server candidates sel ≡ done final
      → All (IsChosen sel.newest) sel.accepted
      → All (IsChosen final.newest) final.accepted
  unfolding select_all
  select_all-IsChosen [] sel normal h all =
      subst (λ (n : Selection). All (IsChosen n.newest) n.accepted) (done-injective h) all
  select_all-IsChosen (candidate ∷ candidates) sel (normal, rest) h all =
      let (next, one, h') = >>=-inv (select_one mk s server candidate sel) _ h in
      select_all-IsChosen candidates next rest h' (select_one-IsChosen candidate sel normal one all)
