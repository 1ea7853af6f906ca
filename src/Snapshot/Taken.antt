-- ===== src/Snapshot/Taken.antt =====
-- Which records a merge of src/sync/export_import/merge.rs takes, by the stamps alone.
use braird_core.Prelude.{
  String, ℤ, ltb_ℤ, max_ℤ, ◌≡◌, refl, Bool, true, false, not, ◌&&◌, ◌||◌, Option, none, some, List,
  [], ◌∷◌, ◌++◌, str_eq, arith, Bool-cases, inl, inr,
}
use braird_core.Json.{Map, Serde}
use braird_core.Crypto.{Bytes, Ciphers}
use braird_core.Store.State.{Store}
use braird_core.Store.Rows.{local_updated}
use braird_core.Snapshot.{done, >>=-inv, done-injective, preflight_failed, NormalizedRow, increment}
use braird_core.Snapshot.Select.{
  ServerRows, stamp_of, state_timestamp, newer_of, is_outdated, Selection, local_row, accept, skip,
  select_one, select_all,
}
use braird_core.Snapshot.Chosen.{server_updated, local_stamp, server_stamp}
use braird_core.Snapshot.Staged.{is_accepted}

-- Whether a stamp is after another, where there is another.

unfoldable pub outdates : Option ℤ → ℤ → Bool
outdates none updated = true
outdates (some a) updated = ltb_ℤ a updated

outdates-is_outdated :
    (lu su : Option ℤ) (updated : ℤ)
    → (outdates lu updated && outdates su updated) ≡ not (is_outdated (newer_of lu su) updated)
unfolding outdates is_outdated newer_of max_ℤ
outdates-is_outdated none none updated = refl
outdates-is_outdated none (some b) updated = ground arith
outdates-is_outdated (some a) none updated = ground arith
outdates-is_outdated (some a) (some b) updated = ground arith

is_accepted-snoc :
    (other j table : String) (candidate : NormalizedRow) (accepted : List (String × NormalizedRow))
    → is_accepted other j (accepted ++ (table, candidate) ∷ [])
      ≡ (is_accepted other j accepted || (str_eq table other && str_eq candidate.primary_key j))
unfolding is_accepted
is_accepted-snoc other j table candidate [] = ground arith
is_accepted-snoc other j table candidate ((t, c) ∷ accepted) =
    ground (arith, is_accepted-snoc other j table candidate accepted)

module _ {Text : Type 0} ⦃serde : Serde Text⦄ (s : Store Text) (server : ServerRows)
    (other j : String) where
  -- Whether a candidate for the record is newer than the local row and the server's.
  unfoldable pub is_newer : String × NormalizedRow → Bool
  is_newer (table, candidate) =
      (str_eq table other && str_eq candidate.primary_key j)
      && (outdates (local_updated s table candidate.primary_key) candidate.updated_at
          && outdates (server_updated server table candidate.primary_key) candidate.updated_at)

  unfoldable pub is_taken : List (String × NormalizedRow) → Bool
  unfolding is_newer
  is_taken [] = false
  is_taken (candidate ∷ candidates) = is_newer candidate || is_taken candidates

  module _ ⦃c : Ciphers⦄ (mk : Bytes) where
    skip-accepted :
        (table : String) (sel : Selection) {next : Selection}
        → skip table sel ≡ done next
        → is_accepted other j next.accepted ≡ is_accepted other j sel.accepted
    unfolding skip
    skip-accepted table sel h =
        let (skipped, counted, e) = >>=-inv (increment sel.skipped_stale table) _ h in
        rw (← done-injective e) refl

    accept-accepted :
        (table : String) (candidate : NormalizedRow) (local : Option Map) (lu su : Option ℤ)
        (sel : Selection) {next : Selection}
        → accept mk s server table candidate local lu su sel ≡ done next
        → is_accepted other j next.accepted ≡ (
            is_accepted other j sel.accepted
            || (str_eq table other && str_eq candidate.primary_key j))
    unfolding accept
    accept-accepted table candidate local lu su sel h =
        let (imported, counted, e) = >>=-inv (increment sel.imported table) _ h in
        rw (← done-injective e) (is_accepted-snoc other j table _ sel.accepted)

    select_one-accepted :
        (candidate : String × NormalizedRow) (sel : Selection) {next : Selection}
        → select_one mk s server candidate sel ≡ done next
        → is_accepted other j next.accepted
          ≡ (is_accepted other j sel.accepted || is_newer candidate)
    unfolding select_one is_newer
    select_one-accepted (table, candidate) sel h =
        let id = candidate.primary_key in
        let (local, read, h1) = >>=-inv (local_row s table id) _ h in
        let (lu, stamped, h2) = >>=-inv (state_timestamp local) _ h1 in
        let (su, answered, h3) = >>=-inv (stamp_of preflight_failed (server table id)) _ h2 in
        let here = local_stamp s table id local read stamped in
        let there = server_stamp server table id (server table id) refl answered in
        let test = outdates-is_outdated lu su candidate.updated_at in
        elim (Bool-cases (is_outdated (newer_of lu su) candidate.updated_at)) [
          | inl stale ↦
              ground (arith, skip-accepted table sel (rw stale at h3), here, there, test, stale)
          | inr fresh ↦ ground (
            arith,
            accept-accepted table candidate local lu su sel (rw fresh at h3),
            here,
            there,
            test,
            fresh,
          )
        ]

    -- The accepted records are those that a newer candidate is for.
    pub select_all-taken :
        (candidates : List (String × NormalizedRow)) (sel : Selection) {final : Selection}
        → select_all mk s server candidates sel ≡ done final
        → is_accepted other j final.accepted
          ≡ (is_accepted other j sel.accepted || is_taken candidates)
    unfolding select_all is_taken
    select_all-taken [] sel h = rw (← done-injective h) (ground arith)
    select_all-taken (candidate ∷ candidates) sel h =
        let (next, one, h') = >>=-inv (select_one mk s server candidate sel) _ h in
        ground (arith, select_all-taken candidates next h', select_one-accepted candidate sel one)
