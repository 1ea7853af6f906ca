-- ===== src/Pull/Pages.antt =====
-- The loops of src/sync/pull.rs: the rows of a page, the pages of a table, and the tables.
use braird_core.Prelude.{
  ℕ, zero, suc, ◌+◌, String, ℤ, pos, Option, none, some, List, [], ◌∷◌, ◌++◌, ltb, ltb_ℤ, unwrap_or,
  length, ◌⊎◌, inl, inr, if◌then◌else◌,
}
use braird_core.Json.{Value, Serde}
use braird_core.Store.Schema.{table_schema}
use braird_core.Store.State.{SqlError, ok, err, Store}
use braird_core.Store.Meta.{get_seq_cursor, set_seq_cursor, mark_pull_complete}
use braird_core.Pull.{
  SupersededEdit, TableStats, PageRequest, Source, PullError, unknown_synced_table, not_advancing,
  sql, fetch_rows, PageMerge, merge_row,
}

unfoldable pub no_stats : TableStats
no_stats = record { pulled = 0; merged = 0; skipped_tombstones = 0; superseded = [] }

abbrev pub pull_page_limit : ℕ
pull_page_limit = 1000

-- Each page but the last moves the cursor, so 2^64 pages are enough.
abbrev pub page_fuel : ℕ
page_fuel = 18_446_744_073_709_551_616

-- The state of the loop over the pages.
pub record PullState (Text : Type 0) : Type 0 where
  pub store : Store Text
  pub stats : TableStats
  pub cursor : ℤ
  pub asked : List PageRequest

pub data PullOutcome (Text : Type 0) : Type 0 where
  pulled_all : PullState Text → PullOutcome Text
  stopped : PullError → PullState Text → PullOutcome Text
  out_of_fuel : PullOutcome Text

module _ {Text : Type 0} ⦃serde : Serde Text⦄ where
  -- The loop over the rows, up to the first error.
  unfoldable pub merge_rows :
      String → String → List Value → PageMerge Text → PageMerge Text × Option SqlError
  merge_rows table pk [] m = (m, none)
  merge_rows table pk (row ∷ rows) m = elim (merge_row table pk row m) [
    | err e ↦ (m, some e)
    | ok after ↦ merge_rows table pk rows after
  ]

  unfoldable pub start_page : PullState Text → PageMerge Text
  start_page st = record { store = st.store; stats = st.stats; page_max = st.cursor }

  -- The cursor moves to the greatest `change_seq` of the page, where that is beyond it.
  unfoldable pub advance : String → PageMerge Text → PullState Text → PullState Text
  advance table m st =
      if ltb_ℤ st.cursor m.page_max
      then record st {
        store = set_seq_cursor m.store table m.page_max;
        stats = m.stats;
        cursor = m.page_max;
      }
      else record st { store = m.store; stats = m.stats }

  -- The end of a round, after the rows of a page of that length were merged.
  unfoldable pub end_page :
      String
      → ℕ
      → ℕ
      → PageMerge Text × Option SqlError
      → PullState Text
      → PullOutcome Text ⊎ PullState Text
  end_page table page_size page_len (m, some e) st =
      inl (stopped (sql e) (record st { store = m.store; stats = m.stats }))
  end_page table page_size page_len (m, none) st =
      let next = advance table m st in
      if ltb page_len page_size
      then inl (pulled_all (record next { store = mark_pull_complete next.store table }))
      else if ltb_ℤ st.cursor m.page_max
      then inr next
      else inl (stopped not_advancing next)

  unfoldable pub merge_page :
      String
      → String
      → ℕ
      → PullError ⊎ List Value
      → PullState Text
      → PullOutcome Text ⊎ PullState Text
  merge_page table pk page_size (inl e) st = inl (stopped e st)
  merge_page table pk page_size (inr rows) st =
      end_page table page_size (length rows) (merge_rows table pk rows (start_page st)) st

  -- What one round comes to: the end of the loop, or the state in which the next page is fetched.
  unfoldable pub pull_page :
      Source → String → String → ℕ → PullState Text → PullOutcome Text ⊎ PullState Text
  pull_page source table pk page_size st =
      let fetched =
        fetch_rows source st.asked
          (record { table = table; after_seq = st.cursor; limit = page_size }) in
      merge_page table pk page_size fetched.1 (record st { asked = fetched.0 })

  -- The loop over the pages, at most `fuel` of them.
  unfoldable pub pull_pages : ℕ → Source → String → String → ℕ → PullState Text → PullOutcome Text
  pull_pages zero source table pk page_size st = out_of_fuel
  pull_pages (suc fuel) source table pk page_size st =
      elim (pull_page source table pk page_size st) [
        | inl outcome ↦ outcome
        | inr next ↦ pull_pages fuel source table pk page_size next
      ]

  unfoldable pub pull_table : Source → List PageRequest → Store Text → String → ℕ → PullOutcome Text
  pull_table source asked s table page_size =
      let start : ℤ → PullState Text =
        λ cursor. record { store = s; stats = no_stats; cursor = cursor; asked = asked } in
      elim (table_schema table) [
        | none ↦ stopped unknown_synced_table (start (pos 0))
        | some schema ↦
            pull_pages page_fuel source table schema.pk page_size
              (start (unwrap_or (get_seq_cursor s table) (pos 0)))
      ]

-- A table that failed, and why.
pub record TableFailure : Type 0 where
  pub table : String
  pub error : PullError

pub record PullResult : Type 0 where
  pub pulled : ℕ
  pub merged : ℕ
  pub skipped_tombstones : ℕ
  pub superseded : List SupersededEdit
  pub failed_tables : List TableFailure

unfoldable pub no_result : PullResult
no_result = record {
  pulled = 0;
  merged = 0;
  skipped_tombstones = 0;
  superseded = [];
  failed_tables = [];
}

unfoldable pub add_stats : TableStats → PullResult → PullResult
add_stats stats result = record result {
  pulled = result.pulled + stats.pulled;
  merged = result.merged + stats.merged;
  skipped_tombstones = result.skipped_tombstones + stats.skipped_tombstones;
  superseded = result.superseded ++ stats.superseded;
}

unfoldable pub add_failure : String → PullError → PullResult → PullResult
add_failure table error result = record result {
  failed_tables = result.failed_tables ++ record { table = table; error = error } ∷ [];
}

module _ {Text : Type 0} ⦃serde : Serde Text⦄ where
  -- The tables one after the other; one that fails leaves the others their turn.
  unfoldable pub pull :
      Source → List String → List PageRequest → Store Text → PullResult → Store Text × PullResult
  pull source [] asked s result = (s, result)
  pull source (table ∷ tables) asked s result =
      elim (pull_table source asked s table pull_page_limit) [
        | pulled_all st ↦ pull source tables st.asked st.store (add_stats st.stats result)
        | stopped e st ↦ pull source tables st.asked st.store (add_failure table e result)
        | out_of_fuel ↦ (s, result)
      ]
