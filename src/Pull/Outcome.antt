-- ===== src/Pull/Outcome.antt =====
-- What a whole pull of src/sync/pull.rs leaves behind.
use braird_core.Prelude.{
  ℕ, zero, suc, String, pos, ◌+ℤ◌, +ℤ_parts, ◌≡◌, ◌≢◌, ◌≤ℤ◌, ◌<ℤ◌, i64_max, in_i64, refl, sym,
  subst, true, Option, none, some, List, [], ◌∷◌, ◌⊎◌, inl, inr, ltb, ltb_ℤ, length, unwrap_or,
  Option-cases, Bool-cases, arith,
}
use braird_core.Json.{Value, Serde}
use braird_core.Store.Schema.{TableSchema, table_schema}
use braird_core.Store.State.{Store, SqlError}
use braird_core.Store.Meta.{
  meta_set, meta_delete, get_seq_cursor, set_seq_cursor, mark_pull_complete,
}
use braird_core.Store.Backed.{IsBacked, IsBacked-same}
use braird_core.Pull.{PageMerge, PageRequest, Source, PullError, unknown_synced_table, fetch_rows}
use braird_core.Pull.Pages.{
  PullState, PullOutcome, PullResult, pulled_all, stopped, out_of_fuel, merge_rows, start_page,
  advance, end_page, merge_page, pull_page, pull_pages, pull_table, page_fuel, no_stats, add_stats,
  add_failure, pull, pull_page_limit,
}
use braird_core.Pull.Rounds.{Moves, pull_page-Moves, merge_rows-Carries, pull_pages-ends}

module _ {Text : Type 0} ⦃serde : Serde Text⦄ where
  -- The loop ended, and left a store with a backed queue.
  abbrev pub IsSettled : PullOutcome Text → Type 0
  IsSettled (pulled_all st) = IsBacked st.store
  IsSettled (stopped e st) = IsBacked st.store
  IsSettled out_of_fuel = ⊥

  -- The same of a loop that may have run out of fuel, and of a round.
  abbrev pub IsKept : PullOutcome Text → Type 0
  IsKept (pulled_all st) = IsBacked st.store
  IsKept (stopped e st) = IsBacked st.store
  IsKept out_of_fuel = Unit

  abbrev pub IsRound : PullOutcome Text ⊎ PullState Text → Type 0
  IsRound (inl outcome) = IsKept outcome
  IsRound (inr next) = IsBacked next.store

  advance-IsBacked :
      (table : String) (m : PageMerge Text) (st : PullState Text)
      → IsBacked m.store
      → IsBacked (advance table m st).store
  advance-IsBacked table m st b = elim (Bool-cases (ltb_ℤ st.cursor m.page_max)) [
    | inl e ↦
        unfold advance set_seq_cursor meta_set meta_delete in
        rw e (IsBacked-same m.store _ refl refl b)
    | inr e ↦ unfold advance in rw e b
  ]

  end_page-IsRound :
      (table : String) (page_size page_len : ℕ) (merged : PageMerge Text × Option SqlError)
      (st : PullState Text)
      → IsBacked merged.0.store
      → IsRound (end_page table page_size page_len merged st)
  end_page-IsRound table page_size page_len (m, some e) st b = unfold end_page in b
  end_page-IsRound table page_size page_len (m, none) st b =
      let next = advance-IsBacked table m st b in
      elim (Bool-cases (ltb page_len page_size)) [
        | inl last ↦
            unfold end_page mark_pull_complete meta_set in
            rw last (IsBacked-same (advance table m st).store _ refl refl next)
        | inr full ↦ elim (Bool-cases (ltb_ℤ st.cursor m.page_max)) [
          | inl moved ↦ unfold end_page in rw (full, moved) next
          | inr stuck ↦ unfold end_page in rw (full, stuck) next
        ]
      ]

  module _ (table : String) (schema : TableSchema) (found : table_schema table ≡ some schema) where
    merge_page-IsRound :
        (page_size : ℕ) (fetched : PullError ⊎ List Value) (st : PullState Text)
        → st.cursor ≤ℤ i64_max
        → IsBacked st.store
        → IsRound (merge_page table schema.pk page_size fetched st)
    unfolding merge_page start_page
    merge_page-IsRound page_size (inl e) st small b = b
    merge_page-IsRound page_size (inr rows) st small b =
        end_page-IsRound table page_size (length rows)
          (merge_rows table schema.pk rows (start_page st)) st
          ((merge_rows-Carries table schema found rows (start_page st) small).backed b)

    pull_page-IsRound :
        (source : Source) (page_size : ℕ) (st : PullState Text)
        → st.cursor ≤ℤ i64_max
        → IsBacked st.store
        → IsRound (pull_page source table schema.pk page_size st)
    unfolding pull_page
    pull_page-IsRound source page_size st small b =
        merge_page-IsRound page_size (fetch_rows source st.asked _).1 (record st { asked = _ })
          small b

    pull_pages-IsKept :
        (source : Source) (page_size fuel : ℕ) (st : PullState Text)
        → st.cursor ≤ℤ i64_max
        → IsBacked st.store
        → IsKept (pull_pages fuel source table schema.pk page_size st)
    unfolding pull_pages
    pull_pages-IsKept source page_size zero st small b = tt
    pull_pages-IsKept source page_size (suc fuel) st small b =
        goes_on (pull_page source table schema.pk page_size st)
          (pull_page-Moves table schema found source page_size st small)
          (pull_page-IsRound source page_size st small b)
          (λ next. pull_pages-IsKept source page_size fuel next)
      where
        goes_on :
            (round : PullOutcome Text ⊎ PullState Text)
            → Moves table schema found st round
            → IsRound round
            → ((next : PullState Text)
                → next.cursor ≤ℤ i64_max
                → IsBacked next.store
                → IsKept (pull_pages fuel source table schema.pk page_size next))
            → IsKept (elim round [
              | inl outcome ↦ outcome
              | inr next ↦ pull_pages fuel source table schema.pk page_size next
            ])
        goes_on (inl outcome) moves kept later = kept
        goes_on (inr next) moves kept later = later next moves.1 kept

  IsKept-IsSettled :
      (outcome : PullOutcome Text) → outcome ≢ out_of_fuel → IsKept outcome → IsSettled outcome
  IsKept-IsSettled (pulled_all st) ends kept = kept
  IsKept-IsSettled (stopped e st) ends kept = kept
  IsKept-IsSettled out_of_fuel ends kept = absurd (ends refl)

  stored-cursor :
      (s : Store Text) (table : String) → in_i64 (unwrap_or (get_seq_cursor s table) (pos 0)) ≡ true
  unfolding get_seq_cursor
  stored-cursor s table = ground arith

  start_state : List PageRequest → Store Text → String → PullState Text
  start_state asked s table = record {
    store = s;
    stats = no_stats;
    cursor = unwrap_or (get_seq_cursor s table) (pos 0);
    asked = asked;
  }

  module _ (source : Source) (asked : List PageRequest) (s : Store Text) (table : String)
      (page_size : ℕ) where
    pull_table-known :
        (schema : TableSchema)
        → table_schema table ≡ some schema
        → pull_table source asked s table page_size
          ≡ pull_pages page_fuel source table schema.pk page_size (start_state asked s table)
    unfolding pull_table start_state
    pull_table-known schema found = ground (arith, found)

    pull_table-unknown :
        table_schema table ≡ none
        → pull_table source asked s table page_size
          ≡ stopped unknown_synced_table
              (record { store = s; stats = no_stats; cursor = pos 0; asked = asked })
    unfolding pull_table
    pull_table-unknown e = ground (arith, e)

    cursor_range :
        ((start_state asked s table).cursor ≤ℤ i64_max)
        × (i64_max <ℤ (start_state asked s table).cursor +ℤ pos page_fuel)
    unfolding start_state
    cursor_range =
        let cursor = unwrap_or (get_seq_cursor s table) (pos 0) in
        ground (arith, stored-cursor s table, +ℤ_parts cursor (pos page_fuel))

    -- A pull of a table ends, whatever the server answers, and keeps every queued payload backed.
    pub pull_table-IsSettled : IsBacked s → IsSettled (pull_table source asked s table page_size)
    unfolding start_state
    pull_table-IsSettled b = elim (Option-cases (table_schema table)) [
      | inl e ↦ subst IsSettled (sym (pull_table-unknown e)) b
      | inr (schema, found) ↦
          let start = start_state asked s table in
          subst IsSettled (sym (pull_table-known schema found)) (
            IsKept-IsSettled (pull_pages page_fuel source table schema.pk page_size start)
              (pull_pages-ends table schema found source page_size page_fuel start cursor_range.0
                cursor_range.1)
              (pull_pages-IsKept table schema found source page_size page_fuel start cursor_range.0
                b))
    ]

  -- A pull of any tables keeps every queued payload backed.
  pub pull-IsBacked :
      (source : Source) (tables : List String) (asked : List PageRequest) (s : Store Text)
      (result : PullResult)
      → IsBacked s
      → IsBacked (pull source tables asked s result).0
  unfolding pull
  pull-IsBacked source [] asked s result b = b
  pull-IsBacked source (table ∷ tables) asked s result b =
      goes_on (pull_table source asked s table pull_page_limit)
        (pull_table-IsSettled source asked s table pull_page_limit b)
        (λ asked' t result'. pull-IsBacked source tables asked' t result')
    where
      goes_on :
          (outcome : PullOutcome Text)
          → IsSettled outcome
          → ((asked' : List PageRequest) (t : Store Text) (result' : PullResult)
              → IsBacked t
              → IsBacked (pull source tables asked' t result').0)
          → IsBacked
              (elim outcome as (λ o. Store Text × PullResult) [
                | pulled_all st ↦ pull source tables st.asked st.store (add_stats st.stats result)
                | stopped e st ↦ pull source tables st.asked st.store (add_failure table e result)
                | out_of_fuel ↦ (s, result)
              ]).0
      goes_on (pulled_all st) kept later = later _ _ _ kept
      goes_on (stopped e st) kept later = later _ _ _ kept
      goes_on out_of_fuel kept later = absurd kept
