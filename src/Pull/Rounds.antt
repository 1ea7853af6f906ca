-- ===== src/Pull/Rounds.antt =====
-- The loops of src/sync/pull.rs: the cursor, the pages and the queue.
use braird_core.Prelude.{
  ℕ, zero, suc, String, ℤ, pos, ◌+ℤ◌, +ℤ_parts, ◌≡◌, ◌≢◌, ◌≤ℤ◌, ◌<ℤ◌, i64_max, in_i64, refl, subst,
  true, Option, none, some, List, [], ◌∷◌, ◌⊎◌, inl, inr, max_ℤ, ltb, ltb_ℤ, length, Option-cases,
  Bool-cases, arith,
}
use braird_core.Json
use braird_core.Json.{Value, Map, Serde, null, bool, num, arr, obj, str, as_i64, as_str}
use braird_core.Store.Schema.{TableSchema, table_schema}
use braird_core.Store.State.{Result, ok, err, SqlError}
use braird_core.Store.Clamp.{as_i64_range}
use braird_core.Store.Backed.{IsBacked}
use braird_core.Pull.{
  PageMerge, Source, PullError, raise_max, see_row, skip_tombstone, keep_local, merge_object,
  merge_row, fetch_rows,
}
use braird_core.Pull.Merge.{Merged, skipped, won, kept, merge_object-Merged}
use braird_core.Pull.Settle.{merge_object-IsBacked}
use braird_core.Pull.Pages.{
  PullState, PullOutcome, pulled_all, stopped, out_of_fuel, merge_rows, start_page, advance,
  end_page, merge_page, pull_page, pull_pages,
}

-- A watermark that is not earlier and still an `i64`.

abbrev pub IsLater : ℤ → ℤ → Type 0
IsLater before after = (before ≤ℤ after) × (after ≤ℤ i64_max)

raise_max-IsLater :
    (seq : Option ℤ) (page_max : ℤ)
    → ((n : ℤ) → seq ≡ some n → in_i64 n ≡ true)
    → page_max ≤ℤ i64_max
    → IsLater page_max (raise_max seq page_max)
unfolding raise_max
raise_max-IsLater none page_max range small = (omega arith, small)
raise_max-IsLater (some n) page_max range small = unfold max_ℤ in ground (arith, range n refl)

as_str-some : (v : Option Value) {s : String} → as_str v ≡ some s → v ≡ some (str s)
unfolding as_str
as_str-some none h = absurd (ground arith)
as_str-some (some v) h = ground arith

Result-cases : {A : Type 0} (r : Result A) → ((e : SqlError) × (r ≡ err e)) ⊎ ((a : A) × (r ≡ ok a))
Result-cases (err e) = inl (e, refl)
Result-cases (ok a) = inr (a, refl)

module _ {Text : Type 0} ⦃serde : Serde Text⦄ where
  see_row-IsLater :
      (row : Map) (m : PageMerge Text)
      → m.page_max ≤ℤ i64_max
      → IsLater m.page_max (see_row row m).page_max
  unfolding see_row
  see_row-IsLater row m small =
      raise_max-IsLater (as_i64 (Json.get "change_seq" row)) m.page_max
        (λ n e. as_i64_range (Json.get "change_seq" row) e) small

  Merged-page_max :
      {table id : String} {row : Map} {m after : PageMerge Text}
      → Merged table id row m after
      → after.page_max ≡ m.page_max
  unfolding skip_tombstone keep_local
  Merged-page_max (skipped gone absent) = refl
  Merged-page_max (won stats win live e) = refl
  Merged-page_max {table = table} (kept local old stored lose) = ground arith

  module _ (table : String) (schema : TableSchema) (found : table_schema table ≡ some schema) where
    -- What a row, or some of them, may do to the state of a page.
    pub record Carries (m after : PageMerge Text) : Type 0 where
      pub later : IsLater m.page_max after.page_max
      pub backed : IsBacked m.store → IsBacked after.store

    unmerged-Carries :
        (m : PageMerge Text) {after : PageMerge Text}
        → m.page_max ≤ℤ i64_max
        → m ≡ after
        → Carries m after
    unmerged-Carries m small same =
        subst (Carries m) same (record { later = (omega arith, small); backed = λ b. b })

    merged-Carries :
        (id : String) (row : Map) (m : PageMerge Text) {after : PageMerge Text}
        → m.page_max ≤ℤ i64_max
        → Json.get schema.pk row ≡ some (str id)
        → merge_object table id row (see_row row m) ≡ ok after
        → Carries m after
    unfolding see_row
    merged-Carries id row m small key h = record {
      later =
          rw (Merged-page_max (merge_object-Merged table id row (see_row row m) h))
            (see_row-IsLater row m small);
      backed = λ b. merge_object-IsBacked table id row schema found key (see_row row m) h b;
    }

    merge_row-Carries :
        (row : Value) (m : PageMerge Text) {after : PageMerge Text}
        → m.page_max ≤ℤ i64_max
        → merge_row table schema.pk row m ≡ ok after
        → Carries m after
    merge_row-Carries null m small h = unmerged-Carries m small (unfold merge_row in ground arith)
    merge_row-Carries (bool b) m small h =
        unmerged-Carries m small (unfold merge_row in ground arith)
    merge_row-Carries (num n) m small h =
        unmerged-Carries m small (unfold merge_row in ground arith)
    merge_row-Carries (str t) m small h =
        unmerged-Carries m small (unfold merge_row in ground arith)
    merge_row-Carries (arr xs) m small h =
        unmerged-Carries m small (unfold merge_row in ground arith)
    merge_row-Carries (obj row) m small h = elim (Option-cases (as_str (Json.get schema.pk row))) [
      | inl e ↦ unmerged-Carries m small (unfold merge_row in ground arith)
      | inr (id, e) ↦
          merged-Carries id row m small (as_str-some (Json.get schema.pk row) e)
            (unfold merge_row in ground arith)
    ]

    pub merge_rows-Carries :
        (rows : List Value) (m : PageMerge Text)
        → m.page_max ≤ℤ i64_max
        → Carries m (merge_rows table schema.pk rows m).0
    unfolding merge_rows
    merge_rows-Carries [] m small = unmerged-Carries m small refl
    merge_rows-Carries (row ∷ rows) m small =
        elim (Result-cases (merge_row table schema.pk row m)) [
          | inl (e, failed) ↦ rw (failed, merge_rows) (unmerged-Carries m small refl)
          | inr (after, done) ↦
              let here = merge_row-Carries row m small done in
              let rest = merge_rows-Carries rows after here.later.1 in
              rw (done, merge_rows)
                (record {
                  later = (omega arith, rest.later.1);
                  backed = λ b. rest.backed (here.backed b);
                })
        ]

    -- A round that goes on has moved the cursor.
    abbrev pub Moves : PullState Text → PullOutcome Text ⊎ PullState Text → Type 0
    Moves st (inl (pulled_all done)) = Unit
    Moves st (inl (stopped e done)) = Unit
    Moves st (inl out_of_fuel) = ⊥
    Moves st (inr next) = (st.cursor <ℤ next.cursor) × (next.cursor ≤ℤ i64_max)

    end_page-Moves :
        (page_size page_len : ℕ) (merged : PageMerge Text × Option SqlError) (st : PullState Text)
        → merged.0.page_max ≤ℤ i64_max
        → Moves st (end_page table page_size page_len merged st)
    end_page-Moves page_size page_len (m, some e) st small = unfold end_page in tt
    end_page-Moves page_size page_len (m, none) st small =
        elim (Bool-cases (ltb page_len page_size)) [
          | inl last ↦ unfold end_page in rw last tt
          | inr full ↦ elim (Bool-cases (ltb_ℤ st.cursor m.page_max)) [
            | inl moved ↦ unfold end_page advance in rw (full, moved) (ground arith, small)
            | inr stuck ↦ unfold end_page in rw (full, stuck) tt
          ]
        ]

    merge_page-Moves :
        (page_size : ℕ) (fetched : PullError ⊎ List Value) (st : PullState Text)
        → st.cursor ≤ℤ i64_max
        → Moves st (merge_page table schema.pk page_size fetched st)
    unfolding merge_page start_page
    merge_page-Moves page_size (inl e) st small = tt
    merge_page-Moves page_size (inr rows) st small =
        end_page-Moves page_size (length rows) (merge_rows table schema.pk rows (start_page st)) st
          (merge_rows-Carries rows (start_page st) small).later.1

    pub pull_page-Moves :
        (source : Source) (page_size : ℕ) (st : PullState Text)
        → st.cursor ≤ℤ i64_max
        → Moves st (pull_page source table schema.pk page_size st)
    unfolding pull_page
    pull_page-Moves source page_size st small =
        merge_page-Moves page_size (fetch_rows source st.asked _).1 (record st { asked = _ }) small

    -- A loop with a page for each watermark that is left comes to its end.
    module _ (source : Source) (page_size : ℕ) where
      pub pull_pages-ends :
          (fuel : ℕ) (st : PullState Text)
          → st.cursor ≤ℤ i64_max
          → i64_max <ℤ st.cursor +ℤ pos fuel
          → pull_pages fuel source table schema.pk page_size st ≢ out_of_fuel
      unfolding pull_pages
      pull_pages-ends zero st small enough = absurd (ground (arith, +ℤ_parts st.cursor (pos 0)))
      pull_pages-ends (suc fuel) st small enough =
          goes_on (pull_page source table schema.pk page_size st)
            (pull_page-Moves source page_size st small) (λ next. pull_pages-ends fuel next)
        where
          goes_on :
              (round : PullOutcome Text ⊎ PullState Text)
              → Moves st round
              → ((next : PullState Text)
                  → next.cursor ≤ℤ i64_max
                  → i64_max <ℤ next.cursor +ℤ pos fuel
                  → pull_pages fuel source table schema.pk page_size next ≢ out_of_fuel)
              → (elim round [
                | inl outcome ↦ outcome
                | inr next ↦ pull_pages fuel source table schema.pk page_size next
              ])
                ≢ out_of_fuel
          goes_on (inl (pulled_all done)) moves later = λ e. absurd (ground (arith, e))
          goes_on (inl (stopped why done)) moves later = λ e. absurd (ground (arith, e))
          goes_on (inl out_of_fuel) moves later = absurd moves
          goes_on (inr next) moves later =
              later next moves.1 (
                ground
                  (arith, +ℤ_parts st.cursor (pos (suc fuel)), +ℤ_parts next.cursor (pos fuel)))
