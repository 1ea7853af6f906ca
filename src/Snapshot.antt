-- ===== src/Snapshot.antt =====
-- src/sync/export_import/merge.rs: the merge of a parsed archive into the store. The server is a
-- function of the request, as for a pull.
pub mod Select
pub mod Prepare
pub mod Fetch
pub mod Merge
pub mod Chosen
pub mod Complete
pub mod Prepared
pub mod Staged
pub mod Taken
pub mod Outcome
pub mod Examples
use braird_core.Prelude.{
  ℕ, suc, ◌+◌, ◌≡◌, refl, arith, String, ℤ, Option, none, some, List, [], ◌∷◌, ◌++◌, map, str_eq,
  ltb, if◌then◌else◌,
}
use braird_core.Json.{Map}

-- The variants of `SyncError` that a merge returns; their texts are constants, and not modelled.
pub data SyncError : Type 0 where
  store_failed preflight_failed invalid_import : SyncError

-- `Result<A, SyncError>`
pub data Answer (A : Type 0) : Type 0 where
  failed : SyncError → Answer A
  done : A → Answer A

infixl 5 ◌>>=◌
abbrev pub ◌>>=◌ : {A B : Type 0} → Answer A → (A → Answer B) → Answer B
failed e >>= next = failed e
done a >>= next = next a

-- `ok_or_else`
abbrev pub done_or : {A : Type 0} → SyncError → Option A → Answer A
done_or e none = failed e
done_or e (some a) = done a

-- A merge that comes to a result has passed its first part.
pub >>=-inv :
    {A B : Type 0} (first : Answer A) (next : A → Answer B) {b : B}
    → (first >>= next) ≡ done b
    → (a : A) × (first ≡ done a) × (next a ≡ done b)
>>=-inv (done a) next h = (a, refl, h)
>>=-inv (failed e) next h = absurd (ground arith)

pub done-injective : {A : Type 0} {a b : A} → done a ≡ done b → a ≡ b
done-injective h = ground arith

pub record NormalizedRow : Type 0 where
  pub primary_key : String
  pub row : Map
  pub updated_at : ℤ

pub record NormalizedImport : Type 0 where
  pub schema_version : ℕ
  pub books : List NormalizedRow
  pub notes : List NormalizedRow
  pub custom_ideas : List NormalizedRow
  pub note_links : List NormalizedRow
  pub lenses : List NormalizedRow
  pub collections : List NormalizedRow
  pub collection_memberships : List NormalizedRow
  pub note_signals : List NormalizedRow

-- Counts are `u32`.
pub record ImportCounts : Type 0 where
  pub books : ℕ
  pub notes : ℕ
  pub custom_ideas : ℕ
  pub note_links : ℕ
  pub lenses : ℕ
  pub collections : ℕ
  pub collection_memberships : ℕ
  pub note_signals : ℕ

abbrev pub no_counts : ImportCounts
no_counts = record {
  books = 0;
  notes = 0;
  custom_ideas = 0;
  note_links = 0;
  lenses = 0;
  collections = 0;
  collection_memberships = 0;
  note_signals = 0;
}

pub record ImportSummary : Type 0 where
  pub schema_version : ℕ
  pub imported : ImportCounts
  pub skipped_stale : ImportCounts

unfoldable pub owned_tables : NormalizedImport → List (String × List NormalizedRow)
owned_tables parsed =
    ("books", parsed.books)
    ∷ ("notes", parsed.notes)
    ∷ ("custom_ideas", parsed.custom_ideas)
    ∷ ("note_links", parsed.note_links)
    ∷ ("lenses", parsed.lenses)
    ∷ ("collections", parsed.collections)
    ∷ ("collection_memberships", parsed.collection_memberships)
    ∷ ("note_signals", parsed.note_signals)
    ∷ []

-- The candidates of the nested loops, each with its table.
unfoldable pub flatten : List (String × List NormalizedRow) → List (String × NormalizedRow)
flatten [] = []
flatten ((table, rows) ∷ tables) = map (λ row. (table, row)) rows ++ flatten tables

-- `checked_add(1)` on a `u32`
unfoldable pub count_one : ℕ → Answer ℕ
count_one n = if ltb n 4_294_967_295 then done (n + 1) else failed invalid_import

unfoldable pub increment : ImportCounts → String → Answer ImportCounts
increment c table =
    if str_eq table "books"
    then (count_one c.books >>= λ n. done (record c { books = n }))
    else if str_eq table "notes"
    then (count_one c.notes >>= λ n. done (record c { notes = n }))
    else if str_eq table "custom_ideas"
    then (count_one c.custom_ideas >>= λ n. done (record c { custom_ideas = n }))
    else if str_eq table "note_links"
    then (count_one c.note_links >>= λ n. done (record c { note_links = n }))
    else if str_eq table "lenses"
    then (count_one c.lenses >>= λ n. done (record c { lenses = n }))
    else if str_eq table "collections"
    then (count_one c.collections >>= λ n. done (record c { collections = n }))
    else if str_eq table "collection_memberships"
    then (count_one c.collection_memberships >>= λ n.
        done (record c { collection_memberships = n }))
    else if str_eq table "note_signals"
    then (count_one c.note_signals >>= λ n. done (record c { note_signals = n }))
    else failed store_failed
