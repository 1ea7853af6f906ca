-- ===== src/Snapshot/Select.antt =====
-- `select_prepare_and_stage` of src/sync/export_import/merge.rs: which candidates are accepted, and
-- what an accepted book keeps.
use braird_core.Prelude.{
  String, ℤ, Bool, true, false, not, ◌&&◌, ◌||◌, Option, none, some, List, [], ◌∷◌, ◌++◌, str_eq,
  leb_ℤ, max_ℤ, is_none, if◌then◌else◌,
}
use braird_core.Json
use braird_core.Json.{Map, Serde, as_i64, as_str, str}
use braird_core.Crypto.{Bytes, Ciphers, open_book_url}
use braird_core.Store.State.{ok, err, Store, get_row}
use braird_core.Snapshot.{
  SyncError, store_failed, preflight_failed, Answer, done, failed, ◌>>=◌, done_or, NormalizedRow,
  ImportCounts, increment,
}

-- The server's rows by table and id.

abbrev pub ServerRows : Type 0
ServerRows = String → String → Option Map

-- `transpose` of a row's stamp
unfoldable pub stamp_of : SyncError → Option Map → Answer (Option ℤ)
stamp_of e none = done none
stamp_of e (some row) = done_or e (as_i64 (Json.get "updated_at" row)) >>= λ n. done (some n)

unfoldable pub state_timestamp : Option Map → Answer (Option ℤ)
unfolding stamp_of
state_timestamp = stamp_of store_failed

-- `into_iter().chain(…).max()`
unfoldable pub newer_of : Option ℤ → Option ℤ → Option ℤ
newer_of none b = b
newer_of (some a) none = some a
newer_of (some a) (some b) = some (max_ℤ a b)

unfoldable pub is_outdated : Option ℤ → ℤ → Bool
is_outdated none updated = false
is_outdated (some existing) updated = leb_ℤ updated existing

-- The existing rows of a book, the newer first.
unfoldable pub existing_rows : Option Map → Option Map → Option ℤ → Option ℤ → List Map
existing_rows none none lu su = []
existing_rows (some l) none lu su = l ∷ []
existing_rows none (some s) lu su = s ∷ []
existing_rows (some l) (some s) (some a) (some b) = if leb_ℤ b a then l ∷ s ∷ [] else s ∷ l ∷ []
existing_rows (some l) (some s) (some a) none = l ∷ s ∷ []
existing_rows (some l) (some s) none (some b) = s ∷ l ∷ []
existing_rows (some l) (some s) none none = l ∷ s ∷ []

abbrev pub or_text : Option String → Option String → Option String
or_text (some a) b = some a
or_text none b = b

-- The columns that an existing book keeps, and what a new one without them gets.
abbrev pub kept_columns : List (String × Option String)
kept_columns = ("status", some "shelved") ∷ ("kind", some "book") ∷ ("url", none) ∷ []

unfoldable pub set_text : String → Option String → Map → Map
set_text col none row = row
set_text col (some value) row = Json.insert col (str value) row

module _ ⦃c : Ciphers⦄ (mk : Bytes) where
  -- A stored value; a URL counts only if it opens.
  unfoldable pub stored_text : String → String → Option String → Option String
  stored_text id col none = none
  stored_text id col (some v) =
      if not (str_eq col "url") || not (is_none (open_book_url mk id v)) then some v else none

  -- `find_map` over the existing rows
  unfoldable pub first_kept : String → String → List Map → Option String
  first_kept id col [] = none
  first_kept id col (row ∷ rows) =
      or_text (stored_text id col (as_str (Json.get col row))) (first_kept id col rows)

  unfoldable pub book_value : String → List Map → Map → String → Option String → Option String
  book_value id existing row col default = or_text (first_kept id col existing) (
      or_text
        (if str_eq col "kind" && not (elim existing [ [] ↦ true | _ ↦ false ])
          then some "book"
          else none)
        (or_text (as_str (Json.get col row)) default))

  unfoldable pub keep_columns : String → List Map → List (String × Option String) → Map → Map
  keep_columns id existing [] row = row
  keep_columns id existing ((col, default) ∷ cols) row =
      keep_columns id existing cols (set_text col (book_value id existing row col default) row)

  unfoldable pub keep_book : String → String → List Map → Map → Map
  unfolding keep_columns
  keep_book table id existing row =
      if str_eq table "books" then keep_columns id existing kept_columns row else row

-- What the loop over the candidates gathers.
pub record Selection : Type 0 where
  pub imported : ImportCounts
  pub skipped_stale : ImportCounts
  pub accepted : List (String × NormalizedRow)
  pub newest : Option ℤ

-- The failures of `get_row` are those of the store.
unfoldable pub local_row :
    {Text : Type 0} ⦃serde : Serde Text⦄ → Store Text → String → String → Answer (Option Map)
local_row s table id = elim (get_row s table id) [ err e ↦ failed store_failed | ok row ↦ done row ]

unfoldable pub skip : String → Selection → Answer Selection
skip table sel =
    increment sel.skipped_stale table >>= λ skipped. done (record sel { skipped_stale = skipped })

module _ {Text : Type 0} ⦃serde : Serde Text⦄ ⦃c : Ciphers⦄ (mk : Bytes) (s : Store Text)
    (server : ServerRows) where
  unfoldable pub accept :
      String → NormalizedRow → Option Map → Option ℤ → Option ℤ → Selection → Answer Selection
  accept table candidate local lu su sel = increment sel.imported table >>= λ imported.
      let id = candidate.primary_key in
      let existing = existing_rows local (server table id) lu su in
      done (record {
        imported = imported;
        skipped_stale = sel.skipped_stale;
        accepted =
            sel.accepted
            ++ (table, record candidate { row = keep_book mk table id existing candidate.row })
              ∷ [];
        newest = newer_of (newer_of (newer_of sel.newest (some candidate.updated_at)) lu) su;
      })

  unfoldable pub select_one : String × NormalizedRow → Selection → Answer Selection
  select_one (table, candidate) sel = local_row s table candidate.primary_key >>= λ local.
      state_timestamp local >>= λ lu.
      stamp_of preflight_failed (server table candidate.primary_key) >>= λ su.
      if is_outdated (newer_of lu su) candidate.updated_at
      then skip table sel
      else accept table candidate local lu su sel

  unfoldable pub select_all : List (String × NormalizedRow) → Selection → Answer Selection
  select_all [] sel = done sel
  select_all (candidate ∷ candidates) sel =
      select_one candidate sel >>= λ next. select_all candidates next
