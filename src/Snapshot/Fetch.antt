-- ===== src/Snapshot/Fetch.antt =====
-- The server's side of src/sync/export_import/merge.rs: the checked pages of the protective pull, and
-- the rows of the candidates by their ids.
use braird_core.Prelude.{
  ℕ, zero, suc, String, ℤ, pos, Bool, true, false, not, ◌&&◌, Option, none, some, List, [], ◌∷◌,
  map, any, str_eq, starts_with, leb_ℤ, is_none, if◌then◌else◌,
}
use braird_core.Json
use braird_core.Json.{Value, Map, obj, as_i64, as_str, as_bool}
use braird_core.Store.State.{update}
use braird_core.Store.Schema.{table_schema}
use braird_core.Pull.{PageReply, page, refusal, Source}
use braird_core.Snapshot.{
  store_failed, preflight_failed, Answer, done, failed, ◌>>=◌, done_or, NormalizedRow,
  NormalizedImport, owned_tables,
}
use braird_core.Snapshot.Select.{ServerRows}

-- A text that is there and not empty

abbrev pub is_filled : Option String → Bool
is_filled none = false
is_filled (some s) = not (str_eq s "")

abbrev pub is_some {ℓ} : {A : Type ℓ} → Option A → Bool
is_some none = false
is_some (some a) = true

-- One row of a page, and the `change_seq` that it moves on to.
unfoldable pub valid_row : String → ℤ → Value → Option ℤ
valid_row primary_key prior (obj row) = elim (as_i64 (Json.get "change_seq" row)) [
  | none ↦ none
  | some seq ↦
      if leb_ℤ (pos 0) seq
      then (if is_filled (as_str (Json.get primary_key row))
            && is_some (as_i64 (Json.get "updated_at" row))
            && is_some (as_bool (Json.get "deleted" row))
            && not (leb_ℤ seq prior)
          then some seq
          else none)
      else none
]
valid_row primary_key prior _ = none

unfoldable pub valid_rows : String → ℤ → List Value → Bool
valid_rows primary_key prior [] = true
valid_rows primary_key prior (row ∷ rows) = elim (valid_row primary_key prior row) [
  | none ↦ false
  | some seq ↦ valid_rows primary_key seq rows
]

unfoldable pub validate_pull_page : String → ℤ → List Value → Bool
validate_pull_page table after_seq rows = elim (table_schema table) [
  | none ↦ false
  | some schema ↦ valid_rows schema.pk after_seq rows
]

abbrev pub preflight_text : String
preflight_text = "snapshot import server preflight failed"

-- The class of an error stays, and its body goes.
unfoldable pub sanitize : String → String
sanitize e =
    if starts_with e "transport: "
    then "transport: snapshot import server preflight failed"
    else if starts_with e "PostgREST "
    then "PostgREST response — snapshot import server preflight failed"
    else preflight_text

unfoldable pub sanitized : Source → Source
sanitized source asked request = elim (source asked request) [
  | refusal e ↦ refusal (sanitize e)
  | page rows ↦
      if validate_pull_page request.table request.after_seq rows
      then page rows
      else refusal preflight_text
]

-- The arguments of `fetch_by_ids`
pub record IdRequest : Type 0 where
  pub table : String
  pub primary_key : String
  pub ids : List String

abbrev pub Lookup : Type 0
Lookup = List IdRequest → IdRequest → PageReply

-- `chunks(100)`: the first chunk has room for so many.
abbrev pub push : String → List (List String) → List (List String)
push id [] = (id ∷ []) ∷ []
push id (chunk ∷ chunks) = (id ∷ chunk) ∷ chunks

unfoldable pub chunks_from : ℕ → List String → List (List String)
chunks_from room [] = []
chunks_from zero (id ∷ ids) = [] ∷ push id (chunks_from 99 ids)
chunks_from (suc room) (id ∷ ids) = push id (chunks_from room ids)

unfoldable pub chunks : List String → List (List String)
chunks = chunks_from 100

abbrev pub Rows : Type 0
Rows = String → Option Map

-- A returned row: one that was asked for, with a stamp and a deletion flag, and for the first time.
unfoldable pub add_row : String → List String → Value → Rows → Answer Rows
add_row primary_key ids (obj row) rows = elim (as_str (Json.get primary_key row)) [
  | none ↦ failed preflight_failed
  | some id ↦
      if any (λ asked. str_eq asked id) ids
        && is_some (as_i64 (Json.get "updated_at" row))
        && is_some (as_bool (Json.get "deleted" row))
        && is_none (rows id)
      then done (update rows id (some row))
      else failed preflight_failed
]
add_row primary_key ids _ rows = failed preflight_failed

unfoldable pub add_rows : String → List String → List Value → Rows → Answer Rows
add_rows primary_key ids [] rows = done rows
add_rows primary_key ids (row ∷ returned) rows =
    add_row primary_key ids row rows >>= λ next. add_rows primary_key ids returned next

unfoldable pub fetch_chunks :
    Lookup
    → String
    → String
    → List (List String)
    → List IdRequest
    → Rows
    → Answer (List IdRequest × Rows)
fetch_chunks lookup table primary_key [] asked rows = done (asked, rows)
fetch_chunks lookup table primary_key (ids ∷ rest) asked rows =
    let request : IdRequest = record { table = table; primary_key = primary_key; ids = ids } in
    elim (lookup asked request) [
      | refusal e ↦ failed preflight_failed
      | page returned ↦ add_rows primary_key ids returned rows >>= λ next.
          fetch_chunks lookup table primary_key rest (request ∷ asked) next
    ]

unfoldable pub fetch_tables :
    Lookup → List (String × List NormalizedRow) → List IdRequest → ServerRows → Answer ServerRows
fetch_tables lookup [] asked server = done server
fetch_tables lookup ((table, []) ∷ tables) asked server = fetch_tables lookup tables asked server
fetch_tables lookup ((table, candidate ∷ candidates) ∷ tables) asked server =
    done_or store_failed (table_schema table) >>= λ schema.
    fetch_chunks lookup table schema.pk
      (chunks (map (λ (row : NormalizedRow). row.primary_key) (candidate ∷ candidates))) asked
      (λ id. none)
    >>= λ fetched. fetch_tables lookup tables fetched.0 (update server table fetched.1)

unfoldable pub fetch_candidate_state : Lookup → NormalizedImport → Answer ServerRows
fetch_candidate_state lookup parsed =
    fetch_tables lookup (owned_tables parsed) [] (λ table id. none)
