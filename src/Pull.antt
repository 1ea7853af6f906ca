-- ===== src/Pull.antt =====
-- src/sync/pull.rs: the incremental pull. The server is a function of the requests that it has had
-- and of the one it gets. An error is kept as what it is made from; its text is not modelled.
pub mod Pages
pub mod Merge
pub mod Settle
pub mod Fill
pub mod Rounds
pub mod Outcome
pub mod Examples
use braird_core.Prelude.{
  starts_with, ℕ, zero, suc, ◌+◌, String, ℤ, pos, Bool, true, false, not, ◌&&◌, Option, none, some,
  List, [], ◌∷◌, ◌++◌, map, str_eq, any, ◌⊎◌, inl, inr, ltb_ℤ, max_ℤ, max_of, unwrap_or, is_none,
  length, if◌then◌else◌,
}
use braird_core.Json
use braird_core.Json.{Value, Map, Serde, obj, as_i64, as_str, as_bool, is_null}
use braird_core.Store.Schema.{ColType, TableSchema, table_schema, book_fillable_columns}
use braird_core.Store.Cells.{SqlValue, text}
use braird_core.Store.State.{SqlError, Result, ok, err, ◌>>=◌, Store, update, get_row}
use braird_core.Store.Meta.{get_seq_cursor, set_seq_cursor, mark_pull_complete}
use braird_core.Store.Rows.{row_stamp}
use braird_core.Store.Staging.{apply_row_rebasing_outbox}

pub record SupersededEdit : Type 0 where
  pub table : String
  pub record_id : String
  pub discarded_updated_at : ℤ
  pub winning_updated_at : ℤ

pub record TableStats : Type 0 where
  pub pulled : ℕ
  pub merged : ℕ
  pub skipped_tombstones : ℕ
  pub superseded : List SupersededEdit

-- The arguments of `PostgrestSink::fetch_page`, and its result.
pub record PageRequest : Type 0 where
  pub table : String
  pub after_seq : ℤ
  pub limit : ℕ

pub data PageReply : Type 0 where
  page : (rows : List Value) → PageReply
  refusal : String → PageReply

abbrev pub Source : Type 0
Source = List PageRequest → PageRequest → PageReply

-- The errors of `pull_table`: `persisted` has the second error and then the first.
pub data PullError : Type 0 where
  unknown_synced_table not_advancing : PullError
  refused : String → PullError
  persisted : (second first : String) → PullError
  sql : SqlError → PullError

-- One request, and one more after a failure of the transport.
unfoldable pub fetch_rows :
    Source → List PageRequest → PageRequest → List PageRequest × (PullError ⊎ List Value)
fetch_rows source asked request = elim (source asked request) [
  | page rows ↦ (request ∷ asked, inr rows)
  | refusal first ↦
      if starts_with first "transport: "
      then elim (source (request ∷ asked) request) [
        | page rows ↦ (request ∷ request ∷ asked, inr rows)
        | refusal second ↦ (request ∷ request ∷ asked, inl (persisted second first))
      ]
      else (request ∷ asked, inl (refused first))
]

-- `page_max.max(seq)`, where the row has a `change_seq`.
unfoldable pub raise_max : Option ℤ → ℤ → ℤ
raise_max none page_max = page_max
raise_max (some seq) page_max = max_ℤ page_max seq

-- `local_updated`, none where no row is stored.
unfoldable pub local_stamp : Option Map → Option ℤ
local_stamp none = none
local_stamp (some r) = some (row_stamp r)

-- `r.get(*col).is_none_or(Value::is_null)` for some fillable column
unfoldable pub lacks_fillable : Map → Bool
lacks_fillable row =
    any (λ col. elim (Json.get col row) [ none ↦ true | some v ↦ is_null v ]) book_fillable_columns

-- Whether an incoming stamp beats the local one.
unfoldable pub should_apply : Option ℤ → ℤ → Bool
should_apply none incoming_updated = true
should_apply (some local_ts) incoming_updated = ltb_ℤ local_ts incoming_updated

-- The edit that a rebase dropped, by the newest of its stamps.
unfoldable pub superseded_by : String → String → ℤ → List (ℤ × ℤ) → List SupersededEdit
superseded_by table record_id winning dropped = elim (max_of (map (λ entry. entry.1) dropped)) [
  | none ↦ []
  | some discarded ↦
      record {
        table = table;
        record_id = record_id;
        discarded_updated_at = discarded;
        winning_updated_at = winning;
      }
      ∷ []
]

-- What the loop over the rows of a page changes.
pub record PageMerge (Text : Type 0) : Type 0 where
  pub store : Store Text
  pub stats : TableStats
  pub page_max : ℤ

module _ {Text : Type 0} ⦃serde : Serde Text⦄ where
  -- `UPDATE books SET {col} = ?2 WHERE … AND {col} IS NULL`, on the cells of one row.
  unfoldable pub fill_cells :
      List (String × ColType) → String → String → List (SqlValue Text) → List (SqlValue Text)
  fill_cells [] col value cells = cells
  fill_cells ((name, ty) ∷ columns) col value [] = []
  fill_cells ((name, ty) ∷ columns) col value (cell ∷ cells) =
      (if str_eq name col then elim cell [ SqlValue.null ↦ text value | other ↦ other ] else cell)
      ∷ fill_cells columns col value cells

  unfoldable pub fill_column : Store Text → String → String → String → Store Text
  fill_column s id col value = elim (table_schema "books") [
    | none ↦ s
    | some books ↦ elim (s.rows books.name id) [
      | none ↦ s
      | some cells ↦ record s {
        rows =
            update s.rows books.name
              (update (s.rows books.name) id (some (fill_cells books.columns col value cells)));
      }
    ]
  ]

  unfoldable pub fill_columns : List String → Store Text → String → Map → Store Text
  fill_columns [] s id incoming = s
  fill_columns (col ∷ cols) s id incoming =
      fill_columns cols
        (elim (as_str (Json.get col incoming)) [
          | none ↦ s
          | some value ↦ fill_column s id col value
        ])
        id incoming

  unfoldable pub fill_null_book_columns : Store Text → String → Map → Store Text
  fill_null_book_columns = fill_columns book_fillable_columns

  -- The count of a row, and its watermark.
  unfoldable pub see_row : Map → PageMerge Text → PageMerge Text
  see_row row m = record m {
    stats = record m.stats { pulled = suc m.stats.pulled };
    page_max = raise_max (as_i64 (Json.get "change_seq" row)) m.page_max;
  }

  unfoldable pub skip_tombstone : PageMerge Text → PageMerge Text
  skip_tombstone m = record m {
    stats = record m.stats { skipped_tombstones = suc m.stats.skipped_tombstones };
  }

  unfoldable pub apply_winner : String → String → Map → PageMerge Text → Result (PageMerge Text)
  apply_winner table id row m = do
    rebased ← apply_row_rebasing_outbox m.store table row (row_stamp row)
    ok (record m {
      store = rebased.1;
      stats = record m.stats {
        merged = suc m.stats.merged;
        superseded = m.stats.superseded ++ superseded_by table id (row_stamp row) rebased.0;
      };
    })

  -- A row that loses, and may fill columns of a book.
  unfoldable pub keep_local : String → String → Map → Option Map → PageMerge Text → PageMerge Text
  keep_local table id row local m =
      if str_eq table "books" && elim local [ none ↦ false | some r ↦ lacks_fillable r ]
      then record m { store = fill_null_book_columns m.store id row }
      else m

  unfoldable pub merge_object : String → String → Map → PageMerge Text → Result (PageMerge Text)
  merge_object table id row m = get_row m.store table id >>= λ local.
      if unwrap_or (as_bool (Json.get "deleted" row)) false && is_none (local_stamp local)
      then ok (skip_tombstone m)
      else if should_apply (local_stamp local) (row_stamp row)
      then apply_winner table id row m
      else ok (keep_local table id row local m)

  -- One round of the loop over the rows of a page.
  unfoldable pub merge_row : String → String → Value → PageMerge Text → Result (PageMerge Text)
  merge_row table pk (obj row) m = elim (as_str (Json.get pk row)) [
    | none ↦ ok m
    | some id ↦ merge_object table id row (see_row row m)
  ]
  merge_row table pk _ m = ok m
