-- ===== src/Push.antt =====
-- src/sync/push.rs: one flush of the queue. The server is a function of the requests that it has
-- had and of the one it gets, so that its answers may depend on everything that was sent.
pub mod Round
pub mod Flush
pub mod Partition
pub mod Answers
pub mod Parents
pub mod Order
pub mod Outcome
pub mod Queue
pub mod Refused
pub mod Shape
pub mod Examples
use braird_core.Prelude.{
  String, ℤ, ◌≡◌, Bool, true, false, not, Option, none, some, List, [], ◌∷◌, ◌++◌, str_eq, any,
  filter_map, unwrap_or, if◌then◌else◌,
}
use braird_core.Prelude.Maps
use braird_core.Json
use braird_core.Json.{
  Value, Items, Map, Serde, str, obj, arr, nil, cons, empty, entry, as_str, is_null, contains_key,
}
use braird_core.Outbox.{OutboxItem, Collapsed, repoint_payload, collapse}
use braird_core.Store.Schema.{TableSchema, table_schema, synced_table_names, book_fillable_columns}
use braird_core.Store.State.{
  OutboxRow, Store, MetaValue, decimal, json_text, update, outbox_items, clear_outbox,
}
use braird_core.Store.Meta.{meta_get, meta_set}

-- The calls that a flush makes on a `PostgrestSink`.
pub data Request : Type 0 where
  upsert : (table on_conflict : String) → (rows : Value) → Request
  patch : (table primary_key record_id : String) → (row : Value) → Request

-- Whether the server accepts a request, by the requests before it, the latest first.
abbrev pub Server : Type 0
Server = List Request → Request → Bool

-- The variables of `flush` that its loops change. `failed` has the record ids of each table that
-- failed or were held back.
pub record FlushRun : Type 0 where
  pub sent : List Request
  pub ok_ids : List ℤ
  pub failed_ids : List ℤ
  pub failed : String → List String
  pub remap : List (String × String)

unfoldable pub on_conflict_for : String → String
on_conflict_for table =
    if str_eq table "note_signals"
    then "note_id"
    else if str_eq table "user_settings"
    then "user_id,key"
    else "id"

unfoldable pub record_id_column : String → String
record_id_column table = elim (table_schema table) [ none ↦ "id" | some t ↦ t.pk ]

-- A `match` on a table name, as the list of its arms; `_` gives the empty slice.
unfoldable pub arm {ℓ} : {A : Type ℓ} → List (String × List A) → String → List A
arm arms table = unwrap_or (Maps.lookup table arms) []

unfoldable pub required_insert_columns : String → List String
required_insert_columns = arm (
    ("books", "title" ∷ "created_at" ∷ [])
    ∷ ("notes", "text" ∷ "created_at" ∷ [])
    ∷ ("custom_ideas", "name" ∷ [])
    ∷ ("lenses", "name" ∷ "created_at" ∷ [])
    ∷ ("collections", "name" ∷ "created_at" ∷ [])
    ∷ ("collection_memberships", "note_id" ∷ "collection_id" ∷ "created_at" ∷ [])
    ∷ ("note_links", "from_note_id" ∷ "to_note_id" ∷ "created_at" ∷ [])
    ∷ ("note_signals", "created_at" ∷ [])
    ∷ ("questions", "text" ∷ "created_at" ∷ [])
    ∷ ("question_notes", "question_id" ∷ "note_id" ∷ "created_at" ∷ [])
    ∷ [])

-- The foreign keys of a table, each with the table it points into.
unfoldable pub fk_deps : String → List (String × String)
fk_deps = arm (
    ("notes", ("book_id", "books") ∷ [])
    ∷ ("note_links", ("from_note_id", "notes") ∷ ("to_note_id", "notes") ∷ [])
    ∷ ("collection_memberships", ("note_id", "notes") ∷ ("collection_id", "collections") ∷ [])
    ∷ ("note_signals", ("note_id", "notes") ∷ [])
    ∷ ("question_notes", ("question_id", "questions") ∷ ("note_id", "notes") ∷ [])
    ∷ [])

unfoldable pub drop_nulls : List String → Map → Map
drop_nulls [] payload = payload
drop_nulls (col ∷ cols) payload = drop_nulls cols (elim (Json.get col payload) [
  | none ↦ payload
  | some v ↦ if is_null v then Json.remove col payload else payload
])

-- The payload that is sent: `book_id` repointed again, and a book without its unset columns.
unfoldable pub prepare : List (String × String) → String → Map → Map
prepare remap table payload =
    let repointed = repoint_payload remap payload in
    if str_eq table "books" then drop_nulls book_fillable_columns repointed else repointed

unfoldable pub sent_record_id : String → Map → String
sent_record_id table payload = unwrap_or (as_str (Json.get (record_id_column table) payload)) ""

unfoldable pub has_member : List String → String → Bool
has_member members id = any (λ member. str_eq member id) members

unfoldable pub is_blocked : (String → List String) → List (String × String) → Map → Bool
is_blocked failed deps payload =
    any
      (λ dep. elim (as_str (Json.get dep.0 payload)) [
        | none ↦ false
        | some id ↦ has_member (failed dep.1) id
      ])
      deps

unfoldable pub is_sparse : String → Map → Bool
is_sparse table payload =
    any (λ column. not (contains_key column payload)) (required_insert_columns table)

unfoldable pub upsert_group : String → Map → String → Request
upsert_group table payload user_id =
    upsert table (on_conflict_for table)
      (arr (cons (obj (Json.insert "user_id" (str user_id) payload)) nil))

unfoldable pub patch_group : String → Map → String → String → Request
patch_group table payload primary_key record_id =
    patch table primary_key record_id (obj (Json.remove primary_key payload))

unfoldable pub request_for : String → String → Map → Request
request_for user_id table payload =
    if is_sparse table payload
    then patch_group table payload (record_id_column table) (sent_record_id table payload)
    else upsert_group table payload user_id

-- A group that is held back or refused.
unfoldable pub fail_group : String → String → List ℤ → FlushRun → FlushRun
fail_group table record_id ids run = record run {
  failed_ids = run.failed_ids ++ ids;
  failed = update run.failed table (record_id ∷ run.failed table);
}

-- The book's temporary id in the remap, where its payload names the server's.
unfoldable pub learn_server_id :
    String → String → Map → List (String × String) → List (String × String)
learn_server_id table record_id payload remap =
    if str_eq table "books"
    then elim (as_str (Json.get "server_id" payload)) [
      | none ↦ remap
      | some server_id ↦
          if str_eq server_id record_id then remap else Maps.insert record_id server_id remap
    ]
    else remap

unfoldable pub finish_group : String → Map → List ℤ → FlushRun → FlushRun
finish_group table payload ids run = record run {
  ok_ids = run.ok_ids ++ ids;
  remap = learn_server_id table (sent_record_id table payload) payload run.remap;
}

-- One round of the inner loop.
unfoldable pub flush_group : Server → String → String → Collapsed → FlushRun → FlushRun
flush_group server user_id table group run =
    let payload = prepare run.remap table group.payload in
    let request = request_for user_id table payload in
    let record_id = sent_record_id table payload in
    let asked : FlushRun = record run { sent = request ∷ run.sent } in
    if is_blocked run.failed (fk_deps table) payload
    then fail_group table record_id group.ids run
    else if server run.sent request
    then finish_group table payload group.ids asked
    else fail_group table record_id group.ids asked

unfoldable pub flush_groups : Server → String → String → List Collapsed → FlushRun → FlushRun
flush_groups server user_id table [] run = run
flush_groups server user_id table (group ∷ groups) run =
    flush_groups server user_id table groups
      (if str_eq group.table table then flush_group server user_id table group run else run)
