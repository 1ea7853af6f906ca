-- ===== src/Push/Flush.antt =====
-- The outer loop of `flush` in src/sync/push.rs, and what it reads and writes around it.
use braird_core.Prelude.{
  String, Option, none, some, List, [], ◌∷◌, str_eq, filter_map, if◌then◌else◌,
}
use braird_core.Prelude.Maps
use braird_core.Json.{Map, Serde, str, obj, empty, entry}
use braird_core.Outbox.{OutboxItem, Collapsed, collapse}
use braird_core.Store.Schema.{synced_table_names}
use braird_core.Store.State.{OutboxRow, Store, json_text, outbox_items, clear_outbox}
use braird_core.Store.Meta.{meta_get, meta_set}
use braird_core.Push.{Server, FlushRun, flush_groups}

-- `serde_json::from_str` to a map of texts, from the value that the text holds.

unfoldable pub texts_of : Map → Option (List (String × String))
texts_of empty = some []
texts_of (entry k (str v) m) = elim (texts_of m) [
  | none ↦ none
  | some texts ↦ some (Maps.insert k v texts)
]
texts_of (entry k v m) = none

unfoldable pub remap_value : List (String × String) → Map
remap_value [] = empty
remap_value ((k, v) ∷ remap) = entry k (str v) (remap_value remap)

unfoldable pub fresh_run : List (String × String) → FlushRun
fresh_run remap = record {
  sent = [];
  ok_ids = [];
  failed_ids = [];
  failed = λ table. [];
  remap = remap;
}

module _ {Text : Type 0} ⦃serde : Serde Text⦄ where
  -- `none` is the error of a remap that cannot be parsed.
  unfoldable pub load_remap : Store Text → Option (List (String × String))
  load_remap s = elim (meta_get s "bookIdRemap") [
    | none ↦ some []
    | some (json_text text) ↦ elim (serde.from_str text) [ some (obj m) ↦ texts_of m | _ ↦ none ]
    | _ ↦ none
  ]

  unfoldable pub persist_remap : Store Text → List (String × String) → Store Text
  persist_remap s remap =
      meta_set s "bookIdRemap" (json_text (serde.to_string (obj (remap_value remap))))

  unfoldable pub read_item : OutboxRow Text → Option OutboxItem
  read_item r = elim (serde.from_str r.payload) [
    | none ↦ none
    | some payload ↦ some (record {
      id = r.id;
      table_name = r.table_name;
      record_id = r.record_id;
      payload = payload;
      created_at = r.created_at;
    })
  ]

  -- The queued writes whose payload can be parsed, collapsed.
  unfoldable pub collapsed_queue : Store Text → List (String × String) → List Collapsed
  collapsed_queue s remap = collapse (filter_map read_item (outbox_items s)) remap

  -- The outer loop, over the tables in the order of their dependencies.
  unfoldable pub flush_tables :
      Server → String → List Collapsed → List String → Store Text × FlushRun → Store Text × FlushRun
  flush_tables server user_id collapsed [] state = state
  flush_tables server user_id collapsed (table ∷ tables) state =
      let run = flush_groups server user_id table collapsed state.1 in
      flush_tables server user_id collapsed tables
        (if str_eq table "books" then persist_remap state.0 run.remap else state.0, run)

  unfoldable pub flush : Server → String → Store Text → Option (Store Text × FlushRun)
  flush server user_id s = elim (load_remap s) [
    | none ↦ none
    | some remap ↦
        let done =
          flush_tables server user_id (collapsed_queue s remap) synced_table_names
            (s, fresh_run remap) in
        some (clear_outbox done.0 done.1.ok_ids, done.1)
  ]
