-- ===== src/Outbox/Examples.antt =====
-- Runs of src/sync/outbox.rs, and its theorems at a concrete queue.
use braird_core.Prelude.{
  String, pos, ◌≡◌, refl, true, false, some, List, [], ◌∷◌, any, map, arith, eq_iff, sort_by_key,
  inl,
}
use mathlib.Core.Bool.{false≢true}
use mathlib.Core.List.{Perm}
use braird_core.Prelude.Maps
use braird_core.Json
use braird_core.Json.{Value, str, bool, obj, entry, empty}
use braird_core.Outbox.{
  OutboxItem, Collapsed, fields_of, record_id_of, group_key, merge_payload, absorb, new_group,
  collapse_step, collapse_items, collapse_groups, collapse, repoint, repoint_payload, repoint_all,
  resolve_book_id, resolve_hops,
}
use braird_core.Outbox.Sticky.{deletes, deleted_in, collapse-deleted}
use braird_core.Outbox.Fields.{last_write, field_in, collapse-field, collapse-book_id}
use braird_core.Outbox.Ids.{all_ids, collapse-ids}
use braird_core.Outbox.Remap.{here, hop, resolve_book_id_reaches}

abbrev edit : OutboxItem
edit = record {
  id = pos 2;
  table_name = "notes";
  record_id = some "n1";
  payload =
      obj
        (entry "text" (str "b") (entry "book_id" (str "tmp") (entry "deleted" (bool false) empty)));
  created_at = pos 200;
}

abbrev removal : OutboxItem
removal = record {
  id = pos 1;
  table_name = "notes";
  record_id = some "n1";
  payload = obj (entry "text" (str "a") (entry "deleted" (bool true) empty));
  created_at = pos 100;
}

abbrev queue : List OutboxItem
queue = edit ∷ removal ∷ []

abbrev merges : List (String × String)
merges = ("srv", "final") ∷ ("tmp", "srv") ∷ []

collapse-queue :
    collapse queue merges
    ≡ record {
      table = "notes";
      ids = pos 1 ∷ pos 2 ∷ [];
      payload =
          entry "book_id"
            (str "final")
            (entry "deleted" (bool true) (entry "text" (str "b") empty));
    }
      ∷ []
unfolding collapse collapse_groups collapse_items collapse_step repoint_all repoint repoint_payload
    resolve_book_id resolve_hops sort_by_key group_key record_id_of new_group absorb merge_payload
    Maps.lookup Maps.insert Maps.place Maps.without Json.get Json.insert Json.place Json.remove
    Json.extend Json.truthy Json.as_str
collapse-queue = refl

collapse-deleted_example :
    deleted_in (Maps.lookup "notes:n1" (collapse_groups queue merges))
    ≡ any (deletes "notes:n1") queue
collapse-deleted_example = collapse-deleted queue merges "notes:n1"

collapse-field_example :
    field_in "notes:n1" "text" (Maps.lookup "notes:n1" (collapse_groups queue merges))
    ≡ last_write "notes:n1" "text" (sort_by_key (λ i. i.created_at) queue)
collapse-field_example =
    collapse-field "notes:n1" "text" queue merges (λ p. false≢true ((eq_iff "text" "deleted").1 p))
      (λ p. false≢true ((eq_iff "text" "book_id").1 p))

abbrev merged_group : Collapsed
merged_group = record {
  table = "notes";
  ids = pos 1 ∷ pos 2 ∷ [];
  payload =
      entry "book_id" (str "tmp") (entry "deleted" (bool true) (entry "text" (str "b") empty));
}

collapse-book_id_example :
    field_in "notes:n1" "book_id" (Maps.lookup "notes:n1" (collapse_groups queue merges))
    ≡ some (str (resolve_book_id "tmp" merges))
unfolding collapse_items collapse_step sort_by_key group_key record_id_of new_group absorb
    merge_payload Maps.lookup Maps.insert Maps.place Maps.without Json.get Json.insert Json.place
    Json.remove Json.extend Json.truthy Json.as_str last_write fields_of
collapse-book_id_example =
    collapse-book_id "notes:n1" queue merges merged_group "tmp" refl refl refl

collapse-ids_example : Perm (all_ids (collapse queue merges)) (map (λ i. i.id) queue)
collapse-ids_example = collapse-ids queue merges

resolve_book_id_reaches_example : resolve_book_id "tmp" merges ≡ "final"
unfolding Maps.lookup
resolve_book_id_reaches_example =
    resolve_book_id_reaches merges
      (hop refl (λ p. false≢true ((eq_iff "srv" "tmp").1 p))
        (hop refl (λ p. false≢true ((eq_iff "final" "srv").1 p)) here))
      (inl refl) (omega arith)

abbrev cycle : List (String × String)
cycle = ("a", "b") ∷ ("b", "a") ∷ []
