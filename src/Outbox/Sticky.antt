-- ===== src/Outbox/Sticky.antt =====
-- `collapse` of src/sync/outbox.rs: the queued deletes of a record.
use braird_core.Prelude.{
  String, ◌≡◌, refl, Bool, true, false, ◌||◌, ◌&&◌, Option, none, some, List, [], ◌∷◌, any, arith,
  eq_iff, str_eq, sort_by_key, Bool-cases, Option-cases, ◌∙◌, ap, inl, inr, any-sort_by_key,
  unwrap_or,
}
use braird_core.Prelude.Maps
use braird_core.Json
use braird_core.Json.{Value, Map, obj, bool, truthy, empty, str, as_str}
use braird_core.Json.Laws.{get-insert, get-extend, truthy-bool, truthy-none}
use braird_core.Outbox.Grouping.{lookup-step, lookup-repoint_all, mapped}
use braird_core.Outbox.{
  resolve_book_id, collapse_groups, repoint, repoint_payload, OutboxItem, Collapsed, Groups,
  fields_of, group_key, merge_payload, absorb, new_group, collapse_step, collapse_items,
}

-- Does the item delete the record `key`?

unfoldable pub deletes : String → OutboxItem → Bool
deletes key item =
    str_eq (group_key item) key && truthy (Json.get "deleted" (fields_of item.payload))

-- Is the record `key` deleted in its group?
unfoldable pub deleted_in : Option Collapsed → Bool
deleted_in none = false
deleted_in (some group) = truthy (Json.get "deleted" group.payload)

merge_payload-deleted :
    (payload : Map) (v : Value)
    → truthy (Json.get "deleted" (merge_payload payload v))
      ≡ (truthy (Json.get "deleted" payload) || truthy (Json.get "deleted" (fields_of v)))
unfolding merge_payload fields_of
merge_payload-deleted payload (obj fields) = ground (
  arith,
  get-insert "deleted" "deleted" (bool true) (Json.extend payload fields),
  get-extend payload fields "deleted",
  eq_iff "deleted" "deleted",
  truthy-bool true,
  truthy-none,
)
merge_payload-deleted payload _ = unfold Json.get in ground (arith, truthy-none)

absorb-deleted :
    (old : Option Collapsed) (item : OutboxItem)
    → deleted_in (some (absorb (unwrap_or old (new_group item)) item))
      ≡ (deleted_in old || truthy (Json.get "deleted" (fields_of item.payload)))
unfolding absorb deleted_in new_group
absorb-deleted none item =
    unfold Json.get in ground (arith, merge_payload-deleted empty item.payload, truthy-none)
absorb-deleted (some group) item = merge_payload-deleted group.payload item.payload

step-deleted :
    (groups : Groups) (item : OutboxItem) (key : String)
    → deleted_in (Maps.lookup key (collapse_step groups item))
      ≡ (deleted_in (Maps.lookup key groups) || deletes key item)
unfolding deletes
step-deleted groups item key = elim (Bool-cases (str_eq (group_key item) key)) [
  | inl e ↦ rw (lookup-step, e) (absorb-deleted (Maps.lookup key groups) item)
  | inr e ↦ rw (lookup-step, e) (ground arith)
]

-- A group is deleted exactly when it was, or when some item of its record deletes it.
pub collapse_items-deleted :
    (items : List OutboxItem) (groups : Groups) (key : String)
    → deleted_in (Maps.lookup key (collapse_items groups items))
      ≡ (deleted_in (Maps.lookup key groups) || any (deletes key) items)
unfolding collapse_items any
collapse_items-deleted [] groups key = ground arith
collapse_items-deleted (item ∷ items) groups key = ground (
  arith,
  collapse_items-deleted items (collapse_step groups item) key,
  step-deleted groups item key,
)

repoint-deleted :
    (remap : List (String × String)) (o : Option Collapsed)
    → deleted_in (mapped (repoint remap) o) ≡ deleted_in o
unfolding deleted_in repoint repoint_payload
repoint-deleted remap none = refl
repoint-deleted remap (some group) =
    elim (Option-cases (as_str (Json.get "book_id" group.payload))) [
      | inl e ↦ ground arith
      | inr (book_id, e) ↦ ground (
        arith,
        get-insert "book_id" "deleted" (str (resolve_book_id book_id remap)) group.payload,
      )
    ]

-- Within one flush a delete wins: the collapsed write of a record is a delete exactly when some
-- queued write of the record is one, whatever the others say and in whatever order they came.
pub collapse-deleted :
    (items : List OutboxItem) (remap : List (String × String)) (key : String)
    → deleted_in (Maps.lookup key (collapse_groups items remap)) ≡ any (deletes key) items
unfolding collapse_groups
collapse-deleted items remap key =
    let sorted = sort_by_key (λ i. i.created_at) items in
    ap deleted_in (lookup-repoint_all remap key (collapse_items [] sorted))
    ∙ repoint-deleted remap (Maps.lookup key (collapse_items [] sorted))
    ∙ collapse_items-deleted sorted [] key
    ∙ (unfold Maps.lookup deleted_in in any-sort_by_key (deletes key) (λ i. i.created_at) items)
