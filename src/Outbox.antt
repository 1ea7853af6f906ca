-- ===== src/Outbox.antt =====
-- src/sync/outbox.rs: the queued writes are collapsed to one upsert for each record.
mod Grouping
pub mod Fields
pub mod Sticky
pub mod Ids
pub mod Tables
pub mod Remap
mod Examples
use Prim.Native.String.{◌++◌ as append}
use braird_core.Prelude.{
  ℕ, zero, suc, String, ℤ, Bool, true, false, ◌||◌, not, Option, none, some, List, [], ◌∷◌, ◌++◌,
  map, unwrap_or, sort_by_key, str_eq, if◌then◌else◌,
}
use braird_core.Prelude.Maps
use braird_core.Json
use braird_core.Json.{Value, Map, str, obj, bool, empty, as_str, truthy}

pub record OutboxItem : Type 0 where
  pub id : ℤ
  pub table_name : String
  pub record_id : Option String
  pub payload : Value
  pub created_at : ℤ

pub record Collapsed : Type 0 where
  pub table : String
  pub ids : List ℤ
  pub payload : Map

-- The columns of a payload, none if it is not an object. `payload.get("id")` of the source reads
-- the same columns.
unfoldable pub fields_of : Value → Map
fields_of (obj m) = m
fields_of _ = empty

unfoldable pub record_id_of : OutboxItem → String
record_id_of item = elim item.record_id [
  | some id ↦ id
  | none ↦ unwrap_or (as_str (Json.get "id" (fields_of item.payload))) ""
]

-- `format!("{}:{}", item.table_name, record_id)`
unfoldable pub group_key : OutboxItem → String
group_key item = append item.table_name (append ":" (record_id_of item))

-- The merge of one payload, with the sticky delete.
unfoldable pub merge_payload : Map → Value → Map
merge_payload payload (obj fields) =
    let merged = Json.extend payload fields in
    if truthy (Json.get "deleted" payload) || truthy (Json.get "deleted" fields)
    then Json.insert "deleted" (bool true) merged
    else merged
merge_payload payload _ = payload

unfoldable pub absorb : Collapsed → OutboxItem → Collapsed
absorb group item = record group {
  ids = group.ids ++ item.id ∷ [];
  payload = merge_payload group.payload item.payload;
}

abbrev pub Groups : Type 0
Groups = List (String × Collapsed)

-- `or_insert_with`
unfoldable pub new_group : OutboxItem → Collapsed
new_group item = record { table = item.table_name; ids = []; payload = empty }

-- One round of the loop over the items.
unfoldable pub collapse_step : Groups → OutboxItem → Groups
collapse_step groups item =
    let group = unwrap_or (Maps.lookup (group_key item) groups) (new_group item) in
    Maps.insert (group_key item) (absorb group item) groups

unfoldable pub collapse_items : Groups → List OutboxItem → Groups
collapse_items groups [] = groups
collapse_items groups (item ∷ items) = collapse_items (collapse_step groups item) items

-- At most `hops` rounds of the walk along the remap.
unfoldable pub resolve_hops : ℕ → String → List (String × String) → String
resolve_hops zero id remap = id
resolve_hops (suc hops) id remap = elim (Maps.lookup id remap) [
  | none ↦ id
  | some next ↦ elim (str_eq next id) [ true ↦ id | false ↦ resolve_hops hops next remap ]
]

unfoldable pub resolve_book_id : String → List (String × String) → String
resolve_book_id book_id remap = resolve_hops 20 book_id remap

-- A `book_id` column that holds a text is resolved.
unfoldable pub repoint_payload : List (String × String) → Map → Map
repoint_payload remap payload = elim (as_str (Json.get "book_id" payload)) [
  | none ↦ payload
  | some book_id ↦ Json.insert "book_id" (str (resolve_book_id book_id remap)) payload
]

unfoldable pub repoint : List (String × String) → Collapsed → Collapsed
repoint remap group =
    if str_eq group.table "notes"
    then record group { payload = repoint_payload remap group.payload }
    else group

-- The loop over `groups.values_mut()`.
unfoldable pub repoint_all : List (String × String) → Groups → Groups
repoint_all remap [] = []
repoint_all remap ((key, group) ∷ groups) = (key, repoint remap group) ∷ repoint_all remap groups

-- The map that `collapse` builds, before `into_values`.
unfoldable pub collapse_groups : List OutboxItem → List (String × String) → Groups
collapse_groups items book_id_remap =
    repoint_all book_id_remap (collapse_items [] (sort_by_key (λ i. i.created_at) items))

unfoldable pub collapse : List OutboxItem → List (String × String) → List Collapsed
collapse items book_id_remap = map (λ entry. entry.1) (collapse_groups items book_id_remap)
