-- ===== src/Outbox/Fields.antt =====
-- `collapse` of src/sync/outbox.rs: the columns of a record's group.
use braird_core.Prelude.{
  String, ◌≡◌, ◌≢◌, refl, sym, ap, ◌∙◌, Option, none, some, List, [], ◌∷◌, arith, eq_iff, str_eq,
  if◌then◌else◌, sort_by_key, unwrap_or, Bool-cases, Option-cases, inl, inr, true,
}
use mathlib.Core.Bool.{false≢true}
use braird_core.Prelude.Maps
use braird_core.Json
use braird_core.Json.{Value, Map, obj, bool, empty, str, as_str}
use braird_core.Json.Laws.{get-insert, get-extend, or_else, or_else-none}
use braird_core.Outbox.{
  OutboxItem, Collapsed, Groups, fields_of, group_key, merge_payload, absorb, new_group,
  collapse_step, collapse_items, collapse_groups, repoint, repoint_payload, resolve_book_id,
}
use braird_core.Outbox.Grouping.{lookup-step, lookup-repoint_all, mapped}

module _ (key field : String) where
  -- What the last of the items that writes the field of the record `key` writes there.
  unfoldable pub last_write : List OutboxItem → Option Value
  last_write [] = none
  last_write (item ∷ items) =
      or_else (last_write items)
        (if str_eq (group_key item) key then Json.get field (fields_of item.payload) else none)

  unfoldable pub field_in : Option Collapsed → Option Value
  field_in none = none
  field_in (some group) = Json.get field group.payload

  -- The columns that the merge itself never writes.
  module _ (plain : field ≢ "deleted") where
    merge_payload-field :
        (payload : Map) (v : Value)
        → Json.get field (merge_payload payload v)
          ≡ or_else (Json.get field (fields_of v)) (Json.get field payload)
    unfolding merge_payload fields_of
    merge_payload-field payload (obj fields) = ground (
      arith,
      get-insert "deleted" field (bool true) (Json.extend payload fields),
      get-extend payload fields field,
      eq_iff "deleted" field,
    )
    merge_payload-field payload _ = unfold Json.get in refl

    absorb-field :
        (old : Option Collapsed) (item : OutboxItem)
        → field_in (some (absorb (unwrap_or old (new_group item)) item))
          ≡ or_else (Json.get field (fields_of item.payload)) (field_in old)
    unfolding absorb field_in new_group
    absorb-field none item =
        unfold Json.get in ground (arith, merge_payload-field empty item.payload)
    absorb-field (some group) item = merge_payload-field group.payload item.payload

    step-field :
        (groups : Groups) (item : OutboxItem)
        → field_in (Maps.lookup key (collapse_step groups item))
          ≡ or_else
              (if str_eq (group_key item) key
                then Json.get field (fields_of item.payload)
                else none)
              (field_in (Maps.lookup key groups))
    step-field groups item = elim (Bool-cases (str_eq (group_key item) key)) [
      | inl e ↦ rw (lookup-step, e) (absorb-field (Maps.lookup key groups) item)
      | inr e ↦ rw (lookup-step, e) refl
    ]

    collapse_items-field :
        (items : List OutboxItem) (groups : Groups)
        → field_in (Maps.lookup key (collapse_items groups items))
          ≡ or_else (last_write items) (field_in (Maps.lookup key groups))
    unfolding collapse_items last_write
    collapse_items-field [] groups = refl
    collapse_items-field (item ∷ items) groups =
        ground
          (arith, collapse_items-field items (collapse_step groups item), step-field groups item)

    repoint-field :
        field ≢ "book_id"
        → (remap : List (String × String)) (o : Option Collapsed)
        → field_in (mapped (repoint remap) o) ≡ field_in o
    unfolding field_in repoint repoint_payload
    repoint-field other remap none = refl
    repoint-field other remap (some group) =
        elim (Option-cases (as_str (Json.get "book_id" group.payload))) [
          | inl e ↦ ground arith
          | inr (book_id, e) ↦ ground (
            arith,
            get-insert "book_id" field (str (resolve_book_id book_id remap)) group.payload,
            eq_iff "book_id" field,
          )
        ]

-- For each column but `deleted` and `book_id`, the collapsed write of a record carries the value of
-- the last queued write that has the column, in the stable order of `created_at`; a column that no
-- queued write has is absent.
pub collapse-field :
    (key field : String) (items : List OutboxItem) (remap : List (String × String))
    → field ≢ "deleted"
    → field ≢ "book_id"
    → field_in key field (Maps.lookup key (collapse_groups items remap))
      ≡ last_write key field (sort_by_key (λ i. i.created_at) items)
unfolding collapse_groups
collapse-field key field items remap plain other =
    let sorted = sort_by_key (λ i. i.created_at) items in
    ap (field_in key field) (lookup-repoint_all remap key (collapse_items [] sorted))
    ∙ repoint-field key field plain other remap (Maps.lookup key (collapse_items [] sorted))
    ∙ collapse_items-field key field plain sorted []
    ∙ (unfold Maps.lookup field_in in or_else-none _)

repoint-book_id :
    (key : String) (remap : List (String × String)) (group : Collapsed) (book_id : String)
    → group.table ≡ "notes"
    → as_str (field_in key "book_id" (some group)) ≡ some book_id
    → field_in key "book_id" (some (repoint remap group))
      ≡ some (str (resolve_book_id book_id remap))
unfolding repoint repoint_payload field_in
repoint-book_id key remap group book_id notes e = ground (
  arith,
  get-insert "book_id" "book_id" (str (resolve_book_id book_id remap)) group.payload,
  eq_iff "book_id" "book_id",
  eq_iff group.table "notes",
)

book_id-ne-deleted : ◌≢◌ {A = String} "book_id" "deleted"
book_id-ne-deleted p = false≢true ((eq_iff "book_id" "deleted").1 p)

-- A collapsed note whose last queued `book_id` is a text points at that book's survivor in the
-- remap.
pub collapse-book_id :
    (key : String) (items : List OutboxItem) (remap : List (String × String)) (group : Collapsed)
    (book_id : String)
    → Maps.lookup key (collapse_items [] (sort_by_key (λ i. i.created_at) items)) ≡ some group
    → group.table ≡ "notes"
    → as_str (last_write key "book_id" (sort_by_key (λ i. i.created_at) items)) ≡ some book_id
    → field_in key "book_id" (Maps.lookup key (collapse_groups items remap))
      ≡ some (str (resolve_book_id book_id remap))
unfolding collapse_groups
collapse-book_id key items remap group book_id found notes e =
    let sorted = sort_by_key (λ i. i.created_at) items in
    let written : field_in key "book_id" (some group) ≡ last_write key "book_id" sorted =
      ap (field_in key "book_id") (sym found)
      ∙ collapse_items-field key "book_id" book_id-ne-deleted sorted []
      ∙ (unfold Maps.lookup field_in in or_else-none _) in
    ap (field_in key "book_id")
      (lookup-repoint_all remap key (collapse_items [] sorted) ∙ ap (mapped (repoint remap)) found)
    ∙ repoint-book_id key remap group book_id notes (ap as_str written ∙ e)
