-- ===== src/Outbox/Tables.antt =====
-- The tables of the groups that `collapse` of src/sync/outbox.rs makes.
use braird_core.Prelude.{
  String, ◌≡◌, List, [], ◌∷◌, map, some, All, All-sort_by_key, str_eq, sort_by_key, Bool-cases,
  Option-cases, inl, inr, arith,
}
use Prim.Native.String.{compare}
use text.Mathlib.Text.{is_lt}
use braird_core.Prelude.Maps
use braird_core.Outbox.{
  OutboxItem, Collapsed, Groups, group_key, absorb, new_group, collapse_step, collapse_items,
  repoint_all, collapse_groups, collapse, repoint,
}

module _ (P : String → Type 0) where
  -- Groups whose tables have the property.
  abbrev IsOf : Groups → Type 0
  IsOf groups = All (λ (entry : String × Collapsed). P entry.1.table) groups

  lookup-IsOf :
      (key : String) (groups : Groups) (group : Collapsed)
      → Maps.lookup key groups ≡ some group
      → IsOf groups
      → P group.table
  unfolding Maps.lookup
  lookup-IsOf key [] group h p = absurd (ground arith)
  lookup-IsOf key ((k, g) ∷ groups) group h p = elim (Bool-cases (str_eq k key)) [
    | inl e ↦ let same : g ≡ group = ground arith in rw (← same) p.0
    | inr e ↦ lookup-IsOf key groups group (ground arith) p.1
  ]

  without-IsOf : (key : String) (groups : Groups) → IsOf groups → IsOf (Maps.without key groups)
  unfolding Maps.without
  without-IsOf key [] p = tt
  without-IsOf key ((k, g) ∷ groups) p = elim (Bool-cases (str_eq k key)) [
    | inl e ↦ rw e (without-IsOf key groups p.1)
    | inr e ↦ rw e (p.0, without-IsOf key groups p.1)
  ]

  place-IsOf :
      (key : String) (group : Collapsed) (groups : Groups)
      → P group.table
      → IsOf groups
      → IsOf (Maps.place key group groups)
  unfolding Maps.place
  place-IsOf key group [] own p = (own, tt)
  place-IsOf key group ((k, g) ∷ groups) own p = elim (Bool-cases (is_lt (compare key k))) [
    | inl e ↦ rw e (own, p)
    | inr e ↦ rw e (p.0, place-IsOf key group groups own p.1)
  ]

  step-IsOf :
      (groups : Groups) (item : OutboxItem)
      → P item.table_name
      → IsOf groups
      → IsOf (collapse_step groups item)
  unfolding collapse_step Maps.insert absorb new_group
  step-IsOf groups item own p =
      let rest = without-IsOf (group_key item) groups p in
      elim (Option-cases (Maps.lookup (group_key item) groups)) [
        | inl e ↦ rw e (place-IsOf (group_key item) (absorb (new_group item) item) _ own rest)
        | inr (group, e) ↦ rw e (
            place-IsOf (group_key item) (absorb group item) _
              (lookup-IsOf (group_key item) groups group e p) rest)
      ]

  items-IsOf :
      (items : List OutboxItem) (groups : Groups)
      → All (λ (i : OutboxItem). P i.table_name) items
      → IsOf groups
      → IsOf (collapse_items groups items)
  unfolding collapse_items
  items-IsOf [] groups own p = p
  items-IsOf (item ∷ items) groups own p =
      items-IsOf items (collapse_step groups item) own.1 (step-IsOf groups item own.0 p)

  values-IsOf :
      (remap : List (String × String)) (groups : Groups)
      → IsOf groups
      → All (λ (g : Collapsed). P g.table) (map (λ entry. entry.1) (repoint_all remap groups))
  unfolding repoint_all repoint
  values-IsOf remap [] p = tt
  values-IsOf remap ((key, group) ∷ groups) p = elim (Bool-cases (str_eq group.table "notes")) [
    | inl e ↦ rw e (p.0, values-IsOf remap groups p.1)
    | inr e ↦ rw e (p.0, values-IsOf remap groups p.1)
  ]

  -- Each group is of the table of some item.
  pub collapse-tables :
      (items : List OutboxItem) (remap : List (String × String))
      → All (λ (i : OutboxItem). P i.table_name) items
      → All (λ (g : Collapsed). P g.table) (collapse items remap)
  unfolding collapse collapse_groups
  collapse-tables items remap own = values-IsOf remap _ (
      items-IsOf (sort_by_key (λ i. i.created_at) items) []
        (All-sort_by_key (λ (i : OutboxItem). P i.table_name) (λ i. i.created_at) items own) tt)
