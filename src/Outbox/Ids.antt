-- ===== src/Outbox/Ids.antt =====
-- `collapse` of src/sync/outbox.rs: the entries of its groups.
use braird_core.Prelude.{
  perm_rotate, String, ℤ, ◌≡◌, refl, some, List, [], ◌∷◌, ◌++◌, map, arith, eq_iff, str_eq,
  sort_by_key, sort_by_key-perm, Bool-cases, Option-cases, inl, inr,
}
use mathlib.Core.List.{Perm, perm_middle, append-nil}
use mathlib.Core.List.Perm
use Prim.Native.String.{compare}
use text.Mathlib.Text.{is_lt}
use braird_core.Prelude.Maps
use braird_core.Outbox.{
  OutboxItem, Collapsed, Groups, group_key, absorb, new_group, collapse_step, collapse_items,
  repoint_all, collapse_groups, collapse, repoint,
}

-- All the queue entries that the groups absorbed.

unfoldable pub ids_of : Groups → List ℤ
ids_of [] = []
ids_of ((key, group) ∷ groups) = group.ids ++ ids_of groups

ids_of-without :
    (key : String) (groups : Groups) (group : Collapsed)
    → Maps.lookup key groups ≡ some group
    → Maps.IsDistinct groups
    → Perm (ids_of groups) (group.ids ++ ids_of (Maps.without key groups))
unfolding ids_of Maps.without
ids_of-without key [] group h d = absurd (unfold Maps.lookup in ground arith)
ids_of-without key ((k, g) ∷ groups) group h d = elim (Bool-cases (str_eq k key)) [
  | inl e ↦
      let same : k ≡ key = (eq_iff k key).0 e in
      let head : g ≡ group = unfold Maps.lookup in ground arith in
      rw (e, head, Maps.without-none key groups (rw same at d.0)) Perm.rfl
  | inr e ↦
      let tail : Maps.lookup key groups ≡ some group = unfold Maps.lookup in ground arith in
      rw (e, ids_of)
        (Perm.trans (Perm.append_left g.ids (ids_of-without key groups group tail d.1))
          (perm_rotate g.ids group.ids (ids_of (Maps.without key groups))))
]

ids_of-place :
    (key : String) (group : Collapsed) (groups : Groups)
    → Perm (ids_of (Maps.place key group groups)) (group.ids ++ ids_of groups)
unfolding Maps.place ids_of
ids_of-place key group [] = Perm.rfl
ids_of-place key group ((k, g) ∷ groups) = elim (Bool-cases (is_lt (compare key k))) [
  | inl e ↦ rw (e, ids_of) Perm.rfl
  | inr e ↦
      rw (e, ids_of)
        (Perm.trans (Perm.append_left g.ids (ids_of-place key group groups))
          (perm_rotate g.ids group.ids (ids_of groups)))
]

step-IsDistinct :
    (groups : Groups) (item : OutboxItem)
    → Maps.IsDistinct groups
    → Maps.IsDistinct (collapse_step groups item)
unfolding collapse_step
step-IsDistinct groups item d = Maps.insert-IsDistinct _ _ groups d

step-ids :
    (groups : Groups) (item : OutboxItem)
    → Maps.IsDistinct groups
    → Perm (ids_of (collapse_step groups item)) (item.id ∷ ids_of groups)
unfolding collapse_step Maps.insert absorb new_group
step-ids groups item d = elim (Option-cases (Maps.lookup (group_key item) groups)) [
  | inl e ↦
      rw (e, Maps.without-none (group_key item) groups e)
        (ids_of-place (group_key item) (absorb (new_group item) item) groups)
  | inr (group, e) ↦
      let rest = Maps.without (group_key item) groups in
      rw e (
        Perm.trans (ids_of-place (group_key item) (absorb group item) rest) (
          Perm.trans (Perm.append_right (ids_of rest) (perm_middle group.ids [])) (
            Perm.cons item.id
              (rw append-nil (Perm.symm (ids_of-without (group_key item) groups group e d))))))
]

collapse_items-ids :
    (items : List OutboxItem) (groups : Groups)
    → Maps.IsDistinct groups
    → Perm (ids_of (collapse_items groups items)) (map (λ i. i.id) items ++ ids_of groups)
unfolding collapse_items
collapse_items-ids [] groups d = Perm.rfl
collapse_items-ids (item ∷ items) groups d =
    Perm.trans
      (collapse_items-ids items (collapse_step groups item) (step-IsDistinct groups item d))
      (Perm.trans (Perm.append_left (map (λ i. i.id) items) (step-ids groups item d))
        (perm_middle (map (λ i. i.id) items) (ids_of groups)))

-- The entries of a list of groups, as a flush reads them.
unfoldable pub all_ids : List Collapsed → List ℤ
all_ids [] = []
all_ids (group ∷ groups) = group.ids ++ all_ids groups

ids_of-values :
    (remap : List (String × String)) (groups : Groups)
    → all_ids (map (λ entry. entry.1) (repoint_all remap groups)) ≡ ids_of groups
unfolding all_ids ids_of repoint_all repoint
ids_of-values remap [] = refl
ids_of-values remap ((key, group) ∷ groups) = ground (arith, ids_of-values remap groups)

-- Each queue entry is in exactly one collapsed group: the groups' ids are the entries' ids,
-- rearranged. So no entry is lost, and none can be cleared on the strength of two writes.
pub collapse-ids :
    (items : List OutboxItem) (remap : List (String × String))
    → Perm (all_ids (collapse items remap)) (map (λ i. i.id) items)
unfolding collapse collapse_groups
collapse-ids items remap =
    let sorted = sort_by_key (λ i. i.created_at) items in
    rw (ids_of-values remap (collapse_items [] sorted)) (
      Perm.trans (collapse_items-ids sorted [] tt)
        (unfold ids_of in rw append-nil (Perm.map (λ i. i.id) (sort_by_key-perm _ items))))
