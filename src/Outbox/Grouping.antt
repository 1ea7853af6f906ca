-- ===== src/Outbox/Grouping.antt =====
-- One round of `collapse` of src/sync/outbox.rs, seen from one record's group.
use braird_core.Prelude.{
  String, ◌≡◌, Option, none, some, arith, eq_iff, str_eq, if◌then◌else◌, unwrap_or, List, [], ◌∷◌,
}
use braird_core.Prelude.Maps
use braird_core.Outbox.{
  OutboxItem, Collapsed, Groups, group_key, absorb, new_group, collapse_step, repoint, repoint_all,
}

-- Only the group of the item's own record changes.
pub lookup-step :
    (groups : Groups) (item : OutboxItem) (key : String)
    → Maps.lookup key (collapse_step groups item) ≡ (
        if str_eq (group_key item) key
        then some (absorb (unwrap_or (Maps.lookup key groups) (new_group item)) item)
        else Maps.lookup key groups)
unfolding collapse_step
lookup-step groups item key = ground (
  arith,
  Maps.lookup-insert (group_key item) key
      (absorb (unwrap_or (Maps.lookup (group_key item) groups) (new_group item)) item) groups,
  eq_iff (group_key item) key,
)

-- `Option::map`
abbrev pub mapped : (Collapsed → Collapsed) → Option Collapsed → Option Collapsed
mapped f none = none
mapped f (some group) = some (f group)

pub lookup-repoint_all :
    (remap : List (String × String)) (key : String) (groups : Groups)
    → Maps.lookup key (repoint_all remap groups) ≡ mapped (repoint remap) (Maps.lookup key groups)
unfolding repoint_all Maps.lookup
lookup-repoint_all remap key [] = ground arith
lookup-repoint_all remap key ((k, group) ∷ groups) =
    ground (arith, lookup-repoint_all remap key groups)
