-- ===== src/Push/Partition.antt =====
-- What `flush` of src/sync/push.rs does with the ids of the groups.
use braird_core.Prelude.{
  perm_last, perm_rotate, perm_between, subst, String, ℤ, ◌≡◌, refl, true, false, List, [], ◌∷◌,
  ◌++◌, str_eq, filter, Bool-cases, inl, inr, arith, eq_iff, any, sym,
}
use mathlib.Core.List.{Perm, append_assoc}
use mathlib.Core.List.Perm
use braird_core.Outbox.{Collapsed}
use braird_core.Outbox.Ids.{all_ids}
use braird_core.Json.{Serde}
use braird_core.Store.State.{Store}
use braird_core.Push.{
  Server, FlushRun, flush_group, flush_groups, fail_group, finish_group, has_member,
}
use braird_core.Push.Round.{Round, held, flushed, refused, flush_group-Round}
use braird_core.Push.Flush.{flush_tables}

-- The ids that a flush has decided on.

abbrev pub decided : FlushRun → List ℤ
decided run = run.ok_ids ++ run.failed_ids

-- A round decides on the group's ids, one way or the other.
Round-decided :
    {server : Server} {user_id table : String} {group : Collapsed} {run after : FlushRun}
    → Round server user_id table group run after
    → Perm (decided after) (group.ids ++ decided run)
unfolding fail_group finish_group
Round-decided {group = group} {run = run} (held e) = perm_last run.ok_ids run.failed_ids group.ids
Round-decided {group = group} {run = run} (flushed e a) =
    perm_between run.ok_ids group.ids run.failed_ids
Round-decided {group = group} {run = run} (refused e a) =
    perm_last run.ok_ids run.failed_ids group.ids

flush_groups-decided :
    (server : Server) (user_id table : String) (groups : List Collapsed) (run : FlushRun)
    → Perm
        (decided (flush_groups server user_id table groups run))
        (all_ids (filter (λ g. str_eq g.table table) groups) ++ decided run)
unfolding flush_groups filter all_ids
flush_groups-decided server user_id table [] run = Perm.rfl
flush_groups-decided server user_id table (group ∷ groups) run =
    elim (Bool-cases (str_eq group.table table)) [
      | inl e ↦
          let rest = all_ids (filter (λ g. str_eq g.table table) groups) in
          rw (e, flush_groups, all_ids)
            (Perm.trans
              (flush_groups-decided server user_id table groups
                (flush_group server user_id table group run))
              (Perm.trans
                (Perm.append_left rest
                  (Round-decided (flush_group-Round server user_id table group run)))
                (subst (λ l. Perm (rest ++ (group.ids ++ decided run)) l)
                  (sym (append_assoc group.ids rest (decided run)))
                  (perm_rotate rest group.ids (decided run)))))
      | inr e ↦ rw (e, flush_groups, all_ids) (flush_groups-decided server user_id table groups run)
    ]

-- Tables that are each named once.
abbrev pub IsUnique : List String → Type 0
IsUnique [] = Unit
IsUnique (table ∷ tables) = (has_member tables table ≡ false) × IsUnique tables

-- The groups of a list of tables.
abbrev pub of_tables : List String → List Collapsed → List Collapsed
of_tables tables groups = filter (λ g. has_member tables g.table) groups

of_tables-nil : (groups : List Collapsed) → of_tables [] groups ≡ []
unfolding filter has_member any
of_tables-nil [] = refl
of_tables-nil (group ∷ groups) = of_tables-nil groups

of_tables-cons :
    (table : String) (tables : List String) (groups : List Collapsed)
    → has_member tables table ≡ false
    → Perm
        (all_ids (of_tables (table ∷ tables) groups))
        (all_ids (of_tables tables groups) ++ all_ids (filter (λ g. str_eq g.table table) groups))
unfolding all_ids filter
of_tables-cons table tables [] u = Perm.rfl
of_tables-cons table tables (group ∷ groups) u =
    let here = all_ids (filter (λ g. str_eq g.table table) groups) in
    let later = all_ids (of_tables tables groups) in
    let rest = of_tables-cons table tables groups u in
    elim (Bool-cases (str_eq group.table table)) [
      | inl e ↦
          let same : group.table ≡ table = (eq_iff group.table table).0 e in
          let member : has_member (table ∷ tables) group.table ≡ true =
            unfold has_member any in ground (arith, eq_iff table group.table) in
          let other : has_member tables group.table ≡ false = rw same u in
          rw (e, member, other, all_ids)
            (Perm.trans (Perm.append_left group.ids rest) (perm_rotate group.ids later here))
      | inr e ↦
          let skip : has_member (table ∷ tables) group.table ≡ has_member tables group.table =
            unfold has_member any in
            ground (arith, eq_iff table group.table, eq_iff group.table table) in
          elim (Bool-cases (has_member tables group.table)) [
            | inl m ↦
                rw (e, skip, m, all_ids)
                  (subst (λ l. Perm (group.ids ++ all_ids (of_tables (table ∷ tables) groups)) l)
                    (sym (append_assoc group.ids later here)) (Perm.append_left group.ids rest))
            | inr m ↦ rw (e, skip, m) rest
          ]
    ]

module _ {Text : Type 0} ⦃serde : Serde Text⦄ (server : Server) (user_id : String)
    (collapsed : List Collapsed) where
  pub flush_tables-decided :
      (tables : List String) (state : Store Text × FlushRun)
      → IsUnique tables
      → Perm
          (decided (flush_tables server user_id collapsed tables state).1)
          (all_ids (of_tables tables collapsed) ++ decided state.1)
  unfolding flush_tables
  flush_tables-decided [] state u = rw (of_tables-nil collapsed) (unfold all_ids in Perm.rfl)
  flush_tables-decided (table ∷ tables) state u =
      let here = all_ids (filter (λ g. str_eq g.table table) collapsed) in
      let later = all_ids (of_tables tables collapsed) in
      Perm.trans (flush_tables-decided tables _ u.1) (
        Perm.trans
          (Perm.append_left later (flush_groups-decided server user_id table collapsed state.1))
          (subst (λ l. Perm l (all_ids (of_tables (table ∷ tables) collapsed) ++ decided state.1))
            (append_assoc later here (decided state.1))
            (Perm.append_right (decided state.1)
              (Perm.symm (of_tables-cons table tables collapsed u.0)))))
