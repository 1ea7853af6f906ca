-- ===== src/Reconcile/Duplicates/Losers.antt =====
-- Which losers `clean_loser_ids` of src/sync/reconcile.rs keeps.
use braird_core.Prelude.{
  String, ◌≡◌, refl, Bool, false, not, ◌&&◌, List, [], ◌∷◌, any, str_eq, arith, eq_iff, Bool-cases,
  inl, inr,
}
use braird_core.Push.{has_member}
use braird_core.Reconcile.Duplicates.{clean_from, clean_loser_ids}

-- No id is there twice.

abbrev pub IsDistinct : List String → Type 0
IsDistinct [] = Unit
IsDistinct (id ∷ ids) = (has_member ids id ≡ false) × IsDistinct ids

abbrev is_loser : String → List String → String → Bool
is_loser survivor_id seen id =
    not (str_eq id "") && not (str_eq id survivor_id) && not (has_member seen id)

module _ (survivor_id : String) where
  member-clean_from :
      (seen ids : List String) (id : String)
      → has_member (clean_from survivor_id seen ids) id
        ≡ (has_member ids id && is_loser survivor_id seen id)
  unfolding clean_from has_member any
  member-clean_from seen [] id = refl
  member-clean_from seen (k ∷ ids) id = elim (Bool-cases (is_loser survivor_id seen k)) [
    | inl kept ↦
        rw (kept, clean_from) (ground (arith, member-clean_from (k ∷ seen) ids id, eq_iff k id))
    | inr dropped ↦
        rw (dropped, clean_from) (ground (arith, member-clean_from seen ids id, eq_iff k id))
  ]

  clean_from-IsDistinct : (seen ids : List String) → IsDistinct (clean_from survivor_id seen ids)
  unfolding clean_from
  clean_from-IsDistinct seen [] = tt
  clean_from-IsDistinct seen (k ∷ ids) = elim (Bool-cases (is_loser survivor_id seen k)) [
    | inl kept ↦
        rw (kept, clean_from)
          (
            unfold has_member any in ground (arith, member-clean_from (k ∷ seen) ids k, eq_iff k k),
            clean_from-IsDistinct (k ∷ seen) ids,
          )
    | inr dropped ↦ rw (dropped, clean_from) (clean_from-IsDistinct seen ids)
  ]

  -- The losers of a merge are exactly the given ids other than the empty one and the survivor's, each
  -- once.
  pub clean_loser_ids-member :
      (loser_ids : List String)
      → IsDistinct (clean_loser_ids survivor_id loser_ids)
        × ((id : String)
            → has_member (clean_loser_ids survivor_id loser_ids) id
              ≡ (has_member loser_ids id && not (str_eq id "") && not (str_eq id survivor_id)))
  unfolding clean_loser_ids has_member any
  clean_loser_ids-member loser_ids =
      (clean_from-IsDistinct [] loser_ids, λ id. ground (arith, member-clean_from [] loser_ids id))
