-- ===== src/Reconcile/Duplicates/Gathered.antt =====
-- The parts of `merge_books` of src/sync/reconcile.rs around its loop over the losers.
use braird_core.Prelude.{
  String, ℤ, true, ◌++◌, ◌||◌, ◌∙◌, All-map, arith, eq_iff, in_i64, Bool, List, [], ◌∷◌, ◌≡◌, refl,
  subst, All, All-append, Bool-cases, inl, inr, str_eq, any,
}
use braird_core.Push.{has_member}
use braird_core.Store.Writes.{IsStamped}
use braird_core.Reconcile.Duplicates.Moved.{Moves, Moves-map, book-IsMoved}
use braird_core.Reconcile.Duplicates.Retired.{IsOwn, ids_of, IsRetired, tombstone_losers-Ends}
use braird_core.Json.{Map, Serde, num, int}
use braird_core.Store.State.{Store}
use braird_core.Store.Staging.{stage_local_write}
use braird_core.Reconcile.{done, ◌>>=◌, commit}
use braird_core.Reconcile.Sound.{
  IsSound, Ends, then-Ends, stage-Ends, get-insert-id, book_patch-IsStamped,
}
use braird_core.Reconcile.Duplicates.{
  BookMergeUndo, Merging, survivor_patch, close_loser, tombstone_losers, finish_merge,
}

-- What a merge has gathered: rows with the ids of their entries, for every loser of the undo.

abbrev pub AreOwn : Merging → Type 0
AreOwn m =
    All IsOwn m.to_tombstone
    × All (λ id. has_member (ids_of m.to_tombstone) id ≡ true) m.undo.loser_ids

member-append :
    (losers : List (String × Map)) (id j : String) (row : Map)
    → has_member (ids_of (losers ++ (id, row) ∷ [])) j
      ≡ (has_member (ids_of losers) j || str_eq id j)
unfolding has_member any
member-append [] id j row = ground arith
member-append ((k, other) ∷ losers) id j row = ground (arith, member-append losers id j row)

pub close_loser-own :
    (id : String) (row : Map) (resumed : Bool) (undo : BookMergeUndo) (m : Merging)
    → IsOwn (id, row)
    → AreOwn m
    → undo.loser_ids ≡ m.undo.loser_ids
    → AreOwn (close_loser id row resumed undo m)
unfolding close_loser
close_loser-own id row resumed undo m own (all, closed) same = (
  All-append IsOwn m.to_tombstone ((id, row) ∷ []) all (own, tt),
  elim (Bool-cases resumed) [
    | inl e ↦ rw (e, same) longer
    | inr e ↦
        rw (e, same)
          (All-append Closed m.undo.loser_ids (id ∷ []) longer
            (ground (arith, member-append m.to_tombstone id id row, eq_iff id id), tt))
  ],
)
  where
    Closed : String → Type 0
    Closed j = has_member (ids_of (m.to_tombstone ++ (id, row) ∷ [])) j ≡ true

    longer : All Closed m.undo.loser_ids
    longer =
        All-map m.undo.loser_ids (λ j k. ground (arith, member-append m.to_tombstone id j row))
          closed

no_member : (id : String) → has_member [] id ≡ true → ⊥
unfolding has_member any
no_member id h = ground arith

module _ {Text : Type 0} ⦃serde : Serde Text⦄ (survivor_id : String) where
  -- Every loser of the undo is a deleted book that points at the survivor, and every note of it is on
  -- the survivor.
  abbrev pub IsMerged : Store Text → BookMergeUndo → Type 0
  IsMerged t undo = All (IsRetired survivor_id t) undo.loser_ids × Moves survivor_id t undo

  All-member :
      (t : Store Text) (ids : List String) (id : String)
      → All (IsRetired survivor_id t) ids
      → has_member ids id ≡ true
      → IsRetired survivor_id t id
  unfolding has_member any
  All-member t [] id all m = absurd (ground arith)
  All-member t (j ∷ ids) id all m = elim (Bool-cases (str_eq j id)) [
    | inl same ↦ subst (IsRetired survivor_id t) ((eq_iff j id).0 same) all.0
    | inr apart ↦ All-member t ids id all.1 (ground arith)
  ]

module _ {Text : Type 0} ⦃serde : Serde Text⦄ (survivor_id : String) (now : ℤ)
    (range : in_i64 now ≡ true) where
  pub finish_merge-Ends :
      (survivor : Map) (s : Store Text) (m : Merging)
      → IsOwn (survivor_id, survivor)
      → AreOwn m
      → Moves survivor_id s m.undo
      → IsSound s
      → Ends (IsMerged survivor_id) (finish_merge survivor_id now survivor s m)
  unfolding finish_merge survivor_patch
  finish_merge-Ends survivor s m own all moves h = finish m.to_tombstone all.0 all.1
    where
      write : IsStamped "books" survivor_id (survivor_patch survivor m.earliest now)
      write =
          book_patch-IsStamped survivor_id _ now range
            (get-insert-id "created_at" survivor_id (num (int m.earliest)) survivor refl own)

      finish :
          (losers : List (String × Map))
          → All IsOwn losers
          → All (λ id. has_member (ids_of losers) id ≡ true) m.undo.loser_ids
          → Ends (IsMerged survivor_id) (elim losers [
            | [] ↦ (s, done m.undo)
            | loser ∷ losers ↦
                commit s (
                  stage_local_write s "books" survivor_id
                    (survivor_patch survivor m.earliest now)
                    now)
                >>= λ t committed.
                    tombstone_losers survivor_id now (loser ∷ losers) t >>= λ u tombstoned.
                    (u, done m.undo)
          ])
      finish [] own closed = record {
        sound = h;
        result = (All-map m.undo.loser_ids (λ id k. absurd (no_member id k)) closed, moves);
      }
      finish (loser ∷ losers) owned closed =
          then-Ends (stage-Ends s "books" survivor_id _ now write h) λ t committed k staged.
            then-Ends (tombstone_losers-Ends survivor_id now range (loser ∷ losers) t owned k)
              λ v tombstoned l retired. record {
                sound = l;
                result = (
                  All-map m.undo.loser_ids
                      (λ id k. All-member survivor_id v (ids_of (loser ∷ losers)) id retired.1 k)
                      closed,
                  Moves-map survivor_id s v m.undo
                      (λ j here.
                        retired.0.1 j
                        ∙ book-IsMoved survivor_id s t survivor_id _ now write staged j here)
                      moves,
                );
              }
