-- ===== src/Prelude/Pairs.antt =====
-- Lists any two of whose items are related, by a symmetric relation.
use mathlib.Core.Bool.{Bool}
use mathlib.Core.Logic.{inl, inr}
use mathlib.Core.List.{List, [], ◌∷◌}
use Prim.Native.String.{String, compare}
use text.Mathlib.Text.{◌==◌ as str_eq, is_lt}
use braird_core.Prelude.Tests.{Bool-cases}
use braird_core.Prelude.Int.{ℤ, leb_ℤ}
use braird_core.Prelude.Lists.{All, All-filter, filter, insert_by_key, sort_by_key}
use braird_core.Prelude.Maps.{without, place, insert}

module _ {ℓ κ} {A : Type ℓ} (P : A → Type κ) where
  All-insert_by_key :
      (f : A → ℤ) (x : A) (xs : List A) → P x → All P xs → All P (insert_by_key f x xs)
  unfolding insert_by_key
  All-insert_by_key f x [] p h = (p, tt)
  All-insert_by_key f x (y ∷ ys) p h = elim (Bool-cases (leb_ℤ (f x) (f y))) [
    | inl e ↦ rw e (p, h)
    | inr e ↦ rw e (h.0, All-insert_by_key f x ys p h.1)
  ]

  pub All-sort_by_key : (f : A → ℤ) (xs : List A) → All P xs → All P (sort_by_key f xs)
  unfolding sort_by_key
  All-sort_by_key f [] h = tt
  All-sort_by_key f (x ∷ xs) h =
      All-insert_by_key f x (sort_by_key f xs) h.0 (All-sort_by_key f xs h.1)

module _ {ℓ κ} {A : Type ℓ} (R : A → A → Type κ) where
  abbrev pub Pairwise : List A → Type κ
  Pairwise [] = Unit
  Pairwise (x ∷ xs) = All (R x) xs × Pairwise xs

  pub Pairwise-filter : (p : A → Bool) (xs : List A) → Pairwise xs → Pairwise (filter p xs)
  unfolding filter
  Pairwise-filter p [] h = tt
  Pairwise-filter p (x ∷ xs) h = elim (Bool-cases (p x)) [
    | inl e ↦ rw e (All-filter (R x) p xs h.0, Pairwise-filter p xs h.1)
    | inr e ↦ rw e (Pairwise-filter p xs h.1)
  ]

  module _ (symmetric : (x y : A) → R x y → R y x) where
    Pairwise-insert_by_key :
        (f : A → ℤ) (x : A) (xs : List A)
        → All (R x) xs
        → Pairwise xs
        → Pairwise (insert_by_key f x xs)
    unfolding insert_by_key
    Pairwise-insert_by_key f x [] a h = (tt, tt)
    Pairwise-insert_by_key f x (y ∷ ys) a h = elim (Bool-cases (leb_ℤ (f x) (f y))) [
      | inl e ↦ rw e (a, h)
      | inr e ↦ rw e (
        All-insert_by_key (R y) f x ys (symmetric x y a.0) h.0,
        Pairwise-insert_by_key f x ys a.1 h.1,
      )
    ]

    pub Pairwise-sort_by_key : (f : A → ℤ) (xs : List A) → Pairwise xs → Pairwise (sort_by_key f xs)
    unfolding sort_by_key
    Pairwise-sort_by_key f [] h = tt
    Pairwise-sort_by_key f (x ∷ xs) h =
        Pairwise-insert_by_key f x (sort_by_key f xs) (All-sort_by_key (R x) f xs h.0)
          (Pairwise-sort_by_key f xs h.1)

-- A property of every entry of a map.
module _ {ℓ κ} {V : Type ℓ} (P : String × V → Type κ) where
  All-without : (k : String) (m : List (String × V)) → All P m → All P (without k m)
  unfolding without
  All-without k [] h = tt
  All-without k ((j, w) ∷ m) h = elim (Bool-cases (str_eq j k)) [
    | inl e ↦ rw e (All-without k m h.1)
    | inr e ↦ rw e (h.0, All-without k m h.1)
  ]

  All-place :
      (k : String) (v : V) (m : List (String × V)) → P (k, v) → All P m → All P (place k v m)
  unfolding place
  All-place k v [] p h = (p, tt)
  All-place k v ((j, w) ∷ m) p h = elim (Bool-cases (is_lt (compare k j))) [
    | inl e ↦ rw e (p, h)
    | inr e ↦ rw e (h.0, All-place k v m p h.1)
  ]

  pub All-insert :
      (k : String) (v : V) (m : List (String × V)) → P (k, v) → All P m → All P (insert k v m)
  unfolding insert
  All-insert k v m p h = All-place k v (without k m) p (All-without k m h)
