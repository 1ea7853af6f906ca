-- ===== src/Prelude/Sorts.antt =====
-- What a sort keeps, and what is found in a list.
use mathlib.Core.Path.{◌≡◌, refl, subst}
use mathlib.Core.Bool.{Bool, true}
use mathlib.Core.HLevel.{⊥_prop}
use mathlib.Core.Logic.Or
use mathlib.Core.List.Perm
use mathlib.Core.List.{Perm, Mem, mem-cons, not-mem-nil, List, [], ◌∷◌}
use native.Mathlib.Omega.{arith}
use mathlib.Core.Logic.{inl, inr}
use braird_core.Prelude.Tests.{Bool-cases}
use braird_core.Prelude.Int.{ℤ, leb_ℤ, eqb_ℤ}
use braird_core.Prelude.Lists.{All, any, filter, insert_by_key, sort_by_key}

module _ {ℓ κ} {A : Type ℓ} (P : A → Type κ) (f : A → ℤ) where
  All-insert_by_key : (x : A) (xs : List A) → P x → All P xs → All P (insert_by_key f x xs)
  unfolding insert_by_key
  All-insert_by_key x [] p h = (p, tt)
  All-insert_by_key x (y ∷ ys) p h = elim (Bool-cases (leb_ℤ (f x) (f y))) [
    | inl e ↦ rw e (p, h)
    | inr e ↦ rw e (h.0, All-insert_by_key x ys p h.1)
  ]

  -- Sorting keeps what every item has.
  pub All-sort_by_key : (xs : List A) → All P xs → All P (sort_by_key f xs)
  unfolding sort_by_key
  All-sort_by_key [] h = tt
  All-sort_by_key (x ∷ xs) h = All-insert_by_key x (sort_by_key f xs) h.0 (All-sort_by_key xs h.1)

-- A filtered permutation, by a sort.
filter-insert_by_key {ℓ} :
    {A : Type ℓ} (p : A → Bool) (f : A → ℤ) (x : A) (xs : List A)
    → Perm (filter p (insert_by_key f x xs)) (filter p (x ∷ xs))
unfolding filter insert_by_key
filter-insert_by_key p f x [] = Perm.rfl
filter-insert_by_key p f x (y ∷ ys) = elim (Bool-cases (leb_ℤ (f x) (f y))) [
  | inl e ↦ rw e Perm.rfl
  | inr e ↦ elim (Bool-cases (p x)) [
    | inl a ↦ elim (Bool-cases (p y)) [
      | inl b ↦
          let rest : Perm (filter p (insert_by_key f x ys)) (x ∷ filter p ys) =
            subst (Perm (filter p (insert_by_key f x ys))) (rw (a, filter) refl)
              (filter-insert_by_key p f x ys) in
          rw (e, a, b, filter) (Perm.trans (Perm.cons y rest) (Perm.swap x y (filter p ys)))
      | inr b ↦
          let rest : Perm (filter p (insert_by_key f x ys)) (x ∷ filter p ys) =
            subst (Perm (filter p (insert_by_key f x ys))) (rw (a, filter) refl)
              (filter-insert_by_key p f x ys) in
          rw (e, a, b, filter) rest
    ]
    | inr a ↦
        let rest : Perm (filter p (insert_by_key f x ys)) (filter p ys) =
          subst (Perm (filter p (insert_by_key f x ys))) (rw (a, filter) refl)
            (filter-insert_by_key p f x ys) in
        elim (Bool-cases (p y)) [
          | inl b ↦ rw (e, a, b, filter) (Perm.cons y rest)
          | inr b ↦ rw (e, a, b, filter) rest
        ]
  ]
]

pub filter-sort_by_key {ℓ} :
    {A : Type ℓ} (p : A → Bool) (f : A → ℤ) (xs : List A)
    → Perm (filter p (sort_by_key f xs)) (filter p xs)
unfolding filter sort_by_key
filter-sort_by_key p f [] = Perm.rfl
filter-sort_by_key p f (x ∷ xs) =
    Perm.trans (filter-insert_by_key p f x (sort_by_key f xs)) (elim (Bool-cases (p x)) [
      | inl e ↦ rw (e, filter) (Perm.cons x (filter-sort_by_key p f xs))
      | inr e ↦ rw (e, filter) (filter-sort_by_key p f xs)
    ])

-- What is in a list is found there.
pub Mem-any : (x : ℤ) (xs : List ℤ) → Mem x xs → any (λ y. eqb_ℤ y x) xs ≡ true
unfolding any
Mem-any x [] m = absurd (not-mem-nil m)
Mem-any x (y ∷ ys) m = elim (Bool-cases (any (λ z. eqb_ℤ z x) (y ∷ ys))) [
  | inl e ↦ e
  | inr e ↦ absurd (
      Or.elim ⊥_prop (mem-cons.0 m) (λ same. ground (arith, same))
        (λ later. ground (arith, Mem-any x ys later)))
]
