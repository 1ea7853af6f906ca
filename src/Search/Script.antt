-- ===== src/Search/Script.antt =====
-- What an edit distance is: the least number of edits that turn one word into another.
use Prim.Native.Nat.{min}
use braird_core.Prelude.{
  ℕ, suc, ◌+◌, ◌≤◌, ◌≡◌, refl, ◌∙◌, subst, List, [], ◌∷◌, ◌++◌, length, leb, Bool-cases, inl, inr,
  ◌⊎◌, arith,
}
use mathlib.Core.List.{append-nil}
use braird_core.Search.{cost}

-- A script of that many edits: letters are kept or replaced, dropped, or put in.

pub data Script : List ℕ → List ℕ → ℕ → Type 0 where
  ends : Script [] [] 0
  pairs : {a b : List ℕ} {n : ℕ} (x y : ℕ) → Script a b n → Script (x ∷ a) (y ∷ b) (n + cost x y)
  drops : {a b : List ℕ} {n : ℕ} (x : ℕ) → Script a b n → Script (x ∷ a) b (suc n)
  puts : {a b : List ℕ} {n : ℕ} (y : ℕ) → Script a b n → Script a (y ∷ b) (suc n)

-- The distance by recursion on both words.
unfoldable pub distance : List ℕ → List ℕ → ℕ
distance [] b = length b
distance (x ∷ a) [] = length (x ∷ a)
distance (x ∷ a) (y ∷ b) =
    min (min (distance a (y ∷ b) + 1) (distance (x ∷ a) b + 1)) (distance a b + cost x y)

distance-drop : (x : ℕ) (a b : List ℕ) → distance (x ∷ a) b ≤ distance a b + 1
unfolding distance
distance-drop x [] [] = omega arith
distance-drop x (x' ∷ a) [] = omega arith
distance-drop x a (y ∷ b) = omega arith

distance-put : (y : ℕ) (a b : List ℕ) → distance a (y ∷ b) ≤ distance a b + 1
unfolding distance
distance-put y [] b = omega arith
distance-put y (x ∷ a) b = omega arith

-- No script has fewer edits.
pub distance-le : {a b : List ℕ} {n : ℕ} → Script a b n → distance a b ≤ n
unfolding distance
distance-le ends = omega arith
distance-le (pairs {a} {b} x y s) = omega (arith, distance-le s)
distance-le (drops {a} {b} x s) = omega (arith, distance-drop x a b, distance-le s)
distance-le (puts {a} {b} y s) = omega (arith, distance-put y a b, distance-le s)

min-cases : (i j : ℕ) → (min i j ≡ i) ⊎ (min i j ≡ j)
min-cases i j = elim (Bool-cases (leb i j)) [
  | inl e ↦ inl (ground arith)
  | inr e ↦ inr (ground arith)
]

drop_all : (a : List ℕ) → Script a [] (length a)
drop_all [] = ends
drop_all (x ∷ a) = drops x (drop_all a)

put_all : (b : List ℕ) → Script [] b (length b)
put_all [] = ends
put_all (y ∷ b) = puts y (put_all b)

-- Some script has that many.
pub distance-Script : (a b : List ℕ) → Script a b (distance a b)
unfolding distance
distance-Script [] b = put_all b
distance-Script (x ∷ a) [] = drop_all (x ∷ a)
distance-Script (x ∷ a) (y ∷ b) =
    let d = distance a (y ∷ b) + 1 in
    let p = distance (x ∷ a) b + 1 in
    let q = distance a b + cost x y in
    least d p q (subst (Script (x ∷ a) (y ∷ b)) (omega arith) (drops x (distance-Script a (y ∷ b))))
      (subst (Script (x ∷ a) (y ∷ b)) (omega arith) (puts y (distance-Script (x ∷ a) b)))
      (pairs x y (distance-Script a b))
  where
    least :
        (i j k : ℕ)
        → Script (x ∷ a) (y ∷ b) i
        → Script (x ∷ a) (y ∷ b) j
        → Script (x ∷ a) (y ∷ b) k
        → Script (x ∷ a) (y ∷ b) (min (min i j) k)
    least i j k s t u = elim (min-cases (min i j) k) [
      | inr e ↦ rw e u
      | inl e ↦ elim (min-cases i j) [ inl e' ↦ rw (e, e') s | inr e' ↦ rw (e, e') t ]
    ]

-- A word read backwards onto another.
unfoldable pub reverse_onto : List ℕ → List ℕ → List ℕ
reverse_onto [] c = c
reverse_onto (x ∷ a) c = reverse_onto a (x ∷ c)

reverse_onto_twice : (a c d : List ℕ) → reverse_onto (reverse_onto a c) d ≡ reverse_onto c (a ++ d)
unfolding reverse_onto
reverse_onto_twice [] c d = refl
reverse_onto_twice (x ∷ a) c d = reverse_onto_twice a (x ∷ c) d

reverse_involutive : (a : List ℕ) → reverse_onto (reverse_onto a []) [] ≡ a
unfolding reverse_onto
reverse_involutive a = reverse_onto_twice a [] [] ∙ append-nil a

-- A script may be read from either end.
pub Script-reverse_onto :
    {a b c d : List ℕ} {n m : ℕ}
    → Script a b n
    → Script c d m
    → Script (reverse_onto a c) (reverse_onto b d) (n + m)
unfolding reverse_onto
Script-reverse_onto ends t = subst (Script _ _) (omega arith) t
Script-reverse_onto (pairs x y s) t =
    subst (Script _ _) (omega arith) (Script-reverse_onto s (pairs x y t))
Script-reverse_onto (drops x s) t =
    subst (Script _ _) (omega arith) (Script-reverse_onto s (drops x t))
Script-reverse_onto (puts y s) t =
    subst (Script _ _) (omega arith) (Script-reverse_onto s (puts y t))

pub Script-reverse :
    {a b : List ℕ} {n : ℕ} → Script a b n → Script (reverse_onto a []) (reverse_onto b []) n
Script-reverse s = subst (Script _ _) (omega arith) (Script-reverse_onto s ends)

pub Script-unreverse :
    (a b : List ℕ) {n : ℕ} → Script (reverse_onto a []) (reverse_onto b []) n → Script a b n
Script-unreverse a b s = rw (← reverse_involutive a, ← reverse_involutive b) (Script-reverse s)
