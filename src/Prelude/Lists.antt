-- ===== src/Prelude/Lists.antt =====
-- Lists measured by native numbers, with the tests and folds that Rust's iterators give.
use Prim.Native.Nat.{ℕ, suc}
use mathlib.Core.Path.{◌≡◌, refl}
use mathlib.Core.Bool.{Bool, false, ◌||◌}
use mathlib.Core.List.Perm
use mathlib.Core.List.{Perm, List, [], ◌∷◌, ◌++◌}
use mathlib.Core.Option.{Option, none, some}
use native.Mathlib.Omega.{arith}
use mathlib.Core.Logic.{inl, inr}
use braird_core.Prelude.Tests.{if◌then◌else◌, Bool-cases, Option-cases}
use braird_core.Prelude.Int.{ℤ, ◌≤ℤ◌, leb_ℤ, max_ℤ, min_ℤ}

module _ {ℓ} {A : Type ℓ} where
  abbrev pub length : List A → ℕ
  length [] = 0
  length (x ∷ xs) = suc (length xs)

  -- `Iterator::filter` with a Boolean test
  unfoldable pub filter : (A → Bool) → List A → List A
  filter p [] = []
  filter p (x ∷ xs) = let rest = filter p xs in if p x then x ∷ rest else rest

  -- `Iterator::any`
  unfoldable pub any : (A → Bool) → List A → Bool
  any p [] = false
  any p (x ∷ xs) = p x || any p xs

  -- `Option::into_iter`
  abbrev pub to_list : Option A → List A
  to_list none = []
  to_list (some a) = a ∷ []

  -- A property of every item.
  abbrev pub All {κ} : (A → Type κ) → List A → Type κ
  All P [] = Unit
  All P (x ∷ xs) = P x × All P xs

  -- `slice::sort_by_key`, a stable sort: an item goes behind those whose key is not above its own.
  unfoldable pub insert_by_key : (A → ℤ) → A → List A → List A
  insert_by_key f x [] = x ∷ []
  insert_by_key f x (y ∷ ys) =
      let rest = insert_by_key f x ys in if leb_ℤ (f x) (f y) then x ∷ y ∷ ys else y ∷ rest

  unfoldable pub sort_by_key : (A → ℤ) → List A → List A
  unfolding insert_by_key
  sort_by_key f [] = []
  sort_by_key f (x ∷ xs) = insert_by_key f x (sort_by_key f xs)

module _ {ℓ κ} {A : Type ℓ} {B : Type κ} where
  -- `Iterator::filter_map`
  unfoldable pub filter_map : (A → Option B) → List A → List B
  filter_map f [] = []
  filter_map f (x ∷ xs) = to_list (f x) ++ filter_map f xs

-- `Iterator::max` and `Iterator::min` over `i64`
unfoldable pub max_of : List ℤ → Option ℤ
unfolding max_ℤ
max_of [] = none
max_of (x ∷ xs) = elim (max_of xs) [ none ↦ some x | some m ↦ some (max_ℤ x m) ]

unfoldable pub min_of : List ℤ → Option ℤ
unfolding min_ℤ
min_of [] = none
min_of (x ∷ xs) = elim (min_of xs) [ none ↦ some x | some m ↦ some (min_ℤ x m) ]

pub All-map {ℓ κ ι} :
    {A : Type ℓ} {P : A → Type κ} {Q : A → Type ι} (xs : List A)
    → ((x : A) → P x → Q x)
    → All P xs
    → All Q xs
All-map [] f h = tt
All-map (x ∷ xs) f h = (f x h.0, All-map xs f h.1)

pub min_of-none : (xs : List ℤ) → min_of xs ≡ none → xs ≡ []
unfolding min_of
min_of-none [] h = refl
min_of-none (x ∷ xs) h = ground arith

module _ (x : ℤ) (xs : List ℤ) (m : ℤ) where
  min_of-le-head : min_of (x ∷ xs) ≡ some m → m ≤ℤ x
  unfolding min_of min_ℤ
  min_of-le-head h = ground arith

  min_of-le-tail : {k : ℤ} → min_of (x ∷ xs) ≡ some m → min_of xs ≡ some k → m ≤ℤ k
  unfolding min_of min_ℤ
  min_of-le-tail h e = ground arith

-- The least item is below every item.
pub min_of-le : (xs : List ℤ) (m : ℤ) → min_of xs ≡ some m → All (λ x. m ≤ℤ x) xs
min_of-le [] m h = tt
min_of-le (x ∷ xs) m h = elim (Option-cases (min_of xs)) [
  | inl e ↦ (min_of-le-head x xs m h, rw (min_of-none xs e) tt)
  | inr (k, e) ↦
      let tail : m ≤ℤ k = min_of-le-tail x xs m h e in
      (min_of-le-head x xs m h, All-map xs (λ y below. omega arith) (min_of-le xs k e))
]

pub All-filter {ℓ κ} :
    {A : Type ℓ} (P : A → Type κ) (p : A → Bool) (xs : List A) → All P xs → All P (filter p xs)
unfolding filter
All-filter P p [] h = tt
All-filter P p (x ∷ xs) h = elim (Bool-cases (p x)) [
  | inl kept ↦ rw kept (h.0, All-filter P p xs h.1)
  | inr dropped ↦ rw dropped (All-filter P p xs h.1)
]

-- The greatest item is below what every item is below.
pub max_of-le :
    (xs : List ℤ) (limit m : ℤ) → All (λ x. x ≤ℤ limit) xs → max_of xs ≡ some m → m ≤ℤ limit
unfolding max_of max_ℤ
max_of-le [] limit m h e = absurd (ground arith)
max_of-le (x ∷ xs) limit m h e = elim (Option-cases (max_of xs)) [
  | inl empty ↦ ground arith
  | inr (k, rest) ↦ ground (arith, max_of-le xs limit k h.1 rest)
]

module _ {ℓ κ} {A : Type ℓ} (P : A → Type κ) where
  pub All-append : (xs ys : List A) → All P xs → All P ys → All P (xs ++ ys)
  All-append [] ys h k = k
  All-append (x ∷ xs) ys h k = (h.0, All-append xs ys h.1 k)

  pub All-to_list : (o : Option A) → ((a : A) → o ≡ some a → P a) → All P (to_list o)
  All-to_list none h = tt
  All-to_list (some a) h = (h a refl, tt)

-- Sorting keeps what some item passes.
any-insert_by_key {ℓ} :
    {A : Type ℓ} (p : A → Bool) (f : A → ℤ) (x : A) (xs : List A)
    → any p (insert_by_key f x xs) ≡ (p x || any p xs)
unfolding any insert_by_key
any-insert_by_key p f x [] = refl
any-insert_by_key p f x (y ∷ ys) = ground (arith, any-insert_by_key p f x ys)

pub any-sort_by_key {ℓ} :
    {A : Type ℓ} (p : A → Bool) (f : A → ℤ) (xs : List A) → any p (sort_by_key f xs) ≡ any p xs
unfolding any sort_by_key
any-sort_by_key p f [] = refl
any-sort_by_key p f (x ∷ xs) =
    rw (any-insert_by_key p f x (sort_by_key f xs), any-sort_by_key p f xs)

insert_by_key-perm {ℓ} :
    {A : Type ℓ} (f : A → ℤ) (x : A) (xs : List A) → Perm (insert_by_key f x xs) (x ∷ xs)
unfolding insert_by_key
insert_by_key-perm f x [] = Perm.rfl
insert_by_key-perm f x (y ∷ ys) = elim (Bool-cases (leb_ℤ (f x) (f y))) [
  | inl e ↦ rw e Perm.rfl
  | inr e ↦ rw e (Perm.trans (Perm.cons y (insert_by_key-perm f x ys)) (Perm.swap x y ys))
]

-- Sorting keeps the items.
pub sort_by_key-perm {ℓ} : {A : Type ℓ} (f : A → ℤ) (xs : List A) → Perm (sort_by_key f xs) xs
unfolding sort_by_key
sort_by_key-perm f [] = Perm.rfl
sort_by_key-perm f (x ∷ xs) =
    Perm.trans (insert_by_key-perm f x (sort_by_key f xs)) (Perm.cons x (sort_by_key-perm f xs))
