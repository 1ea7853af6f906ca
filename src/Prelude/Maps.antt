-- ===== src/Prelude/Maps.antt =====
-- `BTreeMap<String, V>`: entries in the ascending order of their keys, one for each key.
use Prim.Native.String.{String, compare}
use mathlib.Core.Path.{◌≡◌, refl}
use mathlib.Core.Logic.{inl, inr}
use mathlib.Core.List.{List, [], ◌∷◌}
use mathlib.Core.Option.{Option, none, some}
use native.Mathlib.Omega.{arith}
use text.Mathlib.Text.{◌==◌ as str_eq, is_lt}
use text.Mathlib.TextEquality.{eq_iff}
use braird_core.Prelude.Tests.{if◌then◌else◌, Bool-cases}

module _ {ℓ} {V : Type ℓ} where
  -- `get`
  unfoldable pub lookup : String → List (String × V) → Option V
  lookup k [] = none
  lookup k ((j, v) ∷ m) = if str_eq j k then some v else lookup k m

  -- `remove`
  unfoldable pub without : String → List (String × V) → List (String × V)
  without k [] = []
  without k ((j, v) ∷ m) = let rest = without k m in if str_eq j k then rest else (j, v) ∷ rest

  -- A new key goes before the first greater one.
  unfoldable pub place : String → V → List (String × V) → List (String × V)
  place k v [] = (k, v) ∷ []
  place k v ((j, w) ∷ m) =
      let rest = place k v m in if is_lt (compare k j) then (k, v) ∷ (j, w) ∷ m else (j, w) ∷ rest

  -- `insert`
  unfoldable pub insert : String → V → List (String × V) → List (String × V)
  insert k v m = place k v (without k m)

  lookup-without :
      (k j : String) (m : List (String × V))
      → lookup j (without k m) ≡ (if str_eq k j then none else lookup j m)
  unfolding lookup without
  lookup-without k j [] = ground arith
  lookup-without k j ((i, w) ∷ m) =
      ground (arith, lookup-without k j m, eq_iff i k, eq_iff i j, eq_iff k j)

  lookup-place :
      (k j : String) (v : V) (m : List (String × V))
      → lookup k m ≡ none
      → lookup j (place k v m) ≡ (if str_eq k j then some v else lookup j m)
  unfolding lookup place
  lookup-place k j v [] h = refl
  lookup-place k j v ((i, w) ∷ m) h =
      ground (arith, lookup-place k j v m, eq_iff i k, eq_iff i j, eq_iff k j)

  pub lookup-insert :
      (k j : String) (v : V) (m : List (String × V))
      → lookup j (insert k v m) ≡ (if str_eq k j then some v else lookup j m)
  unfolding insert
  lookup-insert k j v m = ground (
    arith,
    lookup-place k j v (without k m),
    lookup-without k k m,
    lookup-without k j m,
    eq_iff k k,
    eq_iff k j,
  )

  -- One entry for each key.
  abbrev pub IsDistinct : List (String × V) → Type ℓ
  IsDistinct [] = Unit
  IsDistinct ((k, v) ∷ m) = (lookup k m ≡ none) × IsDistinct m

  pub without-none : (k : String) (m : List (String × V)) → lookup k m ≡ none → without k m ≡ m
  unfolding lookup without
  without-none k [] h = refl
  without-none k ((j, w) ∷ m) h = ground (arith, without-none k m)

  lookup-without-none :
      (k j : String) (m : List (String × V)) → lookup j m ≡ none → lookup j (without k m) ≡ none
  lookup-without-none k j m h = ground (arith, lookup-without k j m)

  without-IsDistinct :
      (k : String) (m : List (String × V)) → IsDistinct m → IsDistinct (without k m)
  unfolding without
  without-IsDistinct k [] d = tt
  without-IsDistinct k ((j, w) ∷ m) d = elim (Bool-cases (str_eq j k)) [
    | inl e ↦ rw (e, IsDistinct) (without-IsDistinct k m d.1)
    | inr e ↦ rw (e, IsDistinct) (lookup-without-none k j m d.0, without-IsDistinct k m d.1)
  ]

  place-IsDistinct :
      (k : String) (v : V) (m : List (String × V))
      → lookup k m ≡ none
      → IsDistinct m
      → IsDistinct (place k v m)
  unfolding place
  place-IsDistinct k v [] h d = (unfold lookup in refl, tt)
  place-IsDistinct k v ((j, w) ∷ m) h d = elim (Bool-cases (is_lt (compare k j))) [
    | inl e ↦ rw (e, IsDistinct) (h, d)
    | inr e ↦
        rw (e, IsDistinct)
          (apart (place k v m) (lookup-place k j v m), place-IsDistinct k v m (later h) d.1)
  ]
    where
      later : lookup k ((j, w) ∷ m) ≡ none → lookup k m ≡ none
      later h = unfold lookup in ground arith

      apart :
          (placed : List (String × V))
          → (lookup k m ≡ none → lookup j placed ≡ (if str_eq k j then some v else lookup j m))
          → lookup j placed ≡ none
      apart placed p = unfold lookup in ground (arith, p, eq_iff k j, eq_iff j k, d.0)

  pub insert-IsDistinct :
      (k : String) (v : V) (m : List (String × V)) → IsDistinct m → IsDistinct (insert k v m)
  unfolding insert
  insert-IsDistinct k v m d =
      place-IsDistinct k v (without k m) (ground (arith, lookup-without k k m, eq_iff k k))
        (without-IsDistinct k m d)
