-- ===== src/Crypto/Text.antt =====
-- The reads of a text that src/note_encryption.rs makes, and those of a byte sequence.
use Prim.Native.Char.{Char, code}
use braird_core.Prelude.{
  ℕ, zero, suc, ◌≡◌, refl, String, Option, none, some, List, [], ◌∷◌, ◌++◌, length, ◌==◌,
  if◌then◌else◌, arith, ap, Bool-cases, inl, inr,
}

-- One text after the other, as `format!` writes them

unfoldable pub join : String → String → String
join String.[] t = t
join (String.◌∷◌ c s) t = String.◌∷◌ c (join s t)

-- `str::strip_prefix`
unfoldable pub strip_prefix : String → String → Option String
strip_prefix value String.[] = some value
strip_prefix String.[] (String.◌∷◌ d ps) = none
strip_prefix (String.◌∷◌ c cs) (String.◌∷◌ d ps) =
    let rest = strip_prefix cs ps in if code c == code d then rest else none

abbrev pub extend_left : Char → Option (String × String) → Option (String × String)
extend_left c none = none
extend_left c (some (before, after)) = some (String.◌∷◌ c before, after)

-- `split_once('.')`
unfoldable pub split_once : String → Option (String × String)
split_once String.[] = none
split_once (String.◌∷◌ c cs) =
    let rest = split_once cs in if code c == b'.' then some (String.[], cs) else extend_left c rest

unfoldable pub take : List ℕ → ℕ → List ℕ
take xs zero = []
take [] (suc k) = []
take (x ∷ xs) (suc k) = x ∷ take xs k

unfoldable pub drop : List ℕ → ℕ → List ℕ
drop xs zero = xs
drop [] (suc k) = []
drop (x ∷ xs) (suc k) = drop xs k

pub strip_prefix-join : (p s : String) → strip_prefix (join p s) p ≡ some s
unfolding strip_prefix join
strip_prefix-join String.[] String.[] = refl
strip_prefix-join String.[] (String.◌∷◌ c s) = refl
strip_prefix-join (String.◌∷◌ c p) s = ground (arith, strip_prefix-join p s)

extend_left-none : (c : Char) (o : Option (String × String)) → extend_left c o ≡ none → o ≡ none
extend_left-none c none h = refl
extend_left-none c (some (before, after)) h = absurd (ground arith)

pub split_once-join :
    (s t : String) → split_once s ≡ none → split_once (join s (join "." t)) ≡ some (s, t)
unfolding split_once join
split_once-join String.[] t h = refl
split_once-join (String.◌∷◌ c s) t h = elim (Bool-cases (code c == b'.')) [
  | inl e ↦ absurd (ground arith)
  | inr e ↦ rw (e, split_once-join s t (extend_left-none c (split_once s) (rw e at h)))
]

pub take-append : (xs ys : List ℕ) → take (xs ++ ys) (length xs) ≡ xs
unfolding take
take-append [] [] = refl
take-append [] (y ∷ ys) = refl
take-append (x ∷ xs) ys = ap (λ r. x ∷ r) (take-append xs ys)

pub drop-append : (xs ys : List ℕ) → drop (xs ++ ys) (length xs) ≡ ys
unfolding drop
drop-append [] [] = refl
drop-append [] (y ∷ ys) = refl
drop-append (x ∷ xs) ys = drop-append xs ys
