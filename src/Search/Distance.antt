-- ===== src/Search/Distance.antt =====
-- `levenshtein` of src/search.rs, by its rows.
use braird_core.Prelude.{ℕ, suc, ◌+◌, ◌≤◌, ◌≡◌, refl, ap, ◌∙◌, List, [], ◌∷◌, length, arith}
use braird_core.Search.{fill_row, fill_rows, range_from, get_or_zero, levenshtein}
use braird_core.Search.Script.{
  Script, distance, distance-le, distance-Script, reverse_onto, Script-reverse, Script-unreverse,
}

-- The entries of a row to the right of its first: the first words' letters read so far, and the
-- second word's, each backwards.

line : List ℕ → List ℕ → List ℕ → List ℕ
line ra rb [] = []
line ra rb (c ∷ b) = distance ra (c ∷ rb) ∷ line ra (c ∷ rb) b

row : List ℕ → List ℕ → List ℕ → List ℕ
row ra rb b = distance ra rb ∷ line ra rb b

fill_row-line :
    (ca : ℕ) (ra rb b : List ℕ)
    → fill_row ca b (row ra rb b) (distance (ca ∷ ra) rb) ≡ line (ca ∷ ra) rb b
unfolding fill_row row line distance
fill_row-line ca ra rb [] = refl
fill_row-line ca ra rb (cb ∷ b) =
    ap (λ rest. distance (ca ∷ ra) (cb ∷ rb) ∷ rest) (fill_row-line ca ra (cb ∷ rb) b)

distance-nil : (a : List ℕ) → distance a [] ≡ length a
unfolding distance
distance-nil [] = refl
distance-nil (x ∷ a) = refl

fill_rows-row :
    (a ra b : List ℕ) → fill_rows a (length ra) b (row ra [] b) ≡ row (reverse_onto a ra) [] b
unfolding fill_rows reverse_onto row distance
fill_rows-row [] ra b = refl
fill_rows-row (ca ∷ a) ra b =
    ap (λ (i : ℕ). fill_rows a i b (i ∷ fill_row ca b (row ra [] b) i)) (omega arith)
    ∙ ap (λ r. fill_rows a (suc (length ra)) b (suc (length ra) ∷ r)) (fill_row-line ca ra [] b)
    ∙ fill_rows-row a (ca ∷ ra) b

range_from-row : (rb b : List ℕ) → range_from (length rb) (length b) ≡ row [] rb b
unfolding range_from row line distance
range_from-row rb [] = refl
range_from-row rb (c ∷ b) = ap (λ rest. length rb ∷ rest) (range_from-row (c ∷ rb) b)

get_or_zero-row :
    (ra rb b : List ℕ) → get_or_zero (row ra rb b) (length b) ≡ distance ra (reverse_onto b rb)
unfolding get_or_zero row line reverse_onto
get_or_zero-row ra rb [] = refl
get_or_zero-row ra rb (c ∷ b) = get_or_zero-row ra (c ∷ rb) b

length-reverse_onto : (a c : List ℕ) → length (reverse_onto a c) ≡ length a + length c
unfolding reverse_onto
length-reverse_onto [] c = omega arith
length-reverse_onto (x ∷ a) c = omega (arith, length-reverse_onto a (x ∷ c))

-- The rows come to the recursive distance of the two words read backwards.
levenshtein-distance :
    (a b : List ℕ) → levenshtein a b ≡ distance (reverse_onto a []) (reverse_onto b [])
unfolding levenshtein
levenshtein-distance [] b = unfold reverse_onto distance in omega (arith, length-reverse_onto b [])
levenshtein-distance (ca ∷ a) [] =
    unfold reverse_onto in
    omega (arith, length-reverse_onto (ca ∷ a) [], distance-nil (reverse_onto a (ca ∷ [])))
levenshtein-distance (ca ∷ a) (cb ∷ b) =
    ap (λ r. get_or_zero (fill_rows (ca ∷ a) 0 (cb ∷ b) r) (length (cb ∷ b)))
      (range_from-row [] (cb ∷ b))
    ∙ ap (λ r. get_or_zero r (length (cb ∷ b))) (fill_rows-row (ca ∷ a) [] (cb ∷ b))
    ∙ get_or_zero-row (reverse_onto (ca ∷ a) []) [] (cb ∷ b)

-- The edit distance is the least number of edits that turn one word into the other: some script has
-- that many, and any script has at least as many.
pub levenshtein-least :
    (a b : List ℕ) {n : ℕ} → Script a b n → Script a b (levenshtein a b) × (levenshtein a b ≤ n)
levenshtein-least a b s = rw (levenshtein-distance a b) (
  Script-unreverse a b (distance-Script (reverse_onto a []) (reverse_onto b [])),
  distance-le (Script-reverse s),
)
