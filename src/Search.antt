-- ===== src/Search.antt =====
-- src/search.rs: the stemmer and the edit distance. A text is here the list of its characters, by
-- their code points.
pub mod Script
pub mod Distance
pub mod Stem
pub mod Examples
use Prim.Native.Nat.{min}
use braird_core.Prelude.{
  ℕ, zero, suc, ◌+◌, ◌-◌, ◌*◌, ◌/◌, Bool, true, false, not, ◌&&◌, ◌||◌, List, [], ◌∷◌, ◌++◌, length,
  any, ltb, ◌==◌, if◌then◌else◌,
}

-- `iter().take(k)`
unfoldable pub take : List ℕ → ℕ → List ℕ
take [] k = []
take (c ∷ cs) zero = []
take (c ∷ cs) (suc k) = c ∷ take cs k

-- `str::starts_with`
unfoldable pub starts : List ℕ → List ℕ → Bool
starts cs [] = true
starts [] (p ∷ ps) = false
starts (c ∷ cs) (p ∷ ps) = c == p && starts cs ps

unfoldable pub drop : List ℕ → ℕ → List ℕ
drop cs zero = cs
drop [] (suc k) = []
drop (c ∷ cs) (suc k) = drop cs k

-- `str::ends_with`
unfoldable pub ends_with : List ℕ → List ℕ → Bool
unfolding starts drop
ends_with cs ps = not (ltb (length cs) (length ps)) && starts (drop cs (length cs - length ps)) ps

unfoldable pub take_chars : List ℕ → ℕ → List ℕ
unfolding take
take_chars = take

-- The consonants that are undoubled
abbrev pub undoubled : List ℕ
undoubled =
    b'b' ∷ b'c' ∷ b'd' ∷ b'f' ∷ b'g' ∷ b'h' ∷ b'j' ∷ b'k' ∷ b'm' ∷ b'n' ∷ b'p' ∷ b'q' ∷ b'r' ∷ b't'
    ∷ b'v' ∷ []

-- `chars[len - 1] == chars[len - 2]`, and the letter is one of those
unfoldable pub ends_doubled : List ℕ → Bool
unfolding any
ends_doubled [] = false
ends_doubled (c ∷ []) = false
ends_doubled (c ∷ d ∷ []) = c == d && any (λ u. d == u) undoubled
ends_doubled (c ∷ d ∷ e ∷ cs) = ends_doubled (d ∷ e ∷ cs)

unfoldable pub undouble : List ℕ → List ℕ
unfolding ends_doubled
undouble w = if ends_doubled w then take_chars w (length w - 1) else w

-- The plural of a word in lower case, folded
unfoldable pub fold_plural : List ℕ → List ℕ
fold_plural w =
    let n = length w in
    if ends_with w (b'i' ∷ b'e' ∷ b's' ∷ []) && ltb 4 n
    then take_chars w (n - 3) ++ b'y' ∷ []
    else if ends_with w (b's' ∷ b's' ∷ b'e' ∷ b's' ∷ [])
    then take_chars w (n - 2)
    else if ends_with w (b's' ∷ []) && not (ends_with w (b's' ∷ b's' ∷ []))
    then take_chars w (n - 1)
    else w

unfoldable pub fold_ending : List ℕ → List ℕ
fold_ending w =
    let n = length w in
    if ends_with w (b'i' ∷ b'n' ∷ b'g' ∷ []) && ltb 5 n
    then undouble (take_chars w (n - 3))
    else if ends_with w (b'e' ∷ b'd' ∷ []) && ltb 4 n
    then undouble (take_chars w (n - 2))
    else w

-- `stem`, with `str::to_lowercase`
unfoldable pub stem : (List ℕ → List ℕ) → List ℕ → List ℕ
stem to_lowercase word =
    let w = to_lowercase word in if ltb 3 (length w) then fold_ending (fold_plural w) else w

-- `min(6, round(len * 0.2))`: a fifth of a whole number is never a half.
unfoldable pub fuzzy_max_distance : List ℕ → ℕ
fuzzy_max_distance term = min ((2 * length term + 5) / 10) 6

abbrev pub cost : ℕ → ℕ → ℕ
cost ca cb = if ca == cb then 0 else 1

-- The loop over the second word: the rest of the row `curr`, from the entry to its left and from the
-- row `prev`. The last case has no entry to read, and does not occur.
unfoldable pub fill_row : ℕ → List ℕ → List ℕ → ℕ → List ℕ
fill_row ca [] prev left = []
fill_row ca (cb ∷ b) (diagonal ∷ above ∷ prev) left =
    let here = min (min (above + 1) (left + 1)) (diagonal + cost ca cb) in
    here ∷ fill_row ca b (above ∷ prev) here
fill_row ca (cb ∷ b) _ left = []

-- The loop over the first word, from its i-th letter.
unfoldable pub fill_rows : List ℕ → ℕ → List ℕ → List ℕ → List ℕ
unfolding fill_row
fill_rows [] i b prev = prev
fill_rows (ca ∷ a) i b prev = fill_rows a (i + 1) b ((i + 1) ∷ fill_row ca b prev (i + 1))

-- `k..=k + n`
unfoldable pub range_from : ℕ → ℕ → List ℕ
range_from k zero = k ∷ []
range_from k (suc n) = k ∷ range_from (suc k) n

-- An index out of range, which does not occur, reads 0.
unfoldable pub get_or_zero : List ℕ → ℕ → ℕ
get_or_zero [] i = 0
get_or_zero (x ∷ xs) zero = x
get_or_zero (x ∷ xs) (suc i) = get_or_zero xs i

unfoldable pub levenshtein : List ℕ → List ℕ → ℕ
unfolding fill_rows range_from get_or_zero
levenshtein [] b = length b
levenshtein (ca ∷ a) [] = length (ca ∷ a)
levenshtein (ca ∷ a) (cb ∷ b) =
    get_or_zero (fill_rows (ca ∷ a) 0 (cb ∷ b) (range_from 0 (length (cb ∷ b)))) (length (cb ∷ b))
