-- ===== src/Search/Stem.antt =====
-- `stem` of src/search.rs: how much of a word it keeps.
use braird_core.Prelude.{
  ℕ, zero, suc, ◌+◌, ◌-◌, ◌≤◌, ◌⊎◌, ◌≡◌, refl, List, [], ◌∷◌, ◌++◌, length, arith,
}
use braird_core.Search.{take, take_chars, undouble, fold_plural, fold_ending, stem}

length-take_chars : (w : List ℕ) (k : ℕ) → k ≤ length w → length (take_chars w k) ≡ k
unfolding take_chars take
length-take_chars [] zero h = refl
length-take_chars [] (suc k) h = absurd (omega arith)
length-take_chars (c ∷ w) zero h = refl
length-take_chars (c ∷ w) (suc k) h = omega (arith, length-take_chars w k)

length-snoc : (w : List ℕ) (c : ℕ) → length (w ++ c ∷ []) ≡ length w + 1
length-snoc [] c = omega arith
length-snoc (x ∷ w) c = omega (arith, length-snoc w c)

undouble-length :
    (w : List ℕ)
    → 1 ≤ length w
    → (length w - 1 ≤ length (undouble w)) × (length (undouble w) ≤ length w)
unfolding undouble
undouble-length w h = ground (arith, length-take_chars w (length w - 1))

fold_plural-length :
    (w : List ℕ) → 4 ≤ length w → (2 ≤ length (fold_plural w)) × (length (fold_plural w) ≤ length w)
unfolding fold_plural
fold_plural-length w h = ground (
  arith,
  length-take_chars w (length w - 3),
  length-snoc (take_chars w (length w - 3)) b'y',
  length-take_chars w (length w - 2),
  length-take_chars w (length w - 1),
)

fold_ending-length :
    (w : List ℕ) → 2 ≤ length w → (2 ≤ length (fold_ending w)) × (length (fold_ending w) ≤ length w)
unfolding fold_ending
fold_ending-length w h = ground (
  arith,
  length-take_chars w (length w - 3),
  length-take_chars w (length w - 2),
  undouble-length (take_chars w (length w - 3)),
  undouble-length (take_chars w (length w - 2)),
)

-- A word of at most three letters in lower case is its own stem, in lower case; the stem of a longer
-- word has at least two letters, and no more than the word.
pub stem-length :
    (to_lowercase : List ℕ → List ℕ) (word : List ℕ)
    → ((length (to_lowercase word) ≤ 3) × (stem to_lowercase word ≡ to_lowercase word))
      ⊎ ((4 ≤ length (to_lowercase word))
          × (2 ≤ length (stem to_lowercase word))
          × (length (stem to_lowercase word) ≤ length (to_lowercase word)))
unfolding stem
stem-length to_lowercase word =
    let w = to_lowercase word in
    ground (arith, fold_plural-length w, fold_ending-length (fold_plural w))
