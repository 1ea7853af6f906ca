-- ===== src/Search/Examples.antt =====
-- Runs of src/search.rs, and its theorems at concrete words.
use Prim.Native.Char.{code}
use braird_core.Prelude.{ℕ, ◌≤◌, ◌⊎◌, ◌≡◌, refl, String, List, [], ◌∷◌, length}
use braird_core.Search.{
  stem, levenshtein, fuzzy_max_distance, ends_with, take_chars, undouble, fold_plural, fold_ending,
}
use braird_core.Search.Script.{Script, ends, pairs, puts}
use braird_core.Search.Distance.{levenshtein-least}
use braird_core.Search.Stem.{stem-length}

abbrev codes : String → List ℕ
codes String.[] = []
codes (String.◌∷◌ c s) = code c ∷ codes s

abbrev lower : List ℕ → List ℕ
lower w = w

test_running : stem lower (codes "running") ≡ codes "run"
unfolding stem fold_plural fold_ending ends_with take_chars undouble
test_running = refl

test_studies : stem lower (codes "studies") ≡ codes "study"
unfolding stem fold_plural fold_ending ends_with take_chars undouble
test_studies = refl

test_missed : stem lower (codes "missed") ≡ codes "miss"
unfolding stem fold_plural fold_ending ends_with take_chars undouble
test_missed = refl

test_boss : stem lower (codes "boss") ≡ codes "boss"
unfolding stem fold_plural fold_ending ends_with take_chars undouble
test_boss = refl

test_kitten : levenshtein (codes "kitten") (codes "sitting") ≡ 3
unfolding levenshtein
test_kitten = refl

test_fuzzy : fuzzy_max_distance (codes "running") ≡ 1
unfolding fuzzy_max_distance
test_fuzzy = refl

abbrev renamed : Script (codes "cat") (codes "cuts") 2
renamed = pairs b'c' b'c' (pairs b'a' b'u' (pairs b't' b't' (puts b's' ends)))

levenshtein-least_example :
    Script (codes "cat") (codes "cuts") (levenshtein (codes "cat") (codes "cuts"))
    × (levenshtein (codes "cat") (codes "cuts") ≤ 2)
levenshtein-least_example = levenshtein-least (codes "cat") (codes "cuts") renamed

stem-length_example :
    ((length (lower (codes "running")) ≤ 3)
      × (stem lower (codes "running") ≡ lower (codes "running")))
    ⊎ ((4 ≤ length (lower (codes "running")))
        × (2 ≤ length (stem lower (codes "running")))
        × (length (stem lower (codes "running")) ≤ length (lower (codes "running"))))
stem-length_example = stem-length lower (codes "running")
