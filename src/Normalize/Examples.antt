-- ===== src/Normalize/Examples.antt =====
-- The normal form at the letters of ASCII.
use Prim.Native.Char.{code}
use braird_core.Prelude.{◌≡◌, refl, ◌||◌, ◌&&◌, leb, ltb, ◌==◌, any}
use braird_core.Normalize.{
  Unicode, trim_start, trim_end, trim_both, retain, is_ecmascript_whitespace, collapse_from,
  collapse_whitespace, normalize_for_tag,
}
use braird_core.Normalize.Trim.{is_loose, AllChars, IsNormal, normalize_for_tag-IsNormal}

instance abbrev ascii : Unicode
ascii = record {
  nfkc = λ s. s;
  to_lowercase = λ s. s;
  is_control = λ c. ltb (code c) 32;
  is_whitespace = λ c. code c == 32 || (leb 9 (code c) && leb (code c) 13);
  is_space_separator = λ c. code c == 32;
  is_punctuation = λ c. code c == b'.' || code c == b'!';
}

test_end : normalize_for_tag " a  b.! " ≡ "a b"
unfolding normalize_for_tag collapse_whitespace collapse_from is_ecmascript_whitespace retain
    trim_both trim_start trim_end any
test_end = refl

-- Only one run of punctuation goes.
test_two_runs : normalize_for_tag "a. ." ≡ "a."
unfolding normalize_for_tag collapse_whitespace collapse_from is_ecmascript_whitespace retain
    trim_both trim_start trim_end any
test_two_runs = refl

normalize_for_tag-IsNormal_example :
    (trim_both ascii.is_whitespace (normalize_for_tag " a  b.! ") ≡ normalize_for_tag " a  b.! ")
    × AllChars IsNormal (normalize_for_tag " a  b.! ")
    × (retain is_loose (normalize_for_tag " a  b.! ") ≡ retain is_loose " a  b.! ")
normalize_for_tag-IsNormal_example = normalize_for_tag-IsNormal " a  b.! " refl
