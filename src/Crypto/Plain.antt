-- ===== src/Crypto/Plain.antt =====
-- A cipher that hides nothing, and an encoding of bytes as texts: what the record of the ciphers asks
-- for can be had.
use Prim.Native.Nat.{compare, Ordering}
use Prim.Native.Char.{Char, char, code, IsScalar}
use text.Mathlib.TextEquality.{IsScalar-prop}
use braird_core.Prelude.{
  ℕ, zero, suc, ◌+◌, ◌≡◌, refl, ap, ◌∙◌, String, Option, none, some, [], ◌∷◌, length, ◌==◌,
  if◌then◌else◌, arith,
}
use braird_core.Crypto.Text.{split_once}
use braird_core.Crypto.{Bytes, Ciphers}

-- n times `b`, then `a`

digit : ℕ → String → String
digit zero s = String.◌∷◌ "a" s
digit (suc n) s = String.◌∷◌ "b" (digit n s)

encode : Bytes → String
encode [] = String.[]
encode (n ∷ ns) = digit n (encode ns)

decode : ℕ → String → Option Bytes
decode k String.[] = if k == 0 then some [] else none
decode k (String.◌∷◌ c s) =
    let last = decode 0 s in
    let more = decode (suc k) s in
    if code c == b'a' then (elim last [ none ↦ none | some ns ↦ some (k ∷ ns) ]) else more

decode-digit :
    (k n : ℕ) (s : String) (ns : Bytes)
    → decode 0 s ≡ some ns
    → decode k (digit n s) ≡ some ((k + n) ∷ ns)
unfolding decode digit
decode-digit k zero s ns h = ground arith
decode-digit k (suc n) s ns h =
    decode-digit (suc k) n s ns h ∙ ap (λ m. some (m ∷ ns)) (omega arith)

decode-encode : (ns : Bytes) → decode 0 (encode ns) ≡ some ns
unfolding encode decode
decode-encode [] = refl
decode-encode (n ∷ ns) =
    decode-digit 0 n (encode ns) ns (decode-encode ns) ∙ ap (λ m. some (m ∷ ns)) (omega arith)

split_once-digit : (n : ℕ) (s : String) → split_once s ≡ none → split_once (digit n s) ≡ none
unfolding split_once digit
split_once-digit zero s h = ground arith
split_once-digit (suc n) s h = ground (arith, split_once-digit n s h)

split_once-encode : (ns : Bytes) → split_once (encode ns) ≡ none
unfolding encode split_once
split_once-encode [] = refl
split_once-encode (n ∷ ns) = split_once-digit n (encode ns) (split_once-encode ns)

codes : String → Bytes
codes String.[] = []
codes (String.◌∷◌ c s) = code c ∷ codes s

scalar_of :
    (n : ℕ) (o p q : Ordering)
    → compare n 55296 ≡ o
    → compare 57343 n ≡ p
    → compare n 1114112 ≡ q
    → Option (IsScalar n)
scalar_of n Ordering.lt p q e f g = some (rw e tt)
scalar_of n Ordering.eq Ordering.lt Ordering.lt e f g = some (rw (e, f, g) tt)
scalar_of n Ordering.eq Ordering.lt Ordering.eq e f g = none
scalar_of n Ordering.eq Ordering.lt Ordering.gt e f g = none
scalar_of n Ordering.eq Ordering.eq q e f g = none
scalar_of n Ordering.eq Ordering.gt q e f g = none
scalar_of n Ordering.gt Ordering.lt Ordering.lt e f g = some (rw (e, f, g) tt)
scalar_of n Ordering.gt Ordering.lt Ordering.eq e f g = none
scalar_of n Ordering.gt Ordering.lt Ordering.gt e f g = none
scalar_of n Ordering.gt Ordering.eq q e f g = none
scalar_of n Ordering.gt Ordering.gt q e f g = none

scalar_of-some :
    (n : ℕ) (o p q : Ordering) (e : compare n 55296 ≡ o) (f : compare 57343 n ≡ p)
    (g : compare n 1114112 ≡ q) (s : IsScalar n)
    → scalar_of n o p q e f g ≡ some s
unfolding scalar_of
scalar_of-some n Ordering.lt p q e f g s = ap (λ r. some r) (IsScalar-prop n _ s)
scalar_of-some n Ordering.eq Ordering.lt Ordering.lt e f g s =
    ap (λ r. some r) (IsScalar-prop n _ s)
scalar_of-some n Ordering.eq Ordering.lt Ordering.eq e f g s = absurd (rw (e, f, g) at s)
scalar_of-some n Ordering.eq Ordering.lt Ordering.gt e f g s = absurd (rw (e, f, g) at s)
scalar_of-some n Ordering.eq Ordering.eq q e f g s = absurd (rw (e, f) at s)
scalar_of-some n Ordering.eq Ordering.gt q e f g s = absurd (rw (e, f) at s)
scalar_of-some n Ordering.gt Ordering.lt Ordering.lt e f g s =
    ap (λ r. some r) (IsScalar-prop n _ s)
scalar_of-some n Ordering.gt Ordering.lt Ordering.eq e f g s = absurd (rw (e, f, g) at s)
scalar_of-some n Ordering.gt Ordering.lt Ordering.gt e f g s = absurd (rw (e, f, g) at s)
scalar_of-some n Ordering.gt Ordering.eq q e f g s = absurd (rw (e, f) at s)
scalar_of-some n Ordering.gt Ordering.gt q e f g s = absurd (rw (e, f) at s)

char_of : ℕ → Option Char
char_of n =
    elim (scalar_of n (compare n 55296) (compare 57343 n) (compare n 1114112) refl refl refl) [
      | none ↦ none
      | some s ↦ some (char n s)
    ]

char_of-code : (c : Char) → char_of (code c) ≡ some c
unfolding char_of
char_of-code (char n s) = rw (scalar_of-some n _ _ _ refl refl refl s, char_of) refl

chars : Bytes → Option String
chars [] = some String.[]
chars (n ∷ ns) = elim (char_of n) [
  | none ↦ none
  | some c ↦ elim (chars ns) [ none ↦ none | some s ↦ some (String.◌∷◌ c s) ]
]

chars-codes : (s : String) → chars (codes s) ≡ some s
unfolding chars codes
chars-codes String.[] = refl
chars-codes (String.◌∷◌ c s) = ground (arith, char_of-code c, chars-codes s)

pub zeros : ℕ → Bytes
zeros zero = []
zeros (suc n) = 0 ∷ zeros n

pub length-zeros : (n : ℕ) → length (zeros n) ≡ n
unfolding zeros
length-zeros zero = refl
length-zeros (suc n) = omega (arith, length-zeros n)

instance pub plain : Ciphers
plain = record {
  encrypt = λ key iv pt aad. pt;
  decrypt = λ key iv ct aad. some ct;
  decrypt-encrypt = λ key iv pt aad. refl;
  b64encode = encode;
  b64decode = decode 0;
  decode-encode = decode-encode;
  encode-IsDotless = split_once-encode;
  as_bytes = codes;
  from_utf8 = chars;
  from-as_bytes = chars-codes;
  hkdf32 = λ ikm info. zeros 32;
  length-hkdf32 = λ ikm info. length-zeros 32;
}
