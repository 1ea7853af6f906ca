-- ===== src/Normalize/Trim.antt =====
-- The characters of the normal form of src/normalize.rs, and its ends.
use Prim.Native.Char.{Char}
use braird_core.Prelude.{
  any, ◌||◌, false, true, ◌&&◌, ◌⊎◌, ◌≡◌, refl, ap, ◌∙◌, String, Bool, Bool-cases, inl, inr, arith,
}
use braird_core.Normalize.{
  is_empty, retain, is_ecmascript_whitespace, collapse_from, collapse_whitespace, Unicode,
  trim_start, trim_end, trim_both, normalize_for_tag,
}

module _ (p : Char → Bool) where
  trim_end_idem : (s : String) → trim_end p (trim_end p s) ≡ trim_end p s
  unfolding trim_end
  trim_end_idem String.[] = refl
  trim_end_idem (String.◌∷◌ c s) = ground (arith, trim_end_idem s)

  trim_start-trim_end :
      (s : String) → trim_start p (trim_end p (trim_start p s)) ≡ trim_end p (trim_start p s)
  unfolding trim_start trim_end
  trim_start-trim_end String.[] = refl
  trim_start-trim_end (String.◌∷◌ c s) = elim (Bool-cases (p c)) [
    | inl e ↦ rw e (trim_start-trim_end s)
    | inr e ↦ ground arith
  ]

  trim_both_idem : (s : String) → trim_both p (trim_both p s) ≡ trim_both p s
  unfolding trim_both
  trim_both_idem s = ap (trim_end p) (trim_start-trim_end s) ∙ trim_end_idem (trim_start p s)

-- Every character of a text.
abbrev pub AllChars : (Char → Type 0) → String → Type 0
AllChars P String.[] = Unit
AllChars P (String.◌∷◌ c s) = P c × AllChars P s

-- A trimmed text has no other characters.
is_empty-nil : (s : String) → is_empty s ≡ true → s ≡ String.[]
is_empty-nil String.[] e = refl
is_empty-nil (String.◌∷◌ c s) e = absurd (ground arith)

trim_start-AllChars :
    (P : Char → Type 0) (p : Char → Bool) (s : String) → AllChars P s → AllChars P (trim_start p s)
unfolding trim_start
trim_start-AllChars P p String.[] h = tt
trim_start-AllChars P p (String.◌∷◌ c s) h = elim (Bool-cases (p c)) [
  | inl e ↦ rw e (trim_start-AllChars P p s h.1)
  | inr e ↦ rw e h
]

trim_end-AllChars :
    (P : Char → Type 0) (p : Char → Bool) (s : String) → AllChars P s → AllChars P (trim_end p s)
unfolding trim_end
trim_end-AllChars P p String.[] h = tt
trim_end-AllChars P p (String.◌∷◌ c s) h = elim (Bool-cases (p c && is_empty (trim_end p s))) [
  | inl e ↦ rw e tt
  | inr e ↦ rw e (h.0, trim_end-AllChars P p s h.1)
]

retain-AllChars :
    (P : Char → Type 0) (p : Char → Bool) (s : String)
    → AllChars P s
    → AllChars (λ c. (p c ≡ false) × P c) (retain p s)
unfolding retain
retain-AllChars P p String.[] h = tt
retain-AllChars P p (String.◌∷◌ c s) h = elim (Bool-cases (p c)) [
  | inl e ↦ rw e (retain-AllChars P p s h.1)
  | inr e ↦ rw e ((e, h.0), retain-AllChars P p s h.1)
]

module _ ⦃u : Unicode⦄ where
  -- White space of ECMAScript only as a plain space.
  abbrev pub IsPlain : Char → Type 0
  IsPlain c = (is_ecmascript_whitespace c ≡ false) ⊎ (c ≡ " ")

  collapse_from-IsPlain : (in_ws : Bool) (s : String) → AllChars IsPlain (collapse_from in_ws s)
  unfolding collapse_from
  collapse_from-IsPlain in_ws String.[] = tt
  collapse_from-IsPlain in_ws (String.◌∷◌ c s) = elim (Bool-cases (is_ecmascript_whitespace c)) [
    | inl e ↦ elim (Bool-cases in_ws) [
      | inl w ↦ rw (e, w) (collapse_from-IsPlain true s)
      | inr w ↦ rw (e, w) (inr refl, collapse_from-IsPlain true s)
    ]
    | inr e ↦ rw e (inl e, collapse_from-IsPlain false s)
  ]

  abbrev pub IsNormal : Char → Type 0
  IsNormal c = (u.is_control c ≡ false) × IsPlain c

  -- The characters that a normal form may leave out.
  unfoldable pub is_loose : Char → Bool
  is_loose c =
      is_ecmascript_whitespace c || (u.is_control c || (u.is_whitespace c || u.is_punctuation c))

  -- A part of the work that leaves out loose characters alone.
  trim_start-loose :
      (p : Char → Bool) (s : String)
      → ((c : Char) → p c ≡ true → is_loose c ≡ true)
      → retain is_loose (trim_start p s) ≡ retain is_loose s
  unfolding retain trim_start
  trim_start-loose p String.[] loose = refl
  trim_start-loose p (String.◌∷◌ c s) loose = elim (Bool-cases (p c)) [
    | inl e ↦ rw (e, loose c e, trim_start, retain) (trim_start-loose p s loose)
    | inr e ↦ rw (e, trim_start) refl
  ]

  trim_end-loose :
      (p : Char → Bool) (s : String)
      → ((c : Char) → p c ≡ true → is_loose c ≡ true)
      → retain is_loose (trim_end p s) ≡ retain is_loose s
  unfolding retain trim_end
  trim_end-loose p String.[] loose = refl
  trim_end-loose p (String.◌∷◌ c s) loose =
      ground (arith, trim_end-loose p s loose, loose c, is_empty-nil (trim_end p s))

  retain-loose : (s : String) → retain is_loose (retain u.is_control s) ≡ retain is_loose s
  unfolding retain is_loose
  retain-loose String.[] = refl
  retain-loose (String.◌∷◌ c s) = ground (arith, retain-loose s)

  space-loose : is_loose " " ≡ true
  unfolding is_loose is_ecmascript_whitespace any
  space-loose = refl

  ecmascript-loose : (c : Char) → is_ecmascript_whitespace c ≡ true → is_loose c ≡ true
  unfolding is_loose
  ecmascript-loose c e = ground arith

  whitespace-loose : (c : Char) → u.is_whitespace c ≡ true → is_loose c ≡ true
  unfolding is_loose
  whitespace-loose c e = ground arith

  punctuation-loose : (c : Char) → u.is_punctuation c ≡ true → is_loose c ≡ true
  unfolding is_loose
  punctuation-loose c e = ground arith

  trim_both-loose : (s : String) → retain is_loose (trim_both u.is_whitespace s) ≡ retain is_loose s
  unfolding trim_both
  trim_both-loose s =
      trim_end-loose u.is_whitespace (trim_start u.is_whitespace s) whitespace-loose
      ∙ trim_start-loose u.is_whitespace s whitespace-loose

  collapse_from-loose :
      (in_ws : Bool) (s : String) → retain is_loose (collapse_from in_ws s) ≡ retain is_loose s
  unfolding retain collapse_from
  collapse_from-loose in_ws String.[] = refl
  collapse_from-loose in_ws (String.◌∷◌ c s) = ground (
    arith,
    collapse_from-loose true s,
    collapse_from-loose false s,
    ecmascript-loose c,
    space-loose,
  )

  -- Where an empty text folds to an empty one, a normal form has white space neither before nor
  -- behind, no control character, and of the white space of ECMAScript the plain space alone; and
  -- the characters of the folded text (NFKC, then lower case) that are no white space, no control
  -- and no punctuation are in it, all of them and in their order.
  pub normalize_for_tag-IsNormal :
      (text : String)
      → u.to_lowercase (u.nfkc String.[]) ≡ String.[]
      → (trim_both u.is_whitespace (normalize_for_tag text) ≡ normalize_for_tag text)
        × AllChars IsNormal (normalize_for_tag text)
        × (retain is_loose (normalize_for_tag text)
            ≡ retain is_loose (u.to_lowercase (u.nfkc text)))
  unfolding normalize_for_tag collapse_whitespace
  normalize_for_tag-IsNormal String.[] empty =
      (unfold trim_both trim_start trim_end in refl, tt, rw empty refl)
  normalize_for_tag-IsNormal (String.◌∷◌ c s) empty =
      let lower = u.to_lowercase (u.nfkc (String.◌∷◌ c s)) in
      let plain = retain u.is_control (collapse_from false lower) in
      let trimmed = trim_both u.is_whitespace plain in
      (
        trim_both_idem u.is_whitespace _,
        unfold trim_both in
            trim_end-AllChars IsNormal _ _ (
              trim_start-AllChars IsNormal _ _ (
                trim_end-AllChars IsNormal _ _ (
                  trim_end-AllChars IsNormal _ _ (
                    trim_start-AllChars IsNormal _ _
                      (retain-AllChars IsPlain u.is_control _ (collapse_from-IsPlain false _)))))),
        trim_both-loose (trim_end u.is_punctuation trimmed)
            ∙ trim_end-loose u.is_punctuation trimmed punctuation-loose
            ∙ trim_both-loose plain
            ∙ retain-loose (collapse_from false lower)
            ∙ collapse_from-loose false lower,
      )
