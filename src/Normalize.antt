-- ===== src/Normalize.antt =====
-- src/normalize.rs: the normal form of a text for its content tag. The tables of Unicode, which two
-- crates and the standard library hold, are a record.
pub mod Trim
pub mod Examples
use Prim.Native.Char.{Char, code}
use braird_core.Prelude.{
  ℕ, String, Bool, true, false, ◌&&◌, ◌||◌, List, [], ◌∷◌, any, ◌==◌, if◌then◌else◌,
}

pub record Unicode : Type 0 where
  pub nfkc : String → String
  pub to_lowercase : String → String
  pub is_control : Char → Bool
  pub is_whitespace : Char → Bool
  pub is_space_separator : Char → Bool
  pub is_punctuation : Char → Bool

abbrev pub is_empty : String → Bool
is_empty String.[] = true
is_empty (String.◌∷◌ c s) = false

abbrev pub es_whitespace : List ℕ
es_whitespace = 0x9 ∷ 0xA ∷ 0xB ∷ 0xC ∷ 0xD ∷ 0x20 ∷ 0xA0 ∷ 0xFEFF ∷ 0x2028 ∷ 0x2029 ∷ []

-- `str::trim_start_matches` and `str::trim_end_matches`
unfoldable pub trim_start : (Char → Bool) → String → String
trim_start p String.[] = String.[]
trim_start p (String.◌∷◌ c s) = let rest = trim_start p s in if p c then rest else String.◌∷◌ c s

unfoldable pub trim_end : (Char → Bool) → String → String
trim_end p String.[] = String.[]
trim_end p (String.◌∷◌ c s) =
    let rest = trim_end p s in if p c && is_empty rest then String.[] else String.◌∷◌ c rest

unfoldable pub trim_both : (Char → Bool) → String → String
trim_both p s = trim_end p (trim_start p s)

unfoldable pub retain : (Char → Bool) → String → String
retain p String.[] = String.[]
retain p (String.◌∷◌ c s) = let rest = retain p s in if p c then rest else String.◌∷◌ c rest

module _ ⦃u : Unicode⦄ where
  unfoldable pub is_ecmascript_whitespace : Char → Bool
  is_ecmascript_whitespace c = any (λ n. code c == n) es_whitespace || u.is_space_separator c

  -- The loop, with `in_ws`
  unfoldable pub collapse_from : Bool → String → String
  collapse_from in_ws String.[] = String.[]
  collapse_from in_ws (String.◌∷◌ c s) =
      let within = collapse_from true s in
      let beyond = collapse_from false s in
      if is_ecmascript_whitespace c
      then (if in_ws then within else String.◌∷◌ " " within)
      else String.◌∷◌ c beyond

  unfoldable pub collapse_whitespace : String → String
  collapse_whitespace = collapse_from false

  unfoldable pub normalize_for_tag : String → String
  normalize_for_tag String.[] = String.[]
  normalize_for_tag (String.◌∷◌ c s) =
      let lower = u.to_lowercase (u.nfkc (String.◌∷◌ c s)) in
      let no_ctrl = retain u.is_control (collapse_whitespace lower) in
      let trimmed = trim_both u.is_whitespace no_ctrl in
      trim_both u.is_whitespace (trim_end u.is_punctuation trimmed)
