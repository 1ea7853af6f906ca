-- ===== src/Store/Listing.antt =====
-- `list_live` of src/store.rs. The primary keys that a table holds come from a scan of it, which is a
-- parameter: a store is a function of the keys.
use braird_core.Prelude.{
  ℕ, zero, suc, String, ℤ, pos, negsuc, pos_part, ltb_ℤ, i64_min, ◌+ℤ◌, Bool, true, false, ◌&&◌,
  Option, none, some, List, [], ◌∷◌, ◌++◌, map, filter, sort_by_key, str_eq, unwrap_or,
  if◌then◌else◌,
}
use braird_core.Prelude.Maps
use braird_core.Json
use braird_core.Json.{Map, Value, Serde, bool, as_i64, as_str}
use braird_core.Store.Schema.{TableSchema}
use braird_core.Store.Cells.{SqlValue, read_cells}
use braird_core.Store.State.{Result, ok, ◌>>=◌, Store, schema_or_err}

-- The keys of the rows of a table.

abbrev pub Scan : Type 0 → Type 0
Scan Text = Store Text → String → List String

-- WHERE deleted = 0
unfoldable pub is_live : Map → Bool
is_live row = elim (Json.get "deleted" row) [
  | some (bool b) ↦ if b then false else true
  | _ ↦ false
]

-- AND column = ?
unfoldable pub matches_column : Option (String × String) → Map → Bool
matches_column none row = true
matches_column (some (column, value)) row = elim (as_str (Json.get column row)) [
  | none ↦ false
  | some found ↦ str_eq found value
]

-- NULL is below every integer.
unfoldable pub created_key : Map → ℤ
created_key row = unwrap_or (as_i64 (Json.get "created_at" row)) (i64_min +ℤ negsuc 0)

unfoldable pub backwards {ℓ} : {A : Type ℓ} → List A → List A → List A
backwards done [] = done
backwards done (x ∷ xs) = backwards (x ∷ done) xs

unfoldable pub skip_rows {ℓ} : {A : Type ℓ} → ℕ → List A → List A
skip_rows zero xs = xs
skip_rows (suc n) [] = []
skip_rows (suc n) (x ∷ xs) = skip_rows n xs

unfoldable pub take_rows {ℓ} : {A : Type ℓ} → ℕ → List A → List A
take_rows zero xs = []
take_rows (suc n) [] = []
take_rows (suc n) (x ∷ xs) = x ∷ take_rows n xs

-- LIMIT ? OFFSET ?: a negative limit is none, a negative offset is 0.
unfoldable pub page_of {ℓ} : {A : Type ℓ} → ℤ → ℤ → List A → List A
page_of limit offset rows =
    let rest = skip_rows (pos_part offset) rows in
    if ltb_ℤ limit (pos 0) then rest else take_rows (pos_part limit) rest

module _ {Text : Type 0} ⦃serde : Serde Text⦄ where
  -- The rows of the keys in their ascending order.
  unfoldable pub keyed_rows : Store Text → TableSchema → List String → List (String × Map)
  keyed_rows s schema [] = []
  keyed_rows s schema (id ∷ ids) = elim (s.rows schema.name id) [
    | none ↦ keyed_rows s schema ids
    | some cells ↦ Maps.insert id (read_cells schema.columns cells) (keyed_rows s schema ids)
  ]

  -- The rows with a NULL key, which the order puts before every text.
  unfoldable pub keyless_rows : TableSchema → List (String × List (SqlValue Text)) → List Map
  keyless_rows schema [] = []
  keyless_rows schema ((name, cells) ∷ rows) =
      let rest = keyless_rows schema rows in
      if str_eq name schema.name then read_cells schema.columns cells ∷ rest else rest

  -- ORDER BY created_at DESC, the primary key DESC
  unfoldable pub list_live :
      Scan Text → Store Text → String → Option (String × String) → ℤ → ℤ → Result (List Map)
  list_live scan s table where_equal limit offset = do
    schema ← schema_or_err table
    ok (
        page_of limit offset (
          backwards [] (
            sort_by_key created_key (
              filter (λ row. is_live row && matches_column where_equal row)
                (keyless_rows schema s.keyless
                  ++ map (λ entry. entry.1) (keyed_rows s schema (scan s schema.name)))))))
