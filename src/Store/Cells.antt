-- ===== src/Store/Cells.antt =====
-- The cells of a synced table, of src/store.rs: a JSON column value as its SQLite value and back.
-- A TEXT cell of a `json` column holds serialised text, so it is told from the other TEXT cells.
use braird_core.Prelude.{
  ◌&&◌, ℕ, zero, suc, ◌+◌, ◌*◌, ◌/◌, ◌%◌, ◌==◌, ◌||◌, ltb, negsuc, sub_ℕ, String, ℤ, pos, eqb_ℤ,
  not, ◌≡◌, refl, Option, none, some, List, [], ◌∷◌, eq_iff, arith, if◌then◌else◌, unwrap_or,
}
use braird_core.Prelude.Maps
use braird_core.Json
use braird_core.Json.{
  Value, Map, Number, Serde, bool, num, str, obj, int, empty, as_i64, as_bool, as_str, nonzero,
}
use braird_core.Json.Laws.{get-insert}
use braird_core.Store.Schema.{ColType}

-- `rusqlite::types::Value`, for the types that the tables use

pub data SqlValue (Text : Type 0) : Type 0 where
  null : SqlValue Text
  integer : ℤ → SqlValue Text
  real : ℤ → ℤ → SqlValue Text
  text : String → SqlValue Text
  json : Text → SqlValue Text

-- The distance of the `f64`s at a magnitude: doubled until 2^53 of them reach it. Eleven times is
-- enough for 64 bits.
unfoldable pub f64_unit : ℕ → ℕ → ℕ → ℕ
f64_unit zero unit n = unit
f64_unit (suc left) unit n =
    let wider = f64_unit left (unit * 2) n in
    if ltb n (unit * 9007199254740992) then unit else wider

-- The nearest `f64` of a magnitude, the even one of two that are as near.
unfoldable pub f64_round : ℕ → ℕ
unfolding f64_unit
f64_round n =
    let unit = f64_unit 11 1 n in
    let below = n / unit in
    let rest = n % unit in
    if ltb (rest * 2) unit || (rest * 2 == unit && below % 2 == 0)
    then below * unit
    else (below + 1) * unit

-- `i64 as f64` and `u64 as f64`, as the integer that the `f64` is
unfoldable pub f64_of : ℤ → ℤ
unfolding f64_round
f64_of (pos n) = pos (f64_round n)
f64_of (negsuc n) = sub_ℕ 0 (f64_round (n + 1))

module _ {Text : Type 0} ⦃serde : Serde Text⦄ where
  -- `val.as_f64()`
  unfoldable pub real_cell : Value → SqlValue Text
  unfolding f64_of
  real_cell (num (int n)) = SqlValue.real (f64_of n) (pos 0)
  real_cell (num (Number.real m e)) = SqlValue.real m e
  real_cell _ = SqlValue.null

  unfoldable pub bool_cell : Value → SqlValue Text
  bool_cell (bool b) = integer (if b then pos 1 else pos 0)
  bool_cell (num n) = integer (if nonzero n then pos 1 else pos 0)
  bool_cell _ = SqlValue.null

  unfoldable pub text_cell : Value → SqlValue Text
  text_cell (str s) = text s
  text_cell _ = SqlValue.null

  unfoldable pub int_cell : Option ℤ → SqlValue Text
  int_cell none = SqlValue.null
  int_cell (some n) = integer n

  -- a value that is there and not null
  unfoldable pub value_to_sql : Value → ColType → SqlValue Text
  unfolding real_cell bool_cell text_cell int_cell
  value_to_sql Value.null ty = SqlValue.null
  value_to_sql v ColType.text = text_cell v
  value_to_sql v ColType.int = int_cell (as_i64 (some v))
  value_to_sql v ColType.bool = bool_cell v
  value_to_sql v ColType.real = real_cell v
  value_to_sql v ColType.json = json (serde.to_string v)

  unfoldable pub json_to_sql : Option Value → ColType → SqlValue Text
  unfolding value_to_sql
  json_to_sql none ty = SqlValue.null
  json_to_sql (some v) ty = value_to_sql v ty

  unfoldable pub sql_to_json : SqlValue Text → ColType → Value
  sql_to_json SqlValue.null ty = Value.null
  sql_to_json (integer i) ColType.bool = bool (not (eqb_ℤ i (pos 0)))
  sql_to_json (integer i) _ = num (int i)
  sql_to_json (SqlValue.real m e) ty = num (Number.real m e)
  sql_to_json (text s) ty = str s
  sql_to_json (json t) ty = unwrap_or (serde.from_str t) Value.null

  -- The row of an INSERT: one cell for each column of the descriptor.
  unfoldable pub project : List (String × ColType) → Map → List (SqlValue Text)
  project [] row = []
  project ((name, ty) ∷ columns) row = json_to_sql (Json.get name row) ty ∷ project columns row

  -- The row of a SELECT of the descriptor's columns.
  unfoldable pub read_cells : List (String × ColType) → List (SqlValue Text) → Map
  read_cells [] cells = empty
  read_cells (column ∷ columns) [] = empty
  read_cells ((name, ty) ∷ columns) (cell ∷ cells) =
      Json.insert name (sql_to_json cell ty) (read_cells columns cells)

module _ (Text : Type 0) ⦃serde : Serde Text⦄ where
  -- What a column of a type gives back of a value.
  unfoldable pub through : ColType → Option Value → Value
  through ty v = sql_to_json (json_to_sql {Text = Text} v ty) ty

  -- A column that was written is read back through its cell, and no other column is there.
  pub get-read_cells :
      (columns : List (String × ColType)) (row : Map) (name : String)
      → Json.get name (read_cells columns (project {Text = Text} columns row))
        ≡ elim (Maps.lookup name columns) [
          | none ↦ none
          | some ty ↦ some (through ty (Json.get name row))
        ]
  unfolding read_cells project Maps.lookup through
  get-read_cells [] row name = unfold Json.get in refl
  get-read_cells ((column, ty) ∷ columns) row name = ground (
    arith,
    get-insert column name (through ty (Json.get column row))
        (read_cells columns (project {Text = Text} columns row)),
    get-read_cells columns row name,
    eq_iff column name,
  )

  -- An `Int` column gives back the integers.
  pub int_column : (v : Option Value) → as_i64 (some (through ColType.int v)) ≡ as_i64 v
  unfolding through sql_to_json json_to_sql as_i64
  int_column none = refl
  int_column (some (num (int n))) = ground arith
  int_column (some v) = ground arith
