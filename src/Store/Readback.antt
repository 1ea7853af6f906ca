-- ===== src/Store/Readback.antt =====
-- Reads after writes in src/store.rs, column by column: which values a cell gives back.
use braird_core.Prelude.{
  String, ℤ, ◌≡◌, refl, false, ◌&&◌, Bool, none, some, arith, eq_iff, str_eq, in_i64, true,
}
use braird_core.Prelude.Maps
use braird_core.Json
use braird_core.Json.{Value, Map, Serde, str, bool, num, int, as_i64}
use braird_core.Store.Schema.{TableSchema, ColType, table_schema}
use braird_core.Store.Cells.{project, read_cells, get-read_cells, through, sql_to_json, json_to_sql}
use braird_core.Store.State.{ok, Store, get_row, apply_row}
use braird_core.Store.Rows.{get_row-apply_row}

-- The values that a column of a type holds as they are.

pub data Fits : ColType → Value → Type 0 where
  null_fits : (ty : ColType) → Fits ty Value.null
  text_fits : (s : String) → Fits ColType.text (str s)
  int_fits : (n : ℤ) → in_i64 n ≡ true → Fits ColType.int (num (int n))
  bool_fits : (b : Bool) → Fits ColType.bool (bool b)
  real_fits : (m e : ℤ) → Fits ColType.real (num (Json.Number.real m e))

through-Fits :
    (Text : Type 0) ⦃serde : Serde Text⦄ {ty : ColType} {v : Value}
    → Fits ty v
    → through Text ty (some v) ≡ v
unfolding through sql_to_json json_to_sql as_i64
through-Fits Text (null_fits ty) = refl
through-Fits Text (text_fits s) = refl
through-Fits Text (int_fits n h) = ground arith
through-Fits Text (bool_fits b) = ground arith
through-Fits Text (real_fits m e) = refl

through-none :
    (Text : Type 0) ⦃serde : Serde Text⦄ (ty : ColType) → through Text ty none ≡ Value.null
unfolding through sql_to_json json_to_sql
through-none Text ty = refl

module _ {Text : Type 0} ⦃serde : Serde Text⦄ (s : Store Text) (table : String) (row : Map)
    (id : String) (schema : TableSchema) where
  -- What a read finds after a row was written.
  pub record ReadsBack (t : Store Text) : Type 0 where
    pub read : Map
    pub found : get_row t table id ≡ ok (some read)
    -- each value that its column can hold, as it was given
    pub given :
        (name : String) (ty : ColType) (v : Value)
        → Maps.lookup name schema.columns ≡ some ty
        → Json.get name row ≡ some v
        → Fits ty v
        → Json.get name read ≡ some v
    -- null for a column of the table that the row has not
    pub unset :
        (name : String) (ty : ColType)
        → Maps.lookup name schema.columns ≡ some ty
        → Json.get name row ≡ none
        → Json.get name read ≡ some Value.null
    -- nothing that is no column of the table
    pub unknown :
        (name : String) → Maps.lookup name schema.columns ≡ none → Json.get name read ≡ none
    -- every other row as before
    pub others :
        (other j : String)
        → (str_eq table other && str_eq id j) ≡ false
        → get_row t other j ≡ get_row s other j

  -- A row of a known table that is written with its key is read back under it: each text, integer
  -- in the range of `i64`, Boolean, fraction or null in a column of its type as it was given, null
  -- for a column that the row has not, and no column that the table has not. Every other row is
  -- read as before.
  pub apply_row-ReadsBack :
      {t : Store Text}
      → table_schema table ≡ some schema
      → Json.get schema.pk row ≡ some (str id)
      → apply_row s table row ≡ ok t
      → ReadsBack t
  apply_row-ReadsBack found key applied =
      let columns = get-read_cells Text schema.columns row in
      let reads = get_row-apply_row s table row schema id found key applied in
      record {
        read = read_cells schema.columns (project {Text = Text} schema.columns row);
        found = ground (arith, reads table id, eq_iff table table, eq_iff id id);
        given = λ name ty v known given fits. ground (arith, columns name, through-Fits Text fits);
        unset = λ name ty known unset. ground (arith, columns name, through-none Text ty);
        unknown = λ name unknown. ground (arith, columns name);
        others = λ other j apart. ground (arith, reads other j);
      }
