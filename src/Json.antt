-- ===== src/Json.antt =====
-- The values of `serde_json` that the program builds and reads: the numbers as their `i64` or a
-- binary fraction, an object by its entries. How a value is written as text is not modelled: the
-- text is a type of its own, with the writer and the reader as an interface.
pub mod Laws
pub mod Kept
use Prim.Native.String.{compare}
use text.Mathlib.Text.{is_lt}
use braird_core.Prelude.{
  ℕ, String, ℤ, pos, ◌≡◌, Bool, true, false, not, ◌&&◌, ◌||◌, Option, none, some, in_i64, eqb_ℤ,
  str_eq, if◌then◌else◌,
}

-- `real m e` is m · 2^e.
pub data Number : Type 0 where
  int : ℤ → Number
  real : ℤ → ℤ → Number

mutual
  pub data Value : Type 0 where
    null : Value
    bool : Bool → Value
    num : Number → Value
    str : String → Value
    arr : Items → Value
    obj : Map → Value

  pub data Items : Type 0 where
    nil : Items
    cons : Value → Items → Items

  -- `serde_json::Map`: the entries in the ascending order of their keys, one for each key
  pub data Map : Type 0 where
    empty : Map
    entry : String → Value → Map → Map

-- `Map::get`
unfoldable pub get : String → Map → Option Value
get k empty = none
get k (entry j v m) = if str_eq j k then some v else get k m

-- `Map::remove`
unfoldable pub remove : String → Map → Map
remove k empty = empty
remove k (entry j v m) = let rest = remove k m in if str_eq j k then rest else entry j v rest

-- A new key goes before the first greater one.
unfoldable pub place : String → Value → Map → Map
place k v empty = entry k v empty
place k v (entry j w m) =
    let rest = place k v m in
    if is_lt (compare k j) then entry k v (entry j w m) else entry j w rest

-- `Map::insert`
unfoldable pub insert : String → Value → Map → Map
insert k v m = place k v (remove k m)

-- `for (k, v) in fields { base.insert(k, v) }`: the keys of `fields` differ, so the order of the
-- insertions is no matter.
unfoldable pub extend : Map → Map → Map
extend base empty = base
extend base (entry k v fields) = insert k v (extend base fields)

-- `Map::contains_key`
unfoldable pub contains_key : String → Map → Bool
contains_key k empty = false
contains_key k (entry j v m) = str_eq j k || contains_key k m

-- `Value::as_str`, `as_i64`, `as_bool`, `is_null`, on the result of a `get`
unfoldable pub as_str : Option Value → Option String
as_str (some (str s)) = some s
as_str _ = none

unfoldable pub as_i64 : Option Value → Option ℤ
as_i64 (some (num (int n))) = if in_i64 n then some n else none
as_i64 _ = none

unfoldable pub as_bool : Option Value → Option Bool
as_bool (some (bool b)) = some b
as_bool _ = none

unfoldable pub is_null : Value → Bool
is_null null = true
is_null _ = false

-- `n.as_f64().map(|f| f != 0.0)`
unfoldable pub nonzero : Number → Bool
nonzero (int n) = not (eqb_ℤ n (pos 0))
nonzero (real m e) = not (eqb_ℤ m (pos 0))

-- `truthy` of src/store.rs and src/sync/outbox.rs, which are the same function
unfoldable pub truthy : Option Value → Bool
unfolding nonzero
truthy (some (bool b)) = b
truthy (some (num n)) = nonzero n
truthy (some (str s)) = not (str_eq s "") && not (str_eq s "false") && not (str_eq s "0")
truthy _ = false

-- A value with each binary fraction replaced.
unfoldable mutual
  pub map_reals : (ℤ → ℤ → Number) → Value → Value
  map_reals f null = null
  map_reals f (bool b) = bool b
  map_reals f (num (int n)) = num (int n)
  map_reals f (num (real m e)) = num (f m e)
  map_reals f (str s) = str s
  map_reals f (arr xs) = arr (map_reals_items f xs)
  map_reals f (obj m) = obj (map_reals_map f m)

  pub map_reals_items : (ℤ → ℤ → Number) → Items → Items
  map_reals_items f nil = nil
  map_reals_items f (cons x xs) = cons (map_reals f x) (map_reals_items f xs)

  pub map_reals_map : (ℤ → ℤ → Number) → Map → Map
  map_reals_map f empty = empty
  map_reals_map f (entry k v m) = entry k (map_reals f v) (map_reals_map f m)

-- A number that is no `i64`, and zero exactly where the fraction is.
pub record IsReread (f : ℤ → ℤ → Number) : Type 0 where
  pub not_integer : (m e : ℤ) → as_i64 (some (num (f m e))) ≡ none
  pub same_zero : (m e : ℤ) → nonzero (f m e) ≡ nonzero (real m e)

-- `serde_json::to_string` and `serde_json::from_str(…).ok()`, for some type of texts. A value that
-- was written is read back, but for its binary fractions: the reader may be off in their last
-- place.
pub record Serde (Text : Type 0) : Type 0 where
  pub to_string : Value → Text
  pub from_str : Text → Option Value
  pub reread : ℤ → ℤ → Number
  pub reread-IsReread : IsReread reread
  pub from_str-to_string : (v : Value) → from_str (to_string v) ≡ some (map_reals reread v)
