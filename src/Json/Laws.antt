-- ===== src/Json/Laws.antt =====
-- The laws of object reads and writes.
use braird_core.Prelude.{
  String, ℤ, ◌≡◌, refl, Option, none, some, Bool, false, arith, eq_iff, str_eq, if◌then◌else◌,
}
use braird_core.Json.{
  truthy, bool, Value, Map, empty, entry, get, insert, remove, place, extend, map_reals,
  map_reals_map, IsReread, Number, as_i64, num, int, real,
}

pub get-remove :
    (k j : String) (m : Map) → get j (remove k m) ≡ (if str_eq k j then none else get j m)
unfolding get remove
get-remove k j empty = ground arith
get-remove k j (entry i w m) = ground (arith, get-remove k j m, eq_iff i k, eq_iff i j, eq_iff k j)

get-place :
    (k j : String) (v : Value) (m : Map)
    → get k m ≡ none
    → get j (place k v m) ≡ (if str_eq k j then some v else get j m)
unfolding get place
get-place k j v empty h = refl
get-place k j v (entry i w m) h =
    ground (arith, get-place k j v m, eq_iff i k, eq_iff i j, eq_iff k j)

pub get-insert :
    (k j : String) (v : Value) (m : Map)
    → get j (insert k v m) ≡ (if str_eq k j then some v else get j m)
unfolding insert
get-insert k j v m = ground (
  arith,
  get-place k j v (remove k m),
  get-remove k k m,
  get-remove k j m,
  eq_iff k k,
  eq_iff k j,
)

-- `Option::or`
abbrev pub or_else : Option Value → Option Value → Option Value
or_else (some v) d = some v
or_else none d = d

pub get-extend :
    (base fields : Map) (j : String)
    → get j (extend base fields) ≡ or_else (get j fields) (get j base)
unfolding get extend
get-extend base empty j = refl
get-extend base (entry k v fields) j =
    ground (arith, get-insert k j v (extend base fields), get-extend base fields j)

pub ruleset map_laws = (get-insert, get-remove, get-extend)

pub truthy-bool : (b : Bool) → truthy (some (bool b)) ≡ b
unfolding truthy
truthy-bool b = refl

pub truthy-none : truthy none ≡ false
unfolding truthy
truthy-none = refl

pub or_else-none : (v : Option Value) → or_else v none ≡ v
or_else-none none = refl
or_else-none (some v) = refl

-- `Option::map`
abbrev pub map_value : (Value → Value) → Option Value → Option Value
map_value f none = none
map_value f (some v) = some (f v)

module _ (f : ℤ → ℤ → Number) where
  pub get-map_reals :
      (k : String) (m : Map) → get k (map_reals_map f m) ≡ map_value (map_reals f) (get k m)
  unfolding get map_reals
  get-map_reals k empty = refl
  get-map_reals k (entry j v m) = ground (arith, get-map_reals k m)

  pub as_i64-map_reals :
      IsReread f → (v : Option Value) → as_i64 (map_value (map_reals f) v) ≡ as_i64 v
  unfolding as_i64 map_reals
  as_i64-map_reals r none = refl
  as_i64-map_reals r (some (num (int n))) = refl
  as_i64-map_reals r (some (num (real m e))) = r.not_integer m e
  as_i64-map_reals r (some v) = refl
