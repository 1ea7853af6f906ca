-- ===== src/Json/Kept.antt =====
-- A reader and writer of JSON for concrete runs: a text is the value that it holds, if any.
use braird_core.Prelude.{◌≡◌, refl, ap, sym, Option, some}
use braird_core.Json.{
  Value, Items, Map, Serde, null, bool, num, str, arr, obj, int, real, nil, cons, empty, entry,
  map_reals, map_reals_items, map_reals_map, as_i64,
}

-- A fraction that is read back exactly changes no value.

mutual
  unfolding map_reals

  pub map_reals-id : (v : Value) → map_reals real v ≡ v
  map_reals-id null = refl
  map_reals-id (bool b) = refl
  map_reals-id (num (int n)) = refl
  map_reals-id (num (real m e)) = refl
  map_reals-id (str s) = refl
  map_reals-id (arr xs) = ap arr (map_reals_items-id xs)
  map_reals-id (obj m) = ap obj (map_reals_map-id m)

  map_reals_items-id : (xs : Items) → map_reals_items real xs ≡ xs
  map_reals_items-id nil = refl
  map_reals_items-id (cons x xs) = cc (map_reals-id x, map_reals_items-id xs)

  map_reals_map-id : (m : Map) → map_reals_map real m ≡ m
  map_reals_map-id empty = refl
  map_reals_map-id (entry k v m) = cc (map_reals-id v, map_reals_map-id m)

instance unfoldable pub kept_value : Serde (Option Value)
unfolding as_i64
kept_value = record {
  to_string = λ v. some v;
  from_str = λ t. t;
  reread = real;
  reread-IsReread = record { not_integer = λ m e. refl; same_zero = λ m e. refl };
  from_str-to_string = λ v. ap some (sym (map_reals-id v));
}
