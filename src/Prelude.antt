-- ===== src/Prelude.antt =====
-- The names that the modules share: the libraries', passed on, and those of the children.
mod Tests
mod Int
mod Lists
mod Perms
mod Sorts
pub mod Pairs
pub mod Maps
pub use Tests.*
pub use Int.{ℤ, pos, negsuc, pos_part, neg_part, ◌≤ℤ◌, ◌<ℤ◌, ltb_ℤ, leb_ℤ, eqb_ℤ}
pub use Int.{sub_ℕ, i64_max, i64_min, in_i64, +ℤ_parts, eq_of_parts, int_laws}
pub use Int.{saturating_add_exact, saturating_add_mono, checked_add_range}
unfoldable pub use Int.{◌+ℤ◌, max_ℤ, min_ℤ, saturating_add, checked_add}
pub use Lists.{
  length, to_list, All, All-map, All-filter, All-append, All-to_list, min_of-none, min_of-le,
  max_of-le, any-sort_by_key, sort_by_key-perm,
}
unfoldable pub use Lists.{filter, any, insert_by_key, sort_by_key, filter_map, max_of, min_of}
pub use Sorts.{All-sort_by_key, filter-sort_by_key, Mem-any}
pub use Perms.{perm_rotate, perm_last, perm_between}
pub use Prim.Native.Nat.{ℕ, zero, suc, ◌+◌, ◌-◌, ◌*◌, ◌/◌, ◌%◌, ◌≤◌, ◌<◌}
pub use Prim.Native.String.{String}
pub use mathlib.Core.Path.{◌≡◌, refl, sym, ap, ◌∙◌, subst}
pub use mathlib.Core.Logic.{◌≢◌, ◌↔◌, ◌⊎◌, inl, inr}
pub use mathlib.Core.Bool.{Bool, true, false, not, ◌&&◌, ◌||◌}
pub use mathlib.Core.Option.{Option, none, some}
pub use mathlib.Core.List.{List, [], ◌∷◌, ◌++◌, map}
pub use native.Mathlib.Omega.{arith}
pub use text.Mathlib.Text.{◌==◌ as str_eq, starts_with}
pub use text.Mathlib.TextEquality.{eq_iff}
