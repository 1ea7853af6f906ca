-- ===== src/Store/Clamp.antt =====
-- The monotonic clamp of `stage_write_inner` in src/store.rs: what it does to the written row.
use braird_core.Prelude.{
  String, ℤ, pos, ◌+ℤ◌, ◌≡◌, ◌≢◌, true, Option, none, some, arith, eq_iff, Option-cases, inl, inr,
  in_i64, max_ℤ, checked_add, eq_of_parts,
}
use braird_core.Json
use braird_core.Json.{Value, Map, Serde, num, int, obj, str, empty, as_i64}
use braird_core.Json.Laws.{get-insert}
use braird_core.Store.State.{ok}
use braird_core.Store.Staging.{clamp_stamp, raise_stamp}

pub as_i64_range : (v : Option Value) {n : ℤ} → as_i64 v ≡ some n → in_i64 n ≡ true
unfolding as_i64
as_i64_range none h = absurd (ground arith)
as_i64_range (some (num (int n))) h = ground arith
as_i64_range (some v) h = absurd (ground arith)

pub as_i64-int : (n : ℤ) → in_i64 n ≡ true → as_i64 (some (num (int n))) ≡ some n
unfolding as_i64
as_i64-int n h = rw h

raise_stamp-stamp :
    (stamp floor : ℤ) (partial : Map)
    → as_i64 (Json.get "updated_at" partial) ≡ some stamp
    → in_i64 floor ≡ true
    → as_i64 (Json.get "updated_at" (raise_stamp stamp floor partial)) ≡ some (max_ℤ stamp floor)
unfolding raise_stamp max_ℤ
raise_stamp-stamp stamp floor partial h small = ground (
  arith,
  get-insert "updated_at" "updated_at" (num (int floor)) partial,
  eq_iff "updated_at" "updated_at",
  as_i64-int floor,
  eq_of_parts floor stamp,
)

raise_stamp-other :
    (stamp floor : ℤ) (partial : Map) (j : String)
    → j ≢ "updated_at"
    → Json.get j (raise_stamp stamp floor partial) ≡ Json.get j partial
unfolding raise_stamp
raise_stamp-other stamp floor partial j other = ground (
  arith,
  get-insert "updated_at" j (num (int (max_ℤ stamp floor))) partial,
  eq_iff "updated_at" j,
)

module _ (stored : ℤ) (partial clamped : Map) where
  -- The clamp raises the stamp above the stored one.
  pub clamp_stamp-stamp :
      (stamp : ℤ)
      → as_i64 (Json.get "updated_at" partial) ≡ some stamp
      → clamp_stamp stored partial ≡ ok clamped
      → as_i64 (Json.get "updated_at" clamped) ≡ some (max_ℤ stamp (stored +ℤ pos 1))
  unfolding clamp_stamp checked_add
  clamp_stamp-stamp stamp h e = ground (arith, raise_stamp-stamp stamp (stored +ℤ pos 1) partial)

  -- It changes no other column.
  pub clamp_stamp-other :
      (j : String)
      → j ≢ "updated_at"
      → clamp_stamp stored partial ≡ ok clamped
      → Json.get j clamped ≡ Json.get j partial
  unfolding clamp_stamp
  clamp_stamp-other j other e = elim (Option-cases (as_i64 (Json.get "updated_at" partial))) [
    | inl none' ↦ ground arith
    | inr (stamp, h) ↦ elim (Option-cases (checked_add stored (pos 1))) [
      | inl over ↦ absurd (ground arith)
      | inr (floor, f) ↦ ground (arith, raise_stamp-other stamp floor partial j other)
    ]
  ]

  pub clamp_stamp-unstamped :
      as_i64 (Json.get "updated_at" partial) ≡ none
      → clamp_stamp stored partial ≡ ok clamped
      → clamped ≡ partial
  unfolding clamp_stamp
  clamp_stamp-unstamped h e = ground arith
