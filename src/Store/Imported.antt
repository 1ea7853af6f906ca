-- ===== src/Store/Imported.antt =====
-- The stamps that `stage_import_batch` of src/store.rs leaves.
use braird_core.Prelude.{
  String, ℤ, ◌≡◌, refl, sym, ap, Bool, false, ◌&&◌, ◌||◌, Option, some, List, [], ◌∷◌, str_eq,
  if◌then◌else◌, arith,
}
use braird_core.Json.{Map, Serde}
use braird_core.Store.State.{ok, Store, apply_row, drop_pending_deletes_inner}
use braird_core.Store.Staging.{stage_import_batch}
use braird_core.Store.Stage.{>>=-inv}
use braird_core.Store.Rows.{local_updated, local_updated_rows}
use braird_core.Store.Import.{AreImports, after, local_updated-import}

-- Whether a batch writes a record.

unfoldable pub names : String → String → List (String × String × Map) → Bool
names other j [] = false
names other j ((table, record_id, row) ∷ writes) =
    (str_eq table other && str_eq record_id j) || names other j writes

ok-injective : {A : Type 0} {a b : A} → ok a ≡ ok b → a ≡ b
ok-injective h = ground arith

module _ {Text : Type 0} ⦃serde : Serde Text⦄ (stamp batch_timestamp : ℤ) where
  -- A staged batch leaves its stamp on every record that it writes, and no other stamp changes.
  pub stage_import_batch-stamps :
      (s : Store Text) (writes : List (String × String × Map)) {t : Store Text}
      → AreImports stamp writes
      → stage_import_batch s writes batch_timestamp ≡ ok t
      → (other j : String)
      → local_updated t other j
        ≡ (if names other j writes then some stamp else local_updated s other j)
  unfolding stage_import_batch names
  stage_import_batch-stamps s [] imports staged other j =
      ap (λ (v : Store Text). local_updated v other j) (sym (ok-injective staged))
  stage_import_batch-stamps s ((table, record_id, row) ∷ writes) (import, imports) staged other j =
      let d = drop_pending_deletes_inner s table record_id in
      let (u, applied, h) = >>=-inv (apply_row d table row) _ staged in
      let next = after stamp d table record_id row batch_timestamp import applied in
      step other j (str_eq table other && str_eq record_id j)
        (stage_import_batch-stamps next writes imports h other j)
        (local_updated-import stamp d table record_id row batch_timestamp import applied other j)
        (local_updated_rows s d (unfold drop_pending_deletes_inner in refl) other j)
    where
      step :
          (other j : String) (here : Bool) {a b c d : Option ℤ}
          → a ≡ (if names other j writes then some stamp else b)
          → b ≡ (if here then some stamp else c)
          → c ≡ d
          → a ≡ (if here || names other j writes then some stamp else d)
      step other j here p q r = ground arith
