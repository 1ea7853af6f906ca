-- ===== src/Reconcile/Survivor/Examples.antt =====
-- The walk to a survivor of src/sync/reconcile.rs, and its theorems at it.
use braird_core.Prelude.{
  true, false, none, some, [], ◌≡◌, refl, arith, eq_iff, inl, ◌+ℤ◌, max_ℤ, checked_add,
}
use braird_core.Json
use braird_core.Json.{Value, Map, Serde, null, bool, num, str, int, empty, entry, as_str}
use braird_core.Json.Kept.{kept_value}
use braird_core.Prelude.Maps
use braird_core.Store.Schema.{table_schema, find_table, descriptor_tables}
use braird_core.Store.Cells.{json_to_sql, sql_to_json, project, read_cells}
use braird_core.Store.State.{
  ok, get_row, schema_or_err, apply_row, enqueue, drop_embedding, replace_row, update,
}
use braird_core.Store.Staging.{
  stage_local_write, is_tombstone, stage_write_inner, clamp_stamp, stored_updated, raise_stamp,
}
use braird_core.Reconcile.{◌>>=◌, commit, read}
use braird_core.Reconcile.Survivor.{
  live, resolve_survivor, liveness_of, next_book, merged_into, walk,
}
use braird_core.Reconcile.Survivor.Walk.{Leads, resolve_survivor_reaches, resolve_survivor-live}
use braird_core.Reconcile.Examples.{shelf}

-- A deleted book that points at the first one.

abbrev dead : Map
dead = entry "deleted" (bool true) (entry "merged_into" (str "b1") empty)

unfoldable stored : Map
stored = elim (get_row shelf.0 "books" "b1") [ ok (some found) ↦ found | _ ↦ empty ]

stored-read : get_row shelf.0 "books" "b1" ≡ ok (some stored)
unfolding stored shelf sql_to_json ◌>>=◌ commit read stage_local_write stage_write_inner get_row
    schema_or_err table_schema find_table descriptor_tables clamp_stamp Json.as_i64 Json.get
    checked_add ◌+ℤ◌ stored_updated apply_row enqueue drop_embedding Json.as_str Json.extend
    raise_stamp max_ℤ Json.insert Json.place Json.remove Json.truthy replace_row json_to_sql update
    project read_cells
stored-read = refl

stored-last : next_book [] "b1" (some stored) ≡ none
unfolding stored shelf sql_to_json ◌>>=◌ commit read stage_local_write stage_write_inner get_row
    schema_or_err table_schema find_table descriptor_tables clamp_stamp Json.as_i64 Json.get
    checked_add ◌+ℤ◌ stored_updated apply_row enqueue drop_embedding Json.as_str Json.extend
    raise_stamp max_ℤ Json.insert Json.place Json.remove Json.truthy replace_row json_to_sql update
    project read_cells next_book merged_into Maps.lookup
stored-last = refl

resolved : resolve_survivor shelf.0 [] "b2" dead ≡ ok ("b1", live)
unfolding stored shelf sql_to_json ◌>>=◌ commit read stage_local_write stage_write_inner get_row
    schema_or_err table_schema find_table descriptor_tables clamp_stamp Json.as_i64 Json.get
    checked_add ◌+ℤ◌ stored_updated apply_row enqueue drop_embedding Json.as_str Json.extend
    raise_stamp max_ℤ Json.insert Json.place Json.remove Json.truthy replace_row json_to_sql update
    project read_cells resolve_survivor walk next_book merged_into liveness_of is_tombstone
    Maps.lookup
resolved = refl

chain : Leads shelf.0 [] 1 "b2" (some dead) "b1" (some stored)
unfolding next_book merged_into Json.get Json.as_str
chain = Leads.hop refl (λ e. absurd (ground (arith, eq_iff "b1" "b2"))) stored-read Leads.here

resolve_survivor_reaches_example :
    resolve_survivor shelf.0 [] "b2" dead ≡ ok ("b1", liveness_of (some stored))
resolve_survivor_reaches_example =
    resolve_survivor_reaches shelf.0 [] "b2" dead chain (inl stored-last) (ground arith)

resolve_survivor-live_example :
    (found : Map) × (get_row shelf.0 "books" "b1" ≡ ok (some found)) × (is_tombstone found ≡ false)
resolve_survivor-live_example =
    resolve_survivor-live shelf.0 [] "b2" dead (unfold is_tombstone Json.get in refl) resolved
