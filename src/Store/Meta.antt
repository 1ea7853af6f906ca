-- ===== src/Store/Meta.antt =====
-- The `meta` table of src/store.rs: key and value pairs, the pull cursors and the pull receipts.
use Prim.Native.String.{◌++◌ as append}
use braird_core.Prelude.{
  String, ℤ, pos, Option, none, some, Bool, not, is_none, in_i64, if◌then◌else◌,
}
use braird_core.Store.State.{Store, MetaValue, decimal, update}

unfoldable pub sync_seq_key : String → String
sync_seq_key table = append "sync:seq:" table

-- The key of the retired cursor
unfoldable pub sync_cursor_key : String → String
sync_cursor_key table = append "sync:cursor:" table

unfoldable pub sync_pulled_key : String → String
sync_pulled_key table = append "sync:pulled:" table

module _ {Text : Type 0} where
  unfoldable pub meta_get : Store Text → String → Option (MetaValue Text)
  meta_get s key = s.meta key

  unfoldable pub meta_set : Store Text → String → MetaValue Text → Store Text
  meta_set s key value = record s { meta = update s.meta key (some value) }

  unfoldable pub meta_delete : Store Text → String → Store Text
  meta_delete s key = record s { meta = update s.meta key none }

  -- `s.parse::<i64>().ok()`: a decimal in the range of `i64` is read back, and a JSON text is none.
  unfoldable pub get_seq_cursor : Store Text → String → Option ℤ
  get_seq_cursor s table = elim (meta_get s (sync_seq_key table)) [
    | some (decimal n) ↦ if in_i64 n then some n else none
    | _ ↦ none
  ]

  unfoldable pub set_seq_cursor : Store Text → String → ℤ → Store Text
  set_seq_cursor s table seq =
      meta_delete (meta_set s (sync_seq_key table) (decimal seq)) (sync_cursor_key table)

  unfoldable pub has_completed_pull : Store Text → String → Bool
  has_completed_pull s table = not (is_none (meta_get s (sync_pulled_key table)))

  unfoldable pub mark_pull_complete : Store Text → String → Store Text
  mark_pull_complete s table = meta_set s (sync_pulled_key table) (decimal (pos 1))
