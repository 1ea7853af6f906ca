-- ===== src/Pull/Settle.antt =====
-- Last write wins in src/sync/pull.rs: the stamp that a merged row leaves, and the queue.
use braird_core.Prelude.{
  String, ℤ, ◌≡◌, ◌≤ℤ◌, refl, sym, ◌∙◌, subst, Bool, true, false, ◌&&◌, Option, none, some, str_eq,
  if◌then◌else◌, is_none, max_ℤ, arith, eq_iff, eq_of_parts, All, All-map,
}
use braird_core.Json
use braird_core.Json.{Value, Map, Serde, obj, str, as_bool, as_i64, as_str}
use braird_core.Store.Schema.{TableSchema, table_schema}
use braird_core.Store.State.{ok}
use braird_core.Store.Rows.{row_stamp, local_updated}
use braird_core.Store.Backed.{IsBacked, Backed, Backed-grow}
use braird_core.Store.Rebase.{rebase-IsBacked, local_updated-rebase}
use braird_core.Pull.{PageMerge, should_apply, skip_tombstone, keep_local, merge_object}
use braird_core.Pull.Merge.{
  Merged, skipped, won, kept, is_deletion, keep_local-stamps, keep_local-outbox,
  merge_object-Merged,
}

-- What a pulled row makes of the stored stamp: a deletion of nothing is skipped, and otherwise the
-- greater stamp stands.

abbrev pub settle : Option ℤ → Bool → ℤ → Option ℤ
settle none true incoming = none
settle none false incoming = some incoming
settle (some old) deleted incoming = some (max_ℤ old incoming)

settle-win :
    (local : Option ℤ) (deleted : Bool) (incoming : ℤ)
    → should_apply local incoming ≡ true
    → (deleted && is_none local) ≡ false
    → settle local deleted incoming ≡ some incoming
unfolding should_apply
settle-win none true incoming win live = absurd (ground arith)
settle-win none false incoming win live = refl
settle-win (some old) deleted incoming win live = unfold max_ℤ in ground arith

settle-lose :
    (old : ℤ) (deleted : Bool) (incoming : ℤ)
    → incoming ≤ℤ old
    → settle (some old) deleted incoming ≡ some old
settle-lose old deleted incoming lose = unfold max_ℤ in ground (arith, eq_of_parts old incoming)

settle-again :
    (local : Option ℤ) (deleted : Bool) (incoming : ℤ)
    → settle (settle local deleted incoming) deleted incoming ≡ settle local deleted incoming
unfolding max_ℤ
settle-again none true incoming = refl
settle-again none false incoming = ground arith
settle-again (some old) deleted incoming = ground arith

module _ {Text : Type 0} ⦃serde : Serde Text⦄ (table id : String) (row : Map) where
  module _ (schema : TableSchema) (found : table_schema table ≡ some schema)
      (key : Json.get schema.pk row ≡ some (str id)) where
    Merged-stamp :
        {m after : PageMerge Text}
        → Merged table id row m after
        → (other j : String)
        → local_updated after.store other j ≡ (
            if str_eq table other && str_eq id j
            then settle (local_updated m.store table id) (is_deletion row) (row_stamp row)
            else local_updated m.store other j)
    Merged-stamp {m = m} (skipped gone absent) other j =
        unfold skip_tombstone in ground (arith, eq_iff table other, eq_iff id j)
    Merged-stamp {m = m} (won stats win live e) other j = ground (
      arith,
      local_updated-rebase m.store table id row (row_stamp row) schema found key e other j,
      settle-win (local_updated m.store table id) (is_deletion row) (row_stamp row) win live,
    )
    Merged-stamp {m = m} (kept local old stored lose) other j = ground (
      arith,
      keep_local-stamps table id row m local other j,
      settle-lose old (is_deletion row) (row_stamp row) lose,
      eq_iff table other,
      eq_iff id j,
    )

    -- A merged row settles the stamp of its own record, and no other stamp changes: a deletion of
    -- nothing is skipped, and otherwise the greater of the two stamps is stored.
    pub merge_object-settles :
        (m : PageMerge Text) {after : PageMerge Text}
        → merge_object table id row m ≡ ok after
        → (other j : String)
        → local_updated after.store other j ≡ (
            if str_eq table other && str_eq id j
            then settle (local_updated m.store table id) (is_deletion row) (row_stamp row)
            else local_updated m.store other j)
    merge_object-settles m h other j = Merged-stamp (merge_object-Merged table id row m h) other j

    Merged-IsBacked :
        {m after : PageMerge Text}
        → Merged table id row m after
        → IsBacked m.store
        → IsBacked after.store
    unfolding skip_tombstone
    Merged-IsBacked (skipped gone absent) b = b
    Merged-IsBacked {m = m} (won stats win live e) b =
        rebase-IsBacked m.store table id row (row_stamp row) schema found key e refl
          (λ old stored. unfold should_apply in ground arith) b
    Merged-IsBacked {m = m} (kept local old stored lose) b =
        let t = (keep_local table id row local m).store in
        subst (All (Backed t)) (sym (keep_local-outbox table id row m local)) (
          All-map m.store.outbox
            (λ r k.
              Backed-grow m.store t r
                (λ other j stamp h.
                  (stamp, keep_local-stamps table id row m local other j ∙ h, omega arith))
                k)
            b)

    -- A merged row keeps every queued payload backed.
    pub merge_object-IsBacked :
        (m : PageMerge Text) {after : PageMerge Text}
        → merge_object table id row m ≡ ok after
        → IsBacked m.store
        → IsBacked after.store
    merge_object-IsBacked m h b = Merged-IsBacked (merge_object-Merged table id row m h) b

    -- A row that is delivered again changes no stamp.
    pub merge_object-again :
        (m : PageMerge Text) {once twice : PageMerge Text}
        → merge_object table id row m ≡ ok once
        → merge_object table id row once ≡ ok twice
        → (other j : String) → local_updated twice.store other j ≡ local_updated once.store other j
    merge_object-again m {once = once} first second other j = ground (
      arith,
      merge_object-settles m first other j,
      merge_object-settles m first table id,
      merge_object-settles once second other j,
      settle-again (local_updated m.store table id) (is_deletion row) (row_stamp row),
      eq_iff table table,
      eq_iff id id,
      eq_iff table other,
      eq_iff id j,
    )
