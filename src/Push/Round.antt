-- ===== src/Push/Round.antt =====
-- One round of the inner loop of `flush` in src/sync/push.rs, by what it may do.
use braird_core.Prelude.{String, ◌≡◌, true, false, ◌∷◌, Bool-cases, inl, inr}
use braird_core.Json.{Map}
use braird_core.Outbox.{Collapsed}
use braird_core.Push.{
  Server, Request, FlushRun, flush_group, fail_group, finish_group, is_blocked, fk_deps, prepare,
  request_for, sent_record_id,
}

module _ (server : Server) (user_id table : String) (group : Collapsed) (run : FlushRun) where
  abbrev pub payload_of : Map
  payload_of = prepare run.remap table group.payload

  abbrev pub request_of : Request
  request_of = request_for user_id table payload_of

  abbrev pub record_id_of : String
  record_id_of = sent_record_id table payload_of

  -- The run after the request was sent.
  abbrev pub asked : FlushRun
  asked = record run { sent = request_of ∷ run.sent }

  pub data Round : FlushRun → Type 0 where
    held :
        is_blocked run.failed (fk_deps table) payload_of ≡ true
        → Round (fail_group table record_id_of group.ids run)
    flushed :
        is_blocked run.failed (fk_deps table) payload_of ≡ false
        → server run.sent request_of ≡ true
        → Round (finish_group table payload_of group.ids asked)
    refused :
        is_blocked run.failed (fk_deps table) payload_of ≡ false
        → server run.sent request_of ≡ false
        → Round (fail_group table record_id_of group.ids asked)

  -- A round holds the group back, or asks the server and goes by its answer.
  pub flush_group-Round : Round (flush_group server user_id table group run)
  flush_group-Round = elim (Bool-cases (is_blocked run.failed (fk_deps table) payload_of)) [
    | inl e ↦ unfold flush_group in rw (e) (held e)
    | inr e ↦ elim (Bool-cases (server run.sent request_of)) [
      | inl yes' ↦ unfold flush_group in rw (e, yes') (flushed e yes')
      | inr no' ↦ unfold flush_group in rw (e, no') (refused e no')
    ]
  ]
