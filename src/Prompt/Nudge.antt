-- ===== src/Prompt/Nudge.antt =====
-- The two nudges of src/prompt.rs: the onboarding reminder and the too-many-questions nudge.
use braird_core.Prelude.{
  ℕ, ℤ, ◌<◌, ◌≤ℤ◌, ◌<ℤ◌, ◌≡◌, ◌≢◌, ◌↔◌, ◌⊎◌, true, Option, none, some, arith, All, saturating_add,
  sort_by_key,
}
use braird_core.Prompt.{
  PromptState, PromptSettings, PromptEvent, nudge, question_nudge_threshold,
  question_nudge_quiet_ms, question_nudge_due, nudge_delay_ms, nudge_pending, next_events,
}

-- A dismissal that silences the nudge: recorded in the past, less than the quiet period ago.

abbrev pub Silences : ℤ → Option ℤ → Type 0
Silences now_ms none = ⊥
Silences now_ms (some at) = (at ≤ℤ now_ms) × (now_ms <ℤ saturating_add at question_nudge_quiet_ms)

-- The too-many-questions nudge shows exactly when more than eight questions are active and no
-- dismissal silences it; a dismissal stamped in the future silences nothing.
pub question_nudge_due_iff :
    (active_count : ℕ) (dismissed_at : Option ℤ) (now_ms : ℤ)
    → (question_nudge_due active_count dismissed_at now_ms ≡ true)
      ↔ ((question_nudge_threshold < active_count) × ¬ Silences now_ms dismissed_at)
unfolding question_nudge_due
question_nudge_due_iff active_count none now_ms = ground arith
question_nudge_due_iff active_count (some at) now_ms = ground arith

abbrev pub NotNudge : PromptEvent → Type 0
NotNudge e = e.kind ≢ nudge

-- Once the user has answered, has skipped, or the first day is over, no onboarding nudge is
-- scheduled.
pub next_events_no_nudge :
    (state : PromptState) (settings : PromptSettings) (now_ms : ℤ)
    → (state.has_ever_answered ≡ true)
      ⊎ (state.prompt_skipped_at_ms ≢ none)
      ⊎ (saturating_add state.account_created_at_ms nudge_delay_ms ≤ℤ now_ms)
    → All NotNudge (next_events state settings now_ms)
unfolding next_events sort_by_key nudge_pending
next_events_no_nudge state settings now_ms h = ground arith
