-- ===== src/Prompt.antt =====
-- src/prompt.rs: the prompt and check-in schedule, a pure function of the stored questions, the
-- synced stamps and the clock. Times are `i64` milliseconds.
pub mod Anchor
pub mod Schedule
pub mod Nudge
mod Examples
use braird_core.Prelude.{
  ℕ, String, ℤ, pos, ◌+◌, ◌*◌, ltb, leb, ltb_ℤ, leb_ℤ, Bool, true, false, not, ◌&&◌, ◌||◌, Option,
  none, some, is_none, unwrap_or, List, [], ◌∷◌, ◌++◌, map, to_list, filter, filter_map, max_of,
  min_of, max_ℤ, saturating_add, sort_by_key, str_eq, if◌then◌else◌,
}

abbrev pub cadence_min_hours : ℕ
cadence_min_hours = 72

abbrev pub cadence_max_hours : ℕ
cadence_max_hours = 672

abbrev pub hour_ms : ℕ
hour_ms = 60 * 60 * 1000

abbrev pub nudge_delay_ms : ℤ
nudge_delay_ms = pos (24 * hour_ms)

abbrev pub question_nudge_threshold : ℕ
question_nudge_threshold = 8

abbrev pub question_nudge_quiet_ms : ℤ
question_nudge_quiet_ms = pos (28 * 24 * hour_ms)

pub data PromptTone : Type 0 where
  introspective productive : PromptTone

pub data PromptEventKind : Type 0 where
  initial nudge check_in : PromptEventKind

pub record PromptSettings : Type 0 where
  pub cadence_hours : ℕ
  pub tone : PromptTone

pub record PromptEvent : Type 0 where
  pub kind : PromptEventKind
  pub due_at : ℤ
  pub tone : PromptTone

pub record QuestionMeta : Type 0 where
  pub id : String
  pub status : Option String
  pub created_at : ℤ
  pub updated_at : ℤ
  pub resolved_at : Option ℤ
  pub checkin_at : Option ℤ

pub record PromptState : Type 0 where
  pub account_created_at_ms : ℤ
  pub questions : List QuestionMeta
  pub has_ever_answered : Bool
  pub prompt_skipped_at_ms : Option ℤ
  pub checkin_completed_at_ms : Option ℤ

-- `hours.clamp(MIN, MAX)`
unfoldable pub clamp_cadence : ℕ → ℕ
clamp_cadence hours =
    if ltb hours cadence_min_hours
    then cadence_min_hours
    else if ltb cadence_max_hours hours
    then cadence_max_hours
    else hours

-- An absent or unknown status counts as active.
unfoldable pub is_active : Option String → Bool
is_active none = true
is_active (some s) = not (str_eq s "resolved" || str_eq s "dismissed")

unfoldable pub bound_interaction : ℤ → ℤ → ℤ → ℤ
unfolding max_ℤ
bound_interaction stamp birth now_ms = if ltb_ℤ now_ms stamp then birth else max_ℤ stamp birth

-- the closure `active` of `checkin_anchor`
unfoldable pub active : PromptState → List QuestionMeta
active state = filter (λ q. is_active q.status) state.questions

-- The stamps that `checkin_anchor` bounds: the pass stamp, then each active question's own.
unfoldable pub checkin_stamps : PromptState → List ℤ
checkin_stamps state =
    to_list state.checkin_completed_at_ms ++ filter_map (λ q. q.checkin_at) (active state)

-- `….map(bound_interaction).max().unwrap_or(birth)`
unfoldable pub latest_interaction : List ℤ → ℤ → ℤ → ℤ
latest_interaction stamps birth now_ms =
    unwrap_or (max_of (map (λ stamp. bound_interaction stamp birth now_ms) stamps)) birth

-- `active().map(|q| q.created_at)`
unfoldable pub births : PromptState → List ℤ
births state = map (λ q. q.created_at) (active state)

-- The `?` on the oldest birth, and the rest of `checkin_anchor`.
unfoldable pub anchor_from : Option ℤ → List ℤ → ℤ → Option ℤ
anchor_from none stamps now_ms = none
anchor_from (some birth) stamps now_ms = some (latest_interaction stamps birth now_ms)

unfoldable pub checkin_anchor : PromptState → ℤ → Option ℤ
unfolding anchor_from
checkin_anchor state now_ms = anchor_from (min_of (births state)) (checkin_stamps state) now_ms

unfoldable pub question_nudge_due : ℕ → Option ℤ → ℤ → Bool
question_nudge_due active_count dismissed_at now_ms =
    if leb active_count question_nudge_threshold then false else elim dismissed_at [
      | none ↦ true
      | some at ↦
          if leb_ℤ at now_ms then leb_ℤ (saturating_add at question_nudge_quiet_ms) now_ms else true
    ]

-- `clamp_cadence(settings.cadence_hours) as i64 * HOUR_MS`
unfoldable pub cadence_ms : PromptSettings → ℤ
cadence_ms settings = pos (clamp_cadence settings.cadence_hours * hour_ms)

-- The most recent close of a question, `closed_at`.
unfoldable pub closed_at : PromptState → ℤ → Option ℤ
closed_at state now_ms = max_of (
    map (λ q. bound_interaction (unwrap_or q.resolved_at q.updated_at) q.created_at now_ms)
      state.questions)

-- The bounded skip, `skipped_at`.
unfoldable pub skipped_at : PromptState → ℤ → Option ℤ
skipped_at state now_ms = elim state.prompt_skipped_at_ms [
  | none ↦ none
  | some t ↦ some (bound_interaction t state.account_created_at_ms now_ms)
]

-- `closed_at.into_iter().chain(skipped_at)`
unfoldable pub interactions : PromptState → ℤ → List ℤ
interactions state now_ms = to_list (closed_at state now_ms) ++ to_list (skipped_at state now_ms)

-- The match on the last interaction.
unfoldable pub due_after : Option ℤ → ℤ → ℤ → ℤ
due_after (some anchor) cadence account_created_at_ms = saturating_add anchor cadence
due_after none cadence account_created_at_ms = account_created_at_ms

unfoldable pub initial_due : PromptState → ℤ → ℤ → ℤ
unfolding due_after
initial_due state cadence now_ms =
    due_after (max_of (interactions state now_ms)) cadence state.account_created_at_ms

-- The guard of the one nudge.
unfoldable pub nudge_pending : PromptState → ℤ → Bool
nudge_pending state now_ms =
    not state.has_ever_answered
    && is_none state.prompt_skipped_at_ms
    && ltb_ℤ now_ms (saturating_add state.account_created_at_ms nudge_delay_ms)

unfoldable pub next_events : PromptState → PromptSettings → ℤ → List PromptEvent
next_events state settings now_ms =
    let cadence = cadence_ms settings in
    let event : PromptEventKind → ℤ → PromptEvent =
      λ kind due_at. record { kind = kind; due_at = due_at; tone = settings.tone } in
    elim (checkin_anchor state now_ms) [
      | some anchor ↦ event check_in (saturating_add anchor cadence) ∷ []
      | none ↦
          let nudge_at = saturating_add state.account_created_at_ms nudge_delay_ms in
          sort_by_key (λ e. e.due_at)
            (event initial (initial_due state cadence now_ms)
              ∷ (if nudge_pending state now_ms then event nudge nudge_at ∷ [] else []))
    ]
