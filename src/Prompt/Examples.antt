-- ===== src/Prompt/Examples.antt =====
-- Runs of src/prompt.rs, and its theorems at concrete states.
use braird_core.Prelude.{
  ◌<ℤ◌, pos, ◌≤◌, ◌<◌, ◌≤ℤ◌, ◌≡◌, ◌↔◌, ◌*◌, refl, false, true, none, some, [], ◌∷◌, All, arith,
  min_of, filter, filter_map, max_of, length, saturating_add, ◌+ℤ◌, sort_by_key,
}
use braird_core.Prompt.{
  nudge_delay_ms, PromptState, PromptSettings, QuestionMeta, productive, check_in, initial, nudge,
  checkin_anchor, births, active, is_active, next_events, cadence_ms, question_nudge_due,
  question_nudge_threshold, clamp_cadence, cadence_min_hours, cadence_max_hours, hour_ms,
  nudge_pending, bound_interaction, latest_interaction, checkin_stamps, initial_due, interactions,
  closed_at, skipped_at,
}
use braird_core.Prompt.Anchor.{checkin_anchor_mono}
use braird_core.Prompt.Schedule.{
  InOrder, IsClosed, DueBy, clamp_cadence_range, next_events_count, next_events_active,
  next_events_within_cadence,
}
use braird_core.Prompt.Nudge.{Silences, question_nudge_due_iff}

abbrev open_question : QuestionMeta
open_question = record {
  id = "q1";
  status = some "active";
  created_at = pos 1000;
  updated_at = pos 1000;
  resolved_at = none;
  checkin_at = some (pos 5000);
}

abbrev asking : PromptState
asking = record {
  account_created_at_ms = pos 100;
  questions = open_question ∷ [];
  has_ever_answered = true;
  prompt_skipped_at_ms = none;
  checkin_completed_at_ms = some (pos 9000);
}

abbrev fresh : PromptState
fresh = record {
  account_created_at_ms = pos 100;
  questions = [];
  has_ever_answered = false;
  prompt_skipped_at_ms = none;
  checkin_completed_at_ms = none;
}

abbrev weekly : PromptSettings
weekly = record { cadence_hours = 168; tone = productive }

asking_anchor : checkin_anchor asking (pos 6000) ≡ some (pos 5000)
unfolding checkin_anchor births active filter is_active min_of checkin_stamps filter_map
    latest_interaction max_of bound_interaction
asking_anchor = refl

asking_anchor_later : checkin_anchor asking (pos 9500) ≡ some (pos 9000)
unfolding checkin_anchor births active filter is_active min_of checkin_stamps filter_map
    latest_interaction max_of bound_interaction
asking_anchor_later = refl

fresh_events :
    next_events fresh weekly (pos 200)
    ≡ record { kind = initial; due_at = pos 100; tone = productive }
      ∷ record { kind = nudge; due_at = pos 86_400_100; tone = productive }
      ∷ []
unfolding next_events checkin_anchor births active filter min_of initial_due interactions closed_at
    skipped_at max_of nudge_pending saturating_add ◌+ℤ◌ sort_by_key checkin_stamps
fresh_events = refl

clamp_cadence_range_example :
    (cadence_min_hours ≤ clamp_cadence 5)
    × (clamp_cadence 5 ≤ cadence_max_hours)
    × ((clamp_cadence 5 ≡ 5) ↔ ((cadence_min_hours ≤ 5) × (5 ≤ cadence_max_hours)))
clamp_cadence_range_example = clamp_cadence_range 5

checkin_anchor_mono_example : pos 5000 ≤ℤ pos 9000
checkin_anchor_mono_example =
    checkin_anchor_mono asking (pos 6000) (pos 9500) (pos 5000) (pos 9000) (omega arith)
      asking_anchor asking_anchor_later

next_events_count_example :
    InOrder (next_events fresh weekly (pos 200))
    × (1 ≤ length (next_events fresh weekly (pos 200)))
    × (length (next_events fresh weekly (pos 200)) ≤ 2)
    × ((length (next_events fresh weekly (pos 200)) ≡ 2) ↔ (
        All IsClosed fresh.questions
        × (fresh.has_ever_answered ≡ false)
        × (fresh.prompt_skipped_at_ms ≡ none)
        × (pos 200 <ℤ saturating_add fresh.account_created_at_ms nudge_delay_ms)))
next_events_count_example = next_events_count fresh weekly (pos 200)

next_events_active_example :
    next_events asking weekly (pos 6000)
    ≡ record {
      kind = check_in;
      due_at = saturating_add (pos 5000) (pos (clamp_cadence 168 * hour_ms));
      tone = productive;
    }
      ∷ []
next_events_active_example = next_events_active asking weekly (pos 6000) asking_anchor

next_events_within_cadence_example :
    All
      (DueBy (saturating_add (pos 6000) (cadence_ms weekly)))
      (next_events asking weekly (pos 6000))
next_events_within_cadence_example =
    next_events_within_cadence asking weekly (pos 6000) (omega arith) (omega arith)
      (omega arith, tt)

question_nudge_due_iff_example :
    (question_nudge_due 9 (some (pos 5)) (pos 20) ≡ true)
    ↔ ((question_nudge_threshold < 9) × ¬ Silences (pos 20) (some (pos 5)))
question_nudge_due_iff_example = question_nudge_due_iff 9 (some (pos 5)) (pos 20)
