-- ===== src/Prompt/Schedule.antt =====
-- `next_events` of src/prompt.rs: how many events there are, of which kinds, and when.
use braird_core.Prelude.{
  max_ℤ, ℕ, ℤ, pos, ◌≤◌, ◌*◌, ◌≤ℤ◌, ◌≡◌, ◌↔◌, none, some, true, List, [], ◌∷◌, arith, length,
  unwrap_or, min_of, min_of-le, max_of-le, filter, to_list, All-append, All-to_list, All-filter,
  saturating_add_mono, +ℤ_parts, sort_by_key, All, max_of, map, saturating_add, i64_max,
  Option-cases, inl, inr, refl, false, ◌⊎◌, ◌<ℤ◌, eq_iff, Bool-cases,
}
use braird_core.Prompt.{
  is_active, interactions, active, births, bound_interaction, PromptState, QuestionMeta, closed_at,
  skipped_at, PromptSettings, PromptEvent, check_in, hour_ms, nudge_delay_ms, cadence_ms,
  clamp_cadence, cadence_min_hours, cadence_max_hours, checkin_anchor, initial_due, nudge_pending,
  next_events,
}
use braird_core.Prompt.Anchor.{bound_interaction_range, checkin_anchor_range, checkin_anchor-none}

-- Every setting gives a cadence between 72 and 672 hours, and exactly those in the range give
-- themselves.
pub clamp_cadence_range :
    (hours : ℕ)
    → (cadence_min_hours ≤ clamp_cadence hours)
      × (clamp_cadence hours ≤ cadence_max_hours)
      × ((clamp_cadence hours ≡ hours)
          ↔ ((cadence_min_hours ≤ hours) × (hours ≤ cadence_max_hours)))
unfolding clamp_cadence
clamp_cadence_range hours = ground arith

-- Due dates in order.
abbrev pub InOrder : List PromptEvent → Type 0
InOrder (e ∷ f ∷ rest) = (e.due_at ≤ℤ f.due_at) × InOrder (f ∷ rest)
InOrder _ = Unit

-- A question that is resolved or dismissed.
abbrev pub IsClosed : QuestionMeta → Type 0
IsClosed q = (q.status ≡ some "resolved") ⊎ (q.status ≡ some "dismissed")

-- A question is left out of the active ones exactly where it is closed.
is_active-IsClosed : (q : QuestionMeta) → (is_active q.status ≡ false) ↔ IsClosed q
unfolding is_active
is_active-IsClosed q = elim (Option-cases q.status) [
  | inl e ↦ ground arith
  | inr (v, e) ↦ ground (arith, eq_iff v "resolved", eq_iff v "dismissed")
]

active-IsClosed :
    (qs : List QuestionMeta) → (filter (λ q. is_active q.status) qs ≡ []) ↔ All IsClosed qs
unfolding filter
active-IsClosed [] = (λ h. tt, λ h. refl)
active-IsClosed (q ∷ qs) = elim (Bool-cases (is_active q.status)) [
  | inl e ↦ (λ h. absurd (ground arith), λ h. absurd (ground (arith, (is_active-IsClosed q).1 h.0)))
  | inr e ↦
      rw e (
        λ h. ((is_active-IsClosed q).0 e, (active-IsClosed qs).0 h),
        λ h. (active-IsClosed qs).1 h.1,
      )
]

checkin_anchor-IsClosed :
    (state : PromptState) (now_ms : ℤ)
    → (checkin_anchor state now_ms ≡ none) ↔ All IsClosed state.questions
unfolding active
checkin_anchor-IsClosed state now_ms = (
  λ h. (active-IsClosed state.questions).0 ((checkin_anchor-none state now_ms).0 h),
  λ h. (checkin_anchor-none state now_ms).1 ((active-IsClosed state.questions).1 h),
)

events_count :
    (state : PromptState) (settings : PromptSettings) (now_ms : ℤ)
    → InOrder (next_events state settings now_ms)
      × (1 ≤ length (next_events state settings now_ms))
      × (length (next_events state settings now_ms) ≤ 2)
      × ((length (next_events state settings now_ms) ≡ 2)
          ↔ ((checkin_anchor state now_ms ≡ none) × (nudge_pending state now_ms ≡ true)))
unfolding next_events sort_by_key
events_count state settings now_ms = ground arith

nudge_pending_iff :
    (state : PromptState) (now_ms : ℤ)
    → (nudge_pending state now_ms ≡ true) ↔ (
        (state.has_ever_answered ≡ false)
        × (state.prompt_skipped_at_ms ≡ none)
        × (now_ms <ℤ saturating_add state.account_created_at_ms nudge_delay_ms))
unfolding nudge_pending
nudge_pending_iff state now_ms = elim (Option-cases state.prompt_skipped_at_ms) [
  | inl e ↦ ground arith
  | inr (at, e) ↦ ground arith
]

-- There are one or two events, in the order of their due dates. There are two exactly where every
-- question is resolved or dismissed, nothing was ever answered, no prompt was skipped, and the
-- account is younger than a day.
pub next_events_count :
    (state : PromptState) (settings : PromptSettings) (now_ms : ℤ)
    → InOrder (next_events state settings now_ms)
      × (1 ≤ length (next_events state settings now_ms))
      × (length (next_events state settings now_ms) ≤ 2)
      × ((length (next_events state settings now_ms) ≡ 2) ↔ (
          All IsClosed state.questions
          × (state.has_ever_answered ≡ false)
          × (state.prompt_skipped_at_ms ≡ none)
          × (now_ms <ℤ saturating_add state.account_created_at_ms nudge_delay_ms)))
next_events_count state settings now_ms =
    let (order, least, most, two) = events_count state settings now_ms in
    let closed = checkin_anchor-IsClosed state now_ms in
    let pending = nudge_pending_iff state now_ms in
    (
      order,
      least,
      most,
      (
        λ h.
            let (anchor, nudged) = two.0 h in
            let (answered, skipped, young) = pending.0 nudged in
            (closed.0 anchor, answered, skipped, young),
        λ h. two.1 (closed.1 h.0, pending.1 (h.1, h.2, h.3)),
      ),
    )

-- While some question is active there is one event: a check-in, in the tone in force, one clamped
-- cadence after the anchor.
pub next_events_active :
    (state : PromptState) (settings : PromptSettings) (now_ms : ℤ) {anchor : ℤ}
    → checkin_anchor state now_ms ≡ some anchor
    → next_events state settings now_ms
      ≡ record {
        kind = check_in;
        due_at = saturating_add anchor (pos (clamp_cadence settings.cadence_hours * hour_ms));
        tone = settings.tone;
      }
        ∷ []
unfolding next_events cadence_ms
next_events_active state settings now_ms h = rw (h, next_events)

abbrev pub DueBy : ℤ → PromptEvent → Type 0
DueBy limit e = e.due_at ≤ℤ limit

abbrev pub BornBy : ℤ → QuestionMeta → Type 0
BornBy now_ms q = q.created_at ≤ℤ now_ms

closed_at-le :
    (state : PromptState) (now_ms m : ℤ)
    → All (BornBy now_ms) state.questions
    → closed_at state now_ms ≡ some m
    → m ≤ℤ now_ms
unfolding closed_at
closed_at-le state now_ms m h = max_of-le _ now_ms m (bounds state.questions h)
  where
    bounds :
        (qs : List QuestionMeta)
        → All (BornBy now_ms) qs
        → All
            (λ x. x ≤ℤ now_ms)
            (map
              (λ q. bound_interaction (unwrap_or q.resolved_at q.updated_at) q.created_at now_ms)
              qs)
    bounds [] b = tt
    bounds (q ∷ qs) b = ((bound_interaction_range q.created_at now_ms _).1 b.0, bounds qs b.1)

skipped_at-le :
    (state : PromptState) (now_ms m : ℤ)
    → state.account_created_at_ms ≤ℤ now_ms
    → skipped_at state now_ms ≡ some m
    → m ≤ℤ now_ms
unfolding skipped_at bound_interaction
skipped_at-le state now_ms m h e = ground arith

module _ (state : PromptState) (settings : PromptSettings) (now_ms : ℤ) (small : now_ms ≤ℤ i64_max)
    (account : state.account_created_at_ms ≤ℤ now_ms)
    (born : All (BornBy now_ms) state.questions) where
  now-le-limit : now_ms ≤ℤ saturating_add now_ms (cadence_ms settings)
  unfolding saturating_add cadence_ms
  now-le-limit = ground (arith, +ℤ_parts now_ms (cadence_ms settings))

  below-now : (birth anchor : ℤ) → anchor ≤ℤ max_ℤ birth now_ms → birth ≤ℤ now_ms → anchor ≤ℤ now_ms
  below-now birth anchor h born' = unfold max_ℤ in ground arith

  anchor-le : (anchor : ℤ) → checkin_anchor state now_ms ≡ some anchor → anchor ≤ℤ now_ms
  unfolding active births filter
  anchor-le anchor h =
      let (birth, least, below, after, before) = checkin_anchor_range state now_ms anchor h in
      below-now birth anchor before
        (oldest birth (active state) (All-filter (BornBy now_ms) _ state.questions born) least)
    where
      oldest :
          (birth : ℤ) (qs : List QuestionMeta)
          → All (BornBy now_ms) qs
          → min_of (map (λ q. q.created_at) qs) ≡ some birth
          → birth ≤ℤ now_ms
      oldest birth [] b e = absurd (unfold min_of in ground arith)
      oldest birth (q ∷ qs) b e = omega (arith, (min_of-le _ birth e).0, b.0)

  interactions-le : All (λ x. x ≤ℤ now_ms) (interactions state now_ms)
  unfolding interactions
  interactions-le =
      All-append _ (to_list (closed_at state now_ms)) (to_list (skipped_at state now_ms))
        (All-to_list _ _ (λ m. closed_at-le state now_ms m born))
        (All-to_list _ _ (λ m. skipped_at-le state now_ms m account))

  initial_due-le :
      initial_due state (cadence_ms settings) now_ms ≤ℤ saturating_add now_ms (cadence_ms settings)
  unfolding initial_due
  initial_due-le = elim (Option-cases (max_of (interactions state now_ms))) [
    | inl e ↦ rw e (omega (arith, now-le-limit))
    | inr (m, e) ↦ rw e (
        saturating_add_mono m now_ms (cadence_ms settings) (max_of-le _ now_ms m interactions-le e))
  ]

  nudge_at-le :
      saturating_add state.account_created_at_ms nudge_delay_ms
      ≤ℤ saturating_add now_ms (cadence_ms settings)
  unfolding saturating_add cadence_ms
  nudge_at-le = ground (
    arith,
    +ℤ_parts now_ms (cadence_ms settings),
    +ℤ_parts state.account_created_at_ms nudge_delay_ms,
    clamp_cadence_range settings.cadence_hours,
  )

  -- No recorded stamp, however far in the future, puts an event off by more than a cadence: where
  -- the account and its questions are born, every event is due within one cadence of now.
  pub next_events_within_cadence :
      All (DueBy (saturating_add now_ms (cadence_ms settings))) (next_events state settings now_ms)
  unfolding next_events sort_by_key
  next_events_within_cadence = elim (Option-cases (checkin_anchor state now_ms)) [
    | inl e ↦ rw (e, All, next_events) (ground (arith, initial_due-le, nudge_at-le))
    | inr (anchor, e) ↦
        rw (e, All, next_events)
          (saturating_add_mono anchor now_ms (cadence_ms settings) (anchor-le anchor e), tt)
  ]
