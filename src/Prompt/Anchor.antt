-- ===== src/Prompt/Anchor.antt =====
-- The check-in anchor of src/prompt.rs: its bounds, and how it moves with the clock.
use braird_core.Prelude.{
  max_of-le, ℤ, ◌≤ℤ◌, ◌<ℤ◌, ◌≡◌, refl, ap, none, some, List, [], ◌∷◌, map, max_of, min_of, arith,
  All, max_ℤ, ◌⊎◌, ◌↔◌, Option, Option-cases, min_of-none, min_of-le, inl, inr,
}
use braird_core.Prompt.{
  PromptState, bound_interaction, latest_interaction, anchor_from, births, checkin_anchor,
  checkin_stamps, active,
}

module _ (birth now_ms : ℤ) where
  -- Never before the birth, and never in the future once the birth has passed.
  pub bound_interaction_range :
      (stamp : ℤ)
      → (birth ≤ℤ bound_interaction stamp birth now_ms)
        × (birth ≤ℤ now_ms → bound_interaction stamp birth now_ms ≤ℤ now_ms)
  unfolding bound_interaction
  bound_interaction_range stamp = ground arith

  pub latest_interaction_range :
      (stamps : List ℤ)
      → (birth ≤ℤ latest_interaction stamps birth now_ms)
        × (birth ≤ℤ now_ms → latest_interaction stamps birth now_ms ≤ℤ now_ms)
  unfolding latest_interaction max_of max_ℤ
  latest_interaction_range [] = ground arith
  latest_interaction_range (s ∷ stamps) =
      ground (arith, bound_interaction_range s, latest_interaction_range stamps)

pub bound_interaction_mono :
    (stamp birth now_ms later : ℤ)
    → now_ms ≤ℤ later
    → bound_interaction stamp birth now_ms ≤ℤ bound_interaction stamp birth later
unfolding bound_interaction
bound_interaction_mono stamp birth now_ms later h = ground arith

pub latest_interaction_mono :
    (stamps : List ℤ) (birth now_ms later : ℤ)
    → now_ms ≤ℤ later
    → latest_interaction stamps birth now_ms ≤ℤ latest_interaction stamps birth later
unfolding latest_interaction max_of max_ℤ
latest_interaction_mono [] birth now_ms later h = ground arith
latest_interaction_mono (s ∷ stamps) birth now_ms later h = ground (
  arith,
  bound_interaction_mono s birth now_ms later h,
  latest_interaction_mono stamps birth now_ms later h,
  bound_interaction_range birth now_ms s,
  bound_interaction_range birth later s,
  latest_interaction_range birth now_ms stamps,
  latest_interaction_range birth later stamps,
)

-- A stamp that the clock does not cross between the two times.
abbrev pub Uncrossed : ℤ → ℤ → ℤ → Type 0
Uncrossed now_ms later stamp = (stamp ≤ℤ now_ms) ⊎ (later <ℤ stamp)

bound_interaction_stable :
    (stamp birth now_ms later : ℤ)
    → now_ms ≤ℤ later
    → Uncrossed now_ms later stamp
    → bound_interaction stamp birth now_ms ≡ bound_interaction stamp birth later
unfolding bound_interaction
bound_interaction_stable stamp birth now_ms later h (inl past) = ground arith
bound_interaction_stable stamp birth now_ms later h (inr future) = ground arith

latest_interaction_stable :
    (stamps : List ℤ) (birth now_ms later : ℤ)
    → now_ms ≤ℤ later
    → All (Uncrossed now_ms later) stamps
    → latest_interaction stamps birth now_ms ≡ latest_interaction stamps birth later
latest_interaction_stable stamps birth now_ms later h uncrossed =
    unfold latest_interaction in rw (bounds stamps uncrossed)
  where
    bounds :
        (stamps : List ℤ)
        → All (Uncrossed now_ms later) stamps
        → map (λ stamp. bound_interaction stamp birth now_ms) stamps
          ≡ map (λ stamp. bound_interaction stamp birth later) stamps
    bounds [] u = refl
    bounds (s ∷ rest) u = cc (bound_interaction_stable s birth now_ms later h u.0, bounds rest u.1)

map-nil : {A B : Type 0} (f : A → B) (xs : List A) → map f xs ≡ [] → xs ≡ []
map-nil f [] h = refl
map-nil f (x ∷ xs) h = cc

-- No interaction counts as later than both the birth and the clock.
bound_interaction_le :
    (birth now_ms : ℤ) (stamps : List ℤ)
    → All
        (λ x. x ≤ℤ max_ℤ birth now_ms)
        (map (λ stamp. bound_interaction stamp birth now_ms) stamps)
bound_interaction_le birth now_ms [] = tt
bound_interaction_le birth now_ms (s ∷ stamps) =
    (unfold bound_interaction max_ℤ in ground arith, bound_interaction_le birth now_ms stamps)

latest_interaction_le :
    (birth now_ms : ℤ) (stamps : List ℤ)
    → latest_interaction stamps birth now_ms ≤ℤ max_ℤ birth now_ms
latest_interaction_le birth now_ms stamps =
    let bounds = map (λ stamp. bound_interaction stamp birth now_ms) stamps in
    elim (Option-cases (max_of bounds)) [
      | inl e ↦ unfold latest_interaction in rw e (unfold max_ℤ in ground arith)
      | inr (m, e) ↦
          unfold latest_interaction in
          rw e
            (max_of-le bounds (max_ℤ birth now_ms) m (bound_interaction_le birth now_ms stamps) e)
    ]

-- There is an anchor exactly when some question is active.
pub checkin_anchor-none :
    (state : PromptState) (now_ms : ℤ) → (checkin_anchor state now_ms ≡ none) ↔ (active state ≡ [])
unfolding checkin_anchor births
checkin_anchor-none state now_ms = (
  λ h. map-nil (λ q. q.created_at) (active state) (min_of-none (births state) (ground arith)),
  λ h. unfold min_of in rw h,
)

-- An anchor is never before the birth of the oldest active question, which is the least of the
-- active births, and never after both that birth and the clock.
pub checkin_anchor_range :
    (state : PromptState) (now_ms anchor : ℤ)
    → checkin_anchor state now_ms ≡ some anchor
    → (birth : ℤ) × (min_of (births state) ≡ some birth)
      × All (λ x. birth ≤ℤ x) (births state)
      × (birth ≤ℤ anchor)
      × (anchor ≤ℤ max_ℤ birth now_ms)
unfolding checkin_anchor
checkin_anchor_range state now_ms anchor h = elim (Option-cases (min_of (births state))) [
  | inl e ↦ absurd (ground arith)
  | inr (birth, e) ↦
      let range = latest_interaction_range birth now_ms (checkin_stamps state) in
      (
        birth,
        e,
        min_of-le (births state) birth e,
        ground arith,
        ground (arith, latest_interaction_le birth now_ms (checkin_stamps state)),
      )
]

-- As the clock moves on, an anchor never moves back.
pub checkin_anchor_mono :
    (state : PromptState) (now_ms later a b : ℤ)
    → now_ms ≤ℤ later
    → checkin_anchor state now_ms ≡ some a
    → checkin_anchor state later ≡ some b
    → a ≤ℤ b
unfolding checkin_anchor
checkin_anchor_mono state now_ms later a b h = between (min_of (births state))
  where
    between :
        (birth : Option ℤ)
        → anchor_from birth (checkin_stamps state) now_ms ≡ some a
        → anchor_from birth (checkin_stamps state) later ≡ some b
        → a ≤ℤ b
    between none ha hb = absurd (ground arith)
    between (some birth) ha hb =
        ground (arith, latest_interaction_mono (checkin_stamps state) birth now_ms later h)

-- Evaluated again before the clock crosses a recorded stamp, the anchor is the same.
pub checkin_anchor_stable :
    (state : PromptState) (now_ms later : ℤ)
    → now_ms ≤ℤ later
    → All (Uncrossed now_ms later) (checkin_stamps state)
    → checkin_anchor state now_ms ≡ checkin_anchor state later
unfolding checkin_anchor
checkin_anchor_stable state now_ms later h u = elim (Option-cases (min_of (births state))) [
  | inl e ↦ rw e
  | inr (birth, e) ↦ rw e (ap some (latest_interaction_stable _ birth now_ms later h u))
]
