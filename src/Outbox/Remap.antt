-- ===== src/Outbox/Remap.antt =====
-- `resolve_book_id` of src/sync/outbox.rs: the walk along the offline-merge remap.
use braird_core.Prelude.{
  ℕ, zero, suc, ◌≤◌, String, ◌≡◌, ◌≢◌, refl, none, some, List, arith, eq_iff, str_eq, Option-cases,
  Bool-cases, ◌⊎◌, inl, inr,
}
use braird_core.Prelude.Maps
use braird_core.Outbox.{resolve_hops, resolve_book_id}

module _ (remap : List (String × String)) where
  -- `Hops n a b`: the remap leads from `a` to `b` in n steps, each to another id.
  pub data Hops : ℕ → String → String → Type 0 where
    here : {a : String} → Hops zero a a
    hop :
        {n : ℕ} {a b c : String}
        → Maps.lookup a remap ≡ some b
        → b ≢ a
        → Hops n b c
        → Hops (suc n) a c

  -- An id that the remap leads nowhere else.
  abbrev pub IsFinal : String → Type 0
  IsFinal id = (Maps.lookup id remap ≡ none) ⊎ (Maps.lookup id remap ≡ some id)

  resolve_hops-final : (hops : ℕ) (id : String) → IsFinal id → resolve_hops hops id remap ≡ id
  unfolding resolve_hops
  resolve_hops-final zero id f = refl
  resolve_hops-final (suc hops) id (inl f) = ground arith
  resolve_hops-final (suc hops) id (inr f) = ground (arith, eq_iff id id)

  resolve_hops_reaches :
      {n : ℕ} {id final : String} (hops : ℕ)
      → Hops n id final
      → IsFinal final
      → n ≤ hops
      → resolve_hops hops id remap ≡ final
  unfolding resolve_hops
  resolve_hops_reaches hops here f h = resolve_hops-final hops _ f
  resolve_hops_reaches zero (hop e d r) f h = absurd (omega arith)
  resolve_hops_reaches (suc hops) (hop {a = a} {b = b} e d r) f h =
      ground (arith, eq_iff b a, resolve_hops_reaches hops r f)

  -- The walk only ever follows the remap: its result is reached in at most as many steps as it may
  -- take.
  resolve_hops_follows :
      (hops : ℕ) (id : String) → (n : ℕ) × (n ≤ hops) × Hops n id (resolve_hops hops id remap)
  unfolding resolve_hops
  resolve_hops_follows zero id = (0, omega arith, here)
  resolve_hops_follows (suc hops) id = elim (Option-cases (Maps.lookup id remap)) [
    | inl e ↦ rw (e, resolve_hops) (0, omega arith, here)
    | inr (next, e) ↦ elim (Bool-cases (str_eq next id)) [
      | inl same ↦ rw (e, resolve_hops) (rw (same, resolve_hops) (0, omega arith, here))
      | inr other ↦
          let (n, few, chain) = resolve_hops_follows hops next in
          rw (e, resolve_hops)
            (rw (other, resolve_hops)
              (suc n, omega arith, hop e (λ p. absurd (ground (arith, eq_iff next id))) chain))
    ]
  ]

  -- Where a chain of at most twenty merges ends, `resolve_book_id` ends too.
  pub resolve_book_id_reaches :
      {n : ℕ} {id final : String}
      → Hops n id final
      → IsFinal final
      → n ≤ 20
      → resolve_book_id id remap ≡ final
  unfolding resolve_book_id
  resolve_book_id_reaches r f h = resolve_hops_reaches 20 r f h

  -- The result is reached along the remap in at most twenty steps, cycles included.
  pub resolve_book_id_follows :
      (id : String) → (n : ℕ) × (n ≤ 20) × Hops n id (resolve_book_id id remap)
  unfolding resolve_book_id
  resolve_book_id_follows id = resolve_hops_follows 20 id
