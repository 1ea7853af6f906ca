-- ===== src/Reconcile/Survivor/Walk.antt =====
-- Where `resolve_survivor` of src/sync/reconcile.rs ends.
use braird_core.Prelude.{
  ℕ, zero, suc, ◌≤◌, String, ◌≡◌, ◌≢◌, refl, true, false, Option, none, some, List, str_eq, eq_iff,
  arith, ◌⊎◌, inl, inr, Option-cases, Bool-cases,
}
use braird_core.Json.{Map, Serde}
use braird_core.Store.State.{ok, Store, get_row}
use braird_core.Store.Staging.{is_tombstone}
use braird_core.Store.Stage.{>>=-inv}
use braird_core.Reconcile.Survivor.{live, next_book, liveness_of, walk, resolve_survivor}

module _ {Text : Type 0} ⦃serde : Serde Text⦄ (s : Store Text) (map : List (String × String)) where
  -- `Leads n id row end found`: n pointers lead from a book to another, each to another id, with the
  -- rows that the store has of them.
  pub data Leads : ℕ → String → Option Map → String → Option Map → Type 0 where
    here : {id : String} {row : Option Map} → Leads zero id row id row
    hop :
        {n : ℕ} {id next end : String} {row found last : Option Map}
        → next_book map id row ≡ some next
        → next ≢ id
        → get_row s "books" next ≡ ok found
        → Leads n next found end last
        → Leads (suc n) id row end last

  -- A book that points nowhere else.
  abbrev pub IsLast : String → Option Map → Type 0
  IsLast id row = (next_book map id row ≡ none) ⊎ (next_book map id row ≡ some id)

  walk-last :
      (hops : ℕ) (id : String) (row : Option Map)
      → IsLast id row
      → walk s map hops id row ≡ ok (id, row)
  unfolding walk
  walk-last zero id row l = refl
  walk-last (suc hops) id row (inl l) = ground arith
  walk-last (suc hops) id row (inr l) = ground (arith, eq_iff id id)

  walk_reaches :
      {n : ℕ} {id end : String} {row last : Option Map} (hops : ℕ)
      → Leads n id row end last
      → IsLast end last
      → n ≤ hops
      → walk s map hops id row ≡ ok (end, last)
  unfolding walk
  walk_reaches hops here l few = walk-last hops _ _ l
  walk_reaches zero (hop p apart read chain) l few = absurd (omega arith)
  walk_reaches (suc hops) (hop {id = id} {next = next} p apart read chain) l few =
      ground (arith, eq_iff next id, walk_reaches hops chain l)

  -- Where a chain of at most twenty pointers ends, the synced one of a row before the device's map,
  -- the walk ends too, with what the store knows of that book.
  pub resolve_survivor_reaches :
      {n : ℕ} {end : String} {last : Option Map} (id : String) (row : Map)
      → Leads n id (some row) end last
      → IsLast end last
      → n ≤ 20
      → resolve_survivor s map id row ≡ ok (end, liveness_of last)
  unfolding resolve_survivor liveness_of
  resolve_survivor_reaches id row chain l few = rw (walk_reaches 20 chain l few) refl

  walk-stored :
      (hops : ℕ) (id : String) (row : Option Map) {end : String} {found : Option Map}
      → walk s map hops id row ≡ ok (end, found)
      → ((end ≡ id) × (found ≡ row)) ⊎ (get_row s "books" end ≡ ok found)
  unfolding walk
  walk-stored zero id row h = inl (ground arith, ground arith)
  walk-stored (suc hops) id row h = elim (Option-cases (next_book map id row)) [
    | inl e ↦ inl (ground arith, ground arith)
    | inr (next, e) ↦ elim (Bool-cases (str_eq next id)) [
      | inl same ↦ inl (ground arith, ground arith)
      | inr other ↦
          let (got, read, later) =
            >>=-inv (get_row s "books" next) (λ found. walk s map hops next found) (ground arith) in
          further next got read (walk-stored hops next got later)
    ]
  ]
    where
      further :
          {end : String} {found : Option Map} (next : String) (got : Option Map)
          → get_row s "books" next ≡ ok got
          → ((end ≡ next) × (found ≡ got)) ⊎ (get_row s "books" end ≡ ok found)
          → ((end ≡ id) × (found ≡ row)) ⊎ (get_row s "books" end ≡ ok found)
      further next got read (inl (e, f)) = inr (rw (e, f) read)
      further next got read (inr stored) = inr stored

  -- From a deleted book, a survivor that counts as live is a stored book that is not deleted.
  pub resolve_survivor-live :
      (id : String) (row : Map) {survivor : String}
      → is_tombstone row ≡ true
      → resolve_survivor s map id row ≡ ok (survivor, live)
      → (found : Map) × (get_row s "books" survivor ≡ ok (some found))
        × (is_tombstone found ≡ false)
  unfolding resolve_survivor liveness_of
  resolve_survivor-live id row dead h =
      let ((end, found), walked, e) =
        >>=-inv (walk s map 20 id (some row)) (λ end. ok (end.0, liveness_of end.1)) h in
      alive end found (walk-stored 20 id (some row) walked) (ground arith) (ground arith)
    where
      alive :
          {survivor : String} (end : String) (found : Option Map)
          → ((end ≡ id) × (found ≡ some row)) ⊎ (get_row s "books" end ≡ ok found)
          → end ≡ survivor
          → liveness_of found ≡ live
          → (found : Map) × (get_row s "books" survivor ≡ ok (some found))
            × (is_tombstone found ≡ false)
      alive end none from e l = absurd (ground arith)
      alive end (some book) (inl (p, q)) e l = absurd (ground arith)
      alive end (some book) (inr stored) e l = (book, rw (← e) stored, ground arith)
