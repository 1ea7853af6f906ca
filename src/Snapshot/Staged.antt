-- ===== src/Snapshot/Staged.antt =====
-- The batch that src/sync/export_import/merge.rs stages, against its accepted candidates.
use braird_core.Prelude.{
  ℕ, suc, String, ℤ, in_i64, ◌<ℤ◌, ◌≡◌, refl, subst, Bool, true, false, ◌&&◌, ◌||◌, Option, none,
  some, List, [], ◌∷◌, str_eq, arith, All,
}
use braird_core.Json.{Map, Serde}
use braird_core.Store.State.{Store}
use braird_core.Store.Rows.{local_updated}
use braird_core.Store.Import.{IsImport, AreImports, IsAbove, AreAbove}
use braird_core.Store.Imported.{names}
use braird_core.Crypto.{Bytes, Ciphers}
use braird_core.Crypto.Tag.{Macs}
use braird_core.Normalize.{Unicode}
use braird_core.Snapshot.{done, >>=-inv, done-injective, NormalizedRow}
use braird_core.Snapshot.Select.{ServerRows}
use braird_core.Snapshot.Prepare.{prepare_write, prepare_all}
use braird_core.Snapshot.Prepared.{prepare_write-IsImport}
use braird_core.Snapshot.Chosen.{IsCovered, IsChosen}

-- Whether a record is among the accepted ones.

unfoldable pub is_accepted : String → String → List (String × NormalizedRow) → Bool
is_accepted other j [] = false
is_accepted other j ((table, candidate) ∷ accepted) =
    (str_eq table other && str_eq candidate.primary_key j) || is_accepted other j accepted

-- The writes of the accepted candidates, in order.
abbrev pub AreFor : ℤ → List (String × NormalizedRow) → List (String × String × Map) → Type 0
AreFor stamp [] [] = Unit
AreFor stamp [] (write ∷ writes) = ⊥
AreFor stamp (candidate ∷ accepted) [] = ⊥
AreFor stamp ((table, candidate) ∷ accepted) ((t, id, row) ∷ writes) =
    (t ≡ table)
    × (id ≡ candidate.primary_key)
    × IsImport stamp table candidate.primary_key row
    × AreFor stamp accepted writes

pub AreFor-AreImports :
    (stamp : ℤ) (accepted : List (String × NormalizedRow)) (writes : List (String × String × Map))
    → AreFor stamp accepted writes
    → AreImports stamp writes
AreFor-AreImports stamp [] [] h = tt
AreFor-AreImports stamp [] (write ∷ writes) h = absurd h
AreFor-AreImports stamp (candidate ∷ accepted) [] h = absurd h
AreFor-AreImports stamp ((table, candidate) ∷ accepted) ((t, id, row) ∷ writes)
      (same, key, import, rest) =
    (rw (same, key) import, AreFor-AreImports stamp accepted writes rest)

pub AreFor-names :
    (stamp : ℤ) (other j : String) (accepted : List (String × NormalizedRow))
    (writes : List (String × String × Map))
    → AreFor stamp accepted writes
    → names other j writes ≡ is_accepted other j accepted
unfolding names is_accepted
AreFor-names stamp other j [] [] h = refl
AreFor-names stamp other j [] (write ∷ writes) h = absurd h
AreFor-names stamp other j (candidate ∷ accepted) [] h = absurd h
AreFor-names stamp other j ((table, candidate) ∷ accepted) ((t, id, row) ∷ writes)
      (same, key, import, rest) =
    rw (same, key, AreFor-names stamp other j accepted writes rest) refl

IsCovered-IsAbove :
    (n stamp : ℤ) (o : Option ℤ) → n <ℤ stamp → IsCovered (some n) o → IsAbove stamp o
IsCovered-IsAbove n stamp none below h = tt
IsCovered-IsAbove n stamp (some a) below h = omega arith

module _ {Text : Type 0} ⦃serde : Serde Text⦄ ⦃c : Ciphers⦄ (mk : Bytes) (s : Store Text)
    (server : ServerRows) (n stamp : ℤ) (below : n <ℤ stamp) where
  pub AreFor-AreAbove :
      (accepted : List (String × NormalizedRow)) (writes : List (String × String × Map))
      → All (IsChosen mk s server (some n)) accepted
      → AreFor stamp accepted writes
      → AreAbove stamp s writes
  AreFor-AreAbove [] [] chosen h = tt
  AreFor-AreAbove [] (write ∷ writes) chosen h = absurd h
  AreFor-AreAbove (candidate ∷ accepted) [] chosen h = absurd h
  AreFor-AreAbove ((table, candidate) ∷ accepted) ((t, id, row) ∷ writes) (chosen, more)
        (same, key, import, rest) =
      (
        rw (same, key)
            (IsCovered-IsAbove n stamp (local_updated s table candidate.primary_key) below
              chosen.local),
        AreFor-AreAbove accepted writes more rest,
      )

  module _ ⦃u : Unicode⦄ ⦃m : Macs⦄ (nonces : ℕ → Bytes) (range : in_i64 stamp ≡ true) where
    pub prepare_all-AreFor :
        (place : ℕ) (accepted : List (String × NormalizedRow))
        {writes : List (String × String × Map)}
        → All (IsChosen mk s server (some n)) accepted
        → prepare_all mk nonces place accepted stamp ≡ done writes
        → AreFor stamp accepted writes
    unfolding prepare_all
    prepare_all-AreFor place [] chosen h = subst (AreFor stamp []) (done-injective h) tt
    prepare_all-AreFor place ((table, candidate) ∷ accepted) (chosen, more) h =
        let (write, one, h1) =
          >>=-inv (prepare_write mk (nonces place) table candidate stamp) _ h in
        let (writes', rest, e) = >>=-inv (prepare_all mk nonces (suc place) accepted stamp) _ h1 in
        let (same, key, import) =
          prepare_write-IsImport mk (nonces place) table candidate stamp chosen.normal range one in
        subst (AreFor stamp ((table, candidate) ∷ accepted)) (done-injective e)
          (same, key, import, prepare_all-AreFor (suc place) accepted more rest)
