-- ===== src/Reconcile/Duplicates/Moved.antt =====
-- The notes that `merge_books` of src/sync/reconcile.rs moves.
use braird_core.Prelude.{
  String, ℤ, true, false, in_i64, ◌≡◌, refl, ap, ◌∙◌, ◌&&◌, Bool, some, List, [], ◌∷◌, All, All-map,
  All-append, arith, eq_iff, str_eq, Bool-cases, inl, inr, subst,
}
use braird_core.Prelude.Maps
use braird_core.Json
use braird_core.Json.{Map, Serde, null, num, str, int, empty}
use braird_core.Json.Laws.{get-insert}
use braird_core.Store.Schema.{TableSchema, text, find_table, table_schema, descriptor_tables}
use braird_core.Store.State.{Store, ok}
use braird_core.Store.Staging.{stage_write_inner}
use braird_core.Store.Column.{stored_column, stage-other, stage-column}
use braird_core.Store.Writes.{IsStamped}
use braird_core.Reconcile.{row_str, rehome_patch}
use braird_core.Reconcile.Sound.{
  IsSound, Ends, then-Ends, Ends-map, stage-Ends, rehome_patch-IsStamped,
}
use braird_core.Reconcile.Duplicates.{NoteBookAssignment, BookMergeUndo, reassign, rehome_notes}
use braird_core.Reconcile.Duplicates.Retired.{through-id}

notes-book_id :
    (schema : TableSchema)
    → table_schema "notes" ≡ some schema
    → Maps.lookup "book_id" schema.columns ≡ some text
unfolding table_schema find_table descriptor_tables Maps.lookup
notes-book_id schema found = ground arith

rehome_patch-book_id :
    (note_id survivor_id : String) (now : ℤ)
    → Json.get "book_id" (rehome_patch note_id (str survivor_id) now) ≡ some (str survivor_id)
unfolding rehome_patch
rehome_patch-book_id note_id survivor_id now =
    let moved = Json.insert "book_id" (str survivor_id) (Json.insert "id" (str note_id) empty) in
    ground (
      arith,
      get-insert "updated_at" "book_id" (num (int now)) (Json.insert "content_tag" null moved),
      get-insert "content_tag" "book_id" null moved,
      get-insert "book_id" "book_id" (str survivor_id) (Json.insert "id" (str note_id) empty),
    )

reassign-losers :
    (note_id id : String) (resumed : Bool) (undo : BookMergeUndo)
    → (reassign note_id id resumed undo).loser_ids ≡ undo.loser_ids
unfolding reassign
reassign-losers note_id id true undo = refl
reassign-losers note_id id false undo = refl

module _ {Text : Type 0} ⦃serde : Serde Text⦄ (survivor_id : String) where
  -- A note on the survivor.
  abbrev pub IsMoved : Store Text → String → Type 0
  IsMoved s note_id = stored_column s "notes" note_id "book_id" ≡ some (str survivor_id)

  abbrev pub Moves : Store Text → BookMergeUndo → Type 0
  Moves s undo = All (λ r. IsMoved s r.note_id) undo.reassignments

  -- Where moved notes stay so, the notes of an undo do.
  pub Moves-map :
      (s t : Store Text) (undo : BookMergeUndo)
      → ((j : String) → IsMoved s j → IsMoved t j)
      → Moves s undo
      → Moves t undo
  Moves-map s t undo f h = All-map undo.reassignments (λ r k. f r.note_id k) h

  -- A write of a book moves no note.
  pub book-IsMoved :
      (s t : Store Text) (id : String) (patch : Map) (now : ℤ)
      → IsStamped "books" id patch
      → stage_write_inner s "books" id patch now ≡ ok t
      → (j : String) → IsMoved s j
      → IsMoved t j
  book-IsMoved s t id patch now write staged j m =
      stage-other s "books" id patch now write staged "notes" j "book_id" refl ∙ m

  module _ (now : ℤ) (range : in_i64 now ≡ true) where
    module _ (s t : Store Text) (note_id : String)
        (staged : stage_write_inner s "notes" note_id
            (rehome_patch note_id (str survivor_id) now)
            now
          ≡ ok t) where
      rehome-IsMoved : IsMoved t note_id
      rehome-IsMoved =
          let write = rehome_patch-IsStamped note_id (str survivor_id) now range in
          stage-column s "notes" note_id (rehome_patch note_id (str survivor_id) now) now write
            staged "book_id" text (str survivor_id)
            (λ e. absurd (ground (arith, eq_iff "book_id" "updated_at")))
            (notes-book_id write.schema write.found) (rehome_patch-book_id note_id survivor_id now)
          ∙ ap some (through-id Text survivor_id)

      IsMoved-stays : (j : String) → IsMoved s j → IsMoved t j
      IsMoved-stays j m =
          let write = rehome_patch-IsStamped note_id (str survivor_id) now range in
          elim (Bool-cases (str_eq "notes" "notes" && str_eq note_id j)) [
            | inl same ↦ subst (IsMoved t) (ground (arith, eq_iff note_id j)) rehome-IsMoved
            | inr apart ↦
                stage-other s "notes" note_id (rehome_patch note_id (str survivor_id) now) now write
                  staged "notes" j "book_id" apart
                ∙ m
          ]

      reassign-Moves :
          (id : String) (resumed : Bool) (undo : BookMergeUndo)
          → Moves s undo
          → Moves t (reassign note_id id resumed undo)
      unfolding reassign
      reassign-Moves id true undo h = Moves-map s t undo IsMoved-stays h
      reassign-Moves id false undo h =
          All-append (λ (r : NoteBookAssignment). IsMoved t r.note_id) undo.reassignments _
            (Moves-map s t undo IsMoved-stays h) (rehome-IsMoved, tt)

    -- The notes of a loser are moved, and those moved before stay.
    pub rehome_notes-Ends :
        (id : String) (resumed : Bool) (notes : List Map) (s : Store Text) (undo : BookMergeUndo)
        → Moves s undo
        → IsSound s
        → Ends
            (λ after ended. (ended.loser_ids ≡ undo.loser_ids) × Moves after ended)
            (rehome_notes survivor_id now id resumed notes s undo)
    unfolding rehome_notes
    rehome_notes-Ends id resumed [] s undo m h = record { sound = h; result = (refl, m) }
    rehome_notes-Ends id resumed (note ∷ notes) s undo m h =
        let note_id = row_str note "id" in
        then-Ends
          (stage-Ends s "notes" note_id _ now
            (rehome_patch-IsStamped note_id (str survivor_id) now range) h)
          λ t committed k staged.
            Ends-map (λ after ended e. (e.0 ∙ reassign-losers note_id id resumed undo, e.1))
              (rehome_notes-Ends id resumed notes t _
                (reassign-Moves s t note_id staged id resumed undo m) k)
