-- ===== src/Snapshot/Complete.antt =====
-- What the rewrites of an accepted row leave: its key, its stamp and its columns.
use braird_core.Prelude.{
  String, ◌≡◌, refl, sym, ap, ◌∙◌, false, Option, none, some, List, [], ◌∷◌, str_eq, unwrap_or,
  arith, eq_iff, Bool-cases, inl, inr,
}
use braird_core.Prelude.Maps
use braird_core.Json
use braird_core.Json.{Value, Map, null, str}
use braird_core.Json.Laws.{get-insert, get-remove}
use braird_core.Store.Schema.{ColType}
use braird_core.Crypto.{Bytes, Ciphers, seal_book_url}
use braird_core.Crypto.Tag.{Macs}
use braird_core.Normalize.{Unicode}
use braird_core.Snapshot.{done, >>=-inv}
use braird_core.Snapshot.Select.{set_text, keep_columns, keep_book}
use braird_core.Snapshot.Prepare.{
  complete_row, nullable_text, sealed_text, book_of, seal_note, seal_url,
}

-- A completed row has each column of its table, null where the row did not give it.
pub get-complete_row :
    (columns : List (String × ColType)) (row : Map) (name : String)
    → Json.get name (complete_row columns row) ≡ elim (Maps.lookup name columns) [
      | none ↦ none
      | some ty ↦ some (unwrap_or (Json.get name row) null)
    ]
unfolding complete_row Maps.lookup
get-complete_row [] row name = unfold Json.get in refl
get-complete_row ((column, ty) ∷ columns) row name = ground (
  arith,
  get-insert column name (unwrap_or (Json.get column row) null)
      (complete_row columns (Json.remove column row)),
  get-complete_row columns (Json.remove column row) name,
  get-remove column name row,
  eq_iff column name,
)

get-set_text :
    (k col : String) (value : Option String) (row : Map)
    → str_eq col k ≡ false
    → Json.get k (set_text col value row) ≡ Json.get k row
unfolding set_text
get-set_text k col none row h = refl
get-set_text k col (some value) row h = ground (arith, get-insert col k (str value) row)

module _ ⦃c : Ciphers⦄ (mk : Bytes) (id k : String) where
  -- A kept book changes no column but its status, kind and URL.
  pub get-keep_book :
      (table : String) (existing : List Map) (row : Map)
      → str_eq "status" k ≡ false
      → str_eq "kind" k ≡ false
      → str_eq "url" k ≡ false
      → Json.get k (keep_book mk table id existing row) ≡ Json.get k row
  unfolding keep_book keep_columns
  get-keep_book table existing row h1 h2 h3 = elim (Bool-cases (str_eq table "books")) [
    | inr other ↦ rw other
    | inl books ↦ rw books (
        get-set_text k "url" _ _ h3 ∙ get-set_text k "kind" _ _ h2 ∙ get-set_text k "status" _ _ h1)
  ]

module _ ⦃c : Ciphers⦄ ⦃u : Unicode⦄ ⦃m : Macs⦄ (mk iv : Bytes) (table id k : String) where
  get-insert_both :
      (v w : Value) (row : Map)
      → str_eq "text" k ≡ false
      → str_eq "content_tag" k ≡ false
      → Json.get k (Json.insert "content_tag" w (Json.insert "text" v row)) ≡ Json.get k row
  get-insert_both v w row h1 h2 =
      ground
        (arith, get-insert "text" k v row, get-insert "content_tag" k w (Json.insert "text" v row))

  get-sealed_text :
      (plaintext book_id : Option String) (row : Map)
      → str_eq "text" k ≡ false
      → str_eq "content_tag" k ≡ false
      → Json.get k (sealed_text mk iv id plaintext book_id row) ≡ Json.get k row
  unfolding sealed_text
  get-sealed_text none book_id row h1 h2 = get-insert_both null null row h1 h2
  get-sealed_text (some plaintext) book_id row h1 h2 = get-insert_both _ _ row h1 h2

  get-bare :
      (row : Map)
      → str_eq "text" k ≡ false
      → str_eq "content_tag" k ≡ false
      → Json.get k (Json.remove "content_tag" (Json.remove "text" row)) ≡ Json.get k row
  get-bare row h1 h2 =
      ground (arith, get-remove "text" k row, get-remove "content_tag" k (Json.remove "text" row))

  pub get-seal_note :
      (row : Map) {sealed : Map}
      → str_eq "text" k ≡ false
      → str_eq "content_tag" k ≡ false
      → seal_note mk iv table id row ≡ done sealed
      → Json.get k sealed ≡ Json.get k row
  unfolding seal_note
  get-seal_note row h1 h2 h = elim (Bool-cases (str_eq table "notes")) [
    | inr other ↦ ground arith
    | inl notes ↦
        let bare = Json.remove "content_tag" (Json.remove "text" row) in
        let (plaintext, read, h') =
          >>=-inv (nullable_text (Json.get "text" row)) _ (rw notes at h) in
        let (book_id, found, e) = >>=-inv (book_of plaintext bare) _ h' in
        let same : sealed_text mk iv id plaintext book_id bare ≡ _ = ground arith in
        ap (Json.get k) (sym same)
        ∙ get-sealed_text plaintext book_id bare h1 h2
        ∙ get-bare row h1 h2
  ]

  pub get-seal_url :
      (v : Option Value) (row : Map)
      → str_eq "url" k ≡ false
      → Json.get k (seal_url mk iv table id v row) ≡ Json.get k row
  unfolding seal_url
  get-seal_url (some (str url)) row h =
      ground (arith, get-insert "url" k (str (seal_book_url mk id url iv)) row)
  get-seal_url _ row h = refl
