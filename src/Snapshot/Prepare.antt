-- ===== src/Snapshot/Prepare.antt =====
-- `prepare_write` of src/sync/export_import/merge.rs: an accepted row sealed and completed. The
-- nonce that a row may draw is an argument.
use braird_core.Prelude.{
  ℕ, suc, String, ℤ, false, Option, none, some, List, [], ◌∷◌, str_eq, if◌then◌else◌, unwrap_or,
}
use braird_core.Json
use braird_core.Json.{Value, Map, null, bool, num, int, str, empty}
use braird_core.Crypto.{Bytes, Ciphers, encrypt_note, seal_book_url, is_encrypted_v2}
use braird_core.Crypto.Tag.{Macs, content_tag}
use braird_core.Normalize.{Unicode}
use braird_core.Store.Schema.{ColType, table_schema}
use braird_core.Snapshot.{
  store_failed, invalid_import, Answer, done, failed, ◌>>=◌, done_or, NormalizedRow,
}

-- A nullable text, an absent one read as null

unfoldable pub nullable_text : Option Value → Answer (Option String)
nullable_text none = done none
nullable_text (some null) = done none
nullable_text (some (str s)) = done (some s)
nullable_text (some v) = failed invalid_import

-- The book is read only where there is a text.
unfoldable pub book_of : Option String → Map → Answer (Option String)
book_of none row = done none
book_of (some plaintext) row = nullable_text (Json.get "book_id" row)

-- Every column of the table, in order, and no other.
unfoldable pub complete_row : List (String × ColType) → Map → Map
complete_row [] row = empty
complete_row ((column, ty) ∷ columns) row =
    Json.insert column (unwrap_or (Json.get column row) null)
      (complete_row columns (Json.remove column row))

module _ ⦃c : Ciphers⦄ ⦃u : Unicode⦄ ⦃m : Macs⦄ (mk iv : Bytes) where
  -- `text` and `content_tag` of a note: sealed under its id and tagged, or both null.
  unfoldable pub sealed_text : String → Option String → Option String → Map → Map
  sealed_text id none book_id row = Json.insert "content_tag" null (Json.insert "text" null row)
  sealed_text id (some plaintext) book_id row =
      Json.insert "content_tag" (str (content_tag mk plaintext book_id))
        (Json.insert "text" (str (encrypt_note mk (some id) plaintext iv)) row)

  unfoldable pub seal_note : String → String → Map → Answer Map
  seal_note table id row =
      if str_eq table "notes"
      then (let bare = Json.remove "content_tag" (Json.remove "text" row) in
          nullable_text (Json.get "text" row) >>= λ plaintext.
          book_of plaintext bare >>= λ book_id. done (sealed_text id plaintext book_id bare))
      else done row

  unfoldable pub seal_url : String → String → Option Value → Map → Map
  seal_url table id (some (str url)) row =
      if str_eq table "books"
      then (if is_encrypted_v2 url
          then row
          else Json.insert "url" (str (seal_book_url mk id url iv)) row)
      else row
  seal_url table id _ row = row

  unfoldable pub prepare_write : String → NormalizedRow → ℤ → Answer (String × String × Map)
  prepare_write table candidate batch_timestamp =
      let id = candidate.primary_key in
      seal_note table id candidate.row >>= λ row.
      let stamped = Json.insert "deleted" (bool false) (
        Json.insert "updated_at" (num (int batch_timestamp))
          (seal_url table id (Json.get "url" row) row)) in
      done_or store_failed (table_schema table) >>= λ schema.
      done (table, id, complete_row schema.columns stamped)

-- The rows in order, each with the nonce of its place.
module _ ⦃c : Ciphers⦄ ⦃u : Unicode⦄ ⦃m : Macs⦄ (mk : Bytes) (nonces : ℕ → Bytes) where
  unfoldable pub prepare_all :
      ℕ → List (String × NormalizedRow) → ℤ → Answer (List (String × String × Map))
  prepare_all place [] batch_timestamp = done []
  prepare_all place ((table, candidate) ∷ accepted) batch_timestamp =
      prepare_write mk (nonces place) table candidate batch_timestamp >>= λ write.
      prepare_all (suc place) accepted batch_timestamp >>= λ writes. done (write ∷ writes)
