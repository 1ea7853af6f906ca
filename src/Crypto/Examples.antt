-- ===== src/Crypto/Examples.antt =====
-- The theorems on the envelopes at a cipher that hides nothing.
use braird_core.Prelude.{◌++◌, ◌↔◌, ◌≡◌, some, [], ◌∷◌}
use braird_core.Crypto.{
  opened, encrypt_note, decrypt_note, seal_book_url, open_book_url, seal_bytes, open_bytes,
}
use braird_core.Crypto.Plain.{plain, zeros, length-zeros}
use braird_core.Crypto.Notes.{decrypt_note-encrypt_note, open_book_url-seal_book_url}
use braird_core.Crypto.Bytes.{IsSealed, open_bytes-seal_bytes, open_bytes_iff}

decrypt_note-encrypt_note_example :
    decrypt_note (zeros 32) (some "n1") (encrypt_note (zeros 32) (some "n1") "a note" (zeros 12))
    ≡ opened "a note"
decrypt_note-encrypt_note_example =
    decrypt_note-encrypt_note (zeros 32) (zeros 12) "a note" (length-zeros 32) (length-zeros 12)
      (some "n1")

open_book_url-seal_book_url_example :
    open_book_url (zeros 32) "b1" (seal_book_url (zeros 32) "b1" "https://a.b" (zeros 12))
    ≡ some "https://a.b"
open_book_url-seal_book_url_example =
    open_book_url-seal_book_url (zeros 32) (zeros 12) "b1" "https://a.b" (length-zeros 12)

open_bytes-seal_bytes_example :
    open_bytes (zeros 32) (seal_bytes (zeros 32) (1 ∷ 2 ∷ []) "emb:n1" (zeros 12)) "emb:n1"
    ≡ opened (1 ∷ 2 ∷ [])
open_bytes-seal_bytes_example =
    open_bytes-seal_bytes (zeros 32) (1 ∷ 2 ∷ []) (zeros 12) "emb:n1" (length-zeros 32)
      (length-zeros 12)

open_bytes_iff_example :
    (open_bytes (zeros 32) (2 ∷ (zeros 12 ++ 7 ∷ [])) "emb:n1" ≡ opened (7 ∷ []))
    ↔ IsSealed (zeros 32) (2 ∷ (zeros 12 ++ 7 ∷ [])) "emb:n1" (7 ∷ [])
open_bytes_iff_example = open_bytes_iff (zeros 32) (2 ∷ (zeros 12 ++ 7 ∷ [])) (7 ∷ []) "emb:n1"
