-- ===== src/Crypto/Notes.antt =====
-- The round trip of src/note_encryption.rs and of the sealed URL of src/vault.rs.
use braird_core.Prelude.{◌≡◌, refl, ap, ◌∙◌, String, true, false, Option, none, some, length, arith}
use braird_core.Crypto.Text.{join, strip_prefix, split_once, strip_prefix-join, split_once-join}
use braird_core.Crypto.{
  bad_input, ok_or, Bytes, Ciphers, opened, sentinel_v1, sentinel_v2, is_encrypted_v2, aes_decrypt,
  aad_of, sentinel_of, encrypt_note, payload_aad, open_payload, decrypt_note, book_url_key,
  seal_book_url, open_book_url,
}

v1-not-v2 : (s : String) → strip_prefix (join sentinel_v1 s) sentinel_v2 ≡ none
unfolding strip_prefix join
v1-not-v2 s = refl

module _ ⦃c : Ciphers⦄ where
  aes_decrypt-encrypt :
      (key iv pt : Bytes) (aad : Option Bytes)
      → length key ≡ 32
      → length iv ≡ 12
      → aes_decrypt key iv (c.encrypt key iv pt aad) aad ≡ opened pt
  unfolding aes_decrypt
  aes_decrypt-encrypt key iv pt aad k i = ground (arith, c.decrypt-encrypt key iv pt aad)

  decrypt_v1 :
      (mk : Bytes) (note_id : Option String) (p : String)
      → decrypt_note mk note_id (join sentinel_v1 p) ≡ open_payload mk false note_id p
  unfolding decrypt_note
  decrypt_v1 mk note_id p = ground (arith, v1-not-v2 p, strip_prefix-join sentinel_v1 p)

  decrypt_v2 :
      (mk : Bytes) (note_id : Option String) (p : String)
      → decrypt_note mk note_id (join sentinel_v2 p) ≡ open_payload mk true note_id p
  unfolding decrypt_note
  decrypt_v2 mk note_id p = ground (arith, strip_prefix-join sentinel_v2 p)

  module _ (mk iv : Bytes) (plaintext : String) (k : length mk ≡ 32) (i : length iv ≡ 12) where
    abbrev ct : Option String → Bytes
    ct note_id = c.encrypt mk iv (c.as_bytes plaintext) (aad_of note_id)

    abbrev payload : Option String → String
    payload note_id = join (c.b64encode iv) (join "." (c.b64encode (ct note_id)))

    payload-parts :
        (note_id : Option String)
        → split_once (payload note_id) ≡ some (c.b64encode iv, c.b64encode (ct note_id))
    payload-parts note_id = split_once-join _ _ (c.encode-IsDotless iv)

    sealed :
        (note_id : Option String)
        → aes_decrypt mk iv (ct note_id) (aad_of note_id) ≡ opened (c.as_bytes plaintext)
    sealed note_id = aes_decrypt-encrypt mk iv (c.as_bytes plaintext) (aad_of note_id) k i

    open_payload-v2 :
        (id : String) → open_payload mk true (some id) (payload (some id)) ≡ opened plaintext
    unfolding open_payload payload_aad aad_of
    open_payload-v2 id =
        rw
          (
            payload-parts (some id),
            c.decode-encode iv,
            c.decode-encode (ct (some id)),
            sealed (some id),
          )
          (ap (ok_or bad_input) (c.from-as_bytes plaintext))

    open_payload-v1 :
        (o : Option String) → open_payload mk false o (payload none) ≡ opened plaintext
    unfolding open_payload payload_aad aad_of
    open_payload-v1 o =
        rw (payload-parts none, c.decode-encode iv, c.decode-encode (ct none), sealed none)
          (ap (ok_or bad_input) (c.from-as_bytes plaintext))

    -- A note's text opens again under the id that it was sealed with, or as a legacy text where it
    -- was sealed with none, for a key of 32 bytes and a nonce of twelve.
    pub decrypt_note-encrypt_note :
        (note_id : Option String)
        → decrypt_note mk note_id (encrypt_note mk note_id plaintext iv) ≡ opened plaintext
    unfolding decrypt_note encrypt_note sentinel_of
    decrypt_note-encrypt_note none = decrypt_v1 mk none (payload none) ∙ open_payload-v1 none
    decrypt_note-encrypt_note (some id) =
        decrypt_v2 mk (some id) (payload (some id)) ∙ open_payload-v2 id

  open_book_url-lem :
      (mk : Bytes) (book_id payload : String) (url : String)
      → decrypt_note (book_url_key mk) (some book_id) (join sentinel_v2 payload) ≡ opened url
      → open_book_url mk book_id (join sentinel_v2 payload) ≡ some url
  unfolding open_book_url is_encrypted_v2
  open_book_url-lem mk book_id payload url h =
      ground (arith, h, strip_prefix-join sentinel_v2 payload)

  -- A sealed URL opens again under its own book, for a nonce of twelve bytes.
  pub open_book_url-seal_book_url :
      (mk iv : Bytes) (book_id url : String)
      → length iv ≡ 12
      → open_book_url mk book_id (seal_book_url mk book_id url iv) ≡ some url
  unfolding seal_book_url encrypt_note sentinel_of
  open_book_url-seal_book_url mk iv book_id url i = open_book_url-lem mk book_id _ url (
      decrypt_note-encrypt_note (book_url_key mk) iv url
        (unfold book_url_key in c.length-hkdf32 mk _) i (some book_id))
