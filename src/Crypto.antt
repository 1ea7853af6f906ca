-- ===== src/Crypto.antt =====
-- The envelopes of src/note_encryption.rs, src/byte_encryption.rs and src/primitives.rs, and the
-- parts of src/vault.rs that use them. The ciphers are other crates: a record of what they do.
pub mod Text
pub mod Notes
pub mod Bytes
pub mod Tag
pub mod Plain
pub mod Examples
use braird_core.Prelude.{
  ℕ, suc, ◌+◌, ◌≡◌, String, Bool, true, false, not, ◌&&◌, ◌||◌, Option, none, some, List, [], ◌∷◌,
  ◌++◌, length, ltb, ◌==◌, if◌then◌else◌, is_none,
}
use braird_core.Crypto.Text.{join, strip_prefix, split_once, take, drop}

-- Bytes are numbers.
abbrev pub Bytes : Type 0
Bytes = List ℕ

-- `aes_gcm`, `base64`, `hkdf` and the two conversions between texts and bytes: a cipher opens what
-- it sealed, a decoder reads what was encoded, and Base64 has no dot. The source's cipher panics on
-- a key that is not 32 bytes or a nonce that is not 12; `encrypt` has some value there, and nothing
-- is said of it.
pub record Ciphers : Type 0 where
  -- by key, nonce, text and associated data
  pub encrypt : Bytes → Bytes → Bytes → Option Bytes → Bytes
  pub decrypt : Bytes → Bytes → Bytes → Option Bytes → Option Bytes
  pub decrypt-encrypt :
      (key iv pt : Bytes) (aad : Option Bytes)
      → decrypt key iv (encrypt key iv pt aad) aad ≡ some pt
  pub b64encode : Bytes → String
  pub b64decode : String → Option Bytes
  pub decode-encode : (bytes : Bytes) → b64decode (b64encode bytes) ≡ some bytes
  pub encode-IsDotless : (bytes : Bytes) → split_once (b64encode bytes) ≡ none
  pub as_bytes : String → Bytes
  pub from_utf8 : Bytes → Option String
  pub from-as_bytes : (s : String) → from_utf8 (as_bytes s) ≡ some s
  -- without a salt, to 32 bytes
  pub hkdf32 : Bytes → String → Bytes
  pub length-hkdf32 : (ikm : Bytes) (info : String) → length (hkdf32 ikm info) ≡ 32

-- The texts of the errors are not modelled.
pub data CryptoError : Type 0 where
  bad_input decrypt_failed : CryptoError

pub data Opened (A : Type 0) : Type 0 where
  refused : CryptoError → Opened A
  opened : A → Opened A

infixl 5 ◌>>=◌
abbrev pub ◌>>=◌ : {A B : Type 0} → Opened A → (A → Opened B) → Opened B
refused e >>= next = refused e
opened a >>= next = next a

-- `ok_or_else`
abbrev pub ok_or : {A : Type 0} → CryptoError → Option A → Opened A
ok_or e none = refused e
ok_or e (some a) = opened a

abbrev pub sentinel_v1 : String
sentinel_v1 = "enc:v1:"

abbrev pub sentinel_v2 : String
sentinel_v2 = "enc:v2:"

unfoldable pub is_encrypted_v2 : String → Bool
is_encrypted_v2 value = not (is_none (strip_prefix value sentinel_v2))

module _ ⦃c : Ciphers⦄ where
  unfoldable pub aes_decrypt : Bytes → Bytes → Bytes → Option Bytes → Opened Bytes
  aes_decrypt key iv ct aad =
      if not (length key == 32) || not (length iv == 12)
      then refused bad_input
      else ok_or decrypt_failed (c.decrypt key iv ct aad)

  -- `note_id.map(|id| id.as_bytes())`
  unfoldable pub aad_of : Option String → Option Bytes
  aad_of none = none
  aad_of (some id) = some (c.as_bytes id)

  -- The sentinel of the version
  unfoldable pub sentinel_of : Option String → String
  sentinel_of none = sentinel_v1
  sentinel_of (some id) = sentinel_v2

  unfoldable pub encrypt_note : Bytes → Option String → String → Bytes → String
  unfolding aad_of sentinel_of
  encrypt_note mk note_id plaintext iv =
      let ct = c.encrypt mk iv (c.as_bytes plaintext) (aad_of note_id) in
      join (sentinel_of note_id) (join (c.b64encode iv) (join "." (c.b64encode ct)))

  -- The associated data of a payload: a v2 one wants an id.
  unfoldable pub payload_aad : Bool → Option String → Opened (Option Bytes)
  payload_aad false note_id = opened none
  payload_aad true none = refused bad_input
  payload_aad true (some id) = opened (some (c.as_bytes id))

  -- What follows the sentinel
  unfoldable pub open_payload : Bytes → Bool → Option String → String → Opened String
  unfolding payload_aad
  open_payload mk is_v2 note_id payload = do
    parts ← ok_or bad_input (split_once payload)
    iv ← ok_or bad_input (c.b64decode parts.0)
    ct ← ok_or bad_input (c.b64decode parts.1)
    aad ← payload_aad is_v2 note_id
    pt ← aes_decrypt mk iv ct aad
    ok_or bad_input (c.from_utf8 pt)

  unfoldable pub decrypt_note : Bytes → Option String → String → Opened String
  unfolding open_payload
  decrypt_note mk note_id value = elim (strip_prefix value sentinel_v2) [
    | some payload ↦ open_payload mk true note_id payload
    | none ↦ elim (strip_prefix value sentinel_v1) [
      | some payload ↦ open_payload mk false note_id payload
      | none ↦ refused bad_input
    ]
  ]

  -- The version byte, the nonce and the sealed bytes
  unfoldable pub seal_bytes : Bytes → Bytes → String → Bytes → Bytes
  seal_bytes mk bytes aad iv = 2 ∷ (iv ++ c.encrypt mk iv bytes (some (c.as_bytes aad)))

  unfoldable pub open_bytes : Bytes → Bytes → String → Opened Bytes
  open_bytes mk [] aad = refused bad_input
  open_bytes mk (version ∷ rest) aad =
      if ltb (length rest) 12 || not (version == 2)
      then refused bad_input
      else aes_decrypt mk (take rest 12) (drop rest 12) (some (c.as_bytes aad))

  abbrev pub book_url_info : String
  book_url_info = "braird-book-url-v1"

  unfoldable pub book_url_key : Bytes → Bytes
  book_url_key mk = c.hkdf32 mk book_url_info

  unfoldable pub seal_book_url : Bytes → String → String → Bytes → String
  unfolding book_url_key
  seal_book_url mk book_id url iv = encrypt_note (book_url_key mk) (some book_id) url iv

  unfoldable pub open_book_url : Bytes → String → String → Option String
  unfolding book_url_key
  open_book_url mk book_id sealed =
      if is_encrypted_v2 sealed
      then (elim (decrypt_note (book_url_key mk) (some book_id) sealed) [
        | opened url ↦ some url
        | refused e ↦ none
      ])
      else none
