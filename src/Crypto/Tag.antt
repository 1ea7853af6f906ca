-- ===== src/Crypto/Tag.antt =====
-- src/content_tag.rs: the fingerprint of a note's text and book.
use braird_core.Prelude.{ℕ, zero, suc, String, Option, none, some, [], ◌∷◌}
use braird_core.Crypto.{Bytes, Ciphers}
use braird_core.Crypto.Text.{join}
use braird_core.Normalize.{Unicode, normalize_for_tag}

-- `hkdf`, by salt, key material, info and length, and the HMAC as hexadecimal digits

pub record Macs : Type 0 where
  pub hkdf_expand : Bytes → Bytes → String → ℕ → Bytes
  pub hmac_hex : Bytes → Bytes → String

unfoldable pub zero_bytes : ℕ → Bytes
zero_bytes zero = []
zero_bytes (suc n) = 0 ∷ zero_bytes n

-- `unwrap_or("")`
abbrev pub text_or_empty : Option String → String
text_or_empty none = ""
text_or_empty (some s) = s

module _ ⦃c : Ciphers⦄ ⦃u : Unicode⦄ ⦃m : Macs⦄ where
  unfoldable pub content_tag : Bytes → String → Option String → String
  content_tag raw_mk plaintext book_id =
      let key = m.hkdf_expand (zero_bytes 32) raw_mk "surfc-content-tag-v1" 64 in
      let message = join (normalize_for_tag plaintext) (String.◌∷◌ "\0" (text_or_empty book_id)) in
      m.hmac_hex key (c.as_bytes message)
