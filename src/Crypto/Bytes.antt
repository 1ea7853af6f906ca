-- ===== src/Crypto/Bytes.antt =====
-- The byte envelope of src/byte_encryption.rs: its round trip, and which bytes it opens.
use braird_core.Prelude.{
  ◌↔◌, ◌≤◌, zero, suc, ℕ, refl, ap, Bool-cases, inl, inr, ltb, ◌||◌, not, ◌==◌, ◌+◌, ◌≡◌, String,
  some, [], ◌∷◌, ◌++◌, length, arith,
}
use braird_core.Crypto.Text.{take, drop, take-append, drop-append}
use braird_core.Crypto.{Bytes, Ciphers, opened, aes_decrypt, seal_bytes, open_bytes}

length-append : (xs ys : Bytes) → length (xs ++ ys) ≡ length xs + length ys
length-append [] ys = omega arith
length-append (x ∷ xs) ys = omega (arith, length-append xs ys)

take-drop : (xs : Bytes) (n : ℕ) → take xs n ++ drop xs n ≡ xs
unfolding take drop
take-drop xs zero = refl
take-drop [] (suc n) = refl
take-drop (x ∷ xs) (suc n) = ap (λ ys. x ∷ ys) (take-drop xs n)

length-take : (xs : Bytes) (n : ℕ) → n ≤ length xs → length (take xs n) ≡ n
unfolding take
length-take xs zero h = refl
length-take [] (suc n) h = absurd (omega arith)
length-take (x ∷ xs) (suc n) h = omega (arith, length-take xs n)

module _ ⦃c : Ciphers⦄ where
  -- Bytes open again in the context that they were sealed in, for a key of 32 bytes and a nonce of
  -- twelve.
  pub open_bytes-seal_bytes :
      (mk bytes iv : Bytes) (aad : String)
      → length mk ≡ 32
      → length iv ≡ 12
      → open_bytes mk (seal_bytes mk bytes aad iv) aad ≡ opened bytes
  unfolding open_bytes seal_bytes aes_decrypt
  open_bytes-seal_bytes mk bytes iv aad k i =
      let ct = c.encrypt mk iv bytes (some (c.as_bytes aad)) in
      let iv' : take (iv ++ ct) 12 ≡ iv = rw (← i) (take-append iv ct) in
      let ct' : drop (iv ++ ct) 12 ≡ ct = rw (← i) (drop-append iv ct) in
      ground (
        arith,
        iv',
        ct',
        length-append iv ct,
        c.decrypt-encrypt mk iv bytes (some (c.as_bytes aad)),
      )

  -- Sealed bytes: the version, a nonce, and what the cipher opens under the key in the context.
  pub record IsSealed (mk sealed : Bytes) (aad : String) (bytes : Bytes) : Type 0 where
    pub iv : Bytes
    pub ct : Bytes
    pub key_length : length mk ≡ 32
    pub iv_length : length iv ≡ 12
    pub layout : sealed ≡ 2 ∷ (iv ++ ct)
    pub deciphered : c.decrypt mk iv ct (some (c.as_bytes aad)) ≡ some bytes

  opened-IsSealed :
      (mk sealed bytes : Bytes) (aad : String)
      → open_bytes mk sealed aad ≡ opened bytes
      → IsSealed mk sealed aad bytes
  unfolding open_bytes aes_decrypt
  opened-IsSealed mk [] bytes aad h = absurd (ground arith)
  opened-IsSealed mk (version ∷ rest) bytes aad h =
      elim (Bool-cases (ltb (length rest) 12 || not (version == 2))) [
        | inl e ↦ absurd (ground arith)
        | inr e ↦ record {
          iv = take rest 12;
          ct = drop rest 12;
          key_length = ground arith;
          iv_length = length-take rest 12 (ground arith);
          layout = ground (arith, take-drop rest 12);
          deciphered = ground arith;
        }
      ]

  IsSealed-opened :
      (mk sealed bytes : Bytes) (aad : String)
      → IsSealed mk sealed aad bytes
      → open_bytes mk sealed aad ≡ opened bytes
  unfolding open_bytes aes_decrypt
  IsSealed-opened mk sealed bytes aad s =
      let iv' : take (s.iv ++ s.ct) 12 ≡ s.iv = rw (← s.iv_length) (take-append s.iv s.ct) in
      let ct' : drop (s.iv ++ s.ct) 12 ≡ s.ct = rw (← s.iv_length) (drop-append s.iv s.ct) in
      rw s.layout
        (ground (arith, iv', ct', length-append s.iv s.ct, s.key_length, s.iv_length, s.deciphered))

  -- Sealed bytes open to some bytes in a context exactly where they are the version byte 2, a nonce
  -- of twelve bytes and a rest that the cipher opens to those bytes under the key, the nonce and the
  -- context, and the key has 32 bytes.
  pub open_bytes_iff :
      (mk sealed bytes : Bytes) (aad : String)
      → (open_bytes mk sealed aad ≡ opened bytes) ↔ IsSealed mk sealed aad bytes
  open_bytes_iff mk sealed bytes aad =
      (opened-IsSealed mk sealed bytes aad, IsSealed-opened mk sealed bytes aad)
