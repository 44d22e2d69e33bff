-- ===== src/Crypto/Roundtrip.antt =====
-- Decryption undoes encryption.
use tgplane.Common.{
  inl, inr, ℕ, ◌≡◌, ap, String, List, ◌++◌, Option, none, some, ok, length, take, drop, arith,
  length-append, take-append, drop-append, Option-cases,
}
use tgplane.Crypto.{Primitives, TokenEncryptor, passthrough, enabled, encrypt, decrypt}

module _ (c : Primitives) where
  open c use {nonce_size, seal, bytes, unseal-seal, base64-decode_encode, text-bytes}

  -- What is encrypted, under any encryptor, the nil one and the passthrough included, decrypts to the
  -- plaintext, as long as the random source fills the whole nonce when it succeeds.
  pub decrypt-encrypt :
      (e : Option (TokenEncryptor c)) (random : ℕ → Option (List ℕ)) (plaintext ciphertext : String)
      → ((n : ℕ) (b : List ℕ) → random n ≡ some b → length b ≡ n)
      → encrypt c random e plaintext ≡ ok ciphertext
      → decrypt c e ciphertext ≡ ok plaintext
  unfolding encrypt decrypt
  decrypt-encrypt none random plaintext ciphertext full h = ground arith
  decrypt-encrypt (some passthrough) random plaintext ciphertext full h = ground arith
  decrypt-encrypt (some (enabled g)) random plaintext ciphertext full h =
      elim (Option-cases (random (nonce_size g))) [
        | inl failed ↦ absurd (ground arith)
        | inr (nonce, drawn) ↦
            let size : length nonce ≡ nonce_size g = full (nonce_size g) nonce drawn in
            let sealed : List ℕ = seal g nonce (bytes plaintext) in
            ground (
              arith,
              base64-decode_encode (nonce ++ sealed),
              length-append nonce sealed,
              ap (λ (n : ℕ). take n (nonce ++ sealed)) size,
              ap (λ (n : ℕ). drop n (nonce ++ sealed)) size,
              take-append nonce sealed,
              drop-append nonce sealed,
              unseal-seal g nonce (bytes plaintext) size,
              text-bytes plaintext,
            )
      ]
