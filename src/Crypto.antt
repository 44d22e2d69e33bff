-- ===== src/Crypto.antt =====
-- internal/crypto/token.go. AES-GCM, base64, hex and the random source are Go's standard library: a
-- record of operations with the laws that their documentation states.
pub mod Roundtrip
use tgplane.Common.{
  ℕ, ◌≡◌, String, List, [], ◌∷◌, ◌++◌, Option, none, some, Bool, true, false, Result, ok, err,
  length, take, drop, ltb, if◌then◌else◌, same?, string_key, ◌==◌,
}

pub record Primitives : Type 1 where
  pub Gcm : Type 0
  -- `aes.NewCipher` and `cipher.NewGCM`.
  pub new_gcm : List ℕ → Option Gcm
  pub nonce_size : Gcm → ℕ
  pub seal : Gcm → List ℕ → List ℕ → List ℕ
  pub unseal : Gcm → List ℕ → List ℕ → Option (List ℕ)
  pub hex_decode : String → Option (List ℕ)
  pub base64_encode : List ℕ → String
  pub base64_decode : String → Option (List ℕ)
  -- `[]byte(s)` and `string(b)`.
  pub bytes : String → List ℕ
  pub text : List ℕ → String
  pub unseal-seal :
      (g : Gcm) (nonce plaintext : List ℕ)
      → length nonce ≡ nonce_size g
      → unseal g nonce (seal g nonce plaintext) ≡ some plaintext
  pub base64-decode_encode : (b : List ℕ) → base64_decode (base64_encode b) ≡ some b
  pub text-bytes : (s : String) → text (bytes s) ≡ s

pub data CryptoError : Type 0 where
  invalid_hex_key cipher_failed no_nonce base64_failed too_short decrypt_failed : CryptoError
  key_size : ℕ → CryptoError

module _ (c : Primitives) where
  open c use {
    Gcm, new_gcm, nonce_size, seal, unseal, hex_decode, base64_encode, base64_decode, bytes, text,
  }

  -- The source's flag `enabled` is set exactly where `gcm` is.
  pub data TokenEncryptor : Type 0 where
    passthrough : TokenEncryptor
    enabled : Gcm → TokenEncryptor

  unfoldable pub new_token_encryptor : String → Result CryptoError TokenEncryptor
  new_token_encryptor hex_key =
      if same? hex_key "" then ok passthrough else elim (hex_decode hex_key) [
        | none ↦ err invalid_hex_key
        | some key ↦
            if length key == 32
            then elim (new_gcm key) [ none ↦ err cipher_failed | some g ↦ ok (enabled g) ]
            else err (key_size (length key))
      ]

  -- A nil encryptor is not enabled.
  unfoldable pub is_enabled : Option TokenEncryptor → Bool
  is_enabled none = false
  is_enabled (some passthrough) = false
  is_enabled (some (enabled g)) = true

  -- `random n` is what `io.ReadFull(rand.Reader, nonce)` reads into n bytes. `Seal` appends to the
  -- nonce.
  unfoldable pub encrypt :
      (ℕ → Option (List ℕ)) → Option TokenEncryptor → String → Result CryptoError String
  encrypt random none plaintext = ok plaintext
  encrypt random (some passthrough) plaintext = ok plaintext
  encrypt random (some (enabled g)) plaintext = elim (random (nonce_size g)) [
    | none ↦ err no_nonce
    | some nonce ↦ ok (base64_encode (nonce ++ seal g nonce (bytes plaintext)))
  ]

  unfoldable pub decrypt : Option TokenEncryptor → String → Result CryptoError String
  decrypt none ciphertext = ok ciphertext
  decrypt (some passthrough) ciphertext = ok ciphertext
  decrypt (some (enabled g)) ciphertext = elim (base64_decode ciphertext) [
    | none ↦ err base64_failed
    | some bs ↦
        if ltb (length bs) (nonce_size g)
        then err too_short
        else elim (unseal g (take (nonce_size g) bs) (drop (nonce_size g) bs)) [
          | none ↦ err decrypt_failed
          | some plaintext ↦ ok (text plaintext)
        ]
  ]
