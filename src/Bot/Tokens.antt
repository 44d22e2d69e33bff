-- ===== src/Bot/Tokens.antt =====
-- Tokens between the caller and the repository.
use tgplane.Common.{
  string_key, ℕ, ◌+◌, ◌^◌, ◌<◌, ◌≡◌, refl, String, List, Option, none, some, ok, arith, length, inl,
  inr, Result-cases,
}
use tgplane.Common.Map.{lookup}
use tgplane.Crypto.{Primitives, TokenEncryptor, encrypt}
use tgplane.Crypto.Roundtrip.{decrypt-encrypt}
use tgplane.Repository.{Repository}
use tgplane.Repository.Invariant.{IsValid}
use tgplane.Repository.Reads.{create_lem}
use tgplane.Bot.{Bot, Profile, new_bot, add, get, get_by_session_id, decrypt_bot}

module _ (c : Primitives) (enc : Option (TokenEncryptor c)) (random : ℕ → Option (List ℕ))
    (full : (n : ℕ) (b : List ℕ) → random n ≡ some b → length b ≡ n) where
  -- In a valid repository with ids left, and with a random source that fills what it is asked for when
  -- it succeeds: a bot that was added has the token and the session id it was given, and is found, with
  -- the plaintext token, under its id and under its session id.
  pub add-get :
      (uuid token : String) (r s : Repository Profile) (b : Bot)
      → IsValid r
      → r.seq + 1 < 2 ^ 64
      → add c enc random uuid token r ≡ ok (b, s)
      → (b.unique ≡ token)
        × (b.session_id ≡ uuid)
        × (get c enc b.id s ≡ ok b)
        × (get_by_session_id c enc uuid s ≡ ok b)
  unfolding add get get_by_session_id decrypt_bot
  add-get uuid token r s b v small h = elim (Result-cases (encrypt c random enc token)) [
    | inl (x, failed) ↦ absurd (ground arith)
    | inr (cipher, done) ↦
        let back = decrypt-encrypt c enc random token cipher full done in
        elim (create_lem (new_bot uuid cipher) r v small) [
          | inl (id, taken, refused) ↦ absurd (ground arith)
          | inr (row, s', created, is, _, by_id, by_session, _) ↦ ground (arith, back)
        ]
  ]

module _ (c : Primitives) (enc : Option (TokenEncryptor c)) (random : ℕ → Option (List ℕ)) where
  -- In a valid repository with ids left, a token is added whenever its new ciphertext is not stored,
  -- whatever tokens the stored bots have.
  pub encrypted_duplicate :
      (uuid token cipher : String) (r : Repository Profile)
      → IsValid r
      → r.seq + 1 < 2 ^ 64
      → encrypt c random enc token ≡ ok cipher
      → lookup cipher r.by_unique ≡ none
      → (b : Bot) × (s : Repository Profile) × (add c enc random uuid token r ≡ ok (b, s))
        × (b.unique ≡ token)
  unfolding add
  encrypted_duplicate uuid token cipher r v small done new =
      elim (create_lem (new_bot uuid cipher) r v small) [
        | inl (id, taken, refused) ↦ absurd (ground arith)
        | inr (row, s, created, _, _, _, _, _) ↦
            (record row { unique = token }, s, ground arith, refl)
      ]
