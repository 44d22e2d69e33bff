-- ===== src/Bot.antt =====
-- internal/bot/service.go over the repository; the token, encrypted if a key is configured, is the
-- unique column.
pub mod Tokens
use tgplane.Common.{ℕ, String, List, [], ◌∷◌, Option, none, Result, ok, err, map_err, ◌>>=◌}
use tgplane.Crypto.{Primitives, TokenEncryptor, CryptoError, encrypt, decrypt}
use tgplane.Session.Model.{Status, pending}
use tgplane.Repository as Repo
use tgplane.Repository.{Row, Repository, RepoError, ListFilter}

pub record Profile : Type 0 where
  pub username : Option String
  pub tg_user_id : Option ℕ

abbrev pub Bot : Type 0
Bot = Row Profile

abbrev pub no_profile : Profile
no_profile = record { username = none; tg_user_id = none }

pub data ServiceError : Type 0 where
  encrypt_token decrypt_token : CryptoError → ServiceError
  add_bot remove_bot row_error : RepoError → ServiceError

abbrev pub new_bot : String → String → Bot
new_bot uuid token = record {
  id = 0;
  unique = token;
  session_id = uuid;
  status = pending;
  worker_id = none;
  profile = no_profile;
}

module _ (c : Primitives) (enc : Option (TokenEncryptor c)) where
  -- The row that is stored holds the ciphertext, and the caller gets the plaintext back.
  unfoldable pub add :
      (ℕ → Option (List ℕ))
      → String
      → String
      → Repository Profile
      → Result ServiceError (Bot × Repository Profile)
  add random uuid token r = do
    enc_token ← map_err encrypt_token (encrypt c random enc token)
    (b, s) ← map_err add_bot (Repo.create (new_bot uuid enc_token) r)
    ok (record b { unique = token }, s)

  -- `decryptToken`: the row with the plaintext in place of the ciphertext.
  unfoldable pub decrypt_bot : Bot → Result ServiceError Bot
  decrypt_bot b = do
    plain ← map_err decrypt_token (decrypt c enc b.unique)
    ok (record b { unique = plain })

  unfoldable pub decrypt_bots : List Bot → Result ServiceError (List Bot)
  unfolding decrypt_bot
  decrypt_bots [] = ok []
  decrypt_bots (b ∷ bs) = do plain ← decrypt_bot b; rest ← decrypt_bots bs; ok (plain ∷ rest)

  unfoldable pub get : ℕ → Repository Profile → Result ServiceError Bot
  unfolding decrypt_bot
  get id r = do b ← map_err row_error (Repo.get_by_id id r); decrypt_bot b

  unfoldable pub get_by_session_id : String → Repository Profile → Result ServiceError Bot
  unfolding decrypt_bot
  get_by_session_id session_id r = do
    b ← map_err row_error (Repo.get_by_session_id session_id r)
    decrypt_bot b

  unfoldable pub list : ListFilter → Repository Profile → Result ServiceError (List Bot)
  unfolding decrypt_bots
  list f r = decrypt_bots (Repo.list f r)

  unfoldable pub list_by_worker_id : String → Repository Profile → Result ServiceError (List Bot)
  unfolding decrypt_bots
  list_by_worker_id worker_id r = decrypt_bots (Repo.list_by_worker_id worker_id r)

unfoldable pub update_status :
    ℕ → Status → Repository Profile → Result RepoError (Repository Profile)
update_status id status r = Repo.update_status id status r

unfoldable pub update_worker_id :
    String → String → Repository Profile → Result RepoError (Repository Profile)
update_worker_id session_id worker_id r = Repo.update_worker_id session_id worker_id r

unfoldable pub remove : ℕ → Repository Profile → Result ServiceError (Repository Profile)
remove id r = map_err remove_bot (Repo.remove id r)
