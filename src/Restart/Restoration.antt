-- ===== src/Restart/Restoration.antt =====
-- Which sessions a worker is asked for when it comes back.
use tgplane.Common.{
  string_key, nat_key, String, List, [], ◌∷◌, ◌++◌, Option, ok, err, ◌≡◌, refl, inl, inr, arith,
  Result-cases,
}
use tgplane.Crypto.{Primitives, TokenEncryptor, CryptoError, decrypt}
use tgplane.Account as Accounts
use tgplane.Account.{Account}
use tgplane.Bot as Bots
use tgplane.Bot.{Bot, Profile, ServiceError, decrypt_bot, decrypt_bots}
use tgplane.Worker.Client.{Rpc, Client}
use tgplane.Worker.Manager.{Manager}
use tgplane.Postgres.Rows.Store.{Store}
use tgplane.Restart.{bots_of_worker, on_worker_ready}

-- One token that does not decrypt fails the whole list.
decrypt_bots-fails :
    (c : Primitives) (enc : Option (TokenEncryptor c)) (pre post : List Bot) (b : Bot)
    (e : ServiceError)
    → decrypt_bot c enc b ≡ err e
    → (f : ServiceError) × (decrypt_bots c enc (pre ++ b ∷ post) ≡ err f)
unfolding decrypt_bots
decrypt_bots-fails c enc [] post b e bad = (e, ground arith)
decrypt_bots-fails c enc (x ∷ pre) post b e bad = elim (Result-cases (decrypt_bot c enc x)) [
  | inl (f, fails) ↦ (f, ground arith)
  | inr (plain, opens) ↦
      let (f, rest) = decrypt_bots-fails c enc pre post b e bad in (f, ground (arith, rest))
]

-- The calls of one kind, in the order of a list, whatever each answers.
unfoldable pub each : {A W R : Type 0} → (A → W → R × W) → List A → W → W
each call [] w = w
each call (a ∷ rest) w = each call rest (call a w).1

module _ {W E : Type 0} (rpc : Rpc W E) where
  -- One bot of a worker whose stored token does not decrypt is enough: when the worker is ready it is
  -- asked for none of its bots and none of its accounts.
  pub bad_token_stops_restore :
      {F : Type 0} (p : Primitives) (enc : Option (TokenEncryptor p)) (bots : Store Profile W F)
      (accounts : Store Accounts.Profile W F) (worker_id : String) (m : Manager) (w : W)
      (pre post : List Bot) (b : Bot) (e : CryptoError)
      → bots.rows_of_worker worker_id w ≡ ok (pre ++ b ∷ post)
      → decrypt p enc b.unique ≡ err e
      → on_worker_ready rpc p enc bots accounts worker_id m w ≡ w
  unfolding on_worker_ready bots_of_worker decrypt_bot
  bad_token_stops_restore p enc bots accounts worker_id m w pre post b e listed bad =
      let (f, fails) = decrypt_bots-fails p enc pre post b (Bots.decrypt_token e) (ground arith) in
      rw (on_worker_ready, bots_of_worker, listed, fails) refl
