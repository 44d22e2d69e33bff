-- ===== src/Tests/Restarts.antt =====
-- A worker that comes back, at concrete inputs.
use tgplane.Common.{string_key, nat_key, String, [], ◌∷◌, some, false, ok, err, ◌≡◌, refl}
use text.Mathlib.TextBridge.{of_list, to_list-of_list}
use tgplane.Session.Model.{ready}
use tgplane.Crypto.{decrypt, too_short}
use tgplane.Bot.{Bot, new_bot}
use tgplane.Account.{Account, new_account}
use tgplane.Repository.{Row}
use tgplane.Postgres.Rows.Store.{Store}
use tgplane.Restart.{on_worker_ready}
use tgplane.Restart.Restoration.{bad_token_stops_restore}
use tgplane.Tests.Tokens.{plain, cipher}
use tgplane.Tests.Workers.{World, rpc, two}

-- The empty text.
abbrev blank : String
blank = of_list []

-- A bot whose stored token is no ciphertext, beside an account, on the worker "w".
abbrev broken : Bot
broken = record (new_bot "u" blank) { id = 1; status = ready; worker_id = some "w" }

abbrev alice : Account
alice = record (new_account "a" "+1") { id = 1; status = ready; worker_id = some "w" }

-- Repositories of bots and of accounts that always answer these rows for the worker.
abbrev store : {D : Type 0} → Row D → Store D World String
store a = record {
  create_row = λ b w. (ok b, w);
  row_by_id = λ id w. ok a;
  list_rows = λ f w. ok (a ∷ []);
  list_text = λ status limit offset w. ok [];
  set_row_status = λ id status w. (ok tt, w);
  set_row_worker = λ session_id worker_id w. (ok tt, w);
  rows_of_worker = λ worker_id w. ok (a ∷ []);
  delete_row = λ id w. (ok tt, w);
  is_no_rows = λ e. false;
}

broken_token : decrypt plain cipher blank ≡ err too_short
unfolding decrypt
broken_token = rw (to_list-of_list []) refl

bad_token_stops_restore_example :
    on_worker_ready rpc plain cipher (store broken) (store alice) "w" two [] ≡ []
bad_token_stops_restore_example =
    bad_token_stops_restore rpc plain cipher (store broken) (store alice) "w" two [] [] [] broken
      too_short refl broken_token
