-- ===== src/Restart.antt =====
-- cmd/main/main.go: the function that `SetOnWorkerReady` is given, which starts the sessions of a
-- worker again when it has been registered. What it logs is not modelled.
pub mod Restoration
pub mod Startup
use tgplane.Common.{String, List, [], ◌∷◌, Option, Result, ok, err, map_err}
use tgplane.Crypto.{Primitives, TokenEncryptor}
use tgplane.Account as Accounts
use tgplane.Bot as Bots
use tgplane.Postgres.Rows.Store.{Store}
use tgplane.Worker.Client.{Rpc}
use tgplane.Worker.Manager.{Manager}
use tgplane.Worker.Manager.Balance.{assign_account_to_worker, assign_bot_to_worker}

-- The repository of the bots fails, or a token does not decrypt.
pub data BotsError (F : Type 0) : Type 0 where
  rows_failed : F → BotsError F
  decrypt_failed : Bots.ServiceError → BotsError F

-- `ListByWorkerID` of the service of bots, over the repository that it is given.
unfoldable pub bots_of_worker :
    {W F : Type 0}
    → (c : Primitives) → Option (TokenEncryptor c)
    → Store Bots.Profile W F
    → String
    → W
    → Result (BotsError F) (List Bots.Bot)
bots_of_worker c enc store worker_id w = elim (store.rows_of_worker worker_id w) [
  | err e ↦ err (rows_failed e)
  | ok bots ↦ map_err decrypt_failed (Bots.decrypt_bots c enc bots)
]

module _ {W E : Type 0} (rpc : Rpc W E) where
  -- The two loops; an error of a call is only logged.
  unfoldable pub restore_bots : String → List Bots.Bot → Manager → W → W
  restore_bots worker_id [] m w = w
  restore_bots worker_id (b ∷ bots) m w =
      restore_bots worker_id bots m (assign_bot_to_worker rpc worker_id b.session_id b.unique m w).1

  unfoldable pub restore_accounts : String → List Accounts.Account → Manager → W → W
  restore_accounts worker_id [] m w = w
  restore_accounts worker_id (a ∷ accounts) m w =
      restore_accounts worker_id accounts m
        (assign_account_to_worker rpc worker_id a.session_id a.unique m w).1

  -- The accounts are listed when the bots have been asked for.
  unfoldable pub accounts_again :
      {F : Type 0} → Store Accounts.Profile W F → String → Manager → W → W
  unfolding restore_accounts
  accounts_again accounts worker_id m w = elim (accounts.rows_of_worker worker_id w) [
    | err e ↦ w
    | ok rows ↦ restore_accounts worker_id rows m w
  ]

  unfoldable pub on_worker_ready :
      {F : Type 0}
      → (c : Primitives) → Option (TokenEncryptor c)
      → Store Bots.Profile W F
      → Store Accounts.Profile W F
      → String
      → Manager
      → W
      → W
  unfolding restore_bots accounts_again bots_of_worker
  on_worker_ready c enc bots accounts worker_id m w = elim (bots_of_worker c enc bots worker_id w) [
    | err e ↦ w
    | ok found ↦ accounts_again accounts worker_id m (restore_bots worker_id found m w)
  ]
