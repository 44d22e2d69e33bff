-- ===== src/Bulk.antt =====
-- internal/bulk/service.go: one item of each bulk operation, and the summary. The source runs the
-- items of a request in goroutines, which Bulk/Parallel and Bulk/Interleaved have.
pub mod Removal
pub mod Parallel
pub mod Interleaved
use tgplane.Common.{
  ℕ, ◌+◌, ◌-◌, String, List, [], ◌∷◌, Option, none, some, map, Bool, true, false, Result, ok, err,
  is_ok, length, if◌then◌else◌, same?, string_key, not, ◌&&◌,
}
use tgplane.Common.Map.{count_if}
use tgplane.Repository.{Repository}
use tgplane.Crypto.{Primitives, TokenEncryptor}
use tgplane.Account as Accounts
use tgplane.Bot as Bots
use tgplane.Worker.Client.{Rpc}
use tgplane.Worker.Manager.{Manager, ManagerError}
use tgplane.Worker.Manager.Balance.{Order, assign_account, assign_bot, remove_session_on}

pub data ItemData : Type 0 where
  a_bot : Bots.Bot → ItemData
  an_account : Accounts.Account → ItemData
  a_session : String → ItemData

pub data ItemError (E : Type 0) : Type 0 where
  bot_failed : Bots.ServiceError → ItemError E
  account_failed : Accounts.ServiceError → ItemError E
  manager_failed : ManagerError E → ItemError E
  session_not_found : String → ItemError E

-- `OK` and `Data`, or `Error`, are the result.
pub record ItemResult (E : Type 0) : Type 0 where
  pub index : ℕ
  pub result : Result (ItemError E) ItemData

pub record BulkResult (E : Type 0) : Type 0 where
  pub total : ℕ
  pub succeeded : ℕ
  pub failed : ℕ
  pub items : List (ItemResult E)

unfoldable pub succeeds : {E : Type 0} → ItemResult E → Bool
succeeds it = is_ok it.result

unfoldable pub summarize : {E : Type 0} → List (ItemResult E) → BulkResult E
unfolding succeeds
summarize items =
    let n = count_if succeeds items in
    record { total = length items; succeeded = n; failed = length items - n; items = items }

-- What the services and the workers keep. The manager may be nil.
pub record State (W : Type 0) : Type 0 where
  pub bots : Repository Bots.Profile
  pub accounts : Repository Accounts.Profile
  pub manager : Option Manager
  pub world : W

module _ {W E : Type 0} (rpc : Rpc W E) (c : Primitives) (enc : Option (TokenEncryptor c)) where
  unfoldable pub failed : ℕ → ItemError E → State W → ItemResult E × State W
  failed i e s = (record { index = i; result = err e }, s)

  -- The end of an item, after the call of the manager.
  unfoldable pub finish :
      {A : Type 0} → ℕ → ItemData → State W → Result (ManagerError E) A × W → ItemResult E × State W
  unfolding failed
  finish i d s (err e, w) = failed i (manager_failed e) (record s { world = w })
  finish i d s (ok _, w) = (record { index = i; result = ok d }, record s { world = w })

  unfoldable pub place_bot : ℕ → Order → Bots.Bot → State W → ItemResult E × State W
  unfolding finish
  place_bot i arrive b s = elim s.manager [
    | none ↦ (record { index = i; result = ok (a_bot b) }, s)
    | some m ↦ finish i (a_bot b) s (assign_bot rpc arrive b.session_id b.unique m s.world)
  ]

  -- The function of `AddBots` at one index. A bot that no worker takes stays in the repository.
  unfoldable pub add_bot_item :
      ℕ → (ℕ → Option (List ℕ)) → String → Order → String → State W → ItemResult E × State W
  unfolding failed place_bot
  add_bot_item i random uuid arrive token s = elim (Bots.add c enc random uuid token s.bots) [
    | err e ↦ failed i (bot_failed e) s
    | ok made ↦ place_bot i arrive made.0 (record s { bots = made.1 })
  ]

  unfoldable pub place_account : ℕ → Order → Accounts.Account → State W → ItemResult E × State W
  unfolding finish
  place_account i arrive a s = elim s.manager [
    | none ↦ (record { index = i; result = ok (an_account a) }, s)
    | some m ↦ finish i (an_account a) s (assign_account rpc arrive a.session_id a.unique m s.world)
  ]

  -- The same of `AddAccounts`.
  unfoldable pub add_account_item : ℕ → String → Order → String → State W → ItemResult E × State W
  unfolding failed place_account
  add_account_item i uuid arrive phone s = elim (Accounts.add uuid phone s.accounts) [
    | err e ↦ failed i (account_failed e) s
    | ok made ↦ place_account i arrive made.0 (record s { accounts = made.1 })
  ]

  unfoldable pub worker_or_empty : Option String → String
  worker_or_empty none = ""
  worker_or_empty (some worker_id) = worker_id

  unfoldable pub resolve_worker_id : String → State W → Result (ItemError E) String
  unfolding worker_or_empty
  resolve_worker_id session_id s = elim (Bots.get_by_session_id c enc session_id s.bots) [
    | ok b ↦ ok (worker_or_empty b.worker_id)
    | err _ ↦ elim (Accounts.get_by_session_id session_id s.accounts) [
      | ok a ↦ ok (worker_or_empty a.worker_id)
      | err _ ↦ err (session_not_found session_id)
    ]
  ]

  -- A session without a worker, or without a manager, needs no call.
  unfoldable pub unplace : ℕ → String → String → State W → ItemResult E × State W
  unfolding finish
  unplace i session_id worker_id s = elim s.manager [
    | none ↦ (record { index = i; result = ok (a_session session_id) }, s)
    | some m ↦
        if same? worker_id ""
        then (record { index = i; result = ok (a_session session_id) }, s)
        else finish i (a_session session_id) s
            (remove_session_on rpc worker_id session_id m s.world)
  ]

  -- The function of `RemoveSessions` at one index.
  unfoldable pub remove_session_item : ℕ → String → State W → ItemResult E × State W
  unfolding failed unplace resolve_worker_id
  remove_session_item i session_id s = elim (resolve_worker_id session_id s) [
    | err e ↦ failed i e s
    | ok worker_id ↦ unplace i session_id worker_id s
  ]
