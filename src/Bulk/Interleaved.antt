-- ===== src/Bulk/Interleaved.antt =====
-- internal/bulk/service.go: the bodies that `parallel` runs, with those of other goroutines between
-- the call of the service and the call of the manager. Each of these calls is one step.
pub mod Tables
use tgplane.Common.{
  ℕ, String, List, [], ◌∷◌, Option, none, some, Result, ok, err, get_elem?, set, ◌⊎◌, inl, inr,
}
use tgplane.Crypto.{Primitives, TokenEncryptor}
use tgplane.Account as Accounts
use tgplane.Bot as Bots
use tgplane.Worker.Client.{Rpc}
use tgplane.Worker.Manager.Balance.{Order}
use tgplane.Bulk.{
  State, ItemResult, bot_failed, account_failed, failed, place_bot, place_account,
  resolve_worker_id, unplace,
}

-- A body has not begun, has what the service has returned, or has written its item.
pub data Stage (H I : Type 0) : Type 0 where
  starting : Stage H I
  halfway : H → Stage H I
  ended : I → Stage H I

pub record Bodies (S H I : Type 0) : Type 0 where
  pub stages : List (Stage H I)
  pub shared : S

-- After the call of the service.
unfoldable pub served : {H I : Type 0} → I ⊎ H → Stage H I
served (inl it) = ended it
served (inr h) = halfway h

module _ {S H I : Type 0} (first : ℕ → S → (I ⊎ H) × S) (second : ℕ → H → S → I × S) where
  unfoldable pub go_on : ℕ → Option (Stage H I) → Bodies S H I → Bodies S H I
  unfolding served
  go_on n none p = p
  go_on n (some starting) p =
      let (made, s) = first n p.shared in
      record { stages = set p.stages n (served made); shared = s }
  go_on n (some (halfway h)) p =
      let (it, s) = second n h p.shared in record { stages = set p.stages n (ended it); shared = s }
  go_on n (some (ended it)) p = p

  -- The goroutines go on in this order.
  unfoldable pub run : Bodies S H I → List ℕ → Bodies S H I
  unfolding go_on
  run p [] = p
  run p (n ∷ ns) = run (go_on n (get_elem? p.stages n) p) ns

  abbrev pub begins : ℕ → Option (Stage H I) → List ℕ → List ℕ
  begins n (some starting) rest = n ∷ rest
  begins n _ rest = rest

  -- The bodies in the order in which they begin.
  unfoldable pub order : Bodies S H I → List ℕ → List ℕ
  unfolding go_on
  order p [] = []
  order p (n ∷ ns) = begins n (get_elem? p.stages n) (order (go_on n (get_elem? p.stages n) p) ns)

  -- A body with nothing in between.
  unfoldable pub whole : ℕ → S → I × S
  whole n s = elim (first n s).0 [ inl it ↦ (it, (first n s).1) | inr h ↦ second n h (first n s).1 ]

-- One body after another.
unfoldable pub sequential : {S : Type 0} → (ℕ → S → S) → List ℕ → S → S
sequential body [] s = s
sequential body (n ∷ ns) s = sequential body ns (body n s)

module _ {W E : Type 0} (rpc : Rpc W E) (c : Primitives) (enc : Option (TokenEncryptor c))
    (random : ℕ → ℕ → Option (List ℕ)) (uuid text : ℕ → String) (arrive : ℕ → Order) where
  -- `AddAccounts`, where `text` gives the phones of the requests.
  unfoldable pub add_account : ℕ → State W → (ItemResult E ⊎ Accounts.Account) × State W
  unfolding failed
  add_account i s = elim (Accounts.add (uuid i) (text i) s.accounts) [
    | err e ↦ (inl (failed rpc c enc i (account_failed e) s).0, s)
    | ok made ↦ (inr made.0, record s { accounts = made.1 })
  ]

  unfoldable pub assign_account_of : ℕ → Accounts.Account → State W → ItemResult E × State W
  unfolding place_account
  assign_account_of i a s = place_account rpc c enc i (arrive i) a s

  -- `AddBots`, where it gives the tokens.
  unfoldable pub add_bot : ℕ → State W → (ItemResult E ⊎ Bots.Bot) × State W
  unfolding failed
  add_bot i s = elim (Bots.add c enc (random i) (uuid i) (text i) s.bots) [
    | err e ↦ (inl (failed rpc c enc i (bot_failed e) s).0, s)
    | ok made ↦ (inr made.0, record s { bots = made.1 })
  ]

  unfoldable pub assign_bot_of : ℕ → Bots.Bot → State W → ItemResult E × State W
  unfolding place_bot
  assign_bot_of i b s = place_bot rpc c enc i (arrive i) b s

  -- `RemoveSessions`, where it gives the session ids.
  unfoldable pub resolve : ℕ → State W → (ItemResult E ⊎ String) × State W
  unfolding failed resolve_worker_id
  resolve i s = elim (resolve_worker_id rpc c enc (text i) s) [
    | err e ↦ (inl (failed rpc c enc i e s).0, s)
    | ok worker_id ↦ (inr worker_id, s)
  ]

  unfoldable pub remove_from : ℕ → String → State W → ItemResult E × State W
  unfolding unplace
  remove_from i worker_id s = unplace rpc c enc i (text i) worker_id s
