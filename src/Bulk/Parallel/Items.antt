-- ===== src/Bulk/Parallel/Items.antt =====
-- The index of the item that each body returns which `AddBots`, `AddAccounts` and `RemoveSessions`
-- hand to `parallel`.
use tgplane.Common.{
  string_key, ℕ, String, List, Option, Result, ok, err, ◌≡◌, refl, inl, inr, arith, Option-cases,
  Result-cases,
}
use tgplane.Crypto.{Primitives, TokenEncryptor}
use tgplane.Account as Accounts
use tgplane.Bot as Bots
use tgplane.Worker.Client.{Rpc}
use tgplane.Worker.Manager.{ManagerError}
use tgplane.Worker.Manager.Balance.{Order, assign_bot, assign_account, remove_session_on}
use tgplane.Bulk.{
  State, ItemData, an_account, a_bot, a_session, failed, finish, place_bot, add_bot_item,
  place_account, add_account_item, resolve_worker_id, unplace, remove_session_item,
}

module _ {W E : Type 0} (rpc : Rpc W E) (c : Primitives) (enc : Option (TokenEncryptor c)) where
  finish-index :
      {A : Type 0} (i : ℕ) (d : ItemData) (s : State W) (r : Result (ManagerError E) A × W)
      → (finish rpc c enc i d s r).0.index ≡ i
  unfolding finish failed
  finish-index i d s (err e, w) = refl
  finish-index i d s (ok a, w) = refl

  pub add_bot_item-index :
      (i : ℕ) (random : ℕ → Option (List ℕ)) (uuid token : String) (arrive : Order) (s : State W)
      → (add_bot_item rpc c enc i random uuid arrive token s).0.index ≡ i
  unfolding add_bot_item place_bot failed
  add_bot_item-index i random uuid token arrive s =
      elim (Result-cases (Bots.add c enc random uuid token s.bots)) [
        | inl (e, fails) ↦ ground arith
        | inr ((b, r), made) ↦ elim (Option-cases s.manager) [
          | inl nil ↦ ground arith
          | inr (m, worker) ↦ ground (
            arith,
            finish-index i (a_bot b) (record s { bots = r })
                (assign_bot rpc arrive b.session_id b.unique m s.world),
          )
        ]
      ]

  pub add_account_item-index :
      (i : ℕ) (uuid phone : String) (arrive : Order) (s : State W)
      → (add_account_item rpc c enc i uuid arrive phone s).0.index ≡ i
  unfolding add_account_item place_account failed
  add_account_item-index i uuid phone arrive s =
      elim (Result-cases (Accounts.add uuid phone s.accounts)) [
        | inl (e, fails) ↦ ground arith
        | inr ((a, r), made) ↦ elim (Option-cases s.manager) [
          | inl nil ↦ ground arith
          | inr (m, worker) ↦ ground (
            arith,
            finish-index i (an_account a) (record s { accounts = r })
                (assign_account rpc arrive a.session_id a.unique m s.world),
          )
        ]
      ]

  pub remove_session_item-index :
      (i : ℕ) (session_id : String) (s : State W)
      → (remove_session_item rpc c enc i session_id s).0.index ≡ i
  unfolding remove_session_item unplace failed
  remove_session_item-index i session_id s =
      elim (Result-cases (resolve_worker_id rpc c enc session_id s)) [
        | inl (e, fails) ↦ ground arith
        | inr (worker_id, known) ↦ elim (Option-cases s.manager) [
          | inl nil ↦ ground arith
          | inr (m, worker) ↦ ground (
            arith,
            finish-index i (a_session session_id) s
                (remove_session_on rpc worker_id session_id m s.world),
          )
        ]
      ]
