-- ===== src/Bulk/Removal.antt =====
-- Sessions that a bulk request adds and another removes.
use tgplane.Common.{
  ℕ, ◌+◌, ◌^◌, ◌<◌, ◌≡◌, refl, String, List, Option, none, some, Result, ok, err, arith, length,
  inl, inr, Result-cases, Option-cases, same?_refl, string_key, nat_key, ap, ◌∙◌,
}
use tgplane.Common.Map.{lookup}
use tgplane.Crypto.{Primitives, TokenEncryptor, encrypt}
use tgplane.Repository.{Repository, create, store_row}
use tgplane.Repository.Invariant.{IsValid}
use tgplane.Bot as Bots
use tgplane.Bot.{add, new_bot}
use tgplane.Bot.Tokens.{add-get}
use tgplane.Worker.Client.{Rpc}
use tgplane.Worker.Manager.{ManagerError}
use tgplane.Worker.Manager.Balance.{Order, assign_bot}
use tgplane.Bulk.{
  State, ItemData, a_bot, a_session, add_bot_item, place_bot, finish, failed, remove_session_item,
  resolve_worker_id, unplace, worker_or_empty,
}

-- A new bot runs on no worker.
add-unassigned :
    (c : Primitives) (enc : Option (TokenEncryptor c)) (random : ℕ → Option (List ℕ))
    (uuid token : String) (r s : Repository Bots.Profile) (b : Bots.Bot)
    → add c enc random uuid token r ≡ ok (b, s)
    → b.worker_id ≡ none
unfolding add create store_row
add-unassigned c enc random uuid token r s b made =
    elim (Result-cases (encrypt c random enc token)) [
      | inl (e, failed_) ↦ absurd (ground arith)
      | inr (cipher, sealed) ↦ elim (Option-cases (lookup cipher r.by_unique)) [
        | inl free ↦ ground arith
        | inr (id, taken) ↦ absurd (ground arith)
      ]
    ]

module _ {W E : Type 0} (rpc : Rpc W E) (c : Primitives) (enc : Option (TokenEncryptor c)) where
  -- The repository of bots that an item leaves.
  finish-bots :
      {A : Type 0} (i : ℕ) (d : ItemData) (s : State W) (r : Result (ManagerError E) A × W)
      → (finish rpc c enc i d s r).1.bots ≡ s.bots
  unfolding finish failed
  finish-bots i d s (err e, w) = refl
  finish-bots i d s (ok a, w) = refl

  place_bot-bots :
      (i : ℕ) (arrive : Order) (b : Bots.Bot) (s : State W)
      → (place_bot rpc c enc i arrive b s).1.bots ≡ s.bots
  unfolding place_bot
  place_bot-bots i arrive b s = elim (Option-cases s.manager) [
    | inl e ↦ ground arith
    | inr (m, e) ↦
        ground
          (arith, finish-bots i (a_bot b) s (assign_bot rpc arrive b.session_id b.unique m s.world))
  ]

  add_bot_item-bots :
      (i : ℕ) (random : ℕ → Option (List ℕ)) (uuid token : String) (arrive : Order) (s : State W)
      (b : Bots.Bot) (r : Repository Bots.Profile)
      → add c enc random uuid token s.bots ≡ ok (b, r)
      → (add_bot_item rpc c enc i random uuid arrive token s).1.bots ≡ r
  unfolding add_bot_item
  add_bot_item-bots i random uuid token arrive s b r made =
      rw (made, add_bot_item) (place_bot-bots i arrive b (record s { bots = r }))

  -- A session that runs on no worker.
  unplace-nowhere :
      (j : ℕ) (session_id : String) (t : State W)
      → unplace rpc c enc j session_id "" t
        ≡ (record { index = j; result = ok (a_session session_id) }, t)
  unfolding unplace
  unplace-nowhere j session_id t = elim (Option-cases t.manager) [
    | inl e ↦ ground arith
    | inr (m, e) ↦ ground (arith, same?_refl {K = String} "")
  ]

  resolve_worker_id-nowhere :
      (uuid : String) (b : Bots.Bot) (t : State W)
      → Bots.get_by_session_id c enc uuid t.bots ≡ ok b
      → b.worker_id ≡ none
      → resolve_worker_id rpc c enc uuid t ≡ ok ""
  unfolding resolve_worker_id worker_or_empty
  resolve_worker_id-nowhere uuid b t found nowhere = ground arith

  -- In a valid repository of bots with ids left, and with a random source that fills what it is asked
  -- for when it succeeds: a session whose bot `AddBots` has stored, whether or not a worker took it, is
  -- reported as removed by `RemoveSessions`, which calls no worker and changes nothing.
  pub bulk_removal_misses :
      (i j : ℕ) (random : ℕ → Option (List ℕ)) (uuid token : String) (arrive : Order) (s : State W)
      (b : Bots.Bot) (r : Repository Bots.Profile)
      → ((n : ℕ) (bs : List ℕ) → random n ≡ some bs → length bs ≡ n)
      → IsValid s.bots
      → s.bots.seq + 1 < 2 ^ 64
      → add c enc random uuid token s.bots ≡ ok (b, r)
      → let t = (add_bot_item rpc c enc i random uuid arrive token s).1 in
        remove_session_item rpc c enc j uuid t
        ≡ (record { index = j; result = ok (a_session uuid) }, t)
  unfolding remove_session_item
  bulk_removal_misses i j random uuid token arrive s b r full v l made =
      let t = (add_bot_item rpc c enc i random uuid arrive token s).1 in
      let (_, _, _, found) = add-get c enc random full uuid token s.bots r b v l made in
      let kept = add_bot_item-bots i random uuid token arrive s b r made in
      ground (
        arith,
        resolve_worker_id-nowhere uuid b t (ap (Bots.get_by_session_id c enc uuid) kept ∙ found)
            (add-unassigned c enc random uuid token s.bots r b made),
        unplace-nowhere j uuid t,
      )
