-- ===== src/Bulk/Interleaved/Tables.antt =====
-- What the accounts and the bots are after bodies that run at the same time.
use tgplane.Common.{
  ℕ, String, List, [], ◌∷◌, Option, none, some, ◌≡◌, refl, ◌∙◌, Result, ok, err, get_elem?, ◌⊎◌,
  inl, inr, arith, Result-cases, Option-cases,
}
use tgplane.Crypto.{Primitives, TokenEncryptor}
use tgplane.Account as Accounts
use tgplane.Bot as Bots
use tgplane.Worker.Client.{Rpc}
use tgplane.Worker.Manager.{ManagerError}
use tgplane.Worker.Manager.Balance.{Order, assign_bot, assign_account}
use tgplane.Bulk.{
  State, ItemResult, ItemData, an_account, a_bot, failed, finish, place_bot, add_bot_item,
  place_account, add_account_item, remove_session_item, resolve_worker_id,
}
use tgplane.Bulk.Interleaved.{
  Stage, starting, halfway, ended, Bodies, go_on, run, begins, order, sequential, whole,
  add_account, assign_account_of, add_bot, assign_bot_of, resolve, remove_from,
}

module _ {S H I R : Type 0} (first : ℕ → S → (I ⊎ H) × S) (second : ℕ → H → S → I × S)
    (body : ℕ → S → S) (table : S → R)
    (reads_table : (n : ℕ) (s t : S) → table s ≡ table t → table (first n s).1 ≡ table (body n t))
    (keeps_table : (n : ℕ) (h : H) (s : S) → table (second n h s).1 ≡ table s) where
  abbrev Agrees : List ℕ → Bodies S H I → S → Type 0
  Agrees ns p s =
      table (run first second p ns).shared ≡ table (sequential body (order first second p ns) s)

  next :
      (n : ℕ) (ns : List ℕ) (p : Bodies S H I) (s : S) (o : Option (Stage H I))
      → ((q : Bodies S H I) (t : S) → table q.shared ≡ table t → Agrees ns q t)
      → table p.shared ≡ table s
      → let q = go_on first second n o p in
        table (run first second q ns).shared
        ≡ table (sequential body (begins first second n o (order first second q ns)) s)
  unfolding go_on sequential
  next n ns p s none rest h = rest p s h
  next n ns p s (some starting) rest h = rest _ (body n s) (reads_table n p.shared s h)
  next n ns p s (some (halfway a)) rest h = rest _ s (keeps_table n a p.shared ∙ h)
  next n ns p s (some (ended it)) rest h = rest p s h

  -- A table that only the first halves of the bodies read and write.
  run-sequential :
      (ns : List ℕ) (p : Bodies S H I) (s : S) → table p.shared ≡ table s → Agrees ns p s
  unfolding run order sequential
  run-sequential [] p s h = h
  run-sequential (n ∷ ns) p s h =
      next n ns p s (get_elem? p.stages n) (λ q t same. run-sequential ns q t same) h

module _ {W E : Type 0} (rpc : Rpc W E) (c : Primitives) (enc : Option (TokenEncryptor c)) where
  finish-tables :
      {A : Type 0} (i : ℕ) (d : ItemData) (s : State W) (r : Result (ManagerError E) A × W)
      → let t = (finish rpc c enc i d s r).1 in (t.accounts ≡ s.accounts) × (t.bots ≡ s.bots)
  unfolding finish failed
  finish-tables i d s (err e, w) = (refl, refl)
  finish-tables i d s (ok a, w) = (refl, refl)

  place_account-tables :
      (i : ℕ) (arrive : Order) (a : Accounts.Account) (s : State W)
      → (place_account rpc c enc i arrive a s).1.accounts ≡ s.accounts
  unfolding place_account
  place_account-tables i arrive a s = elim (Option-cases s.manager) [
    | inl nil ↦ ground arith
    | inr (m, given) ↦ ground (
      arith,
      (finish-tables i (an_account a) s
          (assign_account rpc arrive a.session_id a.unique m s.world)).0,
    )
  ]

  place_bot-tables :
      (i : ℕ) (arrive : Order) (b : Bots.Bot) (s : State W)
      → (place_bot rpc c enc i arrive b s).1.bots ≡ s.bots
  unfolding place_bot
  place_bot-tables i arrive b s = elim (Option-cases s.manager) [
    | inl nil ↦ ground arith
    | inr (m, given) ↦ ground (
      arith,
      (finish-tables i (a_bot b) s (assign_bot rpc arrive b.session_id b.unique m s.world)).1,
    )
  ]

  module _ (random : ℕ → ℕ → Option (List ℕ)) (uuid text : ℕ → String) (arrive : ℕ → Order) where
    abbrev pub account_body : ℕ → State W → State W
    account_body i s = (add_account_item rpc c enc i (uuid i) (arrive i) (text i) s).1

    abbrev pub bot_body : ℕ → State W → State W
    bot_body i s = (add_bot_item rpc c enc i (random i) (uuid i) (arrive i) (text i) s).1

    add_account-table :
        (i : ℕ) (s t : State W)
        → s.accounts ≡ t.accounts
        → (add_account rpc c enc random uuid text arrive i s).1.accounts
          ≡ (account_body i t).accounts
    unfolding add_account add_account_item failed
    add_account-table i s t same = elim (Result-cases (Accounts.add (uuid i) (text i) t.accounts)) [
      | inl (e, fails) ↦ ground (arith, same)
      | inr ((a, r), made) ↦
          ground (arith, same, place_account-tables i (arrive i) a (record t { accounts = r }))
    ]

    add_bot-table :
        (i : ℕ) (s t : State W)
        → s.bots ≡ t.bots
        → (add_bot rpc c enc random uuid text arrive i s).1.bots ≡ (bot_body i t).bots
    unfolding add_bot add_bot_item failed
    add_bot-table i s t same =
        elim (Result-cases (Bots.add c enc (random i) (uuid i) (text i) t.bots)) [
          | inl (e, fails) ↦ ground (arith, same)
          | inr ((b, r), made) ↦
              ground (arith, same, place_bot-tables i (arrive i) b (record t { bots = r }))
        ]

    -- A body with nothing between its two calls is the function of its operation at one index.
    pub whole_items :
        (i : ℕ) (s : State W)
        → (whole
              (add_account rpc c enc random uuid text arrive)
              (assign_account_of rpc c enc random uuid text arrive)
              i
              s
            ≡ add_account_item rpc c enc i (uuid i) (arrive i) (text i) s)
          × (whole
                (add_bot rpc c enc random uuid text arrive)
                (assign_bot_of rpc c enc random uuid text arrive)
                i
                s
              ≡ add_bot_item rpc c enc i (random i) (uuid i) (arrive i) (text i) s)
          × (whole
                (resolve rpc c enc random uuid text arrive)
                (remove_from rpc c enc random uuid text arrive)
                i
                s
              ≡ remove_session_item rpc c enc i (text i) s)
    unfolding whole add_account assign_account_of add_account_item add_bot assign_bot_of
        add_bot_item resolve remove_from remove_session_item failed
    whole_items i s = (
      elim (Result-cases (Accounts.add (uuid i) (text i) s.accounts)) [
        | inl (e, fails) ↦ ground arith
        | inr (made, added) ↦ ground arith
      ],
      elim (Result-cases (Bots.add c enc (random i) (uuid i) (text i) s.bots)) [
        | inl (e, fails) ↦ ground arith
        | inr (made, added) ↦ ground arith
      ],
      elim (Result-cases (resolve_worker_id rpc c enc (text i) s)) [
        | inl (e, fails) ↦ ground arith
        | inr (worker_id, known) ↦ ground arith
      ],
    )

    -- However the goroutines of `AddAccounts` interleave, the accounts are at each moment those that its
    -- bodies leave when they run one after another, in the order in which they have begun; and the
    -- same holds of the bots of `AddBots`.
    pub bulk_tables_sequential :
        (ns : List ℕ) (p : Bodies (State W) Accounts.Account (ItemResult E))
        (q : Bodies (State W) Bots.Bot (ItemResult E))
        → let first_a = add_account rpc c enc random uuid text arrive in
          let second_a = assign_account_of rpc c enc random uuid text arrive in
          let first_b = add_bot rpc c enc random uuid text arrive in
          let second_b = assign_bot_of rpc c enc random uuid text arrive in
          ((run first_a second_a p ns).shared.accounts
            ≡ (sequential account_body (order first_a second_a p ns) p.shared).accounts)
          × ((run first_b second_b q ns).shared.bots
              ≡ (sequential bot_body (order first_b second_b q ns) q.shared).bots)
    unfolding assign_account_of assign_bot_of
    bulk_tables_sequential ns p q = (
      run-sequential _ _ account_body (λ (s : State W). s.accounts) add_account-table
          (λ i a s. place_account-tables i (arrive i) a s) ns p p.shared refl,
      run-sequential _ _ bot_body (λ (s : State W). s.bots) add_bot-table
          (λ i b s. place_bot-tables i (arrive i) b s) ns q q.shared refl,
    )
