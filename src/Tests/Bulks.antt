-- ===== src/Tests/Bulks.antt =====
-- The bulk operations at concrete inputs.
use tgplane.Common.{
  List, if◌then◌else◌, ◌==◌, String, ℕ, ◌*◌, ◌<◌, ◌≤◌, [], ◌∷◌, none, some, ok, ◌≡◌, length, arith,
}
use tgplane.Repository.{new_repository}
use tgplane.Bulk.{State, ItemResult, a_session, add_bot_item, remove_session_item}
use tgplane.Bulk.Parallel.{
  here, Group, indices, unwritten, write, read, spawned, Step, acquires, returns, Steps, done,
  then_,
}
use tgplane.Bulk.Parallel.Completion.{parallel_lem}
use tgplane.Bulk.Parallel.Items.{remove_session_item-index}
use tgplane.Bulk.Removal.{bulk_removal_misses}
use tgplane.Bulk.Interleaved.{
  starting, Bodies, run, order, sequential, add_account, assign_account_of, add_bot, assign_bot_of,
}
use tgplane.Bulk.Interleaved.Tables.{account_body, bot_body, bulk_tables_sequential}
use tgplane.Tests.Tokens.{plain, random, cipher, one, fills, one-IsValid, ids_left, again}
use tgplane.Tests.Workers.{World, rpc, two, in_order}

abbrev state : State World
state = record { bots = one; accounts = new_repository; manager = some two; world = [] }

bulk_removal_misses_example :
    let t = (add_bot_item rpc plain cipher 0 (random 1) "v" in_order "bot" state).1 in
    remove_session_item rpc plain cipher 3 "v" t
    ≡ (record { index = 3; result = ok (a_session "v") }, t)
bulk_removal_misses_example =
    bulk_removal_misses rpc plain cipher 0 3 (random 1) "v" "bot" in_order state again.0 again.1
      (fills 1) one-IsValid ids_left again.2

-- RemoveSessions of one session, and the end of its goroutine.
abbrev removal : ℕ → State World → ItemResult String × State World
removal i s = remove_session_item rpc plain cipher i "v" s

abbrev Own : ℕ → ItemResult String → Type 0
Own i it = it.index ≡ i

abbrev running : Group (State World) (ItemResult String)
running = record { waiting = []; running = 0 ∷ []; results = none ∷ []; shared = state }

abbrev finished : Group (State World) (ItemResult String)
finished = record {
  waiting = [];
  running = [];
  results = write 0 (removal 0 state).0 (none ∷ []);
  shared = (removal 0 state).1;
}

goes : Steps removal 10 (spawned 1 state) 2 finished
unfolding spawned indices unwritten
goes =
    then_ 1 running finished
      (then_ 0 (spawned 1 state) running done (acquires 0 [] (here 0 []) (omega arith)))
      (returns 0 [] (here 0 []))

parallel_lem_example :
    (length finished.running ≤ 10)
    × (2 ≤ 2 * 1)
    × (2 < 2 * 1 → (q : Group (State World) (ItemResult String)) × Step removal 10 finished q)
    × (2 ≡ 2 * 1
        → (finished.waiting ≡ [])
          × (finished.running ≡ [])
          × (length finished.results ≡ 1)
          × ((j : ℕ)
              → j < 1
              → (it : ItemResult String) × (read j finished.results ≡ some it) × Own j it))
parallel_lem_example =
    parallel_lem removal 10 1 Own (λ i s. remove_session_item-index rpc plain cipher i "v" s) 2
      state finished (omega arith) goes

-- Two requests of a bulk operation, none of which has begun.
abbrev none_begun : {H : Type 0} → Bodies (State World) H (ItemResult String)
none_begun = record { stages = starting ∷ starting ∷ []; shared = state }

abbrev schedule : List ℕ
schedule = 0 ∷ 1 ∷ 1 ∷ 0 ∷ []

abbrev uuids : ℕ → String
uuids i = if i == 0 then "v" else "w"

abbrev texts : ℕ → String
texts i = if i == 0 then "+1" else "+2"

bulk_tables_sequential_example :
    let first_a = add_account rpc plain cipher random uuids texts (λ i. in_order) in
    let second_a = assign_account_of rpc plain cipher random uuids texts (λ i. in_order) in
    let first_b = add_bot rpc plain cipher random uuids texts (λ i. in_order) in
    let second_b = assign_bot_of rpc plain cipher random uuids texts (λ i. in_order) in
    ((run first_a second_a none_begun schedule).shared.accounts
      ≡ (sequential
          (account_body rpc plain cipher random uuids texts (λ i. in_order))
          (order first_a second_a none_begun schedule)
          state).accounts)
    × ((run first_b second_b none_begun schedule).shared.bots
        ≡ (sequential
            (bot_body rpc plain cipher random uuids texts (λ i. in_order))
            (order first_b second_b none_begun schedule)
            state).bots)
bulk_tables_sequential_example =
    bulk_tables_sequential rpc plain cipher random uuids texts (λ i. in_order) schedule none_begun
      none_begun
