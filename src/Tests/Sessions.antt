-- ===== src/Tests/Sessions.antt =====
-- The session pool at concrete inputs: clients, handlers and errors are numbers and strings.
use tgplane.Common.{
  string_key, ℕ, ◌+◌, ◌≤◌, String, List, [], ◌∷◌, none, some, true, Result, ok, ◌≡◌, refl, inl,
  arith, same?_refl,
}
use tgplane.Common.Int.{pos}
use mathlib.Core.Option
use tgplane.Common.Map.{lookup}
use tgplane.Session.Model.{account, ready}
use tgplane.Session.Hook.{no_metrics}
use tgplane.Session.Pool.{Entry, Pool, new_pool, add_session, remove, loop_exit, get}
use tgplane.Session.Pool.Calls.{Call, adds, adds_bot, removes, loop_exits, run, run_metrics}
use tgplane.Session.Pool.Invariant.{IsValid}
use tgplane.Session.Pool.Gauges.{population, gauges_count_sessions}
use tgplane.Session.Pool.Branches.{stale_loop_exit}
use tgplane.Session.Pool.Refinement.{replay, results, pool_refines}
use tgplane.Session.Pool.Loops.{run_effects, started, cancelled, held, loops_conserved}

abbrev pub factory : String → String → String → Result String ℕ
factory id phone token = ok 7

abbrev pub clock : ℕ → ℕ
clock n = n

abbrev calls : List (Call ℕ ℕ String)
calls =
    adds factory clock "a" "+1"
    ∷ adds_bot factory clock "b" "token"
    ∷ loop_exits 9 "a" 0
    ∷ removes "a"
    ∷ adds factory clock "a" "+2"
    ∷ loop_exits 9 "a" 0
    ∷ []

abbrev empty : Pool ℕ ℕ
empty = new_pool (some 5) true

gauges_count_sessions_example :
    (run_metrics empty calls no_metrics).sessions_active account ready
    ≡ pos (population account ready (run empty calls))
gauges_count_sessions_example = gauges_count_sessions (some 5) calls account ready

loops_conserved_example :
    (started 0 (run_effects empty calls) ≤ 1)
    × (started 0 (run_effects empty calls)
        ≡ held 0 (run empty calls) + cancelled 0 (run_effects empty calls))
loops_conserved_example = loops_conserved 0 (some 5) true calls

-- One account session, whose loop has the address 3.
abbrev alice : Entry ℕ
alice = record {
  handle = 3;
  session = record { id = "a"; type = account; status = ready; created_at = 1; updated_at = 2 };
  client = 7;
}

abbrev pub one : Pool ℕ ℕ
one = record { sessions = ("a", alice) ∷ []; next_handle = 4; on_update = some 5; hooked = true }

pub one-IsValid : IsValid one
unfolding lookup
one-IsValid = record {
  distinct = (refl, tt);
  live = (record { keyed = refl; allocated = omega arith; running = inl refl }, tt);
}

alice_held : lookup "a" one.sessions ≡ some alice
unfolding lookup
alice_held = ground (arith, same?_refl {K = String} "a")

stale_loop_exit_example :
    let q =
      (add_session factory clock "a" "+2" "" account (remove {E = String} "a" one).pool).pool in
    loop_exit {E = String} 9 "a" 3 q ≡ record { pool = q; result = ok tt; effects = [] }
stale_loop_exit_example =
    stale_loop_exit factory clock "a" "+2" "" account one alice 9 one-IsValid alice_held

pool_refines_example :
    let (table, returned) = replay (record { at = λ _. none; given = 0 }) calls in
    (results empty calls ≡ returned)
    × ((id : String) → get id (run empty calls) ≡ Option.map Entry.session (table.at id))
pool_refines_example = pool_refines (some 5) true calls
