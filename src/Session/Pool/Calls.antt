-- ===== src/Session/Pool/Calls.antt =====
-- Histories of the pool: any sequence of its calls and of event loops that end, with the metrics
-- that the hook keeps beside it.
use tgplane.Common.{ℕ, String, List, [], ◌∷◌, Result, ok}
use tgplane.Session.Hook.{Metrics, record_event}
use tgplane.Session.Pool.{
  Pool, Effect, hook, cancel, close, run_loop, Outcome, add, add_bot, remove, loop_exit,
  set_update_handler,
}

-- Each call has its own readings of the clock and its own answers of the factory.
pub data Call (C H E : Type 0) : Type 0 where
  adds adds_bot : (String → String → String → Result E C) → (ℕ → ℕ) → String → String → Call C H E
  removes : String → Call C H E
  loop_exits : ℕ → String → ℕ → Call C H E
  sets_handler : H → Call C H E

module _ {C H E : Type 0} where
  unfoldable pub step : Pool C H → Call C H E → Outcome C H E
  unfolding add add_bot remove loop_exit set_update_handler
  step p (adds factory now id phone) = add factory now id phone p
  step p (adds_bot factory now id token) = add_bot factory now id token p
  step p (removes id) = remove id p
  step p (loop_exits now id handle) = loop_exit now id handle p
  step p (sets_handler h) = record { pool = set_update_handler h p; result = ok tt; effects = [] }

  unfoldable pub run : Pool C H → List (Call C H E) → Pool C H
  run p [] = p
  run p (c ∷ cs) = run (step p c).pool cs

-- The hook methods among the effects, played on the metrics.
unfoldable pub play : {C : Type 0} → List (Effect C) → Metrics → Metrics
play [] m = m
play (hook e ∷ es) m = play es (record_event e m)
play (cancel _ ∷ es) m = play es m
play (close _ ∷ es) m = play es m
play (run_loop _ ∷ es) m = play es m

unfoldable pub run_metrics : {C H E : Type 0} → Pool C H → List (Call C H E) → Metrics → Metrics
run_metrics p [] m = m
run_metrics p (c ∷ cs) m = run_metrics (step p c).pool cs (play (step p c).effects m)
