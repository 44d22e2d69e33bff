-- ===== src/Session/Pool/Gauges.antt =====
-- The gauges of sessions_active count the sessions of the pool.
use tgplane.Common.{
  string_key, ℕ, ◌+◌, String, List, [], ◌∷◌, Option, none, Bool, true, ◌&&◌, ◌≡◌, refl,
  Option-cases, Bool-cases, inl, inr, ap, sym, ◌∙◌, ◌==◌, Result, ok, err, arith, same?,
  if◌then◌else◌,
}
use tgplane.Common.Int.{ℤ, pos, ◌+ℤ◌, ◌-ℤ◌}
use tgplane.Common.Map.{
  lookup, values, count_if, count-insert_absent, count-delete_present, count-modify_present,
}
use tgplane.Session.Model.{
  SessionType, Status, authorizing, ready, disconnected, new_session, set_status, session_type_key,
  status_key,
}
use tgplane.Session.Hook.{Metrics, inc_gauge, dec_gauge, record_event, no_metrics}
use tgplane.Session.Pool.{
  Entry, Pool, new_pool, start, add, add_bot, add_session, refuse, remove, loop_exit, notify,
  set_update_handler,
}
use tgplane.Session.Pool.Invariant.{IsValid, step-IsValid, new_pool-IsValid}
use tgplane.Session.Pool.Calls.{
  Call, adds, adds_bot, removes, loop_exits, sets_handler, step, run, play, run_metrics,
}

unfoldable pub has : {C : Type 0} → SessionType → Status → Entry C → Bool
has t s e = same? e.session.type t && same? e.session.status s

-- The number of sessions of this type and status in the pool.
unfoldable pub population : {C H : Type 0} → SessionType → Status → Pool C H → ℕ
population t s p = count_if (has t s) (values p.sessions)

-- The hook is set, and each gauge shows the number of such sessions.
pub record Balanced {C H : Type 0} (p : Pool C H) (m : Metrics) : Type 0 where
  pub hooked : p.hooked ≡ true
  pub shown : (t : SessionType) (s : Status) → m.sessions_active t s ≡ pos (population t s p)

-- One gauge after the two hook methods of a successful add.
added_gauge :
    (t u : SessionType) (s : Status) (g : SessionType → Status → ℤ) (n : ℕ)
    → g u s ≡ pos n
    → inc_gauge t ready (dec_gauge t authorizing (inc_gauge t authorizing g)) u s
      ≡ pos (n + (if same? t u && same? ready s then 1 else 0))
unfolding inc_gauge dec_gauge ◌+ℤ◌ ◌-ℤ◌
added_gauge t u s g n h = ground arith

removed_gauge :
    (t u : SessionType) (r s : Status) (g : SessionType → Status → ℤ) (n : ℕ)
    → g u s ≡ pos (n + (if same? t u && same? r s then 1 else 0))
    → dec_gauge t r g u s ≡ pos n
unfolding dec_gauge ◌-ℤ◌
removed_gauge t u r s g n h = ground arith

moved_gauge :
    (t u : SessionType) (old new s : Status) (g : SessionType → Status → ℤ) (n k : ℕ)
    → g u s ≡ pos n
    → k + (if same? t u && same? old s then 1 else 0)
      ≡ n + (if same? t u && same? new s then 1 else 0)
    → inc_gauge t new (dec_gauge t old g) u s ≡ pos k
unfolding inc_gauge dec_gauge ◌+ℤ◌ ◌-ℤ◌
moved_gauge t u old new s g n k h e = ground arith

module _ {C H E : Type 0} where
  start-Balanced :
      (now : ℕ → ℕ) (id : String) (t : SessionType) (p : Pool C H) (made : Result E C) (m : Metrics)
      → lookup id p.sessions ≡ none
      → Balanced p m
      → Balanced (start now id t p made).pool (play (start now id t p made).effects m)
  unfolding start notify record_event play has population new_session set_status
  start-Balanced now id t p (err e) m new b =
      rw b.hooked (record { hooked = refl; shown = b.shown })
  start-Balanced now id t p (ok c) m new b = rw b.hooked (record {
    hooked = refl;
    shown = λ u s.
        added_gauge t u s m.sessions_active (population u s p) (b.shown u s)
        ∙ ap pos (sym (count-insert_absent (has u s) id _ p.sessions new));
  })

  add_session-Balanced :
      (factory : String → String → String → Result E C) (now : ℕ → ℕ) (id phone token : String)
      (t : SessionType) (p : Pool C H) (m : Metrics)
      → Balanced p m
      → let o = add_session factory now id phone token t p in Balanced o.pool (play o.effects m)
  unfolding add_session refuse play
  add_session-Balanced factory now id phone token t p m b =
      elim (Option-cases (lookup id p.sessions)) [
        | inl new ↦
            rw (new, add_session) (start-Balanced now id t p (factory id phone token) m new b)
        | inr (e, old) ↦ rw (old, add_session) b
      ]

module _ (E : Type 0) {C H : Type 0} where
  remove-Balanced :
      (id : String) (p : Pool C H) (m : Metrics)
      → IsValid p
      → Balanced p m
      → let o = remove {E = E} id p in Balanced o.pool (play o.effects m)
  unfolding remove refuse notify play record_event has population
  remove-Balanced id p m v b = elim (Option-cases (lookup id p.sessions)) [
    | inl missing ↦ rw (missing, remove) b
    | inr (e, found) ↦
        rw (found, remove, b.hooked)
          (record {
            hooked = refl;
            shown = λ u s. removed_gauge e.session.type u e.session.status s m.sessions_active _ (
                b.shown u s
                ∙ ap pos (sym (count-delete_present (has u s) id e p.sessions v.distinct found)));
          })
  ]

  loop_exit-Balanced :
      (now : ℕ) (id : String) (handle : ℕ) (p : Pool C H) (m : Metrics)
      → Balanced p m
      → let o = loop_exit {E = E} now id handle p in Balanced o.pool (play o.effects m)
  unfolding loop_exit refuse notify play record_event has population set_status
  loop_exit-Balanced now id handle p m b = elim (Option-cases (lookup id p.sessions)) [
    | inl missing ↦ rw (missing, loop_exit) b
    | inr (e, found) ↦ elim (Bool-cases (e.handle == handle)) [
      | inr other ↦ rw (found, loop_exit, other) b
      | inl same ↦
          rw (found, loop_exit, same, b.hooked)
            (record {
              hooked = refl;
              shown = λ u s.
                  moved_gauge e.session.type u e.session.status disconnected s m.sessions_active
                    (population u s p) _ (b.shown u s)
                    (count-modify_present (has u s) id e _ p.sessions found);
            })
    ]
  ]

new_pool-Balanced : {C H : Type 0} (h : Option H) → Balanced (new_pool {C = C} h true) no_metrics
unfolding new_pool population count_if
new_pool-Balanced h = record { hooked = refl; shown = λ t s. refl }

module _ {C H E : Type 0} where
  step-Balanced :
      (p : Pool C H) (c : Call C H E) (m : Metrics)
      → IsValid p
      → Balanced p m
      → Balanced (step p c).pool (play (step p c).effects m)
  unfolding step add add_bot set_update_handler play population
  step-Balanced p (adds factory now id phone) m v b =
      add_session-Balanced factory now id phone _ _ p m b
  step-Balanced p (adds_bot factory now id token) m v b =
      add_session-Balanced factory now id _ token _ p m b
  step-Balanced p (removes id) m v b = remove-Balanced E id p m v b
  step-Balanced p (loop_exits now id handle) m v b = loop_exit-Balanced E now id handle p m b
  step-Balanced p (sets_handler h) m v b = record { hooked = b.hooked; shown = b.shown }

  run-Balanced :
      (p : Pool C H) (cs : List (Call C H E)) (m : Metrics)
      → IsValid p
      → Balanced p m
      → Balanced (run p cs) (run_metrics p cs m)
  unfolding run run_metrics
  run-Balanced p [] m v b = b
  run-Balanced p (c ∷ cs) m v b =
      run-Balanced (step p c).pool cs _ (step-IsValid p c v) (step-Balanced p c m v b)

  -- After any history of a pool that started empty with the metrics hook and all metrics at zero, the
  -- gauge sessions_active of each type and status shows the number of sessions of that type and
  -- status in the pool.
  pub gauges_count_sessions :
      (h : Option H) (cs : List (Call C H E)) (t : SessionType) (s : Status)
      → (run_metrics (new_pool h true) cs no_metrics).sessions_active t s
        ≡ pos (population t s (run (new_pool h true) cs))
  gauges_count_sessions h cs =
      (run-Balanced _ cs no_metrics (new_pool-IsValid h true) (new_pool-Balanced h)).shown
