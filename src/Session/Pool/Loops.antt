-- ===== src/Session/Pool/Loops.antt =====
-- No loop is lost: the goroutines that the pool starts, against the contexts that it cancels.
use tgplane.Common.{
  string_key, ℕ, suc, ◌+◌, ◌≤◌, ◌<◌, String, List, [], ◌∷◌, ◌++◌, Option, none, Bool, false, ◌≡◌,
  refl, ◌⊎◌, inl, inr, Option-cases, Result, ok, err, arith, map, ◌==◌,
}
use tgplane.Common.Map.{
  lookup, values, count_if, count_if-append, count-insert_absent, count-delete_present,
  count-modify_present,
}
use tgplane.Session.Model.{SessionType, authorizing, ready, disconnected, new_session, set_status}
use tgplane.Session.Hook.{HookEvent, on_added, on_removed, on_error, on_status_changed}
use tgplane.Session.Pool.{
  Entry, Pool, Effect, hook, cancel, run_loop, Outcome, new_pool, start, add, add_bot, add_session,
  refuse, remove, loop_exit, notify, set_update_handler,
}
use tgplane.Session.Pool.Calls.{Call, adds, adds_bot, removes, loop_exits, sets_handler, step, run}
use tgplane.Session.Pool.Invariant.{IsValid, step-IsValid, new_pool-IsValid}

unfoldable pub run_effects : {C H E : Type 0} → Pool C H → List (Call C H E) → List (Effect C)
run_effects p [] = []
run_effects p (c ∷ cs) = (step p c).effects ++ run_effects (step p c).pool cs

module _ {C : Type 0} (h : ℕ) where
  unfoldable pub starts : Effect C → Bool
  starts (run_loop k) = k == h
  starts _ = false

  unfoldable pub cancels : Effect C → Bool
  cancels (cancel k) = k == h
  cancels _ = false

  unfoldable pub holds : Entry C → Bool
  holds e = e.handle == h

-- The loops at this address that were started, and those that are not cancelled.
abbrev pub started : {C : Type 0} → ℕ → List (Effect C) → ℕ
started h es = count_if (starts h) es

abbrev pub cancelled : {C : Type 0} → ℕ → List (Effect C) → ℕ
cancelled h es = count_if (cancels h) es

abbrev pub held : {C H : Type 0} → ℕ → Pool C H → ℕ
held h p = count_if (holds h) (values p.sessions)

module _ (C : Type 0) (h : ℕ) where
  hooks_silent :
      (es : List HookEvent)
      → (count_if (starts {C = C} h) (map hook es) ≡ 0)
        × (count_if (cancels {C = C} h) (map hook es) ≡ 0)
  unfolding count_if starts cancels
  hooks_silent [] = (refl, refl)
  hooks_silent (e ∷ es) = ground (arith, hooks_silent es)

module _ {C : Type 0} (h : ℕ) where
  notify_silent :
      {H : Type 0} (p : Pool C H) (es : List HookEvent)
      → (count_if (starts h) (notify p es) ≡ 0) × (count_if (cancels h) (notify p es) ≡ 0)
  unfolding notify count_if
  notify_silent p es = ground (arith, hooks_silent C h es)

-- What a call adds to both sides: the loops held before and started are those held after and
-- cancelled, and a loop starts at the free address only.
abbrev Conserves : {C H E : Type 0} → ℕ → Pool C H → Outcome C H E → Type 0
Conserves h p o =
    (held h p + started h o.effects ≡ held h o.pool + cancelled h o.effects)
    × (p.next_handle ≤ o.pool.next_handle)
    × ((started h o.effects ≡ 0)
        ⊎ (started h o.effects ≡ 1) × (h ≡ p.next_handle) × (o.pool.next_handle ≡ suc h))

module _ {C H E : Type 0} (h : ℕ) where
  start-Conserves :
      (now : ℕ → ℕ) (id : String) (t : SessionType) (p : Pool C H) (made : Result E C)
      → lookup id p.sessions ≡ none
      → Conserves h p (start now id t p made)
  unfolding start holds starts cancels count_if set_status
  start-Conserves now id t p (err e) new = ground (arith, notify_silent h p (on_error t ∷ []))
  start-Conserves now id t p (ok c) new =
      let told : List HookEvent = on_added t ∷ on_status_changed t authorizing ready ∷ [] in
      let begin : List (Effect C) = run_loop p.next_handle ∷ [] in
      ground (
        arith,
        notify_silent h p told,
        count_if-append (starts h) (notify p told) begin,
        count_if-append (cancels h) (notify p told) begin,
        count-insert_absent (holds h) id
            (record {
              handle = p.next_handle;
              session =
                  set_status (set_status (new_session id t (now 0) (now 1)) authorizing (now 2))
                    ready (now 3);
              client = c;
            })
            p.sessions new,
      )

  add_session-Conserves :
      (factory : String → String → String → Result E C) (now : ℕ → ℕ) (id phone token : String)
      (t : SessionType) (p : Pool C H)
      → Conserves h p (add_session factory now id phone token t p)
  unfolding add_session refuse count_if
  add_session-Conserves factory now id phone token t p =
      elim (Option-cases (lookup id p.sessions)) [
        | inl new ↦ rw (new, add_session) (start-Conserves now id t p (factory id phone token) new)
        | inr (e, old) ↦ rw (old, add_session) (refl, omega arith, inl refl)
      ]

module _ (E : Type 0) {C H : Type 0} (h : ℕ) where
  remove-Conserves : (id : String) (p : Pool C H) → IsValid p → Conserves h p (remove {E = E} id p)
  unfolding remove refuse holds starts cancels count_if
  remove-Conserves id p v = elim (Option-cases (lookup id p.sessions)) [
    | inl missing ↦ rw (missing, remove) (refl, omega arith, inl refl)
    | inr (e, found) ↦ ground (
      arith,
      notify_silent h p (on_removed e.session.type e.session.status ∷ []),
      count-delete_present (holds h) id e p.sessions v.distinct found,
    )
  ]

  loop_exit-Conserves :
      (now : ℕ) (id : String) (handle : ℕ) (p : Pool C H)
      → Conserves h p (loop_exit {E = E} now id handle p)
  unfolding loop_exit holds count_if
  loop_exit-Conserves now id handle p = elim (Option-cases (lookup id p.sessions)) [
    | inl missing ↦ rw (missing, loop_exit) (refl, omega arith, inl refl)
    | inr (e, found) ↦ ground (
      arith,
      notify_silent h p (on_status_changed e.session.type e.session.status disconnected ∷ []),
      count-modify_present (holds h) id e
          (λ (x : Entry C). record x { session = set_status x.session disconnected now }) p.sessions
          found,
    )
  ]

module _ {C H E : Type 0} (h : ℕ) where
  step-Conserves : (p : Pool C H) (c : Call C H E) → IsValid p → Conserves h p (step p c)
  unfolding step add add_bot set_update_handler count_if
  step-Conserves p (adds factory now id phone) v =
      add_session-Conserves h factory now id phone _ _ p
  step-Conserves p (adds_bot factory now id token) v =
      add_session-Conserves h factory now id _ token _ p
  step-Conserves p (removes id) v = remove-Conserves E h id p v
  step-Conserves p (loop_exits now id handle) v = loop_exit-Conserves E h now id handle p
  step-Conserves p (sets_handler _) v = (refl, omega arith, inl refl)

  run-Conserves :
      (p : Pool C H) (cs : List (Call C H E))
      → IsValid p
      → (held h p + started h (run_effects p cs)
          ≡ held h (run p cs) + cancelled h (run_effects p cs))
        × (started h (run_effects p cs) ≤ 1)
        × (h < p.next_handle → started h (run_effects p cs) ≡ 0)
  unfolding run run_effects count_if
  run-Conserves p [] v = (refl, omega arith, λ l. refl)
  run-Conserves p (c ∷ cs) v =
      let q = (step p c).pool in
      let es = (step p c).effects in
      let later = run_effects q cs in
      ground (
        arith,
        step-Conserves p c v,
        run-Conserves q cs (step-IsValid p c v),
        count_if-append (starts h) es later,
        count_if-append (cancels h) es later,
      )

  -- After any history of a pool that started empty, the loop at an address has been started at most
  -- once, and each started loop is either still held by the pool or has had its context cancelled,
  -- exactly once.
  pub loops_conserved :
      (u : Option H) (hooked : Bool) (cs : List (Call C H E))
      → let p : Pool C H = new_pool u hooked in
        (started h (run_effects p cs) ≤ 1)
        × (started h (run_effects p cs) ≡ held h (run p cs) + cancelled h (run_effects p cs))
  unfolding new_pool count_if
  loops_conserved u hooked cs =
      omega (arith, run-Conserves (new_pool u hooked) cs (new_pool-IsValid u hooked))
