-- ===== src/Session/Pool/Invariant.antt =====
-- What holds of the pool after any history.
use tgplane.Common.{
  string_key, ℕ, suc, ◌<◌, String, List, [], ◌∷◌, Option, Bool, ◌≡◌, refl, ◌⊎◌, inl, inr, Result,
  ok, err, arith,
}
use tgplane.Common.Map.{
  modify, Distinct, Entries, insert-Distinct, delete-Distinct, modify-Distinct, insert-Entries,
  delete-Entries, modify-Entries,
}
use tgplane.Session.Model.{SessionType, ready, disconnected, new_session, set_status}
use tgplane.Session.Pool.{
  Entry, Pool, new_pool, start, add, add_bot, add_session, remove, loop_exit, set_update_handler,
}
use tgplane.Session.Pool.Calls.{Call, adds, adds_bot, removes, loop_exits, sets_handler, step, run}

-- The entry stands under its session's id, its address is not free, and its session runs or has
-- lost its loop.
pub record Live {C : Type 0} (n : ℕ) (id : String) (e : Entry C) : Type 0 where
  pub keyed : e.session.id ≡ id
  pub allocated : e.handle < n
  pub running : (e.session.status ≡ ready) ⊎ (e.session.status ≡ disconnected)

pub record IsValid {C H : Type 0} (p : Pool C H) : Type 0 where
  pub distinct : Distinct p.sessions
  pub live : Entries (Live p.next_handle) p.sessions

Live-mono : {C : Type 0} (n : ℕ) (id : String) (e : Entry C) → Live n id e → Live (suc n) id e
Live-mono n id e l = record { keyed = l.keyed; allocated = omega arith; running = l.running }

Entries-Live-mono :
    {C : Type 0} (n : ℕ) (m : List (String × Entry C))
    → Entries (Live n) m
    → Entries (Live (suc n)) m
Entries-Live-mono n [] a = tt
Entries-Live-mono n ((id, e) ∷ m) a = (Live-mono n id e a.0, Entries-Live-mono n m a.1)

module _ {C H E : Type 0} where
  start-IsValid :
      (now : ℕ → ℕ) (id : String) (t : SessionType) (p : Pool C H) (made : Result E C)
      → IsValid p
      → IsValid (start now id t p made).pool
  unfolding start new_session set_status
  start-IsValid now id t p (err e) v = v
  start-IsValid now id t p (ok c) v = record {
    distinct = insert-Distinct id _ p.sessions v.distinct;
    live =
        insert-Entries (Live (suc p.next_handle)) id _ p.sessions
          (record { keyed = refl; allocated = omega arith; running = inl refl })
          (Entries-Live-mono p.next_handle p.sessions v.live);
  }

  add_session-IsValid :
      (factory : String → String → String → Result E C) (now : ℕ → ℕ) (id phone token : String)
      (t : SessionType) (p : Pool C H)
      → IsValid p
      → IsValid (add_session factory now id phone token t p).pool
  unfolding add_session
  add_session-IsValid factory now id phone token t p v =
      ground (arith, start-IsValid now id t p (factory id phone token))

module _ (E : Type 0) {C H : Type 0} where
  remove-IsValid : (id : String) (p : Pool C H) → IsValid p → IsValid (remove {E = E} id p).pool
  unfolding remove
  remove-IsValid id p v = ground (
    arith,
    delete-Distinct id p.sessions v.distinct,
    delete-Entries (Live p.next_handle) id p.sessions v.live,
  )

  loop_exit-IsValid :
      (now : ℕ) (id : String) (handle : ℕ) (p : Pool C H)
      → IsValid p
      → IsValid (loop_exit {E = E} now id handle p).pool
  unfolding loop_exit set_status
  loop_exit-IsValid now id handle p v = ground (arith, off-IsValid)
    where
      off : Entry C → Entry C
      off e = record e { session = set_status e.session disconnected now }

      off-Live : (j : String) (e : Entry C) → Live p.next_handle j e → Live p.next_handle j (off e)
      off-Live j e l = record { keyed = l.keyed; allocated = l.allocated; running = inr refl }

      off-IsValid : IsValid (record p { sessions = modify id off p.sessions })
      off-IsValid = record {
        distinct = modify-Distinct id off p.sessions v.distinct;
        live = modify-Entries (Live p.next_handle) id off p.sessions off-Live v.live;
      }

module _ {C H E : Type 0} where
  -- Every call keeps the pool valid, when it fails too.
  pub step-IsValid : (p : Pool C H) (c : Call C H E) → IsValid p → IsValid (step p c).pool
  unfolding step add add_bot set_update_handler
  step-IsValid p (adds factory now id phone) v = add_session-IsValid factory now id phone _ _ p v
  step-IsValid p (adds_bot factory now id token) v =
      add_session-IsValid factory now id _ token _ p v
  step-IsValid p (removes id) v = remove-IsValid E id p v
  step-IsValid p (loop_exits now id handle) v = loop_exit-IsValid E now id handle p v
  step-IsValid p (sets_handler h) v = record { distinct = v.distinct; live = v.live }

  pub run-IsValid : (p : Pool C H) (cs : List (Call C H E)) → IsValid p → IsValid (run p cs)
  unfolding run
  run-IsValid p [] v = v
  run-IsValid p (c ∷ cs) v = run-IsValid (step p c).pool cs (step-IsValid p c v)

pub new_pool-IsValid : {C H : Type 0} (h : Option H) (b : Bool) → IsValid (new_pool {C = C} h b)
unfolding new_pool
new_pool-IsValid h b = record { distinct = tt; live = tt }
