-- ===== src/Session/Pool/Refinement.antt =====
-- The pool as its callers see it: a table of sessions by id, without an order, a handler or effects.
use tgplane.Common.{
  string_key, ℕ, suc, String, List, [], ◌∷◌, Option, none, some, Bool, Result, ok, err, ◌≡◌, refl,
  sym, ap, arith, if◌then◌else◌, same?, ◌==◌, Option-cases, Bool-cases, Result-cases, inl, inr,
  same?→eq,
}
use mathlib.Core.Option
use tgplane.Common.Map.{lookup, lookup-insert, lookup-delete, lookup-modify}
use tgplane.Session.Model.{
  SessionType, account, bot, authorizing, ready, disconnected, new_session, set_status,
}
use tgplane.Session.Pool.{
  Entry, Pool, PoolError, already_exists, not_found, init_failed, new_pool, add_session, start,
  refuse, add, add_bot, remove, loop_exit, set_update_handler, get,
}
use tgplane.Session.Pool.Calls.{Call, adds, adds_bot, removes, loop_exits, sets_handler, step, run}

-- What stands under each id, and how many addresses have been given out.
pub record Table (C : Type 0) : Type 0 where
  pub at : String → Option (Entry C)
  pub given : ℕ

-- The table with one id changed.
unfoldable pub put : {C : Type 0} → String → Option (Entry C) → Table C → Table C
put id e t = record t { at = λ j. if same? id j then e else t.at j }

-- A session on the way from creation to `ready`, and one whose loop has ended.
unfoldable pub started : {C : Type 0} → (ℕ → ℕ) → String → SessionType → ℕ → C → Entry C
started now id t handle c = record {
  handle = handle;
  session =
      set_status (set_status (new_session id t (now 0) (now 1)) authorizing (now 2)) ready (now 3);
  client = c;
}

-- The end of a loop marks the session whose loop it is, and only that.
unfoldable pub lose : {C : Type 0} → ℕ → String → ℕ → Table C → Table C
unfolding put
lose now id handle s = elim (s.at id) [
  | none ↦ s
  | some e ↦
      if e.handle == handle
      then put id (some (record e { session = set_status e.session disconnected now })) s
      else s
]

module _ {C E : Type 0} where
  -- An id is taken once; a client that cannot be made leaves no trace.
  unfoldable pub enter :
      (String → String → String → Result E C)
      → (ℕ → ℕ)
      → String
      → String
      → String
      → SessionType
      → Table C
      → Table C × Result (PoolError E) (Unit {0})
  unfolding put started
  enter factory now id phone token t s = elim (s.at id) [
    | some _ ↦ (s, err (already_exists id))
    | none ↦ elim (factory id phone token) [
      | err e ↦ (s, err (init_failed id e))
      | ok c ↦
          (record (put id (some (started now id t s.given c)) s) { given = suc s.given }, ok tt)
    ]
  ]

  unfoldable pub specified :
      {H : Type 0} → Table C → Call C H E → Table C × Result (PoolError E) (Unit {0})
  unfolding enter lose put
  specified s (adds factory now id phone) = enter factory now id phone "" account s
  specified s (adds_bot factory now id token) = enter factory now id "" token bot s
  specified s (removes id) = elim (s.at id) [
    | none ↦ (s, err (not_found id))
    | some _ ↦ (put id none s, ok tt)
  ]
  specified s (loop_exits now id handle) = (lose now id handle s, ok tt)
  specified s (sets_handler h) = (s, ok tt)

  unfoldable pub replay :
      {H : Type 0} → Table C → List (Call C H E) → Table C × List (Result (PoolError E) (Unit {0}))
  unfolding specified
  replay s [] = (s, [])
  replay s (c ∷ cs) =
      let (t, result) = specified s c in let (end, results) = replay t cs in (end, result ∷ results)

  -- What the calls of a history return.
  unfoldable pub results :
      {H : Type 0} → Pool C H → List (Call C H E) → List (Result (PoolError E) (Unit {0}))
  results p [] = []
  results p (c ∷ cs) = (step p c).result ∷ results (step p c).pool cs

pub record Shows {C H : Type 0} (p : Pool C H) (s : Table C) : Type 0 where
  pub same : (id : String) → lookup id p.sessions ≡ s.at id
  pub given : p.next_handle ≡ s.given

module _ {C H E : Type 0} where
  add_session-Shows :
      (factory : String → String → String → Result E C) (now : ℕ → ℕ) (id phone token : String)
      (t : SessionType) (p : Pool C H) (s : Table C)
      → Shows p s
      → let o = add_session factory now id phone token t p in
        let spec = enter factory now id phone token t s in Shows o.pool spec.0 × (o.result ≡ spec.1)
  unfolding add_session start refuse enter put started
  add_session-Shows factory now id phone token t p s h =
      let here : s.at id ≡ lookup id p.sessions = sym (h.same id) in
      elim (Option-cases (lookup id p.sessions)) [
        | inr (e, old) ↦ rw (here, old, add_session, enter) (h, refl)
        | inl free ↦ elim (Result-cases (factory id phone token)) [
          | inl (x, failed) ↦ rw (here, free, add_session, enter, failed, start) (h, refl)
          | inr (c, made) ↦
              rw (here, free, add_session, enter, made, start)
                (
                  record {
                    same = λ j. ground (
                      arith,
                      lookup-insert id j (started now id t p.next_handle c) p.sessions,
                      h.same j,
                      h.given,
                    );
                    given = ap suc h.given;
                  },
                  refl,
                )
        ]
      ]

  remove-Shows :
      (id : String) (p : Pool C H) (s : Table C)
      → Shows p s
      → let o = remove {E = E} id p in
        let spec = specified {E = E} {H = H} s (removes id) in
        Shows o.pool spec.0 × (o.result ≡ spec.1)
  unfolding remove refuse specified put
  remove-Shows id p s h =
      let here : s.at id ≡ lookup id p.sessions = sym (h.same id) in
      elim (Option-cases (lookup id p.sessions)) [
        | inl free ↦ rw (here, free, remove, specified) (h, refl)
        | inr (e, old) ↦
            rw (here, old, remove, specified)
              (
                record {
                  same = λ j. ground (arith, lookup-delete id j p.sessions, h.same j);
                  given = h.given;
                },
                refl,
              )
      ]

  loop_exit-Shows :
      (now : ℕ) (id : String) (handle : ℕ) (p : Pool C H) (s : Table C)
      → Shows p s
      → let o = loop_exit {E = E} now id handle p in
        Shows o.pool (lose now id handle s) × (o.result ≡ ok tt)
  unfolding loop_exit lose put
  loop_exit-Shows now id handle p s h =
      let here : s.at id ≡ lookup id p.sessions = sym (h.same id) in
      elim (Option-cases (lookup id p.sessions)) [
        | inl free ↦ rw (here, free, loop_exit, lose) (h, refl)
        | inr (e, old) ↦ elim (Bool-cases (e.handle == handle)) [
          | inr other ↦ rw (here, old, loop_exit, lose, other) (h, refl)
          | inl mine ↦
              rw (here, old, loop_exit, lose, mine)
                (
                  record {
                    same = λ j. ground (
                      arith,
                      lookup-modify id j
                          (λ (x : Entry C). record x {
                            session = set_status x.session disconnected now;
                          })
                          p.sessions,
                      h.same j,
                      same?→eq id j,
                    );
                    given = h.given;
                  },
                  refl,
                )
        ]
      ]

  pub step-Shows :
      (p : Pool C H) (c : Call C H E) (s : Table C)
      → Shows p s
      → Shows (step p c).pool (specified s c).0 × ((step p c).result ≡ (specified s c).1)
  unfolding step specified add add_bot set_update_handler
  step-Shows p (adds factory now id phone) s h =
      add_session-Shows factory now id phone "" account p s h
  step-Shows p (adds_bot factory now id token) s h =
      add_session-Shows factory now id "" token bot p s h
  step-Shows p (removes id) s h = remove-Shows id p s h
  step-Shows p (loop_exits now id handle) s h = loop_exit-Shows now id handle p s h
  step-Shows p (sets_handler f) s h = (record { same = h.same; given = h.given }, refl)

  -- A pool that shows a table shows, after any history of calls, the table that the calls leave by
  -- their specification, and each call returns what its specification says.
  pub run-Shows :
      (p : Pool C H) (cs : List (Call C H E)) (s : Table C)
      → Shows p s
      → Shows (run p cs) (replay s cs).0 × (results p cs ≡ (replay s cs).1)
  unfolding run replay results
  run-Shows p [] s h = (h, refl)
  run-Shows p (c ∷ cs) s h =
      let (shown, returned) = step-Shows p c s h in
      let (end, rest) = run-Shows (step p c).pool cs (specified s c).0 shown in
      (end, ground (arith, returned, rest))

  -- Whatever the history of a new pool: each of its calls has returned what the specification of the
  -- calls on a table says, and `Get` shows under each id the session that the table then holds.
  pub pool_refines :
      (handler : Option H) (hooked : Bool) (cs : List (Call C H E))
      → let p = new_pool handler hooked in
        let (table, returned) = replay (record { at = λ _. none; given = 0 }) cs in
        (results p cs ≡ returned)
        × ((id : String) → get id (run p cs) ≡ Option.map Entry.session (table.at id))
  unfolding new_pool lookup get
  pool_refines handler hooked cs =
      let (shown, returned) =
        run-Shows (new_pool handler hooked) cs (record { at = λ _. none; given = 0 })
          (record { same = λ id. refl; given = refl }) in
      (returned, λ id. ground (arith, shown.same id))
