-- ===== src/Session/Pool/Branches.antt =====
-- What `add`, `Remove` and the end of a loop do on each of their branches, read through `Get`.
use tgplane.Common.{
  string_key, ℕ, suc, ◌<◌, String, [], ◌∷◌, none, some, true, false, ◌≡◌, refl, ◌≢◌, ◌⊎◌, inl, inr,
  Option-cases, Result, ok, Result-cases, is_ok, arith,
}
use tgplane.Common.Map.{
  lookup, delete, lookup-insert, lookup-delete, lookup-Entries, length-insert_absent,
  length-delete_present,
}
use tgplane.Session.Model.{Session, SessionType, ready, authorizing, new_session, set_status}
use tgplane.Session.Hook.{on_removed}
use tgplane.Session.Pool.{
  Entry, Pool, not_found, cancel, close, Outcome, start, add_session, refuse, remove, loop_exit,
  get, len, notify,
}
use tgplane.Session.Pool.Invariant.{IsValid, Live}

-- The pool shows a new session and is as before in all else.
pub record Gains {C H : Type 0} (id : String) (t : SessionType) (p q : Pool C H) : Type 0 where
  pub was_free : get id p ≡ none
  pub shown : (s : Session) × (get id q ≡ some s) × (s.id ≡ id) × (s.type ≡ t) × (s.status ≡ ready)
  pub others : (j : String) → j ≢ id → get j q ≡ get j p
  pub one_more : len q ≡ suc (len p)

abbrev pub AddsOrFails : {C H E : Type 0} → String → SessionType → Pool C H → Outcome C H E → Type 0
AddsOrFails id t p o =
    (is_ok o.result ≡ true) × Gains id t p o.pool ⊎ (is_ok o.result ≡ false) × (o.pool ≡ p)

module _ {C H E : Type 0} where
  -- A successful add needs a free id; the pool then shows one more session, ready, of this id and
  -- type, and every other id as before. A failed add leaves the pool as it was.
  pub add_session_lem :
      (factory : String → String → String → Result E C) (now : ℕ → ℕ) (id phone token : String)
      (t : SessionType) (p : Pool C H)
      → AddsOrFails id t p (add_session factory now id phone token t p)
  unfolding add_session refuse start get len new_session set_status
  add_session_lem factory now id phone token t p = elim (Option-cases (lookup id p.sessions)) [
    | inr (e, old) ↦ rw (old, add_session) (inr (refl, refl))
    | inl free ↦ elim (Result-cases (factory id phone token)) [
      | inl (x, failed) ↦ rw (free, add_session, failed, start) (inr (refl, refl))
      | inr (c, made) ↦
          let entry : Entry C = record {
            handle = p.next_handle;
            session =
                set_status (set_status (new_session id t (now 0) (now 1)) authorizing (now 2)) ready
                  (now 3);
            client = c;
          } in
          rw (free, add_session, made, start)
            (inl (
              refl,
              record {
                was_free = ground arith;
                shown = (
                  entry.session,
                  ground (arith, lookup-insert id id entry p.sessions),
                  refl,
                  refl,
                  refl,
                );
                others = λ j ne. ground (arith, lookup-insert id j entry p.sessions);
                one_more = length-insert_absent id entry p.sessions free;
              },
            ))
    ]
  ]

  -- In a valid pool: when a session is removed and its id is added again, whether or not that succeeds,
  -- the late end of the first session's loop changes nothing and tells the hook nothing.
  pub stale_loop_exit :
      (factory : String → String → String → Result E C) (now : ℕ → ℕ) (id phone token : String)
      (t : SessionType) (p : Pool C H) (e : Entry C) (late : ℕ)
      → IsValid p
      → lookup id p.sessions ≡ some e
      → let q = (add_session factory now id phone token t (remove {E = E} id p).pool).pool in
        loop_exit {E = E} late id e.handle q ≡ record { pool = q; result = ok tt; effects = [] }
  unfolding add_session refuse start remove loop_exit
  stale_loop_exit factory now id phone token t p e late v found =
      let old = lookup-Entries (Live p.next_handle) id e p.sessions v.live found in
      let allocated : e.handle < p.next_handle = old.allocated in
      elim (Result-cases (factory id phone token)) [
        | inl (x, failed) ↦ ground (arith, lookup-delete id id p.sessions)
        | inr (c, made) ↦ ground (
          arith,
          lookup-delete id id p.sessions,
          lookup-insert id id
              (record {
                handle = p.next_handle;
                session =
                    set_status (set_status (new_session id t (now 0) (now 1)) authorizing (now 2))
                      ready (now 3);
                client = c;
              })
              (delete id p.sessions),
        )
      ]

-- The pool has lost this session and is as before in all else; its loop's context is cancelled and
-- its client closed, once each and before the hook is told.
pub record Loses {C H E : Type 0} (id : String) (p : Pool C H) (o : Outcome C H E) : Type 0 where
  pub entry : Entry C
  pub was_held : lookup id p.sessions ≡ some entry
  pub gone : get id o.pool ≡ none
  pub others : (j : String) → j ≢ id → get j o.pool ≡ get j p
  pub one_less : suc (len o.pool) ≡ len p
  pub released :
      o.effects
      ≡ cancel entry.handle
        ∷ close entry.client
        ∷ notify p (on_removed entry.session.type entry.session.status ∷ [])

module _ {C H E : Type 0} where
  -- `Remove` of an unknown id fails and changes nothing. Of a known one, in a valid pool, it stops
  -- and forgets that session alone.
  pub remove_lem :
      (id : String) (p : Pool C H) (o : Outcome C H E)
      → IsValid p
      → o ≡ remove id p
      → (o.result ≡ ok tt) × Loses id p o ⊎ (o ≡ refuse p (not_found id)) × (get id p ≡ none)
  unfolding remove refuse get len
  remove_lem id p o v made = elim (Option-cases (lookup id p.sessions)) [
    | inl missing ↦ inr (ground arith, ground arith)
    | inr (e, found) ↦ rw made (
        inl (
          ground arith,
          record {
            entry = e;
            was_held = found;
            gone = ground (arith, lookup-delete id id p.sessions);
            others = λ j ne. ground (arith, lookup-delete id j p.sessions);
            one_less = rw (found, remove) (length-delete_present id e p.sessions v.distinct found);
            released = ground arith;
          },
        ))
  ]
