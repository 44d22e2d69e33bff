-- ===== src/Session/Pool.antt =====
-- internal/session/pool.go: the pool of concurrent sessions. Each method holds the pool's lock, so it
-- is one step. An entry is a pointer in the source: `handle` is its address. The client factory and
-- TDLib's clients are arguments. `now` gives the successive readings of the clock in one call.
pub mod Calls
pub mod Invariant
pub mod Gauges
pub mod Branches
pub mod Loops
pub mod Refinement
pub mod Unordered
use tgplane.Common.{
  string_key, ℕ, zero, suc, String, List, [], ◌∷◌, ◌++◌, Option, none, some, map, Bool, Result, ok,
  err, map_err, length, if◌then◌else◌, ◌==◌,
}
use tgplane.Common.Map.{lookup, insert, delete, modify, values}
use tgplane.Session.Model.{
  Session, SessionType, account, bot, Status, authorizing, ready, disconnected, error, new_session,
  set_status,
}
use tgplane.Session.Hook.{HookEvent, on_added, on_removed, on_status_changed, on_error}

pub record Entry (C : Type 0) : Type 0 where
  pub handle : ℕ
  pub session : Session
  pub client : C

-- `on_update` and `hooked` are the fields that may be nil. The lock, the factory and the log are not
-- state: the factory is an argument of `add`.
pub record Pool (C H : Type 0) : Type 0 where
  pub sessions : List (String × Entry C)
  pub next_handle : ℕ
  pub on_update : Option H
  pub hooked : Bool

-- What a call does outside the pool: a hook method, the cancel function of an entry, `Close` of a
-- client, and `go p.runLoop(ctx, e)`.
pub data Effect (C : Type 0) : Type 0 where
  hook : HookEvent → Effect C
  cancel : ℕ → Effect C
  close : C → Effect C
  run_loop : ℕ → Effect C

pub data PoolError (E : Type 0) : Type 0 where
  already_exists not_found : String → PoolError E
  init_failed : String → E → PoolError E
  client_error : E → PoolError E

pub record Outcome (C H E : Type 0) : Type 0 where
  pub pool : Pool C H
  pub result : Result (PoolError E) (Unit {0})
  pub effects : List (Effect C)

module _ {C H : Type 0} where
  -- `NewPool`.
  unfoldable pub new_pool : Option H → Bool → Pool C H
  new_pool on_update hooked = record {
    sessions = [];
    next_handle = 0;
    on_update = on_update;
    hooked = hooked;
  }

  unfoldable pub notify : Pool C H → List HookEvent → List (Effect C)
  notify p es = if p.hooked then map hook es else []

  unfoldable pub get : String → Pool C H → Option Session
  get id p = elim (lookup id p.sessions) [ none ↦ none | some e ↦ some e.session ]

  unfoldable pub list : Pool C H → List Session
  list p = map (λ e. e.session) (values p.sessions)

  unfoldable pub len : Pool C H → ℕ
  len p = length p.sessions

  -- `SetUpdateHandler`.
  unfoldable pub set_update_handler : H → Pool C H → Pool C H
  set_update_handler h p = record p { on_update = some h }

  -- The closure that `runLoop` hands to the event loop of an entry: the handler to call, if one is
  -- set, and the session that it is told.
  unfoldable pub forward : Entry C → Pool C H → Option (H × String)
  forward e p = elim p.on_update [ none ↦ none | some h ↦ some (h, e.session.id) ]

module _ {C H E : Type 0} where
  unfoldable pub refuse : Pool C H → PoolError E → Outcome C H E
  refuse p e = record { pool = p; result = err e; effects = [] }

  -- `add` below its first test, once the factory has answered.
  unfoldable pub start : (ℕ → ℕ) → String → SessionType → Pool C H → Result E C → Outcome C H E
  unfolding notify
  start now id t p (err e) = record {
    pool = p;
    result = err (init_failed id e);
    effects = notify p (on_error t ∷ []);
  }
  start now id t p (ok c) =
      let sess = set_status (new_session id t (now 0) (now 1)) authorizing (now 2) in
      let entry : Entry C = record {
        handle = p.next_handle;
        session = set_status sess ready (now 3);
        client = c;
      } in
      record {
        pool = record p { sessions = insert id entry p.sessions; next_handle = suc p.next_handle };
        result = ok tt;
        effects =
            notify p (on_added t ∷ on_status_changed t sess.status ready ∷ [])
            ++ run_loop entry.handle ∷ [];
      }

  -- `p.add(ctx, id, phone, token, t)`.
  unfoldable pub add_session :
      (String → String → String → Result E C)
      → (ℕ → ℕ)
      → String
      → String
      → String
      → SessionType
      → Pool C H
      → Outcome C H E
  unfolding start refuse
  add_session factory now id phone token t p = elim (lookup id p.sessions) [
    | some _ ↦ refuse p (already_exists id)
    | none ↦ start now id t p (factory id phone token)
  ]

  -- `Add` and `AddBot`.
  unfoldable pub add :
      (String → String → String → Result E C) → (ℕ → ℕ) → String → String → Pool C H → Outcome C H E
  unfolding add_session
  add factory now id phone p = add_session factory now id phone "" account p

  unfoldable pub add_bot :
      (String → String → String → Result E C) → (ℕ → ℕ) → String → String → Pool C H → Outcome C H E
  unfolding add_session
  add_bot factory now id token p = add_session factory now id "" token bot p

  -- `Remove`.
  unfoldable pub remove : String → Pool C H → Outcome C H E
  unfolding refuse notify
  remove id p = elim (lookup id p.sessions) [
    | none ↦ refuse p (not_found id)
    | some e ↦ record {
      pool = record p { sessions = delete id p.sessions };
      result = ok tt;
      effects =
          cancel e.handle
          ∷ close e.client
          ∷ notify p (on_removed e.session.type e.session.status ∷ []);
    }
  ]

  -- The end of `runLoop`, for the entry with this session id and this address.
  unfoldable pub loop_exit : ℕ → String → ℕ → Pool C H → Outcome C H E
  unfolding notify
  loop_exit now id handle p = elim (lookup id p.sessions) [
    | none ↦ record { pool = p; result = ok tt; effects = [] }
    | some e ↦
        if e.handle == handle
        then record {
          pool = record p {
            sessions =
                modify id
                  (λ (x : Entry C). record x { session = set_status x.session disconnected now })
                  p.sessions;
          };
          result = ok tt;
          effects = notify p (on_status_changed e.session.type e.session.status disconnected ∷ []);
        }
        else record { pool = p; result = ok tt; effects = [] }
  ]

  -- `SendAuthCode` and `SendPassword` are one text but for the method that they call.
  unfoldable pub send_auth_code :
      (C → String → Option E) → String → String → Pool C H → Result (PoolError E) (Unit {0})
  send_auth_code send_code id code p = elim (lookup id p.sessions) [
    | none ↦ err (not_found id)
    | some e ↦ elim (send_code e.client code) [ none ↦ ok tt | some x ↦ err (client_error x) ]
  ]

  unfoldable pub send_password :
      (C → String → Option E) → String → String → Pool C H → Result (PoolError E) (Unit {0})
  send_password send id password p = elim (lookup id p.sessions) [
    | none ↦ err (not_found id)
    | some e ↦ elim (send e.client password) [ none ↦ ok tt | some x ↦ err (client_error x) ]
  ]

  unfoldable pub get_auth_state : (C → String) → String → Pool C H → Result (PoolError E) String
  get_auth_state auth_state id p = elim (lookup id p.sessions) [
    | none ↦ err (not_found id)
    | some e ↦ ok (auth_state e.client)
  ]
