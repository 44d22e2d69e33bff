-- ===== src/Worker/Server/Handlers.antt =====
-- The unary methods of internal/worker/server/server.go over the session pool.
pub mod Counts
use tgplane.Common.{
  Bool, true, ℕ, ◌+◌, ◌%◌, ◌^◌, String, List, [], ◌∷◌, Option, none, some, Result, ok, err, map,
  length,
}
use tgplane.Session.Model.{Session, Status, ready, error}
use tgplane.Session.Pool as Sessions
use tgplane.Session.Pool.{Pool, PoolError, Effect, Outcome}
use tgplane.Worker.Wire.{
  SessionInfo, WorkerMetrics, Code, internal, not_found, type_string, status_string,
}
use tgplane.Worker.Server.{WorkerServer}

-- `status.Errorf(code, "...: %v", err)`.
pub record RpcError (E : Type 0) : Type 0 where
  pub code : Code
  pub cause : PoolError E

-- What a method leaves: the pool, the reply, and the effects of the pool's call.
pub record Reply (C H E A : Type 0) : Type 0 where
  pub pool : Pool C H
  pub answer : Result (RpcError E) A
  pub effects : List (Effect C)

-- One element of the loop in `ListSessions`.
abbrev pub info : Session → SessionInfo
info s = record { session_id = s.id; status = status_string s.status; type = type_string s.type }

module _ {C H : Type 0} where
  -- `s.sessionInfo(id)`.
  unfoldable pub session_info : String → Pool C H → SessionInfo
  session_info id p = elim (Sessions.get id p) [
    | none ↦ record { session_id = id; status = "unknown"; type = "" }
    | some s ↦ info s
  ]

  unfoldable pub list_sessions : Pool C H → List SessionInfo
  list_sessions p = map info (Sessions.list p)

module _ {C H E : Type 0} where
  unfoldable pub reply : {A : Type 0} → Code → (Pool C H → A) → Outcome C H E → Reply C H E A
  reply code answer o = elim o.result [
    | ok _ ↦ record { pool = o.pool; answer = ok (answer o.pool); effects = o.effects }
    | err e ↦ record {
      pool = o.pool;
      answer = err (record { code = code; cause = e });
      effects = o.effects;
    }
  ]

  unfoldable pub add_account :
      (String → String → String → Result E C)
      → (ℕ → ℕ)
      → String
      → String
      → Pool C H
      → Reply C H E SessionInfo
  unfolding reply session_info
  add_account factory now session_id phone p =
      reply internal (session_info session_id) (Sessions.add factory now session_id phone p)

  unfoldable pub add_bot :
      (String → String → String → Result E C)
      → (ℕ → ℕ)
      → String
      → String
      → Pool C H
      → Reply C H E SessionInfo
  unfolding reply session_info
  add_bot factory now session_id token p =
      reply internal (session_info session_id) (Sessions.add_bot factory now session_id token p)

  unfoldable pub remove_session : String → Pool C H → Reply C H E String
  unfolding reply
  remove_session session_id p = reply not_found (λ _. session_id) (Sessions.remove session_id p)

  -- The methods below leave the pool as it is.
  unfoldable pub answer_info :
      String → Pool C H → Result (PoolError E) (Unit {0}) → Result (RpcError E) SessionInfo
  unfolding session_info
  answer_info session_id p (ok _) = ok (session_info session_id p)
  answer_info session_id p (err e) = err (record { code = internal; cause = e })

  unfoldable pub send_auth_code :
      (C → String → Option E) → String → String → Pool C H → Result (RpcError E) SessionInfo
  unfolding answer_info
  send_auth_code send_code session_id code p =
      answer_info session_id p (Sessions.send_auth_code send_code session_id code p)

  unfoldable pub send_password :
      (C → String → Option E) → String → String → Pool C H → Result (RpcError E) SessionInfo
  unfolding answer_info
  send_password send session_id password p =
      answer_info session_id p (Sessions.send_password send session_id password p)

  unfoldable pub get_auth_state :
      (C → String) → String → Pool C H → Result (RpcError E) (String × String)
  get_auth_state auth_state session_id p =
      elim (Sessions.get_auth_state {E = E} auth_state session_id p) [
        | ok state ↦ ok (session_id, state)
        | err e ↦ err (record { code = not_found; cause = e })
      ]

-- The two int32 counters of the loop in `GetMetrics`.
unfoldable pub count_statuses : List Session → ℕ × ℕ → ℕ × ℕ
count_statuses [] acc = acc
count_statuses (s ∷ ss) (n_ready, n_error) = count_statuses ss (elim s.status [
  | ready ↦ ((n_ready + 1) % 2 ^ 32, n_error)
  | error ↦ (n_ready, (n_error + 1) % 2 ^ 32)
  | _ ↦ (n_ready, n_error)
])

unfoldable pub get_metrics : {C H U : Type 0} → ℕ → WorkerServer C H U → WorkerMetrics
unfolding count_statuses
get_metrics now s =
    let sessions = Sessions.list s.pool in
    let (n_ready, n_error) = count_statuses sessions (0, 0) in
    record {
      worker_id = s.id;
      session_count = length sessions % 2 ^ 32;
      ready_count = n_ready;
      error_count = n_error;
      updates_total = s.updates_total;
      collected_at = now;
    }

-- `Health`.
abbrev pub health : record { ok? : Bool; version : String }
health = record { ok? = true; version = "0.1.0" }
