-- ===== src/Worker/Client.antt =====
-- internal/worker/client/client.go: the main node's connection to one worker. The gRPC calls, and the
-- table of workers that internal/worker/repository.go keeps in PostgreSQL, act on a world `W` that
-- holds everything outside the main node.
pub mod Updates
use tgplane.Common.{ℕ, String, List, Option, none, some, Bool, true, false, Result, ok, err}
use tgplane.Worker.Wire.{SessionInfo, WorkerMetrics}

-- A connection is named by its address. A call may fail with an error of type `E`.
pub record Rpc (W E : Type 0) : Type 0 where
  -- `grpc.NewClient(addr)`.
  pub dial : String → W → Result E ℕ × W
  pub close_conn : ℕ → W → W
  -- The field `Ok` of the reply.
  pub health_rpc : ℕ → W → Result E Bool × W
  pub add_account_rpc : ℕ → String → String → W → Result E SessionInfo × W
  pub add_bot_rpc : ℕ → String → String → W → Result E SessionInfo × W
  pub remove_session_rpc : ℕ → String → W → Result E (Unit {0}) × W
  -- These calls only read the worker's state.
  pub list_sessions_rpc : ℕ → W → Result E (List SessionInfo)
  pub get_metrics_rpc : ℕ → W → Result E WorkerMetrics
  pub get_auth_state_rpc : ℕ → String → W → Result E String
  pub send_auth_code_rpc : ℕ → String → String → W → Result E SessionInfo × W
  pub send_password_rpc : ℕ → String → String → W → Result E SessionInfo × W
  -- The `WorkerStore`.
  pub upsert : String → String → W → Option E × W
  pub delete_row : String → W → Option E × W
  pub list_rows : W → Result E (List (String × String))

pub record Client : Type 0 where
  pub id : String
  pub addr : String
  pub conn : ℕ

pub data ClientError (E : Type 0) : Type 0 where
  dial_failed : String → String → E → ClientError E
  unhealthy : String → ClientError E
  rpc_failed : E → ClientError E

module _ {W E : Type 0} (rpc : Rpc W E) where
  open rpc use {
    dial, close_conn, health_rpc, add_account_rpc, add_bot_rpc, remove_session_rpc,
    list_sessions_rpc, get_metrics_rpc, get_auth_state_rpc, send_auth_code_rpc, send_password_rpc,
  }

  unfoldable pub connected : String → String → Result E ℕ → Result (ClientError E) Client
  connected id addr (err e) = err (dial_failed id addr e)
  connected id addr (ok conn) = ok (record { id = id; addr = addr; conn = conn })

  -- `New`.
  unfoldable pub new_client : String → String → W → Result (ClientError E) Client × W
  unfolding connected
  new_client id addr w = (connected id addr (dial addr w).0, (dial addr w).1)

  -- `none` is a nil error.
  unfoldable pub checked : String → Result E Bool → Option (ClientError E)
  checked id (err e) = some (rpc_failed e)
  checked id (ok true) = none
  checked id (ok false) = some (unhealthy id)

  unfoldable pub health : Client → W → Option (ClientError E) × W
  unfolding checked
  health c w = (checked c.id (health_rpc c.conn w).0, (health_rpc c.conn w).1)

  abbrev pub close : Client → W → W
  close c w = close_conn c.conn w

  abbrev pub add_account : Client → String → String → W → Result E SessionInfo × W
  add_account c session_id phone w = add_account_rpc c.conn session_id phone w

  abbrev pub add_bot : Client → String → String → W → Result E SessionInfo × W
  add_bot c session_id token w = add_bot_rpc c.conn session_id token w

  abbrev pub remove_session : Client → String → W → Result E (Unit {0}) × W
  remove_session c session_id w = remove_session_rpc c.conn session_id w

  abbrev pub list_sessions : Client → W → Result E (List SessionInfo)
  list_sessions c w = list_sessions_rpc c.conn w

  abbrev pub get_metrics : Client → W → Result E WorkerMetrics
  get_metrics c w = get_metrics_rpc c.conn w

  abbrev pub send_auth_code : Client → String → String → W → Result E SessionInfo × W
  send_auth_code c session_id code w = send_auth_code_rpc c.conn session_id code w

  abbrev pub send_password : Client → String → String → W → Result E SessionInfo × W
  send_password c session_id password w = send_password_rpc c.conn session_id password w

  abbrev pub get_auth_state : Client → String → W → Result E String
  get_auth_state c session_id w = get_auth_state_rpc c.conn session_id w
