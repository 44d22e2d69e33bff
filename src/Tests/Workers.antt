-- ===== src/Tests/Workers.antt =====
-- The manager of workers at concrete inputs. The world is the list of the calls that were made.
use tgplane.Common.{
  string_key, nat_key, ℕ, ◌+◌, String, List, [], ◌∷◌, none, some, Bool, true, false, ok, err, ◌≡◌,
  ◌≢◌, ◌⊎◌, length, take, replicate, if◌then◌else◌, ◌==◌,
}
use mathlib.Core.List.Perm
use tgplane.Common.Map.{lookup, values}
use tgplane.Worker.Wire.{SessionInfo}
use tgplane.Worker.Client.{Rpc, Client, list_sessions}
use tgplane.Worker.Manager.{Manager, no_workers}
use tgplane.Worker.Manager.Balance.{Order, least_loaded}
use tgplane.Worker.Manager.Balance.Least.{IsLeast, AnyOrder, least_loaded_lem}
use tgplane.Worker.Manager.Drain.{DrainResult, drain_worker, drain_worker_lem}
use tgplane.Worker.Manager.Backoff.{Turn, subscribe_loop, subscribe_loop-pauses}

abbrev pub World : Type 0
World = List String

abbrev session : String → SessionInfo
session id = record { session_id = id; status = "ready"; type = "bot" }

-- The worker with connection 3 does not answer; each other one holds two sessions.
abbrev pub rpc : Rpc World String
rpc = record {
  dial = λ addr w. (ok (length w), addr ∷ w);
  close_conn = λ c w. "close" ∷ w;
  health_rpc = λ c w. (ok true, "health" ∷ w);
  add_account_rpc = λ c id phone w. (ok (session id), "add" ∷ w);
  add_bot_rpc = λ c id token w. (ok (session id), "add" ∷ w);
  remove_session_rpc = λ c id w. (ok tt, "remove" ∷ w);
  list_sessions_rpc = λ c w. if c == 3 then err "down" else ok (session "a" ∷ session "b" ∷ []);
  get_metrics_rpc = λ c w. err "down";
  get_auth_state_rpc = λ c id w. ok "ready";
  send_auth_code_rpc = λ c id code w. (ok (session id), w);
  send_password_rpc = λ c id password w. (ok (session id), w);
  upsert = λ id addr w. (none, "upsert" ∷ w);
  delete_row = λ id w. (none, "delete" ∷ w);
  list_rows = λ w. ok (("v", "host:2") ∷ ("w", "host:1") ∷ []);
}

abbrev pub client : String → ℕ → Client
client id conn = record { id = id; addr = "host:1"; conn = conn }

abbrev pub two : Manager
two = record {
  workers = ("w", client "w" 1) ∷ ("x", client "x" 3) ∷ [];
  stored = true;
  ready_hook = true;
  tasks = [];
}

abbrev pub in_order : Order
in_order l = l

in_order-AnyOrder : AnyOrder rpc [] in_order
in_order-AnyOrder l = Perm.refl l

least_loaded_lem_example :
    (values two.workers ≡ []) × (least_loaded rpc in_order two [] ≡ err no_workers)
    ⊎ IsLeast rpc [] (values two.workers) (least_loaded rpc in_order two [])
least_loaded_lem_example = least_loaded_lem rpc [] in_order two in_order-AnyOrder

drain_worker_lem_example :
    let (left, result) = drain_worker rpc (λ k. in_order) "w" two [] in
    ((result ≡ none) × (left.manager ≡ two) × (left.world ≡ []) × (left.result ≢ ok tt))
    ⊎ ((target : Client) × (sessions : List SessionInfo) × (s : DrainResult String) × (lookup "w"
            two.workers
          ≡ some target)
        × (list_sessions rpc target [] ≡ ok sessions)
        × (result ≡ some s)
        × (left.result ≡ ok tt)
        × (s.migrated + s.failed ≡ length sessions)
        × (length s.errors ≡ s.failed)
        × (lookup "w" left.manager.workers ≡ none)
        × ((j : String) → j ≢ "w" → lookup j left.manager.workers ≡ lookup j two.workers))
drain_worker_lem_example = drain_worker_lem rpc (λ k. in_order) "w" two []

abbrev turn : Bool → Turn
turn failed = record {
  cancelled_before = false;
  cancelled_after = false;
  failed = failed;
  cancelled_waiting = false;
}

abbrev turns : List Turn
turns = turn true ∷ turn false ∷ turn true ∷ []

subscribe_loop-pauses_example :
    let n = length (subscribe_loop 1 turns) in
    subscribe_loop 1 turns ≡ take n (1 ∷ 2 ∷ 4 ∷ 8 ∷ 16 ∷ replicate n 32)
subscribe_loop-pauses_example = subscribe_loop-pauses turns
