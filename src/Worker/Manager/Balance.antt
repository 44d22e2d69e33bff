-- ===== src/Worker/Manager/Balance.antt =====
-- `leastLoaded` and `leastLoadedExcluding` of internal/worker/manager/manager.go, and the calls that
-- assign a session. The goroutines that ask the workers for their sessions finish in some order:
-- `arrive` reorders the scores.
pub mod Least
use tgplane.Common.{
  string_key, ℕ, ◌+◌, String, List, [], ◌∷◌, Option, none, some, Bool, true, false, not, Result, ok,
  err, length, ltb, if◌then◌else◌, same?, select, map,
}
use tgplane.Common.Map.{lookup, values}
use tgplane.Worker.Wire.{SessionInfo}
use tgplane.Worker.Client as Clients
use tgplane.Worker.Client.{Rpc, Client, add_account, add_bot, remove_session, list_sessions}
use tgplane.Worker.Manager.{
  Manager, ManagerError, not_found, no_workers, no_other_workers, index_out_of_range, call_failed,
  remote_error,
}

-- `scored`: a client, and the number of its sessions.
abbrev pub Scored : Type 0
Scored = Client × ℕ

abbrev pub Order : Type 0
Order = List Scored → List Scored

-- A worker that cannot be asked counts as one without sessions.
unfoldable pub count_sessions : {E : Type 0} → Result E (List SessionInfo) → ℕ
count_sessions (ok sessions) = length sessions
count_sessions (err _) = 0

-- The loop over `scores[1:]`.
unfoldable pub best_of : Scored → List Scored → Scored
best_of best [] = best
best_of best (s ∷ rest) = best_of (if ltb s.1 best.1 then s else best) rest

module _ {W E : Type 0} (rpc : Rpc W E) where
  unfoldable pub score : W → Client → Scored
  unfolding count_sessions
  score w c = (c, count_sessions (list_sessions rpc c w))

  -- `best := scores[0]` and the loop; the index panics on no scores.
  unfoldable pub pick : List Scored → Result (ManagerError E) Client
  unfolding best_of
  pick [] = err index_out_of_range
  pick (s ∷ rest) = ok (best_of s rest).0

  unfoldable pub least_loaded : Order → Manager → W → Result (ManagerError E) Client
  unfolding pick score
  least_loaded arrive m w = elim (values m.workers) [
    | [] ↦ err no_workers
    | c ∷ cs ↦ pick (arrive (map (score w) (c ∷ cs)))
  ]

  -- The clients under another id.
  unfoldable pub others : String → List (String × Client) → List Client
  others exclude [] = []
  others exclude ((id, c) ∷ m) = if same? id exclude then others exclude m else c ∷ others exclude m

  unfoldable pub least_loaded_excluding :
      Order → String → Manager → W → Result (ManagerError E) Client
  unfolding pick score others
  least_loaded_excluding arrive exclude m w = elim (others exclude m.workers) [
    | [] ↦ err no_other_workers
    | c ∷ cs ↦ pick (arrive (map (score w) (c ∷ cs)))
  ]

  -- The reply of the worker's call is dropped, and its id returned.
  unfoldable pub assigned : String → Result E SessionInfo × W → Result (ManagerError E) String × W
  assigned id (ok _, w) = (ok id, w)
  assigned id (err e, w) = (err (call_failed id e), w)

  unfoldable pub assign_account :
      Order → String → String → Manager → W → Result (ManagerError E) String × W
  unfolding least_loaded assigned
  assign_account arrive session_id phone m w = elim (least_loaded arrive m w) [
    | err e ↦ (err e, w)
    | ok c ↦ assigned c.id (add_account rpc c session_id phone w)
  ]

  unfoldable pub assign_bot :
      Order → String → String → Manager → W → Result (ManagerError E) String × W
  unfolding least_loaded assigned
  assign_bot arrive session_id token m w = elim (least_loaded arrive m w) [
    | err e ↦ (err e, w)
    | ok c ↦ assigned c.id (add_bot rpc c session_id token w)
  ]

  unfoldable pub assign_bot_to_worker :
      String → String → String → Manager → W → Result (ManagerError E) String × W
  unfolding assigned
  assign_bot_to_worker worker_id session_id token m w = elim (lookup worker_id m.workers) [
    | none ↦ (err (not_found worker_id), w)
    | some c ↦ assigned worker_id (add_bot rpc c session_id token w)
  ]

  unfoldable pub assign_account_to_worker :
      String → String → String → Manager → W → Result (ManagerError E) String × W
  unfolding assigned
  assign_account_to_worker worker_id session_id phone m w = elim (lookup worker_id m.workers) [
    | none ↦ (err (not_found worker_id), w)
    | some c ↦ assigned worker_id (add_account rpc c session_id phone w)
  ]

  unfoldable pub passed : {A : Type 0} → Result E A × W → Result (ManagerError E) (Unit {0}) × W
  passed (ok _, w) = (ok tt, w)
  passed (err e, w) = (err (remote_error e), w)

  unfoldable pub remove_session_on :
      String → String → Manager → W → Result (ManagerError E) (Unit {0}) × W
  unfolding passed
  remove_session_on worker_id session_id m w = elim (lookup worker_id m.workers) [
    | none ↦ (err (not_found worker_id), w)
    | some c ↦ passed (remove_session rpc c session_id w)
  ]

  unfoldable pub send_auth_code :
      String → String → String → Manager → W → Result (ManagerError E) (Unit {0}) × W
  unfolding passed
  send_auth_code worker_id session_id code m w = elim (lookup worker_id m.workers) [
    | none ↦ (err (not_found worker_id), w)
    | some c ↦ passed (Clients.send_auth_code rpc c session_id code w)
  ]

  unfoldable pub send_password :
      String → String → String → Manager → W → Result (ManagerError E) (Unit {0}) × W
  unfolding passed
  send_password worker_id session_id password m w = elim (lookup worker_id m.workers) [
    | none ↦ (err (not_found worker_id), w)
    | some c ↦ passed (Clients.send_password rpc c session_id password w)
  ]

  unfoldable pub get_auth_state : String → String → Manager → W → Result (ManagerError E) String
  get_auth_state worker_id session_id m w = elim (lookup worker_id m.workers) [
    | none ↦ err (not_found worker_id)
    | some c ↦ elim (Clients.get_auth_state rpc c session_id w) [
      | err e ↦ err (remote_error e)
      | ok state ↦ ok state
    ]
  ]
