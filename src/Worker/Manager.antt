-- ===== src/Worker/Manager.antt =====
-- internal/worker/manager/manager.go: the registry of workers on the main node. The map is guarded by
-- a lock; each function below runs its critical sections in the source's order, with nothing between
-- them.
pub mod Balance
pub mod Drain
pub mod Registry
pub mod Backoff
pub mod Race
use tgplane.Common.{
  string_key, ℕ, suc, ◌+◌, String, List, [], ◌∷◌, ◌++◌, Option, none, some, map, Bool, true, false,
  Result, ok, err, if◌then◌else◌,
}
use tgplane.Common.Map.{lookup, insert, delete, keys, values}
use tgplane.Worker.Wire.{SessionInfo, WorkerMetrics}
use tgplane.Worker.Client.{
  Rpc, Client, ClientError, new_client, health, close, get_metrics, add_account, add_bot,
  remove_session,
}

-- The goroutines that the manager has started.
pub data Task : Type 0 where
  subscribes : Client → Task
  worker_ready : String → Task

-- `stored` and `ready_hook` say whether `store` and `onWorkerReady` are set.
pub record Manager : Type 0 where
  pub workers : List (String × Client)
  pub stored : Bool
  pub ready_hook : Bool
  pub tasks : List Task

pub data ManagerError (E : Type 0) : Type 0 where
  already_registered not_found : String → ManagerError E
  client_failed health_failed : ClientError E → ManagerError E
  no_workers no_other_workers index_out_of_range : ManagerError E
  list_failed call_failed : String → E → ManagerError E
  remote_error : E → ManagerError E

-- What a method leaves: the manager, the world and the result.
pub record Left (W E A : Type 0) : Type 0 where
  pub manager : Manager
  pub world : W
  pub result : Result (ManagerError E) A

unfoldable pub new_manager : Bool → Manager
new_manager stored = record { workers = []; stored = stored; ready_hook = false; tasks = [] }

-- `SetOnWorkerReady`.
unfoldable pub set_on_worker_ready : Manager → Manager
set_on_worker_ready m = record m { ready_hook = true }

-- `Workers`.
unfoldable pub worker_ids : Manager → List String
worker_ids m = keys m.workers

module _ {W E : Type 0} (rpc : Rpc W E) where
  -- An error of the store is logged and dropped.
  unfoldable pub persist : Manager → String → String → W → W
  persist m id addr w = if m.stored then (rpc.upsert id addr w).1 else w

  unfoldable pub forget : Manager → String → W → W
  forget m id w = if m.stored then (rpc.delete_row id w).1 else w

  -- The second critical section of `AddWorker`, and what follows it.
  unfoldable pub register : Manager → Client → W → Left W E (Unit {0})
  unfolding persist
  register m c w = record {
    manager = record m {
      workers = insert c.id c m.workers;
      tasks = m.tasks ++ subscribes c ∷ (if m.ready_hook then worker_ready c.id ∷ [] else []);
    };
    world = persist m c.id c.addr w;
    result = ok tt;
  }

  -- The health check of a new client.
  unfoldable pub admit : Manager → Client → Option (ClientError E) × W → Left W E (Unit {0})
  unfolding register
  admit m c (none, w) = register m c w
  admit m c (some e, w) = record {
    manager = m;
    world = close rpc c w;
    result = err (health_failed e);
  }

  unfoldable pub connect : Manager → Result (ClientError E) Client × W → Left W E (Unit {0})
  unfolding admit health
  connect m (err e, w) = record { manager = m; world = w; result = err (client_failed e) }
  connect m (ok c, w) = admit m c (health rpc c w)

  unfoldable pub add_worker : String → String → Manager → W → Left W E (Unit {0})
  unfolding connect new_client
  add_worker id addr m w = elim (lookup id m.workers) [
    | some _ ↦ record { manager = m; world = w; result = err (already_registered id) }
    | none ↦ connect m (new_client rpc id addr w)
  ]

  unfoldable pub remove_worker : String → Manager → W → Left W E (Unit {0})
  unfolding forget
  remove_worker id m w = elim (lookup id m.workers) [
    | none ↦ record { manager = m; world = w; result = err (not_found id) }
    | some c ↦ record {
      manager = record m { workers = delete id m.workers };
      world = forget m id (close rpc c w);
      result = ok tt;
    }
  ]

  -- The loop of `RestoreWorkers`; a worker that fails is logged and left out.
  unfoldable pub restore : List (String × String) → Manager → W → ℕ → Manager × W × ℕ
  unfolding add_worker
  restore [] m w n = (m, w, n)
  restore ((id, addr) ∷ rows) m w n =
      let l = add_worker id addr m w in
      restore rows l.manager l.world (elim l.result [ ok _ ↦ suc n | err _ ↦ n ])

  unfoldable pub restore_workers : Manager → W → Manager × W × ℕ
  unfolding restore
  restore_workers m w =
      if m.stored
      then elim (rpc.list_rows w) [ err _ ↦ (m, w, 0) | ok rows ↦ restore rows m w 0 ]
      else (m, w, 0)

  -- The metrics among the answers, in the order in which they come in.
  unfoldable pub answered : List (Result E WorkerMetrics) → List WorkerMetrics
  answered [] = []
  answered (ok metrics ∷ rest) = metrics ∷ answered rest
  answered (err _ ∷ rest) = answered rest

  -- `CollectMetrics`.
  unfoldable pub collect_metrics :
      (List (Result E WorkerMetrics) → List (Result E WorkerMetrics))
      → Manager
      → W
      → List WorkerMetrics
  unfolding answered
  collect_metrics arrive m w = answered (arrive (map (λ c. get_metrics rpc c w) (values m.workers)))
