-- ===== src/Rest/Workers.antt =====
-- api/rest/handler/worker.go. The time limits of its requests are not modelled.
use tgplane.Common.{ℕ, String, List, Option, none, some, Result, ok, err}
use tgplane.Worker.Wire.{WorkerMetrics}
use tgplane.Worker.Client.{Rpc}
use tgplane.Worker.Manager as Managers
use tgplane.Worker.Manager.{Manager, ManagerError, Left}
use tgplane.Worker.Manager.Balance.{Order}
use tgplane.Worker.Manager.Drain as Drain
use tgplane.Worker.Manager.Drain.{DrainResult}
use tgplane.Rest.{Response, json, error_resp, no_content}

pub data WorkerFailure (E : Type 0) : Type 0 where
  bad_request : WorkerFailure E
  manager_error : ManagerError E → WorkerFailure E

module _ {W E : Type 0} (rpc : Rpc W E) where
  -- GET /workers.
  unfoldable pub list : Manager → Response (WorkerFailure E) (List String)
  unfolding json
  list m = json 200 (Managers.worker_ids m)

  -- GET /workers/metrics.
  unfoldable pub metrics :
      (List (Result E WorkerMetrics) → List (Result E WorkerMetrics))
      → Manager
      → W
      → Response (WorkerFailure E) (List WorkerMetrics)
  unfolding json
  metrics arrive m w = json 200 (Managers.collect_metrics rpc arrive m w)

  -- POST /workers, on the id and the address of the body.
  unfoldable pub added :
      String
      → String
      → Left W E (Unit {0})
      → Response (WorkerFailure E) (String × String) × Manager × W
  unfolding json error_resp
  added id addr l = elim l.result [
    | err e ↦ (error_resp 400 (manager_error e), l.manager, l.world)
    | ok _ ↦ (json 201 (id, addr), l.manager, l.world)
  ]

  unfoldable pub add :
      Option (String × String)
      → Manager
      → W
      → Response (WorkerFailure E) (String × String) × Manager × W
  unfolding error_resp added
  add none m w = (error_resp 400 bad_request, m, w)
  add (some (id, addr)) m w = added id addr (Managers.add_worker rpc id addr m w)

  -- DELETE /workers/:id.
  unfoldable pub removed : Left W E (Unit {0}) → Response (WorkerFailure E) (Unit {0}) × Manager × W
  unfolding error_resp no_content
  removed l = elim l.result [
    | err e ↦ (error_resp 404 (manager_error e), l.manager, l.world)
    | ok _ ↦ (no_content, l.manager, l.world)
  ]

  unfoldable pub remove : String → Manager → W → Response (WorkerFailure E) (Unit {0}) × Manager × W
  unfolding removed
  remove id m w = removed (Managers.remove_worker rpc id m w)

  -- The result of a drain, or its error.
  unfoldable pub drained :
      Result (ManagerError E) (Unit {0})
      → Option (DrainResult E)
      → Response (WorkerFailure E) (Option (DrainResult E))
  unfolding json error_resp
  drained (err e) result = error_resp 400 (manager_error e)
  drained (ok _) result = json 200 result

  -- POST /workers/:id/drain.
  unfoldable pub drain :
      (ℕ → Order)
      → String
      → Manager
      → W
      → Response (WorkerFailure E) (Option (DrainResult E)) × Manager × W
  unfolding drained
  drain arrive id m w =
      let (left, result) = Drain.drain_worker rpc arrive id m w in
      (drained left.result result, left.manager, left.world)
