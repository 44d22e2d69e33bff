-- ===== src/Worker/Manager/Race.antt =====
-- internal/worker/manager/manager.go: calls of `AddWorker` and `RemoveWorker` that run at the same
-- time. `AddWorker` holds the lock for its test and for its insertion, and nothing in between, so a
-- call is cut into the stages below; `RemoveWorker` holds the lock all the time and is one step.
pub mod Clients
pub mod Alone
pub mod Undisturbed
use tgplane.Common.{
  string_key, ℕ, suc, ◌+◌, String, List, [], ◌∷◌, ◌++◌, Option, none, some, Bool, true, false,
  Result, ok, err, if◌then◌else◌, get_elem?, set,
}
use tgplane.Common.Map.{lookup, insert}
use tgplane.Worker.Client.{Rpc, Client, ClientError, new_client, health, close}
use tgplane.Worker.Manager.{
  Manager, ManagerError, subscribes, worker_ready, already_registered, not_found, client_failed,
  health_failed, Left, persist, remove_worker,
}

-- Where a call of `AddWorker` stands: the id was free; the client is made; its worker is healthy; it
-- stands in the map; the call has returned.
pub data Stage (E : Type 0) : Type 0 where
  cleared : String → String → Stage E
  dialled checked entered : Client → Stage E
  returned : Result (ManagerError E) (Unit {0}) → Stage E

-- The calls of `AddWorker` so far. `lost` has the clients that another has replaced in the map.
pub record Shared (W E : Type 0) : Type 0 where
  pub manager : Manager
  pub world : W
  pub calls : List (Stage E)
  pub lost : List Client

-- What happens next: a call of `AddWorker` begins, the nth call goes on, or `RemoveWorker` is called.
pub data Event : Type 0 where
  calls_add : String → String → Event
  goes_on : ℕ → Event
  calls_remove : String → Event

unfoldable pub replaced : Option Client → List Client → List Client
replaced none lost = lost
replaced (some c) lost = lost ++ c ∷ []

module _ {W E : Type 0} where
  -- The first critical section.
  unfoldable pub begin : String → String → Shared W E → Stage E
  begin id addr s = elim (lookup id s.manager.workers) [
    | some _ ↦ returned (err (already_registered id))
    | none ↦ cleared id addr
  ]

  -- `New`.
  unfoldable pub dial : ℕ → Result (ClientError E) Client × W → Shared W E → Shared W E
  dial n (err e, w) s = record s {
    world = w;
    calls = set s.calls n (returned (err (client_failed e)));
  }
  dial n (ok c, w) s = record s { world = w; calls = set s.calls n (dialled c) }

  -- The second critical section.
  unfoldable pub enter : ℕ → Client → Shared W E → Shared W E
  unfolding replaced
  enter n c s = record s {
    manager = record s.manager { workers = insert c.id c s.manager.workers };
    calls = set s.calls n (entered c);
    lost = replaced (lookup c.id s.manager.workers) s.lost;
  }

module _ {W E : Type 0} (rpc : Rpc W E) where
  -- `Health`, and `Close` when it fails.
  unfoldable pub check : ℕ → Client → Option (ClientError E) × W → Shared W E → Shared W E
  check n c (some e, w) s = record s {
    world = close rpc c w;
    calls = set s.calls n (returned (err (health_failed e)));
  }
  check n c (none, w) s = record s { world = w; calls = set s.calls n (checked c) }

  -- What follows the second critical section.
  unfoldable pub finish : ℕ → Client → Shared W E → Shared W E
  unfolding persist
  finish n c s = record s {
    manager = record s.manager {
      tasks =
          s.manager.tasks
          ++ subscribes c ∷ (if s.manager.ready_hook then worker_ready c.id ∷ [] else []);
    };
    world = persist rpc s.manager c.id c.addr s.world;
    calls = set s.calls n (returned (ok tt));
  }

  unfoldable pub go_on : ℕ → Option (Stage E) → Shared W E → Shared W E
  unfolding dial check enter finish new_client health
  go_on n none s = s
  go_on n (some (cleared id addr)) s = dial n (new_client rpc id addr s.world) s
  go_on n (some (dialled c)) s = check n c (health rpc c s.world) s
  go_on n (some (checked c)) s = enter n c s
  go_on n (some (entered c)) s = finish n c s
  go_on n (some (returned r)) s = s

  unfoldable pub step : Shared W E → Event → Shared W E
  unfolding begin go_on remove_worker
  step s (calls_add id addr) = record s { calls = s.calls ++ begin id addr s ∷ [] }
  step s (goes_on n) = go_on n (get_elem? s.calls n) s
  step s (calls_remove id) =
      let l = remove_worker rpc id s.manager s.world in
      record s { manager = l.manager; world = l.world }

  unfoldable pub run : Shared W E → List Event → Shared W E
  run s [] = s
  run s (e ∷ es) = run (step s e) es

-- No call has been made yet.
unfoldable pub quiet : {W E : Type 0} → Manager → W → Shared W E
quiet m w = record { manager = m; world = w; calls = []; lost = [] }
