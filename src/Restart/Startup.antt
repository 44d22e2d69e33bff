-- ===== src/Restart/Startup.antt =====
-- cmd/main/main.go: the registry of workers when the main node starts.
use tgplane.Common.{string_key, true, false, ◌≡◌, All}
use tgplane.Worker.Client.{Rpc, Client}
use tgplane.Worker.Manager.{
  Manager, Task, subscribes, new_manager, set_on_worker_ready, restore_workers,
}

module _ {W E : Type 0} (rpc : Rpc W E) where
  -- `manager.New` with the table of workers, `RestoreWorkers`, then `SetOnWorkerReady`.
  unfoldable pub start : W → Manager × W
  start w = let out = restore_workers rpc (new_manager true) w in (set_on_worker_ready out.0, out.1)

  abbrev pub Subscribes : Task → Type 0
  Subscribes t = (c : Client) × (t ≡ subscribes c)

  -- A manager without the hook, which has only subscribed.
  abbrev pub Quiet : Manager → Type 0
  Quiet m = (m.ready_hook ≡ false) × All Subscribes m.tasks
