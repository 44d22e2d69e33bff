-- ===== src/Postgres/Workers/Stale.antt =====
-- The table of workers when `RemoveWorker` runs in the middle of an `AddWorker`.
use tgplane.Common.{string_key, ℕ, String, [], ◌∷◌, none, some, true, ◌≡◌, ap, get_elem?, arith}
use tgplane.Common.Map.{lookup, delete, lookup-delete}
use tgplane.Worker.Client.{Rpc, Client}
use tgplane.Worker.Manager.{remove_worker}
use tgplane.Worker.Manager.Race.{entered, Shared, calls_remove, goes_on, finish, go_on, step, run}
use tgplane.Postgres.Workers.{WorkerSql, WorkerStoreError, with_store}
use tgplane.Postgres.Workers.Mirror.{Documented, persist-world}

module _ {W E F : Type 0} (sql : WorkerSql W E) (doc : Documented sql)
    (lift : WorkerStoreError E → F) (rpc : Rpc W F) where
  removes :
      (s : Shared W F) (id : String) (d : Client)
      → lookup id s.manager.workers ≡ some d
      → (step (with_store sql lift rpc) s (calls_remove id)).manager
        ≡ record s.manager { workers = delete id s.manager.workers }
  unfolding step remove_worker
  removes s id d held = ground (arith, held)

  goes_on-finish :
      (s : Shared W F) (n : ℕ) (c : Client)
      → get_elem? s.calls n ≡ some (entered c)
      → step (with_store sql lift rpc) s (goes_on n) ≡ finish (with_store sql lift rpc) n c s
  unfolding step go_on
  goes_on-finish s n c at = ap (λ o. go_on (with_store sql lift rpc) n o s) at

  -- A call of `AddWorker` has put its client into the map, and has not yet written the row, when
  -- `RemoveWorker` is called for the id. If the call then writes its row without an error, the table
  -- has the worker and the registry has not.
  pub removed_worker_stored :
      (s : Shared W F) (n : ℕ) (c d : Client)
      → get_elem? s.calls n ≡ some (entered c)
      → lookup c.id s.manager.workers ≡ some d
      → s.manager.stored ≡ true
      → (sql.upsert_row c.id c.addr (step (with_store sql lift rpc) s (calls_remove c.id)).world).0
        ≡ none
      → let t = run (with_store sql lift rpc) s (calls_remove c.id ∷ goes_on n ∷ []) in
        (lookup c.id t.manager.workers ≡ none) × (lookup c.id (doc.rows t.world) ≡ some c.addr)
  unfolding run step finish
  removed_worker_stored s n c d at held on written =
      let u = step (with_store sql lift rpc) s (calls_remove c.id) in
      let gone = removes s c.id d held in
      let stored : u.manager.stored ≡ true = ground (arith, gone) in
      rw (run, goes_on-finish u n c at)
        (
          ground (arith, gone, lookup-delete c.id c.id s.manager.workers),
          ground (
            arith,
            persist-world sql lift rpc u.manager c.id c.addr u.world stored,
            doc.upserted c.id c.addr c.id u.world written,
          ),
        )
