-- ===== src/Postgres/Workers.antt =====
-- internal/worker/repository.go: the table of workers, which is the manager's `WorkerStore`.
pub mod Mirror
pub mod Stale
use tgplane.Common.{String, List, Option, none, some, Result, ok, err, map_err}
use tgplane.Worker.Client.{Rpc}

-- The three statements. A row is an id and an address; the rows are selected ORDER BY id.
pub record WorkerSql (W E : Type 0) : Type 0 where
  -- INSERT with ON CONFLICT (id) DO UPDATE SET addr.
  pub upsert_row : String → String → W → Option E × W
  pub delete_id : String → W → Option E × W
  pub select_all : W → Result E (List (String × String))

-- The error of `Delete` is not wrapped.
pub data WorkerStoreError (E : Type 0) : Type 0 where
  upsert_worker : String → E → WorkerStoreError E
  plain list_workers : E → WorkerStoreError E

abbrev pub wrap : {E F W : Type 0} → (E → F) → Option E × W → Option F × W
wrap f (none, w) = (none, w)
wrap f (some e, w) = (some (f e), w)

module _ {W E : Type 0} (sql : WorkerSql W E) where
  unfoldable pub upsert : String → String → W → Option (WorkerStoreError E) × W
  upsert id addr w = wrap (upsert_worker id) (sql.upsert_row id addr w)

  unfoldable pub delete_row : String → W → Option (WorkerStoreError E) × W
  delete_row id w = wrap plain (sql.delete_id id w)

  unfoldable pub list_rows : W → Result (WorkerStoreError E) (List (String × String))
  list_rows w = map_err list_workers (sql.select_all w)

  -- `manager.New` with this repository: `lift` makes an error of the calls' kind.
  unfoldable pub with_store : {F : Type 0} → (WorkerStoreError E → F) → Rpc W F → Rpc W F
  unfolding upsert delete_row list_rows
  with_store lift rpc = record rpc {
    upsert = λ id addr w. wrap lift (upsert id addr w);
    delete_row = λ id w. wrap lift (delete_row id w);
    list_rows = λ w. map_err lift (list_rows w);
  }
