-- ===== src/Tests/Registries.antt =====
-- The registry of workers, its table, and calls that run at the same time, at concrete inputs. The
-- world is the table of workers.
use tgplane.Common.{
  string_key, ℕ, suc, String, List, [], ◌∷◌, none, some, true, false, ok, err, ◌≡◌, refl, ◌⊎◌,
  arith, same?_refl,
}
use mathlib.Core.Option.{none-ne-some}
use tgplane.Common.Map.{lookup, insert, delete, lookup-insert, lookup-delete}
use tgplane.Worker.Client.{Rpc, Client}
use tgplane.Worker.Manager.{Manager, add_worker, remove_worker}
use tgplane.Worker.Manager.Race.{entered, Shared, Event, calls_add, goes_on, calls_remove, run}
use tgplane.Worker.Manager.Race.Clients.{Meter}
use tgplane.Postgres.Workers.{WorkerSql, WorkerStoreError, plain, with_store}
use tgplane.Postgres.Workers.Mirror.{Documented, KeepsRows, Mirrors, Lags, registry_mirrored}
use tgplane.Postgres.Workers.Stale.{removed_worker_stored}

abbrev Table : Type 0
Table = List (String × String)

abbrev sql : WorkerSql Table ℕ
sql = record {
  upsert_row = λ id addr w. (none, insert id addr w);
  delete_id = λ id w. (none, delete id w);
  select_all = λ w. ok w;
}

abbrev documented : Documented sql
documented = record {
  rows = λ w. w;
  upserted = λ id addr j w written. lookup-insert id j addr w;
  upsert_failed = λ id addr w e failed. absurd (none-ne-some _ failed);
  deleted = λ id j w written. lookup-delete id j w;
  delete_failed = λ id w e failed. absurd (none-ne-some _ failed);
}

abbrev rpc : Rpc Table (WorkerStoreError ℕ)
rpc = record {
  dial = λ addr w. (ok 7, w);
  close_conn = λ c w. w;
  health_rpc = λ c w. (ok true, w);
  add_account_rpc = λ c id phone w. (err (plain 0), w);
  add_bot_rpc = λ c id token w. (err (plain 0), w);
  remove_session_rpc = λ c id w. (ok tt, w);
  list_sessions_rpc = λ c w. ok [];
  get_metrics_rpc = λ c w. err (plain 0);
  get_auth_state_rpc = λ c id w. ok "ready";
  send_auth_code_rpc = λ c id code w. (err (plain 0), w);
  send_password_rpc = λ c id password w. (err (plain 0), w);
  upsert = λ id addr w. (none, w);
  delete_row = λ id w. (none, w);
  list_rows = λ w. ok w;
}

abbrev keeps : KeepsRows rpc documented.rows
keeps = record {
  dial_keeps = λ addr w. refl;
  close_keeps = λ conn w. refl;
  health_keeps = λ conn w. refl;
}

abbrev same : WorkerStoreError ℕ → WorkerStoreError ℕ
same e = e

abbrev client : Client
client = record { id = "w"; addr = "host:1"; conn = 7 }

abbrev one : Manager
one = record { workers = ("w", client) ∷ []; stored = true; ready_hook = false; tasks = [] }

abbrev table : Table
table = ("w", "host:1") ∷ []

mirrored : Mirrors sql documented same rpc keeps one table
unfolding Mirrors lookup
mirrored = λ j. ground arith

registry_mirrored_example :
    ((id addr : String)
      → let l = add_worker (with_store sql same rpc) id addr one table in
        Mirrors sql documented same rpc keeps l.manager l.world
        ⊎ Lags sql documented same rpc keeps (λ v. (sql.upsert_row id addr v).0) table l)
    × ((id : String)
        → let l = remove_worker (with_store sql same rpc) id one table in
          Mirrors sql documented same rpc keeps l.manager l.world
          ⊎ Lags sql documented same rpc keeps (λ v. (sql.delete_id id v).0) table l)
registry_mirrored_example = registry_mirrored sql documented same rpc keeps one table refl mirrored

abbrev halfway : Shared Table (WorkerStoreError ℕ)
halfway = record { manager = one; world = []; calls = entered client ∷ []; lost = [] }

held : lookup "w" one.workers ≡ some client
unfolding lookup
held = ground (arith, same?_refl {K = String} "w")

removed_worker_stored_example :
    let t = run (with_store sql same rpc) halfway (calls_remove "w" ∷ goes_on 0 ∷ []) in
    (lookup "w" t.manager.workers ≡ none) × (lookup "w" (documented.rows t.world) ≡ some "host:1")
removed_worker_stored_example =
    removed_worker_stored sql documented same rpc halfway 0 client client refl held refl refl

-- A world that counts the connections that it has opened and closed.
abbrev counting : Rpc (ℕ × ℕ) ℕ
counting = record {
  dial = λ addr w. (ok 7, (suc w.0, w.1));
  close_conn = λ c w. (w.0, suc w.1);
  health_rpc = λ c w. (ok true, w);
  add_account_rpc = λ c id phone w. (err 0, w);
  add_bot_rpc = λ c id token w. (err 0, w);
  remove_session_rpc = λ c id w. (ok tt, w);
  list_sessions_rpc = λ c w. ok [];
  get_metrics_rpc = λ c w. err 0;
  get_auth_state_rpc = λ c id w. ok "ready";
  send_auth_code_rpc = λ c id code w. (err 0, w);
  send_password_rpc = λ c id password w. (err 0, w);
  upsert = λ id addr w. (none, w);
  delete_row = λ id w. (none, w);
  list_rows = λ w. ok [];
}

abbrev meter : Meter counting
meter = record {
  opened = λ w. w.0;
  closed = λ w. w.1;
  dial_fails = λ addr w e failed. absurd (ground arith);
  dial_opens = λ addr w conn made. (refl, refl);
  close_closes = λ conn w. (refl, refl);
  health_keeps = λ conn w. (refl, refl);
  upsert_keeps = λ id addr w. (refl, refl);
  delete_keeps = λ id w. (refl, refl);
}

abbrev history : List Event
history =
    calls_add "w" "host:1"
    ∷ calls_add "x" "host:2"
    ∷ goes_on 1
    ∷ goes_on 0
    ∷ goes_on 0
    ∷ calls_remove "w"
    ∷ []
