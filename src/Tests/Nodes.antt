-- ===== src/Tests/Nodes.antt =====
-- A worker whose pool makes TDLib clients, at concrete inputs.
use tgplane.Common.{string_key, ℕ, String, [], none, some, true, false, Result, err, ok, ◌≡◌, refl}
use mathlib.Core.Option
use tgplane.Common.Map.{lookup}
use tgplane.Session.Model.{Session, ready}
use tgplane.Session.Pool as Pools
use tgplane.Session.Pool.{Entry, Pool, new_pool, add, get}
use tgplane.Tdlib as Tdlib
use tgplane.Tdlib.{Parameters, Client, ClientError, not_authorized, get_me}
use tgplane.Node.{TdlibConfig, factory}
use tgplane.Node.Accounts.{shown_ready_early}
use tgplane.Tests.Sessions.{clock}

abbrev config : TdlibConfig
config = record {
  api_id = 1;
  api_hash = "hash";
  data_dir = "data";
  log_level = 1;
  use_test_dc = false;
}

abbrev join : String → String → String
join dir name = dir

abbrev authorize : Parameters → String → Result String ℕ
authorize params token = ok 7

abbrev empty : Pool (Client ℕ String) ℕ
empty = record { sessions = []; next_handle = 0; on_update = none; hooked = true }

free : lookup "a" empty.sessions ≡ none
unfolding lookup
free = refl

shown_ready_early_example :
    let o = add (factory join authorize config) clock "a" "+1" empty in
    (o.result ≡ ok tt)
    × ((s : Session) × (get "a" o.pool ≡ some s) × (s.status ≡ ready))
    × (Pools.get_auth_state {E = ClientError String} Tdlib.get_auth_state "a" o.pool
        ≡ ok "waiting_phone")
    × ((c : Client ℕ String) × (Option.map Entry.client (lookup "a" o.pool.sessions) ≡ some c)
        × ((U : Type 0) (ask : ℕ → Result String U) → get_me ask c ≡ err not_authorized))
shown_ready_early_example = shown_ready_early join authorize config clock "a" "+1" empty free
