-- ===== src/Tests/Pools.antt =====
-- Concurrent removals from a session pool, and the routes of the server, at concrete inputs.
use mathlib.Core.List.Perm
use mathlib.Core.Quot.{Quot}
use tgplane.Common.{ℕ, String, List, [], ◌∷◌, ◌++◌, none, true, false, ◌≡◌, refl, All}
use tgplane.Session.Model.{account, ready}
use tgplane.Session.Pool.{Entry, Pool}
use tgplane.Rest.Routes.{Middleware, Gin, Deps, new_server}
use tgplane.Rest.Routes.Guards.{before, area, new_server-Guarded}

abbrev entry : ℕ → String → Entry ℕ
entry n id = record {
  handle = n;
  session = record { id = id; type = account; status = ready; created_at = 0; updated_at = 1 };
  client = n;
}

abbrev three : Pool ℕ ℕ
three = record {
  sessions = ("a", entry 0 "a") ∷ ("b", entry 1 "b") ∷ ("c", entry 2 "c") ∷ [];
  next_handle = 3;
  on_update = none;
  hooked = true;
}

-- A group is its middleware and the prefix of its paths.
abbrev gin : Gin
gin = record {
  Group = List Middleware × List String;
  new = ([], []);
  group = λ g prefix. (g.0, g.1 ++ prefix ∷ []);
  use_middleware = λ g m. (g.0 ++ m ∷ [], g.1);
  chain = λ g. g.0;
  parts = λ g. g.1;
  parts-new = refl;
  parts-group = λ g prefix. refl;
  parts-use = λ g m. refl;
  chain-new = refl;
  chain-group = λ g prefix. refl;
  chain-use = λ g m. refl;
}

abbrev deps : Deps
deps = record {
  auth_svc = true;
  worker_mgr = true;
  webhook_svc = true;
  bulk_svc = false;
  limited = true;
}

new_server-Guarded_example : All (λ r. r.chain ≡ before deps (area r.path)) (new_server gin deps)
new_server-Guarded_example = new_server-Guarded gin deps
