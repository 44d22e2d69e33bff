-- ===== src/Rest/Routes.antt =====
-- The routes that `NewServer` of api/rest/server.go and the `Register` functions of api/rest/handler
-- register, with the middleware before each. gin is an argument.
pub mod Guards
use tgplane.Common.{String, List, [], ◌∷◌, ◌++◌, map, Bool, true, false, ◌≡◌, if◌then◌else◌}

pub data Middleware : Type 0 where
  recovery logger metrics rate_limiter key_check : Middleware

-- The functions that answer requests.
pub data Endpoint : Type 0 where
  health_get ready_get metrics_get ui_get root_get : Endpoint
  key_create key_list key_delete : Endpoint
  account_create account_list account_get account_delete : Endpoint
  account_auth_code account_password account_auth_state : Endpoint
  bot_create bot_list bot_get bot_delete : Endpoint
  session_list session_get session_stop : Endpoint
  worker_list worker_metrics worker_add worker_remove worker_drain : Endpoint
  webhook_create webhook_list webhook_delete : Endpoint
  bulk_bots bulk_accounts bulk_sessions : Endpoint

pub data Method : Type 0 where
  get post delete : Method

-- A `RouterGroup`: its middleware, and the parts that its path is joined from. `use` returns the group
-- that the method leaves behind the pointer.
pub record Gin : Type 1 where
  pub Group : Type 0
  pub new : Group
  pub group : Group → String → Group
  pub use_middleware : Group → Middleware → Group
  pub chain : Group → List Middleware
  pub parts : Group → List String
  -- A group starts with the middleware of the group that it is made from, and `Use` adds at the end.
  pub chain-new : chain new ≡ []
  pub parts-new : parts new ≡ []
  pub chain-group : (g : Group) (prefix : String) → chain (group g prefix) ≡ chain g
  pub parts-group : (g : Group) (prefix : String) → parts (group g prefix) ≡ parts g ++ prefix ∷ []
  pub parts-use : (g : Group) (m : Middleware) → parts (use_middleware g m) ≡ parts g
  pub chain-use : (g : Group) (m : Middleware) → chain (use_middleware g m) ≡ chain g ++ m ∷ []

-- A route has the middleware that its group has when it is registered. `path` has the parts that its
-- path is joined from.
pub record Route : Type 0 where
  pub method : Method
  pub path : List String
  pub chain : List Middleware
  pub endpoint : Endpoint

-- Which of the dependencies are set, and whether the rate limit is above 0.
pub record Deps : Type 0 where
  pub auth_svc : Bool
  pub worker_mgr : Bool
  pub webhook_svc : Bool
  pub bulk_svc : Bool
  pub limited : Bool

abbrev pub Spec : Type 0
Spec = Method × String × Endpoint

abbrev pub account_specs : List Spec
account_specs =
    (post, "", account_create)
    ∷ (get, "", account_list)
    ∷ (get, "/:id", account_get)
    ∷ (delete, "/:id", account_delete)
    ∷ (post, "/:id/auth-code", account_auth_code)
    ∷ (post, "/:id/password", account_password)
    ∷ (get, "/:id/auth-state", account_auth_state)
    ∷ []

abbrev pub key_specs : List Spec
key_specs = (post, "", key_create) ∷ (get, "", key_list) ∷ (delete, "/:id", key_delete) ∷ []

abbrev pub bot_specs : List Spec
bot_specs =
    (post, "", bot_create)
    ∷ (get, "", bot_list)
    ∷ (get, "/:id", bot_get)
    ∷ (delete, "/:id", bot_delete)
    ∷ []

abbrev pub session_specs : List Spec
session_specs =
    (get, "", session_list) ∷ (get, "/:id", session_get) ∷ (delete, "/:id", session_stop) ∷ []

abbrev pub worker_specs : List Spec
worker_specs =
    (get, "", worker_list)
    ∷ (get, "/metrics", worker_metrics)
    ∷ (post, "", worker_add)
    ∷ (delete, "/:id", worker_remove)
    ∷ (post, "/:id/drain", worker_drain)
    ∷ []

abbrev pub webhook_specs : List Spec
webhook_specs =
    (post, "", webhook_create) ∷ (get, "", webhook_list) ∷ (delete, "/:id", webhook_delete) ∷ []

abbrev pub bulk_specs : List Spec
bulk_specs =
    (post, "/bots", bulk_bots)
    ∷ (post, "/accounts", bulk_accounts)
    ∷ (delete, "/sessions", bulk_sessions)
    ∷ []

abbrev pub health_specs : List Spec
health_specs = (get, "/health", health_get) ∷ (get, "/ready", ready_get) ∷ []

-- The routes that `NewServer` registers itself.
abbrev pub own_specs : List Spec
own_specs = (get, "/metrics", metrics_get) ∷ (get, "/ui/*path", ui_get) ∷ (get, "/", root_get) ∷ []

module _ (gin : Gin) where
  -- `g.GET`, `g.POST` and `g.DELETE`, one after another.
  unfoldable pub handle : gin.Group → List Spec → List Route
  handle g [] = []
  handle g ((method, path, endpoint) ∷ rest) =
      (record {
        method = method;
        path = gin.parts g ++ path ∷ [];
        chain = gin.chain g;
        endpoint = endpoint;
      })
      ∷ handle g rest

  -- The seven functions `Register`.
  unfoldable pub register_accounts : gin.Group → List Route
  unfolding handle
  register_accounts rg = handle (gin.group rg "/accounts") account_specs

  unfoldable pub register_keys : gin.Group → List Route
  unfolding handle
  register_keys rg = handle (gin.group rg "/auth/keys") key_specs

  unfoldable pub register_bots : gin.Group → List Route
  unfolding handle
  register_bots rg = handle (gin.group rg "/bots") bot_specs

  unfoldable pub register_sessions : gin.Group → List Route
  unfolding handle
  register_sessions rg = handle (gin.group rg "/sessions") session_specs

  unfoldable pub register_workers : gin.Group → List Route
  unfolding handle
  register_workers rg = handle (gin.group rg "/workers") worker_specs

  unfoldable pub register_webhooks : gin.Group → List Route
  unfolding handle
  register_webhooks rg = handle (gin.group rg "/webhooks") webhook_specs

  unfoldable pub register_bulk : gin.Group → List Route
  unfolding handle
  register_bulk rg = handle (gin.group rg "/bulk") bulk_specs

  -- `Health`.
  unfoldable pub register_health : gin.Group → List Route
  unfolding handle
  register_health r = handle r health_specs

  -- The engine, with the middleware of every route.
  unfoldable pub engine : Deps → gin.Group
  engine d =
      let r =
        gin.use_middleware (gin.use_middleware (gin.use_middleware gin.new recovery) logger)
          metrics in
      if d.limited then gin.use_middleware r rate_limiter else r

  -- `v1` once the routes of the keys are registered.
  unfoldable pub protected : Deps → gin.Group → gin.Group
  protected d v1 = if d.auth_svc then gin.use_middleware v1 key_check else v1

  -- The routes that `NewServer` registers, in the order of the source.
  unfoldable pub new_server : Deps → List Route
  unfolding handle register_accounts register_keys register_bots register_sessions register_workers
      register_webhooks register_bulk register_health engine protected
  new_server d =
      let r = engine d in
      let v1 = gin.group r "/api/v1" in
      let api = protected d v1 in
      register_health r
      ++ handle r own_specs
      ++ (if d.auth_svc then register_keys v1 else [])
      ++ register_accounts api
      ++ register_bots api
      ++ register_sessions api
      ++ (if d.worker_mgr then register_workers api else [])
      ++ (if d.webhook_svc then register_webhooks api else [])
      ++ (if d.bulk_svc then register_bulk api else [])
