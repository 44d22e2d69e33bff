-- ===== src/Rest/Routes/Guards.antt =====
-- The middleware before each route.
use tgplane.Common.{
  String, List, [], ◌∷◌, ◌++◌, Bool, true, false, ◌≡◌, refl, ◌∙◌, ap, sym, same?, string_key,
  same?_refl, same?_apart, if◌then◌else◌, All, All-map, All-append, arith, Bool-cases, inl, inr,
}
use tgplane.Rest.Server as Server
use tgplane.Rest.Routes.{
  Middleware, recovery, logger, metrics, rate_limiter, key_check, Gin, Route, Deps, Spec, handle,
  account_specs, key_specs, bot_specs, session_specs, worker_specs, webhook_specs, bulk_specs,
  health_specs, own_specs, register_accounts, register_keys, register_bots, register_sessions,
  register_workers, register_webhooks, register_bulk, register_health, engine, protected,
  new_server,
}

-- The kind of a route by its path: below /api/v1/auth/keys, else below /api/v1, or neither.
unfoldable pub below_api : List String → Server.Route
below_api [] = Server.api
below_api (part ∷ rest) = if same? part "/auth/keys" then Server.keys else Server.api

unfoldable pub area : List String → Server.Route
unfolding below_api
area [] = Server.public
area (part ∷ rest) = if same? part "/api/v1" then below_api rest else Server.public

area-keys : (q : String) → area ("/api/v1" ∷ "/auth/keys" ∷ q ∷ []) ≡ Server.keys
unfolding area below_api
area-keys q =
    ground (arith, same?_refl {K = String} "/api/v1", same?_refl {K = String} "/auth/keys")

area-api :
    (p q : String) → same? p "/auth/keys" ≡ false → area ("/api/v1" ∷ p ∷ q ∷ []) ≡ Server.api
unfolding area below_api
area-api p q other = ground (arith, same?_refl {K = String} "/api/v1", other)

area-public : (p : String) → same? p "/api/v1" ≡ false → area (p ∷ []) ≡ Server.public
unfolding area
area-public p other = ground (arith, other)

-- The middleware before every route, and before those of a kind.
unfoldable pub common : Deps → List Middleware
common d = recovery ∷ logger ∷ metrics ∷ (if d.limited then rate_limiter ∷ [] else [])

unfoldable pub before : Deps → Server.Route → List Middleware
unfolding common
before d Server.public = common d
before d Server.keys = common d
before d Server.api = common d ++ (if d.auth_svc then key_check ∷ [] else [])

module _ (gin : Gin) (d : Deps) where
  abbrev pub Guarded : Route → Type 0
  Guarded r = r.chain ≡ before d (area r.path)

  -- The same as a name, which does not compute to a product.
  unfoldable AllGuarded : List Route → Type 0
  AllGuarded routes = All Guarded routes

  engine-chain : gin.chain (engine gin d) ≡ common d
  unfolding engine common
  engine-chain =
      let c1 = gin.chain-use gin.new recovery in
      let g1 = gin.use_middleware gin.new recovery in
      let c2 = gin.chain-use g1 logger in
      let g2 = gin.use_middleware g1 logger in
      let c3 = gin.chain-use g2 metrics in
      let g3 = gin.use_middleware g2 metrics in
      let c4 = gin.chain-use g3 rate_limiter in
      elim (Bool-cases d.limited) [
        | inl on ↦ rw (on, c4, c3, c2, c1, gin.chain-new) refl
        | inr off ↦ rw (off, c3, c2, c1, gin.chain-new) refl
      ]

  engine-parts : gin.parts (engine gin d) ≡ []
  unfolding engine
  engine-parts =
      let g1 = gin.use_middleware gin.new recovery in
      let g2 = gin.use_middleware g1 logger in
      let g3 = gin.use_middleware g2 metrics in
      let plain : gin.parts g3 ≡ [] =
        gin.parts-use g2 metrics
        ∙ gin.parts-use g1 logger
        ∙ gin.parts-use gin.new recovery
        ∙ gin.parts-new in
      elim (Bool-cases d.limited) [
        | inl on ↦ rw (on) (gin.parts-use g3 rate_limiter ∙ plain)
        | inr off ↦ rw (off) plain
      ]

  v1 : gin.Group
  v1 = gin.group (engine gin d) "/api/v1"

  v1-chain : gin.chain v1 ≡ common d
  unfolding v1
  v1-chain = gin.chain-group (engine gin d) "/api/v1" ∙ engine-chain

  v1-parts : gin.parts v1 ≡ "/api/v1" ∷ []
  unfolding v1
  v1-parts = gin.parts-group (engine gin d) "/api/v1" ∙ ap (λ l. l ++ "/api/v1" ∷ []) engine-parts

  protected-parts : gin.parts (protected gin d v1) ≡ "/api/v1" ∷ []
  unfolding protected v1 engine
  protected-parts = elim (Bool-cases d.auth_svc) [
    | inl on ↦ rw (on) (gin.parts-use v1 key_check ∙ v1-parts)
    | inr off ↦ rw (off) v1-parts
  ]

  protected-chain : gin.chain (protected gin d v1) ≡ before d Server.api
  unfolding protected before v1 engine
  protected-chain = elim (Bool-cases d.auth_svc) [
    | inl on ↦ rw (on, gin.chain-use v1 key_check, v1-chain, common) refl
    | inr off ↦ elim (Bool-cases d.limited) [
      | inl limits ↦ rw (off, v1-chain, common, limits) refl
      | inr free ↦ rw (off, v1-chain, common, free) refl
    ]
  ]

  handled-Guarded :
      (g : gin.Group) (k : Server.Route) (specs : List Spec)
      → gin.chain g ≡ before d k
      → All (λ (s : Spec). area (gin.parts g ++ s.1 ∷ []) ≡ k) specs
      → AllGuarded (handle gin g specs)
  unfolding handle AllGuarded
  handled-Guarded g k [] h a = tt
  handled-Guarded g k ((method, path, endpoint) ∷ specs) h a =
      (h ∙ ap (before d) (sym a.0), handled-Guarded g k specs h a.1)

  each_in :
      (parts : List String) (k : Server.Route) (specs : List Spec)
      → ((q : String) → area (parts ++ q ∷ []) ≡ k)
      → All (λ (s : Spec). area (parts ++ s.1 ∷ []) ≡ k) specs
  each_in parts k [] h = tt
  each_in parts k (s ∷ specs) h = (h s.1, each_in parts k specs h)

  grouped-Guarded :
      (g : gin.Group) (prefix : String) (k : Server.Route) (specs : List Spec)
      → gin.chain g ≡ before d k
      → gin.parts g ≡ "/api/v1" ∷ []
      → ((q : String) → area ("/api/v1" ∷ prefix ∷ q ∷ []) ≡ k)
      → AllGuarded (handle gin (gin.group g prefix) specs)
  grouped-Guarded g prefix k specs h at a =
      let parts : gin.parts (gin.group g prefix) ≡ "/api/v1" ∷ prefix ∷ [] =
        gin.parts-group g prefix ∙ ap (λ l. l ++ prefix ∷ []) at in
      handled-Guarded (gin.group g prefix) k specs (gin.chain-group g prefix ∙ h) (
        each_in (gin.parts (gin.group g prefix)) k specs
          (λ q. ap (λ l. area (l ++ q ∷ [])) parts ∙ a q))

  open_routes :
      (specs : List Spec)
      → All (λ (s : Spec). same? s.1 "/api/v1" ≡ false) specs
      → AllGuarded (handle gin (engine gin d) specs)
  unfolding before common
  open_routes specs apart = handled-Guarded (engine gin d) Server.public specs engine-chain (
      All-map _ _ specs
        (λ s other. ap (λ l. area (l ++ s.1 ∷ [])) engine-parts ∙ area-public s.1 other) apart)

  if_set :
      (b : Bool) (routes : List Route) → AllGuarded routes → AllGuarded (if b then routes else [])
  unfolding AllGuarded
  if_set true routes a = a
  if_set false routes a = tt

  joined : (xs ys : List Route) → AllGuarded xs → AllGuarded ys → AllGuarded (xs ++ ys)
  unfolding AllGuarded
  joined xs ys a b = All-append Guarded xs ys a b

  server-AllGuarded : AllGuarded (new_server gin d)
  unfolding new_server register_accounts register_keys register_bots register_sessions
      register_workers register_webhooks register_bulk register_health v1 before
  server-AllGuarded =
      let r = engine gin d in
      let api = protected gin d v1 in
      let behind =
        λ (prefix : String) (specs : List Spec) (other : same? prefix "/auth/keys" ≡ false).
          grouped-Guarded api prefix Server.api specs protected-chain protected-parts
            (λ q. area-api prefix q other) in
      let own =
        joined _ _
          (open_routes health_specs
            (same?_apart "/health" "/api/v1" refl, (same?_apart "/ready" "/api/v1" refl, tt)))
          (open_routes own_specs (
            same?_apart "/metrics" "/api/v1" refl,
            (same?_apart "/ui/*path" "/api/v1" refl, (same?_apart "/" "/api/v1" refl, tt)),
          )) in
      let keys =
        if_set d.auth_svc (register_keys gin v1)
          (grouped-Guarded v1 "/auth/keys" Server.keys key_specs v1-chain v1-parts area-keys) in
      let accounts = behind "/accounts" account_specs (same?_apart "/accounts" "/auth/keys" refl) in
      let bots = behind "/bots" bot_specs (same?_apart "/bots" "/auth/keys" refl) in
      let sessions = behind "/sessions" session_specs (same?_apart "/sessions" "/auth/keys" refl) in
      let workers =
        if_set d.worker_mgr (register_workers gin api)
          (behind "/workers" worker_specs (same?_apart "/workers" "/auth/keys" refl)) in
      let webhooks =
        if_set d.webhook_svc (register_webhooks gin api)
          (behind "/webhooks" webhook_specs (same?_apart "/webhooks" "/auth/keys" refl)) in
      let bulk =
        if_set d.bulk_svc (register_bulk gin api)
          (behind "/bulk" bulk_specs (same?_apart "/bulk" "/auth/keys" refl)) in
      joined _ _
        (joined _ _
          (joined _ _
            (joined _ _ (joined _ _ (joined _ _ (joined _ _ own keys) accounts) bots) sessions)
            workers)
          webhooks)
        bulk

  -- Every route that `NewServer` registers has the recovery, the log and the metrics before it, then the
  -- limiter if the rate is above 0, and then, if there is a key service and the path of the route is
  -- joined from /api/v1 and other parts, the first of which is not /auth/keys, the check of the API
  -- key, and nothing else.
  pub new_server-Guarded : All Guarded (new_server gin d)
  unfolding AllGuarded
  new_server-Guarded = server-AllGuarded
