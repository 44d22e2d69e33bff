-- ===== src/Rest/Server.antt =====
-- What `NewServer` of api/rest/server.go puts before the handlers: the rate limiter, if it is set up,
-- before every route, and the check of the API key before the routes that are registered after it.
-- Recovery, the log, the metrics of a request and the web interface are not modelled.
pub mod KeyLife
use tgplane.Common.{ℕ, String, List, Option, none, some, Bool, true, false}
use tgplane.Auth.{Hashing, KeyRepository}
use tgplane.Rest.Middleware.{
  Buckets, LimiterEntry, Refusal, Passage, aborts, continues, limit, limit_key, auth,
}

-- `public` stands for /health, /ready, /metrics and /ui, `keys` for /api/v1/auth/keys, and `api` for
-- the other routes of /api/v1.
pub data Route : Type 0 where
  public keys api : Route

pub record Request : Type 0 where
  pub route : Route
  pub header : String
  pub ip : String

-- `middleware.Auth`, if there is a key service, with the service's master key.
unfoldable pub checked : Option (Hashing × String) → KeyRepository → Request → Passage
unfolding auth
checked service r q = elim q.route [
  | public ↦ continues
  | keys ↦ continues
  | api ↦ elim service [ none ↦ continues | some (h, master) ↦ auth h master q.header r ]
]

-- A request goes through the limiter, which may end it, and then through the check of its key.
unfoldable pub guard :
    {L : Type 0}
    → Buckets L
    → Bool
    → Option (Hashing × String)
    → KeyRepository
    → ℕ
    → ℕ
    → Request
    → List (String × LimiterEntry L)
    → Passage × List (String × LimiterEntry L)
unfolding limit limit_key checked
guard b limited service r now at q m = elim limited [
  | false ↦ (checked service r q, m)
  | true ↦
      let (passage, after) = limit b now at (limit_key q.header q.ip) m in
      elim passage [
        | aborts status why ↦ (aborts status why, after)
        | continues ↦ (checked service r q, after)
      ]
]
