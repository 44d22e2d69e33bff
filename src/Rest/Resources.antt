-- ===== src/Rest/Resources.antt =====
-- api/rest/handler/session.go, auth.go and webhook.go.
use tgplane.Common.{ℕ, String, List, Option, none, some, ok, err}
use tgplane.Session.Model.{Session}
use tgplane.Session.Pool as Pools
use tgplane.Session.Pool.{Pool, PoolError, Effect, Outcome}
use tgplane.Auth as Auth
use tgplane.Auth.{Hashing, ApiKey, KeyRepository, AuthError, no_key, no_random}
use tgplane.Webhook.{Webhook}
use tgplane.Webhook.Store as Store
use tgplane.Webhook.Store.{WebhookRepository, WebhookError, no_webhook}
use tgplane.Rest.{Response, json, error_resp, no_content}

-- A failure that is an error of the service under the handler, or of the request itself.
pub data Failure (E : Type 0) : Type 0 where
  bad_request bad_id key_not_found webhook_not_found : Failure E
  session_not_found : String → Failure E
  service_error : E → Failure E

-- The sessions of the pool on this node.
module _ {C H E : Type 0} where
  -- GET /sessions.
  unfoldable pub list_sessions : Pool C H → Response (Failure (PoolError E)) (List Session)
  unfolding json
  list_sessions p = json 200 (Pools.list p)

  -- GET /sessions/:id.
  unfoldable pub get_session : String → Pool C H → Response (Failure (PoolError E)) Session
  unfolding json error_resp
  get_session id p = elim (Pools.get id p) [
    | none ↦ error_resp 404 (session_not_found id)
    | some s ↦ json 200 s
  ]

  unfoldable pub stopped :
      Outcome C H E → Response (Failure (PoolError E)) (Unit {0}) × Pool C H × List (Effect C)
  unfolding error_resp no_content
  stopped o = elim o.result [
    | err e ↦ (error_resp 404 (service_error e), o.pool, o.effects)
    | ok _ ↦ (no_content, o.pool, o.effects)
  ]

  -- DELETE /sessions/:id.
  unfoldable pub stop_session :
      String → Pool C H → Response (Failure (PoolError E)) (Unit {0}) × Pool C H × List (Effect C)
  unfolding stopped
  stop_session id p = stopped (Pools.remove id p)

-- The reply that shows a new key, without its time.
pub record NewKey : Type 0 where
  pub id : ℕ
  pub name : String
  pub key_prefix : String
  pub key : String

-- POST /auth/keys. `random` is what `rand.Read` fills 32 bytes with.
unfoldable pub create_key :
    Hashing
    → Option (List ℕ)
    → Option String
    → KeyRepository
    → Response (Failure AuthError) NewKey × KeyRepository
unfolding json error_resp
create_key h random none r = (error_resp 400 bad_request, r)
create_key h random (some name) r = elim (Auth.create h random name r) [
  | err e ↦ (error_resp 500 (service_error e), r)
  | ok made ↦ (
    json 201 (record {
      id = made.0.id;
      name = made.0.name;
      key_prefix = made.0.key_prefix;
      key = made.1;
    }),
    made.2,
  )
]

-- GET /auth/keys.
unfoldable pub list_keys : KeyRepository → Response (Failure AuthError) (List ApiKey)
unfolding json
list_keys r = json 200 (Auth.list_keys r)

unfoldable pub key_failure : AuthError → Response (Failure AuthError) (Unit {0})
unfolding error_resp
key_failure no_key = error_resp 404 key_not_found
key_failure no_random = error_resp 500 (service_error no_random)

-- DELETE /auth/keys/:id.
unfoldable pub delete_key :
    Option ℕ → KeyRepository → Response (Failure AuthError) (Unit {0}) × KeyRepository
unfolding error_resp no_content key_failure
delete_key none r = (error_resp 400 bad_id, r)
delete_key (some id) r = elim (Auth.delete_key id r) [
  | err e ↦ (key_failure e, r)
  | ok s ↦ (no_content, s)
]

-- POST /webhooks, on the address, the secret and the events of the body.
unfoldable pub create_webhook :
    Option (String × String × List String)
    → WebhookRepository
    → Response (Failure WebhookError) Webhook × WebhookRepository
unfolding json error_resp
create_webhook none r = (error_resp 400 bad_request, r)
create_webhook (some (url, secret, events)) r =
    let made = Store.create url secret events r in (json 201 made.0, made.1)

-- GET /webhooks.
unfoldable pub list_webhooks : WebhookRepository → Response (Failure WebhookError) (List Webhook)
unfolding json
list_webhooks r = json 200 (Store.list r)

-- DELETE /webhooks/:id.
unfoldable pub delete_webhook :
    Option ℕ → WebhookRepository → Response (Failure WebhookError) (Unit {0}) × WebhookRepository
unfolding error_resp no_content
delete_webhook none r = (error_resp 400 bad_id, r)
delete_webhook (some id) r = elim (Store.delete_webhook id r) [
  | err no_webhook ↦ (error_resp 404 webhook_not_found, r)
  | ok s ↦ (no_content, s)
]
