-- ===== src/Rest/Bulk.antt =====
-- api/rest/handler/bulk.go and health.go.
use tgplane.Common.{Option, none, some}
use tgplane.Bulk.{BulkResult}
use tgplane.Rest.{Response, json, error_resp}

pub data BulkFailure : Type 0 where
  bad_request : BulkFailure

-- The three handlers, each with the operation of the service that it calls, on the body that gin
-- accepts.
unfoldable pub handle :
    {A E : Type 0} → (A → BulkResult E) → Option A → Response BulkFailure (BulkResult E)
unfolding json error_resp
handle operation none = error_resp 400 bad_request
handle operation (some items) = json 207 (operation items)

-- What /health and /ready answer.
pub data Health : Type 0 where
  fine : Health

pub data Unready (E : Type 0) : Type 0 where
  postgres redis : E → Unready E

unfoldable pub health : {E : Type 0} → Response (Unready E) Health
unfolding json
health = json 200 fine

-- A dependency that is nil is `none`; else the error of its ping, or `none`.
unfoldable pub redis_ready : {E : Type 0} → Option (Option E) → Response (Unready E) Health
unfolding json error_resp
redis_ready none = json 200 fine
redis_ready (some none) = json 200 fine
redis_ready (some (some e)) = error_resp 503 (redis e)

unfoldable pub is_ready :
    {E : Type 0} → Option (Option E) → Option (Option E) → Response (Unready E) Health
unfolding redis_ready error_resp
is_ready (some (some e)) rdb = error_resp 503 (postgres e)
is_ready (some none) rdb = redis_ready rdb
is_ready none rdb = redis_ready rdb
