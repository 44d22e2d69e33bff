-- ===== src/Worker/Wire.antt =====
-- The messages of api/proto/worker.proto that the server and the client exchange, and the strings
-- that stand for statuses and session types in them.
use tgplane.Common.{ℕ, String}
use tgplane.Session.Model.{
  SessionType, account, bot, Status, pending, authorizing, ready, disconnected, error,
}

pub record SessionInfo : Type 0 where
  pub session_id : String
  pub status : String
  pub type : String

pub record TelegramUpdate (P : Type 0) : Type 0 where
  pub session_id : String
  pub type : String
  pub payload : P
  pub received_at : ℕ

-- The counts are int32 and updates_total is int64, as bit patterns.
pub record WorkerMetrics : Type 0 where
  pub worker_id : String
  pub session_count : ℕ
  pub ready_count : ℕ
  pub error_count : ℕ
  pub updates_total : ℕ
  pub collected_at : ℕ

-- The gRPC status codes that the server returns.
pub data Code : Type 0 where
  internal not_found : Code

-- `string(t)` and `string(s)`.
unfoldable pub type_string : SessionType → String
type_string account = "account"
type_string bot = "bot"

unfoldable pub status_string : Status → String
status_string pending = "pending"
status_string authorizing = "authorizing"
status_string ready = "ready"
status_string disconnected = "disconnected"
status_string error = "error"
