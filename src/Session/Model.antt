-- ===== src/Session/Model.antt =====
-- internal/session/session.go: the runtime state of one Telegram account or bot. The time that
-- `time.Now()` returns is an argument.
use tgplane.Common.{ℕ, String, Key}

-- The strings "account" and "bot".
pub data SessionType : Type 0 where
  account bot : SessionType

pub data Status : Type 0 where
  pending authorizing ready disconnected error : Status

unfoldable pub SessionType-discrete : Discrete SessionType
SessionType-discrete = hlevel

unfoldable pub Status-discrete : Discrete Status
Status-discrete = hlevel

instance abbrev pub session_type_key : Key SessionType
session_type_key = record { same = SessionType-discrete }

instance abbrev pub status_key : Key Status
status_key = record { same = Status-discrete }

-- The cancel function of the source is the `cancel` effect of the pool.
pub record Session : Type 0 where
  pub id : String
  pub type : SessionType
  pub status : Status
  pub created_at : ℕ
  pub updated_at : ℕ

-- `created` and `updated` are two readings of the clock.
unfoldable pub new_session : String → SessionType → ℕ → ℕ → Session
new_session id t created updated = record {
  id = id;
  type = t;
  status = pending;
  created_at = created;
  updated_at = updated;
}

unfoldable pub set_status : Session → Status → ℕ → Session
set_status s status now = record s { status = status; updated_at = now }
