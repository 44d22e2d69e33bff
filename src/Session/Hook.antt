-- ===== src/Session/Hook.antt =====
-- The hook interface of internal/session/pool.go, and its implementation in
-- internal/metrics/session_hook.go over the vectors of internal/metrics/metrics.go. A Prometheus
-- vector is a function of its labels, and its numbers are exact.
use tgplane.Common.{ℕ, ◌+◌, same?, if◌then◌else◌}
use tgplane.Common.Int.{ℤ, pos, ◌+ℤ◌, ◌-ℤ◌}
use tgplane.Session.Model.{SessionType, Status, authorizing, session_type_key, status_key}

-- One constructor for each method of `Hook`.
pub data HookEvent : Type 0 where
  on_added : SessionType → HookEvent
  on_removed : SessionType → Status → HookEvent
  on_status_changed : SessionType → Status → Status → HookEvent
  on_error : SessionType → HookEvent

pub record Metrics : Type 0 where
  pub sessions_active : SessionType → Status → ℤ
  pub sessions_total : SessionType → ℕ
  pub session_errors : SessionType → ℕ

-- `WithLabelValues(t, s).Inc()` and `.Dec()` of a gauge.
unfoldable pub inc_gauge :
    SessionType → Status → (SessionType → Status → ℤ) → SessionType → Status → ℤ
inc_gauge t s g u r = if same? t u then (if same? s r then g u r +ℤ pos 1 else g u r) else g u r

unfoldable pub dec_gauge :
    SessionType → Status → (SessionType → Status → ℤ) → SessionType → Status → ℤ
dec_gauge t s g u r = if same? t u then (if same? s r then g u r -ℤ pos 1 else g u r) else g u r

-- `WithLabelValues(t).Inc()` of a counter.
unfoldable pub inc_counter : SessionType → (SessionType → ℕ) → SessionType → ℕ
inc_counter t c u = if same? t u then c u + 1 else c u

-- The methods of `SessionHook`.
unfoldable pub record_event : HookEvent → Metrics → Metrics
unfolding inc_gauge dec_gauge inc_counter
record_event (on_added t) m = record m {
  sessions_total = inc_counter t m.sessions_total;
  sessions_active = inc_gauge t authorizing m.sessions_active;
}
record_event (on_removed t final) m = record m {
  sessions_active = dec_gauge t final m.sessions_active;
}
record_event (on_status_changed t old new) m = record m {
  sessions_active = inc_gauge t new (dec_gauge t old m.sessions_active);
}
record_event (on_error t) m = record m { session_errors = inc_counter t m.session_errors }

-- Before any session.
abbrev pub no_metrics : Metrics
no_metrics = record {
  sessions_active = λ t s. pos 0;
  sessions_total = λ t. 0;
  session_errors = λ t. 0;
}
