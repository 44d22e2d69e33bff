-- ===== src/Tests/Tdlibs.antt =====
-- A TDLib account at concrete inputs: its client is a number, its errors are texts.
use tgplane.Common.{ℕ, String, [], ◌∷◌, map, some, false, ok, ◌≡◌, refl}
use tgplane.Tdlib.{SessionConfig}
use tgplane.Tdlib.Authorization.{
  wants_code, Account, authorized, monitor, returns, reports, started, Steps, done, then_,
}
use tgplane.Tdlib.Authorization.Safety.{IsValid, account_safe}
use tgplane.Tdlib.EventLoop.{poll, starts, uncancelled, event_loop_starts}

abbrev config : SessionConfig
config = record {
  session_id = "s";
  phone_number = "+1";
  bot_token = "";
  api_id = 1;
  api_hash = "hash";
  data_dir = "data";
  log_level = 1;
  use_test_dc = false;
}

abbrev start : Account ℕ String
start = started config

-- The code is asked for, and then `NewClient` returns.
abbrev asked : Account ℕ String
asked = record start { client = monitor wants_code start.client }

abbrev ready : Account ℕ String
ready = record { client = authorized (ok 7) asked.client; pending = false }

asks : Steps 1 start asked
asks = then_ done (reports wants_code)

readies : Steps 1 asked ready
readies = then_ done (returns (ok 7) refl)

account_safe_example : IsValid 1 asked
account_safe_example = account_safe 1 config asked asks

ends : ready.client.tdlib ≡ some 7
unfolding authorized
ends = refl

event_loop_starts_example : poll (map uncancelled (asked ∷ ready ∷ [])) ≡ starts 7
event_loop_starts_example =
    event_loop_starts 1 config 7 (asked ∷ ready ∷ []) (asks, (readies, tt)) ends
