-- ===== src/Node.antt =====
-- cmd/worker/main.go: the factory of TDLib clients that a worker gives to its pool.
pub mod Accounts
use tgplane.Common.{ℕ, String, Bool, Result}
use tgplane.Tdlib.{SessionConfig, Parameters, Client, ClientError, new}

-- The part of the configuration that the factory reads.
pub record TdlibConfig : Type 0 where
  pub api_id : ℕ
  pub api_hash : String
  pub data_dir : String
  pub log_level : ℕ
  pub use_test_dc : Bool

abbrev pub session_config : TdlibConfig → String → String → String → SessionConfig
session_config cfg id phone token = record {
  session_id = id;
  phone_number = phone;
  bot_token = token;
  api_id = cfg.api_id;
  api_hash = cfg.api_hash;
  data_dir = cfg.data_dir;
  log_level = cfg.log_level;
  use_test_dc = cfg.use_test_dc;
}

unfoldable pub factory :
    {T E : Type 0}
    → (String → String → String)
    → (Parameters → String → Result E T)
    → TdlibConfig
    → String
    → String
    → String
    → Result (ClientError E) (Client T E)
factory join authorize cfg id phone token = new join authorize (session_config cfg id phone token)
