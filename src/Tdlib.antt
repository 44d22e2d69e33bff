-- ===== src/Tdlib.antt =====
-- internal/tdlib/client.go: one TDLib client, which a user account authorizes step by step. go-tdlib
-- is not modelled: what `NewClient` returns, what the authorizer reports and how many texts its
-- channels hold are arguments.
pub mod Authorization
pub mod EventLoop
use tgplane.Common.{
  string_key, ℕ, String, List, [], ◌∷◌, ◌++◌, Option, none, some, Bool, true, false, Result, ok,
  err, length, ltb, if◌then◌else◌, same?, Key, not,
}

pub record SessionConfig : Type 0 where
  pub session_id : String
  pub phone_number : String
  pub bot_token : String
  pub api_id : ℕ
  pub api_hash : String
  pub data_dir : String
  pub log_level : ℕ
  pub use_test_dc : Bool

pub data AuthState : Type 0 where
  wait_phone wait_code wait_password ready error closed : AuthState

unfoldable pub AuthState-discrete : Discrete AuthState
AuthState-discrete = hlevel

instance abbrev pub auth_state_key : Key AuthState
auth_state_key = record { same = AuthState-discrete }

-- The strings of the constants.
unfoldable pub auth_state_string : AuthState → String
auth_state_string wait_phone = "waiting_phone"
auth_state_string wait_code = "waiting_code"
auth_state_string wait_password = "waiting_password"
auth_state_string ready = "ready"
auth_state_string error = "error"
auth_state_string closed = "closed"

-- `T` is go-tdlib's client, and `E` its errors. A channel is what waits in it; a nil one is `none`.
pub record Client (T E : Type 0) : Type 0 where
  pub id : String
  pub tdlib : Option T
  pub auth_state : AuthState
  pub auth_err : Option E
  pub code_ch : Option (List String)
  pub password_ch : Option (List String)

pub data ClientError (E : Type 0) : Type 0 where
  bot_failed : String → E → ClientError E
  not_an_account : ClientError E
  not_waiting : String → ClientError E
  channel_full not_authorized : ClientError E
  tdlib_error : E → ClientError E

-- `SetTdlibParametersRequest`.
pub record Parameters : Type 0 where
  pub use_test_dc : Bool
  pub database_directory : String
  pub files_directory : String
  pub use_file_database : Bool
  pub use_chat_info_database : Bool
  pub use_message_database : Bool
  pub use_secret_chats : Bool
  pub api_id : ℕ
  pub api_hash : String
  pub system_language_code : String
  pub device_model : String
  pub application_version : String

unfoldable pub build_params : SessionConfig → String → Parameters
build_params cfg files_dir = record {
  use_test_dc = cfg.use_test_dc;
  database_directory = files_dir;
  files_directory = files_dir;
  use_file_database = true;
  use_chat_info_database = true;
  use_message_database = true;
  use_secret_chats = false;
  api_id = cfg.api_id;
  api_hash = cfg.api_hash;
  system_language_code = "en";
  device_model = "TGPlane";
  application_version = "0.1.0";
}

-- `select { case ch <- text: default: }` on a channel of this capacity.
unfoldable pub offer : ℕ → String → List String → Option (List String)
offer capacity text waiting =
    if ltb (length waiting) capacity then some (waiting ++ text ∷ []) else none

module _ {T E : Type 0} where
  -- `join` is `filepath.Join`, and `authorize` the blocking `NewClient` with the bot authorizer.
  unfoldable pub new_bot :
      (String → String → String)
      → (Parameters → String → Result E T)
      → SessionConfig
      → Result (ClientError E) (Client T E)
  unfolding build_params
  new_bot join authorize cfg =
      elim (authorize (build_params cfg (join cfg.data_dir cfg.session_id)) cfg.bot_token) [
        | err e ↦ err (bot_failed cfg.session_id e)
        | ok t ↦ ok (record {
          id = cfg.session_id;
          tdlib = some t;
          auth_state = ready;
          auth_err = none;
          code_ch = none;
          password_ch = none;
        })
      ]

  -- The account's client once the phone number is on its way. The goroutines are the steps of Tdlib/Authorization.
  unfoldable pub new_account : SessionConfig → Client T E
  new_account cfg = record {
    id = cfg.session_id;
    tdlib = none;
    auth_state = wait_phone;
    auth_err = none;
    code_ch = some [];
    password_ch = some [];
  }

  unfoldable pub new :
      (String → String → String)
      → (Parameters → String → Result E T)
      → SessionConfig
      → Result (ClientError E) (Client T E)
  unfolding new_bot new_account
  new join authorize cfg =
      if not (same? cfg.bot_token "") then new_bot join authorize cfg else ok (new_account cfg)

  unfoldable pub send_code : ℕ → String → Client T E → Result (ClientError E) (Client T E)
  unfolding offer auth_state_string
  send_code capacity code c = elim c.code_ch [
    | none ↦ err not_an_account
    | some waiting ↦
        if same? c.auth_state wait_code
        then elim (offer capacity code waiting) [
          | some queued ↦ ok (record c { code_ch = some queued })
          | none ↦ err channel_full
        ]
        else err (not_waiting (auth_state_string c.auth_state))
  ]

  unfoldable pub send_password : ℕ → String → Client T E → Result (ClientError E) (Client T E)
  unfolding offer auth_state_string
  send_password capacity password c = elim c.password_ch [
    | none ↦ err not_an_account
    | some waiting ↦
        if same? c.auth_state wait_password
        then elim (offer capacity password waiting) [
          | some queued ↦ ok (record c { password_ch = some queued })
          | none ↦ err channel_full
        ]
        else err (not_waiting (auth_state_string c.auth_state))
  ]

  unfoldable pub get_auth_state : Client T E → String
  unfolding auth_state_string
  get_auth_state c = auth_state_string c.auth_state

  unfoldable pub auth_error : Client T E → Option E
  auth_error c = c.auth_err

  -- The call of go-tdlib's `GetMe`, which `Send` makes as well, whatever its request is.
  unfoldable pub get_me : {U : Type 0} → (T → Result E U) → Client T E → Result (ClientError E) U
  get_me ask c = elim c.tdlib [
    | none ↦ err not_authorized
    | some t ↦ elim (ask t) [ ok u ↦ ok u | err e ↦ err (tdlib_error e) ]
  ]

  unfoldable pub send :
      {R U : Type 0} → (T → Result E U) → R → Client T E → Result (ClientError E) U
  unfolding get_me
  send ask req c = get_me ask c

  -- The go-tdlib client that `Close` closes, and that `Listener` listens to.
  unfoldable pub close : Client T E → Option T
  close c = c.tdlib
