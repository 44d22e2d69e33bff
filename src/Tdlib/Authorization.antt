-- ===== src/Tdlib/Authorization.antt =====
-- The goroutines that `newAccount` starts, interleaved with the calls of `SendCode` and
-- `SendPassword`: one waits for `NewClient`, the other follows the authorizer's reports.
pub mod Safety
use tgplane.Common.{
  string_key, ℕ, String, List, [], ◌∷◌, Option, none, some, Bool, true, false, Result, ok, err, ◌≡◌,
  ◌≢◌, refl, ◌⊎◌, inl, inr, ◌≤◌, length, length-append, arith, ap, sym, ◌∙◌, ◌++◌,
}
use mathlib.Core.Option.{some-injective}
use tgplane.Tdlib.{
  SessionConfig, AuthState, wait_phone, wait_code, wait_password, ready, error, closed, Client,
  new_account, send_code, send_password, offer,
}

-- The types of the states on `auth.State` that the monitor tells apart.
pub data Report : Type 0 where
  wants_code wants_password is_ready another : Report

-- `pending` says that `NewClient` has not returned.
pub record Account (T E : Type 0) : Type 0 where
  pub client : Client T E
  pub pending : Bool

module _ {T E : Type 0} where
  -- What the first goroutine writes once `NewClient` has returned.
  unfoldable pub authorized : Result E T → Client T E → Client T E
  authorized (ok t) c = record c { tdlib = some t; auth_state = ready }
  authorized (err e) c = record c { auth_state = error; auth_err = some e }

  -- What the second one writes for a report.
  unfoldable pub monitor : Report → Client T E → Client T E
  monitor wants_code c = record c { auth_state = wait_code }
  monitor wants_password c = record c { auth_state = wait_password }
  monitor is_ready c = record c { auth_state = ready }
  monitor another c = c

  -- One step of the account, on channels of this capacity. The authorizer takes the oldest text. A
  -- call tests a state that it read before, which may be out of date when it sends.
  pub data Step (capacity : ℕ) (a : Account T E) : Account T E → Type 0 where
    returns :
        (r : Result E T)
        → a.pending ≡ true
        → Step capacity a (record { client = authorized r a.client; pending = false })
    reports : (r : Report) → Step capacity a (record a { client = monitor r a.client })
    submits_code :
        (seen : AuthState) (code : String) (c : Client T E)
        → send_code capacity code (record a.client { auth_state = seen }) ≡ ok c
        → Step capacity a (record a { client = record a.client { code_ch = c.code_ch } })
    submits_password :
        (seen : AuthState) (password : String) (c : Client T E)
        → send_password capacity password (record a.client { auth_state = seen }) ≡ ok c
        → Step capacity a (record a { client = record a.client { password_ch = c.password_ch } })
    takes_code :
        (code : String) (rest : List String)
        → a.client.code_ch ≡ some (code ∷ rest)
        → Step capacity a (record a { client = record a.client { code_ch = some rest } })
    takes_password :
        (password : String) (rest : List String)
        → a.client.password_ch ≡ some (password ∷ rest)
        → Step capacity a (record a { client = record a.client { password_ch = some rest } })

  abbrev pub started : SessionConfig → Account T E
  started cfg = record { client = new_account cfg; pending = true }

  pub data Steps (capacity : ℕ) (a : Account T E) : Account T E → Type 0 where
    done : Steps capacity a a
    then_ : {b c : Account T E} → Steps capacity a b → Step capacity b c → Steps capacity a c
