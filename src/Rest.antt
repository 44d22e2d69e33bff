-- ===== src/Rest.antt =====
-- api/rest: the HTTP handlers over the services, and the middleware before them. gin, its JSON binding
-- and `strconv` are not modelled: a handler takes what they make of the request, `none` where that is
-- an error. The handlers of accounts take the interface of the repository; the state of the others is
-- that of the bulk operations: both memory repositories, the manager and the workers.
pub mod Routes
pub mod Accounts
pub mod Bots
pub mod Resources
pub mod Workers
pub mod Bulk
pub mod Middleware
pub mod Server
use tgplane.Common.{
  string_key, ℕ, String, Option, none, some, Bool, true, false, Result, ok, err, same?,
  if◌then◌else◌,
}
use tgplane.Common.Int.{ℤ}
use tgplane.Session.Model.{Status, pending, authorizing, ready, disconnected, error}
use tgplane.Repository.{Repository, ListFilter}

pub data Body (F A : Type 0) : Type 0 where
  content : A → Body F A
  failure : F → Body F A
  empty : Body F A

pub record Response (F A : Type 0) : Type 0 where
  pub status : ℕ
  pub body : Body F A

module _ {F A : Type 0} where
  -- `c.JSON(status, value)`, `c.JSON(status, errorResp(err))` and `c.Status(status)`.
  unfoldable pub json : ℕ → A → Response F A
  json status a = record { status = status; body = content a }

  unfoldable pub error_resp : ℕ → F → Response F A
  error_resp status e = record { status = status; body = failure e }

  unfoldable pub no_content : Response F A
  no_content = record { status = 204; body = empty }

-- `queryInt`, over `strconv.Atoi`.
unfoldable pub query_int : (String → Option ℤ) → String → ℤ → ℤ
query_int atoi v def = if same? v "" then def else elim (atoi v) [ none ↦ def | some n ↦ n ]

-- What a `status` of the query names: all rows, the rows of one status, or none, since no row has a
-- status that is not one of the constants.
pub data Filter : Type 0 where
  all_rows nothing : Filter
  only : Status → Filter

unfoldable pub status_filter : String → Filter
status_filter s =
    if same? s ""
    then all_rows
    else if same? s "pending"
    then only pending
    else if same? s "authorizing"
    then only authorizing
    else if same? s "ready"
    then only ready
    else if same? s "disconnected"
    then only disconnected
    else if same? s "error"
    then only error
    else nothing

-- A write whose error is dropped.
unfoldable pub attempted : {F D : Type 0} → Repository D → Result F (Repository D) → Repository D
attempted r (ok s) = s
attempted r (err e) = r
