-- ===== src/Rest/Accounts.antt =====
-- api/rest/handler/account.go and the service of internal/account/service.go behind it, over the
-- repository that the main node gives them. A manager that is `none` is the nil interface. The world
-- `W` holds the rows and the workers.
pub mod Creation
pub mod Gone
use tgplane.Common.{ℕ, String, List, Option, none, some, Bool, Result, ok, err, if◌then◌else◌}
use tgplane.Common.Int.{ℤ, pos}
use tgplane.Session.Model.{Status, authorizing}
use tgplane.Account.{Account, Profile, new_account}
use tgplane.Postgres.Rows.{ListFilter}
use tgplane.Postgres.Rows.Store.{Store}
use tgplane.Worker.Client.{Rpc}
use tgplane.Worker.Manager.{Manager, ManagerError}
use tgplane.Worker.Manager.Balance.{
  Order, assign_account, send_auth_code, send_password, get_auth_state,
}
use tgplane.Rest.{
  Response, json, error_resp, no_content, query_int, Filter, all_rows, nothing, only, status_filter,
}

-- `add_failed` and `remove_failed` are the errors that the service wraps.
pub data AccountFailure (E F : Type 0) : Type 0 where
  bad_request bad_id auth_not_available not_assigned : AccountFailure E F
  add_failed remove_failed row_error : F → AccountFailure E F
  worker_error : ManagerError E → AccountFailure E F

-- `gin.H{"session_id": ..., "state": ...}`.
pub record AuthStateReply : Type 0 where
  pub session_id : String
  pub state : String

module _ {W E F : Type 0} (rpc : Rpc W E) (store : Store Profile W F) where
  -- After `AssignAccount`. The errors of the two updates are dropped.
  unfoldable pub settle :
      Account → Result (ManagerError E) String × W → Response (AccountFailure E F) Account × W
  unfolding json error_resp
  settle a (err e, w) = (error_resp 500 (worker_error e), w)
  settle a (ok worker_id, w) =
      let marked = (store.set_row_status a.id authorizing w).1 in
      let placed = (store.set_row_worker a.session_id worker_id marked).1 in
      (json 201 (record a { worker_id = some worker_id; status = authorizing }), placed)

  unfoldable pub assign :
      Order → Option Manager → Account → W → Response (AccountFailure E F) Account × W
  unfolding settle json
  assign arrive none a w = (json 201 a, w)
  assign arrive (some m) a w = settle a (assign_account rpc arrive a.session_id a.unique m w)

  -- After `Service.Add`.
  unfoldable pub added :
      Order → Option Manager → Result F Account × W → Response (AccountFailure E F) Account × W
  unfolding assign error_resp
  added arrive manager (err e, w) = (error_resp 500 (add_failed e), w)
  added arrive manager (ok a, w) = assign arrive manager a w

  -- POST /accounts. `uuid` is the random session id that the service makes.
  unfoldable pub create :
      Option String
      → String
      → Order
      → Option Manager
      → W
      → Response (AccountFailure E F) Account × W
  unfolding added error_resp
  create none uuid arrive manager w = (error_resp 400 bad_request, w)
  create (some phone) uuid arrive manager w =
      added arrive manager (store.create_row (new_account uuid phone) w)

  unfoldable pub listed : Result F (List Account) → Response (AccountFailure E F) (List Account)
  unfolding json error_resp
  listed (err e) = error_resp 500 (row_error e)
  listed (ok rows) = json 200 rows

  -- GET /accounts.
  unfoldable pub list :
      (String → Option ℤ)
      → String
      → String
      → String
      → W
      → Response (AccountFailure E F) (List Account)
  unfolding listed query_int status_filter
  list atoi limit offset status w =
      let n = query_int atoi limit (pos 50) in
      let o = query_int atoi offset (pos 0) in
      let all : ListFilter = record { status = none; worker_id = none; limit = n; offset = o } in
      elim (status_filter status) [
        | all_rows ↦ listed (store.list_rows all w)
        | only st ↦ listed (store.list_rows (record all { status = some st }) w)
        | nothing ↦ listed (store.list_text status n o w)
      ]

  -- GET /accounts/:id.
  unfoldable pub shown : Result F Account → Response (AccountFailure E F) Account
  unfolding json error_resp
  shown (err e) = error_resp (if store.is_no_rows e then 404 else 500) (row_error e)
  shown (ok a) = json 200 a

  unfoldable pub get : Option ℕ → W → Response (AccountFailure E F) Account
  unfolding shown error_resp
  get none w = error_resp 400 bad_id
  get (some id) w = shown (store.row_by_id id w)

  -- DELETE /accounts/:id.
  unfoldable pub removed : Result F (Unit {0}) × W → Response (AccountFailure E F) (Unit {0}) × W
  unfolding error_resp no_content
  removed (err e, w) = (error_resp 500 (remove_failed e), w)
  removed (ok u, w) = (no_content, w)

  unfoldable pub delete : Option ℕ → W → Response (AccountFailure E F) (Unit {0}) × W
  unfolding error_resp removed
  delete none w = (error_resp 400 bad_id, w)
  delete (some id) w = removed (store.delete_row id w)

  -- The end of `sendAuthCode` and of `sendPassword`, with the status that the reply names.
  unfoldable pub submitted :
      {B : Type 0}
      → String
      → Result (ManagerError E) B × W
      → Response (AccountFailure E F) String × W
  unfolding json error_resp
  submitted reply (err e, w) = (error_resp 500 (worker_error e), w)
  submitted reply (ok _, w) = (json 200 reply, w)

  -- The account and its worker, or the response that ends the handler.
  unfoldable pub assigned_account :
      {B : Type 0} → ℕ → W → Result (Response (AccountFailure E F) B) (Account × String)
  unfolding error_resp
  assigned_account id w = elim (store.row_by_id id w) [
    | err e ↦ err (error_resp 404 (row_error e))
    | ok a ↦ elim a.worker_id [
      | none ↦ err (error_resp 400 not_assigned)
      | some worker_id ↦ ok (a, worker_id)
    ]
  ]

  -- POST /accounts/:id/auth-code.
  unfoldable pub send_code :
      Option ℕ → Option String → Option Manager → W → Response (AccountFailure E F) String × W
  unfolding error_resp assigned_account submitted
  send_code id body manager w = elim manager [
    | none ↦ (error_resp 501 auth_not_available, w)
    | some m ↦ elim id [
      | none ↦ (error_resp 400 bad_id, w)
      | some n ↦ elim body [
        | none ↦ (error_resp 400 bad_request, w)
        | some code ↦ elim (assigned_account n w) [
          | err r ↦ (r, w)
          | ok (a, worker_id) ↦
              submitted "code_submitted" (send_auth_code rpc worker_id a.session_id code m w)
        ]
      ]
    ]
  ]

  -- POST /accounts/:id/password.
  unfoldable pub submit_password :
      Option ℕ → Option String → Option Manager → W → Response (AccountFailure E F) String × W
  unfolding error_resp assigned_account submitted
  submit_password id body manager w = elim manager [
    | none ↦ (error_resp 501 auth_not_available, w)
    | some m ↦ elim id [
      | none ↦ (error_resp 400 bad_id, w)
      | some n ↦ elim body [
        | none ↦ (error_resp 400 bad_request, w)
        | some password ↦ elim (assigned_account n w) [
          | err r ↦ (r, w)
          | ok (a, worker_id) ↦
              submitted "password_submitted" (send_password rpc worker_id a.session_id password m w)
        ]
      ]
    ]
  ]

  unfoldable pub auth_state_reply :
      Account → Result (ManagerError E) String → Response (AccountFailure E F) AuthStateReply
  unfolding json error_resp
  auth_state_reply a (err e) = error_resp 500 (worker_error e)
  auth_state_reply a (ok state) = json 200 (record { session_id = a.session_id; state = state })

  -- GET /accounts/:id/auth-state.
  unfoldable pub auth_state :
      Option ℕ → Option Manager → W → Response (AccountFailure E F) AuthStateReply
  unfolding json error_resp auth_state_reply
  auth_state id manager w = elim manager [
    | none ↦ error_resp 501 auth_not_available
    | some m ↦ elim id [
      | none ↦ error_resp 400 bad_id
      | some n ↦ elim (store.row_by_id n w) [
        | err e ↦ error_resp 404 (row_error e)
        | ok a ↦ elim a.worker_id [
          | none ↦ json 200 (record { session_id = a.session_id; state = "not_assigned" })
          | some worker_id ↦ auth_state_reply a (get_auth_state rpc worker_id a.session_id m w)
        ]
      ]
    ]
  ]
