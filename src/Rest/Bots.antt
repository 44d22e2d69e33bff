-- ===== src/Rest/Bots.antt =====
-- api/rest/handler/bot.go. A manager that is `none` is the nil interface.
use tgplane.Common.{ℕ, String, List, [], Option, none, some, Result, ok, err}
use tgplane.Common.Int.{ℤ, pos}
use tgplane.Session.Model.{ready}
use tgplane.Repository.{no_rows, already_exists, nil_pointer}
use tgplane.Crypto.{Primitives, TokenEncryptor}
use tgplane.Bot as Service
use tgplane.Bot.{Bot, Profile, row_error, encrypt_token, decrypt_token, add_bot, remove_bot}
use tgplane.Bulk.{State}
use tgplane.Worker.Client.{Rpc}
use tgplane.Worker.Manager.{ManagerError}
use tgplane.Worker.Manager.Balance.{Order, assign_bot}
use tgplane.Rest.{
  Response, json, error_resp, no_content, query_int, all_rows, nothing, only, status_filter,
  attempted,
}

pub data BotFailure (E : Type 0) : Type 0 where
  bad_request bad_id : BotFailure E
  service_error : Service.ServiceError → BotFailure E
  worker_error : ManagerError E → BotFailure E

-- `c.JSON(200, bots)`, or a 500.
unfoldable pub listed :
    {E : Type 0} → Result Service.ServiceError (List Bot) → Response (BotFailure E) (List Bot)
unfolding json error_resp
listed (err e) = error_resp 500 (service_error e)
listed (ok bots) = json 200 bots

-- The status of a failed read: `sql.ErrNoRows` is a 404.
unfoldable pub read_status : Service.ServiceError → ℕ
read_status (row_error no_rows) = 404
read_status (row_error (already_exists v)) = 500
read_status (row_error nil_pointer) = 500
read_status (encrypt_token e) = 500
read_status (decrypt_token e) = 500
read_status (add_bot e) = 500
read_status (remove_bot e) = 500

module _ {W E : Type 0} (rpc : Rpc W E) (c : Primitives) (enc : Option (TokenEncryptor c)) where
  -- After `AssignBot`. The two updates of the repository may fail unnoticed.
  unfoldable pub settle :
      Bot → State W → Result (ManagerError E) String × W → Response (BotFailure E) Bot × State W
  unfolding json error_resp attempted
  settle b s (err e, w) = (error_resp 500 (worker_error e), record s { world = w })
  settle b s (ok worker_id, w) =
      let marked = attempted s.bots (Service.update_status b.id ready s.bots) in
      let placed = attempted marked (Service.update_worker_id b.session_id worker_id marked) in
      (
        json 201 (record b { worker_id = some worker_id; status = ready }),
        record s { bots = placed; world = w },
      )

  unfoldable pub assign : Order → Bot → State W → Response (BotFailure E) Bot × State W
  unfolding settle json
  assign arrive b s = elim s.manager [
    | none ↦ (json 201 b, s)
    | some m ↦ settle b s (assign_bot rpc arrive b.session_id b.unique m s.world)
  ]

  -- POST /bots.
  unfoldable pub create :
      Option String
      → (ℕ → Option (List ℕ))
      → String
      → Order
      → State W
      → Response (BotFailure E) Bot × State W
  unfolding assign error_resp
  create none random uuid arrive s = (error_resp 400 bad_request, s)
  create (some token) random uuid arrive s = elim (Service.add c enc random uuid token s.bots) [
    | err e ↦ (error_resp 500 (service_error e), s)
    | ok made ↦ assign arrive made.0 (record s { bots = made.1 })
  ]

  -- GET /bots. The memory repository reads no offset.
  unfoldable pub list :
      (String → Option ℤ) → String → String → State W → Response (BotFailure E) (List Bot)
  unfolding json query_int status_filter listed
  list atoi limit status s =
      let n = query_int atoi limit (pos 50) in
      elim (status_filter status) [
        | all_rows ↦ listed (Service.list c enc (record { status = none; limit = n }) s.bots)
        | only st ↦ listed (Service.list c enc (record { status = some st; limit = n }) s.bots)
        | nothing ↦ json 200 []
      ]

  -- GET /bots/:id.
  unfoldable pub get : Option ℕ → State W → Response (BotFailure E) Bot
  unfolding json error_resp read_status
  get none s = error_resp 400 bad_id
  get (some id) s = elim (Service.get c enc id s.bots) [
    | err e ↦ error_resp (read_status e) (service_error e)
    | ok b ↦ json 200 b
  ]

  -- DELETE /bots/:id.
  unfoldable pub delete : Option ℕ → State W → Response (BotFailure E) (Unit {0}) × State W
  unfolding error_resp no_content
  delete none s = (error_resp 400 bad_id, s)
  delete (some id) s = elim (Service.remove id s.bots) [
    | err e ↦ (error_resp 500 (service_error e), s)
    | ok r ↦ (no_content, record s { bots = r })
  ]
