-- ===== src/Tests/Accounts.antt =====
-- The account handlers over PostgreSQL at concrete inputs. The world is the table of accounts.
use tgplane.Common.{
  string_key, nat_key, ℕ, String, List, [], ◌∷◌, none, some, not, same?, select, ok, err, ◌≡◌, ◌≢◌,
  ◌⊎◌, refl, arith, Bool-cases, inl, inr, suc, Result, true,
}
use tgplane.Common.Int.{ℤ}
use tgplane.Session.Model.{authorizing}
use tgplane.Account.{Account, new_account}
use tgplane.Postgres.{Sql, SqlError, no_rows, driver, Documented}
use tgplane.Postgres.Rows as Rows
use tgplane.Postgres.Rows.{gets, deletes, wrapped, StoreError}
use tgplane.Postgres.Rows.Store.{new_store}
use tgplane.Worker.Client.{Rpc}
use tgplane.Worker.Manager.{Manager, call_failed}
use tgplane.Worker.Manager.Balance.{
  Order, assign_account, least_loaded, pick, best_of, score, count_sessions, assigned,
}
use tgplane.Rest.{json, error_resp, no_content}
use tgplane.Rest.Accounts.{
  create, added, assign, settle, get, delete, removed, row_error, worker_error, remove_failed,
}
use tgplane.Rest.Accounts.Creation.{
  account_table, accounts, Returns, Updates, Answers, create-get, create-orphan, phone_taken,
}
use tgplane.Rest.Accounts.Gone.{delete-get}
use tgplane.Tests.Tables.{table_sql, table_documented, top, in_use}

abbrev World : Type 0
World = List Account

abbrev sql : Sql account_table World ℕ
sql = table_sql account_table

abbrev documented : Documented account_table sql
documented = table_documented account_table (λ id n. refl)

abbrev rpc : Rpc World String
rpc = record {
  dial = λ addr w. (ok 7, w);
  close_conn = λ c w. w;
  health_rpc = λ c w. (ok true, w);
  add_account_rpc =
      λ c id phone w. (ok (record { session_id = id; status = "ready"; type = "account" }), w);
  add_bot_rpc = λ c id token w. (err "full", w);
  remove_session_rpc = λ c id w. (ok tt, w);
  list_sessions_rpc = λ c w. ok [];
  get_metrics_rpc = λ c w. err "down";
  get_auth_state_rpc = λ c id w. ok "ready";
  send_auth_code_rpc = λ c id code w. (err "down", w);
  send_password_rpc = λ c id password w. (err "down", w);
  upsert = λ id addr w. (none, w);
  delete_row = λ id w. (none, w);
  list_rows = λ w. ok [];
}

-- The same workers, which refuse every account.
abbrev refusing : Rpc World String
refusing = record rpc { add_account_rpc = λ c id phone w. (err "full", w) }

abbrev text : String → ℤ → ℤ → World → Result (StoreError ℕ) (List Account)
text status limit offset w = ok []

abbrev one : Manager
one = record {
  workers = ("w", record { id = "w"; addr = "host:1"; conn = 7 }) ∷ [];
  stored = true;
  ready_hook = true;
  tasks = [];
}

abbrev in_order : Order
in_order l = l

returns : (r : Rpc World String) → Returns sql documented text r
unfolding table_sql
returns r n w nothing =
    elim (Bool-cases (in_use account_table (account_table.make (suc (top account_table w)) n) w)) [
      | inl used ↦ ground arith
      | inr free ↦ ground arith
    ]

updates : Updates sql documented text rpc
unfolding table_sql
updates d c w e failed = ground arith

abbrev placed : Account
placed = record (new_account "u" "+1") { id = 1; worker_id = some "w"; status = authorizing }

posted :
    (create rpc (accounts sql documented text rpc) (some "+1") "u" in_order (some one) []).0
    ≡ json 201 placed
unfolding create added assign settle new_store Rows.create Rows.created table_sql top in_use
    assign_account least_loaded pick best_of score count_sessions assigned
posted = refl

create-get_example :
    (documented.rows
        (create rpc (accounts sql documented text rpc) (some "+1") "u" in_order (some one) []).1
      ≡ placed ∷ [])
    × Answers sql documented text rpc placed
        (create rpc (accounts sql documented text rpc) (some "+1") "u" in_order (some one) []).1
unfolding table_documented
create-get_example =
    create-get sql documented text rpc "+1" "u" in_order (some one) placed [] tt
      (λ conn id phone w. refl) (returns rpc) updates posted

refused :
    (create refusing
      (accounts sql documented text refusing)
      (some "+1")
      "u"
      in_order
      (some one)
      []).0
    ≡ error_resp 500 (worker_error (call_failed "w" "full"))
unfolding create added assign settle new_store Rows.create Rows.created table_sql top in_use
    assign_account least_loaded pick best_of score count_sessions assigned
refused = refl

create-orphan_example :
    let w =
      (create refusing
        (accounts sql documented text refusing)
        (some "+1")
        "u"
        in_order
        (some one)
        []).1 in
    (a : Account) × (a ≡ record (new_account "u" "+1") { id = a.id })
    × (documented.rows w ≡ a ∷ [])
    × Answers sql documented text refusing a w
unfolding table_documented
create-orphan_example =
    create-orphan sql documented text refusing "+1" "u" in_order (some one) (call_failed "w" "full")
      [] tt (λ conn id phone w. refl) (returns refusing) refused

abbrev alice : Account
alice = record (new_account "u" "+1") { id = 1 }

phone_taken_example :
    (create rpc
      (accounts sql documented text rpc)
      (some "+1")
      "v"
      in_order
      (some one)
      (alice ∷ [])).0
    ≢ json 201 placed
unfolding table_documented
phone_taken_example =
    phone_taken sql documented text rpc "v" in_order (some one) alice placed [] [] (alice ∷ []) refl
      (returns rpc)

removed_one : (delete rpc (accounts sql documented text rpc) (some 1) (alice ∷ [])).0 ≡ no_content
unfolding delete removed new_store Rows.remove Rows.executed table_sql
removed_one = refl

delete-get_example :
    let store = accounts sql documented text rpc in
    let v = (delete rpc store (some 1) (alice ∷ [])).1 in
    (documented.rows v ≡ select (λ a. not (same? a.id 1)) (documented.rows (alice ∷ [])))
    × ((get rpc store (some 1) v ≡ error_resp 404 (row_error (wrapped (gets 1) no_rows)))
        ⊎ ((e : ℕ) × (get rpc store (some 1) v
              ≡ error_resp 500 (row_error (wrapped (gets 1) (driver e))))))
    × (((delete rpc store (some 1) v).0 ≡ no_content)
          × (documented.rows (delete rpc store (some 1) v).1 ≡ documented.rows v)
        ⊎ ((e : SqlError ℕ) × ((delete rpc store (some 1) v).0
              ≡ error_resp 500 (remove_failed (wrapped (deletes 1) e)))))
delete-get_example = delete-get sql documented text rpc 1 (alice ∷ []) removed_one
