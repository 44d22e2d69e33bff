-- ===== src/Postgres/Webhooks.antt =====
-- internal/webhook/postgres.go: the table of webhooks. The times are left out.
pub mod Listing
use tgplane.Common.{
  nat_key, ℕ, String, List, [], ◌∷◌, ◌++◌, Option, none, some, Bool, true, false, not, ◌≡◌, refl,
  Result, ok, err, map_err, map_err-ok, same?, ◌==◌, if◌then◌else◌, select, length, arith,
  Result-cases, inl, inr, ap,
}
use tgplane.Webhook.{Webhook}
use tgplane.Postgres.{Schema, Sql, SqlError, no_rows, Documented}

pub record NewWebhook : Type 0 where
  pub url : String
  pub secret : String
  pub events : List String

-- The table `webhooks`: a WHERE clause is an id, and no statement updates it.
abbrev pub hook_table : Schema
hook_table = record {
  Row = Webhook;
  New = NewWebhook;
  Condition = ℕ;
  Change = Unit;
  Shown = Webhook;
  id = λ h. h.id;
  make = λ id n. record { id = id; url = n.url; secret = n.secret; events = n.events };
  holds = λ n h. same? h.id n;
  write = λ d h. h;
  shown = λ h. h;
  unique = λ h. [];
}

-- The cursor of `QueryxContext`: the scan of each row, and `rows.Err()`.
abbrev pub Cursor : Type 0 → Type 0
Cursor E = List (Result (SqlError E) Webhook) × Option (SqlError E)

pub data StoreError (E : Type 0) : Type 0 where
  webhook_not_found : StoreError E
  sql_failed : SqlError E → StoreError E

module _ {E : Type 0} where
  -- The loop of `List`.
  unfoldable pub scan_all :
      List (Result (SqlError E) Webhook)
      → Option (SqlError E)
      → Result (StoreError E) (List Webhook)
  scan_all [] none = ok []
  scan_all [] (some e) = err (sql_failed e)
  scan_all (err e ∷ rest) end = err (sql_failed e)
  scan_all (ok h ∷ rest) end = elim (scan_all rest end) [ err e ↦ err e | ok hs ↦ ok (h ∷ hs) ]

  -- `StructScan` of a result without a row fails.
  unfoldable pub created :
      Result (SqlError E) (Option (Result (SqlError E) Webhook)) → Result (StoreError E) Webhook
  created (err e) = err (sql_failed e)
  created (ok none) = err (sql_failed no_rows)
  created (ok (some r)) = map_err sql_failed r

  unfoldable pub affected : Result (SqlError E) ℕ → Result (StoreError E) (Unit {0})
  affected (err e) = err (sql_failed e)
  affected (ok n) = if n == 0 then err webhook_not_found else ok tt

module _ {W E : Type 0} (sql : Sql hook_table W E) where
  unfoldable pub create : String → String → List String → W → Result (StoreError E) Webhook × W
  unfolding created
  create url secret events w =
      let out = sql.insert (record { url = url; secret = secret; events = events }) w in
      (created out.0, out.1)

  unfoldable pub list :
      (W → Result (SqlError E) (Cursor E)) → W → Result (StoreError E) (List Webhook)
  unfolding scan_all
  list query w = elim (query w) [
    | err e ↦ err (sql_failed e)
    | ok (scans, end) ↦ scan_all scans end
  ]

  -- `Delete`.
  unfoldable pub delete_webhook : ℕ → W → Result (StoreError E) (Unit {0}) × W
  unfolding affected
  delete_webhook id w = let out = sql.delete id w in (affected out.0, out.1)
