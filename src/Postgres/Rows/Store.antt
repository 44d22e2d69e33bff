-- ===== src/Postgres/Rows/Store.antt =====
-- The interface `Repository` of internal/account/repository.go and internal/bot/repository.go, and the
-- PostgreSQL repositories as implementations of it. A program's functions take the interface.
use tgplane.Common.{ℕ, String, List, Bool, true, false, Result}
use tgplane.Common.Int.{ℤ}
use tgplane.Session.Model.{Status}
use tgplane.Repository.{Row}
use tgplane.Postgres.{Sql, SqlError, no_rows, driver}
use tgplane.Postgres.Rows.{
  row_table, ListFilter, Method, StoreError, wrapped, plain, create, get_by_id, list, update_status,
  update_worker_id, list_by_worker_id, remove,
}

-- The methods that the services of the main node call. A world `W` holds the rows. `list_text` is
-- `List` for a status that is none of the constants: a status, a limit and an offset.
pub record Store (D W F : Type 0) : Type 0 where
  pub create_row : Row D → W → Result F (Row D) × W
  pub row_by_id : ℕ → W → Result F (Row D)
  pub list_rows : ListFilter → W → Result F (List (Row D))
  pub list_text : String → ℤ → ℤ → W → Result F (List (Row D))
  pub set_row_status : ℕ → Status → W → Result F (Unit {0}) × W
  pub set_row_worker : String → String → W → Result F (Unit {0}) × W
  pub rows_of_worker : String → W → Result F (List (Row D))
  pub delete_row : ℕ → W → Result F (Unit {0}) × W
  -- `errors.Is(err, sql.ErrNoRows)`.
  pub is_no_rows : F → Bool

unfoldable pub is_sql_no_rows : {E : Type 0} → SqlError E → Bool
is_sql_no_rows no_rows = true
is_sql_no_rows (driver e) = false

-- `%w` keeps the error that it wraps.
unfoldable pub wraps_no_rows : {E : Type 0} → StoreError E → Bool
unfolding is_sql_no_rows
wraps_no_rows (wrapped method e) = is_sql_no_rows e
wraps_no_rows (plain e) = is_sql_no_rows e

-- `NewPostgresRepository`. `text` is what PostgreSQL answers to a status of another text.
unfoldable pub new_store :
    {D W E : Type 0} {blank : D}
    → Sql (row_table D blank) W E
    → (Method → SqlError E → StoreError E)
    → (String → ℤ → ℤ → W → Result (StoreError E) (List (Row D)))
    → Store D W (StoreError E)
new_store sql fails text = record {
  create_row = create sql fails;
  row_by_id = get_by_id sql fails;
  list_rows = list sql fails;
  list_text = text;
  set_row_status = update_status sql fails;
  set_row_worker = update_worker_id sql fails;
  rows_of_worker = list_by_worker_id sql fails;
  delete_row = remove sql fails;
  is_no_rows = wraps_no_rows;
}
