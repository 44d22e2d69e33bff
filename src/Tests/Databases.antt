-- ===== src/Tests/Databases.antt =====
-- The PostgreSQL repositories at concrete inputs, over tables that are lists of rows.
use tgplane.Common.{
  string_key, nat_key, ℕ, String, List, [], ◌∷◌, ◌++◌, none, some, take, drop, select, ok, err, ◌≡◌,
  ◌≢◌, refl, arith, same?_refl, same?_apart,
}
use tgplane.Common.Int.{pos}
use tgplane.Common.Map.{lookup}
use tgplane.Session.Model.{Status, pending}
use tgplane.Auth.{ApiKey}
use tgplane.Repository as Memory
use tgplane.Repository.{Row, Repository}
use tgplane.Repository.Invariant.{IsValid}
use tgplane.Postgres.{Schema, Sql, Documented}
use tgplane.Postgres.Tables.{Tidy, first}
use tgplane.Postgres.Rows.{
  row_table, ListFilter, account_error, create, list, update_profile, update_status,
  update_worker_id, remove, conditions, created,
}
use tgplane.Postgres.Rows.Validity.{wanted, list_lem}
use tgplane.Postgres.Rows.Agreement.{Shows, Follows, stores_agree}
use tgplane.Postgres.Keys as Keys
use tgplane.Postgres.Keys.{
  create as create_key, key_not_found, key_table, get_by_hash, delete_key, affected,
}
use tgplane.Postgres.Keys.Stored.{deleted_key_gone, created_key_found}
use tgplane.Tests.Tables.{table_sql, table_documented, top, in_use}

abbrev Accounts : Schema
Accounts = row_table ℕ 0

abbrev accounts : Sql Accounts (List (Row ℕ)) ℕ
accounts = table_sql Accounts

abbrev accounts_documented : Documented Accounts accounts
accounts_documented = table_documented Accounts (λ id n. refl)

abbrev row : ℕ → String → String → Row ℕ
row id phone uuid = record {
  id = id;
  unique = phone;
  session_id = uuid;
  status = pending;
  worker_id = none;
  profile = 0;
}

abbrev stored : List (Row ℕ)
stored = row 1 "+1" "u" ∷ row 4 "+4" "v" ∷ []

abbrev memory : Repository ℕ
memory = record {
  store = (1, row 1 "+1" "u") ∷ (4, row 4 "+4" "v") ∷ [];
  by_unique = ("+1", 1) ∷ ("+4", 4) ∷ [];
  by_session = ("u", 1) ∷ ("v", 4) ∷ [];
  seq = 4;
}

memory-IsValid : IsValid memory
unfolding lookup
memory-IsValid = record {
  distinct = (ground arith, (refl, tt));
  indexed = (
    record {
      keyed = refl;
      given = omega arith;
      unique_found = ground (arith, same?_refl {K = String} "+1");
      session_found = ground (arith, same?_refl {K = String} "u");
    },
    (
      record {
        keyed = refl;
        given = omega arith;
        unique_found = ground (arith, same?_apart "+1" "+4" refl, same?_refl {K = String} "+4");
        session_found = ground (arith, same?_apart "u" "v" refl, same?_refl {K = String} "v");
      },
      tt,
    ),
  );
  unique_leads = ((row 1 "+1" "u", ground arith, refl), ((row 4 "+4" "v", ground arith, refl), tt));
  session_leads =
      ((row 1 "+1" "u", ground arith, refl), ((row 4 "+4" "v", ground arith, refl), tt));
}

memory-Shows : Shows memory stored
unfolding Shows lookup first
memory-Shows = λ n. ground arith

stored-Tidy : Tidy Accounts stored
stored-Tidy = (
  ((omega arith, ground (arith, same?_apart "+1" "+4" refl, same?_apart "u" "v" refl)), tt),
  (tt, tt),
)

stores_agree_example :
    ((id p : ℕ) (s : Status)
      → Follows accounts accounts_documented account_error stored
          (Memory.update_profile id p s memory)
          (update_profile accounts account_error id p s stored))
    × ((id : ℕ) (s : Status)
        → Follows accounts accounts_documented account_error stored
            (Memory.update_status id s memory)
            (update_status accounts account_error id s stored))
    × ((session_id worker_id : String)
        → Follows accounts accounts_documented account_error stored
            (Memory.update_worker_id session_id worker_id memory)
            (update_worker_id accounts account_error session_id worker_id stored))
    × ((id : ℕ)
        → Follows accounts accounts_documented account_error stored
            (Memory.remove id memory)
            (remove accounts account_error id stored))
unfolding table_documented
stores_agree_example =
    stores_agree accounts accounts_documented account_error memory stored memory-Shows
      memory-IsValid stored-Tidy

added : (create accounts account_error (row 0 "+7" "x") stored).0 ≡ ok (row 5 "+7" "x")
unfolding create table_sql top in_use created
added = ground (
  arith,
  same?_apart "+1" "+7" refl,
  same?_apart "+4" "+7" refl,
  same?_apart "u" "x" refl,
  same?_apart "v" "x" refl,
)

abbrev page : ListFilter
page = record { status = some pending; worker_id = none; limit = pos 1; offset = pos 1 }

second_row : list accounts account_error page stored ≡ ok (row 4 "+4" "v" ∷ [])
unfolding list conditions table_sql
second_row = ground arith

list_lem_example : (row 4 "+4" "v" ∷ []) ≡ take 1 (drop 1 (select (wanted 0 page) stored))
unfolding table_documented
list_lem_example =
    list_lem accounts accounts_documented account_error page 1 1 stored (row 4 "+4" "v" ∷ []) refl
      refl second_row

abbrev key : ℕ → String → ApiKey
key id key_hash = record { id = id; name = "n"; key_prefix = "p"; key_hash = key_hash }

abbrev keys : Sql key_table (List ApiKey) ℕ
keys = table_sql key_table

abbrev keys_documented : Documented key_table keys
keys_documented = table_documented key_table (λ id n. refl)

abbrev two_keys : List ApiKey
two_keys = key 1 "h" ∷ key 2 "k" ∷ []

two_keys-Tidy : Tidy key_table two_keys
two_keys-Tidy = (((omega arith, ground (arith, same?_apart "h" "k" refl)), tt), (tt, tt))

gone : (delete_key keys 2 two_keys).0 ≡ ok tt
unfolding delete_key table_sql affected
gone = ground arith

deleted_key_gone_example :
    let v = (delete_key keys 2 two_keys).1 in
    (k : ApiKey) × (pre : List ApiKey) × (post : List ApiKey) × (keys_documented.rows two_keys
      ≡ pre ++ k ∷ post)
    × (k.id ≡ 2)
    × (keys_documented.rows v ≡ pre ++ post)
    × ((b : ApiKey) → get_by_hash keys k.key_hash v ≢ ok b)
unfolding table_documented
deleted_key_gone_example = deleted_key_gone keys keys_documented 2 two_keys two_keys-Tidy gone

key_made : (create_key keys "n" "p" "z" two_keys).0 ≡ ok (key 3 "z")
unfolding create_key Keys.created table_sql top in_use
key_made = ground (arith, same?_apart "h" "z" refl, same?_apart "k" "z" refl)

created_key_found_example :
    let v = (create_key keys "n" "p" "z" two_keys).1 in
    (◌≡◌ {A = String} "z" "z")
    × (keys_documented.rows v ≡ two_keys ++ key 3 "z" ∷ [])
    × (get_by_hash keys "z" v ≢ err key_not_found)
    × ((b : ApiKey) → get_by_hash keys "z" v ≡ ok b → b ≡ key 3 "z")
unfolding table_documented
created_key_found_example =
    created_key_found keys keys_documented "n" "p" "z" two_keys (key 3 "z") key_made
