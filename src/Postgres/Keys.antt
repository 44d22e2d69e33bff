-- ===== src/Postgres/Keys.antt =====
-- internal/auth/postgres.go: the table of API keys. The times are left out.
pub mod Stored
use tgplane.Common.{
  string_key, nat_key, ℕ, String, List, [], ◌∷◌, ◌++◌, Option, none, some, Bool, true, false, not,
  ◌≡◌, ◌≢◌, refl, sym, ap, Result, ok, err, map_err, map_err-ok, same?, same?_refl, ◌==◌,
  if◌then◌else◌, select, select-append, length, arith, Result-cases, Option-cases, List-cases, inl,
  inr, All, ◌<◌,
}
use tgplane.Auth.{ApiKey}
use tgplane.Postgres.{Schema, Sql, by_id, SqlError, no_rows, driver, Documented, clashes}
use tgplane.Postgres.Tables.{
  Tidy, append-Tidy, All-middle, Apart, others-Apart, select-middle, select_others, append-middle,
}

-- The columns that an INSERT names.
pub record NewKey : Type 0 where
  pub name : String
  pub key_prefix : String
  pub key_hash : String

pub data KeyCondition : Type 0 where
  id_is : ℕ → KeyCondition
  hash_is : String → KeyCondition

abbrev pub key_holds : KeyCondition → ApiKey → Bool
key_holds (id_is n) k = same? k.id n
key_holds (hash_is h) k = same? k.key_hash h

-- The table `api_keys`; no statement updates it.
abbrev pub key_table : Schema
key_table = record {
  Row = ApiKey;
  New = NewKey;
  Condition = KeyCondition;
  Change = Unit;
  Shown = ApiKey;
  id = λ k. k.id;
  make =
      λ id n. record { id = id; name = n.name; key_prefix = n.key_prefix; key_hash = n.key_hash };
  holds = key_holds;
  write = λ d k. k;
  shown = λ k. k;
  unique = λ k. k.key_hash ∷ [];
}

-- `key_not_found` is `ErrNotFound`.
pub data KeyError (E : Type 0) : Type 0 where
  key_not_found no_row_returned : KeyError E
  sql_failed : SqlError E → KeyError E

module _ {W E : Type 0} (sql : Sql key_table W E) where
  unfoldable pub created :
      Result (SqlError E) (Option (Result (SqlError E) ApiKey)) → Result (KeyError E) ApiKey
  created (err e) = err (sql_failed e)
  created (ok none) = err no_row_returned
  created (ok (some r)) = map_err sql_failed r

  unfoldable pub create : String → String → String → W → Result (KeyError E) ApiKey × W
  unfolding created
  create name key_prefix key_hash w =
      let out =
        sql.insert (record { name = name; key_prefix = key_prefix; key_hash = key_hash }) w in
      (created out.0, out.1)

  -- `errors.Is(err, sql.ErrNoRows)`.
  unfoldable pub not_found : SqlError E → KeyError E
  not_found no_rows = key_not_found
  not_found e = sql_failed e

  unfoldable pub get_by_hash : String → W → Result (KeyError E) ApiKey
  unfolding not_found
  get_by_hash key_hash w = map_err not_found (sql.select_one (hash_is key_hash) w)

  unfoldable pub list : W → Result (KeyError E) (List ApiKey)
  list w = map_err sql_failed (sql.select_rows [] by_id none w)

  unfoldable pub affected : Result (SqlError E) ℕ → Result (KeyError E) (Unit {0})
  affected (err e) = err (sql_failed e)
  affected (ok n) = if n == 0 then err key_not_found else ok tt

  unfoldable pub delete_key : ℕ → W → Result (KeyError E) (Unit {0}) × W
  unfolding affected
  delete_key id w = let out = sql.delete (id_is id) w in (affected out.0, out.1)
