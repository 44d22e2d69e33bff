-- ===== src/Postgres/Rows.antt =====
-- internal/account/postgres.go and internal/bot/postgres.go, which differ in the names of the columns
-- and in which errors they wrap. The times of a row are left out.
pub mod Store
pub mod Validity
pub mod Agreement
use tgplane.Common.{
  string_key, nat_key, ℕ, String, List, [], ◌∷◌, ◌++◌, Option, none, some, Bool, true, false,
  Result, ok, err, map_err, same?, ◌==◌,
}
use tgplane.Common.Int.{ℤ, pos}
use tgplane.Session.Model.{Status, status_key}
use tgplane.Repository.{Row, default_limit}
use tgplane.Postgres.{Schema, Sql, SqlError, by_id}

-- The columns that an INSERT names.
pub record NewRow : Type 0 where
  pub unique : String
  pub session_id : String
  pub status : Status

-- `<column> = $n` of a WHERE clause.
pub data Condition : Type 0 where
  id_is : ℕ → Condition
  session_is worker_is : String → Condition
  status_is : Status → Condition

-- A SET clause.
pub data Change (D : Type 0) : Type 0 where
  set_profile : D → Status → Change D
  set_status : Status → Change D
  set_worker : String → Change D

abbrev pub holds : {D : Type 0} → Condition → Row D → Bool
holds (id_is n) a = same? a.id n
holds (session_is s) a = same? a.session_id s
holds (worker_is w) a = elim a.worker_id [ none ↦ false | some v ↦ same? v w ]
holds (status_is s) a = same? a.status s

abbrev pub write : {D : Type 0} → Change D → Row D → Row D
write (set_profile p s) a = record a { profile = p; status = s }
write (set_status s) a = record a { status = s }
write (set_worker w) a = record a { worker_id = some w }

-- The tables `accounts` and `bots`; `blank` is a profile whose columns are NULL.
abbrev pub row_table : (D : Type 0) → D → Schema
row_table D blank = record {
  Row = Row D;
  New = NewRow;
  Condition = Condition;
  Change = Change D;
  Shown = ℕ;
  id = λ a. a.id;
  make = λ id n. record {
    id = id;
    unique = n.unique;
    session_id = n.session_id;
    status = n.status;
    worker_id = none;
    profile = blank;
  };
  holds = holds;
  write = write;
  shown = λ a. a.id;
  unique = λ a. a.unique ∷ a.session_id ∷ [];
}

-- The whole filter of `List`.
pub record ListFilter : Type 0 where
  pub status : Option Status
  pub worker_id : Option String
  pub limit : ℤ
  pub offset : ℤ

-- The method that an error is wrapped in.
pub data Method : Type 0 where
  creates lists sets_worker : Method
  gets sets_profile sets_status deletes : ℕ → Method
  gets_session lists_worker : String → Method

pub data StoreError (E : Type 0) : Type 0 where
  wrapped : Method → SqlError E → StoreError E
  plain : SqlError E → StoreError E

-- The account repository wraps the errors of all its methods but `UpdateWorkerID`.
unfoldable pub account_error : {E : Type 0} → Method → SqlError E → StoreError E
account_error sets_worker e = plain e
account_error method e = wrapped method e

-- The bot repository wraps those of `Create` and of the methods that read.
unfoldable pub bot_error : {E : Type 0} → Method → SqlError E → StoreError E
bot_error sets_worker e = plain e
bot_error (sets_profile id) e = plain e
bot_error (sets_status id) e = plain e
bot_error (deletes id) e = plain e
bot_error method e = wrapped method e

-- The texts that `List` appends for the fields of the filter.
unfoldable pub conditions : ListFilter → List Condition
conditions f =
    elim f.status [ none ↦ [] | some s ↦ status_is s ∷ [] ]
    ++ elim f.worker_id [ none ↦ [] | some w ↦ worker_is w ∷ [] ]

module _ {D W E F : Type 0} {blank : D} (sql : Sql (row_table D blank) W E)
    (fails : Method → SqlError E → F) where
  -- What `Create` makes of the rows: the scan writes the id into the caller's row.
  unfoldable pub created :
      Row D → Result (SqlError E) (Option (Result (SqlError E) ℕ)) → Result F (Row D)
  created a (err e) = err (fails creates e)
  created a (ok none) = ok a
  created a (ok (some (err e))) = err (fails creates e)
  created a (ok (some (ok id))) = ok (record a { id = id })

  unfoldable pub create : Row D → W → Result F (Row D) × W
  unfolding created
  create a w =
      let out =
        sql.insert (record { unique = a.unique; session_id = a.session_id; status = a.status }) w in
      (created a out.0, out.1)

  unfoldable pub get_by_id : ℕ → W → Result F (Row D)
  get_by_id id w = map_err (fails (gets id)) (sql.select_one (id_is id) w)

  unfoldable pub get_by_session_id : String → W → Result F (Row D)
  get_by_session_id session_id w =
      map_err (fails (gets_session session_id)) (sql.select_one (session_is session_id) w)

  unfoldable pub list : ListFilter → W → Result F (List (Row D))
  unfolding conditions
  list f w =
      map_err (fails lists)
        (sql.select_rows (conditions f) by_id (some (default_limit f.limit, f.offset)) w)

  -- The number of rows is not read.
  unfoldable pub executed : Method → Result (SqlError E) ℕ → Result F (Unit {0})
  executed method (ok n) = ok tt
  executed method (err e) = err (fails method e)

  unfoldable pub change : Method → Change D → Condition → W → Result F (Unit {0}) × W
  unfolding executed
  change method d c w = let out = sql.update d c w in (executed method out.0, out.1)

  unfoldable pub update_profile : ℕ → D → Status → W → Result F (Unit {0}) × W
  unfolding change
  update_profile id profile status w =
      change (sets_profile id) (set_profile profile status) (id_is id) w

  unfoldable pub update_status : ℕ → Status → W → Result F (Unit {0}) × W
  unfolding change
  update_status id status w = change (sets_status id) (set_status status) (id_is id) w

  unfoldable pub update_worker_id : String → String → W → Result F (Unit {0}) × W
  unfolding change
  update_worker_id session_id worker_id w =
      change sets_worker (set_worker worker_id) (session_is session_id) w

  unfoldable pub list_by_worker_id : String → W → Result F (List (Row D))
  list_by_worker_id worker_id w =
      map_err (fails (lists_worker worker_id))
        (sql.select_rows (worker_is worker_id ∷ []) by_id none w)

  -- `Delete`.
  unfoldable pub remove : ℕ → W → Result F (Unit {0}) × W
  unfolding executed
  remove id w = let out = sql.delete (id_is id) w in (executed (deletes id) out.0, out.1)
