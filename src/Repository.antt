-- ===== src/Repository.antt =====
-- internal/account/memory_repo.go and internal/bot/memory_repo.go, which differ in the names of the
-- unique column (the phone of an account, the token of a bot) and of the profile's columns. Each
-- method holds the lock, so it is one step. The times of a row, which the memory repository never
-- sets, are left out.
pub mod Invariant
pub mod Writes
pub mod Reads
use tgplane.Common.{
  string_key, nat_key, ℕ, suc, ◌+◌, ◌%◌, ◌^◌, String, List, [], ◌∷◌, ◌++◌, Option, none, some, Bool,
  true, false, ◌&&◌, Result, ok, err, length, leb, if◌then◌else◌, same?, select, ◌==◌,
}
use tgplane.Common.Int.{ℤ, pos, negsuc}
use tgplane.Common.Map.{lookup, insert, delete, modify, values}
use tgplane.Session.Model.{Status, status_key}

-- `D` holds the columns that only UpdateProfile writes.
pub record Row (D : Type 0) : Type 0 where
  pub id : ℕ
  pub unique : String
  pub session_id : String
  pub status : Status
  pub worker_id : Option String
  pub profile : D

-- `seq` is an int64 as a bit pattern.
pub record Repository (D : Type 0) : Type 0 where
  pub store : List (ℕ × Row D)
  pub by_unique : List (String × ℕ)
  pub by_session : List (String × ℕ)
  pub seq : ℕ

-- `nil_pointer` is the panic of a read through a missing pointer.
pub data RepoError : Type 0 where
  already_exists : String → RepoError
  no_rows nil_pointer : RepoError

-- The memory repository reads no other field of its filter.
pub record ListFilter : Type 0 where
  pub status : Option Status
  pub limit : ℤ

-- `len(result) >= limit`.
abbrev pub reached : ℕ → ℤ → Bool
reached n (pos k) = leb k n
reached n (negsuc k) = true

-- A limit of 0 is 50.
abbrev pub default_limit : ℤ → ℤ
default_limit (pos n) = if n == 0 then pos 50 else pos n
default_limit (negsuc n) = negsuc n

module _ {D : Type 0} where
  -- `NewMemoryRepository`.
  unfoldable pub new_repository : Repository D
  new_repository = record { store = []; by_unique = []; by_session = []; seq = 0 }

  -- The writes of `Create`.
  unfoldable pub store_row : Row D → Repository D → Repository D
  store_row row r = record r {
    store = insert row.id row r.store;
    by_unique = insert row.unique row.id r.by_unique;
    by_session = insert row.session_id row.id r.by_session;
    seq = row.id;
  }

  -- The row comes back with its new id, as the caller's pointer sees it.
  unfoldable pub create : Row D → Repository D → Result RepoError (Row D × Repository D)
  unfolding store_row
  create a r = elim (lookup a.unique r.by_unique) [
    | some _ ↦ err (already_exists a.unique)
    | none ↦ let row : Row D = record a { id = (r.seq + 1) % 2 ^ 64 } in ok (row, store_row row r)
  ]

  unfoldable pub get_by_id : ℕ → Repository D → Result RepoError (Row D)
  get_by_id id r = elim (lookup id r.store) [ none ↦ err no_rows | some a ↦ ok a ]

  unfoldable pub get_by_session_id : String → Repository D → Result RepoError (Row D)
  get_by_session_id session_id r = elim (lookup session_id r.by_session) [
    | none ↦ err no_rows
    | some id ↦ elim (lookup id r.store) [ none ↦ err nil_pointer | some a ↦ ok a ]
  ]

  unfoldable pub passes : Option Status → Row D → Bool
  passes none a = true
  passes (some s) a = same? a.status s

  -- The loop of `List`, with the number of rows that it has taken.
  unfoldable pub scan : Option Status → ℤ → ℕ → List (Row D) → List (Row D)
  unfolding passes
  scan status limit n [] = []
  scan status limit n (a ∷ rows) = elim (passes status a) [
    | false ↦ scan status limit n rows
    | true ↦ a ∷ elim (reached (suc n) limit) [ true ↦ [] | false ↦ scan status limit (suc n) rows ]
  ]

  unfoldable pub list : ListFilter → Repository D → List (Row D)
  unfolding scan
  list f r = scan f.status (default_limit f.limit) 0 (values r.store)

  unfoldable pub update_profile : ℕ → D → Status → Repository D → Result RepoError (Repository D)
  update_profile id profile status r = elim (lookup id r.store) [
    | none ↦ err no_rows
    | some _ ↦ ok (record r {
      store = modify id (λ (a : Row D). record a { profile = profile; status = status }) r.store;
    })
  ]

  unfoldable pub update_status : ℕ → Status → Repository D → Result RepoError (Repository D)
  update_status id status r = elim (lookup id r.store) [
    | none ↦ err no_rows
    | some _ ↦
        ok (record r { store = modify id (λ (a : Row D). record a { status = status }) r.store })
  ]

  unfoldable pub update_worker_id : String → String → Repository D → Result RepoError (Repository D)
  update_worker_id session_id worker_id r = elim (lookup session_id r.by_session) [
    | none ↦ err no_rows
    | some id ↦ elim (lookup id r.store) [
      | none ↦ err nil_pointer
      | some _ ↦ ok (record r {
        store = modify id (λ (a : Row D). record a { worker_id = some worker_id }) r.store;
      })
    ]
  ]

  unfoldable pub runs_on : String → Row D → Bool
  runs_on worker_id a = elim a.worker_id [ none ↦ false | some w ↦ same? w worker_id ]

  unfoldable pub list_by_worker_id : String → Repository D → List (Row D)
  unfolding runs_on
  list_by_worker_id worker_id r = select (runs_on worker_id) (values r.store)

  -- The writes of `Delete`.
  unfoldable pub drop_row : ℕ → Row D → Repository D → Repository D
  drop_row id a r = record r {
    by_unique = delete a.unique r.by_unique;
    by_session = delete a.session_id r.by_session;
    store = delete id r.store;
  }

  -- `Delete`.
  unfoldable pub remove : ℕ → Repository D → Result RepoError (Repository D)
  unfolding drop_row
  remove id r = elim (lookup id r.store) [ none ↦ err no_rows | some a ↦ ok (drop_row id a r) ]
