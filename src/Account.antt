-- ===== src/Account.antt =====
-- internal/account/service.go over the repository; the phone is the unique column.
use tgplane.Common.{ℕ, String, List, Option, none, Result, map_err}
use tgplane.Session.Model.{Status, pending}
use tgplane.Repository as Repo
use tgplane.Repository.{Row, Repository, RepoError, ListFilter}

pub record Profile : Type 0 where
  pub first_name : Option String
  pub last_name : Option String
  pub username : Option String
  pub tg_user_id : Option ℕ

abbrev pub Account : Type 0
Account = Row Profile

abbrev pub no_profile : Profile
no_profile = record { first_name = none; last_name = none; username = none; tg_user_id = none }

-- `fmt.Errorf("add account: %w", err)` and `fmt.Errorf("remove account: %w", err)`.
pub data ServiceError : Type 0 where
  add_account remove_account : RepoError → ServiceError

-- The account that `Add` hands to the repository; `uuid` is a random UUID.
abbrev pub new_account : String → String → Account
new_account uuid phone = record {
  id = 0;
  unique = phone;
  session_id = uuid;
  status = pending;
  worker_id = none;
  profile = no_profile;
}

unfoldable pub add :
    String → String → Repository Profile → Result ServiceError (Account × Repository Profile)
add uuid phone r = map_err add_account (Repo.create (new_account uuid phone) r)

unfoldable pub get : ℕ → Repository Profile → Result RepoError Account
get id r = Repo.get_by_id id r

unfoldable pub get_by_session_id : String → Repository Profile → Result RepoError Account
get_by_session_id session_id r = Repo.get_by_session_id session_id r

unfoldable pub list : ListFilter → Repository Profile → List Account
list f r = Repo.list f r

unfoldable pub update_status :
    ℕ → Status → Repository Profile → Result RepoError (Repository Profile)
update_status id status r = Repo.update_status id status r

unfoldable pub update_worker_id :
    String → String → Repository Profile → Result RepoError (Repository Profile)
update_worker_id session_id worker_id r = Repo.update_worker_id session_id worker_id r

unfoldable pub list_by_worker_id : String → Repository Profile → List Account
list_by_worker_id worker_id r = Repo.list_by_worker_id worker_id r

unfoldable pub remove : ℕ → Repository Profile → Result ServiceError (Repository Profile)
remove id r = map_err remove_account (Repo.remove id r)
