-- ===== src/Tests/Repositories.antt =====
-- The repositories and the token encryption at concrete inputs.
use tgplane.Common.{string_key, nat_key, ℕ, String, [], ◌∷◌, none, ok, ◌≡◌, refl, arith, same?_refl}
use tgplane.Common.Map.{lookup, insert}
use tgplane.Session.Model.{pending}
use tgplane.Repository.{
  Row, Repository, new_repository, create, get_by_session_id, remove, drop_row, store_row,
}
use tgplane.Repository.Invariant.{IsValid, new_repository-IsValid}
use tgplane.Repository.Writes.{creates, IsFresh, write, write-IsValid}

-- The row of a phone number.
abbrev row : String → String → Row ℕ
row phone uuid = record {
  id = 0;
  unique = phone;
  session_id = uuid;
  status = pending;
  worker_id = none;
  profile = 0;
}

abbrev empty : Repository ℕ
empty = new_repository

abbrev first : Row ℕ
first = record (row "+1" "u") { id = 1 }

abbrev one : Repository ℕ
one = record {
  store = (1, first) ∷ [];
  by_unique = ("+1", 1) ∷ [];
  by_session = ("u", 1) ∷ [];
  seq = 1;
}

created : write empty (creates (row "+1" "u")) ≡ one
unfolding write create store_row new_repository lookup insert
created = refl

empty-IsFresh : IsFresh empty (creates (row "+1" "u"))
unfolding new_repository lookup
empty-IsFresh = (refl, omega arith)

write-IsValid_example : IsValid (write empty (creates (row "+1" "u")))
write-IsValid_example =
    write-IsValid empty (creates (row "+1" "u")) empty-IsFresh new_repository-IsValid

found : get_by_session_id "u" one ≡ ok first
unfolding get_by_session_id lookup
found = ground (arith, same?_refl {K = String} "u", same?_refl {K = ℕ} 1)

removed : (s : Repository ℕ) × (remove 1 one ≡ ok s)
unfolding remove lookup
removed = (drop_row 1 first one, ground (arith, same?_refl {K = ℕ} 1))
