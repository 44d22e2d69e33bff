-- ===== src/Tests/Keys.antt =====
-- The API keys at concrete inputs: a hash that puts one byte in front.
use tgplane.Common.{
  nat_key, string_key, ℕ, ◌+◌, ◌<◌, ◌^◌, String, [], ◌∷◌, some, ok, ◌≡◌, refl, arith, same?_refl,
}
use Prim.Native.String.{slice}
use text.Mathlib.TextBridge.{of_list}
use tgplane.Common.Map.{lookup, insert, delete}
use tgplane.Auth.{
  ApiKey, KeyRepository, Hashing, new_key_repository, create_key, generate_key, hash_key, create,
  delete_key,
}
use tgplane.Auth.Keys.{IsValid}
use tgplane.Tests.Tokens.{bytes, put_all}

abbrev pub hashing : Hashing
hashing = record { bytes = bytes; sha256 = λ b. 1 ∷ b; hex = λ b. of_list (put_all b) }

abbrev pub raw : String
raw = of_list (put_all (0 ∷ 1 ∷ []))

abbrev hashed : String
hashed = of_list (put_all (1 ∷ bytes raw))

abbrev pub stored : ApiKey
stored = record { id = 1; name = "ci"; key_prefix = slice raw 0 8; key_hash = hashed }

abbrev pub one : KeyRepository
one = record { keys = (1, stored) ∷ []; seq = 1 }

pub created : create hashing (some (0 ∷ 1 ∷ [])) "ci" new_key_repository ≡ ok (stored, raw, one)
unfolding create generate_key hash_key create_key new_key_repository insert
created = refl

pub new_key_repository-IsValid : IsValid new_key_repository
unfolding new_key_repository
new_key_repository-IsValid = record { distinct = tt; given = tt }

pub ids_left : new_key_repository.seq + 1 < 2 ^ 64
unfolding new_key_repository
ids_left = omega arith

deleted : delete_key 1 one ≡ ok (record one { keys = [] })
unfolding delete_key delete lookup
deleted = ground (arith, same?_refl {K = ℕ} 1)
