-- ===== src/Auth.antt =====
-- internal/auth: the API keys, in model.go, memory_repo.go and service.go. SHA-256, hex and the
-- random source are Go's standard library, hence arguments. The memory repository writes no time.
pub mod Keys
use tgplane.Common.{
  nat_key, string_key, ℕ, suc, ◌+◌, ◌%◌, ◌^◌, String, List, [], ◌∷◌, Option, none, some, Bool, true,
  false, Result, ok, err, if◌then◌else◌, same?, ◌&&◌, not, is_ok,
}
use Prim.Native.String.{slice}
use tgplane.Common.Map.{lookup, insert, delete, values}

pub record ApiKey : Type 0 where
  pub id : ℕ
  pub name : String
  pub key_prefix : String
  pub key_hash : String

-- `seq` is an int64 as a bit pattern.
pub record KeyRepository : Type 0 where
  pub keys : List (ℕ × ApiKey)
  pub seq : ℕ

pub data AuthError : Type 0 where
  no_key no_random : AuthError

-- `random` is what `rand.Read` fills 32 bytes with.
pub record Hashing : Type 0 where
  pub bytes : String → List ℕ
  pub sha256 : List ℕ → List ℕ
  pub hex : List ℕ → String

unfoldable pub new_key_repository : KeyRepository
new_key_repository = record { keys = []; seq = 0 }

unfoldable pub create_key : String → String → String → KeyRepository → ApiKey × KeyRepository
create_key name prefix hash r =
    let id = (r.seq + 1) % 2 ^ 64 in
    let k : ApiKey = record { id = id; name = name; key_prefix = prefix; key_hash = hash } in
    (k, record { keys = insert id k r.keys; seq = id })

-- The loop of `GetByHash`.
unfoldable pub seek : String → List (ℕ × ApiKey) → Option ApiKey
seek hash [] = none
seek hash ((id, k) ∷ rest) = if same? k.key_hash hash then some k else seek hash rest

unfoldable pub get_by_hash : String → KeyRepository → Result AuthError ApiKey
unfolding seek
get_by_hash hash r = elim (seek hash r.keys) [ none ↦ err no_key | some k ↦ ok k ]

unfoldable pub list_keys : KeyRepository → List ApiKey
list_keys r = values r.keys

unfoldable pub delete_key : ℕ → KeyRepository → Result AuthError KeyRepository
delete_key id r = elim (lookup id r.keys) [
  | none ↦ err no_key
  | some _ ↦ ok (record r { keys = delete id r.keys })
]

module _ (h : Hashing) where
  unfoldable pub hash_key : String → String
  hash_key key = h.hex (h.sha256 (h.bytes key))

  unfoldable pub generate_key : Option (List ℕ) → Result AuthError String
  generate_key none = err no_random
  generate_key (some b) = ok (h.hex b)

  -- `Service.Create`: the stored key, and the raw key that is shown once.
  unfoldable pub create :
      Option (List ℕ) → String → KeyRepository → Result AuthError (ApiKey × String × KeyRepository)
  unfolding generate_key hash_key create_key
  create random name r = elim (generate_key random) [
    | err e ↦ err e
    | ok raw ↦
        let made = create_key name (slice raw 0 8) (hash_key raw) r in ok (made.0, raw, made.1)
  ]

  -- `Service.Validate`, for the master key of the configuration.
  unfoldable pub validate : String → String → KeyRepository → Bool
  unfolding hash_key get_by_hash
  validate master key r =
      if not (same? master "") && same? key master
      then true
      else is_ok (get_by_hash (hash_key key) r)
