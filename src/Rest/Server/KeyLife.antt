-- ===== src/Rest/Server/KeyLife.antt =====
-- What the API lets a client do with a key, from its creation to its deletion.
use tgplane.Common.{
  nat_key, string_key, ℕ, ◌+◌, ◌^◌, ◌<◌, String, List, Option, some, Bool, true, ok, ◌≡◌, ◌≢◌, refl,
  inl, inr, arith, Result-cases, Bool-cases, same?_ne, same?_refl, if◌then◌else◌,
}
use tgplane.Common.Map.{insert, Entries, insert-Entries, Entries-map}
use tgplane.Auth as Auth
use tgplane.Auth.{Hashing, ApiKey, KeyRepository, hash_key, validate, generate_key}
use tgplane.Auth.Keys.{IsValid, is_master, create-validate, delete_key-validate}
use tgplane.Rest.{json, no_content}
use tgplane.Rest.Resources.{NewKey, create_key, delete_key}
use tgplane.Rest.Middleware.{Buckets, LimiterEntry, aborts, continues, invalid_key, auth}
use tgplane.Rest.Server.{keys, api, checked, guard}

auth_lem :
    (h : Hashing) (master key : String) (r : KeyRepository)
    → auth h master key r ≡ continues
    → (key ≢ "") × (validate h master key r ≡ true)
unfolding auth
auth_lem h master key r passed = (λ empty. ground (arith, same?_refl {K = String} ""), ground arith)

-- A request of the API passes a server with a key service only with a key that the service accepts,
-- whatever the rate limiter does, while a request of the key routes passes the check of keys with any
-- header.
pub guard_lem :
    {L : Type 0} (b : Buckets L) (limited : Bool) (h : Hashing) (master header ip : String)
    (r : KeyRepository) (now at : ℕ) (m : List (String × LimiterEntry L))
    → ((guard b limited
            (some (h, master))
            r
            now
            at
            (record { route = api; header = header; ip = ip })
            m).0
          ≡ continues
        → (header ≢ "") × (validate h master header r ≡ true))
      × (checked (some (h, master)) r (record { route = keys; header = header; ip = ip })
          ≡ continues)
unfolding guard checked auth
guard_lem b limited h master header ip r now at m = (
  λ passed.
      auth_lem h master header r
        (elim (Bool-cases limited) [ inl on ↦ ground arith | inr off ↦ ground arith ]),
  refl,
)

module _ (h : Hashing) where
  -- What `Service.Create` stores and shows.
  created :
      (random : Option (List ℕ)) (name raw : String) (k : ApiKey) (r s : KeyRepository)
      → Auth.create h random name r ≡ ok (k, raw, s)
      → (k.key_hash ≡ hash_key h raw) × (s.keys ≡ insert k.id k r.keys)
  unfolding Auth.create Auth.create_key
  created random name raw k r s made = elim (Result-cases (generate_key h random)) [
    | inl (e, failed) ↦ absurd (ground arith)
    | inr (fresh, drawn) ↦ (ground arith, ground arith)
  ]

  -- In a valid repository of API keys with ids left: a key that a POST shows, if it is not empty and no
  -- stored key has its hash, passes the check of keys right after; a DELETE of its id then answers 204,
  -- and right after it the check answers 401, unless it is the master key.
  pub key_life :
      (random : Option (List ℕ)) (name master : String) (k : NewKey) (r s : KeyRepository)
      → IsValid r
      → r.seq + 1 < 2 ^ 64
      → Entries (λ j x. x.key_hash ≢ hash_key h k.key) r.keys
      → k.key ≢ ""
      → create_key h random (some name) r ≡ (json 201 k, s)
      → (auth h master k.key s ≡ continues)
        × ((t : KeyRepository) × (delete_key (some k.id) s ≡ (no_content, t))
            × (auth h master k.key t
                ≡ (if is_master master k.key then continues else aborts 401 invalid_key)))
  unfolding create_key delete_key auth Auth.delete_key
  key_life random name master k r s v ids new shown made =
      elim (Result-cases (Auth.create h random name r)) [
        | inl (e, failed) ↦ absurd (ground arith)
        | inr ((x, raw, t), stored) ↦
            let (hash, inserted) = created random name raw x r t stored in
            let (valid, free, held, others, kept) =
              create-validate h random name master raw x r t v ids stored in
            let id : k.id ≡ x.id = ground arith in
            let key : k.key ≡ raw = ground arith in
            let same : s ≡ t = ground arith in
            let only : Entries (λ j y. y.key_hash ≡ hash_key h raw → j ≡ x.id) t.keys =
              rw (inserted) (
                insert-Entries (λ j y. y.key_hash ≡ hash_key h raw → j ≡ x.id) x.id x r.keys
                  (λ e. refl)
                  (Entries-map _ _ r.keys (λ j y ne e. absurd (ne (rw (key) e))) new)) in
            elim (Result-cases (Auth.delete_key x.id t)) [
              | inl (e, missing) ↦ absurd ground arith
              | inr (u, gone) ↦
                  let (refused, rest, valid_u) =
                    delete_key-validate h x.id master raw x t u kept held hash only gone in
                  (
                    ground (arith, id, key, same, valid, same?_ne raw ""),
                    (
                      u,
                      ground (arith, id, same, gone),
                      ground (arith, key, refused, same?_ne raw ""),
                    ),
                  )
            ]
      ]
