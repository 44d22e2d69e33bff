-- ===== src/Auth/Keys.antt =====
-- Which keys `Validate` accepts after `Create` and after `Delete`.
use tgplane.Common.{
  nat_key, string_key, ℕ, suc, ◌+◌, ◌^◌, ◌<◌, ◌≤◌, String, List, [], ◌∷◌, Option, none, some, Bool,
  true, false, ok, if◌then◌else◌, same?, ◌&&◌, not, ◌≡◌, ◌≢◌, refl, arith, Result-cases, Bool-cases,
  inl, inr, same?→eq, same?_refl, same?_ne, sym,
}
use tgplane.Common.Map.{
  lookup-insert, insert-Distinct, delete-Distinct, insert-Entries, delete-Entries, Entries-map,
  lookup, insert, delete, Distinct, Entries,
}
use tgplane.Auth.{
  ApiKey, KeyRepository, Hashing, create_key, seek, get_by_hash, delete_key, hash_key, generate_key,
  create, validate,
}

unfoldable pub known : String → List (ℕ × ApiKey) → Bool
unfolding seek
known hash m = elim (seek hash m) [ none ↦ false | some _ ↦ true ]

-- An insertion under a free id makes its hash known, and keeps every other as it was.
known-insert :
    (hash : String) (id : ℕ) (k : ApiKey) (m : List (ℕ × ApiKey))
    → lookup id m ≡ none
    → known hash (insert id k m) ≡ (if same? k.key_hash hash then true else known hash m)
unfolding known seek insert lookup
known-insert hash id k [] free = ground arith
known-insert hash id k ((j, x) ∷ m) free = ground (arith, known-insert hash id k m)

delete_absent : (id : ℕ) (m : List (ℕ × ApiKey)) → lookup id m ≡ none → delete id m ≡ m
unfolding delete lookup
delete_absent id [] h = refl
delete_absent id ((j, x) ∷ m) h = ground (arith, delete_absent id m)

-- A deletion keeps a hash that the deleted key does not have.
known-delete :
    (hash : String) (id : ℕ) (k : ApiKey) (m : List (ℕ × ApiKey))
    → Distinct m
    → lookup id m ≡ some k
    → k.key_hash ≢ hash
    → known hash (delete id m) ≡ known hash m
unfolding known seek delete lookup
known-delete hash id k [] d held other = refl
known-delete hash id k ((j, x) ∷ m) d held other = elim (Bool-cases (same? j id)) [
  | inl hit ↦
      ground (arith, delete_absent id m, d.0, same?→eq j id hit, same?_ne k.key_hash hash other)
  | inr miss ↦ ground (arith, known-delete hash id k m d.1)
]

-- And forgets one that no other key has.
known-delete_only :
    (hash : String) (id : ℕ) (m : List (ℕ × ApiKey))
    → Entries (λ j x. x.key_hash ≡ hash → j ≡ id) m
    → known hash (delete id m) ≡ false
unfolding known seek delete
known-delete_only hash id [] only = refl
known-delete_only hash id ((j, x) ∷ m) only =
    ground (arith, known-delete_only hash id m only.1, only.0, same?_refl id)

-- Each key stands under an id that has been given out.
pub record IsValid (r : KeyRepository) : Type 0 where
  pub distinct : Distinct r.keys
  pub given : Entries (λ j k. (k.id ≡ j) × (j ≤ r.seq)) r.keys

free_above :
    (n i : ℕ) (m : List (ℕ × ApiKey))
    → Entries (λ j k. (k.id ≡ j) × (j ≤ n)) m
    → n < i
    → lookup i m ≡ none
unfolding lookup
free_above n i [] v l = refl
free_above n i ((j, x) ∷ m) v l = ground (arith, free_above n i m v.1 l, v.0, same?→eq j i)

-- The configured master key, which is off when empty.
abbrev pub is_master : String → String → Bool
is_master master key = not (same? master "") && same? key master

module _ (h : Hashing) where
  validate-known :
      (master key : String) (r : KeyRepository)
      → validate h master key r
        ≡ (if is_master master key then true else known (hash_key h key) r.keys)
  unfolding validate get_by_hash known
  validate-known master key r = ground arith

  -- What a successful `Create` leaves.
  created :
      (random : Option (List ℕ)) (name raw : String) (k : ApiKey) (r s : KeyRepository)
      → r.seq + 1 < 2 ^ 64
      → create h random name r ≡ ok (k, raw, s)
      → (k.key_hash ≡ hash_key h raw)
        × (k.id ≡ suc r.seq)
        × (s ≡ record { keys = insert k.id k r.keys; seq = suc r.seq })
  unfolding create create_key
  created random name raw k r s l made = elim (Result-cases (generate_key h random)) [
    | inl (e, failed) ↦ absurd (ground arith)
    | inr (raw', generated) ↦ (ground arith, ground arith, ground arith)
  ]

  -- In a valid repository of API keys with ids left: a key that was created is accepted, it is stored under an id
  -- that was free, a key with another hash is accepted exactly if it was before, and the repository
  -- stays valid.
  pub create-validate :
      (random : Option (List ℕ)) (name master raw : String) (k : ApiKey) (r s : KeyRepository)
      → IsValid r
      → r.seq + 1 < 2 ^ 64
      → create h random name r ≡ ok (k, raw, s)
      → (validate h master raw s ≡ true)
        × (lookup k.id r.keys ≡ none)
        × (lookup k.id s.keys ≡ some k)
        × ((key : String)
            → hash_key h key ≢ hash_key h raw
            → validate h master key s ≡ validate h master key r)
        × IsValid s
  create-validate random name master raw k r s v l made =
      let (hashed, numbered, stored) = created random name raw k r s l made in
      let free = free_above r.seq k.id r.keys v.given (omega (arith, numbered)) in
      rw stored (
        ground (
          arith,
          validate-known master raw (record { keys = insert k.id k r.keys; seq = suc r.seq }),
          known-insert (hash_key h raw) k.id k r.keys free,
          hashed,
          same?_refl (hash_key h raw),
        ),
        free,
        ground (arith, lookup-insert k.id k.id k r.keys),
        λ key ne. ground (
          arith,
          validate-known master key (record { keys = insert k.id k r.keys; seq = suc r.seq }),
          validate-known master key r,
          known-insert (hash_key h key) k.id k r.keys free,
          hashed,
          same?_ne (hash_key h raw) (hash_key h key) (λ e. ne (sym e)),
        ),
        record {
          distinct = insert-Distinct k.id k r.keys v.distinct;
          given =
              insert-Entries _ k.id k r.keys (refl, omega (arith, numbered))
                (Entries-map _ _ r.keys (λ j x g. (g.0, omega (arith, g.1))) v.given);
        },
      )

  -- In a valid repository of API keys: when a key is deleted whose hash no other key has, a key with that hash is
  -- accepted only as the master key, a key with another hash is accepted exactly if it was before, and
  -- the repository stays valid.
  pub delete_key-validate :
      (id : ℕ) (master key : String) (k : ApiKey) (r s : KeyRepository)
      → IsValid r
      → lookup id r.keys ≡ some k
      → k.key_hash ≡ hash_key h key
      → Entries (λ j x. x.key_hash ≡ hash_key h key → j ≡ id) r.keys
      → delete_key id r ≡ ok s
      → (validate h master key s ≡ is_master master key)
        × ((other : String)
            → hash_key h other ≢ k.key_hash
            → validate h master other s ≡ validate h master other r)
        × IsValid s
  unfolding delete_key
  delete_key-validate id master key k r s v held hashed only gone =
      let stored : s ≡ record r { keys = delete id r.keys } = ground arith in
      (
        ground
            (arith, validate-known master key s, known-delete_only (hash_key h key) id r.keys only),
        λ other ne. ground (
          arith,
          validate-known master other s,
          validate-known master other r,
          known-delete (hash_key h other) id k r.keys v.distinct held (λ e. ne (sym e)),
        ),
        rw stored record {
          distinct = delete-Distinct id r.keys v.distinct;
          given = delete-Entries _ id r.keys v.given;
        },
      )
