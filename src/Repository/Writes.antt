-- ===== src/Repository/Writes.antt =====
-- The methods of a repository that write keep its three maps in agreement.
use tgplane.Common.{
  string_key, nat_key, ℕ, ◌+◌, ◌%◌, ◌^◌, ◌<◌, String, none, some, ◌≡◌, refl, inl, inr, Result, ok,
  err, arith, Option-cases,
}
use tgplane.Common.Map.{lookup}
use tgplane.Session.Model.{Status}
use tgplane.Repository.{
  Row, Repository, RepoError, create, update_profile, update_status, update_worker_id, remove,
}
use tgplane.Repository.Invariant.{IsValid, modify-IsValid, store_row-IsValid, drop_row-IsValid}

-- The methods that write.
pub data Call (D : Type 0) : Type 0 where
  creates : Row D → Call D
  updates_profile : ℕ → D → Status → Call D
  updates_status : ℕ → Status → Call D
  updates_worker_id : String → String → Call D
  removes : ℕ → Call D

module _ {D : Type 0} where
  abbrev pub after : Repository D → Result RepoError (Repository D) → Repository D
  after r (ok s) = s
  after r (err _) = r

  unfoldable pub write : Repository D → Call D → Repository D
  write r (creates a) = elim (create a r) [ ok (_, s) ↦ s | err _ ↦ r ]
  write r (updates_profile id profile status) = after r (update_profile id profile status r)
  write r (updates_status id status) = after r (update_status id status r)
  write r (updates_worker_id session_id worker_id) =
      after r (update_worker_id session_id worker_id r)
  write r (removes id) = after r (remove id r)

  -- A new row has a session id that no row has, which a random UUID gives, and there are ids left.
  abbrev pub IsFresh : Repository D → Call D → Type 0
  IsFresh r (creates a) = (lookup a.session_id r.by_session ≡ none) × (r.seq + 1 < 2 ^ 64)
  IsFresh r _ = Unit {0}

  -- Every method that writes keeps the three maps in agreement, when it fails too: each row stands under
  -- its id and both indices lead to it, and each entry of an index leads to a row with that value. A
  -- row that is created must have a session id that is not in use, and there must be ids left.
  pub write-IsValid :
      (r : Repository D) (c : Call D) → IsFresh r c → IsValid r → IsValid (write r c)
  unfolding write create update_profile update_status update_worker_id remove
  write-IsValid r (creates a) fresh v = elim (Option-cases (lookup a.unique r.by_unique)) [
    | inr (id, taken) ↦ rw (taken, write, create) v
    | inl new ↦
        rw (new, write, create)
          (store_row-IsValid (record a { id = (r.seq + 1) % 2 ^ 64 }) r v (omega arith) new fresh.0)
  ]
  write-IsValid r (updates_profile id profile status) fresh v = ground (
    arith,
    modify-IsValid r id (λ (a : Row D). record a { profile = profile; status = status })
        (λ a. (refl, refl, refl)) v,
  )
  write-IsValid r (updates_status id status) fresh v = ground (
    arith,
    modify-IsValid r id (λ (a : Row D). record a { status = status }) (λ a. (refl, refl, refl)) v,
  )
  write-IsValid r (updates_worker_id session_id worker_id) fresh v =
      elim (Option-cases (lookup session_id r.by_session)) [
        | inl missing ↦ rw (missing, update_worker_id) v
        | inr (id, found) ↦ ground (
          arith,
          modify-IsValid r id (λ (a : Row D). record a { worker_id = some worker_id })
              (λ a. (refl, refl, refl)) v,
        )
      ]
  write-IsValid r (removes id) fresh v = elim (Option-cases (lookup id r.store)) [
    | inl missing ↦ rw (missing, remove) v
    | inr (a, found) ↦ rw (found, remove) (drop_row-IsValid id a r v found)
  ]
