-- ===== src/Bulk/Parallel.antt =====
-- `parallel` of internal/bulk/service.go: one goroutine for each index, a semaphore of `concurrency`
-- places, and the slice of results that each goroutine writes at its own index. The body of a
-- goroutine between its acquire and its release is one step, at the release.
pub mod Completion
pub mod Items
use tgplane.Common.{
  ℕ, zero, suc, ◌+◌, ◌*◌, ◌<◌, ◌≤◌, List, [], ◌∷◌, Option, none, some, Bool, true, false, length,
  if◌then◌else◌, ◌==◌, ◌≡◌, refl, sym, ◌⊎◌, inl, inr, arith, All,
}

-- `Takes i xs ys`: `ys` is `xs` without one `i`.
pub data Takes : ℕ → List ℕ → List ℕ → Type 0 where
  here : (i : ℕ) (xs : List ℕ) → Takes i (i ∷ xs) xs
  there : (i x : ℕ) (xs ys : List ℕ) → Takes i xs ys → Takes i (x ∷ xs) (x ∷ ys)

-- The goroutines that wait for a place and those that hold one, the results, of which an unwritten one
-- is `none`, and what the bodies share.
pub record Group (S I : Type 0) : Type 0 where
  pub waiting : List ℕ
  pub running : List ℕ
  pub results : List (Option I)
  pub shared : S

-- The indices from `i` on.
unfoldable pub indices : ℕ → ℕ → List ℕ
indices i zero = []
indices i (suc n) = i ∷ indices (suc i) n

unfoldable pub unwritten : {I : Type 0} → ℕ → List (Option I)
unwritten zero = []
unwritten (suc n) = none ∷ unwritten n

-- `results[i] = it`.
unfoldable pub write : {I : Type 0} → ℕ → I → List (Option I) → List (Option I)
write i it [] = []
write zero it (r ∷ rs) = some it ∷ rs
write (suc i) it (r ∷ rs) = r ∷ write i it rs

-- `results[i]`.
unfoldable pub read : {I : Type 0} → ℕ → List (Option I) → Option I
read i [] = none
read zero (r ∷ rs) = r
read (suc i) (r ∷ rs) = read i rs

-- After the loop that starts the goroutines.
unfoldable pub spawned : {S I : Type 0} → ℕ → S → Group S I
unfolding indices unwritten
spawned n s = record { waiting = indices 0 n; running = []; results = unwritten n; shared = s }

module _ {S I : Type 0} (fn : ℕ → S → I × S) (concurrency : ℕ) where
  pub data Step (p : Group S I) : Group S I → Type 0 where
    acquires :
        (i : ℕ) (rest : List ℕ)
        → Takes i p.waiting rest
        → length p.running < concurrency
        → Step p (record p { waiting = rest; running = i ∷ p.running })
    returns :
        (i : ℕ) (rest : List ℕ)
        → Takes i p.running rest
        → Step p (record p {
          running = rest;
          results = write i (fn i p.shared).0 p.results;
          shared = (fn i p.shared).1;
        })

  -- A number of steps.
  pub data Steps (p : Group S I) : ℕ → Group S I → Type 0 where
    done : Steps p 0 p
    then_ : (k : ℕ) (q r : Group S I) → Steps p k q → Step q r → Steps p (suc k) r
