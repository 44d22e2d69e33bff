-- ===== src/Bulk/Parallel/Completion.antt =====
-- How far the goroutines of `parallel` get, and what they write.
use tgplane.Common.{
  ℕ, zero, suc, ◌+◌, ◌*◌, ◌<◌, ◌≤◌, List, [], ◌∷◌, Option, none, some, Bool, true, false, length,
  if◌then◌else◌, ◌==◌, ◌≡◌, refl, ◌∙◌, inl, inr, arith, All, Bool-cases,
}
use tgplane.Bulk.Parallel.{
  Takes, here, there, Group, indices, unwritten, write, read, spawned, Step, acquires, returns,
  Steps, done, then_,
}

-- Whether an index is in a list.
unfoldable pub has : ℕ → List ℕ → Bool
has j [] = false
has j (i ∷ is) = let rest = has j is in if i == j then true else rest

has-indices : (j i n : ℕ) → i ≤ j → j < i + n → has j (indices i n) ≡ true
unfolding has indices
has-indices j i zero low high = absurd (omega arith)
has-indices j i (suc n) low high = ground (arith, has-indices j (suc i) n)

length-indices : (i n : ℕ) → length (indices i n) ≡ n
unfolding indices
length-indices i zero = refl
length-indices i (suc n) = ground (arith, length-indices (suc i) n)

indices-bounded : (m i n : ℕ) → i + n ≤ m → All (λ j. j < m) (indices i n)
unfolding indices
indices-bounded m i zero l = tt
indices-bounded m i (suc n) l = (omega arith, indices-bounded m (suc i) n (omega arith))

empty : (is : List ℕ) → length is ≡ 0 → is ≡ []
empty [] l = refl
empty (i ∷ is) l = absurd (omega arith)

-- One index is gone, and no other.
takes_lem :
    (i : ℕ) (xs ys : List ℕ)
    → Takes i xs ys
    → (length xs ≡ suc (length ys))
      × ((j : ℕ) → has j xs ≡ (if i == j then true else has j ys))
      × ((n : ℕ) → All (λ j. j < n) xs → (i < n) × All (λ j. j < n) ys)
unfolding has
takes_lem _ _ _ (here i xs) = (refl, λ j. refl, λ n a. a)
takes_lem _ _ _ (there i x xs ys t) =
    let (shorter, same, bounded) = takes_lem i xs ys t in
    (omega arith, λ j. ground (arith, same j), λ n a. ((bounded n a.1).0, (a.0, (bounded n a.1).1)))

module _ {I : Type 0} where
  length-write : (i : ℕ) (it : I) (rs : List (Option I)) → length (write i it rs) ≡ length rs
  unfolding write
  length-write i it [] = refl
  length-write zero it (r ∷ rs) = refl
  length-write (suc i) it (r ∷ rs) = ground (arith, length-write i it rs)

  read-write :
      (i j : ℕ) (it : I) (rs : List (Option I))
      → i < length rs
      → read j (write i it rs) ≡ (if i == j then some it else read j rs)
  unfolding read write
  read-write i j it [] l = absurd (omega arith)
  read-write zero zero it (r ∷ rs) l = ground arith
  read-write zero (suc j) it (r ∷ rs) l = ground arith
  read-write (suc i) zero it (r ∷ rs) l = ground arith
  read-write (suc i) (suc j) it (r ∷ rs) l = ground (arith, read-write i j it rs)

module _ (I : Type 0) where
  length-unwritten : (n : ℕ) → length (unwritten {I = I} n) ≡ n
  unfolding unwritten
  length-unwritten zero = refl
  length-unwritten (suc n) = ground (arith, length-unwritten n)

  read-unwritten : (j n : ℕ) → read j (unwritten {I = I} n) ≡ none
  unfolding read unwritten
  read-unwritten j zero = refl
  read-unwritten zero (suc n) = refl
  read-unwritten (suc j) (suc n) = read-unwritten j n

module _ {S I : Type 0} (fn : ℕ → S → I × S) (concurrency n : ℕ) (Meets : ℕ → I → Type 0)
    (meets : (i : ℕ) (s : S) → Meets i (fn i s).0) where
  -- Each index waits, runs or has its result, which its own body has returned.
  record IsValid (p : Group S I) : Type 0 where
    placed : All (λ j. j < n) p.waiting × All (λ j. j < n) p.running
    sized : length p.results ≡ n
    limited : length p.running ≤ concurrency
    unread :
        (j : ℕ)
        → j < n
        → has j p.waiting ≡ false
        → has j p.running ≡ false
        → (it : I) × (read j p.results ≡ some it)
    written : (j : ℕ) (it : I) → read j p.results ≡ some it → Meets j it

  spawned-IsValid : (s : S) → IsValid (spawned n s)
  unfolding spawned has
  spawned-IsValid s = record {
    placed = (indices-bounded n 0 n (omega arith), tt);
    sized = length-unwritten I n;
    limited = omega arith;
    unread = λ j l idle _. absurd (ground (arith, has-indices j 0 n));
    written = λ j it found. absurd (ground (arith, read-unwritten I j n));
  }

  Step-IsValid : (p q : Group S I) → Step fn concurrency p q → IsValid p → IsValid q
  unfolding has
  Step-IsValid p _ (acquires i rest t free) v =
      let (shorter, same, bounded) = takes_lem i p.waiting rest t in
      record {
        placed = ((bounded n v.placed.0).1, ((bounded n v.placed.0).0, v.placed.1));
        sized = v.sized;
        limited = omega arith;
        unread = λ j l idle off. ground (arith, same j, v.unread j l);
        written = v.written;
      }
  Step-IsValid p _ (returns i rest t) v =
      let (shorter, same, bounded) = takes_lem i p.running rest t in
      let (low, others) = bounded n v.placed.1 in
      let it = (fn i p.shared).0 in
      record {
        placed = (v.placed.0, others);
        sized = length-write i it p.results ∙ v.sized;
        limited = omega arith;
        unread = λ j l idle off. elim (Bool-cases (i == j)) [
          | inl mine ↦ (it, ground (arith, read-write i j it p.results))
          | inr other ↦
              let (x, found) = v.unread j l idle (ground (arith, same j)) in
              (x, ground (arith, read-write i j it p.results))
        ];
        written = λ j x found. elim (Bool-cases (i == j)) [
          | inl mine ↦
              let here : j ≡ i = ground arith in
              let own : x ≡ it = ground (arith, read-write i j it p.results) in
              rw (here, own) (meets i p.shared)
          | inr other ↦ v.written j x (ground (arith, read-write i j it p.results))
        ];
      }

  Step-count :
      (p q : Group S I)
      → Step fn concurrency p q
      → 1 + 2 * length q.waiting + length q.running ≡ 2 * length p.waiting + length p.running
  Step-count p _ (acquires i rest t free) = omega (arith, (takes_lem i p.waiting rest t).0)
  Step-count p _ (returns i rest t) = omega (arith, (takes_lem i p.running rest t).0)

  -- A goroutine that runs can return, and if none runs there is a place for one that waits.
  next :
      (waiting running : List ℕ) (results : List (Option I)) (s : S)
      → 0 < concurrency
      → 0 < 2 * length waiting + length running
      → let p : Group S I = record {
        waiting = waiting;
        running = running;
        results = results;
        shared = s;
      } in
        (q : Group S I) × Step fn concurrency p q
  next waiting (i ∷ running) results s places left = (_, returns i running (here i running))
  next (i ∷ waiting) [] results s places left = (_, acquires i waiting (here i waiting) places)
  next [] [] results s places left = absurd (omega arith)

  Steps-IsValid :
      (p : Group S I) (k : ℕ) (q : Group S I)
      → Steps fn concurrency p k q
      → IsValid p
      → IsValid q
        × (k + 2 * length q.waiting + length q.running ≡ 2 * length p.waiting + length p.running)
  Steps-IsValid p _ _ done v = (v, omega arith)
  Steps-IsValid p _ _ (then_ k q r steps step) v =
      let (u, count) = Steps-IsValid p k q steps v in
      (Step-IsValid q r step u, omega (arith, count, Step-count q r step))

  -- With at least one place, after any `k` steps: no more goroutines run than there are places; `k` is
  -- at most two for each index; a further step can be made if it is less; and if it is not, every
  -- goroutine has returned and every result is written, by the body of its own index.
  pub parallel_lem :
      (k : ℕ) (s : S) (p : Group S I)
      → 0 < concurrency
      → Steps fn concurrency (spawned n s) k p
      → (length p.running ≤ concurrency)
        × (k ≤ 2 * n)
        × (k < 2 * n → (q : Group S I) × Step fn concurrency p q)
        × (k ≡ 2 * n
            → (p.waiting ≡ [])
              × (p.running ≡ [])
              × (length p.results ≡ n)
              × ((j : ℕ) → j < n → (it : I) × (read j p.results ≡ some it) × Meets j it))
  unfolding spawned has
  parallel_lem k s p places steps =
      let (v, count) = Steps-IsValid (spawned n s) k p steps (spawned-IsValid s) in
      let size = length-indices 0 n in
      (
        v.limited,
        omega (arith, count, size),
        λ less. next p.waiting p.running p.results p.shared places (omega (arith, count, size)),
        λ all.
            let idle : p.waiting ≡ [] = empty p.waiting (omega (arith, count, size)) in
            let off : p.running ≡ [] = empty p.running (omega (arith, count, size)) in
            (
              idle,
              off,
              v.sized,
              λ j l.
                  let (it, found) = v.unread j l (ground (arith, idle)) (ground (arith, off)) in
                  (it, found, v.written j it found),
            ),
      )
