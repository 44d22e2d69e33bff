-- ===== src/Rest/Middleware/Limits.antt =====
-- What the requests of one key can observe of the rate limiter that all keys share.
use tgplane.Common.{
  string_key, ℕ, ◌-◌, String, List, [], ◌∷◌, Option, none, some, true, ltb, same?, if◌then◌else◌,
  ◌≡◌, refl, ◌∙◌, ap, arith, same?→eq,
}
use tgplane.Common.Map.{
  lookup, insert, Distinct, Entries, absent-Entries, lookup-insert, insert-Distinct,
}
use tgplane.Rest.Middleware.{
  Buckets, LimiterEntry, rate_limit_exceeded, Passage, aborts, continues, idle_limit, cleanup,
  get_limiter, limit,
}

-- A request of a key, with the clock at `getLimiter` and at `Allow`, or a run of the cleaning loop.
pub data Event : Type 0 where
  request : ℕ → ℕ → String → Event
  tick : (String → ℕ) → Event

-- The answers to one key.
unfoldable pub answers_to : String → List (String × Passage) → List Passage
answers_to key [] = []
answers_to key ((k, p) ∷ rest) =
    if same? k key then p ∷ answers_to key rest else answers_to key rest

module _ {L : Type 0} (b : Buckets L) where
  -- The answers to the requests, each with its key.
  unfoldable pub serve : List Event → List (String × LimiterEntry L) → List (String × Passage)
  unfolding limit cleanup
  serve [] m = []
  serve (request now at key ∷ es) m =
      let (answer, after) = limit b now at key m in (key, answer) ∷ serve es after
  serve (tick now ∷ es) m = serve es (cleanup b now m)

  -- A limiter of one key alone: a single entry, that the requests of other keys do not touch.
  unfoldable pub swept : ℕ → Option (LimiterEntry L) → Option (LimiterEntry L)
  swept now none = none
  swept now (some e) = if ltb idle_limit (now - e.last_seen) then none else some e

  unfoldable pub bucket_of : Option (LimiterEntry L) → L
  bucket_of none = b.fresh
  bucket_of (some e) = e.limiter

  unfoldable pub alone : String → List Event → Option (LimiterEntry L) → List Passage
  unfolding swept bucket_of
  alone key [] e = []
  alone key (request now at k ∷ es) e =
      let (allowed, spent) = b.allow at (bucket_of e) in
      let mine = alone key es (some (record { limiter = spent; last_seen = now })) in
      let rest = alone key es e in
      if same? k key
      then (if allowed then continues else aborts 429 rate_limit_exceeded) ∷ mine
      else rest
  alone key (tick now ∷ es) e = alone key es (swept (now key) e)

  lookup-cleanup :
      (now : String → ℕ) (key : String) (m : List (String × LimiterEntry L))
      → Distinct m
      → (lookup key (cleanup b now m) ≡ swept (now key) (lookup key m))
  unfolding lookup cleanup swept
  lookup-cleanup now key [] d = refl
  lookup-cleanup now key ((k, e) ∷ m) d =
      ground (arith, lookup-cleanup now key m d.1, same?→eq k key)

  cleanup-Distinct :
      (now : String → ℕ) (m : List (String × LimiterEntry L))
      → Distinct m
      → Distinct (cleanup b now m)
  unfolding cleanup swept
  cleanup-Distinct now [] d = tt
  cleanup-Distinct now ((k, e) ∷ m) d =
      ground (arith, lookup-cleanup now k m d.1, cleanup-Distinct now m d.1)

  -- A request spends from the bucket of its key, which it stores anew, and from no other.
  limit-bucket :
      (now at : ℕ) (k key : String) (m : List (String × LimiterEntry L))
      → let (allowed, spent) = b.allow at (bucket_of (lookup k m)) in
        ((limit b now at k m).0 ≡ (if allowed then continues else aborts 429 rate_limit_exceeded))
        × (lookup key (limit b now at k m).1 ≡ (
            if same? k key
            then some (record { limiter = spent; last_seen = now })
            else lookup key m))
        × (Distinct m → Distinct (limit b now at k m).1)
  unfolding limit get_limiter bucket_of
  limit-bucket now at k key m =
      let bucket = bucket_of (lookup k m) in
      let touched : LimiterEntry L = record { limiter = bucket; last_seen = now } in
      let spent : LimiterEntry L = record { limiter = (b.allow at bucket).1; last_seen = now } in
      (
        ground arith,
        ground
            (arith, lookup-insert k key touched m, lookup-insert k key spent (insert k touched m)),
        λ d.
            ground
              (arith, insert-Distinct k spent (insert k touched m) (insert-Distinct k touched m d)),
      )

  serve-alone :
      (key : String) (es : List Event) (m : List (String × LimiterEntry L))
      → Distinct m
      → answers_to key (serve es m) ≡ alone key es (lookup key m)
  unfolding serve alone answers_to
  serve-alone key [] m d = refl
  serve-alone key (tick now ∷ es) m d =
      serve-alone key es (cleanup b now m) (cleanup-Distinct now m d)
      ∙ ap (alone key es) (lookup-cleanup now key m d)
  serve-alone key (request now at k ∷ es) m d =
      let (answer, here, distinct) = limit-bucket now at k key m in
      ground (
        arith,
        answer,
        here,
        same?→eq k key,
        serve-alone key es (limit b now at k m).1 (distinct d),
      )

  -- On any sequence of requests and of runs of the cleaning loop, from the start: the answers to one
  -- key are those of a limiter of that key alone, which no request of another key touches.
  pub limits-alone :
      (key : String) (es : List Event) → answers_to key (serve es []) ≡ alone key es none
  unfolding lookup
  limits-alone key es = serve-alone key es [] tt

-- The clock at `getLimiter` and at `Allow`.
pub record Times : Type 0 where
  pub seen : ℕ
  pub asked : ℕ

-- The requests of visitors, each with its key and its times.
unfoldable pub requests : List (String × Times) → List Event
requests [] = []
requests ((key, t) ∷ visits) = request t.seen t.asked key ∷ requests visits

unfoldable pub all_pass : List (String × Times) → List (String × Passage)
all_pass [] = []
all_pass ((key, t) ∷ visits) = (key, continues) ∷ all_pass visits

module _ {L : Type 0} (b : Buckets L) (roomy : (at : ℕ) → (b.allow at b.fresh).0 ≡ true) where
  -- Visits under keys that have no entry yet.
  unseen-pass :
      (visits : List (String × Times)) (m : List (String × LimiterEntry L))
      → Distinct visits
      → Entries (λ key _. lookup key m ≡ none) visits
      → serve b (requests visits) m ≡ all_pass visits
  unfolding serve requests all_pass bucket_of
  unseen-pass [] m d new = refl
  unseen-pass ((key, t) ∷ visits) m d new =
      let after = (limit b t.seen t.asked key m).1 in
      let others : Entries (λ k _. lookup k after ≡ none) visits =
        absent-Entries (λ k _. lookup k m ≡ none) (λ k _. lookup k after ≡ none) key
          (λ k _ ne free. ground (arith, (limit-bucket b t.seen t.asked key k m).1, same?→eq key k))
          visits d.0 new.1 in
      ground (
        arith,
        (limit-bucket b t.seen t.asked key key m).0,
        roomy t.asked,
        unseen-pass visits after d.1 others,
      )

  -- If a new bucket lets its first request pass, no request of a client that sends another key each
  -- time is refused, however many it makes.
  pub fresh_keys_pass :
      (visits : List (String × Times))
      → Distinct visits
      → serve b (requests visits) [] ≡ all_pass visits
  unfolding lookup
  fresh_keys_pass visits d = unseen-pass visits [] d (anywhere visits)
    where
      anywhere :
          (vs : List (String × Times))
          → Entries (λ key _. lookup {V = LimiterEntry L} key [] ≡ none) vs
      anywhere [] = tt
      anywhere (v ∷ vs) = (refl, anywhere vs)
