-- ===== src/Rest/Middleware.antt =====
-- api/rest/middleware/ratelimit.go and auth.go. A token bucket is golang.org/x/time/rate's, hence an
-- argument. A time is a number of nanoseconds.
pub mod Limits
use tgplane.Common.{
  string_key, ℕ, ◌-◌, ◌*◌, String, List, [], ◌∷◌, Option, none, some, Bool, true, false, ltb, same?,
  not, if◌then◌else◌,
}
use Prim.Native.String.{◌++◌}
use tgplane.Common.Map.{lookup, insert}
use tgplane.Auth.{Hashing, KeyRepository, validate}
use tgplane.Rest.{Response, error_resp}

-- `NewLimiter(rps, burst)`, and `Allow` at a time: its answer and the bucket after it.
pub record Buckets (L : Type 0) : Type 0 where
  pub fresh : L
  pub allow : ℕ → L → Bool × L

pub record LimiterEntry (L : Type 0) : Type 0 where
  pub limiter : L
  pub last_seen : ℕ

pub data Refusal : Type 0 where
  rate_limit_exceeded key_required invalid_key : Refusal

-- A middleware ends the request with a response, or hands it on.
pub data Passage : Type 0 where
  aborts : ℕ → Refusal → Passage
  continues : Passage

-- `5*time.Minute`.
abbrev pub idle_limit : ℕ
idle_limit = 300000000000

module _ {L : Type 0} (b : Buckets L) where
  -- The body of the cleaning loop, which the ticker runs every minute: one walk over the map, that
  -- reads the clock at each key.
  unfoldable pub cleanup :
      (String → ℕ) → List (String × LimiterEntry L) → List (String × LimiterEntry L)
  cleanup now [] = []
  cleanup now ((k, e) ∷ m) =
      if ltb idle_limit (now k - e.last_seen) then cleanup now m else (k, e) ∷ cleanup now m

  -- `getLimiter`, which returns the entry's bucket.
  unfoldable pub get_limiter :
      ℕ → String → List (String × LimiterEntry L) → L × List (String × LimiterEntry L)
  get_limiter now key m =
      let bucket : L = elim (lookup key m) [ none ↦ b.fresh | some e ↦ e.limiter ] in
      (bucket, insert key (record { limiter = bucket; last_seen = now }) m)

  -- The handler of `RateLimiter` on the key of a request, as one step: `Allow`, which holds the
  -- bucket's own lock and reads the clock again, changes it in place.
  unfoldable pub limit :
      ℕ → ℕ → String → List (String × LimiterEntry L) → Passage × List (String × LimiterEntry L)
  unfolding get_limiter
  limit now at key m =
      let (bucket, seen) = get_limiter now key m in
      let (allowed, spent) = b.allow at bucket in
      let after = insert key (record { limiter = spent; last_seen = now }) seen in
      if allowed then (continues, after) else (aborts 429 rate_limit_exceeded, after)

-- The key of `KeyRateLimiter`, for the header X-Api-Key, empty when it is missing, and the client's
-- address.
unfoldable pub limit_key : String → String → String
limit_key header ip = if same? header "" then "ip:" ++ ip else "key:" ++ header

-- `Auth`.
unfoldable pub auth : Hashing → String → String → KeyRepository → Passage
auth h master key keys =
    if same? key ""
    then aborts 401 key_required
    else if validate h master key keys
    then continues
    else aborts 401 invalid_key
