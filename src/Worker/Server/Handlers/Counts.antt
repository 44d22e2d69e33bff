-- ===== src/Worker/Server/Handlers/Counts.antt =====
-- What `GetMetrics` reports of the pool, and what the session methods answer.
use tgplane.Common.{
  string_key, ℕ, ◌+◌, ◌^◌, ◌<◌, String, List, [], ◌∷◌, Bool, ◌≡◌, refl, ◌⊎◌, inl, inr, Result, ok,
  err, map, length, same?, arith, ◌≢◌, Result-cases,
}
use tgplane.Common.Map.{values, Entries, count_if}
use tgplane.Session.Model.{
  Session, SessionType, account, bot, Status, ready, disconnected, error, status_key,
}
use tgplane.Session.Pool as Sessions
use tgplane.Session.Pool.{Entry, Pool, Outcome, add, len, list, get}
use tgplane.Session.Pool.Invariant.{IsValid, Live}
use tgplane.Session.Pool.Branches.{add_session_lem, Gains, AddsOrFails}
use tgplane.Worker.Wire.{SessionInfo, type_string, status_string, internal}
use tgplane.Worker.Server.{WorkerServer}
use tgplane.Worker.Server.Handlers.{
  count_statuses, get_metrics, add_account, add_bot, reply, session_info, Reply, RpcError,
}

unfoldable pub is_status : Status → Session → Bool
is_status st s = same? s.status st

count_statuses_lem :
    (ss : List Session) (a b : ℕ)
    → a + length ss < 2 ^ 32
    → b + length ss < 2 ^ 32
    → count_statuses ss (a, b)
      ≡ (a + count_if (is_status ready) ss, b + count_if (is_status error) ss)
unfolding count_statuses count_if is_status
count_statuses_lem [] a b ha hb = ground arith
count_statuses_lem (s ∷ ss) a b ha hb = ground (
  arith,
  count_statuses_lem ss a b,
  count_statuses_lem ss (a + 1) b,
  count_statuses_lem ss a (b + 1),
)

Live-no_error :
    {C : Type 0} (n : ℕ) (id : String) (e : Entry C) → Live n id e → e.session.status ≢ error
Live-no_error n id e l h = ground arith

-- In a valid pool each session is ready or disconnected.
statuses :
    {C : Type 0} (n : ℕ) (m : List (String × Entry C))
    → Entries (Live n) m
    → (count_if (is_status error) (map (λ (e : Entry C). e.session) (values m)) ≡ 0)
      × (count_if (is_status ready) (map (λ (e : Entry C). e.session) (values m))
            + count_if (is_status disconnected) (map (λ (e : Entry C). e.session) (values m))
          ≡ length m)
      × (length (map (λ (e : Entry C). e.session) (values m)) ≡ length m)
unfolding count_if is_status
statuses n [] a = (refl, refl, refl)
statuses n ((id, e) ∷ m) a = ground (arith, statuses n m a.1, a.0.running)

-- With fewer than 2^31 sessions in a valid pool, `GetMetrics` reports their number exactly, its
-- ready_count and the disconnected sessions make up that number, and its error_count is 0.
pub get_metrics_lem :
    {C H U : Type 0} (now : ℕ) (s : WorkerServer C H U)
    → IsValid s.pool
    → len s.pool < 2 ^ 31
    → let m = get_metrics now s in
      (m.session_count ≡ len s.pool)
      × (m.ready_count + count_if (is_status disconnected) (list s.pool) ≡ len s.pool)
      × (m.error_count ≡ 0)
unfolding get_metrics list len
get_metrics_lem now s v small = ground (
  arith,
  statuses s.pool.next_handle s.pool.sessions v.live,
  count_statuses_lem (list s.pool) 0 0,
)

-- The reply describes a ready session of this id and type, and the pool has gained it; or the code
-- is Internal, and the pool is as it was.
abbrev pub Answers :
    {C H E : Type 0} → String → SessionType → Pool C H → Reply C H E SessionInfo → Type 0
Answers {E} id t p r =
    (r.answer ≡ ok (record { session_id = id; status = "ready"; type = type_string t }))
      × Gains id t p r.pool
    ⊎ ((x : RpcError E) × (r.answer ≡ err x) × (x.code ≡ internal) × (r.pool ≡ p))

reply-Answers :
    {C H E : Type 0} (id : String) (t : SessionType) (p : Pool C H) (o : Outcome C H E)
    → AddsOrFails id t p o
    → Answers id t p (reply internal (session_info id) o)
unfolding reply session_info status_string
reply-Answers id t p o h = elim (Result-cases o.result) [
  | inl (e, failed) ↦ inr (record { code = internal; cause = e }, ground arith, refl, ground arith)
  | inr (u, done) ↦ elim h [
    | inl (_, g) ↦ inl (ground (arith, g.shown), rw (done, reply) g)
    | inr (no_result, _) ↦ absurd (ground arith)
  ]
]

module _ {C H E : Type 0} (factory : String → String → String → Result E C) (now : ℕ → ℕ) where
  -- A successful AddAccount answers with a ready account session of the id asked for, which the pool
  -- has gained; a refused one answers Internal and leaves the pool as it was.
  pub add_account-Answers :
      (id phone : String) (p : Pool C H) → Answers id account p (add_account factory now id phone p)
  unfolding add_account add
  add_account-Answers id phone p =
      reply-Answers id account p (add factory now id phone p)
        (add_session_lem factory now id phone "" account p)

  -- The same of AddBot, with a bot session.
  pub add_bot-Answers :
      (id token : String) (p : Pool C H) → Answers id bot p (add_bot factory now id token p)
  unfolding add_bot Sessions.add_bot
  add_bot-Answers id token p =
      reply-Answers id bot p (Sessions.add_bot factory now id token p)
        (add_session_lem factory now id "" token bot p)
