-- ===== src/Tests/Rests.antt =====
-- The REST handlers and their middleware at concrete inputs.
use tgplane.Common.{
  string_key, nat_key, ℕ, ◌-◌, List, [], ◌∷◌, none, true, false, ◌≡◌, if◌then◌else◌, ◌==◌,
}
use tgplane.Rest.Middleware.{Buckets}
use tgplane.Rest.Middleware.Limits.{Event, request, tick, serve, answers_to, alone, limits-alone}

-- A bucket of one token that is never filled again.
abbrev single : Buckets ℕ
single = record { fresh = 1; allow = λ now n. if n == 0 then (false, 0) else (true, n - 1) }

abbrev events : List Event
events =
    request 1 1 "a"
    ∷ request 2 2 "b"
    ∷ request 3 3 "a"
    ∷ tick (λ k. 400000000000)
    ∷ request 4 4 "a"
    ∷ []

limits-alone_example : answers_to "a" (serve single events []) ≡ alone single "a" events none
limits-alone_example = limits-alone single "a" events
