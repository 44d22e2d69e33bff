-- ===== src/Tests/Servers.antt =====
-- The worker's server at concrete inputs.
use tgplane.Common.{
  string_key, nat_key, ℕ, String, List, [], ◌∷◌, ◌++◌, none, some, true, ◌≡◌, refl, sym, select,
  ◌∙◌,
}
use mathlib.Core.Path.{subst}
use mathlib.Core.Option.{some-injective}
use tgplane.Common.Map.{insert}
use tgplane.Tests.Sessions.{one}
use tgplane.Session.Pool.{Pool, new_pool}
use tgplane.Worker.Wire.{TelegramUpdate}
use tgplane.Worker.Server.{WorkerServer, new_server, subscribe, wants}
use tgplane.Worker.Server.Bus.{Node, Event, publishes, opens, closes, receives, step, run, IsSound}
use tgplane.Worker.Server.Bus.Steps.{
  new_node, new_node-IsSound, step-IsSound, run-IsSound, publish_lem, bus_never_panics,
}
use tgplane.Worker.Server.Bus.Buffers.{buffer_of}
use tgplane.Worker.Server.Streams.{accepted, sent, sent_in_order}

abbrev Updates : Type 0
Updates = TelegramUpdate ℕ

abbrev empty : Pool ℕ ℕ
empty = new_pool none true

abbrev idle : Node ℕ ℕ Updates
idle = new_node "w" empty 5

abbrev from : String → ℕ → Updates
from session_id n = record {
  session_id = session_id;
  type = "message";
  payload = n;
  received_at = 0;
}

abbrev events : List (Event Updates)
events = publishes (from "a" 1) ∷ publishes (from "b" 2) ∷ receives 0 ∷ publishes (from "a" 3) ∷ []

bus_never_panics_example :
    (n : Node ℕ ℕ Updates) × (run idle (opens "s" ∷ opens "s" ∷ closes 0 ∷ events) ≡ some n)
    × IsSound n
bus_never_panics_example = bus_never_panics "w" empty 5 (opens "s" ∷ opens "s" ∷ closes 0 ∷ events)

idle-IsSound : IsSound idle
idle-IsSound = new_node-IsSound "w" empty 5

-- The node once a stream is open, and after the events.
abbrev opened : Node ℕ ℕ Updates
opened = record { server = subscribe "s" idle.server; streams = (0, "s") ∷ [] }

opens_s : step idle (opens "s") ≡ some opened
unfolding step subscribe new_server insert
opens_s = refl

step-IsSound_at :
    (n m : Node ℕ ℕ Updates) (e : Event Updates) → step n e ≡ some m → IsSound n → IsSound m
step-IsSound_at n m e stepped v =
    let (next, also, w) = step-IsSound n e v in
    subst (λ k. IsSound k) (some-injective next m (sym also ∙ stepped)) w

opened-IsSound : IsSound opened
opened-IsSound = step-IsSound_at idle opened (opens "s") opens_s idle-IsSound

abbrev ran : Node ℕ ℕ Updates
ran = (run-IsSound opened events opened-IsSound).0

ran_from_opened : run opened events ≡ some ran
ran_from_opened = (run-IsSound opened events opened-IsSound).1

sent_in_order_example :
    sent 0 ("a" ∷ []) opened events ++ select (wants ("a" ∷ [])) (buffer_of 0 ran.server)
    ≡ select (wants ("a" ∷ [])) (accepted 0 opened events)
unfolding new_server
sent_in_order_example =
    sent_in_order idle opened ran "s" ("a" ∷ []) events idle-IsSound opens_s ran_from_opened

abbrev published : WorkerServer ℕ ℕ Updates
published = (publish_lem opened (from "a" 1) opened-IsSound).0

-- A second stream with the same id.
abbrev twice : Node ℕ ℕ Updates
twice = record { server = subscribe "s" opened.server; streams = insert 1 "s" opened.streams }

opens_again : step opened (opens "s") ≡ some twice
unfolding step subscribe new_server
opens_again = refl

twice-IsSound : IsSound twice
twice-IsSound = step-IsSound_at opened twice (opens "s") opens_again opened-IsSound

abbrev published_twice : WorkerServer ℕ ℕ Updates
published_twice = (publish_lem twice (from "a" 1) twice-IsSound).0

abbrev serving : WorkerServer ℕ ℕ Updates
serving = record idle.server { pool = one }
