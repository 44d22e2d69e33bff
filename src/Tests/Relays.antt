-- ===== src/Tests/Relays.antt =====
-- A worker and the main node, joined by a stream, at concrete inputs.
use tgplane.Common.{ℕ, String, List, [], ◌∷◌, none, true, false, Bool, if◌then◌else◌, ◌==◌}
use tgplane.Common.Int.{ℤ, pos}
use tgplane.Session.Pool.{Pool, new_pool}
use tgplane.Worker.Wire.{TelegramUpdate}
use tgplane.Worker.Client.{Client}
use tgplane.Worker.Server.Bus.{Node, Event, publishes, opens, receives, IsSound}
use tgplane.Worker.Server.Bus.Steps.{new_node, new_node-IsSound, step-IsSound, run-IsSound}

abbrev Updates : Type 0
Updates = TelegramUpdate String

abbrev empty : Pool ℕ ℕ
empty = new_pool none true

abbrev idle : Node ℕ ℕ Updates
idle = new_node "w" empty 5

abbrev from : String → String → Updates
from session_id payload = record {
  session_id = session_id;
  type = "message";
  payload = payload;
  received_at = 0;
}

abbrev events : List (Event Updates)
events = publishes (from "a" "{1}") ∷ publishes (from "b" "{2}") ∷ receives 0 ∷ []

idle-IsSound : IsSound idle
idle-IsSound = new_node-IsSound "w" empty 5

-- The node once the stream is open, and after the events.
abbrev opened : Node ℕ ℕ Updates
opened = (step-IsSound idle (opens "s") idle-IsSound).0

opened-IsSound : IsSound opened
opened-IsSound = (step-IsSound idle (opens "s") idle-IsSound).2

abbrev ran : Node ℕ ℕ Updates
ran = (run-IsSound opened events opened-IsSound).0

abbrev client : Client
client = record { id = "w"; addr = "host:1"; conn = 1 }

abbrev clock : ℕ → ℤ
clock k = pos k

-- Redis fails at the call 1.
abbrev even_calls : ℕ → Bool
even_calls k = if k == 1 then false else true
