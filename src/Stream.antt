-- ===== src/Stream.antt =====
-- The Redis stream of updates: internal/stream/publisher.go writes it, and
-- internal/replication/replicator.go and internal/webhook/dispatcher.go each read it in a loop of the
-- same text. Redis and `fmt.Sscan` are not modelled: what a read answers, and what a text scans to,
-- are arguments.
pub mod Reading
pub mod Values
use tgplane.Common.{
  string_key, ℕ, String, List, [], ◌∷◌, ◌++◌, Option, none, some, Bool, true, false,
}
use tgplane.Common.Int.{ℤ, pos}
use tgplane.Common.Map.{lookup}

-- The values of an entry: `interface{}` as far as the readers tell its types apart.
pub data Value : Type 0 where
  text : String → Value
  int64 : ℤ → Value
  other : Value

pub record Entry : Type 0 where
  pub id : String
  pub values : List (String × Value)

-- The `XADD` of `Publish`. Its errors are the caller's.
pub record Addition : Type 0 where
  pub stream : String
  pub max_len : ℕ
  pub approx : Bool
  pub values : List (String × Value)

unfoldable pub updates_stream : String
updates_stream = "tgplane:updates"

unfoldable pub publish : String → String → String → String → ℤ → Addition
unfolding updates_stream
publish worker_id session_id type payload now = record {
  stream = updates_stream;
  max_len = 10000;
  approx = true;
  values =
      ("session_id", text session_id)
      ∷ ("worker_id", text worker_id)
      ∷ ("type", text type)
      ∷ ("payload", text payload)
      ∷ ("received_at", int64 now)
      ∷ [];
}

-- `strVal` and the `str` of `extractEvent`.
unfoldable pub text_or_empty : Option Value → String
text_or_empty (some (text s)) = s
text_or_empty (some (int64 n)) = ""
text_or_empty (some other) = ""
text_or_empty none = ""

unfoldable pub str_val : List (String × Value) → String → String
unfolding text_or_empty
str_val m k = text_or_empty (lookup k m)

-- `scan` is what `fmt.Sscan` leaves in an int64 that was 0.
unfoldable pub int64_or_zero : (String → ℤ) → Option Value → ℤ
int64_or_zero scan (some (text s)) = scan s
int64_or_zero scan (some (int64 n)) = n
int64_or_zero scan (some other) = pos 0
int64_or_zero scan none = pos 0

unfoldable pub int64_val : (String → ℤ) → List (String × Value) → String → ℤ
unfolding int64_or_zero
int64_val scan m k = int64_or_zero scan (lookup k m)

-- Where a read starts: "$", the end of the stream at the time of the call, or after an id.
pub data Position : Type 0 where
  latest : Position
  after : String → Position

-- What one turn of a loop meets: the context cancelled before or in the read, an error, no message in
-- time, or the messages of the streams that were asked for.
pub data Turn : Type 0 where
  cancelled_before cancelled_reading failed timed_out : Turn
  messages : List Entry → Turn

unfoldable pub last_position : Position → List Entry → Position
last_position from [] = from
last_position from (e ∷ es) = last_position (after e.id) es

-- The loop of `Run`: the positions that its reads ask for, and the entries that it handles.
pub record Trace : Type 0 where
  pub asked : List Position
  pub handled : List Entry

unfoldable pub read_loop : Position → List Turn → Trace
unfolding last_position
read_loop from [] = record { asked = []; handled = [] }
read_loop from (cancelled_before ∷ turns) = record { asked = []; handled = [] }
read_loop from (cancelled_reading ∷ turns) = record { asked = from ∷ []; handled = [] }
read_loop from (failed ∷ turns) =
    let rest = read_loop from turns in record rest { asked = from ∷ rest.asked }
read_loop from (timed_out ∷ turns) =
    let rest = read_loop from turns in record rest { asked = from ∷ rest.asked }
read_loop from (messages es ∷ turns) =
    let rest = read_loop (last_position from es) turns in
    record { asked = from ∷ rest.asked; handled = es ++ rest.handled }

-- A loop starts at the end of the stream.
unfoldable pub run : List Turn → Trace
unfolding read_loop
run turns = read_loop latest turns
