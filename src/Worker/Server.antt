-- ===== src/Worker/Server.antt =====
-- internal/worker/server/server.go: the gRPC server of a worker. A Go channel has an address, and a
-- buffer of at most 256 updates; a send on a closed channel panics. Marshalling and the name of an
-- update's Go type are arguments.
pub mod Bus
pub mod Streams
pub mod Handlers
use tgplane.Common.{
  string_key, nat_key, ℕ, suc, ◌+◌, ◌%◌, ◌^◌, String, List, [], ◌∷◌, ◌++◌, Option, none, some, Bool,
  true, false, ◌||◌, Result, ok, err, map, length, ltb, if◌then◌else◌, same?,
}
use tgplane.Common.Int.{ℤ, pos, ◌+ℤ◌, ◌-ℤ◌}
use tgplane.Common.Map.{lookup, insert, delete, modify, values}
use tgplane.Session.Model.{Session, Status, pending, authorizing, ready, disconnected, error}
use tgplane.Session.Pool as Sessions
use tgplane.Session.Pool.{Pool, PoolError, Outcome}
use tgplane.Worker.Wire.{
  SessionInfo, TelegramUpdate, WorkerMetrics, Code, internal, not_found, type_string, status_string,
}

-- `make(chan *pb.TelegramUpdate, 256)`, the oldest update first.
pub record Channel (U : Type 0) : Type 0 where
  pub buffer : List U
  pub open? : Bool

abbrev pub capacity : ℕ
capacity = 256

-- `subscribers` maps a subscription's id to the address of its channel.
pub record WorkerServer (C H U : Type 0) : Type 0 where
  pub id : String
  pub pool : Pool C H
  pub subscribers : List (String × ℕ)
  pub channels : List (ℕ × Channel U)
  pub next_channel : ℕ
  pub updates_total : ℕ
  pub received : ℕ
  pub dispatched : ℕ
  pub dropped : ℕ
  pub active_streams : ℤ

module _ {C H U : Type 0} where
  -- `NewWithContext`: `dispatch` becomes the pool's handler.
  unfoldable pub new_server : String → Pool C H → H → WorkerServer C H U
  new_server id pool dispatch = record {
    id = id;
    pool = Sessions.set_update_handler dispatch pool;
    subscribers = [];
    channels = [];
    next_channel = 0;
    updates_total = 0;
    received = 0;
    dispatched = 0;
    dropped = 0;
    active_streams = pos 0;
  }

  -- `select { case ch <- upd: ... default: ... }` for one channel; `none` is the panic.
  unfoldable pub offer : U → ℕ → WorkerServer C H U → Option (WorkerServer C H U)
  offer upd a s = elim (lookup a s.channels) [
    | none ↦ none
    | some ch ↦
        if ch.open?
        then (if ltb (length ch.buffer) capacity
            then some (record s {
              channels =
                  modify a (λ (c : Channel U). record c { buffer = c.buffer ++ upd ∷ [] })
                    s.channels;
              dispatched = s.dispatched + 1;
            })
            else some (record s { dropped = s.dropped + 1 }))
        else none
  ]

  -- The loop of `dispatch` over the subscribers' channels.
  unfoldable pub fan_out : U → List ℕ → WorkerServer C H U → Option (WorkerServer C H U)
  fan_out upd [] s = some s
  fan_out upd (a ∷ rest) s = elim (offer upd a s) [ none ↦ none | some t ↦ fan_out upd rest t ]

  -- `dispatch`, once the update is marshalled; `updatesTotal` is an int64.
  unfoldable pub publish : U → WorkerServer C H U → Option (WorkerServer C H U)
  unfolding fan_out
  publish upd s =
      elim (fan_out upd (values s.subscribers) (record s { received = s.received + 1 })) [
        | none ↦ none
        | some t ↦ some (record t { updates_total = (t.updates_total + 1) % 2 ^ 64 })
      ]

  -- The beginning of `Subscribe`: a new channel under the id made from the clock.
  unfoldable pub subscribe : String → WorkerServer C H U → WorkerServer C H U
  subscribe sub_id s = record s {
    subscribers = insert sub_id s.next_channel s.subscribers;
    channels = insert s.next_channel (record { buffer = []; open? = true }) s.channels;
    next_channel = suc s.next_channel;
    active_streams = s.active_streams +ℤ pos 1;
  }

  -- Its deferred function, on every way out of `Subscribe`.
  unfoldable pub unsubscribe : String → ℕ → WorkerServer C H U → WorkerServer C H U
  unsubscribe sub_id a s = record s {
    subscribers = delete sub_id s.subscribers;
    channels = modify a (λ (c : Channel U). record c { open? = false }) s.channels;
    active_streams = s.active_streams -ℤ pos 1;
  }

  -- `case upd, ok := <-ch` while the buffer is not empty: the update that leaves it.
  unfoldable pub receive : ℕ → WorkerServer C H U → Option (U × WorkerServer C H U)
  receive a s = elim (lookup a s.channels) [
    | none ↦ none
    | some ch ↦ elim ch.buffer [
      | [] ↦ none
      | upd ∷ rest ↦ some (
        upd,
        record s { channels = modify a (λ (c : Channel U). record c { buffer = rest }) s.channels },
      )
    ]
  ]

-- `dispatch(sessionID, raw)`.
unfoldable pub dispatch :
    {C H R P : Type 0}
    → (R → Option P)
    → (R → String)
    → ℕ
    → String
    → R
    → WorkerServer C H (TelegramUpdate P)
    → Option (WorkerServer C H (TelegramUpdate P))
unfolding publish
dispatch marshal type_name now session_id raw s = elim (marshal raw) [
  | none ↦ some s
  | some payload ↦
      publish
        (record {
          session_id = session_id;
          type = type_name raw;
          payload = payload;
          received_at = now;
        })
        s
]

-- The filter of a subscription: no ids want every session.
unfoldable pub contains : String → List String → Bool
contains id [] = false
contains id (x ∷ xs) = same? x id || contains id xs

unfoldable pub wants : {P : Type 0} → List String → TelegramUpdate P → Bool
unfolding contains
wants [] upd = true
wants (id ∷ ids) upd = contains upd.session_id (id ∷ ids)
