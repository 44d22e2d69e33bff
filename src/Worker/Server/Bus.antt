-- ===== src/Worker/Server/Bus.antt =====
-- The update bus of internal/worker/server/server.go under any interleaving of streams that open,
-- close and receive, and of updates that come in.
pub mod Steps
pub mod Buffers
use tgplane.Common.{
  string_key, nat_key, ℕ, zero, suc, ◌+◌, ◌≤◌, ◌<◌, ◌%◌, ◌^◌, String, List, [], ◌∷◌, ◌++◌, Option,
  none, some, Bool, true, false, ◌≡◌, refl, ◌≢◌, ◌⊎◌, inl, inr, map, length, length-append, ltb,
  if◌then◌else◌, same?, arith, All, All-map, tests, ◌∙◌, sym, ap, Result, Option-cases, Bool-cases,
}
use tgplane.Common.Int.{ℤ, pos, ◌+ℤ◌, ◌-ℤ◌}
use tgplane.Common.Map.{
  lookup, insert, delete, modify, values, Distinct, Entries, insert-Distinct, delete-Distinct,
  modify-Distinct, lookup-insert, lookup-delete, lookup-modify, insert-Entries, delete-Entries,
  modify-Entries, lookup-Entries, Entries-map, delete-Entries_map, modify-Entries_at,
  length-insert_absent, length-delete_present,
}
use tgplane.Session.Pool.{Pool}
use tgplane.Worker.Server.{
  Channel, WorkerServer, capacity, new_server, offer, fan_out, publish, subscribe, unsubscribe,
  receive,
}

-- The server, and the goroutines that run `Subscribe`: the address of a stream's channel, and its
-- subscription's id.
pub record Node (C H U : Type 0) : Type 0 where
  pub server : WorkerServer C H U
  pub streams : List (ℕ × String)

pub data Event (U : Type 0) : Type 0 where
  publishes : U → Event U
  opens : String → Event U
  closes receives : ℕ → Event U

module _ {C H U : Type 0} where
  -- `none` is a panic. Only a running stream closes or receives.
  unfoldable pub step : Node C H U → Event U → Option (Node C H U)
  step n (publishes upd) = elim (publish upd n.server) [
    | none ↦ none
    | some s ↦ some (record n { server = s })
  ]
  step n (opens sub_id) = some (record {
    server = subscribe sub_id n.server;
    streams = insert n.server.next_channel sub_id n.streams;
  })
  step n (closes a) = elim (lookup a n.streams) [
    | none ↦ some n
    | some sub_id ↦
        some (record { server = unsubscribe sub_id a n.server; streams = delete a n.streams })
  ]
  step n (receives a) = elim (lookup a n.streams) [
    | none ↦ some n
    | some _ ↦ elim (receive a n.server) [
      | none ↦ some n
      | some (_, s) ↦ some (record n { server = s })
    ]
  ]

  unfoldable pub run : Node C H U → List (Event U) → Option (Node C H U)
  run n [] = some n
  run n (e ∷ es) = elim (step n e) [ none ↦ none | some n' ↦ run n' es ]

  abbrev pub IsOpen : WorkerServer C H U → ℕ → Type 0
  IsOpen s a = (ch : Channel U) × (lookup a s.channels ≡ some ch) × (ch.open? ≡ true)

  -- A subscriber's channel belongs to the running stream of that id; a running stream's channel is
  -- open; no buffer is over its capacity.
  pub record IsSound (n : Node C H U) : Type 0 where
    pub distinct : Distinct n.server.subscribers
    pub owned : Entries (λ sub_id a. lookup a n.streams ≡ some sub_id) n.server.subscribers
    pub running : Distinct n.streams
    pub opened : Entries (λ a sub_id. IsOpen n.server a × (a < n.server.next_channel)) n.streams
    pub bounded : Entries (λ a ch. length ch.buffer ≤ capacity) n.server.channels

  -- What a fan-out leaves alone, and what it counts.
  pub record Sent (k : ℕ) (s t : WorkerServer C H U) : Type 0 where
    pub same_subscribers : t.subscribers ≡ s.subscribers
    pub same_next : t.next_channel ≡ s.next_channel
    pub still_open : (a : ℕ) → IsOpen s a → IsOpen t a
    pub counted : t.dispatched + t.dropped ≡ s.dispatched + s.dropped + k
    pub same_total : t.updates_total ≡ s.updates_total
    pub same_received : t.received ≡ s.received
    pub within :
        Entries (λ a ch. length ch.buffer ≤ capacity) s.channels
        → Entries (λ a ch. length ch.buffer ≤ capacity) t.channels

  -- On an open channel a send never blocks and never panics.
  offer-Sent :
      (upd : U) (a : ℕ) (s : WorkerServer C H U)
      → IsOpen s a
      → (t : WorkerServer C H U) × (offer upd a s ≡ some t) × Sent 1 s t
  unfolding offer
  offer-Sent upd a s (ch, found, is_open) = elim (Bool-cases (ltb (length ch.buffer) capacity)) [
    | inr full ↦ (
      record s { dropped = s.dropped + 1 },
      rw (found, offer, is_open, full),
      record {
        same_subscribers = refl;
        same_next = refl;
        still_open = λ b o. o;
        counted = omega arith;
        same_total = refl;
        same_received = refl;
        within = λ w. w;
      },
    )
    | inl room ↦ (
      record s { channels = modify a add_update s.channels; dispatched = s.dispatched + 1 },
      rw (found, offer, is_open, room),
      record {
        same_subscribers = refl;
        same_next = refl;
        still_open = modify-IsOpen;
        counted = omega arith;
        same_total = refl;
        same_received = refl;
        within =
            modify-Entries_at (λ b c. length c.buffer ≤ capacity) a ch add_update s.channels found
              (omega (tests, length-append ch.buffer (upd ∷ [])));
      },
    )
  ]
    where
      add_update : Channel U → Channel U
      add_update c = record c { buffer = c.buffer ++ upd ∷ [] }

      modify-IsOpen :
          (b : ℕ)
          → IsOpen s b
          → (c : Channel U) × (lookup b (modify a add_update s.channels) ≡ some c)
            × (c.open? ≡ true)
      modify-IsOpen b (c, f, o) = elim (Bool-cases (same? a b)) [
        | inl hit ↦ (add_update c, ground (arith, lookup-modify a b add_update s.channels), o)
        | inr miss ↦ (c, ground (arith, lookup-modify a b add_update s.channels), o)
      ]

  pub fan_out-Sent :
      (upd : U) (addrs : List ℕ) (s : WorkerServer C H U)
      → All (IsOpen s) addrs
      → (t : WorkerServer C H U) × (fan_out upd addrs s ≡ some t) × Sent (length addrs) s t
  unfolding fan_out
  fan_out-Sent upd [] s h = (
    s,
    refl,
    record {
      same_subscribers = refl;
      same_next = refl;
      still_open = λ b o. o;
      counted = omega arith;
      same_total = refl;
      same_received = refl;
      within = λ w. w;
    },
  )
  fan_out-Sent upd (a ∷ addrs) s h =
      let (t, sent, first) = offer-Sent upd a s h.0 in
      let (u, rest, later) =
        fan_out-Sent upd addrs t (All-map (IsOpen s) (IsOpen t) addrs first.still_open h.1) in
      (
        u,
        rw (sent, fan_out, rest),
        record {
          same_subscribers = later.same_subscribers ∙ first.same_subscribers;
          same_next = later.same_next ∙ first.same_next;
          still_open = λ b o. later.still_open b (first.still_open b o);
          counted = omega (arith, first.counted, later.counted);
          same_total = later.same_total ∙ first.same_total;
          same_received = later.same_received ∙ first.same_received;
          within = λ w. later.within (first.within w);
        },
      )

  pub subscribers_open :
      (n : Node C H U) (m : List (String × ℕ))
      → IsSound n
      → Entries (λ sub_id a. lookup a n.streams ≡ some sub_id) m
      → All (IsOpen n.server) (values m)
  subscribers_open n [] v a = tt
  subscribers_open n ((sub_id, b) ∷ m) v a = (
    (lookup-Entries (λ c _. IsOpen n.server c × (c < n.server.next_channel)) b sub_id n.streams
        v.opened a.0).0,
    subscribers_open n m v a.1,
  )
