-- ===== src/Worker/Server/Bus/Steps.antt =====
-- A sound node never panics and stays sound.
use tgplane.Common.{
  string_key, nat_key, ℕ, suc, ◌+◌, ◌≤◌, ◌%◌, ◌^◌, String, List, [], ◌∷◌, Option, some, true, false,
  ◌≡◌, refl, ◌⊎◌, inl, inr, length, same?, arith, ◌∙◌, ap, Option-cases, List-cases, Bool-cases,
}
use tgplane.Common.Map.{
  lookup, delete, modify, values, Entries, insert-Distinct, delete-Distinct, lookup-insert,
  lookup-delete, lookup-modify, insert-Entries, modify-Entries, lookup-Entries, Entries-map,
  delete-Entries_map, modify-Entries_at, length-values,
}
use tgplane.Session.Pool.{Pool}
use tgplane.Worker.Server.{
  Channel, WorkerServer, capacity, new_server, publish, subscribe, unsubscribe, receive,
}
use tgplane.Worker.Server.Bus.{
  Node, Event, publishes, opens, closes, receives, step, run, IsOpen, IsSound, fan_out-Sent,
  subscribers_open,
}

module _ {C H U : Type 0} where
  -- In a sound node an update is counted once, goes to each subscriber's channel or is dropped there,
  -- and neither blocks nor panics.
  pub publish_lem :
      (n : Node C H U) (upd : U)
      → IsSound n
      → (t : WorkerServer C H U) × (publish upd n.server ≡ some t)
        × (t.dispatched + t.dropped
            ≡ n.server.dispatched + n.server.dropped + length n.server.subscribers)
        × (t.received ≡ n.server.received + 1)
        × (t.updates_total ≡ (n.server.updates_total + 1) % 2 ^ 64)
        × (t.subscribers ≡ n.server.subscribers)
        × (t.next_channel ≡ n.server.next_channel)
        × ((a : ℕ) → IsOpen n.server a → IsOpen t a)
        × Entries (λ a ch. length ch.buffer ≤ capacity) t.channels
  unfolding publish
  publish_lem n upd v =
      let s0 : WorkerServer C H U = record n.server { received = n.server.received + 1 } in
      let (t, sent, f) =
        fan_out-Sent upd (values n.server.subscribers) s0
          (subscribers_open n n.server.subscribers v v.owned) in
      (
        record t { updates_total = (t.updates_total + 1) % 2 ^ 64 },
        rw (sent, publish),
        f.counted
            ∙ ap (◌+◌ (n.server.dispatched + n.server.dropped))
                (length-values n.server.subscribers),
        f.same_received,
        ap (λ (x : ℕ). (x + 1) % 2 ^ 64) f.same_total,
        f.same_subscribers,
        f.same_next,
        f.still_open,
        f.within v.bounded,
      )

  -- The step that a sound node takes: no panic, and a sound node.
  abbrev Steps : Option (Node C H U) → Type 0
  Steps r = (n : Node C H U) × (r ≡ some n) × IsSound n

  publishes-Steps : (n : Node C H U) (upd : U) → IsSound n → Steps (step n (publishes upd))
  unfolding step
  publishes-Steps n upd v =
      let (t, sent, _, _, _, subscribers, next, still_open, within) = publish_lem n upd v in
      (
        record n { server = t },
        rw (sent, step),
        record {
          distinct = rw subscribers v.distinct;
          owned = rw subscribers v.owned;
          running = v.running;
          opened =
              rw next (Entries-map _ _ n.streams (λ a sub_id h. (still_open a h.0, h.1)) v.opened);
          bounded = within;
        },
      )

  opens-Steps : (n : Node C H U) (sub_id : String) → IsSound n → Steps (step n (opens sub_id))
  unfolding step subscribe
  opens-Steps n sub_id v =
      let a = n.server.next_channel in
      let empty : Channel U = record { buffer = []; open? = true } in
      (
        _,
        refl,
        record {
          distinct = insert-Distinct sub_id a n.server.subscribers v.distinct;
          owned =
              insert-Entries _ sub_id a n.server.subscribers
                (ground (arith, lookup-insert a a sub_id n.streams))
                (Entries-map _ _ n.server.subscribers
                  (λ k b h.
                    let old = lookup-Entries _ b k n.streams v.opened h in
                    ground (arith, lookup-insert a b sub_id n.streams))
                  v.owned);
          running = insert-Distinct a sub_id n.streams v.running;
          opened =
              insert-Entries _ a sub_id n.streams
                (
                  (empty, ground (arith, lookup-insert a a empty n.server.channels), refl),
                  omega arith,
                )
                (Entries-map _ _ n.streams
                  (λ b k h. (
                    (h.0.0, ground (arith, lookup-insert a b empty n.server.channels), h.0.2),
                    omega arith,
                  ))
                  v.opened);
          bounded = insert-Entries _ a empty n.server.channels (omega arith) v.bounded;
        },
      )

  -- A write to one channel leaves the others open.
  modify-IsOpen :
      (s : WorkerServer C H U) (a b : ℕ) (f : Channel U → Channel U)
      → ((same? a b ≡ false) ⊎ ((c : Channel U) → (f c).open? ≡ c.open?))
      → IsOpen s b
      → (c : Channel U) × (lookup b (modify a f s.channels) ≡ some c) × (c.open? ≡ true)
  modify-IsOpen s a b f keeps (c, found, o) = elim (Bool-cases (same? a b)) [
    | inl hit ↦ elim keeps [
      | inl miss ↦ absurd (ground arith)
      | inr same ↦ (f c, ground (arith, lookup-modify a b f s.channels), same c ∙ o)
    ]
    | inr miss ↦ (c, ground (arith, lookup-modify a b f s.channels), o)
  ]

  closes-Steps : (n : Node C H U) (a : ℕ) → IsSound n → Steps (step n (closes a))
  unfolding step unsubscribe
  closes-Steps n a v = elim (Option-cases (lookup a n.streams)) [
    | inl missing ↦ (n, rw (missing, step), v)
    | inr (sub_id, found) ↦ (
      record { server = unsubscribe sub_id a n.server; streams = delete a n.streams },
      rw (found, step),
      record {
        distinct = delete-Distinct sub_id n.server.subscribers v.distinct;
        owned =
            delete-Entries_map _ _ sub_id n.server.subscribers
              (λ k b ne h. ground (arith, lookup-delete a b n.streams)) v.owned;
        running = delete-Distinct a n.streams v.running;
        opened =
            delete-Entries_map _ _ a n.streams
              (λ b k ne h. (
                modify-IsOpen n.server a b (λ (c : Channel U). record c { open? = false })
                    (inl (ground arith)) h.0,
                h.1,
              ))
              v.opened;
        bounded = modify-Entries _ a _ n.server.channels (λ b c h. h) v.bounded;
      },
    )
  ]

  receives-Steps : (n : Node C H U) (a : ℕ) → IsSound n → Steps (step n (receives a))
  unfolding step receive
  receives-Steps n a v = elim (Option-cases (lookup a n.streams)) [
    | inl missing ↦ (n, rw (missing, step), v)
    | inr (sub_id, running) ↦
        let (ch, found, is_open) = (lookup-Entries _ a sub_id n.streams v.opened running).0 in
        elim (List-cases ch.buffer) [
          | inl empty ↦ (n, rw (running, step, found, receive, empty), v)
          | inr (upd, rest, full) ↦
              let shorten : Channel U → Channel U = λ c. record c { buffer = rest } in
              let fits : length ch.buffer ≤ capacity =
                lookup-Entries _ a ch n.server.channels v.bounded found in
              let size : length ch.buffer ≡ suc (length rest) = ap length full in
              (
                record n {
                  server = record n.server { channels = modify a shorten n.server.channels };
                },
                rw (running, step, found, receive, full),
                record {
                  distinct = v.distinct;
                  owned = v.owned;
                  running = v.running;
                  opened =
                      Entries-map _ _ n.streams
                        (λ b k h. (modify-IsOpen n.server a b shorten (inr (λ c. refl)) h.0, h.1))
                        v.opened;
                  bounded =
                      modify-Entries_at _ a ch shorten n.server.channels found (omega arith)
                        v.bounded;
                },
              )
        ]
  ]

  -- Every event of a sound node goes through without a panic, and leaves a sound node: the channel of
  -- each subscriber is that of a running stream, it is open, and no buffer holds more than 256
  -- updates.
  pub step-IsSound : (n : Node C H U) (e : Event U) → IsSound n → Steps (step n e)
  step-IsSound n (publishes upd) v = publishes-Steps n upd v
  step-IsSound n (opens sub_id) v = opens-Steps n sub_id v
  step-IsSound n (closes a) v = closes-Steps n a v
  step-IsSound n (receives a) v = receives-Steps n a v

  pub run-IsSound : (n : Node C H U) (es : List (Event U)) → IsSound n → Steps (run n es)
  unfolding run
  run-IsSound n [] v = (n, refl, v)
  run-IsSound n (e ∷ es) v =
      let (n', stepped, v') = step-IsSound n e v in
      let (last, ran, w) = run-IsSound n' es v' in (last, rw (stepped, run, ran), w)

  abbrev pub new_node : String → Pool C H → H → Node C H U
  new_node id pool h = record { server = new_server id pool h; streams = [] }

  pub new_node-IsSound : (id : String) (pool : Pool C H) (h : H) → IsSound (new_node id pool h)
  unfolding new_server
  new_node-IsSound id pool h = record {
    distinct = tt;
    owned = tt;
    running = tt;
    opened = tt;
    bounded = tt;
  }

  -- A server that starts without subscribers never panics, whatever updates come in and streams open,
  -- receive and close, also where two streams share an id; each subscriber's channel stays open, and
  -- no buffer ever holds more than 256 updates.
  pub bus_never_panics :
      (id : String) (pool : Pool C H) (h : H) (es : List (Event U))
      → (n : Node C H U) × (run (new_node id pool h) es ≡ some n) × IsSound n
  bus_never_panics id pool h es = run-IsSound _ es (new_node-IsSound id pool h)
