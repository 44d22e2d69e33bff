-- ===== src/Worker/Server/Streams.antt =====
-- What a stream of `Subscribe` sends, against the updates that reached its channel.
use tgplane.Common.{
  string_key, nat_key, ℕ, ◌+◌, ◌<◌, String, List, [], ◌∷◌, ◌++◌, Option, none, some, true, false,
  ◌≡◌, ◌≢◌, inl, inr, if◌then◌else◌, same?, arith, sym, ap, ◌∙◌, select, select-append,
  Option-cases, List-cases,
}
use mathlib.Core.List.{append-nil, append_assoc}
use mathlib.Core.Path.{subst}
use mathlib.Core.Option.{some-injective}
use tgplane.Common.Map.{
  lookup, values, Entries-values, lookup-insert, lookup-modify, lookup-Entries, insert-Entries_map,
}
use tgplane.Worker.Wire.{TelegramUpdate}
use tgplane.Worker.Server.{
  Channel, WorkerServer, publish, fan_out, subscribe, unsubscribe, receive, wants,
}
use tgplane.Worker.Server.Bus.{Node, Event, publishes, opens, closes, receives, step, run, IsSound}
use tgplane.Worker.Server.Bus.Steps.{step-IsSound, publish_lem}
use tgplane.Worker.Server.Bus.Buffers.{buffer_of, gained, publish-gained, fan_out_missed}

-- What a running stream gets from its channel.
out : {C H U : Type 0} → Option String → Option (U × WorkerServer C H U) → List U
out none r = []
out (some _) none = []
out (some _) (some (upd, _)) = upd ∷ []

module _ {C H U : Type 0} (a : ℕ) where
  -- The updates that an event adds to the channel's buffer, and those that it takes out.
  unfoldable pub accepts : Node C H U → Event U → List U
  accepts n (publishes upd) = gained a (values n.server.subscribers) upd n.server
  accepts n _ = []

  unfoldable pub takes : Node C H U → Event U → List U
  unfolding out
  takes n (receives b) = if same? b a then out (lookup b n.streams) (receive b n.server) else []
  takes n _ = []

  -- Over a whole history.
  unfoldable pub accepted : Node C H U → List (Event U) → List U
  accepted n [] = []
  accepted n (e ∷ es) = accepts n e ++ elim (step n e) [ none ↦ [] | some n' ↦ accepted n' es ]

  unfoldable pub received : Node C H U → List (Event U) → List U
  received n [] = []
  received n (e ∷ es) = takes n e ++ elim (step n e) [ none ↦ [] | some n' ↦ received n' es ]

  step-buffer :
      (n m : Node C H U) (e : Event U)
      → IsSound n
      → a < n.server.next_channel
      → step n e ≡ some m
      → (buffer_of a n.server ++ accepts n e ≡ takes n e ++ buffer_of a m.server)
        × (a < m.server.next_channel)
  unfolding step accepts takes buffer_of subscribe unsubscribe receive out
  step-buffer n m (publishes upd) v l h =
      let (t, e, _, _, _, _, next, _, _) = publish_lem n upd v in
      ground (arith, e, next, publish-gained n upd a t v e)
  step-buffer n m (opens sub_id) v l h = ground (
    arith,
    append-nil (buffer_of a n.server),
    lookup-insert n.server.next_channel a (record { buffer = []; open? = true }) n.server.channels,
  )
  step-buffer n m (closes b) v l h = ground (
    arith,
    append-nil (buffer_of a n.server),
    lookup-modify b a (λ (c : Channel U). record c { open? = false }) n.server.channels,
  )
  step-buffer n m (receives b) v l h = elim (Option-cases (lookup b n.streams)) [
    | inl missing ↦ ground (arith, append-nil (buffer_of a n.server))
    | inr (sub_id, running) ↦
        let (ch, found, is_open) = (lookup-Entries _ b sub_id n.streams v.opened running).0 in
        elim (List-cases ch.buffer) [
          | inl empty ↦ ground (arith, append-nil (buffer_of a n.server))
          | inr (upd, rest, full) ↦ ground (
            arith,
            append-nil (buffer_of a n.server),
            lookup-modify b a (λ (c : Channel U). record c { buffer = rest }) n.server.channels,
          )
        ]
  ]

  -- What a channel held and what reached its buffer is exactly, in order, what its stream received
  -- and what the channel still holds.
  stream_fifo :
      (n m : Node C H U) (es : List (Event U))
      → IsSound n
      → a < n.server.next_channel
      → run n es ≡ some m
      → buffer_of a n.server ++ accepted n es ≡ received n es ++ buffer_of a m.server
  unfolding run accepted received
  stream_fifo n m [] v l h = ground (arith, append-nil (buffer_of a n.server))
  stream_fifo n m (e ∷ es) v l h =
      let (n', stepped, v') = step-IsSound n e v in
      let (kept, l') = step-buffer n n' e v l stepped in
      let later = stream_fifo n' m es v' l' (ground arith) in
      rw stepped (
        sym (append_assoc (buffer_of a n.server) (accepts n e) (accepted n' es))
        ∙ ap (λ (l : List U). l ++ accepted n' es) kept
        ∙ append_assoc (takes n e) (buffer_of a n'.server) (accepted n' es)
        ∙ ap (◌++◌ (takes n e)) later
        ∙ sym (append_assoc (takes n e) (received n' es) (buffer_of a m.server)))

module _ {C H P : Type 0} where
  -- The loop of `Subscribe`: of what the stream receives, it sends what its filter wants.
  unfoldable pub sent :
      ℕ
      → List String
      → Node C H (TelegramUpdate P)
      → List (Event (TelegramUpdate P))
      → List (TelegramUpdate P)
  unfolding received
  sent a session_ids n es = select (wants session_ids) (received a n es)

  -- A stream that is opened at a sound node: over any history that follows, what it sends, and what
  -- is still in its channel and wanted, is exactly the wanted updates that reached its channel, in
  -- order, none lost and none repeated.
  pub sent_in_order :
      (n o m : Node C H (TelegramUpdate P)) (sub_id : String) (session_ids : List String)
      (es : List (Event (TelegramUpdate P)))
      → IsSound n
      → step n (opens sub_id) ≡ some o
      → run o es ≡ some m
      → let a = n.server.next_channel in
        sent a session_ids o es ++ select (wants session_ids) (buffer_of a m.server)
        ≡ select (wants session_ids) (accepted a o es)
  unfolding step sent subscribe buffer_of
  sent_in_order n o m sub_id session_ids es v h ran =
      let a = n.server.next_channel in
      let (o', opened, w) = step-IsSound n (opens sub_id) v in
      let sound : IsSound o = subst IsSound (some-injective _ _ (sym opened ∙ h)) w in
      let empty : buffer_of a o.server ≡ [] =
        ground
          (arith, lookup-insert a a (record { buffer = []; open? = true }) n.server.channels) in
      let kept = stream_fifo a o m es sound (ground arith) ran in
      sym (select-append (wants session_ids) (received a o es) (buffer_of a m.server))
      ∙ ap (select (wants session_ids))
          (sym kept ∙ ap (λ (l : List (TelegramUpdate P)). l ++ accepted a o es) empty)

module _ {C H U : Type 0} where
  -- In a sound node: once a second stream is opened under the id of a running one, a published update
  -- does not reach the channel of the first.
  pub same_id_starves :
      (n : Node C H U) (sub_id : String) (a : ℕ) (upd : U) (t : WorkerServer C H U)
      → IsSound n
      → lookup a n.streams ≡ some sub_id
      → publish upd (subscribe sub_id n.server) ≡ some t
      → buffer_of a t ≡ buffer_of a n.server
  unfolding publish subscribe buffer_of
  same_id_starves n sub_id a upd t v running h =
      let next = n.server.next_channel in
      let old : a < next = (lookup-Entries _ a sub_id n.streams v.opened running).1 in
      let others =
        insert-Entries_map _ (λ k b. b ≢ a) sub_id
          (λ k b ne found p. ne (ground (arith, ap (λ (x : ℕ). lookup x n.streams) p))) next
          n.server.subscribers v.distinct (λ p. omega arith) v.owned in
      let s0 : WorkerServer C H U = record (subscribe sub_id n.server) {
        received = n.server.received + 1;
      } in
      elim (Option-cases (fan_out upd (values s0.subscribers) s0)) [
        | inl e ↦ absurd (ground arith)
        | inr (u, e) ↦ ground (
          arith,
          fan_out_missed upd a (values s0.subscribers) s0 u
              (Entries-values (λ b. b ≢ a) s0.subscribers others) e,
          lookup-insert next a (record { buffer = []; open? = true }) n.server.channels,
        )
      ]
