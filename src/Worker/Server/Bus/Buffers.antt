-- ===== src/Worker/Server/Bus/Buffers.antt =====
-- What one event does to the buffer of one channel.
use tgplane.Common.{
  string_key, nat_key, ℕ, ◌+◌, String, List, [], ◌∷◌, ◌++◌, none, some, Bool, false, ◌&&◌, ◌||◌,
  ◌≡◌, ◌≢◌, inl, inr, length, ltb, if◌then◌else◌, same?, arith, All, All-map, sym, ap, ◌∙◌,
  same?→eq, Option-cases, Bool-cases,
}
use mathlib.Core.List.{append-nil}
use tgplane.Common.Map.{lookup, values, Distinct, Entries, lookup-modify}
use tgplane.Worker.Server.{Channel, WorkerServer, capacity, offer, fan_out, publish}
use tgplane.Worker.Server.Bus.{Node, IsSound}

-- Every address stands once.
abbrev pub Once : List ℕ → Type 0
Once [] = Unit {0}
Once (a ∷ xs) = All (λ b. b ≢ a) xs × Once xs

unfoldable pub leads_to : ℕ → List ℕ → Bool
leads_to a [] = false
leads_to a (b ∷ bs) = same? b a || leads_to a bs

module _ {C H U : Type 0} where
  unfoldable pub buffer_of : ℕ → WorkerServer C H U → List U
  buffer_of a s = elim (lookup a s.channels) [ none ↦ [] | some ch ↦ ch.buffer ]

  -- What the update adds to the channel's buffer when it is sent to these addresses.
  abbrev pub gained : ℕ → List ℕ → U → WorkerServer C H U → List U
  gained a addrs upd s =
      if leads_to a addrs && ltb (length (buffer_of a s)) capacity then upd ∷ [] else []

  offer-buffer :
      (upd : U) (a b : ℕ) (s t : WorkerServer C H U)
      → offer upd b s ≡ some t
      → buffer_of a t ≡ (
          if same? b a && ltb (length (buffer_of a s)) capacity
          then buffer_of a s ++ upd ∷ []
          else buffer_of a s)
  unfolding offer buffer_of
  offer-buffer upd a b s t h = ground (
    arith,
    lookup-modify b a (λ (c : Channel U). record c { buffer = c.buffer ++ upd ∷ [] }) s.channels,
  )

  pub fan_out_missed :
      (upd : U) (a : ℕ) (addrs : List ℕ) (s t : WorkerServer C H U)
      → All (λ b. b ≢ a) addrs
      → fan_out upd addrs s ≡ some t
      → buffer_of a t ≡ buffer_of a s
  unfolding fan_out
  fan_out_missed upd a [] s t o h = ground arith
  fan_out_missed upd a (b ∷ addrs) s t o h = elim (Option-cases (offer upd b s)) [
    | inl e ↦ ground arith
    | inr (u, e) ↦ ground (arith, offer-buffer upd a b s u e, fan_out_missed upd a addrs u t o.1)
  ]

  pub fan_out-gained :
      (upd : U) (a : ℕ) (addrs : List ℕ) (s t : WorkerServer C H U)
      → Once addrs
      → fan_out upd addrs s ≡ some t
      → buffer_of a t ≡ buffer_of a s ++ gained a addrs upd s
  unfolding fan_out leads_to
  fan_out-gained upd a [] s t o h = ground (arith, append-nil (buffer_of a s))
  fan_out-gained upd a (b ∷ addrs) s t o h = elim (Option-cases (offer upd b s)) [
    | inl e ↦ ground arith
    | inr (u, e) ↦ elim (Bool-cases (same? b a)) [
      | inl hit ↦
          let off : All (λ c. c ≢ a) addrs =
            All-map (λ c. c ≢ b) (λ c. c ≢ a) addrs (λ c ne p. ne (p ∙ sym (same?→eq b a hit)))
              o.0 in
          ground (
            arith,
            offer-buffer upd a b s u e,
            fan_out_missed upd a addrs u t off,
            append-nil (buffer_of a s),
          )
      | inr miss ↦ ground (arith, offer-buffer upd a b s u e, fan_out-gained upd a addrs u t o.1)
    ]
  ]

  -- In a sound node no two subscribers share a channel.
  other_addresses :
      (n : Node C H U) (sub_id : String) (a : ℕ) (m : List (String × ℕ))
      → lookup a n.streams ≡ some sub_id
      → lookup sub_id m ≡ none
      → Entries (λ k b. lookup b n.streams ≡ some k) m
      → All (λ b. b ≢ a) (values m)
  unfolding lookup
  other_addresses n sub_id a [] running absent h = tt
  other_addresses n sub_id a ((k, b) ∷ m) running absent h = (
    λ e. ground (arith, ap (λ (x : ℕ). lookup x n.streams) e),
    other_addresses n sub_id a m running (ground arith) h.1,
  )

  addresses-Once :
      (n : Node C H U) (m : List (String × ℕ))
      → Distinct m
      → Entries (λ k b. lookup b n.streams ≡ some k) m
      → Once (values m)
  addresses-Once n [] d h = tt
  addresses-Once n ((k, b) ∷ m) d h =
      (other_addresses n k b m h.0 d.0 h.1, addresses-Once n m d.1 h.1)

  -- In a sound node, a published update is appended to the buffer of a channel exactly once if a
  -- subscriber leads to the channel and it has room, and not at all otherwise.
  pub publish-gained :
      (n : Node C H U) (upd : U) (a : ℕ) (t : WorkerServer C H U)
      → IsSound n
      → publish upd n.server ≡ some t
      → buffer_of a t ≡ buffer_of a n.server ++ gained a (values n.server.subscribers) upd n.server
  unfolding publish buffer_of
  publish-gained n upd a t v h =
      let addrs = values n.server.subscribers in
      let s0 : WorkerServer C H U = record n.server { received = n.server.received + 1 } in
      elim (Option-cases (fan_out upd addrs s0)) [
        | inl e ↦ absurd (ground arith)
        | inr (u, e) ↦ ground (
          arith,
          fan_out-gained upd a addrs s0 u (addresses-Once n n.server.subscribers v.distinct v.owned)
              e,
        )
      ]
