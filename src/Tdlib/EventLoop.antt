-- ===== src/Tdlib/EventLoop.antt =====
-- `RunEventLoop` of internal/tdlib/client.go: it polls until the client is there, and then hands the
-- updates to the handler.
use tgplane.Common.{
  ℕ, zero, suc, List, [], ◌∷◌, Option, none, some, Bool, false, ◌≡◌, ◌≢◌, refl, inl, inr,
  if◌then◌else◌, same?, ◌||◌, arith, replicate, map, same?_ne, sym, ◌∙◌,
}
use tgplane.Tdlib.{SessionConfig, wait_code, error, closed, Client, auth_state_key}
use tgplane.Tdlib.Authorization.{Account, reports, wants_code, monitor, started, Steps, done, then_}
use tgplane.Tdlib.Authorization.Safety.{IsValid, account_safe, Steps-frozen, Steps-IsValid}

-- One turn of the polling loop: what it reads, and whether the context is cancelled in its pause.
pub record Poll (T E : Type 0) : Type 0 where
  pub client : Client T E
  pub cancelled : Bool

pub data PollEnd (T : Type 0) : Type 0 where
  starts : T → PollEnd T
  auth_failed gives_up still_waiting : PollEnd T

module _ {T E : Type 0} where
  unfoldable pub poll : List (Poll T E) → PollEnd T
  poll [] = still_waiting
  poll (p ∷ ps) =
      let rest = poll ps in
      elim p.client.tdlib [
        | some t ↦ starts t
        | none ↦
            if same? p.client.auth_state error || same? p.client.auth_state closed
            then auth_failed
            else if p.cancelled
            then gives_up
            else rest
      ]

-- What the second loop receives.
pub data Signal (U : Type 0) : Type 0 where
  cancels closes : Signal U
  update : U → Signal U

-- The updates that are handed to the handler.
unfoldable pub handled : {U : Type 0} → List (Signal U) → List U
handled [] = []
handled (cancels ∷ rest) = []
handled (closes ∷ rest) = []
handled (update u ∷ rest) = u ∷ handled rest

-- `RunEventLoop`. No listener is opened, and no update handled, before the client is there.
unfoldable pub run_event_loop : {T E U : Type 0} → List (Poll T E) → (T → List (Signal U)) → List U
unfolding poll handled
run_event_loop polls listen = elim (poll polls) [
  | starts t ↦ handled (listen t)
  | auth_failed ↦ []
  | gives_up ↦ []
  | still_waiting ↦ []
]

no_client : {T : Type 0} (t : T) → none ≢ some t
no_client t p = ground arith

module _ {T E : Type 0} where
  abbrev pub uncancelled : Account T E → Poll T E
  uncancelled a = record { client = a.client; cancelled = false }

  -- Each account is reached from the one before it.
  abbrev pub Follows : ℕ → Account T E → List (Account T E) → Type 0
  Follows capacity a [] = Unit
  Follows capacity a (b ∷ bs) = Steps capacity a b × Follows capacity b bs

  -- The last of these accounts has this client.
  abbrev pub EndsWith : T → List (Account T E) → Type 0
  EndsWith t [] = ⊥
  EndsWith t (a ∷ []) = a.client.tdlib ≡ some t
  EndsWith t (a ∷ b ∷ bs) = EndsWith t (b ∷ bs)

  -- A client that is there is that of the last account.
  frozen-EndsWith :
      (capacity : ℕ) (t : T) (o : Option T) (a : Account T E) (bs : List (Account T E))
      → a.pending ≡ false
      → a.client.tdlib ≡ o
      → Follows capacity a bs
      → EndsWith t (a ∷ bs)
      → o ≡ some t
  frozen-EndsWith capacity t o a [] returned set f e = sym set ∙ e
  frozen-EndsWith capacity t o a (b ∷ bs) returned set f e =
      let (still, same) = Steps-frozen capacity f.0 returned in
      frozen-EndsWith capacity t o b bs still (same ∙ set) f.1 e

  poll-EndsWith :
      (capacity : ℕ) (t : T) (a : Account T E) (bs : List (Account T E))
      → IsValid capacity a
      → Follows capacity a bs
      → EndsWith t bs
      → poll (map uncancelled bs) ≡ starts t
  unfolding poll
  poll-EndsWith capacity t a [] v f e = absurd e
  poll-EndsWith capacity t a (b ∷ []) v f e = rw (e, poll) refl
  poll-EndsWith capacity t a (b ∷ c ∷ bs) v f e =
      let w = Steps-IsValid capacity f.0 v in
      elim w.settled [
        | inl (p, unset, clean, fine) ↦ ground (
          arith,
          same?_ne b.client.auth_state error fine,
          same?_ne b.client.auth_state closed w.never_closed,
          poll-EndsWith capacity t b (c ∷ bs) w f.1 e,
        )
        | inr (inl (u, p, set, clean, fine)) ↦
            ground (arith, frozen-EndsWith capacity t (some u) b (c ∷ bs) p set f.1 e)
        | inr (inr (x, p, unset, failed)) ↦
            absurd (no_client t (frozen-EndsWith capacity t none b (c ∷ bs) p unset f.1 e))
      ]

  -- If the context is not cancelled, and an account's `NewClient` succeeds in the end, then polling
  -- it, however its steps fall between the polls, starts the event loop on its client.
  pub event_loop_starts :
      (capacity : ℕ) (cfg : SessionConfig) (t : T) (polled : List (Account T E))
      → Follows capacity (started cfg) polled
      → EndsWith t polled
      → poll (map uncancelled polled) ≡ starts t
  event_loop_starts capacity cfg t polled f e =
      poll-EndsWith capacity t (started cfg) polled (account_safe capacity cfg (started cfg) done) f
        e

  still_waiting-replicate :
      (n : ℕ) (p : Poll T E)
      → p.client.tdlib ≡ none
      → p.client.auth_state ≡ wait_code
      → p.cancelled ≡ false
      → poll (replicate n p) ≡ still_waiting
  unfolding poll
  still_waiting-replicate zero p unset waits alive = refl
  still_waiting-replicate (suc n) p unset waits alive =
      ground (arith, still_waiting-replicate n p unset waits alive)

  -- After `NewClient` has failed, a report that comes late sets the state back to "waiting_code": the
  -- event loop then polls on, however often, until it is cancelled.
  pub late_report :
      (capacity : ℕ) (cfg : SessionConfig) (a : Account T E) (e : E) (n : ℕ)
      → Steps capacity (started cfg) a
      → a.client.auth_err ≡ some e
      → (b : Account T E) × Steps capacity (started cfg) b
        × (b.client.auth_err ≡ some e)
        × (b.client.auth_state ≡ wait_code)
        × (poll (replicate n (uncancelled b)) ≡ still_waiting)
  unfolding monitor
  late_report capacity cfg a e n run failed =
      let unset : a.client.tdlib ≡ none = elim (account_safe capacity cfg a run).settled [
        | inl (_, unset, _, _) ↦ unset
        | inr (inl (t, p, set, clean, fine)) ↦ absurd (ground arith)
        | inr (inr (x, p, unset, _)) ↦ unset
      ] in
      (
        record a { client = monitor wants_code a.client },
        then_ run (reports wants_code),
        failed,
        refl,
        still_waiting-replicate n _ unset refl refl,
      )
