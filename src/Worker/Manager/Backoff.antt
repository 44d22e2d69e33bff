-- ===== src/Worker/Manager/Backoff.antt =====
-- `subscribeLoop` of internal/worker/manager/manager.go: the pauses between two subscriptions, in
-- seconds.
use tgplane.Common.{
  ℕ, zero, suc, ◌*◌, ◌≤◌, List, [], ◌∷◌, Bool, ◌≡◌, refl, ap, length, ltb, if◌then◌else◌, arith,
  take, replicate, ◌∙◌,
}
use native.Mathlib.Nat.{le_refl}

-- One turn of the loop: whether the context was cancelled before the subscription, how the stream
-- ended, and whether the context was cancelled after it and during the pause.
pub record Turn : Type 0 where
  pub cancelled_before : Bool
  pub cancelled_after : Bool
  pub failed : Bool
  pub cancelled_waiting : Bool

unfoldable pub next_backoff : ℕ → ℕ
next_backoff backoff = if ltb backoff 30 then backoff * 2 else backoff

-- The pauses that the loop begins.
unfoldable pub subscribe_loop : ℕ → List Turn → List ℕ
unfolding next_backoff
subscribe_loop backoff [] = []
subscribe_loop backoff (t ∷ turns) =
    let retry = subscribe_loop (next_backoff backoff) turns in
    let again = subscribe_loop backoff turns in
    if t.cancelled_before
    then []
    else if t.cancelled_after
    then []
    else if t.failed
    then backoff ∷ (if t.cancelled_waiting then [] else retry)
    else again

-- The first n pauses of a loop that begins with this one.
unfoldable pub schedule : ℕ → ℕ → List ℕ
schedule zero backoff = []
schedule (suc n) backoff = backoff ∷ schedule n (next_backoff backoff)

subscribe_loop-schedule :
    (backoff : ℕ) (turns : List Turn)
    → subscribe_loop backoff turns ≡ schedule (length (subscribe_loop backoff turns)) backoff
unfolding subscribe_loop schedule
subscribe_loop-schedule backoff [] = refl
subscribe_loop-schedule backoff (t ∷ turns) = ground (
  arith,
  subscribe_loop-schedule (next_backoff backoff) turns,
  subscribe_loop-schedule backoff turns,
)

schedule_capped : (n : ℕ) → schedule n 32 ≡ take n (replicate n 32)
unfolding schedule next_backoff
schedule_capped zero = refl
schedule_capped (suc n) = ap (◌∷◌ 32) (schedule_capped n)

abbrev pauses : ℕ → ℕ → List ℕ
pauses n m = take n (1 ∷ 2 ∷ 4 ∷ 8 ∷ 16 ∷ replicate m 32)

-- The slack in the number of copies of 32 does not show.
take-replicate : (n m : ℕ) → n ≤ m → take {A = ℕ} n (replicate m 32) ≡ take n (replicate n 32)
take-replicate zero m h = refl
take-replicate (suc n) zero h = absurd (omega arith)
take-replicate (suc n) (suc m) h = ap (◌∷◌ 32) (take-replicate n m (omega arith))

schedule-pauses : (n m : ℕ) → n ≤ m → schedule n 1 ≡ pauses n m
unfolding schedule next_backoff
schedule-pauses zero m h = refl
schedule-pauses (suc zero) m h = refl
schedule-pauses (suc (suc zero)) m h = refl
schedule-pauses (suc (suc (suc zero))) m h = refl
schedule-pauses (suc (suc (suc (suc zero)))) m h = refl
schedule-pauses (suc (suc (suc (suc (suc n))))) m h =
    rw (take-replicate n m (omega arith), ← schedule_capped n) refl

-- However the streams end, the pauses are 1, 2, 4, 8 and 16 seconds and then 32 each time: they never
-- shrink, also after a subscription that worked, and the sixth is above the 30 seconds of the test.
pub subscribe_loop-pauses :
    (turns : List Turn)
    → let n = length (subscribe_loop 1 turns) in
      subscribe_loop 1 turns ≡ take n (1 ∷ 2 ∷ 4 ∷ 8 ∷ 16 ∷ replicate n 32)
subscribe_loop-pauses turns =
    subscribe_loop-schedule 1 turns
    ∙ schedule-pauses (length (subscribe_loop 1 turns)) _ (le_refl _)
