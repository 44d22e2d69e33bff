-- ===== src/Worker/Manager/Drain.antt =====
-- `DrainWorker` of internal/worker/manager/manager.go.
use tgplane.Common.{
  string_key, ℕ, ◌+◌, String, List, [], ◌∷◌, ◌++◌, Option, none, some, ◌≡◌, ◌≢◌, refl, Result, ok,
  err, length, length-append, if◌then◌else◌, same?, arith, Option-cases, Result-cases, ◌⊎◌, inl,
  inr,
}
use tgplane.Common.Map.{lookup, lookup-delete}
use tgplane.Worker.Wire.{SessionInfo}
use tgplane.Worker.Client.{Rpc, Client, add_account, add_bot, remove_session, list_sessions}
use tgplane.Worker.Manager.{
  Manager, ManagerError, Left, not_found, list_failed, remote_error, remove_worker,
}
use tgplane.Worker.Manager.Balance.{Order, least_loaded_excluding}

-- `errors` holds a `SessionError` for each session that failed.
pub record DrainResult (E : Type 0) : Type 0 where
  pub migrated : ℕ
  pub failed : ℕ
  pub errors : List (String × ManagerError E)

module _ {W E : Type 0} (rpc : Rpc W E) where
  -- A bot, or else an account, without its token or phone.
  unfoldable pub reassign : Client → SessionInfo → W → Result E SessionInfo × W
  reassign dest sess w =
      if same? sess.type "bot"
      then add_bot rpc dest sess.session_id "" w
      else add_account rpc dest sess.session_id "" w

  unfoldable pub fail : SessionInfo → ManagerError E → DrainResult E → DrainResult E
  fail sess e r = record r { failed = r.failed + 1; errors = r.errors ++ (sess.session_id, e) ∷ [] }

  -- A session that was added elsewhere is removed from the source, whose error is only logged.
  unfoldable pub moved :
      Client → SessionInfo → DrainResult E → Result E SessionInfo × W → DrainResult E × W
  unfolding fail
  moved target sess r (err e, w) = (fail sess (remote_error e) r, w)
  moved target sess r (ok _, w) =
      (record r { migrated = r.migrated + 1 }, (remove_session rpc target sess.session_id w).1)

  unfoldable pub move_session :
      Order → String → Client → SessionInfo → Manager → DrainResult E → W → DrainResult E × W
  unfolding reassign moved fail
  move_session arrive id target sess m r w = elim (least_loaded_excluding rpc arrive id m w) [
    | err e ↦ (fail sess e r, w)
    | ok dest ↦ moved target sess r (reassign dest sess w)
  ]

  -- The loop over the sessions. The answers may come in another order each time.
  unfoldable pub move_all :
      (ℕ → Order)
      → String
      → Client
      → List SessionInfo
      → Manager
      → DrainResult E
      → W
      → DrainResult E × W
  unfolding move_session
  move_all arrive id target [] m r w = (r, w)
  move_all arrive id target (sess ∷ rest) m r w =
      let step = move_session (arrive (length rest)) id target sess m r w in
      move_all arrive id target rest m step.0 step.1

  abbrev pub no_result : DrainResult E
  no_result = record { migrated = 0; failed = 0; errors = [] }

  -- The result comes beside the error of `RemoveWorker`.
  unfoldable pub drain_worker :
      (ℕ → Order) → String → Manager → W → Left W E (Unit {0}) × Option (DrainResult E)
  unfolding move_all
  drain_worker arrive id m w = elim (lookup id m.workers) [
    | none ↦ (record { manager = m; world = w; result = err (not_found id) }, none)
    | some target ↦ elim (list_sessions rpc target w) [
      | err e ↦ (record { manager = m; world = w; result = err (list_failed id e) }, none)
      | ok sessions ↦
          let done = move_all arrive id target sessions m no_result w in
          (remove_worker rpc id m done.1, some done.0)
    ]
  ]

  -- One more session is counted, with its error if it failed.
  abbrev Counts : DrainResult E → DrainResult E → Type 0
  Counts r s =
      (s.migrated + s.failed ≡ r.migrated + r.failed + 1)
      × (length s.errors + r.failed ≡ length r.errors + s.failed)

  fail_lem :
      (sess : SessionInfo) (e : ManagerError E) (r : DrainResult E) → Counts r (fail sess e r)
  unfolding fail
  fail_lem sess e r = omega (arith, length-append r.errors ((sess.session_id, e) ∷ []))

  moved_lem :
      (target : Client) (sess : SessionInfo) (r : DrainResult E) (a : Result E SessionInfo × W)
      → Counts r (moved target sess r a).0
  unfolding moved
  moved_lem target sess r (err e, w) = fail_lem sess (remote_error e) r
  moved_lem target sess r (ok _, w) = omega arith

  move_session_lem :
      (arrive : Order) (id : String) (target : Client) (sess : SessionInfo) (m : Manager)
      (r : DrainResult E) (w : W)
      → let s = (move_session arrive id target sess m r w).0 in Counts r s
  unfolding move_session
  move_session_lem arrive id target sess m r w =
      elim (Result-cases (least_loaded_excluding rpc arrive id m w)) [
        | inl (e, nowhere) ↦ rw (nowhere, move_session) (fail_lem sess e r)
        | inr (dest, picked) ↦
            rw (picked, move_session) (moved_lem target sess r (reassign dest sess w))
      ]

  move_all_lem :
      (arrive : ℕ → Order) (id : String) (target : Client) (sessions : List SessionInfo)
      (m : Manager) (r : DrainResult E) (w : W)
      → let s = (move_all arrive id target sessions m r w).0 in
        (s.migrated + s.failed ≡ r.migrated + r.failed + length sessions)
        × (length s.errors + r.failed ≡ length r.errors + s.failed)
  unfolding move_all
  move_all_lem arrive id target [] m r w = (omega arith, refl)
  move_all_lem arrive id target (sess ∷ rest) m r w =
      let step = move_session (arrive (length rest)) id target sess m r w in
      omega (
        arith,
        move_session_lem (arrive (length rest)) id target sess m r w,
        move_all_lem arrive id target rest m step.0 step.1,
      )

  -- Either a drain fails, without a result, and changes nothing. Or the worker is registered and its
  -- sessions are listed, each listed session is counted once, as migrated or as failed, there are as
  -- many errors as failures, and the worker, and no other, is taken out of the registry, also when
  -- sessions have failed.
  pub drain_worker_lem :
      (arrive : ℕ → Order) (id : String) (m : Manager) (w : W)
      → let (left, result) = drain_worker arrive id m w in
        ((result ≡ none) × (left.manager ≡ m) × (left.world ≡ w) × (left.result ≢ ok tt))
        ⊎ ((target : Client) × (sessions : List SessionInfo) × (s : DrainResult E) × (lookup id
                m.workers
              ≡ some target)
            × (list_sessions rpc target w ≡ ok sessions)
            × (result ≡ some s)
            × (left.result ≡ ok tt)
            × (s.migrated + s.failed ≡ length sessions)
            × (length s.errors ≡ s.failed)
            × (lookup id left.manager.workers ≡ none)
            × ((j : String) → j ≢ id → lookup j left.manager.workers ≡ lookup j m.workers))
  unfolding drain_worker remove_worker
  drain_worker_lem arrive id m w = elim (Option-cases (lookup id m.workers)) [
    | inl missing ↦ inl (ground arith, ground arith, ground arith, λ h. ground arith)
    | inr (target, found) ↦ elim (Result-cases (list_sessions rpc target w)) [
      | inl (e, silent) ↦ inl (ground arith, ground arith, ground arith, λ h. ground arith)
      | inr (sessions, listed) ↦
          let done = move_all arrive id target sessions m no_result w in
          inr (
            target,
            sessions,
            done.0,
            found,
            listed,
            ground arith,
            ground arith,
            omega (arith, move_all_lem arrive id target sessions m no_result w),
            omega (arith, move_all_lem arrive id target sessions m no_result w),
            ground (arith, lookup-delete id id m.workers),
            λ j ne. ground (arith, lookup-delete id j m.workers),
          )
    ]
  ]
