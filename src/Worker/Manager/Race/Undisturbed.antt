-- ===== src/Worker/Manager/Race/Undisturbed.antt =====
-- A call of `AddWorker` whose stages nothing comes between, against `add_worker`.
use tgplane.Common.{
  string_key, ℕ, zero, suc, String, List, [], ◌∷◌, ◌++◌, Option, none, some, ◌≡◌, refl, ap, ◌∙◌,
  Result, ok, err, get_elem?, set, get_elem?-last, set-last, length, replicate, arith, Option-cases,
  inl, inr,
}
use tgplane.Common.Map.{lookup, insert}
use tgplane.Worker.Client.{Rpc, Client, ClientError, new_client, connected, health}
use tgplane.Worker.Manager.{
  Manager, Left, health_failed, client_failed, already_registered, register, admit, connect,
  add_worker,
}
use tgplane.Worker.Manager.Race.{
  Stage, cleared, dialled, checked, entered, returned, Shared, Event, calls_add, goes_on, begin,
  dial, check, enter, finish, go_on, step, run,
}

module _ {W E : Type 0} (rpc : Rpc W E) where
  -- The last call has returned, and left what an outcome says.
  abbrev pub Ends : List (Stage E) → Left W E (Unit {0}) → Shared W E → Type 0
  Ends xs l t =
      (t.manager ≡ l.manager) × (t.world ≡ l.world) × (t.calls ≡ xs ++ returned l.result ∷ [])

  abbrev pub steps : ℕ → List (Stage E) → List Event
  steps k xs = replicate k (goes_on (length xs))

  goes_on-last :
      (xs : List (Stage E)) (x : Stage E) (s : Shared W E)
      → s.calls ≡ xs ++ x ∷ []
      → step rpc s (goes_on (length xs)) ≡ go_on rpc (length xs) (some x) s
  unfolding step
  goes_on-last xs x s at =
      ap (λ o. go_on rpc (length xs) o s)
        (ap (λ cs. get_elem? cs (length xs)) at ∙ get_elem?-last xs x)

  set_stage :
      (xs : List (Stage E)) (x y : Stage E) (s : Shared W E)
      → s.calls ≡ xs ++ x ∷ []
      → set s.calls (length xs) y ≡ xs ++ y ∷ []
  set_stage xs x y s at = ap (λ cs. set cs (length xs) y) at ∙ set-last xs x y

  rests-Ends :
      (k : ℕ) (xs : List (Stage E)) (l : Left W E (Unit {0})) (s : Shared W E)
      → Ends xs l s
      → Ends xs l (run rpc s (steps k xs))
  unfolding run go_on
  rests-Ends zero xs l s h = h
  rests-Ends (suc k) xs l s h =
      rw (run, goes_on-last xs (returned l.result) s h.2) (rests-Ends k xs l s h)

  entered-Ends :
      (xs : List (Stage E)) (c : Client) (m : Manager) (s : Shared W E)
      → s.calls ≡ xs ++ entered c ∷ []
      → s.manager ≡ record m { workers = insert c.id c m.workers }
      → Ends xs (register rpc m c s.world) (run rpc s (steps 1 xs))
  unfolding run go_on finish register
  entered-Ends xs c m s at in_map =
      rw (run, goes_on-last xs (entered c) s at)
        (
          ground (arith, in_map),
          ground (arith, in_map),
          set_stage xs (entered c) (returned (ok tt)) s at,
        )

  checked-Ends :
      (xs : List (Stage E)) (c : Client) (s : Shared W E)
      → s.calls ≡ xs ++ checked c ∷ []
      → Ends xs (register rpc s.manager c s.world) (run rpc s (steps 2 xs))
  unfolding run go_on enter
  checked-Ends xs c s at =
      rw (run, goes_on-last xs (checked c) s at)
        (entered-Ends xs c s.manager (enter (length xs) c s)
          (set_stage xs (checked c) (entered c) s at) refl)

  checks-Ends :
      (xs : List (Stage E)) (c : Client) (h : Option (ClientError E) × W) (s : Shared W E)
      → s.calls ≡ xs ++ dialled c ∷ []
      → Ends xs (admit rpc s.manager c h) (run rpc (check rpc (length xs) c h s) (steps 2 xs))
  unfolding check admit
  checks-Ends xs c (none, w) s at =
      checked-Ends xs c (check rpc (length xs) c (none, w) s)
        (set_stage xs (dialled c) (checked c) s at)
  checks-Ends xs c (some e, w) s at =
      rests-Ends 2 xs _ (check rpc (length xs) c (some e, w) s)
        (refl, refl, set_stage xs (dialled c) (returned (err (health_failed e))) s at)

  dialled-Ends :
      (xs : List (Stage E)) (c : Client) (s : Shared W E)
      → s.calls ≡ xs ++ dialled c ∷ []
      → Ends xs (admit rpc s.manager c (health rpc c s.world)) (run rpc s (steps 3 xs))
  unfolding run go_on
  dialled-Ends xs c s at =
      rw (run, goes_on-last xs (dialled c) s at) (checks-Ends xs c (health rpc c s.world) s at)

  dials-Ends :
      (xs : List (Stage E)) (r : Result (ClientError E) Client) (w : W) (id addr : String)
      (s : Shared W E)
      → s.calls ≡ xs ++ cleared id addr ∷ []
      → Ends xs (connect rpc s.manager (r, w)) (run rpc (dial (length xs) (r, w) s) (steps 3 xs))
  unfolding dial connect
  dials-Ends xs (ok c) w id addr s at =
      dialled-Ends xs c (dial (length xs) (ok c, w) s)
        (set_stage xs (cleared id addr) (dialled c) s at)
  dials-Ends xs (err e) w id addr s at =
      rests-Ends 3 xs _ (dial (length xs) (err e, w) s)
        (refl, refl, set_stage xs (cleared id addr) (returned (err (client_failed e))) s at)

  cleared-Ends :
      (xs : List (Stage E)) (id addr : String) (s : Shared W E)
      → s.calls ≡ xs ++ cleared id addr ∷ []
      → Ends xs (connect rpc s.manager (new_client rpc id addr s.world)) (run rpc s (steps 4 xs))
  unfolding run go_on new_client
  cleared-Ends xs id addr s at =
      rw (run, goes_on-last xs (cleared id addr) s at)
        (dials-Ends xs (connected rpc id addr (rpc.dial addr s.world).0) (rpc.dial addr s.world).1
          id addr s at)

  -- A call of `AddWorker` that goes through its stages with nothing in between leaves the manager and
  -- the world that `add_worker` leaves, and returns what it returns, in any state of the other calls.
  pub undisturbed_lem :
      (id addr : String) (s : Shared W E)
      → let l = add_worker rpc id addr s.manager s.world in
        let t = run rpc s (calls_add id addr ∷ replicate 4 (goes_on (length s.calls))) in
        (t.manager ≡ l.manager)
        × (t.world ≡ l.world)
        × (t.calls ≡ s.calls ++ returned l.result ∷ [])
  unfolding run step begin add_worker
  undisturbed_lem id addr s =
      let begun : Shared W E = record s { calls = s.calls ++ begin id addr s ∷ [] } in
      elim (Option-cases (lookup id s.manager.workers)) [
        | inl free ↦
            rw (add_worker, free) (cleared-Ends s.calls id addr begun (ground (arith, free)))
        | inr (c, held) ↦
            rw (add_worker, held)
              (rests-Ends 4 s.calls
                (record {
                  manager = s.manager;
                  world = s.world;
                  result = err (already_registered id);
                })
                begun (refl, refl, ground (arith, held)))
      ]
