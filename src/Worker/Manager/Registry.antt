-- ===== src/Worker/Manager/Registry.antt =====
-- The registry of workers under `AddWorker`, `RemoveWorker` and `RestoreWorkers`.
use tgplane.Common.{
  string_key, ℕ, suc, ◌+◌, String, List, [], ◌∷◌, ◌++◌, Option, none, some, Bool, true, false, ◌≡◌,
  ◌≢◌, refl, ap, ◌∙◌, Result, ok, err, length, if◌then◌else◌, arith, Option-cases, ◌⊎◌, inl, inr,
}
use tgplane.Common.Map.{
  lookup, insert, Distinct, Entries, insert-Distinct, delete-Distinct, insert-Entries,
  delete-Entries, lookup-insert, length-insert_absent, length-insert_present,
}
use tgplane.Worker.Client.{Rpc, Client, ClientError, new_client, connected, health}
use tgplane.Worker.Manager.{
  Manager, ManagerError, Left, Task, subscribes, already_registered, register, admit, connect,
  add_worker, remove_worker, restore, restore_workers,
}

-- Each worker stands once, under its own id.
pub record IsValid (m : Manager) : Type 0 where
  pub distinct : Distinct m.workers
  pub keyed : Entries (λ id c. c.id ≡ id) m.workers

-- The registry has gained this client, whose updates are subscribed to, and nothing else.
pub record Registers (id addr : String) (m n : Manager) : Type 0 where
  pub client : Client
  pub named : (client.id ≡ id) × (client.addr ≡ addr)
  pub was_free : lookup id m.workers ≡ none
  pub held : lookup id n.workers ≡ some client
  pub others : (j : String) → j ≢ id → lookup j n.workers ≡ lookup j m.workers
  pub one_more : length n.workers ≡ suc (length m.workers)
  pub subscribed : (later : List Task) × (n.tasks ≡ m.tasks ++ subscribes client ∷ later)
  pub still_valid : IsValid m → IsValid n

module _ {W E : Type 0} (rpc : Rpc W E) where
  register-Registers :
      (m : Manager) (c : Client) (w : W)
      → lookup c.id m.workers ≡ none
      → Registers c.id c.addr m (register rpc m c w).manager
  unfolding register
  register-Registers m c w new = record {
    client = c;
    named = (refl, refl);
    was_free = new;
    held = ground (arith, lookup-insert c.id c.id c m.workers);
    others = λ j ne. ground (arith, lookup-insert c.id j c m.workers);
    one_more = length-insert_absent c.id c m.workers new;
    subscribed = (_, refl);
    still_valid = λ v. record {
      distinct = insert-Distinct c.id c m.workers v.distinct;
      keyed = insert-Entries _ c.id c m.workers refl v.keyed;
    };
  }

  abbrev pub RegistersOrFails : String → String → Manager → Left W E (Unit {0}) → Type 0
  RegistersOrFails id addr m l =
      ((l.result ≡ ok tt) × Registers id addr m l.manager)
      ⊎ ((e : ManagerError E) × (l.result ≡ err e) × (l.manager ≡ m))

  admit_lem :
      (m : Manager) (c : Client) (h : Option (ClientError E) × W)
      → lookup c.id m.workers ≡ none
      → RegistersOrFails c.id c.addr m (admit rpc m c h)
  unfolding admit register
  admit_lem m c (none, w) new = inl (refl, register-Registers m c w new)
  admit_lem m c (some e, w) new = inr (_, refl, refl)

  connect_lem :
      (id addr : String) (m : Manager) (r : Result E ℕ) (w : W)
      → lookup id m.workers ≡ none
      → RegistersOrFails id addr m (connect rpc m (connected rpc id addr r, w))
  unfolding connect connected
  connect_lem id addr m (ok conn) w new =
      let c : Client = record { id = id; addr = addr; conn = conn } in
      admit_lem m c (health rpc c w) new
  connect_lem id addr m (err e) w new = inr (_, refl, refl)

  checked_lem :
      (id addr : String) (m : Manager) (w : W) (o : Option Client)
      → lookup id m.workers ≡ o
      → RegistersOrFails id addr m (elim o [
        | some _ ↦ record { manager = m; world = w; result = err (already_registered id) }
        | none ↦ connect rpc m (new_client rpc id addr w)
      ])
  unfolding new_client
  checked_lem id addr m w none new =
      connect_lem id addr m (rpc.dial addr w).0 (rpc.dial addr w).1 new
  checked_lem id addr m w (some c) held = inr (_, refl, refl)

  -- `AddWorker` either registers one more client, under an id that was free, and subscribes to its
  -- updates, keeping a valid registry valid; or it fails and leaves the manager as it was.
  pub add_worker_lem :
      (id addr : String) (m : Manager) (w : W)
      → RegistersOrFails id addr m (add_worker rpc id addr m w)
  unfolding add_worker
  add_worker_lem id addr m w = checked_lem id addr m w (lookup id m.workers) refl

  add_worker-IsValid :
      (id addr : String) (m : Manager) (w : W)
      → IsValid m
      → IsValid (add_worker rpc id addr m w).manager
  add_worker-IsValid id addr m w v = elim (add_worker_lem id addr m w) [
    | inl (e, gain) ↦ gain.still_valid v
    | inr (er, e, same) ↦ rw (same) v
  ]

  remove_worker-IsValid :
      (id : String) (m : Manager) (w : W) → IsValid m → IsValid (remove_worker rpc id m w).manager
  unfolding remove_worker
  remove_worker-IsValid id m w v = elim (Option-cases (lookup id m.workers)) [
    | inl e ↦ rw (remove_worker, e) v
    | inr (c, e) ↦
        rw (remove_worker, e)
          record {
            distinct = delete-Distinct id m.workers v.distinct;
            keyed = delete-Entries _ id m.workers v.keyed;
          }
  ]

  -- `RestoreWorkers` counts the workers it registers: the registry has grown by the count.
  restore_counts :
      (rows : List (String × String)) (m : Manager) (w : W) (n : ℕ)
      → let out = restore rpc rows m w n in
        (length out.0.workers + n ≡ length m.workers + out.2) × (IsValid m → IsValid out.0)
  unfolding restore
  restore_counts [] m w n = (refl, λ v. v)
  restore_counts ((id, addr) ∷ rows) m w n =
      let l = add_worker rpc id addr m w in
      elim (add_worker_lem id addr m w) [
        | inl (e, gain) ↦
            rw (restore, e)
              (let rest = restore_counts rows l.manager l.world (suc n) in
                (omega (arith, rest.0, gain.one_more), λ v. rest.1 (gain.still_valid v)))
        | inr (er, e, same) ↦
            rw (restore, e)
              (let rest = restore_counts rows l.manager l.world n in
                (
                  omega (arith, rest.0, ap (λ k. length k.workers) same),
                  λ v. rest.1 (add_worker-IsValid id addr m w v),
                ))
      ]

  -- The stored rows, when there is a store and it answers.
  restore_read :
      (stored : Bool) (read : Result E (List (String × String))) (m : Manager) (w : W)
      → IsValid m
      → let out =
          if stored
          then elim read [ err _ ↦ (m, w, 0) | ok rows ↦ restore rpc rows m w 0 ]
          else (m, w, 0) in
        (length out.0.workers ≡ length m.workers + out.2) × IsValid out.0
  restore_read true (ok rows) m w v =
      let out = restore_counts rows m w 0 in (omega (arith, out.0), out.1 v)
  restore_read true (err e) m w v = (omega arith, v)
  restore_read false _ m w v = (omega arith, v)

  -- On a valid registry, `RestoreWorkers` returns the number of workers that it has added, and the
  -- registry stays valid.
  pub restore_workers_lem :
      (m : Manager) (w : W)
      → IsValid m
      → let out = restore_workers rpc m w in
        (length out.0.workers ≡ length m.workers + out.2) × IsValid out.0
  unfolding restore_workers
  restore_workers_lem m w v = restore_read m.stored (rpc.list_rows w) m w v

  -- Two calls of `AddWorker` for one id may both find the id free before either registers. Then the
  -- client of the second is held, that of the first is not, and both are subscribed to.
  pub racing_registrations :
      (m : Manager) (c d : Client) (w v : W)
      → c.id ≡ d.id
      → lookup c.id m.workers ≡ none
      → let n = (register rpc (register rpc m c w).manager d v).manager in
        (lookup c.id n.workers ≡ some d)
        × (length n.workers ≡ suc (length m.workers))
        × ((between after : List Task) × (n.tasks
              ≡ (m.tasks ++ subscribes c ∷ between) ++ subscribes d ∷ after))
  unfolding register
  racing_registrations m c d w v same new =
      let once = insert c.id c m.workers in
      (
        ground (arith, lookup-insert d.id c.id d once, same),
        length-insert_present d.id d c once
              (ground (arith, lookup-insert c.id d.id c m.workers, same))
            ∙ length-insert_absent c.id c m.workers new,
        (_, _, refl),
      )
