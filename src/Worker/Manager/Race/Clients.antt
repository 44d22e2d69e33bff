-- ===== src/Worker/Manager/Race/Clients.antt =====
-- Where the clients of the workers are while calls of `AddWorker` and `RemoveWorker` run at the same
-- time.
use tgplane.Common.{
  string_key, ℕ, zero, suc, ◌+◌, String, List, [], ◌∷◌, Option, none, some, Bool, true, false, ◌≡◌,
  refl, Result, ok, err, if◌then◌else◌, get_elem?, set, length, length-append, arith, Option-cases,
  Bool-cases, inl, inr,
}
use tgplane.Common.Map.{
  lookup, insert-Distinct, delete-Distinct, insert-Entries, delete-Entries, length-insert_absent,
  length-insert_present, length-delete_present, count_if, count_if-append,
}
use tgplane.Worker.Client.{Rpc, Client, ClientError, dial_failed, new_client, connected, health}
use tgplane.Worker.Manager.{Manager, client_failed, health_failed, persist, forget, remove_worker}
use tgplane.Worker.Manager.Registry.{IsValid}
use tgplane.Worker.Manager.Race.{
  Stage, cleared, dialled, checked, entered, returned, Shared, Event, calls_add, goes_on,
  calls_remove, replaced, begin, dial, check, enter, finish, go_on, step, run,
}

-- The call has a client that is neither closed nor in the map.
abbrev pub holds_client : {E : Type 0} → Stage E → Bool
holds_client (dialled c) = true
holds_client (checked c) = true
holds_client _ = false

pub count-set {ℓ} :
    {A : Type ℓ} (p : A → Bool) (xs : List A) (n : ℕ) (x y : A)
    → get_elem? xs n ≡ some y
    → count_if p (set xs n x) + (if p y then 1 else 0) ≡ count_if p xs + (if p x then 1 else 0)
unfolding count_if
count-set p [] n x y h = absurd (ground arith)
count-set p (a ∷ xs) zero x y h = ground arith
count-set p (a ∷ xs) (suc n) x y h = ground (arith, count-set p xs n x y h)

-- What a world records of the connections: how many have been opened, and how many closed. gRPC
-- documents that `NewClient` opens one unless it fails and that `Close` closes it, and the other calls
-- do neither.
pub record Meter {W E : Type 0} (rpc : Rpc W E) : Type 0 where
  pub opened : W → ℕ
  pub closed : W → ℕ
  pub dial_fails :
      (addr : String) (w : W) (e : E)
      → (rpc.dial addr w).0 ≡ err e
      → (opened (rpc.dial addr w).1 ≡ opened w) × (closed (rpc.dial addr w).1 ≡ closed w)
  pub dial_opens :
      (addr : String) (w : W) (conn : ℕ)
      → (rpc.dial addr w).0 ≡ ok conn
      → (opened (rpc.dial addr w).1 ≡ suc (opened w)) × (closed (rpc.dial addr w).1 ≡ closed w)
  pub close_closes :
      (conn : ℕ) (w : W)
      → (opened (rpc.close_conn conn w) ≡ opened w)
        × (closed (rpc.close_conn conn w) ≡ suc (closed w))
  pub health_keeps :
      (conn : ℕ) (w : W)
      → (opened (rpc.health_rpc conn w).1 ≡ opened w)
        × (closed (rpc.health_rpc conn w).1 ≡ closed w)
  pub upsert_keeps :
      (id addr : String) (w : W)
      → (opened (rpc.upsert id addr w).1 ≡ opened w) × (closed (rpc.upsert id addr w).1 ≡ closed w)
  pub delete_keeps :
      (id : String) (w : W)
      → (opened (rpc.delete_row id w).1 ≡ opened w) × (closed (rpc.delete_row id w).1 ≡ closed w)

module _ {W E : Type 0} (rpc : Rpc W E) (meter : Meter rpc) where
  -- Each connection that has been opened is closed, or a call or the map has its client, or the client
  -- has been replaced.
  pub record Accounted (s : Shared W E) : Type 0 where
    pub valid : IsValid s.manager
    pub balance :
        meter.opened s.world
        ≡ meter.closed s.world
          + count_if holds_client s.calls
          + length s.manager.workers
          + length s.lost

  dial-Accounted :
      (id addr : String) (n : ℕ) (r : Result E ℕ) (s : Shared W E)
      → get_elem? s.calls n ≡ some (cleared id addr)
      → (rpc.dial addr s.world).0 ≡ r
      → Accounted s
      → Accounted (dial n (connected rpc id addr r, (rpc.dial addr s.world).1) s)
  unfolding dial connected
  dial-Accounted id addr n (err e) s at dialled_to a =
      let kept = meter.dial_fails addr s.world e dialled_to in
      let ended : Stage E = returned (err (client_failed (dial_failed id addr e))) in
      record {
        valid = a.valid;
        balance =
            omega (arith, a.balance, kept.0, kept.1, count-set holds_client s.calls n ended _ at);
      }
  dial-Accounted id addr n (ok conn) s at dialled_to a =
      let grown = meter.dial_opens addr s.world conn dialled_to in
      let c : Client = record { id = id; addr = addr; conn = conn } in
      record {
        valid = a.valid;
        balance =
            omega (
              arith,
              a.balance,
              grown.0,
              grown.1,
              count-set holds_client s.calls n (dialled c) _ at,
            );
      }

  enter-Accounted :
      (n : ℕ) (c : Client) (s : Shared W E)
      → get_elem? s.calls n ≡ some (checked c)
      → Accounted s
      → Accounted (enter n c s)
  unfolding enter replaced
  enter-Accounted n c s at a = record {
    valid = record {
      distinct = insert-Distinct c.id c s.manager.workers a.valid.distinct;
      keyed = insert-Entries _ c.id c s.manager.workers refl a.valid.keyed;
    };
    balance =
        let counted = count-set holds_client s.calls n (entered c) _ at in
        elim (Option-cases (lookup c.id s.manager.workers)) [
          | inl free ↦
              ground (arith, a.balance, counted, length-insert_absent c.id c s.manager.workers free)
          | inr (d, held) ↦ ground (
            arith,
            a.balance,
            counted,
            length-insert_present c.id c d s.manager.workers held,
            length-append s.lost (d ∷ []),
          )
        ];
  }

  check-Accounted :
      (n : ℕ) (c : Client) (h : Option (ClientError E)) (s : Shared W E)
      → get_elem? s.calls n ≡ some (dialled c)
      → Accounted s
      → Accounted (check rpc n c (h, (rpc.health_rpc c.conn s.world).1) s)
  unfolding check
  check-Accounted n c none s at a =
      let kept = meter.health_keeps c.conn s.world in
      record {
        valid = a.valid;
        balance =
            omega
              (arith, a.balance, kept.0, kept.1, count-set holds_client s.calls n (checked c) _ at);
      }
  check-Accounted n c (some e) s at a =
      let kept = meter.health_keeps c.conn s.world in
      let shut = meter.close_closes c.conn (rpc.health_rpc c.conn s.world).1 in
      let ended : Stage E = returned (err (health_failed e)) in
      record {
        valid = a.valid;
        balance = omega (
          arith,
          a.balance,
          kept.0,
          kept.1,
          shut.0,
          shut.1,
          count-set holds_client s.calls n ended _ at,
        );
      }

  -- The calls of the `WorkerStore`, made or not.
  persist-meter :
      (m : Manager) (id addr : String) (w : W)
      → (meter.opened (persist rpc m id addr w) ≡ meter.opened w)
        × (meter.closed (persist rpc m id addr w) ≡ meter.closed w)
  unfolding persist
  persist-meter m id addr w = elim (Bool-cases m.stored) [
    | inl on ↦ rw (on) (meter.upsert_keeps id addr w)
    | inr off ↦ rw (off) (refl, refl)
  ]

  forget-meter :
      (m : Manager) (id : String) (w : W)
      → (meter.opened (forget rpc m id w) ≡ meter.opened w)
        × (meter.closed (forget rpc m id w) ≡ meter.closed w)
  unfolding forget
  forget-meter m id w = elim (Bool-cases m.stored) [
    | inl on ↦ rw (on) (meter.delete_keeps id w)
    | inr off ↦ rw (off) (refl, refl)
  ]

  go_on-Accounted :
      (n : ℕ) (o : Option (Stage E)) (s : Shared W E)
      → get_elem? s.calls n ≡ o
      → Accounted s
      → Accounted (go_on rpc n o s)
  unfolding go_on finish new_client health
  go_on-Accounted n none s at a = a
  go_on-Accounted n (some (cleared id addr)) s at a =
      dial-Accounted id addr n (rpc.dial addr s.world).0 s at refl a
  go_on-Accounted n (some (dialled c)) s at a = check-Accounted n c _ s at a
  go_on-Accounted n (some (checked c)) s at a = enter-Accounted n c s at a
  go_on-Accounted n (some (entered c)) s at a =
      let kept = persist-meter s.manager c.id c.addr s.world in
      record {
        valid = record { distinct = a.valid.distinct; keyed = a.valid.keyed };
        balance = omega (
          arith,
          a.balance,
          kept.0,
          kept.1,
          count-set holds_client s.calls n (returned (ok tt)) _ at,
        );
      }
  go_on-Accounted n (some (returned r)) s at a = a

  step-Accounted : (s : Shared W E) (e : Event) → Accounted s → Accounted (step rpc s e)
  unfolding step begin remove_worker count_if
  step-Accounted s (calls_add id addr) a = record {
    valid = a.valid;
    balance = elim (Option-cases (lookup id s.manager.workers)) [
      | inl free ↦
          ground (arith, a.balance, count_if-append holds_client s.calls (begin id addr s ∷ []))
      | inr (c, held) ↦
          ground (arith, a.balance, count_if-append holds_client s.calls (begin id addr s ∷ []))
    ];
  }
  step-Accounted s (goes_on n) a = go_on-Accounted n (get_elem? s.calls n) s refl a
  step-Accounted s (calls_remove id) a = elim (Option-cases (lookup id s.manager.workers)) [
    | inl missing ↦ rw (remove_worker, missing) a
    | inr (c, held) ↦
        rw (remove_worker, held)
          record {
            valid = record {
              distinct = delete-Distinct id s.manager.workers a.valid.distinct;
              keyed = delete-Entries _ id s.manager.workers a.valid.keyed;
            };
            balance = omega (
              arith,
              a.balance,
              (meter.close_closes c.conn s.world).0,
              (meter.close_closes c.conn s.world).1,
              (forget-meter s.manager id (rpc.close_conn c.conn s.world)).0,
              (forget-meter s.manager id (rpc.close_conn c.conn s.world)).1,
              length-delete_present id c s.manager.workers a.valid.distinct held,
            );
          }
  ]

  -- Whatever calls run at the same time, in whatever order their steps come: each connection that has
  -- been opened is closed, or its client is with a call, in the map, or among those replaced there.
  pub run-Accounted : (s : Shared W E) (es : List Event) → Accounted s → Accounted (run rpc s es)
  unfolding run
  run-Accounted s [] a = a
  run-Accounted s (e ∷ es) a = run-Accounted (step rpc s e) es (step-Accounted s e a)
