-- ===== src/Postgres/Workers/Mirror.antt =====
-- The table of workers against the registry of the manager that writes it.
use mathlib.Core.Option
use tgplane.Common.{
  string_key, ℕ, String, List, Option, none, some, true, ◌≡◌, refl, Result, ok, err, same?,
  if◌then◌else◌, arith, Option-cases, ◌⊎◌, inl, inr,
}
use tgplane.Common.Map.{lookup, lookup-insert, lookup-delete}
use tgplane.Worker.Client.{Rpc, Client, ClientError, new_client, connected, health, close}
use tgplane.Worker.Manager.{
  Manager, Left, persist, forget, register, admit, connect, add_worker, remove_worker,
  already_registered,
}
use tgplane.Postgres.Workers.{
  WorkerSql, WorkerStoreError, wrap, upsert, delete_row, with_store, upsert_worker, plain,
}

-- `rows` is the table. What PostgreSQL documents of the three statements, as far as it is used here.
pub record Documented {W E : Type 0} (sql : WorkerSql W E) : Type 0 where
  pub rows : W → List (String × String)
  pub upserted :
      (id addr j : String) (w : W)
      → (sql.upsert_row id addr w).0 ≡ none
      → lookup j (rows (sql.upsert_row id addr w).1)
        ≡ (if same? id j then some addr else lookup j (rows w))
  pub upsert_failed :
      (id addr : String) (w : W) (e : E)
      → (sql.upsert_row id addr w).0 ≡ some e
      → rows (sql.upsert_row id addr w).1 ≡ rows w
  pub deleted :
      (id j : String) (w : W)
      → (sql.delete_id id w).0 ≡ none
      → lookup j (rows (sql.delete_id id w).1) ≡ (if same? id j then none else lookup j (rows w))
  pub delete_failed :
      (id : String) (w : W) (e : E)
      → (sql.delete_id id w).0 ≡ some e
      → rows (sql.delete_id id w).1 ≡ rows w

-- The calls over gRPC do not touch the table.
pub record KeepsRows {W F : Type 0} (rpc : Rpc W F) (rows : W → List (String × String))
    : Type 0 where
  pub dial_keeps : (addr : String) (w : W) → rows (rpc.dial addr w).1 ≡ rows w
  pub close_keeps : (conn : ℕ) (w : W) → rows (rpc.close_conn conn w) ≡ rows w
  pub health_keeps : (conn : ℕ) (w : W) → rows (rpc.health_rpc conn w).1 ≡ rows w

wrap-world : {A B W : Type 0} (f : A → B) (r : Option A × W) → (wrap f r).1 ≡ r.1
wrap-world f (none, w) = refl
wrap-world f (some e, w) = refl

module _ {W E F : Type 0} (sql : WorkerSql W E) (lift : WorkerStoreError E → F)
    (rpc : Rpc W F) where
  pub persist-world :
      (m : Manager) (id addr : String) (w : W)
      → m.stored ≡ true
      → persist (with_store sql lift rpc) m id addr w ≡ (sql.upsert_row id addr w).1
  unfolding persist with_store upsert
  persist-world m id addr w on = ground (
    arith,
    wrap-world lift (upsert sql id addr w),
    wrap-world (upsert_worker id) (sql.upsert_row id addr w),
  )

  pub forget-world :
      (m : Manager) (id : String) (w : W)
      → m.stored ≡ true
      → forget (with_store sql lift rpc) m id w ≡ (sql.delete_id id w).1
  unfolding forget with_store delete_row
  forget-world m id w on =
      ground (arith, wrap-world lift (delete_row sql id w), wrap-world plain (sql.delete_id id w))

module _ {W E F : Type 0} (sql : WorkerSql W E) (doc : Documented sql)
    (lift : WorkerStoreError E → F) (rpc : Rpc W F) (apart : KeepsRows rpc doc.rows) where
  -- The table has the addresses of the registered workers, and no other row.
  unfoldable pub Mirrors : Manager → W → Type 0
  Mirrors m w =
      (j : String)
      → Option.map (λ (c : Client). c.addr) (lookup j m.workers) ≡ lookup j (doc.rows w)

  -- The statement has failed, so the table has not changed, and yet the call has succeeded.
  unfoldable pub Lags : (W → Option E) → W → Left W F (Unit {0}) → Type 0
  Lags statement w l =
      (v : W) × (e : E) × (statement v ≡ some e)
      × (l.result ≡ ok tt)
      × (doc.rows l.world ≡ doc.rows w)

  register-Mirrors :
      (m : Manager) (c : Client) (w : W)
      → m.stored ≡ true
      → Mirrors m w
      → let l = register (with_store sql lift rpc) m c w in
        Mirrors l.manager l.world ⊎ Lags (λ v. (sql.upsert_row c.id c.addr v).0) w l
  unfolding register Mirrors Lags
  register-Mirrors m c w on h =
      let after = persist-world sql lift rpc m c.id c.addr w on in
      elim (Option-cases (sql.upsert_row c.id c.addr w).0) [
        | inl done ↦ inl (λ j. ground (
          arith,
          after,
          h j,
          doc.upserted c.id c.addr j w done,
          lookup-insert c.id j c m.workers,
        ))
        | inr (e, failed) ↦
            inr
              (w, e, failed, refl, ground (arith, after, doc.upsert_failed c.id c.addr w e failed))
      ]

  -- The same rows, where the registry has not changed.
  unchanged : (m : Manager) (w v : W) → Mirrors m w → doc.rows v ≡ doc.rows w → Mirrors m v
  unfolding Mirrors
  unchanged m w v h same = λ j. ground (arith, h j, same)

  moved :
      (statement : W → Option E) (w v : W) (l : Left W F (Unit {0}))
      → doc.rows v ≡ doc.rows w
      → Mirrors l.manager l.world ⊎ Lags statement v l
      → Mirrors l.manager l.world ⊎ Lags statement w l
  unfolding Lags
  moved statement w v l same (inl mirrors) = inl mirrors
  moved statement w v l same (inr (u, e, failed, answers, lags)) =
      inr (u, e, failed, answers, ground arith)

  admit-Mirrors :
      (m : Manager) (c : Client) (h : Option (ClientError F)) (w : W)
      → m.stored ≡ true
      → Mirrors m w
      → let l = admit (with_store sql lift rpc) m c (h, w) in
        Mirrors l.manager l.world ⊎ Lags (λ v. (sql.upsert_row c.id c.addr v).0) w l
  unfolding admit with_store
  admit-Mirrors m c none w on held = register-Mirrors m c w on held
  admit-Mirrors m c (some e) w on held = inl (unchanged m w _ held (apart.close_keeps c.conn w))

  connect-Mirrors :
      (id addr : String) (m : Manager) (r : Result F ℕ) (w : W)
      → m.stored ≡ true
      → Mirrors m w
      → let l =
          connect (with_store sql lift rpc) m (connected (with_store sql lift rpc) id addr r, w) in
        Mirrors l.manager l.world ⊎ Lags (λ v. (sql.upsert_row id addr v).0) w l
  unfolding connect connected health with_store
  connect-Mirrors id addr m (err e) w on held = inl held
  connect-Mirrors id addr m (ok conn) w on held =
      let v = (rpc.health_rpc conn w).1 in
      let same = apart.health_keeps conn w in
      moved _ w v _ same (admit-Mirrors m _ _ v on (unchanged m w v held same))

  checked-Mirrors :
      (id addr : String) (m : Manager) (w : W) (o : Option Client)
      → m.stored ≡ true
      → Mirrors m w
      → let l : Left W F (Unit {0}) = elim o [
        | some _ ↦ record { manager = m; world = w; result = err (already_registered id) }
        | none ↦
            connect (with_store sql lift rpc) m (new_client (with_store sql lift rpc) id addr w)
      ] in
        Mirrors l.manager l.world ⊎ Lags (λ v. (sql.upsert_row id addr v).0) w l
  unfolding new_client with_store
  checked-Mirrors id addr m w (some c) on held = inl held
  checked-Mirrors id addr m w none on held =
      let v = (rpc.dial addr w).1 in
      let same = apart.dial_keeps addr w in
      moved _ w v _ same
        (connect-Mirrors id addr m (rpc.dial addr w).0 v on (unchanged m w v held same))

  removed-Mirrors :
      (id : String) (m : Manager) (w : W)
      → m.stored ≡ true
      → Mirrors m w
      → let l = remove_worker (with_store sql lift rpc) id m w in
        Mirrors l.manager l.world ⊎ Lags (λ v. (sql.delete_id id v).0) w l
  unfolding remove_worker Mirrors Lags with_store
  removed-Mirrors id m w on held = elim (Option-cases (lookup id m.workers)) [
    | inl missing ↦ inl (λ j. ground (arith, held j))
    | inr (c, found) ↦
        let v = close rpc c w in
        let same = apart.close_keeps c.conn w in
        let after = forget-world sql lift rpc m id v on in
        elim (Option-cases (sql.delete_id id v).0) [
          | inl done ↦ inl (λ j.
              ground
                (arith, after, held j, same, doc.deleted id j v done, lookup-delete id j m.workers))
          | inr (e, failed) ↦ inr (
            v,
            e,
            failed,
            ground arith,
            ground (arith, after, same, doc.delete_failed id v e failed),
          )
        ]
  ]

  -- Where the table has the addresses of the registered workers and no other row, it has them again
  -- after `AddWorker` and after `RemoveWorker`, whether they succeed or fail; or
  -- PostgreSQL has refused the statement, the call has succeeded all the same, and the table is as it
  -- was before.
  pub registry_mirrored :
      (m : Manager) (w : W)
      → m.stored ≡ true
      → Mirrors m w
      → ((id addr : String)
          → let l = add_worker (with_store sql lift rpc) id addr m w in
            Mirrors l.manager l.world ⊎ Lags (λ v. (sql.upsert_row id addr v).0) w l)
        × ((id : String)
            → let l = remove_worker (with_store sql lift rpc) id m w in
              Mirrors l.manager l.world ⊎ Lags (λ v. (sql.delete_id id v).0) w l)
  unfolding add_worker
  registry_mirrored m w on held = (
    λ id addr. checked-Mirrors id addr m w (lookup id m.workers) on held,
    λ id. removed-Mirrors id m w on held,
  )
