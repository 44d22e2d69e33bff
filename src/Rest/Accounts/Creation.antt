-- ===== src/Rest/Accounts/Creation.antt =====
-- What a POST of an account leaves in PostgreSQL for the requests after it.
use tgplane.Common.{
  nat_key, string_key, ℕ, ◌<◌, String, List, [], ◌∷◌, ◌++◌, Option, none, some, map, true, false,
  Result, ok, err, ap, sym, ◌∙◌, ◌≡◌, ◌≢◌, ◌⊎◌, refl, inl, inr, same?, same?_refl, All, All-map,
  arith, Option-cases, Result-cases,
}
use tgplane.Common.Int.{ℤ}
use tgplane.Session.Model.{pending, authorizing}
use tgplane.Repository.{Row}
use tgplane.Account.{Account, Profile, no_profile, new_account}
use tgplane.Postgres.{Schema, Sql, SqlError, no_rows, driver, Documented, change_where, clashes}
use tgplane.Postgres.Tables.{
  Tidy, All-middle, append-Tidy, first_by_id, found_there, first, first-none,
}
use tgplane.Postgres.Rows as Rows
use tgplane.Postgres.Rows.{
  row_table, NewRow, Condition, id_is, session_is, Change, set_status, set_worker, Method, gets,
  creates, StoreError, wrapped, account_error, get_by_id, update_status, update_worker_id, change,
}
use tgplane.Postgres.Rows.Store.{Store, new_store, is_sql_no_rows, wraps_no_rows}
use tgplane.Worker.Wire.{SessionInfo}
use tgplane.Worker.Client.{Rpc, add_account}
use tgplane.Worker.Manager.{Manager, ManagerError}
use tgplane.Worker.Manager.Balance.{Order, least_loaded, assign_account, assigned}
use tgplane.Rest.{json, error_resp}
use tgplane.Rest.Accounts.{row_error, worker_error, settle, assign, added, create, shown, get}

abbrev pub account_table : Schema
account_table = row_table Profile no_profile

map_last :
    {A : Type 0} (f : A → A) (xs : List A) (a : A)
    → All (λ x. f x ≡ x) xs
    → map f (xs ++ a ∷ []) ≡ xs ++ f a ∷ []
map_last f [] a h = refl
map_last f (x ∷ xs) a h = ground (arith, h.0, map_last f xs a h.1)

module _ {W E X : Type 0} (sql : Sql account_table W X) (doc : Documented account_table sql)
    (text : String → ℤ → ℤ → W → Result (StoreError X) (List Account)) (rpc : Rpc W E) where
  -- The repository of the main node.
  abbrev pub accounts : Store Profile W (StoreError X)
  accounts = new_store sql account_error text

  -- A call of a worker does not touch the table of accounts.
  abbrev pub KeepsAccounts : Type 0
  KeepsAccounts =
      (conn : ℕ) (session_id phone : String) (w : W)
      → doc.rows (rpc.add_account_rpc conn session_id phone w).1 ≡ doc.rows w

  -- An INSERT with RETURNING and without ON CONFLICT returns a row unless it fails.
  abbrev pub Returns : Type 0
  Returns = (n : NewRow) (w : W) → (sql.insert n w).0 ≢ ok none

  -- The row agrees with these values in no unique column.
  abbrev Free : String → String → Account → Type 0
  Free phone uuid b = clashes (b.unique ∷ b.session_id ∷ []) (phone ∷ uuid ∷ []) ≡ false

  -- The row stands last, with an id above and unique values apart from the others.
  pub record Stands (a : Account) (w v : W) : Type 0 where
    pub rows : doc.rows v ≡ doc.rows w ++ a ∷ []
    pub above : All (λ b. b.id < a.id) (doc.rows w)
    pub apart :
        All
          (λ b. clashes (b.unique ∷ b.session_id ∷ []) (a.unique ∷ a.session_id ∷ []) ≡ false)
          (doc.rows w)

  -- What a GET answers for a row that is in the table, unless PostgreSQL fails.
  abbrev pub Answers : Account → W → Type 0
  Answers a v =
      (get rpc accounts (some a.id) v ≡ json 200 a)
      ⊎ ((e : X) × (get rpc accounts (some a.id) v
            ≡ error_resp 500 (row_error (wrapped (gets a.id) (driver e)))))

  Stands-get :
      (a : Account) (w v : W) → Tidy account_table (doc.rows w) → Stands a w v → Answers a v
  unfolding get shown new_store get_by_id account_error wraps_no_rows is_sql_no_rows json error_resp
  Stands-get a w v tidy s =
      let whole : Tidy account_table (doc.rows w ++ a ∷ []) =
        append-Tidy account_table (doc.rows w) a tidy s.above s.apart in
      let now : first (λ c. same? c.id a.id) (doc.rows v) ≡ some a =
        rw (s.rows) (first_by_id account_table (doc.rows w) [] a whole) in
      elim (Result-cases (sql.select_one (id_is a.id) v)) [
        | inr (c, found) ↦
            let (pre, post, split, here) = doc.one_selected (id_is a.id) v c found in
            let same : c ≡ a =
              found_there account_table (doc.rows v) pre post c a (rw (s.rows) whole) split now
                (ground (arith, here)) in
            inl (ground (arith, found, same))
        | inl (driver e, failed) ↦ inr (e, ground (arith, failed))
        | inl (no_rows, missing) ↦ absurd (
            ground (
              arith,
              now,
              first-none (λ (c : Account). same? c.id a.id) (doc.rows v)
                  (doc.none_selected (id_is a.id) v missing),
            ))
      ]

  -- What `Service.Add` stores.
  add-Stands :
      (phone uuid : String) (a : Account) (w : W)
      → Returns
      → (accounts.create_row (new_account uuid phone) w).0 ≡ ok a
      → (a ≡ record (new_account uuid phone) { id = a.id })
        × Stands a w (accounts.create_row (new_account uuid phone) w).1
  unfolding new_store Rows.create Rows.created
  add-Stands phone uuid a w returns made =
      let n : NewRow = record { unique = phone; session_id = uuid; status = pending } in
      elim (Result-cases (sql.insert n w).0) [
        | inl (e, failed) ↦ absurd (ground arith)
        | inr (o, answered) ↦ elim (Option-cases o) [
          | inl nothing ↦ absurd (returns n w (ground arith))
          | inr (r, returned) ↦ elim (Result-cases r) [
            | inl (e, unscanned) ↦ absurd (ground arith)
            | inr (id, scanned) ↦
                let (m, grown, named, above, apart, shows) = doc.inserted n w r (ground arith) in
                let same : id ≡ m = ground (arith, shows id scanned) in
                let is : a ≡ record (new_account uuid phone) { id = id } = ground arith in
                let row : account_table.make m n ≡ a = ground (arith, is, same) in
                (
                  ground (arith, is),
                  record {
                    rows = ground (arith, grown, row);
                    above = rw (sym (ap Row.id row)) above;
                    apart = rw (is) apart;
                  },
                )
          ]
        ]
      ]

  -- An update of the last row, which no other row is selected with.
  changed-last :
      (d : Change Profile) (c : Condition) (a : Account) (w v : W)
      → doc.rows v ≡ doc.rows w ++ a ∷ []
      → All (λ b. Rows.holds c b ≡ false) (doc.rows w)
      → Rows.holds c a ≡ true
      → ((e : SqlError X) → (sql.update d c v).0 ≢ err e)
      → doc.rows (sql.update d c v).1 ≡ doc.rows w ++ Rows.write d a ∷ []
  changed-last d c a w v at others here works = elim (Result-cases (sql.update d c v).0) [
    | inl (e, failed) ↦ absurd (works e failed)
    | inr (n, answered) ↦
        doc.updated d c v n answered
        ∙ ap (map (change_where account_table d c)) at
        ∙ map_last (change_where account_table d c) (doc.rows w) a
            (All-map _ _ (doc.rows w) (λ b no. ground (arith, no)) others)
        ∙ ap (λ x. doc.rows w ++ x ∷ []) (ground (arith, here))
  ]

  -- No UPDATE fails.
  abbrev pub Updates : Type 0
  Updates =
      (d : Change Profile) (c : Condition) (w : W) (e : SqlError X) → (sql.update d c w).0 ≢ err e

  -- The two updates that follow an assignment.
  placed-Stands :
      (a : Account) (worker_id : String) (w v : W)
      → Updates
      → Stands a w v
      → let marked = (accounts.set_row_status a.id authorizing v).1 in
        let placed = (accounts.set_row_worker a.session_id worker_id marked).1 in
        Stands (record a { worker_id = some worker_id; status = authorizing }) w placed
  unfolding new_store update_status update_worker_id change
  placed-Stands a worker_id w v works s =
      let marked = (sql.update (set_status authorizing) (id_is a.id) v).1 in
      let first_done : doc.rows marked ≡ doc.rows w ++ record a { status = authorizing } ∷ [] =
        changed-last (set_status authorizing) (id_is a.id) a w v s.rows
          (All-map _ _ (doc.rows w) (λ b l. ground (arith, l)) s.above) (ground arith)
          (works _ _ v) in
      record {
        rows =
            changed-last (set_worker worker_id) (session_is a.session_id)
              (record a { status = authorizing }) w marked first_done
              (All-map _ _ (doc.rows w) (λ b l. ground (arith, l)) s.apart)
              (same?_refl a.session_id) (works _ _ marked);
        above = s.above;
        apart = s.apart;
      }

  assigned-rows :
      (id : String) (r : Result E SessionInfo × W) → doc.rows (assigned rpc id r).1 ≡ doc.rows r.1
  unfolding assigned
  assigned-rows id (ok x, w) = refl
  assigned-rows id (err e, w) = refl

  assign_account-rows :
      (arrive : Order) (session_id phone : String) (m : Manager) (w : W)
      → KeepsAccounts
      → doc.rows (assign_account rpc arrive session_id phone m w).1 ≡ doc.rows w
  unfolding assign_account
  assign_account-rows arrive session_id phone m w keeps =
      elim (Result-cases (least_loaded rpc arrive m w)) [
        | inl (e, none_left) ↦ rw (assign_account, none_left) refl
        | inr (c, picked) ↦
            rw (assign_account, picked)
              (assigned-rows c.id (add_account rpc c session_id phone w)
                ∙ keeps c.conn session_id phone w)
      ]

  moved-Stands : (a : Account) (w v u : W) → doc.rows u ≡ doc.rows v → Stands a w v → Stands a w u
  moved-Stands a w v u same s = record { rows = same ∙ s.rows; above = s.above; apart = s.apart }

  settle-Stands :
      (a b : Account) (r : Result (ManagerError E) String) (w v : W)
      → Updates
      → Stands a w v
      → (settle rpc accounts a (r, v)).0 ≡ json 201 b
      → Stands b w (settle rpc accounts a (r, v)).1
  unfolding settle json error_resp
  settle-Stands a b (err e) w v works s made = absurd (ground arith)
  settle-Stands a b (ok worker_id) w v works s made =
      let same : record a { worker_id = some worker_id; status = authorizing } ≡ b = ground arith in
      rw (sym same) (placed-Stands a worker_id w v works s)

  assign-Stands :
      (arrive : Order) (manager : Option Manager) (a b : Account) (w v : W)
      → KeepsAccounts
      → Updates
      → Stands a w v
      → (assign rpc accounts arrive manager a v).0 ≡ json 201 b
      → Stands b w (assign rpc accounts arrive manager a v).1
  unfolding assign json
  assign-Stands arrive none a b w v keeps works s made =
      let same : a ≡ b = ground arith in rw (sym same) s
  assign-Stands arrive (some m) a b w v keeps works s made =
      let r = assign_account rpc arrive a.session_id a.unique m v in
      settle-Stands a b r.0 w r.1 works
        (moved-Stands a w v r.1 (assign_account-rows arrive a.session_id a.unique m v keeps) s) made

  -- On a tidy table, which no call of a worker touches, where an INSERT returns a row unless it fails
  -- and no UPDATE fails: an account that a POST answers with 201, assigned to a worker or not, is one
  -- new row of the table as answered, its worker and its status included, and a GET of its id then
  -- answers 200 with it, or 500 if PostgreSQL fails.
  pub create-get :
      (phone uuid : String) (arrive : Order) (manager : Option Manager) (a : Account) (w : W)
      → Tidy account_table (doc.rows w)
      → KeepsAccounts
      → Returns
      → Updates
      → (create rpc accounts (some phone) uuid arrive manager w).0 ≡ json 201 a
      → let v = (create rpc accounts (some phone) uuid arrive manager w).1 in
        (doc.rows v ≡ doc.rows w ++ a ∷ []) × Answers a v
  unfolding create added error_resp json
  create-get phone uuid arrive manager a w tidy keeps returns works made =
      let out = accounts.create_row (new_account uuid phone) w in
      elim (Result-cases out.0) [
        | inl (e, failed) ↦ absurd (ground arith)
        | inr (b, stored) ↦
            let (is, s) = add-Stands phone uuid b w returns stored in
            let end : Stands a w (create rpc accounts (some phone) uuid arrive manager w).1 =
              rw (create, added, stored)
                (assign-Stands arrive manager b a w out.1 keeps works s (ground (arith, stored))) in
            (end.rows, Stands-get a w _ tidy end)
      ]

  settle-orphan :
      (a : Account) (e : ManagerError E) (r : Result (ManagerError E) String) (v : W)
      → (settle rpc accounts a (r, v)).0 ≡ error_resp 500 (worker_error e)
      → (settle rpc accounts a (r, v)).1 ≡ v
  unfolding settle json error_resp
  settle-orphan a e (err f) v failed = refl
  settle-orphan a e (ok id) v failed = absurd (ground arith)

  assign-orphan :
      (arrive : Order) (manager : Option Manager) (a : Account) (e : ManagerError E) (w v : W)
      → KeepsAccounts
      → Stands a w v
      → (assign rpc accounts arrive manager a v).0 ≡ error_resp 500 (worker_error e)
      → Stands a w (assign rpc accounts arrive manager a v).1
  unfolding assign json error_resp
  assign-orphan arrive none a e w v keeps s failed = absurd (ground arith)
  assign-orphan arrive (some m) a e w v keeps s failed =
      let r = assign_account rpc arrive a.session_id a.unique m v in
      let there = settle-orphan a e r.0 r.1 failed in
      moved-Stands a w v _
        (ap doc.rows there ∙ assign_account-rows arrive a.session_id a.unique m v keeps) s

  -- On a tidy table, which no call of a worker touches and where an INSERT returns a row unless it
  -- fails: a POST that answers 500 as its assignment fails leaves its account as one new row of the
  -- table, without a worker, and a GET of its id then answers 200 with it, or 500 if PostgreSQL fails.
  pub create-orphan :
      (phone uuid : String) (arrive : Order) (manager : Option Manager) (e : ManagerError E) (w : W)
      → Tidy account_table (doc.rows w)
      → KeepsAccounts
      → Returns
      → (create rpc accounts (some phone) uuid arrive manager w).0 ≡ error_resp 500 (worker_error e)
      → let v = (create rpc accounts (some phone) uuid arrive manager w).1 in
        (a : Account) × (a ≡ record (new_account uuid phone) { id = a.id })
        × (doc.rows v ≡ doc.rows w ++ a ∷ [])
        × Answers a v
  unfolding create added error_resp json
  create-orphan phone uuid arrive manager e w tidy keeps returns made =
      let out = accounts.create_row (new_account uuid phone) w in
      elim (Result-cases out.0) [
        | inl (f, failed) ↦ absurd (ground arith)
        | inr (b, stored) ↦
            let (is, s) = add-Stands phone uuid b w returns stored in
            let end : Stands b w (create rpc accounts (some phone) uuid arrive manager w).1 =
              rw (create, added, stored)
                (assign-orphan arrive manager b e w out.1 keeps s (ground (arith, stored))) in
            (b, is, end.rows, Stands-get b w _ tidy end)
      ]

  -- While an account with a phone is in the table, no POST of this phone answers 201, whatever the
  -- workers answer, where an INSERT returns a row unless it fails.
  pub phone_taken :
      (uuid : String) (arrive : Order) (manager : Option Manager) (a b : Account)
      (pre post : List Account) (w : W)
      → doc.rows w ≡ pre ++ a ∷ post
      → Returns
      → (create rpc accounts (some a.unique) uuid arrive manager w).0 ≢ json 201 b
  unfolding create added error_resp json
  phone_taken uuid arrive manager a b pre post w there returns made =
      let out = accounts.create_row (new_account uuid a.unique) w in
      elim (Result-cases out.0) [
        | inl (e, failed) ↦ ground arith
        | inr (c, stored) ↦
            let (is, s) = add-Stands a.unique uuid c w returns stored in
            let taken_by : All (Free a.unique uuid) (doc.rows w) =
              rw (sym (ap Row.unique is), sym (ap Row.session_id is)) s.apart in
            let free : All (Free a.unique uuid) (pre ++ a ∷ post) = rw (sym there) taken_by in
            let apart = All-middle (Free a.unique uuid) pre post a free in
            ground (arith, apart, ap Row.unique is, same?_refl a.unique)
      ]
