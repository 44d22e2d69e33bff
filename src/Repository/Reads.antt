-- ===== src/Repository/Reads.antt =====
-- What the reading methods of a repository return after the writing ones.
use tgplane.Common.{
  string_key, nat_key, ℕ, zero, suc, take, select, leb, ◌-◌, ◌+◌, ◌%◌, ◌^◌, ◌<◌, String, List, [],
  ◌∷◌, Option, none, some, ◌≡◌, ◌≢◌, refl, ◌⊎◌, inl, inr, ok, err, arith, ap, Option-cases,
  Bool-cases,
}
use tgplane.Common.Int.{ℤ, pos, negsuc}
use tgplane.Common.Map.{
  lookup, modify, values, lookup-insert, lookup-delete, lookup-modify, lookup-Entries,
}
use tgplane.Session.Model.{Status, status_key}
use tgplane.Repository.{
  Row, Repository, already_exists, no_rows, nil_pointer, create, store_row, drop_row, get_by_id,
  get_by_session_id, update_worker_id, remove, list, scan, passes, default_limit, ListFilter,
}
use tgplane.Repository.Invariant.{IsValid, Leads, session_column, next_id_free}

module _ {D : Type 0} where
  -- In a valid repository with ids left: either the unique value is taken, and `Create` fails; or it
  -- gives the row a new id, under which and under whose session id the row is then found, and every
  -- other id leads to what it led to before.
  pub create_lem :
      (a : Row D) (r : Repository D)
      → IsValid r
      → r.seq + 1 < 2 ^ 64
      → ((id : ℕ) × (lookup a.unique r.by_unique ≡ some id)
          × (create a r ≡ err (already_exists a.unique)))
        ⊎ ((row : Row D) × (s : Repository D) × (create a r ≡ ok (row, s))
            × (row ≡ record a { id = suc r.seq })
            × (get_by_id row.id r ≡ err no_rows)
            × (get_by_id row.id s ≡ ok row)
            × (get_by_session_id a.session_id s ≡ ok row)
            × ((id : ℕ) → id ≢ row.id → get_by_id id s ≡ get_by_id id r))
  unfolding create store_row get_by_id get_by_session_id
  create_lem a r v small = elim (Option-cases (lookup a.unique r.by_unique)) [
    | inr (id, taken) ↦ inl (id, taken, rw (taken, create))
    | inl new ↦
        let n : (r.seq + 1) % 2 ^ 64 ≡ suc r.seq = omega arith in
        let row : Row D = record a { id = suc r.seq } in
        inr (
          row,
          store_row row r,
          rw (new, create, n),
          refl,
          rw (next_id_free r v, get_by_id),
          ground (arith, lookup-insert row.id row.id row r.store),
          ground (
            arith,
            lookup-insert row.id row.id row r.store,
            lookup-insert row.session_id row.session_id row.id r.by_session,
          ),
          λ id ne. ground (arith, lookup-insert row.id id row r.store),
        )
  ]

  -- In a valid repository no read or write through the session index panics, and a row found through
  -- it has that session id.
  pub session_index_safe :
      (session_id worker_id : String) (r : Repository D)
      → IsValid r
      → (get_by_session_id session_id r ≢ err nil_pointer)
        × (update_worker_id session_id worker_id r ≢ err nil_pointer)
        × ((a : Row D) → get_by_session_id session_id r ≡ ok a → a.session_id ≡ session_id)
  unfolding get_by_session_id update_worker_id
  session_index_safe session_id worker_id r v =
      elim (Option-cases (lookup session_id r.by_session)) [
        | inl missing ↦ (λ h. ground arith, λ h. ground arith, λ a h. ground arith)
        | inr (id, found) ↦
            let (b, there, here) =
              lookup-Entries (Leads session_column r.store) session_id id r.by_session
                v.session_leads found in
            (λ h. ground arith, λ h. ground arith, λ a h. ground arith)
      ]

  -- A row assigned to a worker is found again, by its session id, with that worker and nothing else
  -- changed.
  pub update_worker_id-get :
      (session_id worker_id : String) (a : Row D) (r : Repository D)
      → get_by_session_id session_id r ≡ ok a
      → (s : Repository D) × (update_worker_id session_id worker_id r ≡ ok s)
        × (get_by_session_id session_id s ≡ ok (record a { worker_id = some worker_id }))
  unfolding get_by_session_id update_worker_id
  update_worker_id-get session_id worker_id a r h =
      elim (Option-cases (lookup session_id r.by_session)) [
        | inl missing ↦ absurd (ground arith)
        | inr (id, found) ↦ elim (Option-cases (lookup id r.store)) [
          | inl gone ↦ absurd (ground arith)
          | inr (b, there) ↦
              let assign : Row D → Row D = λ x. record x { worker_id = some worker_id } in
              (
                record r { store = modify id assign r.store },
                ground arith,
                ground (arith, lookup-modify id id assign r.store),
              )
        ]
      ]

  -- A `Delete` that succeeds in a valid repository has found a row under that id: its unique value is
  -- free again, it is not found any more under its id or its session id, and every other id leads to
  -- what it led to before.
  pub remove-get_by_id :
      (id : ℕ) (r s : Repository D)
      → IsValid r
      → remove id r ≡ ok s
      → (a : Row D) × (get_by_id id r ≡ ok a)
        × (lookup a.unique s.by_unique ≡ none)
        × (get_by_id id s ≡ err no_rows)
        × (get_by_session_id a.session_id s ≡ err no_rows)
        × ((j : ℕ) → j ≢ id → get_by_id j s ≡ get_by_id j r)
  unfolding remove drop_row get_by_id get_by_session_id
  remove-get_by_id id r s v h = elim (Option-cases (lookup id r.store)) [
    | inl missing ↦ absurd (ground arith)
    | inr (a, found) ↦ (
      a,
      ground arith,
      ground (arith, lookup-delete a.unique a.unique r.by_unique),
      ground (arith, lookup-delete id id r.store),
      ground (arith, lookup-delete a.session_id a.session_id r.by_session),
      λ j ne. ground (arith, lookup-delete id j r.store),
    )
  ]

  scan-take :
      (status : Option Status) (k n : ℕ) (rows : List (Row D))
      → n < k
      → scan status (pos k) n rows ≡ take (k - n) (select (passes status) rows)
  unfolding scan
  scan-take status k n [] l = let e : k - n ≡ suc (k - suc n) = omega arith in rw e refl
  scan-take status k n (a ∷ rows) l =
      let e : k - n ≡ suc (k - suc n) = omega arith in
      elim (Bool-cases (passes status a)) [
        | inr no_match ↦ ground (arith, scan-take status k n rows)
        | inl match ↦ elim (Bool-cases (leb k (suc n))) [
          | inl full ↦ let z : k - suc n ≡ 0 = ground arith in rw (scan, match, full, e, z, select)
          | inr more ↦
              rw (scan, match, more, e, select)
                (ap (◌∷◌ a) (scan-take status k (suc n) rows (ground arith)))
        ]
      ]

  -- A negative limit stops after one row.
  scan_negative :
      (status : Option Status) (k n : ℕ) (rows : List (Row D))
      → scan status (negsuc k) n rows ≡ take 1 (select (passes status) rows)
  unfolding scan
  scan_negative status k n [] = refl
  scan_negative status k n (a ∷ rows) = ground (arith, scan_negative status k n rows)

-- The most rows that a limit lets through.
abbrev pub most : ℤ → ℕ
most (pos zero) = 50
most (pos (suc n)) = suc n
most (negsuc n) = 1

-- `List` returns the first rows of the asked status, in the order of the map, as many as the limit
-- says: 50 if it is 0, and 1 if it is negative.
pub list-take :
    {D : Type 0} (f : ListFilter) (r : Repository D)
    → list f r ≡ take (most f.limit) (select (passes f.status) (values r.store))
unfolding list
list-take f r = by_limit f.limit
  where
    by_limit :
        (l : ℤ)
        → scan f.status (default_limit l) 0 (values r.store)
          ≡ take (most l) (select (passes f.status) (values r.store))
    by_limit (pos zero) = scan-take f.status 50 0 (values r.store) (omega arith)
    by_limit (pos (suc n)) =
        let z : suc n - 0 ≡ suc n = omega arith in
        let d : default_limit (pos (suc n)) ≡ pos (suc n) = ground arith in
        ground (arith, z, d, scan-take f.status (suc n) 0 (values r.store) (omega arith))
    by_limit (negsuc n) = scan_negative f.status n 0 (values r.store)
