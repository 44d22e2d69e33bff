-- ===== src/Postgres/Rows/Validity.antt =====
-- What the accounts and the bots in PostgreSQL keep, and what is found of them.
use tgplane.Common.{
  string_key, nat_key, ℕ, String, List, none, some, ◌≡◌, ok, map_err-ok, same?, select, Bool, true,
  ◌&&◌, take, drop, ◌==◌, Bool-cases, if◌then◌else◌, arith, Result-cases, Option-cases, inl, inr,
}
use tgplane.Common.Int.{pos}
use tgplane.Session.Model.{Status, status_key}
use tgplane.Repository.{Row}
use tgplane.Postgres.{Sql, SqlError, Documented, change_where, all_hold}
use tgplane.Postgres.Tables.{Tidy, append-Tidy, select-Tidy, map-Tidy, select_same}
use tgplane.Postgres.Rows.{
  Condition, id_is, session_is, worker_is, holds, Change, set_profile, set_status, set_worker,
  row_table, ListFilter, Method, conditions, create, list, change, update_profile, update_status,
  update_worker_id, remove,
}

module _ {D : Type 0} (blank : D) where
  write-id :
      (d : Change D) (c : Condition) (a : Row D)
      → (change_where (row_table D blank) d c a).id ≡ a.id
  write-id (set_profile p s) c a = ground arith
  write-id (set_status s) c a = ground arith
  write-id (set_worker v) c a = ground arith

  write-unique :
      (d : Change D) (c : Condition) (a : Row D)
      → (row_table D blank).unique (change_where (row_table D blank) d c a)
        ≡ (row_table D blank).unique a
  write-unique (set_profile p s) c a = ground arith
  write-unique (set_status s) c a = ground arith
  write-unique (set_worker v) c a = ground arith

  -- The row has the status and the worker that a filter asks for.
  abbrev pub wanted : ListFilter → Row D → Bool
  wanted f a =
      elim f.status [ none ↦ true | some s ↦ same? a.status s ]
      && elim f.worker_id [ none ↦ true | some v ↦ holds (worker_is v) a ]

  conditions-wanted :
      (f : ListFilter) (a : Row D) → all_hold (row_table D blank) (conditions f) a ≡ wanted f a
  unfolding conditions
  conditions-wanted f a = elim (Option-cases f.status) [
    | inl any ↦ elim (Option-cases f.worker_id) [
      | inl all ↦ ground (arith, any, all)
      | inr (v, on) ↦ ground (arith, any, on)
    ]
    | inr (s, only) ↦ elim (Option-cases f.worker_id) [
      | inl all ↦ ground (arith, only, all)
      | inr (v, on) ↦ ground (arith, only, on)
    ]
  ]

module _ {D W E F : Type 0} {blank : D} (sql : Sql (row_table D blank) W E)
    (doc : Documented (row_table D blank) sql) (fails : Method → SqlError E → F) where
  abbrev pub TidyIn : W → Type 0
  TidyIn w = Tidy (row_table D blank) (doc.rows w)

  insert-TidyIn : (n : (row_table D blank).New) (w : W) → TidyIn w → TidyIn (sql.insert n w).1
  insert-TidyIn n w h = elim (Result-cases (sql.insert n w).0) [
    | inl (e, failed) ↦ rw (doc.insert_failed n w e failed) h
    | inr (o, answered) ↦ elim (Option-cases o) [
      | inl nothing ↦ rw (doc.insert_nothing n w (ground arith)) h
      | inr (r, returned) ↦
          let (id, grown, named, above, apart, shown) = doc.inserted n w r (ground arith) in
          rw (grown) (append-Tidy (row_table D blank) (doc.rows w) _ h above apart)
    ]
  ]

  change-TidyIn : (d : Change D) (c : Condition) (w : W) → TidyIn w → TidyIn (sql.update d c w).1
  change-TidyIn d c w h = elim (Result-cases (sql.update d c w).0) [
    | inl (e, failed) ↦ rw (doc.update_failed d c w e failed) h
    | inr (n, answered) ↦ rw (doc.updated d c w n answered) (
        map-Tidy (row_table D blank) (change_where (row_table D blank) d c) (write-id blank d c)
          (write-unique blank d c) (doc.rows w) h)
  ]

  delete-TidyIn : (c : Condition) (w : W) → TidyIn w → TidyIn (sql.delete c w).1
  delete-TidyIn c w h = elim (Result-cases (sql.delete c w).0) [
    | inl (e, failed) ↦ rw (doc.delete_failed c w e failed) h
    | inr (n, answered) ↦
        rw ((doc.deleted c w n answered).0) (select-Tidy (row_table D blank) _ (doc.rows w) h)
  ]

  -- Every method that writes, whatever it answers, keeps the ids of the table ascending and the
  -- unique value and the session id of each row apart from those of the others.
  pub writes-TidyIn :
      (w : W)
      → TidyIn w
      → ((a : Row D) → TidyIn (create sql fails a w).1)
        × ((id : ℕ) (p : D) (s : Status) → TidyIn (update_profile sql fails id p s w).1)
        × ((id : ℕ) (s : Status) → TidyIn (update_status sql fails id s w).1)
        × ((session_id worker_id : String)
            → TidyIn (update_worker_id sql fails session_id worker_id w).1)
        × ((id : ℕ) → TidyIn (remove sql fails id w).1)
  unfolding create update_profile update_status update_worker_id remove change
  writes-TidyIn w h = (
    λ a. insert-TidyIn _ w h,
    λ id p s. change-TidyIn (set_profile p s) (id_is id) w h,
    λ id s. change-TidyIn (set_status s) (id_is id) w h,
    λ session_id worker_id. change-TidyIn (set_worker worker_id) (session_is session_id) w h,
    λ id. delete-TidyIn (id_is id) w h,
  )

  -- When `List` succeeds for an offset that is not negative, it gives those of the rows with the status
  -- and the worker that the filter asks for, in the order of their ids, that stand between the offset
  -- and the limit, which is 50 when the filter's limit is 0.
  pub list_lem :
      (f : ListFilter) (limit offset : ℕ) (w : W) (rows : List (Row D))
      → f.limit ≡ pos limit
      → f.offset ≡ pos offset
      → list sql fails f w ≡ ok rows
      → rows
        ≡ take
            (if limit == 0 then 50 else limit)
            (drop offset (select (wanted blank f) (doc.rows w)))
  unfolding list
  list_lem f limit offset w rows limits starts listed =
      let cs = conditions f in
      let found = map_err-ok _ _ rows listed in
      let same =
        select_same (all_hold (row_table D blank) cs) (wanted blank f) (conditions-wanted blank f)
          (doc.rows w) in
      elim (Bool-cases (limit == 0)) [
        | inr given ↦
            rw (given, ← same)
              (doc.page_selected cs limit offset w rows (ground (arith, found, given)))
        | inl absent ↦
            rw (absent, ← same)
              (doc.page_selected cs 50 offset w rows (ground (arith, found, absent)))
      ]
