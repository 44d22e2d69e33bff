-- ===== src/Postgres/Rows/Agreement.antt =====
-- The repository in PostgreSQL against the one in memory, on the same rows.
use mathlib.Core.Option
use tgplane.Common.{
  string_key, nat_key, ℕ, String, List, [], ◌∷◌, map, none, some, false, ◌≡◌, refl, Result, ok, err,
  if◌then◌else◌, same?, All-map, arith, Result-cases, Option-cases, Bool-cases, ◌⊎◌, inl, inr,
}
use tgplane.Common.Map.{lookup, modify, lookup-modify, lookup-delete, lookup-Entries}
use tgplane.Session.Model.{Status}
use tgplane.Repository as Memory
use tgplane.Repository.{Row, Repository, RepoError}
use tgplane.Postgres.{Sql, SqlError, Documented, change_where}
use tgplane.Postgres.Tables.{
  Tidy, first, first_dropped, none-first, map_none, select_none, map_same, map_id, each_found,
}
use tgplane.Postgres.Rows.{
  id_is, session_is, Change, set_profile, set_status, set_worker, holds, write, row_table, Method,
  executed, change, update_profile, update_status, update_worker_id, remove, deletes, sets_worker,
  sets_profile, sets_status,
}
use tgplane.Repository.Invariant.{IsValid, Indexed, Leads, session_column}

-- The memory repository holds the rows of a table, by their ids.
unfoldable pub Shows : {D : Type 0} → Repository D → List (Row D) → Type 0
Shows r rows = (n : ℕ) → lookup n r.store ≡ first (λ a. same? a.id n) rows

module _ {D W E F : Type 0} {blank : D} (sql : Sql (row_table D blank) W E)
    (doc : Documented (row_table D blank) sql) (fails : Method → SqlError E → F) where
  -- A write either fails in PostgreSQL and has no effect there; or the memory repository does the same;
  -- or the memory repository has no such row, and PostgreSQL succeeds without an effect.
  abbrev pub Follows : W → Result RepoError (Repository D) → Result F (Unit {0}) × W → Type 0
  Follows w mem (res, v) =
      ((e : F) × (res ≡ err e) × (doc.rows v ≡ doc.rows w))
      ⊎ ((s : Repository D) × (res ≡ ok tt) × (mem ≡ ok s) × Shows s (doc.rows v))
      ⊎ ((res ≡ ok tt) × (mem ≡ err Memory.no_rows) × (doc.rows v ≡ doc.rows w))

  first-change :
      (d : Change D) (id n : ℕ) (rows : List (Row D))
      → first
          (λ (a : Row D). same? a.id n)
          (map (change_where (row_table D blank) d (id_is id)) rows)
        ≡ (if same? id n
            then Option.map (write d) (first (λ (a : Row D). same? a.id n) rows)
            else first (λ (a : Row D). same? a.id n) rows)
  unfolding first
  first-change d id n [] = ground arith
  first-change (set_profile p s) id n (a ∷ rows) =
      ground (arith, first-change (set_profile p s) id n rows)
  first-change (set_status s) id n (a ∷ rows) =
      ground (arith, first-change (set_status s) id n rows)
  first-change (set_worker v) id n (a ∷ rows) =
      ground (arith, first-change (set_worker v) id n rows)

  changed-Follows :
      (method : Method) (d : Change D) (r : Repository D) (w : W) (id : ℕ)
      → Shows r (doc.rows w)
      → Follows w
          (elim (lookup id r.store) [
            | none ↦ err Memory.no_rows
            | some _ ↦ ok (record r { store = modify id (write d) r.store })
          ])
          (change sql fails method d (id_is id) w)
  unfolding Shows change executed
  changed-Follows method d r w id h = elim (Result-cases (sql.update d (id_is id) w).0) [
    | inl (e, failed) ↦
        inl (fails method e, ground arith, doc.update_failed d (id_is id) w e failed)
    | inr (n, answered) ↦
        let after = doc.updated d (id_is id) w n answered in
        elim (Option-cases (lookup id r.store)) [
          | inl missing ↦ inr (
              inr (
                ground arith,
                ground arith,
                rw (after) (
                    map_none (holds (id_is id)) _ (λ a no. ground arith) (doc.rows w)
                      (none-first _ (doc.rows w) (ground (arith, h id)))),
              ))
          | inr (a, held) ↦ inr (
              inl (
                record r { store = modify id (write d) r.store },
                ground arith,
                ground arith,
                λ k.
                    rw
                      (
                        after,
                        lookup-modify id k (write d) r.store,
                        first-change d id k (doc.rows w),
                        h k,
                      )
                      refl,
              ))
        ]
  ]

  dropped-Follows :
      (r : Repository D) (w : W) (id : ℕ)
      → Shows r (doc.rows w)
      → Follows w (Memory.remove id r) (remove sql fails id w)
  unfolding Shows remove executed Memory.remove Memory.drop_row
  dropped-Follows r w id h = elim (Result-cases (sql.delete (id_is id) w).0) [
    | inl (e, failed) ↦
        inl (fails (deletes id) e, ground arith, doc.delete_failed (id_is id) w e failed)
    | inr (n, answered) ↦
        let after = (doc.deleted (id_is id) w n answered).0 in
        elim (Option-cases (lookup id r.store)) [
          | inl missing ↦ inr (
              inr (
                ground arith,
                ground arith,
                rw (after) (
                    select_none (holds (id_is id)) (doc.rows w)
                      (none-first _ (doc.rows w) (ground (arith, h id)))),
              ))
          | inr (a, held) ↦ inr (
              inl (
                Memory.drop_row id a r,
                ground arith,
                ground arith,
                λ k.
                    rw
                      (
                        after,
                        lookup-delete id k r.store,
                        first_dropped (row_table D blank) k id (doc.rows w),
                        h k,
                      )
                      refl,
              ))
        ]
  ]

  module _ (r : Repository D) (w : W) (h : Shows r (doc.rows w)) (v : IsValid r)
      (tidy : Tidy (row_table D blank) (doc.rows w)) where
    -- The row with a session id is the one with the id that the memory repository's index gives.
    session_is_id :
        (a : Row D) (session_id : String) (id : ℕ)
        → lookup session_id r.by_session ≡ some id
        → first (λ b. same? b.id a.id) (doc.rows w) ≡ some a
        → same? a.session_id session_id ≡ same? a.id id
    unfolding Shows
    session_is_id a session_id id indexed found =
        let held : lookup a.id r.store ≡ some a = ground (arith, h a.id) in
        let known = (lookup-Entries (Indexed r) a.id a r.store v.indexed held).session_found in
        let (b, there, here) =
          lookup-Entries (Leads session_column r.store) session_id id r.by_session v.session_leads
            indexed in
        elim (Bool-cases (same? a.session_id session_id)) [
          | inl named ↦ ground (arith, known, indexed)
          | inr other ↦ elim (Bool-cases (same? a.id id)) [
            | inl hit ↦ ground (arith, held, there, here)
            | inr miss ↦ ground arith
          ]
        ]

    session_unknown :
        (a : Row D) (session_id : String)
        → lookup session_id r.by_session ≡ none
        → first (λ b. same? b.id a.id) (doc.rows w) ≡ some a
        → same? a.session_id session_id ≡ false
    unfolding Shows
    session_unknown a session_id unknown found =
        let held : lookup a.id r.store ≡ some a = ground (arith, h a.id) in
        let known = (lookup-Entries (Indexed r) a.id a r.store v.indexed held).session_found in
        ground (arith, known, unknown)

    assigned-Follows :
        (session_id worker_id : String)
        → Follows w
            (Memory.update_worker_id session_id worker_id r)
            (update_worker_id sql fails session_id worker_id w)
    unfolding Shows change executed update_worker_id Memory.update_worker_id
    assigned-Follows session_id worker_id =
        let d : Change D = set_worker worker_id in
        let c = session_is session_id in
        let found = each_found (row_table D blank) (doc.rows w) tidy in
        elim (Result-cases (sql.update d c w).0) [
          | inl (e, failed) ↦
              inl (fails sets_worker e, ground arith, doc.update_failed d c w e failed)
          | inr (n, answered) ↦
              let after = doc.updated d c w n answered in
              elim (Option-cases (lookup session_id r.by_session)) [
                | inl unknown ↦ inr (
                    inr (
                      ground arith,
                      ground arith,
                      rw (after) (
                          map_id _ (doc.rows w) (
                            All-map _ _ (doc.rows w)
                              (λ a at. ground (arith, session_unknown a session_id unknown at))
                              found)),
                    ))
                | inr (id, indexed) ↦
                    let (b, there, here) =
                      lookup-Entries (Leads session_column r.store) session_id id r.by_session
                        v.session_leads indexed in
                    let same =
                      map_same (change_where (row_table D blank) d c)
                        (change_where (row_table D blank) d (id_is id)) (doc.rows w)
                        (All-map _ _ (doc.rows w)
                          (λ a at. ground (arith, session_is_id a session_id id indexed at))
                          found) in
                    inr (
                      inl (
                        record r { store = modify id (write d) r.store },
                        ground arith,
                        ground arith,
                        λ k.
                            rw
                              (
                                after,
                                same,
                                lookup-modify id k (write d) r.store,
                                first-change d id k (doc.rows w),
                                h k,
                              )
                              refl,
                      ))
              ]
        ]

    -- When the memory repository is valid, the table tidy and both hold the same rows, then each of the
    -- four writes to a row either fails in PostgreSQL, and the table is as it was; or both succeed, and
    -- hold the same rows again; or the memory repository reports that the row is missing, where
    -- PostgreSQL succeeds and the table is as it was.
    pub stores_agree :
        ((id : ℕ) (p : D) (s : Status)
          → Follows w (Memory.update_profile id p s r) (update_profile sql fails id p s w))
        × ((id : ℕ) (s : Status)
            → Follows w (Memory.update_status id s r) (update_status sql fails id s w))
        × ((session_id worker_id : String)
            → Follows w
                (Memory.update_worker_id session_id worker_id r)
                (update_worker_id sql fails session_id worker_id w))
        × ((id : ℕ) → Follows w (Memory.remove id r) (remove sql fails id w))
    unfolding Memory.update_profile Memory.update_status update_profile update_status
    stores_agree = (
      λ id p s. changed-Follows (sets_profile id) (set_profile p s) r w id h,
      λ id s. changed-Follows (sets_status id) (set_status s) r w id h,
      λ session_id worker_id. assigned-Follows session_id worker_id,
      λ id. dropped-Follows r w id h,
    )
