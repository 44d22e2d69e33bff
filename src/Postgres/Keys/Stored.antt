-- ===== src/Postgres/Keys/Stored.antt =====
-- Which API keys PostgreSQL finds after `Create` and `Delete`.
use tgplane.Common.{
  string_key, nat_key, ℕ, String, List, [], ◌∷◌, ◌++◌, none, some, false, ◌≡◌, ◌≢◌, refl, sym, ok,
  err, map_err-ok, same?, select, select-append, arith, Result-cases, List-cases, inl, inr,
}
use tgplane.Auth.{ApiKey}
use tgplane.Postgres.{Sql, no_rows, driver, Documented, clashes}
use tgplane.Postgres.Tables.{
  Tidy, All-middle, Apart, others-Apart, select-middle, select_others, append-middle,
}
use tgplane.Postgres.Keys.{
  NewKey, id_is, hash_is, key_holds, key_table, key_not_found, sql_failed, created, create,
  get_by_hash, affected, delete_key,
}

module _ {W E : Type 0} (sql : Sql key_table W E) (doc : Documented key_table sql) where
  -- No other row of a tidy table has the hash of a row.
  other_hash :
      (pre post before after : List ApiKey) (a b : ApiKey)
      → Tidy key_table (pre ++ a ∷ post)
      → pre ++ post ≡ before ++ b ∷ after
      → same? b.key_hash a.key_hash ≡ false
  other_hash pre post before after a b h split =
      elim (All-middle (Apart key_table a) before after b
        (rw (sym split) (others-Apart key_table pre post a h))) [
          | inl apart ↦ ground (arith, apart)
          | inr apart ↦ ground (arith, apart)
        ]

  -- A key that `Delete` succeeds for was in the table, with its id, and its hash is found no more.
  pub deleted_key_gone :
      (id : ℕ) (w : W)
      → Tidy key_table (doc.rows w)
      → (delete_key sql id w).0 ≡ ok tt
      → let v = (delete_key sql id w).1 in
        (k : ApiKey) × (pre : List ApiKey) × (post : List ApiKey) × (doc.rows w ≡ pre ++ k ∷ post)
        × (k.id ≡ id)
        × (doc.rows v ≡ pre ++ post)
        × ((b : ApiKey) → get_by_hash sql k.key_hash v ≢ ok b)
  unfolding delete_key affected get_by_hash
  deleted_key_gone id w h gone = elim (Result-cases (sql.delete (id_is id) w).0) [
    | inl (e, failed) ↦ absurd (ground arith)
    | inr (n, answered) ↦
        let (after, count) = doc.deleted (id_is id) w n answered in
        elim (List-cases (select (key_holds (id_is id)) (doc.rows w))) [
          | inl nothing ↦ absurd (ground (arith, count, nothing))
          | inr (k, rest, some_row) ↦
              let (pre, post, split, here) =
                select-middle (key_holds (id_is id)) k (doc.rows w) rest some_row in
              let named : k.id ≡ id = ground (arith, here) in
              let tidy : Tidy key_table (pre ++ k ∷ post) = rw (sym split) h in
              let left : doc.rows (sql.delete (id_is id) w).1 ≡ pre ++ post =
                ground (arith, after, split, select_others key_table pre post k tidy, named) in
              (
                k,
                pre,
                post,
                split,
                named,
                left,
                λ b found.
                    let (before, end, at, same) =
                      doc.one_selected (hash_is k.key_hash) (sql.delete (id_is id) w).1 b
                        (map_err-ok _ _ b found) in
                    ground (
                      arith,
                      other_hash pre post before end k b tidy (ground (arith, left, at)),
                      same,
                    ),
              )
        ]
  ]

  missed :
      (key_hash : String) (w : W)
      → get_by_hash sql key_hash w ≡ err key_not_found
      → select (key_holds (hash_is key_hash)) (doc.rows w) ≡ []
  unfolding get_by_hash
  missed key_hash w h = elim (Result-cases (sql.select_one (hash_is key_hash) w)) [
    | inl (no_rows, none_there) ↦ doc.none_selected (hash_is key_hash) w none_there
    | inl (driver e, failed) ↦ absurd (ground arith)
    | inr (k, found) ↦ absurd (ground arith)
  ]

  inserted_key :
      (n : NewKey) (w : W) (k : ApiKey)
      → (sql.insert n w).0 ≡ ok (some (ok k))
      → let v = (sql.insert n w).1 in
        (k.key_hash ≡ n.key_hash)
        × (doc.rows v ≡ doc.rows w ++ k ∷ [])
        × (get_by_hash sql n.key_hash v ≢ err key_not_found)
        × ((b : ApiKey) → get_by_hash sql n.key_hash v ≡ ok b → b ≡ k)
  unfolding get_by_hash
  inserted_key n w k answered =
      let (id, grown, named, above, apart, shown) = doc.inserted n w (ok k) answered in
      let made : k ≡ key_table.make id n = shown k refl in
      let v = (sql.insert n w).1 in
      let after : doc.rows v ≡ doc.rows w ++ k ∷ [] = ground (arith, grown, made) in
      let hashed : k.key_hash ≡ n.key_hash = ground (arith, made) in
      (
        hashed,
        after,
        λ missing.
            let gone = missed n.key_hash v missing in
            ground (
              arith,
              gone,
              after,
              hashed,
              select-append (key_holds (hash_is n.key_hash)) (doc.rows w) (k ∷ []),
              List-cases (select (key_holds (hash_is n.key_hash)) (doc.rows w)),
            ),
        λ b found.
            let (before, end, at, same) =
              doc.one_selected (hash_is n.key_hash) v b (map_err-ok _ _ b found) in
            elim (append-middle (doc.rows w) before end k b (ground (arith, after, at))) [
              | inl last ↦ last
              | inr (rest, split) ↦ absurd (
                  ground (
                    arith,
                    All-middle
                        (λ (c : ApiKey).
                          clashes (key_table.unique c) (key_table.unique (key_table.make id n))
                          ≡ false)
                        before rest b (rw (sym split) apart),
                    same,
                  ))
            ],
      )

  -- A key that `Create` gives has the hash and stands at the end of the table, where `GetByHash` does
  -- not miss it, and what it finds by this hash is this key.
  pub created_key_found :
      (name key_prefix key_hash : String) (w : W) (k : ApiKey)
      → (create sql name key_prefix key_hash w).0 ≡ ok k
      → let v = (create sql name key_prefix key_hash w).1 in
        (k.key_hash ≡ key_hash)
        × (doc.rows v ≡ doc.rows w ++ k ∷ [])
        × (get_by_hash sql key_hash v ≢ err key_not_found)
        × ((b : ApiKey) → get_by_hash sql key_hash v ≡ ok b → b ≡ k)
  unfolding create created
  created_key_found name key_prefix key_hash w k made =
      let n : NewKey = record { name = name; key_prefix = key_prefix; key_hash = key_hash } in
      elim (Result-cases (sql.insert n w).0) [
        | inl (e, failed) ↦ absurd (ground arith)
        | inr (none, nothing) ↦ absurd (ground arith)
        | inr (some r, returned) ↦
            let scanned : r ≡ ok k = map_err-ok sql_failed r k (ground arith) in
            inserted_key n w k (ground (arith, scanned))
      ]
