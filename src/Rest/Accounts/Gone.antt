-- ===== src/Rest/Accounts/Gone.antt =====
-- What a DELETE of an account leaves in PostgreSQL for the requests after it.
use tgplane.Common.{
  nat_key, string_key, ℕ, String, List, [], ◌∷◌, ◌++◌, some, Bool, true, not, Result, ok, err, ◌∙◌,
  ◌≡◌, ◌⊎◌, refl, inl, inr, same?, select, arith, Result-cases, Bool-cases, sym,
}
use tgplane.Common.Int.{ℤ}
use tgplane.Account.{Account}
use tgplane.Postgres.{Sql, SqlError, no_rows, driver, Documented}
use tgplane.Postgres.Rows.{
  id_is, gets, deletes, StoreError, wrapped, account_error, get_by_id, remove, executed,
}
use tgplane.Postgres.Rows.Store.{new_store, is_sql_no_rows, wraps_no_rows}
use tgplane.Worker.Client.{Rpc}
use tgplane.Rest.{json, error_resp, no_content}
use tgplane.Rest.Accounts.{row_error, remove_failed, shown, get, removed, delete}
use tgplane.Rest.Accounts.Creation.{account_table, accounts}

-- What is selected passes the test.
selected_passes :
    {A : Type 0} (p : A → Bool) (xs pre post : List A) (a : A)
    → select p xs ≡ pre ++ a ∷ post
    → p a ≡ true
selected_passes p [] [] post a h = absurd (ground arith)
selected_passes p [] (y ∷ pre) post a h = absurd (ground arith)
selected_passes p (x ∷ xs) [] post a h = elim (Bool-cases (p x)) [
  | inl kept ↦ ground arith
  | inr dropped ↦ selected_passes p xs [] post a (ground arith)
]
selected_passes p (x ∷ xs) (y ∷ pre) post a h = elim (Bool-cases (p x)) [
  | inl kept ↦ selected_passes p xs pre post a (ground arith)
  | inr dropped ↦ selected_passes p xs (y ∷ pre) post a (ground arith)
]

select_again : {A : Type 0} (p : A → Bool) (xs : List A) → select p (select p xs) ≡ select p xs
select_again p [] = refl
select_again p (x ∷ xs) = ground (arith, select_again p xs)

module _ {W E X : Type 0} (sql : Sql account_table W X) (doc : Documented account_table sql)
    (text : String → ℤ → ℤ → W → Result (StoreError X) (List Account)) (rpc : Rpc W E) where
  delete-done :
      (id : ℕ) (w : W) (n : ℕ)
      → (sql.delete (id_is id) w).0 ≡ ok n
      → (delete rpc (accounts sql doc text rpc) (some id) w).0 ≡ no_content
  unfolding delete removed new_store remove executed no_content
  delete-done id w n answered = rw (delete, removed, answered) refl

  delete-failed :
      (id : ℕ) (w : W) (e : SqlError X)
      → (sql.delete (id_is id) w).0 ≡ err e
      → (delete rpc (accounts sql doc text rpc) (some id) w).0
        ≡ error_resp 500 (remove_failed (wrapped (deletes id) e))
  unfolding delete removed new_store remove executed account_error error_resp
  delete-failed id w e failed = rw (delete, removed, failed) refl

  delete-rows :
      (id : ℕ) (w : W)
      → (delete rpc (accounts sql doc text rpc) (some id) w).0 ≡ no_content
      → doc.rows (delete rpc (accounts sql doc text rpc) (some id) w).1
        ≡ select (λ a. not (same? a.id id)) (doc.rows w)
  unfolding delete removed new_store remove executed no_content error_resp
  delete-rows id w gone = elim (Result-cases (sql.delete (id_is id) w).0) [
    | inl (e, failed) ↦ absurd (ground (arith, failed))
    | inr (n, answered) ↦ rw (delete, removed, answered) (doc.deleted (id_is id) w n answered).0
  ]

  -- A DELETE of an account that answers 204 has removed the rows with this id from the table, if there
  -- were any, and no others. A GET of the id then answers 404, and another DELETE answers 204 again and
  -- leaves the table as it is; where PostgreSQL fails, they answer 500.
  pub delete-get :
      (id : ℕ) (w : W)
      → (delete rpc (accounts sql doc text rpc) (some id) w).0 ≡ no_content
      → let store = accounts sql doc text rpc in
        let v = (delete rpc store (some id) w).1 in
        (doc.rows v ≡ select (λ a. not (same? a.id id)) (doc.rows w))
        × ((get rpc store (some id) v ≡ error_resp 404 (row_error (wrapped (gets id) no_rows)))
            ⊎ ((e : X) × (get rpc store (some id) v
                  ≡ error_resp 500 (row_error (wrapped (gets id) (driver e))))))
        × (((delete rpc store (some id) v).0 ≡ no_content)
              × (doc.rows (delete rpc store (some id) v).1 ≡ doc.rows v)
            ⊎ ((e : SqlError X) × ((delete rpc store (some id) v).0
                  ≡ error_resp 500 (remove_failed (wrapped (deletes id) e)))))
  unfolding get shown new_store get_by_id account_error wraps_no_rows is_sql_no_rows json error_resp
      no_content
  delete-get id w gone =
      let store = accounts sql doc text rpc in
      let v = (delete rpc store (some id) w).1 in
      let left = delete-rows id w gone in
      (
        left,
        elim (Result-cases (sql.select_one (id_is id) v)) [
          | inr (c, found) ↦
              let (pre, post, split, here) = doc.one_selected (id_is id) v c found in
              let other =
                selected_passes (λ (a : Account). not (same? a.id id)) (doc.rows w) pre post c
                  (sym left ∙ split) in
              absurd (ground (arith, other, here))
          | inl (driver e, failed) ↦ inr (e, ground (arith, failed))
          | inl (no_rows, missing) ↦ inl (ground (arith, missing))
        ],
        elim (Result-cases (sql.delete (id_is id) v).0) [
          | inl (e, failed) ↦ inr (e, delete-failed id v e failed)
          | inr (n, answered) ↦
              let again = delete-done id v n answered in
              inl (
                again,
                delete-rows id v again
                    ∙ rw (left) (select_again (λ (a : Account). not (same? a.id id)) (doc.rows w)),
              )
        ],
      )
