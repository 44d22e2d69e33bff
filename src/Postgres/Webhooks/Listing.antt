-- ===== src/Postgres/Webhooks/Listing.antt =====
-- What `List` gives of the webhooks in PostgreSQL after `Create` and `Delete`.
use tgplane.Common.{
  nat_key, ℕ, String, List, [], ◌∷◌, ◌++◌, Option, none, some, not, map, ◌≡◌, refl, Result, ok, err,
  map_err-ok, same?, select, arith, Result-cases, inl, inr,
}
use tgplane.Webhook.{Webhook}
use tgplane.Postgres.{Sql, SqlError, Documented}
use tgplane.Postgres.Webhooks.{
  NewWebhook, hook_table, Cursor, sql_failed, scan_all, created, affected, create, list,
  delete_webhook,
}

-- Only a list whose every row is scanned, without an error at the end, is given.
scan_all-ok :
    {E : Type 0} (scans : List (Result (SqlError E) Webhook)) (end : Option (SqlError E))
    (hs : List Webhook)
    → scan_all scans end ≡ ok hs
    → (scans ≡ map (λ (h : Webhook). ok h) hs) × (end ≡ none)
unfolding scan_all
scan_all-ok [] none hs h = (ground arith, refl)
scan_all-ok [] (some e) hs h = absurd (ground arith)
scan_all-ok (err e ∷ scans) end hs h = absurd (ground arith)
scan_all-ok (ok x ∷ scans) end hs h = elim (Result-cases (scan_all scans end)) [
  | inl (e, fails) ↦ absurd (ground (arith, fails))
  | inr (rest, scanned) ↦
      let (same, clean) = scan_all-ok scans end rest scanned in
      (ground (arith, same, scanned), clean)
]

module _ {W E : Type 0} (sql : Sql hook_table W E) (doc : Documented hook_table sql)
    (query : W → Result (SqlError E) (Cursor E))
    (selected : (w : W) (hs : List Webhook)
      → query w ≡ ok (map (λ (h : Webhook). ok h) hs, none)
      → hs ≡ doc.rows w) where
  list-rows : (w : W) (hs : List Webhook) → list sql query w ≡ ok hs → hs ≡ doc.rows w
  unfolding list
  list-rows w hs listed = elim (Result-cases (query w)) [
    | inl (e, failed) ↦ absurd (ground arith)
    | inr (c, answered) ↦
        let (same, clean) = scan_all-ok c.0 c.1 hs (ground arith) in
        selected w hs (ground (arith, same, clean))
  ]

  -- When a cursor that ends without an error has gone over the table: a list that is given after
  -- `Create` has succeeded is the table as it was, followed by the new webhook; and one that is given
  -- after `Delete` has succeeded is the table as it was without the rows of the id.
  pub webhook_lists :
      (w : W) (hs : List Webhook)
      → ((url secret : String) (events : List String) (h : Webhook)
          → (create sql url secret events w).0 ≡ ok h
          → list sql query (create sql url secret events w).1 ≡ ok hs
          → hs ≡ doc.rows w ++ h ∷ [])
        × ((id : ℕ)
            → (delete_webhook sql id w).0 ≡ ok tt
            → list sql query (delete_webhook sql id w).1 ≡ ok hs
            → hs ≡ select (λ (h : Webhook). not (same? h.id id)) (doc.rows w))
  unfolding create created delete_webhook affected
  webhook_lists w hs = (
    λ url secret events h made listed.
        let n : NewWebhook = record { url = url; secret = secret; events = events } in
        let all = list-rows _ hs listed in
        elim (Result-cases (sql.insert n w).0) [
          | inl (e, failed) ↦ absurd (ground arith)
          | inr (none, nothing) ↦ absurd (ground arith)
          | inr (some r, returned) ↦
              let (id, grown, named, above, apart, shown) = doc.inserted n w r returned in
              ground (arith, all, grown, shown h (map_err-ok sql_failed r h (ground arith)))
        ],
    λ id gone listed.
        let all = list-rows _ hs listed in
        elim (Result-cases (sql.delete id w).0) [
          | inl (e, failed) ↦ absurd (ground arith)
          | inr (n, answered) ↦ ground (arith, all, (doc.deleted id w n answered).0)
        ],
  )
