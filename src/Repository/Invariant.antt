-- ===== src/Repository/Invariant.antt =====
-- The three maps of a repository agree after any calls.
use tgplane.Common.{
  string_key, nat_key, ℕ, suc, ◌≤◌, String, List, none, some, ◌≡◌, ◌≢◌, refl, inl, inr, same?,
  arith, ap, ◌∙◌, Option-cases, Bool-cases,
}
use tgplane.Common.Map.{
  lookup, insert, delete, modify, Distinct, Entries, insert-Distinct, delete-Distinct,
  modify-Distinct, lookup-insert, lookup-delete, lookup-modify, insert-Entries, modify-Entries,
  lookup-Entries, Entries-map, delete-Entries_map,
}
use tgplane.Repository.{Row, Repository, new_repository, store_row, drop_row}

module _ {D : Type 0} where
  -- An entry of an index leads to a row with that value in the column.
  abbrev pub Leads : (Row D → String) → List (ℕ × Row D) → String → ℕ → Type 0
  Leads column store value id = (a : Row D) × (lookup id store ≡ some a) × (column a ≡ value)

  abbrev pub unique_column : Row D → String
  unique_column a = a.unique

  abbrev pub session_column : Row D → String
  session_column a = a.session_id

  -- A row stands under its id, which has been given out, and both indices lead to it.
  pub record Indexed (r : Repository D) (id : ℕ) (a : Row D) : Type 0 where
    pub keyed : a.id ≡ id
    pub given : id ≤ r.seq
    pub unique_found : lookup a.unique r.by_unique ≡ some id
    pub session_found : lookup a.session_id r.by_session ≡ some id

  pub record IsValid (r : Repository D) : Type 0 where
    pub distinct : Distinct r.store
    pub indexed : Entries (Indexed r) r.store
    pub unique_leads : Entries (Leads unique_column r.store) r.by_unique
    pub session_leads : Entries (Leads session_column r.store) r.by_session

  pub new_repository-IsValid : IsValid (new_repository {D = D})
  unfolding new_repository
  new_repository-IsValid = record {
    distinct = tt;
    indexed = tt;
    unique_leads = tt;
    session_leads = tt;
  }

  -- The id that `create` gives is not in use.
  pub next_id_free : (r : Repository D) → IsValid r → lookup (suc r.seq) r.store ≡ none
  next_id_free r v = elim (Option-cases (lookup (suc r.seq) r.store)) [
    | inl e ↦ e
    | inr (a, e) ↦
        absurd (omega (arith, (lookup-Entries (Indexed r) (suc r.seq) a r.store v.indexed e).given))
  ]

  -- A change of a row that keeps its id and indexed columns keeps the repository valid.
  pub modify-IsValid :
      (r : Repository D) (id : ℕ) (f : Row D → Row D)
      → ((a : Row D)
          → ((f a).id ≡ a.id) × ((f a).unique ≡ a.unique) × ((f a).session_id ≡ a.session_id))
      → IsValid r
      → IsValid (record r { store = modify id f r.store })
  modify-IsValid r id f keeps v = record {
    distinct = modify-Distinct id f r.store v.distinct;
    indexed =
        Entries-map (Indexed r) _ (modify id f r.store)
          (λ j a x. record {
            keyed = x.keyed;
            given = x.given;
            unique_found = x.unique_found;
            session_found = x.session_found;
          })
          (modify-Entries (Indexed r) id f r.store still v.indexed);
    unique_leads =
        Entries-map _ _ r.by_unique (λ k j l. leads unique_column (λ a. (keeps a).1) k j l)
          v.unique_leads;
    session_leads =
        Entries-map _ _ r.by_session (λ k j l. leads session_column (λ a. (keeps a).2) k j l)
          v.session_leads;
  }
    where
      still : (j : ℕ) (a : Row D) → Indexed r j a → Indexed r j (f a)
      still j a x = record {
        keyed = (keeps a).0 ∙ x.keyed;
        given = x.given;
        unique_found = ground (arith, keeps a, x.unique_found);
        session_found = ground (arith, keeps a, x.session_found);
      }

      leads :
          (column : Row D → String)
          → ((a : Row D) → column (f a) ≡ column a)
          → (k : String) (j : ℕ) → Leads column r.store k j
          → Leads column (modify id f r.store) k j
      leads column same k j (a, found, here) = elim (Bool-cases (same? id j)) [
        | inl hit ↦ (f a, ground (arith, lookup-modify id j f r.store), same a ∙ here)
        | inr miss ↦ (a, ground (arith, lookup-modify id j f r.store), here)
      ]

  pub store_row-IsValid :
      (row : Row D) (r : Repository D)
      → IsValid r
      → row.id ≡ suc r.seq
      → lookup row.unique r.by_unique ≡ none
      → lookup row.session_id r.by_session ≡ none
      → IsValid (store_row row r)
  unfolding store_row
  store_row-IsValid row r v next new fresh = record {
    distinct = insert-Distinct row.id row r.store v.distinct;
    indexed =
        insert-Entries _ row.id row r.store
          (record {
            keyed = refl;
            given = omega arith;
            unique_found = ground (arith, lookup-insert row.unique row.unique row.id r.by_unique);
            session_found =
                ground (arith, lookup-insert row.session_id row.session_id row.id r.by_session);
          })
          (Entries-map _ _ r.store still v.indexed);
    unique_leads =
        insert-Entries _ row.unique row.id r.by_unique
          (row, ground (arith, lookup-insert row.id row.id row r.store), refl)
          (Entries-map _ _ r.by_unique (λ k j l. leads unique_column k j l) v.unique_leads);
    session_leads =
        insert-Entries _ row.session_id row.id r.by_session
          (row, ground (arith, lookup-insert row.id row.id row r.store), refl)
          (Entries-map _ _ r.by_session (λ k j l. leads session_column k j l) v.session_leads);
  }
    where
      still : (j : ℕ) (a : Row D) → Indexed r j a → Indexed (store_row row r) j a
      still j a x = record {
        keyed = x.keyed;
        given = omega (arith, x.given);
        unique_found =
            ground (arith, x.unique_found, lookup-insert row.unique a.unique row.id r.by_unique);
        session_found =
            ground (
              arith,
              x.session_found,
              lookup-insert row.session_id a.session_id row.id r.by_session,
            );
      }

      leads :
          (column : Row D → String) (k : String) (j : ℕ)
          → Leads column r.store k j
          → Leads column (insert row.id row r.store) k j
      leads column k j (a, found, here) =
          (a, ground (arith, next_id_free r v, lookup-insert row.id j row r.store), here)

  pub drop_row-IsValid :
      (id : ℕ) (a : Row D) (r : Repository D)
      → IsValid r
      → lookup id r.store ≡ some a
      → IsValid (drop_row id a r)
  unfolding drop_row
  drop_row-IsValid id a r v found = record {
    distinct = delete-Distinct id r.store v.distinct;
    indexed = delete-Entries_map _ _ id r.store still v.indexed;
    unique_leads =
        delete-Entries_map _ _ a.unique r.by_unique (λ k j ne l. leads unique_column k j ne l)
          v.unique_leads;
    session_leads =
        delete-Entries_map _ _ a.session_id r.by_session (λ k j ne l. leads session_column k j ne l)
          v.session_leads;
  }
    where
      mine : Indexed r id a
      mine = lookup-Entries (Indexed r) id a r.store v.indexed found

      still : (j : ℕ) (b : Row D) → j ≢ id → Indexed r j b → Indexed (drop_row id a r) j b
      still j b ne x = record {
        keyed = x.keyed;
        given = x.given;
        unique_found = ground (
          arith,
          x.unique_found,
          mine.unique_found,
          lookup-delete a.unique b.unique r.by_unique,
          ap (λ (k : String). lookup k r.by_unique) {x = a.unique} {y = b.unique},
        );
        session_found = ground (
          arith,
          x.session_found,
          mine.session_found,
          lookup-delete a.session_id b.session_id r.by_session,
        );
      }

      leads :
          (column : Row D → String) (k : String) (j : ℕ)
          → k ≢ column a
          → Leads column r.store k j
          → Leads column (delete id r.store) k j
      leads column k j ne (b, at, here) = (b, ground (arith, lookup-delete id j r.store), here)
