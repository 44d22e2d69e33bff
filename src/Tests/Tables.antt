-- ===== src/Tests/Tables.antt =====
-- A table as a list of rows, with the statements of a database that never fails but on a value that is
-- in use: an instance of what the PostgreSQL repositories take.
use tgplane.Common.{
  string_key, nat_key, ℕ, suc, ◌<◌, ◌≤◌, List, [], ◌∷◌, ◌++◌, Option, none, some, map, Bool, true,
  false, not, ◌≡◌, refl, Result, ok, err, if◌then◌else◌, select, length, take, drop, ltb, All,
  arith, List-cases, Bool-cases, inl, inr,
}
use tgplane.Common.Int.{pos, negsuc}
use tgplane.Postgres.{
  Schema, Sql, SqlError, no_rows, driver, Window, Documented, clashes, all_hold, change_where,
}
use tgplane.Postgres.Tables.{select-middle}

module _ (t : Schema) where
  -- An id above those in use.
  unfoldable pub top : List t.Row → ℕ
  top [] = 0
  top (a ∷ rows) = let rest = top rows in if ltb rest (t.id a) then t.id a else rest

  unfoldable pub in_use : t.Row → List t.Row → Bool
  in_use a [] = false
  in_use a (b ∷ rows) = if clashes (t.unique b) (t.unique a) then true else in_use a rows

  abbrev pub window : Option Window → List t.Row → Result (SqlError ℕ) (List t.Row)
  window none rows = ok rows
  window (some (pos limit, pos offset)) rows = ok (take limit (drop offset rows))
  window (some (pos limit, negsuc offset)) rows = err (driver 2)
  window (some (negsuc limit, offset)) rows = err (driver 2)

  unfoldable pub table_sql : Sql t (List t.Row) ℕ
  unfolding top in_use
  table_sql = record {
    insert = λ n rows.
        let a = t.make (suc (top rows)) n in
        if in_use a rows
        then (err (driver 1), rows)
        else (ok (some (ok (t.shown a))), rows ++ a ∷ []);
    select_one = λ c rows. elim (select (t.holds c) rows) [ [] ↦ err no_rows | a ∷ rest ↦ ok a ];
    select_rows = λ cs order w rows. window w (select (all_hold t cs) rows);
    update = λ d c rows. (ok (length (select (t.holds c) rows)), map (change_where t d c) rows);
    delete =
        λ c rows. (ok (length (select (t.holds c) rows)), select (λ a. not (t.holds c a)) rows);
  }

  pub top_above : (rows : List t.Row) (n : ℕ) → top rows ≤ n → All (λ b. t.id b < suc n) rows
  unfolding top
  top_above [] n h = tt
  top_above (a ∷ rows) n h = ground (arith, top_above rows n)

  pub none_in_use :
      (a : t.Row) (rows : List t.Row)
      → in_use a rows ≡ false
      → All (λ b. clashes (t.unique b) (t.unique a) ≡ false) rows
  unfolding in_use
  none_in_use a [] h = tt
  none_in_use a (b ∷ rows) h = ground (arith, none_in_use a rows)

  unfoldable pub table_documented :
      ((id : ℕ) (n : t.New) → t.id (t.make id n) ≡ id) → Documented t table_sql
  unfolding table_sql
  table_documented named = record {
    rows = λ rows. rows;
    inserted = λ n w r made.
        let a = t.make (suc (top w)) n in
        elim (Bool-cases (in_use a w)) [
          | inl used ↦ absurd (ground arith)
          | inr free ↦ (
            suc (top w),
            ground arith,
            named (suc (top w)) n,
            top_above w (top w) (omega arith),
            none_in_use a w free,
            λ x is. ground arith,
          )
        ];
    insert_nothing = λ n w nothing. ground arith;
    insert_failed = λ n w e failed. ground arith;
    one_selected = λ c w a found. elim (List-cases (select (t.holds c) w)) [
      | inl nothing ↦ absurd (ground (arith, nothing))
      | inr (b, rest, some_row) ↦ select-middle (t.holds c) a w rest (ground (arith, some_row))
    ];
    none_selected = λ c w missing. elim (List-cases (select (t.holds c) w)) [
      | inl nothing ↦ nothing
      | inr (b, rest, some_row) ↦ absurd (ground (arith, some_row))
    ];
    rows_selected = λ cs w xs h. ground arith;
    page_selected = λ cs limit offset w xs h. ground arith;
    updated = λ d c w n h. refl;
    update_failed = λ d c w e h. absurd (ground arith);
    deleted = λ c w n h. (refl, ground arith);
    delete_failed = λ c w e h. absurd (ground arith);
  }
