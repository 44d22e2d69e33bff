-- ===== src/Postgres.antt =====
-- The SQL that the PostgreSQL repositories send. PostgreSQL, its driver and sqlx are not in this
-- repository: `Sql` has a field for each form of statement, and `Documented` what their
-- documentation says of them, for a table of migrations/.
pub mod Tables
pub mod Rows
pub mod Bots
pub mod Keys
pub mod Webhooks
pub mod Workers
use tgplane.Common.{
  string_key, ℕ, ◌+◌, ◌<◌, String, List, [], ◌∷◌, ◌++◌, Option, none, some, map, Bool, true, false,
  ◌||◌, not, ◌≡◌, Result, ok, err, if◌then◌else◌, same?, select, length, take, drop, All,
}
use tgplane.Common.Int.{ℤ, pos}

-- A table: what an INSERT gives, a WHERE clause, a SET clause, and what RETURNING shows.
pub record Schema : Type 1 where
  pub Row : Type 0
  pub New : Type 0
  pub Condition : Type 0
  pub Change : Type 0
  pub Shown : Type 0
  pub id : Row → ℕ
  pub make : ℕ → New → Row
  pub holds : Condition → Row → Bool
  pub write : Change → Row → Row
  pub shown : Row → Shown
  -- The columns that are UNIQUE.
  pub unique : Row → List String

-- `sql.ErrNoRows`, or an error of the driver.
pub data SqlError (E : Type 0) : Type 0 where
  no_rows : SqlError E
  driver : E → SqlError E

-- LIMIT and OFFSET.
abbrev pub Window : Type 0
Window = ℤ × ℤ

-- The end of a selection of many rows: whether it has ORDER BY id.
pub data OrderBy : Type 0 where
  unordered by_id : OrderBy

-- A world `W` holds the database.
pub record Sql (t : Schema) (W E : Type 0) : Type 0 where
  -- INSERT with RETURNING: an error, no row, or a row, whose scan may fail.
  pub insert : t.New → W → Result (SqlError E) (Option (Result (SqlError E) t.Shown)) × W
  pub select_one : t.Condition → W → Result (SqlError E) t.Row
  pub select_rows :
      List t.Condition → OrderBy → Option Window → W → Result (SqlError E) (List t.Row)
  -- The number of the rows affected.
  pub update : t.Change → t.Condition → W → Result (SqlError E) ℕ × W
  pub delete : t.Condition → W → Result (SqlError E) ℕ × W

-- Two rows agree on a unique column.
abbrev pub clashes : List String → List String → Bool
clashes [] ys = false
clashes (x ∷ xs) [] = false
clashes (x ∷ xs) (y ∷ ys) = same? x y || clashes xs ys

module _ (t : Schema) where
  -- The conditions of a WHERE clause, joined by AND.
  abbrev pub all_hold : List t.Condition → t.Row → Bool
  all_hold [] a = true
  all_hold (c ∷ cs) a = if t.holds c a then all_hold cs a else false

  abbrev pub change_where : t.Change → t.Condition → t.Row → t.Row
  change_where d c a = if t.holds c a then t.write d a else a

-- `rows` is the table, in the order of the ids.
pub record Documented (t : Schema) {W E : Type 0} (s : Sql t W E) : Type 0 where
  pub rows : W → List t.Row
  -- A sequence gives an id above those in use, and a unique column refuses a value in use.
  pub inserted :
      (n : t.New) (w : W) (r : Result (SqlError E) t.Shown)
      → (s.insert n w).0 ≡ ok (some r)
      → (id : ℕ) × (rows (s.insert n w).1 ≡ rows w ++ t.make id n ∷ [])
        × (t.id (t.make id n) ≡ id)
        × All (λ b. t.id b < id) (rows w)
        × All (λ b. clashes (t.unique b) (t.unique (t.make id n)) ≡ false) (rows w)
        × ((x : t.Shown) → r ≡ ok x → x ≡ t.shown (t.make id n))
  pub insert_nothing :
      (n : t.New) (w : W) → (s.insert n w).0 ≡ ok none → rows (s.insert n w).1 ≡ rows w
  pub insert_failed :
      (n : t.New) (w : W) (e : SqlError E)
      → (s.insert n w).0 ≡ err e
      → rows (s.insert n w).1 ≡ rows w
  pub one_selected :
      (c : t.Condition) (w : W) (a : t.Row)
      → s.select_one c w ≡ ok a
      → (pre : List t.Row) × (post : List t.Row) × (rows w ≡ pre ++ a ∷ post) × (t.holds c a ≡ true)
  pub none_selected :
      (c : t.Condition) (w : W) → s.select_one c w ≡ err no_rows → select (t.holds c) (rows w) ≡ []
  pub rows_selected :
      (cs : List t.Condition) (w : W) (xs : List t.Row)
      → s.select_rows cs by_id none w ≡ ok xs
      → xs ≡ select (all_hold t cs) (rows w)
  pub page_selected :
      (cs : List t.Condition) (limit offset : ℕ) (w : W) (xs : List t.Row)
      → s.select_rows cs by_id (some (pos limit, pos offset)) w ≡ ok xs
      → xs ≡ take limit (drop offset (select (all_hold t cs) (rows w)))
  pub updated :
      (d : t.Change) (c : t.Condition) (w : W) (n : ℕ)
      → (s.update d c w).0 ≡ ok n
      → rows (s.update d c w).1 ≡ map (change_where t d c) (rows w)
  pub update_failed :
      (d : t.Change) (c : t.Condition) (w : W) (e : SqlError E)
      → (s.update d c w).0 ≡ err e
      → rows (s.update d c w).1 ≡ rows w
  pub deleted :
      (c : t.Condition) (w : W) (n : ℕ)
      → (s.delete c w).0 ≡ ok n
      → (rows (s.delete c w).1 ≡ select (λ a. not (t.holds c a)) (rows w))
        × (n ≡ length (select (t.holds c) (rows w)))
  pub delete_failed :
      (c : t.Condition) (w : W) (e : SqlError E)
      → (s.delete c w).0 ≡ err e
      → rows (s.delete c w).1 ≡ rows w
