-- ===== src/Postgres/Tables.antt =====
-- Tables as lists of rows: what each form of statement keeps.
use mathlib.Core.Option
use tgplane.Common.{
  string_key, nat_key, ℕ, zero, suc, ◌+◌, ◌<◌, List, [], ◌∷◌, ◌++◌, map, Bool, true, false, not,
  Option, none, some, ◌≡◌, refl, ap, sym, select, length, length-append, take, drop, All,
  All-append, All-select, All-map, arith, same?, Bool-cases, ◌⊎◌, inl, inr, if◌then◌else◌,
}
use tgplane.Postgres.{Schema, clashes}

module _ {ℓ} {A : Type ℓ} where
  take_nil : (n : ℕ) → take {A = A} n [] ≡ []
  take_nil zero = refl
  take_nil (suc n) = refl

  drop_nil : (n : ℕ) → drop {A = A} n [] ≡ []
  drop_nil zero = refl
  drop_nil (suc n) = refl

  take_more : (a b : ℕ) (xs : List A) → take (a + b) xs ≡ take a xs ++ take b (drop a xs)
  take_more zero b xs = ground arith
  take_more (suc a) b [] = rw (take_nil (suc a + b), take_nil b) refl
  take_more (suc a) b (x ∷ xs) =
      let e : suc a + b ≡ suc (a + b) = omega arith in rw (e) (ap (◌∷◌ x) (take_more a b xs))

  drop_more : (o a : ℕ) (xs : List A) → drop a (drop o xs) ≡ drop (o + a) xs
  drop_more zero a xs = ground arith
  drop_more (suc o) a [] = rw (drop_nil a, drop_nil (suc o + a)) refl
  drop_more (suc o) a (x ∷ xs) =
      let e : suc o + a ≡ suc (o + a) = omega arith in rw (e) (drop_more o a xs)

  -- Two consecutive windows of a list.
  pub take-drop :
      (a b o : ℕ) (xs : List A)
      → take (a + b) (drop o xs) ≡ take a (drop o xs) ++ take b (drop (o + a) xs)
  take-drop a b o xs = ground (arith, take_more a b (drop o xs), drop_more o a xs)

  pub All-middle {κ} : (P : A → Type κ) (pre post : List A) (a : A) → All P (pre ++ a ∷ post) → P a
  All-middle P [] post a h = h.0
  All-middle P (x ∷ pre) post a h = All-middle P pre post a h.1

  -- The first element that passes.
  unfoldable pub first : (A → Bool) → List A → Option A
  first p [] = none
  first p (x ∷ xs) = if p x then some x else first p xs

  -- A change that does not touch what the test reads.
  pub first-map :
      (p : A → Bool) (f : A → A)
      → ((x : A) → p (f x) ≡ p x)
      → (xs : List A) → first p (map f xs) ≡ Option.map f (first p xs)
  unfolding first
  first-map p f same [] = refl
  first-map p f same (x ∷ xs) = ground (arith, same x, first-map p f same xs)

  pub first-none : (p : A → Bool) (xs : List A) → select p xs ≡ [] → first p xs ≡ none
  unfolding first
  first-none p [] h = refl
  first-none p (x ∷ xs) h = ground (arith, first-none p xs)

  pub none-first : (p : A → Bool) (xs : List A) → first p xs ≡ none → select p xs ≡ []
  unfolding first
  none-first p [] h = refl
  none-first p (x ∷ xs) h = ground (arith, none-first p xs)

  pub map_none :
      (p : A → Bool) (f : A → A)
      → ((x : A) → p x ≡ false → f x ≡ x)
      → (xs : List A) → select p xs ≡ []
      → map f xs ≡ xs
  map_none p f same [] h = refl
  map_none p f same (x ∷ xs) h = ground (arith, same x, map_none p f same xs)

  pub select_none :
      (p : A → Bool) (xs : List A) → select p xs ≡ [] → select (λ x. not (p x)) xs ≡ xs
  select_none p [] h = refl
  select_none p (x ∷ xs) h = ground (arith, select_none p xs)

  -- What stands in a list with one element more is this element or stood there before.
  pub append-middle :
      (xs pre post : List A) (a x : A)
      → xs ++ a ∷ [] ≡ pre ++ x ∷ post
      → (x ≡ a) ⊎ ((rest : List A) × (xs ≡ pre ++ x ∷ rest))
  append-middle [] [] post a x h = inl (ground arith)
  append-middle [] (y ∷ pre) post a x h =
      absurd (omega (arith, ap length h, length-append pre (x ∷ post)))
  append-middle (z ∷ xs) [] post a x h = inr (xs, ground arith)
  append-middle (z ∷ xs) (y ∷ pre) post a x h =
      elim (append-middle xs pre post a x (ground arith)) [
        | inl last ↦ inl last
        | inr (rest, split) ↦ inr (rest, ground (arith, split))
      ]

  -- A selected row stands in the table.
  pub select-middle :
      (p : A → Bool) (x : A) (xs rest : List A)
      → select p xs ≡ x ∷ rest
      → (pre : List A) × (post : List A) × (xs ≡ pre ++ x ∷ post) × (p x ≡ true)
  select-middle p x [] rest h = absurd (ground arith)
  select-middle p x (y ∷ xs) rest h = elim (Bool-cases (p y)) [
    | inl kept ↦ ([], xs, ground arith, ground arith)
    | inr dropped ↦
        let (pre, post, split, passes) = select-middle p x xs rest (ground arith) in
        (y ∷ pre, post, ground (arith, split), passes)
  ]

  pub select_same :
      (p q : A → Bool) → ((x : A) → p x ≡ q x) → (xs : List A) → select p xs ≡ select q xs
  select_same p q h [] = refl
  select_same p q h (x ∷ xs) = ground (arith, h x, select_same p q h xs)

  pub map_same : (f g : A → A) (xs : List A) → All (λ x. f x ≡ g x) xs → map f xs ≡ map g xs
  map_same f g [] h = refl
  map_same f g (x ∷ xs) h = ground (arith, h.0, map_same f g xs h.1)

  pub map_id : (f : A → A) (xs : List A) → All (λ x. f x ≡ x) xs → map f xs ≡ xs
  map_id f [] h = refl
  map_id f (x ∷ xs) h = ground (arith, h.0, map_id f xs h.1)

module _ (t : Schema) where
  -- The ids ascend, and no unique column has a value twice.
  abbrev pub Before : t.Row → t.Row → Type 0
  Before a b = (t.id a < t.id b) × (clashes (t.unique a) (t.unique b) ≡ false)

  abbrev pub Tidy : List t.Row → Type 0
  Tidy [] = Unit
  Tidy (a ∷ rest) = All (Before a) rest × Tidy rest

  pub append-Tidy :
      (rows : List t.Row) (a : t.Row)
      → Tidy rows
      → All (λ b. t.id b < t.id a) rows
      → All (λ b. clashes (t.unique b) (t.unique a) ≡ false) rows
      → Tidy (rows ++ a ∷ [])
  append-Tidy [] a h lower apart = (tt, tt)
  append-Tidy (b ∷ rows) a h lower apart = (
    All-append _ rows (a ∷ []) h.0 ((lower.0, apart.0), tt),
    append-Tidy rows a h.1 lower.1 apart.1,
  )

  pub select-Tidy : (p : t.Row → Bool) (rows : List t.Row) → Tidy rows → Tidy (select p rows)
  select-Tidy p [] h = tt
  select-Tidy p (a ∷ rows) h =
      ground (arith, All-select (Before a) p rows h.0, select-Tidy p rows h.1)

  module _ (f : t.Row → t.Row) (same_id : (a : t.Row) → t.id (f a) ≡ t.id a)
      (same_unique : (a : t.Row) → t.unique (f a) ≡ t.unique a) where
    map-Before :
        (a : t.Row) (rows : List t.Row) → All (Before a) rows → All (Before (f a)) (map f rows)
    map-Before a [] h = tt
    map-Before a (b ∷ rows) h = (
      (rw (same_id a, same_id b) h.0.0, rw (same_unique a, same_unique b) h.0.1),
      map-Before a rows h.1,
    )

    pub map-Tidy : (rows : List t.Row) → Tidy rows → Tidy (map f rows)
    map-Tidy [] h = tt
    map-Tidy (a ∷ rows) h = (map-Before a rows h.0, map-Tidy rows h.1)

  pub first_by_id :
      (pre post : List t.Row) (a : t.Row)
      → Tidy (pre ++ a ∷ post)
      → first (λ b. same? (t.id b) (t.id a)) (pre ++ a ∷ post) ≡ some a
  unfolding first
  first_by_id [] post a h = ground arith
  first_by_id (b ∷ pre) post a h =
      ground (arith, (All-middle (Before b) pre post a h.0).0, first_by_id pre post a h.1)

  -- What a tidy table finds by an id that a row of it has.
  pub found_there :
      (rows pre post : List t.Row) (a b : t.Row)
      → Tidy rows
      → rows ≡ pre ++ a ∷ post
      → first (λ c. same? (t.id c) (t.id b)) rows ≡ some b
      → t.id a ≡ t.id b
      → a ≡ b
  found_there rows pre post a b h split found same =
      let now : first (λ c. same? (t.id c) (t.id a)) (pre ++ a ∷ post) ≡ some a =
        first_by_id pre post a (rw (sym split) h) in
      let there : first (λ c. same? (t.id c) (t.id b)) (pre ++ a ∷ post) ≡ some a =
        rw (sym same) now in
      let seen : first (λ c. same? (t.id c) (t.id b)) (pre ++ a ∷ post) ≡ some b =
        rw (sym split) found in
      ground (arith, there, seen)

  first_in_rest :
      (x : t.Row) (rows xs : List t.Row)
      → All (Before x) xs
      → All (λ a. first (λ b. same? (t.id b) (t.id a)) rows ≡ some a) xs
      → All (λ a. first (λ b. same? (t.id b) (t.id a)) (x ∷ rows) ≡ some a) xs
  unfolding first
  first_in_rest x rows [] h k = tt
  first_in_rest x rows (a ∷ xs) h k = (ground (arith, h.0.0, k.0), first_in_rest x rows xs h.1 k.1)

  -- Every row of a tidy table is found by its id.
  pub each_found :
      (rows : List t.Row)
      → Tidy rows
      → All (λ a. first (λ b. same? (t.id b) (t.id a)) rows ≡ some a) rows
  unfolding first
  each_found [] h = tt
  each_found (x ∷ rows) h = (ground arith, first_in_rest x rows rows h.0 (each_found rows h.1))

  pub first_dropped :
      (n id : ℕ) (rows : List t.Row)
      → first (λ b. same? (t.id b) n) (select (λ a. not (same? (t.id a) id)) rows)
        ≡ (if same? id n then none else first (λ b. same? (t.id b) n) rows)
  unfolding first
  first_dropped n id [] = ground arith
  first_dropped n id (a ∷ rows) = ground (arith, first_dropped n id rows)

  select_later :
      (a : t.Row) (rows : List t.Row)
      → All (Before a) rows
      → select (λ b. not (same? (t.id b) (t.id a))) rows ≡ rows
  select_later a [] h = refl
  select_later a (b ∷ rows) h = ground (arith, h.0.0, select_later a rows h.1)

  -- A deletion by the id of a row takes this row.
  pub select_others :
      (pre post : List t.Row) (a : t.Row)
      → Tidy (pre ++ a ∷ post)
      → select (λ b. not (same? (t.id b) (t.id a))) (pre ++ a ∷ post) ≡ pre ++ post
  select_others [] post a h = ground (arith, select_later a post h.0)
  select_others (b ∷ pre) post a h =
      ground (arith, (All-middle (Before b) pre post a h.0).0, select_others pre post a h.1)

  -- The other rows have other values in the unique columns.
  abbrev pub Apart : t.Row → t.Row → Type 0
  Apart a b =
      (clashes (t.unique a) (t.unique b) ≡ false) ⊎ (clashes (t.unique b) (t.unique a) ≡ false)

  pub others-Apart :
      (pre post : List t.Row) (a : t.Row) → Tidy (pre ++ a ∷ post) → All (Apart a) (pre ++ post)
  others-Apart [] post a h = All-map (Before a) (Apart a) post (λ b before. inl before.1) h.0
  others-Apart (b ∷ pre) post a h =
      (inr (All-middle (Before b) pre post a h.0).1, others-Apart pre post a h.1)
