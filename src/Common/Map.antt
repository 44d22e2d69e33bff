-- ===== src/Common/Map.antt =====
-- Go's maps: association lists without a key twice. The order of the list stands for the order in
-- which `range` visits the entries, which Go leaves open: no law fixes it.
use Prim.Native.Nat.{ℕ, suc, ◌+◌}
use mathlib.Core.Path.{◌≡◌, refl, ap}
use mathlib.Core.Bool.{Bool}
use mathlib.Core.List.{List, [], ◌∷◌, ◌++◌}
use mathlib.Core.Logic.{◌≢◌}
use mathlib.Core.Option
use mathlib.Core.Option.{Option, none, some}
use native.Mathlib.Omega.{arith}
use tgplane.Common.Tests.{Key, same?, if◌then◌else◌}
use tgplane.Common.Lists.{length, All}

module _ {ℓ κ} {K : Type ℓ} {V : Type κ} where
  -- The values, in the order of a `range` loop.
  abbrev pub values : List (K × V) → List V
  values [] = []
  values ((j, w) ∷ m) = w ∷ values m

  abbrev pub keys : List (K × V) → List K
  keys [] = []
  keys ((j, w) ∷ m) = j ∷ keys m

module _ {ℓ κ} {K : Type ℓ} {V : Type κ} ⦃key : Key K⦄ where
  -- `m[k]`, with the `ok` of Go as the constructor.
  unfoldable pub lookup : K → List (K × V) → Option V
  lookup k [] = none
  lookup k ((j, v) ∷ m) = if same? j k then some v else lookup k m

  -- `m[k] = v`.
  unfoldable pub insert : K → V → List (K × V) → List (K × V)
  insert k v [] = (k, v) ∷ []
  insert k v ((j, w) ∷ m) = if same? j k then (k, v) ∷ m else (j, w) ∷ insert k v m

  -- `delete(m, k)`.
  unfoldable pub delete : K → List (K × V) → List (K × V)
  delete k [] = []
  delete k ((j, w) ∷ m) = if same? j k then delete k m else (j, w) ∷ delete k m

  -- A write through the pointer that `m[k]` holds.
  unfoldable pub modify : K → (V → V) → List (K × V) → List (K × V)
  modify k f [] = []
  modify k f ((j, w) ∷ m) = if same? j k then (j, f w) ∷ m else (j, w) ∷ modify k f m

  -- No key stands twice.
  abbrev pub Distinct : List (K × V) → Type κ
  Distinct [] = Unit
  Distinct ((j, w) ∷ m) = (lookup j m ≡ none) × Distinct m

module _ {ℓ κ} {K : Type ℓ} {V : Type κ} ⦃key : Key K⦄ where
  pub lookup-insert :
      (k j : K) (v : V) (m : List (K × V))
      → lookup j (insert k v m) ≡ (if same? k j then some v else lookup j m)
  unfolding lookup insert
  lookup-insert k j v [] = refl
  lookup-insert k j v ((i, w) ∷ m) = ground (arith, lookup-insert k j v m)

  pub lookup-delete :
      (k j : K) (m : List (K × V))
      → lookup j (delete k m) ≡ (if same? k j then none else lookup j m)
  unfolding lookup delete
  lookup-delete k j [] = ground arith
  lookup-delete k j ((i, w) ∷ m) = ground (arith, lookup-delete k j m)

  pub lookup-modify :
      (k j : K) (f : V → V) (m : List (K × V))
      → lookup j (modify k f m) ≡ (if same? k j then Option.map f (lookup j m) else lookup j m)
  unfolding lookup modify
  lookup-modify k j f [] = ground arith
  lookup-modify k j f ((i, w) ∷ m) = ground (arith, lookup-modify k j f m)

  pub insert-Distinct : (k : K) (v : V) (m : List (K × V)) → Distinct m → Distinct (insert k v m)
  unfolding lookup insert
  insert-Distinct k v [] d = (refl, tt)
  insert-Distinct k v ((j, w) ∷ m) d =
      ground (arith, lookup-insert k j v m, insert-Distinct k v m d.1)

  pub delete-Distinct : (k : K) (m : List (K × V)) → Distinct m → Distinct (delete k m)
  unfolding lookup delete
  delete-Distinct k [] d = tt
  delete-Distinct k ((j, w) ∷ m) d = ground (arith, lookup-delete k j m, delete-Distinct k m d.1)

  pub modify-Distinct :
      (k : K) (f : V → V) (m : List (K × V)) → Distinct m → Distinct (modify k f m)
  unfolding lookup modify
  modify-Distinct k f [] d = tt
  modify-Distinct k f ((j, w) ∷ m) d =
      ground (arith, lookup-modify k j f m, modify-Distinct k f m d.1)

  pub delete_absent : (k : K) (m : List (K × V)) → lookup k m ≡ none → delete k m ≡ m
  unfolding lookup delete
  delete_absent k [] h = refl
  delete_absent k ((j, w) ∷ m) h = ground (arith, delete_absent k m)

  pub length-insert_absent :
      (k : K) (v : V) (m : List (K × V))
      → lookup k m ≡ none
      → length (insert k v m) ≡ suc (length m)
  unfolding lookup insert
  length-insert_absent k v [] h = refl
  length-insert_absent k v ((j, w) ∷ m) h = ground (arith, length-insert_absent k v m)

  pub length-insert_present :
      (k : K) (v w : V) (m : List (K × V)) → lookup k m ≡ some w → length (insert k v m) ≡ length m
  unfolding lookup insert
  length-insert_present k v w [] h = ground arith
  length-insert_present k v w ((j, u) ∷ m) h = ground (arith, length-insert_present k v w m)

  pub length-delete_present :
      (k : K) (v : V) (m : List (K × V))
      → Distinct m
      → lookup k m ≡ some v
      → suc (length (delete k m)) ≡ length m
  unfolding lookup delete
  length-delete_present k v [] d h = cc
  length-delete_present k v ((j, w) ∷ m) d h =
      ground (arith, delete_absent k m, length-delete_present k v m d.1)

-- How many values pass a test.
unfoldable pub count_if {ℓ} : {V : Type ℓ} → (V → Bool) → List V → ℕ
count_if p [] = 0
count_if p (w ∷ ws) = let rest = count_if p ws in if p w then suc rest else rest

pub count_if-append {ℓ} :
    {V : Type ℓ} (p : V → Bool) (xs ys : List V)
    → count_if p (xs ++ ys) ≡ count_if p xs + count_if p ys
unfolding count_if
count_if-append p [] ys = omega arith
count_if-append p (x ∷ xs) ys = ground (arith, count_if-append p xs ys)

module _ {ℓ κ} {K : Type ℓ} {V : Type κ} ⦃key : Key K⦄ (p : V → Bool) where
  pub count-insert_absent :
      (k : K) (v : V) (m : List (K × V))
      → lookup k m ≡ none
      → count_if p (values (insert k v m)) ≡ count_if p (values m) + (if p v then 1 else 0)
  unfolding lookup insert count_if
  count-insert_absent k v [] h = ground arith
  count-insert_absent k v ((j, w) ∷ m) h = ground (arith, count-insert_absent k v m)

  pub count-delete_present :
      (k : K) (v : V) (m : List (K × V))
      → Distinct m
      → lookup k m ≡ some v
      → count_if p (values (delete k m)) + (if p v then 1 else 0) ≡ count_if p (values m)
  unfolding lookup delete count_if
  count-delete_present k v [] d h = cc
  count-delete_present k v ((j, w) ∷ m) d h =
      ground (arith, delete_absent k m, count-delete_present k v m d.1)

  pub count-modify_present :
      (k : K) (v : V) (f : V → V) (m : List (K × V))
      → lookup k m ≡ some v
      → count_if p (values (modify k f m)) + (if p v then 1 else 0)
        ≡ count_if p (values m) + (if p (f v) then 1 else 0)
  unfolding lookup modify count_if
  count-modify_present k v f [] h = cc
  count-modify_present k v f ((j, w) ∷ m) h = ground (arith, count-modify_present k v f m)

-- What holds of every entry.
abbrev pub Entries {ℓ κ μ} : {K : Type ℓ} {V : Type κ} → (K → V → Type μ) → List (K × V) → Type μ
Entries P [] = Unit
Entries P ((j, w) ∷ m) = P j w × Entries P m

module _ {ℓ κ μ} {K : Type ℓ} {V : Type κ} ⦃key : Key K⦄ (P : K → V → Type μ) where
  pub insert-Entries :
      (k : K) (v : V) (m : List (K × V)) → P k v → Entries P m → Entries P (insert k v m)
  unfolding insert
  insert-Entries k v [] h a = (h, tt)
  insert-Entries k v ((j, w) ∷ m) h a = ground (arith, insert-Entries k v m h a.1)

  pub delete-Entries : (k : K) (m : List (K × V)) → Entries P m → Entries P (delete k m)
  unfolding delete
  delete-Entries k [] a = tt
  delete-Entries k ((j, w) ∷ m) a = ground (arith, delete-Entries k m a.1)

  pub modify-Entries :
      (k : K) (f : V → V) (m : List (K × V))
      → ((j : K) (v : V) → P j v → P j (f v))
      → Entries P m
      → Entries P (modify k f m)
  unfolding modify
  modify-Entries k f [] h a = tt
  modify-Entries k f ((j, w) ∷ m) h a = ground (arith, h j w a.0, modify-Entries k f m h a.1)

  pub lookup-Entries :
      (k : K) (v : V) (m : List (K × V)) → Entries P m → lookup k m ≡ some v → P k v
  unfolding lookup
  lookup-Entries k v [] a h = cc
  lookup-Entries k v ((j, w) ∷ m) a h = ground (arith, lookup-Entries k v m a.1)

pub Entries-map {ℓ κ μ ν} :
    {K : Type ℓ} {V : Type κ} (P : K → V → Type μ) (Q : K → V → Type ν) (m : List (K × V))
    → ((k : K) (v : V) → P k v → Q k v)
    → Entries P m
    → Entries Q m
Entries-map P Q [] h a = tt
Entries-map P Q ((j, w) ∷ m) h a = (h j w a.0, Entries-map P Q m h a.1)

-- What holds of the entries that stay when a key goes.
pub delete-Entries_map {ℓ κ μ ν} :
    {K : Type ℓ} {V : Type κ} ⦃key : Key K⦄ (P : K → V → Type μ) (Q : K → V → Type ν) (k : K)
    (m : List (K × V))
    → ((j : K) (v : V) → j ≢ k → P j v → Q j v)
    → Entries P m
    → Entries Q (delete k m)
unfolding delete
delete-Entries_map P Q k [] h a = tt
delete-Entries_map P Q k ((j, w) ∷ m) h a =
    ground (arith, λ (ne : j ≢ k). h j w ne a.0, delete-Entries_map P Q k m h a.1)

pub modify-Entries_at {ℓ κ μ} :
    {K : Type ℓ} {V : Type κ} ⦃key : Key K⦄ (P : K → V → Type μ) (k : K) (v : V) (f : V → V)
    (m : List (K × V))
    → lookup k m ≡ some v
    → P k (f v)
    → Entries P m
    → Entries P (modify k f m)
unfolding lookup modify
modify-Entries_at P k v f [] found h a = tt
modify-Entries_at P k v f ((j, w) ∷ m) found h a = ground (arith, modify-Entries_at P k v f m)

pub length-values {ℓ κ} :
    {K : Type ℓ} {V : Type κ} (m : List (K × V)) → length (values m) ≡ length m
length-values [] = refl
length-values ((j, w) ∷ m) = ap suc (length-values m)

module _ {ℓ κ μ ν} {K : Type ℓ} {V : Type κ} ⦃key : Key K⦄ (P : K → V → Type μ) (Q : K → V → Type ν)
    (k : K) (keep : (j : K) (v : V) → j ≢ k → P j v → Q j v) where
  -- What holds of the entries of a map without the key.
  pub absent-Entries : (m : List (K × V)) → lookup k m ≡ none → Entries P m → Entries Q m
  unfolding lookup
  absent-Entries [] h a = tt
  absent-Entries ((j, w) ∷ m) h a =
      ground (arith, λ (ne : j ≢ k). keep j w ne a.0, absent-Entries m)

  pub insert-Entries_map :
      (v : V) (m : List (K × V)) → Distinct m → Q k v → Entries P m → Entries Q (insert k v m)
  unfolding insert
  insert-Entries_map v [] d h a = (h, tt)
  insert-Entries_map v ((j, w) ∷ m) d h a =
      ground
        (arith, λ (ne : j ≢ k). keep j w ne a.0, absent-Entries m, insert-Entries_map v m d.1 h a.1)

pub Entries-values {ℓ κ μ} :
    {K : Type ℓ} {V : Type κ} (P : V → Type μ) (m : List (K × V))
    → Entries (λ k v. P v) m
    → All P (values m)
Entries-values P [] a = tt
Entries-values P ((j, w) ∷ m) a = (a.0, Entries-values P m a.1)
