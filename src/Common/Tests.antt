-- ===== src/Common/Tests.antt =====
-- Boolean tests on native numbers, the conditional, decided equality of texts, case splits.
use Prim.Native.Nat.{ℕ, suc, ◌≤◌, ◌<◌, compare, Ordering}
use Prim.Native.String.{String}
use mathlib.Core.Path.{◌≡◌, refl, ap, ◌∙◌}
use mathlib.Core.Logic.{◌≢◌, ◌⊎◌, inl, inr}
use mathlib.Core.Bool.{Bool, true, false, ◌&&◌}
use mathlib.Core.Option.{Option, none, some}
use native.Mathlib.Omega.{arith}
use native.Mathlib.Decide.{ℕ_discrete}
use text.Mathlib.Text.{◌==◌ as str_eq}
use text.Mathlib.TextEquality.{eq_iff}

abbrev pub ltb : ℕ → ℕ → Bool
ltb a b = elim (compare a b) [ Ordering.lt ↦ true | _ ↦ false ]

abbrev pub leb : ℕ → ℕ → Bool
leb a b = elim (compare a b) [ Ordering.gt ↦ false | _ ↦ true ]

infix 50 ◌==◌
abbrev pub ◌==◌ : ℕ → ℕ → Bool
a == b = elim (compare a b) [ Ordering.eq ↦ true | _ ↦ false ]

infix 1 if◌then◌else◌
abbrev pub if◌then◌else◌ {ℓ} : {A : Type ℓ} → Bool → A → A → A
if true then x else y = x
if false then x else y = y

pub ltb→lt : (a b : ℕ) → ltb a b ≡ true → a < b
ltb→lt a b h = ground arith

pub lt→ltb : (a b : ℕ) → a < b → ltb a b ≡ true
lt→ltb a b h = ground arith

pub leb→le : (a b : ℕ) → leb a b ≡ true → a ≤ b
leb→le a b h = ground arith

pub ruleset tests = (arith, ltb→lt, lt→ltb, leb→le)

unfoldable pub Bool-cases : (b : Bool) → (b ≡ true) ⊎ (b ≡ false)
Bool-cases true = inl refl
Bool-cases false = inr refl

pub Option-cases {ℓ} : {A : Type ℓ} (o : Option A) → (o ≡ none) ⊎ ((a : A) × (o ≡ some a))
Option-cases none = inl refl
Option-cases (some a) = inr (a, refl)

pub ne_of_not_same : (s t : String) → str_eq s t ≡ false → s ≢ t
ne_of_not_same s t h p = ground (arith, eq_iff s t)

-- Go's `==` on strings, as a decision.
unfoldable pub string_discrete : Discrete String
unfolding Bool-cases
string_discrete s t = elim (Bool-cases (str_eq s t)) [
  | inl e ↦ yes ((eq_iff s t).0 e)
  | inr e ↦ no (ne_of_not_same s t e)
]

-- The types that key a Go map.
pub record Key {ℓ} (K : Type ℓ) : Type ℓ where
  pub same : Discrete K

instance abbrev pub nat_key : Key ℕ
nat_key = record { same = ℕ_discrete }

instance abbrev pub string_key : Key String
string_key = record { same = string_discrete }

-- Equality of keys as the test that an `if` reads.
abbrev pub same? {ℓ} : {K : Type ℓ} ⦃key : Key K⦄ → K → K → Bool
same? ⦃key⦄ a b = elim (key.same a b) [ yes _ ↦ true | no _ ↦ false ]

pub same?→eq {ℓ} : {K : Type ℓ} ⦃key : Key K⦄ (a b : K) → same? a b ≡ true → a ≡ b
same?→eq a b h = ground arith

pub same?_refl {ℓ} : {K : Type ℓ} ⦃key : Key K⦄ (a : K) → same? a a ≡ true
same?_refl a = ground arith

pub same?_ne {ℓ} : {K : Type ℓ} ⦃key : Key K⦄ (a b : K) → a ≢ b → same? a b ≡ false
same?_ne a b h = ground arith

pub same?_apart : (s t : String) → str_eq s t ≡ false → same? s t ≡ false
same?_apart s t h = same?_ne s t (ne_of_not_same s t h)

-- A test that fails at every number below this one.
abbrev pub AllFalse : (ℕ → Bool) → ℕ → Type 0
AllFalse p n = (k : ℕ) → k < n → p k ≡ false

pub AllFalse-suc : (p : ℕ → Bool) (n : ℕ) → p n ≡ false → AllFalse p n → AllFalse p (suc n)
AllFalse-suc p n miss f k l = elim (ℕ_discrete k n) [
  | yes e ↦ ap p e ∙ miss
  | no ne ↦ f k (omega (arith, ne))
]

-- A loop that pauses before each attempt but the first is stopped in the pause before this one.
abbrev pub stops : (ℕ → Bool) → ℕ → Bool
stops ends k = ltb 0 k && ends k

abbrev pub Unstopped : (ℕ → Bool) → ℕ → Type 0
Unstopped ends n = AllFalse (stops ends) n
