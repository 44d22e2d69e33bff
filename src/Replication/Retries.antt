-- ===== src/Replication/Retries.antt =====
-- How the insertion of a message ends.
use tgplane.Common.{
  ℕ, zero, suc, ◌+◌, ◌≤◌, List, [], ◌∷◌, Option, none, some, Bool, true, false, ◌≡◌, refl, ◌⊎◌, inl,
  inr, take, ltb, ◌&&◌, arith, AllFalse, AllFalse-suc, stops, Unstopped, Bool-cases, Option-cases,
  length, ap, lt→ltb, ◌<◌,
}
use mathlib.Core.Path.{subst}
use tgplane.Replication.{inserted, interrupted, given_up, Attempts, attempts, insert_with_retry}

unfoldable pub accepted : {E : Type 0} → Option E → Bool
accepted none = true
accepted (some e) = false

abbrev pub Refused : {E : Type 0} → (ℕ → Option E) → ℕ → Type 0
Refused answers n = AllFalse (λ k. accepted (answers k)) n

-- How at most so many attempts may end: the last one is the first that is accepted; or the context
-- ends in the pause after the last one; or all are refused, and the error of the last one is returned.
-- The context ends in no earlier pause.
abbrev pub Ends : {E : Type 0} → (ℕ → Bool) → (ℕ → Option E) → ℕ → Attempts E → Type 0
Ends {E} interrupted_at answers limit r =
    (((r.ending ≡ inserted)
        × ((k : ℕ) × (r.tried ≡ suc k)
            × (suc k ≤ limit)
            × (answers k ≡ none)
            × Refused answers k
            × Unstopped interrupted_at (suc k)))
      ⊎ (((r.ending ≡ interrupted)
            × (stops interrupted_at r.tried ≡ true)
            × (r.tried < limit)
            × Refused answers r.tried
            × Unstopped interrupted_at r.tried)
          ⊎ ((k : ℕ) × (e : E) × (r.ending ≡ given_up (some e))
              × (suc k ≡ limit)
              × (r.tried ≡ limit)
              × (answers k ≡ some e)
              × Refused answers limit
              × Unstopped interrupted_at limit)))

attempts-Ends :
    {E : Type 0} (interrupted_at : ℕ → Bool) (answers : ℕ → Option E) (left made limit : ℕ)
    (last : Option E)
    → made + left ≡ limit
    → (left ≡ 0 → (k : ℕ) × (e : E) × (suc k ≡ made) × (answers k ≡ some e) × (last ≡ some e))
    → Refused answers made
    → Unstopped interrupted_at made
    → Ends interrupted_at answers limit (attempts interrupted_at answers left made last)
unfolding attempts accepted
attempts-Ends interrupted_at answers zero made limit last eq was f u =
    let (k, e, made_eq, got, last_eq) = was refl in
    let all : made ≡ limit = omega arith in
    inr (
      inr (
        k,
        e,
        ap given_up last_eq,
        omega arith,
        all,
        got,
        subst (Refused answers) all f,
        subst (Unstopped interrupted_at) all u,
      ))
attempts-Ends interrupted_at answers (suc left) made limit last eq was f u =
    elim (Bool-cases (ltb 0 made && interrupted_at made)) [
      | inl stop ↦ rw (stop, attempts) (inr (inl (refl, stop, omega arith, f, u)))
      | inr go ↦
          let more = AllFalse-suc (stops interrupted_at) made go u in
          elim (Option-cases (answers made)) [
            | inl fine ↦
                rw (go, attempts, fine)
                  (inl (refl, (made, omega arith, omega arith, fine, f, more)))
            | inr (e, bad) ↦
                let next : suc made ≡ made + 1 = omega arith in
                rw (go, attempts, bad)
                  (attempts-Ends interrupted_at answers left (made + 1) limit (answers made)
                    (omega arith) (λ z. (made, e, omega arith, bad, bad))
                    (subst (Refused answers) next
                      (AllFalse-suc (λ k. accepted (answers k)) made (rw bad refl) f))
                    (subst (Unstopped interrupted_at) next more))
          ]
    ]

abbrev count_from : ℕ → ℕ → List ℕ
count_from n zero = []
count_from n (suc k) = n ∷ count_from (n + 1) k

attempts-pauses :
    {E : Type 0} (interrupted_at : ℕ → Bool) (answers : ℕ → Option E) (left made : ℕ)
    (last : Option E)
    → 0 < made
    → let p = (attempts interrupted_at answers left made last).pauses in
      p ≡ take (length p) (count_from made left)
unfolding attempts
attempts-pauses interrupted_at answers zero made last l = refl
attempts-pauses interrupted_at answers (suc left) made last l = ground (
  arith,
  lt→ltb 0 made l,
  attempts-pauses interrupted_at answers left (made + 1) (answers made) (omega arith),
)

first-pauses :
    {E : Type 0} (interrupted_at : ℕ → Bool) (answers : ℕ → Option E) (left : ℕ)
    → let p = (attempts interrupted_at answers (suc left) 0 none).pauses in
      p ≡ take (length p) (count_from 1 left)
unfolding attempts
first-pauses interrupted_at answers left =
    ground (arith, attempts-pauses interrupted_at answers left 1 (answers 0) (omega arith))

-- The attempts that a pause has begun for, and the first.
abbrev pub begun : {E : Type 0} → Attempts E → ℕ
begun r = elim r.ending [ inserted ↦ r.tried | interrupted ↦ suc r.tried | given_up e ↦ r.tried ]

attempts-begun :
    {E : Type 0} (interrupted_at : ℕ → Bool) (answers : ℕ → Option E) (left made : ℕ)
    (last : Option E)
    → 0 < made
    → let r = attempts interrupted_at answers left made last in length r.pauses + made ≡ begun r
unfolding attempts
attempts-begun interrupted_at answers zero made last l = omega arith
attempts-begun interrupted_at answers (suc left) made last l =
    let rest = attempts-begun interrupted_at answers left (made + 1) (answers made) (omega arith) in
    elim (Bool-cases (interrupted_at made)) [
      | inl stop ↦ ground (arith, lt→ltb 0 made l, stop)
      | inr go ↦ elim (Option-cases (answers made)) [
        | inl fine ↦ ground (arith, lt→ltb 0 made l, go, fine)
        | inr (e, bad) ↦ ground (arith, lt→ltb 0 made l, go, bad, rest)
      ]
    ]

first-begun :
    {E : Type 0} (interrupted_at : ℕ → Bool) (answers : ℕ → Option E) (left : ℕ)
    → let r = attempts interrupted_at answers (suc left) 0 none in suc (length r.pauses) ≡ begun r
unfolding attempts
first-begun interrupted_at answers left =
    let rest = attempts-begun interrupted_at answers left 1 (answers 0) (omega arith) in
    elim (Option-cases (answers 0)) [
      | inl fine ↦ ground (arith, fine)
      | inr (e, bad) ↦ ground (arith, bad, rest)
    ]

-- `insertWithRetry` makes at most 3 attempts. It returns nil if the last one made is the first that is
-- accepted. It returns the error of the context only if the context ends in the pause after the last
-- attempt made, all of them refused. Else it returns the error of the third attempt, after three
-- refusals. The context has then ended in no earlier pause. The pauses begun are of 1 and of 2 seconds,
-- in this order, one before each attempt but the first, and one in which the context ends.
pub insert_with_retry-Ends :
    {E : Type 0} (interrupted_at : ℕ → Bool) (answers : ℕ → Option E)
    → let r = insert_with_retry interrupted_at answers in
      Ends interrupted_at answers 3 r
      × (r.pauses ≡ take (length r.pauses) (1 ∷ 2 ∷ []))
      × (suc (length r.pauses) ≡ begun r)
unfolding insert_with_retry
insert_with_retry-Ends interrupted_at answers = (
  attempts-Ends interrupted_at answers 3 0 3 none refl (λ z. absurd (ground arith))
      (λ k l. absurd (omega arith)) (λ k l. absurd (omega arith)),
  first-pauses interrupted_at answers 2,
  first-begun interrupted_at answers 2,
)
