-- ===== src/Session/Pool/Unordered.antt =====
-- The pool without the order in which Go's map keeps its entries: pools with the same entries are
-- equal here.
use mathlib.Core.List.{Perm}
use mathlib.Core.List.Perm
use mathlib.Core.HLevel.{hedberg}
use mathlib.Core.Quot
use mathlib.Core.Quot.{Quot, Quot-set}
use tgplane.Common.{
  string_key, String, List, [], ◌∷◌, Option, ◌≡◌, refl, sym, ap, ◌∙◌, arith, Option-cases,
  Bool-cases, Result-cases, Result, ℕ, some, ◌==◌, inl, inr,
}
use tgplane.Common.Map.{lookup}
use tgplane.Session.Model.{Session, SessionType, account, bot}
use tgplane.Session.Pool.{
  Pool, add_session, start, add, add_bot, remove, loop_exit, set_update_handler, refuse, get,
}
use tgplane.Session.Pool.Calls.{Call, adds, adds_bot, removes, loop_exits, sets_handler, step}
use tgplane.Session.Pool.Refinement.{Table, step-Shows}

pub String-IsSet : IsSet String
String-IsSet = hedberg string_key.same

-- The same entry, or none, under each id, and the same in every other field.
pub record Same {C H : Type 0} (p q : Pool C H) : Type 0 where
  pub entries : (id : String) → lookup id p.sessions ≡ lookup id q.sessions
  pub given : p.next_handle ≡ q.next_handle
  pub handler : p.on_update ≡ q.on_update
  pub hook : p.hooked ≡ q.hooked

abbrev pub UnorderedPool : Type 0 → Type 0 → Type 0
UnorderedPool C H = Quot (Same {C = C} {H = H})

module _ {C H : Type 0} where
  table_of : Pool C H → Table C
  table_of p = record { at = λ id. lookup id p.sessions; given = p.next_handle }

  unfoldable pub unordered_get : String → UnorderedPool C H → Option Session
  unfolding get
  unordered_get id =
      Quot.lift (hlevel (String-IsSet)) (get id) (λ p q h. ground (arith, h.entries id))

module _ {C H E : Type 0} where
  -- The handler after a call.
  abbrev handler_after : Call C H E → Option H → Option H
  handler_after (sets_handler h) o = some h
  handler_after c o = o

  add_session-fields :
      (factory : String → String → String → Result E C) (now : ℕ → ℕ) (id phone token : String)
      (t : SessionType) (p : Pool C H)
      → let q = (add_session factory now id phone token t p).pool in
        (q.on_update ≡ p.on_update) × (q.hooked ≡ p.hooked)
  unfolding add_session start refuse
  add_session-fields factory now id phone token t p = elim (Option-cases (lookup id p.sessions)) [
    | inr (e, old) ↦ (ground (arith, old), ground (arith, old))
    | inl free ↦ elim (Result-cases (factory id phone token)) [
      | inl (x, failed) ↦ (ground (arith, free, failed), ground (arith, free, failed))
      | inr (c, made) ↦ (ground (arith, free, made), ground (arith, free, made))
    ]
  ]

  step-fields :
      (c : Call C H E) (p : Pool C H)
      → let q = (step p c).pool in
        (q.on_update ≡ handler_after c p.on_update) × (q.hooked ≡ p.hooked)
  unfolding step add add_bot remove refuse loop_exit set_update_handler
  step-fields (adds factory now id phone) p = add_session-fields factory now id phone "" account p
  step-fields (adds_bot factory now id token) p = add_session-fields factory now id "" token bot p
  step-fields (removes id) p = elim (Option-cases (lookup id p.sessions)) [
    | inl missing ↦ (ground (arith, missing), ground (arith, missing))
    | inr (e, found) ↦ (ground (arith, found), ground (arith, found))
  ]
  step-fields (loop_exits now id handle) p = elim (Option-cases (lookup id p.sessions)) [
    | inl missing ↦ (ground (arith, missing), ground (arith, missing))
    | inr (e, found) ↦ elim (Bool-cases (e.handle == handle)) [
      | inl own ↦ (ground (arith, found, own), ground (arith, found, own))
      | inr other ↦ (ground (arith, found, other), ground (arith, found, other))
    ]
  ]
  step-fields (sets_handler h) p = (refl, refl)

  pub step-Same :
      (c : Call C H E) (p q : Pool C H) → Same p q → Same (step p c).pool (step q c).pool
  unfolding table_of
  step-Same c p q h =
      let left = step-Shows p c (table_of p) (record { same = λ id. refl; given = refl }) in
      let right =
        step-Shows q c (table_of p)
          (record { same = λ id. sym (h.entries id); given = sym h.given }) in
      record {
        entries = λ id. left.0.same id ∙ sym (right.0.same id);
        given = left.0.given ∙ sym right.0.given;
        handler = (step-fields c p).0 ∙ ap (handler_after c) h.handler ∙ sym (step-fields c q).0;
        hook = (step-fields c p).1 ∙ h.hook ∙ sym (step-fields c q).1;
      }

  -- A call does not depend on the order.
  unfoldable pub unordered_step : Call C H E → UnorderedPool C H → UnorderedPool C H
  unordered_step c =
      Quot.lift Quot-set (λ p. Quot.mk (step p c).pool) (λ p q h. Quot.sound (step-Same c p q h))

  unfoldable pub unordered_run : UnorderedPool C H → List (Call C H E) → UnorderedPool C H
  unfolding unordered_step
  unordered_run u [] = u
  unordered_run u (c ∷ cs) = unordered_run (unordered_step c u) cs

module _ {C H : Type 0} (E : Type 0) where
  -- `Remove`, as one of the goroutines of a bulk removal calls it.
  unfoldable unordered_remove : String → UnorderedPool C H → UnorderedPool C H
  unordered_remove id u = unordered_step {E = E} (removes id) u
