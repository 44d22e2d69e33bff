-- ===== src/Worker/Manager/Balance/Least.antt =====
-- The worker that is picked carries the least.
use tgplane.Common.{
  string_key, ℕ, ◌≤◌, String, List, [], ◌∷◌, ◌≡◌, refl, sym, ◌∙◌, ◌⊎◌, inl, inr, Result, ok, err,
  ltb, if◌then◌else◌, map, arith, All, ltb→lt, List-cases, Bool-cases, ap,
}
use mathlib.Core.List.{
  Mem, Mem-prop, Perm, mem-cons_self, mem-cons_of_mem, not-mem-nil, mem-cons, mem-map,
  mem-map_of_mem,
}
use mathlib.Core.Logic.{∥∥₁_elim}
use mathlib.Core.Logic.Or
use native.Mathlib.Bridge.{le_prop}
use native.Mathlib.Nat.{le_trans, ℕ_set}
use mathlib.Core.List.Perm
use tgplane.Common.Map.{values}
use tgplane.Worker.Client.{Rpc, Client, list_sessions}
use tgplane.Worker.Manager.{Manager, ManagerError, no_workers, no_other_workers}
use tgplane.Worker.Manager.Balance.{
  Scored, Order, count_sessions, best_of, pick, score, others, least_loaded, least_loaded_excluding,
}

lesser_lem :
    (best s : Scored)
    → let b : Scored = if ltb s.1 best.1 then s else best in
      (b.1 ≤ best.1) × (b.1 ≤ s.1) × ((rest : List Scored) → Mem b (best ∷ s ∷ rest))
lesser_lem best s = elim (Bool-cases (ltb s.1 best.1)) [
  | inl less ↦ rw less (
    omega (arith, ltb→lt s.1 best.1 less),
    omega arith,
    λ rest. mem-cons_of_mem best mem-cons_self,
  )
  | inr more ↦ rw more (omega arith, ground arith, λ rest. mem-cons_self)
]

-- The best is one of the scores, and none is less.
best_of_lem :
    (best : Scored) (rest : List Scored)
    → ((best_of best rest).1 ≤ best.1)
      × All (λ s. (best_of best rest).1 ≤ s.1) rest
      × Mem (best_of best rest) (best ∷ rest)
unfolding best_of
best_of_lem best [] = (omega arith, tt, mem-cons_self)
best_of_lem best (s ∷ rest) =
    let b : Scored = if ltb s.1 best.1 then s else best in
    let (low, lower, found) = best_of_lem b rest in
    let (under_best, under_s, one) = lesser_lem best s in
    (
      le_trans low under_best,
      (le_trans low under_s, lower),
      Or.elim Mem-prop (mem-cons.0 found) (λ e. rw e (one rest))
          (λ h. mem-cons_of_mem best (mem-cons_of_mem s h)),
    )

All-mem : (n : ℕ) (xs : List Scored) (x : Scored) → All (λ s. n ≤ s.1) xs → Mem x xs → n ≤ x.1
All-mem n [] x h m = absurd (not-mem-nil m)
All-mem n (y ∷ xs) x h m = Or.elim le_prop (mem-cons.0 m) (λ e. rw e h.0) (All-mem n xs x h.1)

module _ {W E : Type 0} (rpc : Rpc W E) (w : W) where
  -- The number of sessions that a client counts as having.
  unfoldable pub load : Client → ℕ
  load c = (score rpc w c).1

  -- The choice is among these clients, and none of them has less load.
  pub record IsLeast (cs : List Client) (r : Result (ManagerError E) Client) : Type 0 where
    pub best : Client
    pub picked : r ≡ ok best
    pub member : Mem best cs
    pub least : (c : Client) → Mem c cs → load best ≤ load c

  map-load : (y : Scored) (cs : List Client) → Mem y (map (score rpc w) cs) → load y.0 ≡ y.1
  unfolding load score
  map-load y cs h =
      ∥∥₁_elim ((mem-map {A = Client} {f = score rpc w} {b = y} {l = cs}).0 h) (ℕ_set _ _)
        (λ (x, m, e). ap (λ (p : Scored). (score rpc w p.0).1) (sym e) ∙ ap (λ (p : Scored). p.1) e)

  pick-IsLeast :
      (arrive : Order) (c : Client) (cs : List Client)
      → ((l : List Scored) → Perm (arrive l) l)
      → IsLeast (c ∷ cs) (pick rpc (arrive (map (score rpc w) (c ∷ cs))))
  unfolding pick load score
  pick-IsLeast arrive c cs perm = elim (List-cases (arrive scores)) [
    | inl none_left ↦
        absurd (not-mem-nil (rw none_left at ((Perm.mem_iff (perm scores)).1 mem-cons_self)))
    | inr (s, rest, arrived) ↦
        let (low, lower, found) = best_of_lem s rest in
        let here : Mem (best_of s rest) scores =
          (Perm.mem_iff (perm scores)).0 (rw arrived found) in
        record {
          best = (best_of s rest).0;
          picked = rw (arrived, pick);
          member =
              ∥∥₁_elim ((mem-map {A = Client} {f = score rpc w} {l = c ∷ cs}).0 here) Mem-prop
                (λ (x, m, e). rw (← ap (λ (p : Scored). p.0) e) m);
          least = λ x h.
              let seen : Mem (score rpc w x) (s ∷ rest) =
                rw arrived at ((Perm.mem_iff (perm scores)).1 (mem-map_of_mem (score rpc w) h)) in
              let bound : (best_of s rest).1 ≤ load x =
                All-mem (best_of s rest).1 (s ∷ rest) (score rpc w x) (low, lower) seen in
              rw (map-load (best_of s rest) (c ∷ cs) here) bound;
        }
  ]
    where
      scores : List Scored
      scores = map (score rpc w) (c ∷ cs)

  -- The same loads, whatever order the answers come in.
  abbrev pub AnyOrder : Order → Type 0
  AnyOrder arrive = (l : List Scored) → Perm (arrive l) l

  -- `leastLoaded` fails only if no worker is registered. Otherwise it never panics, and returns a
  -- registered worker that no other undercuts, in whatever order the answers come in.
  pub least_loaded_lem :
      (arrive : Order) (m : Manager)
      → AnyOrder arrive
      → (values m.workers ≡ []) × (least_loaded rpc arrive m w ≡ err no_workers)
        ⊎ IsLeast (values m.workers) (least_loaded rpc arrive m w)
  unfolding least_loaded
  least_loaded_lem arrive m perm = elim (List-cases (values m.workers)) [
    | inl empty ↦ inl (empty, rw (empty, least_loaded))
    | inr (c, cs, full) ↦ inr (rw (full, least_loaded) (pick-IsLeast arrive c cs perm))
  ]

  -- `leastLoadedExcluding` fails only if no worker is registered under another id. Otherwise it never
  -- panics, and returns such a worker that no other of them undercuts, in whatever order the answers
  -- come in.
  pub least_loaded_excluding_lem :
      (arrive : Order) (exclude : String) (m : Manager)
      → AnyOrder arrive
      → (others rpc exclude m.workers ≡ [])
          × (least_loaded_excluding rpc arrive exclude m w ≡ err no_other_workers)
        ⊎ IsLeast (others rpc exclude m.workers) (least_loaded_excluding rpc arrive exclude m w)
  unfolding least_loaded_excluding
  least_loaded_excluding_lem arrive exclude m perm =
      elim (List-cases (others rpc exclude m.workers)) [
        | inl empty ↦ inl (empty, rw (empty, least_loaded_excluding))
        | inr (c, cs, full) ↦
            inr (rw (full, least_loaded_excluding) (pick-IsLeast arrive c cs perm))
      ]

  -- A worker whose sessions cannot be listed counts as having none: when such a worker is
  -- registered, the worker that `leastLoaded` picks counts as having none too.
  pub unreachable_preferred :
      (arrive : Order) (m : Manager) (dead : Client) (e : E)
      → AnyOrder arrive
      → Mem dead (values m.workers)
      → list_sessions rpc dead w ≡ err e
      → (c : Client) × (least_loaded rpc arrive m w ≡ ok c) × (load c ≡ 0)
  unfolding load score count_sessions
  unreachable_preferred arrive m dead e perm h silent = elim (least_loaded_lem arrive m perm) [
    | inl (empty, _) ↦ absurd (not-mem-nil (rw empty at h))
    | inr l ↦
        let zero_load : load dead ≡ 0 = rw silent refl in
        (l.best, l.picked, omega (arith, l.least dead h, zero_load))
  ]
