-- ===== src/Worker/Manager/Race/Alone.antt =====
-- Calls of `AddWorker` that run at the same time, each for an id of its own.
use tgplane.Common.{
  string_key, ℕ, ◌+◌, ◌≤◌, String, List, [], ◌∷◌, Option, none, some, Bool, false, ◌≡◌, same?,
}
use tgplane.Common.Map.{lookup, count_if}
use tgplane.Worker.Client.{Rpc, Client}
use tgplane.Worker.Manager.Race.{
  Stage, cleared, dialled, checked, Shared, Event, calls_add, goes_on, calls_remove, step,
}

-- The call has found the id free, and has not put its client into the map.
abbrev pub waits : {E : Type 0} → String → Stage E → Bool
waits id (cleared i addr) = same? i id
waits id (dialled c) = same? c.id id
waits id (checked c) = same? c.id id
waits id _ = false

abbrev pub taken : {A : Type 0} → Option A → ℕ
taken none = 0
taken (some a) = 1

module _ {W E : Type 0} where
  -- An id is in the map, or one call waits to put it there, or neither.
  pub record OneEach (s : Shared W E) : Type 0 where
    pub one : (id : String) → count_if (waits id) s.calls + taken (lookup id s.manager.workers) ≤ 1
    pub none_lost : s.lost ≡ []

module _ {W E : Type 0} (rpc : Rpc W E) where
  -- A call of `AddWorker` begins only when no other call for its id waits.
  abbrev pub Fresh : Shared W E → Event → Type 0
  Fresh s (calls_add id addr) = count_if (waits id) s.calls ≡ 0
  Fresh s (goes_on n) = Unit
  Fresh s (calls_remove id) = Unit

  abbrev pub AllFresh : Shared W E → List Event → Type 0
  AllFresh s [] = Unit
  AllFresh s (e ∷ es) = Fresh s e × AllFresh (step rpc s e) es
