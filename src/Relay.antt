-- ===== src/Relay.antt =====
-- cmd/main/main.go: the handler that the manager gives to every subscription. It publishes the update
-- to the stream; an error is only logged.
pub mod Order
use tgplane.Common.{ℕ, suc, String, List, [], ◌∷◌, Bool, if◌then◌else◌}
use tgplane.Common.Int.{ℤ}
use tgplane.Worker.Wire.{TelegramUpdate}
use tgplane.Stream.{Addition, publish}

-- The calls of the handler, each with the update and its worker. `now k` is the clock at call k, and
-- `adds k` says whether Redis adds the entry of call k: otherwise the update is gone.
unfoldable pub route :
    (ℕ → Bool) → (ℕ → ℤ) → ℕ → List (String × TelegramUpdate String) → List Addition
unfolding publish
route adds now k [] = []
route adds now k ((worker_id, u) ∷ calls) =
    let rest = route adds now (suc k) calls in
    if adds k then publish worker_id u.session_id u.type u.payload (now k) ∷ rest else rest
