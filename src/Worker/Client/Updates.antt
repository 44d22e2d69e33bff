-- ===== src/Worker/Client/Updates.antt =====
-- `Subscribe` of internal/worker/client/client.go, and the loop of the manager that calls it again.
use tgplane.Common.{String, List, [], ◌∷◌, ◌++◌, map, Option, none, some, ◌≡◌, refl, ap}
use tgplane.Worker.Wire.{TelegramUpdate}
use tgplane.Worker.Client.{Client}

-- What `Recv` gives: an update, `io.EOF`, or another error, the end of the context among them.
pub data Received (P E : Type 0) : Type 0 where
  update : TelegramUpdate P → Received P E
  ends : Received P E
  fails : E → Received P E

-- How the call stands after what the stream has given so far.
pub data Standing (E : Type 0) : Type 0 where
  receiving returned : Standing E
  subscribe_failed stream_error : String → E → Standing E

-- The calls of the handler, and how the call stands.
pub record Subscription (P E : Type 0) : Type 0 where
  pub handled : List (String × TelegramUpdate P)
  pub standing : Standing E

module _ {P E : Type 0} where
  -- The loop.
  unfoldable pub receive_all : Client → List (Received P E) → Subscription P E
  receive_all c [] = record { handled = []; standing = receiving }
  receive_all c (ends ∷ rest) = record { handled = []; standing = returned }
  receive_all c (fails e ∷ rest) = record { handled = []; standing = stream_error c.id e }
  receive_all c (update u ∷ rest) =
      let later = receive_all c rest in record later { handled = (c.id, u) ∷ later.handled }

  -- The answer to the opening call, and the stream.
  unfoldable pub subscribe : Client → Option E → List (Received P E) → Subscription P E
  unfolding receive_all
  subscribe c (some e) stream = record { handled = []; standing = subscribe_failed c.id e }
  subscribe c none stream = receive_all c stream

  -- The updates before a stream ends are handled in order, under the id of the worker, each once.
  pub receive_all-map :
      (c : Client) (us : List (TelegramUpdate P)) (rest : List (Received P E))
      → (receive_all c (map update us ++ rest)).handled
        ≡ map (λ u. (c.id, u)) us ++ (receive_all c rest).handled
  unfolding receive_all
  receive_all-map c [] rest = refl
  receive_all-map c (u ∷ us) rest = ap (◌∷◌ (c.id, u)) (receive_all-map c us rest)
