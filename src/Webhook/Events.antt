-- ===== src/Webhook/Events.antt =====
-- The events of internal/webhook/dispatcher.go: what it makes of an entry of the stream, and the loop
-- that delivers each entry. `marshal` is `json.Marshal`, which may fail.
use tgplane.Common.{string_key, ℕ, String, List, [], Option, none, some, map}
use tgplane.Common.Int.{ℤ}
use tgplane.Common.Map.{lookup}
use tgplane.Stream.{Value, text, int64, other, Entry, Turn, str_val, int64_val, run}
use tgplane.Webhook.{Webhook, Network, Post, deliver_body}

-- A payload that is no text leaves the slice nil.
pub record UpdateEvent : Type 0 where
  pub session_id : String
  pub worker_id : String
  pub type : String
  pub payload : Option String
  pub received_at : ℤ

unfoldable pub payload_of : Option Value → Option String
payload_of (some (text s)) = some s
payload_of (some (int64 n)) = none
payload_of (some other) = none
payload_of none = none

unfoldable pub extract_event : (String → ℤ) → List (String × Value) → UpdateEvent
unfolding payload_of
extract_event scan vals = record {
  session_id = str_val vals "session_id";
  worker_id = str_val vals "worker_id";
  type = str_val vals "type";
  payload = payload_of (lookup "payload" vals);
  received_at = int64_val scan vals "received_at";
}

-- The outside of one delivery: the webhooks that the repository lists, or an error; and the network
-- and the UUID of each post, as `deliver_body` takes them.
pub record Delivery : Type 0 where
  pub hooks : Option (List Webhook)
  pub network : ℕ → Network
  pub ids : ℕ → String

module _ (marshal : UpdateEvent → Option (List ℕ)) (hmac : String → List ℕ → String)
    (scan : String → ℤ) where
  unfoldable pub deliver_event : Delivery → List ℕ → String → List Post
  deliver_event d body type = elim d.hooks [
    | none ↦ []
    | some hooks ↦ deliver_body hmac d.network d.ids hooks body type
  ]

  unfoldable pub deliver : Delivery → List (String × Value) → List Post
  unfolding deliver_event extract_event
  deliver d vals =
      let ev = extract_event scan vals in
      elim (marshal ev) [ none ↦ [] | some body ↦ deliver_event d body ev.type ]

  -- `Run`.
  unfoldable pub dispatch_all : (Entry → Delivery) → List Turn → List (Entry × List Post)
  unfolding deliver
  dispatch_all world turns = map (λ e. (e, deliver (world e) e.values)) (run turns).handled
