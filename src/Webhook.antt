-- ===== src/Webhook.antt =====
-- internal/webhook: the delivery of an event, in dispatcher.go, over the webhooks of model.go. HMAC,
-- JSON and HTTP are Go's standard library, hence arguments; the Redis stream is not modelled.
pub mod Delivery
pub mod Events
pub mod Store
use tgplane.Common.{
  string_key, ℕ, zero, suc, ◌+◌, ◌≤◌, String, List, [], ◌∷◌, ◌++◌, Bool, true, false, ◌≡◌,
  if◌then◌else◌, same?, leb, ltb, ◌&&◌, not, length,
}

pub record Webhook : Type 0 where
  pub id : ℕ
  pub url : String
  pub secret : String
  pub events : List String

-- What one `http.Do` gives: an error, or the status of the response.
pub data Answer : Type 0 where
  unreachable : Answer
  status : ℕ → Answer

-- How `post` ends: a 2xx answer, the context cancelled in a pause, a request that cannot be built, or
-- every attempt failed.
pub data Ending : Type 0 where
  delivered abandoned malformed exhausted : Ending

pub record Request : Type 0 where
  pub url : String
  pub delivery : String
  pub event : String
  pub signature : String
  pub body : List ℕ

unfoldable pub success : Answer → Bool
success unreachable = false
success (status n) = leb 200 n && ltb n 300

unfoldable pub named : String → List String → Bool
named event [] = false
named event (e ∷ events) = if same? e event then true else named event events

-- `matchesFilter`: no events are all events.
unfoldable pub matches_filter : List String → String → Bool
unfolding named
matches_filter [] event = true
matches_filter (e ∷ events) event = named event (e ∷ events)

-- `hmac secret body` is the hexadecimal HMAC-SHA256.
unfoldable pub signature : (String → List ℕ → String) → String → List ℕ → String
signature hmac secret body = if same? secret "" then "" else hmac secret body

-- The loop of `post`, with the attempts that are left and those made. `cancelled k` says whether the
-- context ends in the pause before attempt k, and `answers k` is what that attempt gets. The result is
-- the ending, and the number of requests sent.
unfoldable pub attempts : Bool → (ℕ → Bool) → (ℕ → Answer) → ℕ → ℕ → Ending × ℕ
unfolding success
attempts well_formed cancelled answers zero made = (exhausted, made)
attempts well_formed cancelled answers (suc left) made =
    let rest = attempts well_formed cancelled answers left (made + 1) in
    if ltb 0 made && cancelled made
    then (abandoned, made)
    else if not well_formed
    then (malformed, made)
    else if success (answers made)
    then (delivered, made + 1)
    else rest

-- What a `post` sends: so many copies of one request.
pub record Post : Type 0 where
  pub request : Request
  pub ending : Ending
  pub sent : ℕ

-- The outside world of one `post`.
pub record Network : Type 0 where
  pub well_formed : String → Bool
  pub cancelled : ℕ → Bool
  pub answers : ℕ → Answer

unfoldable pub post :
    (String → List ℕ → String) → Network → String → Webhook → List ℕ → String → Post
unfolding attempts signature
post hmac net delivery wh body event =
    let r = attempts (net.well_formed wh.url) net.cancelled net.answers 3 0 in
    record {
      request = record {
        url = wh.url;
        delivery = delivery;
        event = event;
        signature = signature hmac wh.secret body;
        body = body;
      };
      ending = r.0;
      sent = r.1;
    }

-- `DeliverBody`, over the webhooks that the repository lists. `net k` and `ids k` are the network and
-- the UUID of the post that has k webhooks after it in the list.
unfoldable pub deliver_body :
    (String → List ℕ → String)
    → (ℕ → Network)
    → (ℕ → String)
    → List Webhook
    → List ℕ
    → String
    → List Post
unfolding post matches_filter
deliver_body hmac net ids [] body event = []
deliver_body hmac net ids (wh ∷ hooks) body event =
    let rest = deliver_body hmac net ids hooks body event in
    let k = length hooks in
    if matches_filter wh.events event then post hmac (net k) (ids k) wh body event ∷ rest else rest
