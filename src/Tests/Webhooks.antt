-- ===== src/Tests/Webhooks.antt =====
-- The webhooks at concrete inputs.
use tgplane.Common.{string_key, ℕ, String, List, [], ◌∷◌, true, false, if◌then◌else◌, ◌==◌}
use tgplane.Webhook.{Webhook, unreachable, status, Network, post}
use tgplane.Webhook.Delivery.{Ends, post-Ends}

abbrev hmac : String → List ℕ → String
hmac secret body = secret

-- The first attempt gets no answer, and the second one 204.
abbrev network : Network
network = record {
  well_formed = λ url. true;
  cancelled = λ k. false;
  answers = λ k. if k == 0 then unreachable else status 204;
}

abbrev hook : String → List String → Webhook
hook url events = record { id = 1; url = url; secret = "s"; events = events }

post-Ends_example :
    let p = post hmac network "d" (hook "a" []) (1 ∷ []) "message" in
    Ends true network.cancelled network.answers 3 (p.ending, p.sent)
post-Ends_example = post-Ends hmac network "d" (hook "a" []) (1 ∷ []) "message"
