-- ===== src/Webhook/Delivery.antt =====
-- What is sent to which webhook.
use tgplane.Common.{
  AllFalse, AllFalse-suc, stops, Unstopped, ◌<◌, false, string_key, ℕ, zero, suc, ◌+◌, ◌≤◌, String,
  List, [], ◌∷◌, map, Bool, true, ◌≡◌, refl, ◌⊎◌, inl, inr, arith, select, Bool-cases, ltb, ◌&&◌,
}
use mathlib.Core.Path.{subst}
use tgplane.Webhook.{
  Webhook, Answer, Ending, delivered, abandoned, malformed, exhausted, Network, Post, success,
  matches_filter, attempts, post, deliver_body,
}

-- The attempts made before this one all failed.
abbrev pub AllFailed : (ℕ → Answer) → ℕ → Type 0
AllFailed answers n = AllFalse (λ k. success (answers k)) n

-- How a delivery of at most so many requests may end: the last one is the first that succeeds; or the
-- context ends in the pause after the last one, of which none has succeeded; or no request can be
-- built, and none is sent; or none has succeeded, and every one has been sent. The context ends in no
-- earlier pause.
abbrev pub Ends : Bool → (ℕ → Bool) → (ℕ → Answer) → ℕ → Ending × ℕ → Type 0
Ends well_formed cancelled answers limit r =
    (((r.0 ≡ delivered)
        × ((k : ℕ) × (r.1 ≡ suc k)
            × (suc k ≤ limit)
            × (success (answers k) ≡ true)
            × AllFailed answers k
            × Unstopped cancelled (suc k)))
      ⊎ (((r.0 ≡ abandoned)
            × (stops cancelled r.1 ≡ true)
            × (r.1 < limit)
            × AllFailed answers r.1
            × Unstopped cancelled r.1)
          ⊎ (((r.0 ≡ malformed) × (well_formed ≡ false) × (r.1 ≡ 0))
              ⊎ ((r.0 ≡ exhausted)
                  × (r.1 ≡ limit)
                  × AllFailed answers limit
                  × Unstopped cancelled limit))))

attempts-Ends :
    (well_formed : Bool) (cancelled : ℕ → Bool) (answers : ℕ → Answer) (left made limit : ℕ)
    → made + left ≡ limit
    → (well_formed ≡ false → made ≡ 0)
    → AllFailed answers made
    → Unstopped cancelled made
    → Ends well_formed cancelled answers limit (attempts well_formed cancelled answers left made)
unfolding attempts
attempts-Ends well_formed cancelled answers zero made limit e fresh f u =
    let all : made ≡ limit = omega arith in
    inr (inr (inr (refl, all, subst (AllFailed answers) all f, subst (Unstopped cancelled) all u)))
attempts-Ends false cancelled answers (suc left) made limit e fresh f u =
    elim (Bool-cases (ltb 0 made && cancelled made)) [
      | inl stop ↦ rw (attempts, stop) (inr (inl (refl, stop, omega arith, f, u)))
      | inr go ↦ rw (attempts, go) (inr (inr (inl (refl, refl, fresh refl))))
    ]
attempts-Ends true cancelled answers (suc left) made limit e fresh f u =
    elim (Bool-cases (ltb 0 made && cancelled made)) [
      | inl stop ↦ rw (attempts, stop) (inr (inl (refl, stop, omega arith, f, u)))
      | inr go ↦
          let more = AllFalse-suc (stops cancelled) made go u in
          elim (Bool-cases (success (answers made))) [
            | inl hit ↦
                rw (attempts, go, hit) (inl (refl, (made, omega arith, omega arith, hit, f, more)))
            | inr miss ↦
                let next : suc made ≡ made + 1 = omega arith in
                rw (attempts, go, miss)
                  (attempts-Ends true cancelled answers left (made + 1) limit (omega arith)
                    (λ bad. absurd (ground arith))
                    (subst (AllFailed answers) next
                      (AllFalse-suc (λ k. success (answers k)) made miss f))
                    (subst (Unstopped cancelled) next more))
          ]
    ]

-- `post` sends at most 3 requests. Either the last of them is the first that gets a 2xx answer, and it
-- stops there; or it stops in the pause after the last of them, in which the context ends, and none of
-- them got one; or it sends none, as the URL makes no request; or it has sent all 3 and none got one.
-- Unless the URL makes no request, the context has then ended in no earlier pause.
pub post-Ends :
    (hmac : String → List ℕ → String) (net : Network) (delivery : String) (wh : Webhook)
    (body : List ℕ) (event : String)
    → let p = post hmac net delivery wh body event in
      Ends (net.well_formed wh.url) net.cancelled net.answers 3 (p.ending, p.sent)
unfolding post
post-Ends hmac net delivery wh body event =
    attempts-Ends (net.well_formed wh.url) net.cancelled net.answers 3 0 3 (omega arith)
      (λ bad. refl) (λ k l. absurd (omega arith)) (λ k l. absurd (omega arith))

-- `DeliverBody` posts once to the URL of each webhook that `matchesFilter` accepts for the event, in
-- the order of the list, and to no other.
pub deliver_body-select :
    (hmac : String → List ℕ → String) (net : ℕ → Network) (ids : ℕ → String) (hooks : List Webhook)
    (body : List ℕ) (event : String)
    → map (λ (p : Post). p.request.url) (deliver_body hmac net ids hooks body event)
      ≡ map
          (λ (wh : Webhook). wh.url)
          (select (λ (wh : Webhook). matches_filter wh.events event) hooks)
unfolding deliver_body post
deliver_body-select hmac net ids [] body event = refl
deliver_body-select hmac net ids (wh ∷ hooks) body event =
    elim (Bool-cases (matches_filter wh.events event)) [
      | inl hit ↦ ground (arith, deliver_body-select hmac net ids hooks body event)
      | inr miss ↦ ground (arith, deliver_body-select hmac net ids hooks body event)
    ]
