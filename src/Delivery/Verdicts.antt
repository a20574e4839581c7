-- ===== src/Delivery/Verdicts.antt =====
-- What the row says after an attempt that no other task disturbed.
use ai_whats_app_shipment_as.Prelude.{
  ℕ, ◌+◌, ◌≤◌, String, ◌≡◌, Bool, true, false, ◌&&◌, not, Option, none, some, List, [], ◌∷◌, arith,
  if◌then◌else◌, eq_iff, str_eq,
}
use ai_whats_app_shipment_as.Delivery.Message.{
  Message, Ticket, SendStatus, sent, uncertain, failed, delivery_lease,
}
use ai_whats_app_shipment_as.Delivery.Claim.{
  sender_authorized, claimable, take_claim, startable, start,
}
use ai_whats_app_shipment_as.Delivery.Finish.{
  Outcome, sent_as, not_sent, in_doubt, finishable, interruptible, failure_policy,
}
use ai_whats_app_shipment_as.Delivery.Payload.{
  Draft, Raised, Payload, Prepared, ready, broken, Services, prepare,
}
use ai_whats_app_shipment_as.Delivery.Attempt.{
  World, Reply, accepted, raised, cancelled, failure_code,
}

pub startable-take_claim :
    (now later : ℕ) (retry : Bool) (expected : Option String) (token : String) (ticket : Ticket)
    (m : Message)
    → claimable now retry expected ticket m ≡ true
    → later ≤ now + delivery_lease
    → startable later token ticket (take_claim now token m) ≡ true
unfolding claimable startable take_claim sender_authorized
startable-take_claim now later retry expected token ticket m g h =
    ground (arith, eq_iff token token)

-- A row that the token holds, between its claim and its outcome.
module _ (now later : ℕ) (token : String) (m : Message) (h : later ≤ now + delivery_lease) where
  pub finishable-take_claim :
      (e : Option String) (c : Option ℕ) (b : Bool)
      → finishable later token (not_sent e c b) (take_claim now token m) ≡ true
  unfolding finishable take_claim
  finishable-take_claim e c b = ground (arith, eq_iff token token)

  pub interruptible-take_claim :
      (retry : Bool) (expected : Option String) (ticket : Ticket)
      → claimable now retry expected ticket m ≡ true
      → interruptible later token (take_claim now token m) ≡ true
  unfolding interruptible take_claim claimable
  interruptible-take_claim retry expected ticket g = ground (arith, eq_iff token token)

  pub finishable-start :
      (before : ℕ) (outcome : Outcome)
      → finishable later token outcome (start now (take_claim before token m)) ≡ true
  unfolding finishable start take_claim
  finishable-start before (sent_as p) = ground (arith, eq_iff token token)
  finishable-start before (not_sent e c b) = ground (arith, eq_iff token token)
  finishable-start before (in_doubt e) = ground (arith, eq_iff token token)

  pub interruptible-start :
      (before : ℕ) (retry : Bool) (expected : Option String) (ticket : Ticket)
      → claimable before retry expected ticket m ≡ true
      → interruptible later token (start now (take_claim before token m)) ≡ true
  unfolding interruptible start take_claim claimable
  interruptible-start before retry expected ticket g = ground (arith, eq_iff token token)

-- What an attempt knows in the end, and the row that says so.
pub data Verdict : Type 0 where
  unsent : Verdict
  broke : Raised → Verdict
  confirmed : Payload → String → Verdict
  rejected : Payload → Raised → Verdict
  unknown : Payload → Verdict

-- the retry policy of a definite failure
unfoldable pub retry_policy : Raised → Bool
unfolding failure_policy
retry_policy e = elim (failure_code e) [ none ↦ true | some code ↦ (failure_policy (some code)).1 ]

abbrev Says : Message → SendStatus → Bool → Type 0
Says m status retry_safe = (m.send_status ≡ some status) × (m.delivery_retry_safe ≡ retry_safe)

abbrev pub Reflects : Verdict → Message → List Payload → Type 0
Reflects unsent m sends = Says m failed true × (sends ≡ [])
Reflects (broke e) m sends = Says m failed (retry_policy e) × (sends ≡ [])
Reflects (confirmed p provider_id) m sends =
    Says m sent false × (m.whatsapp_message_id ≡ some provider_id) × (sends ≡ p ∷ [])
Reflects (rejected p e) m sends = Says m failed (retry_policy e) × (sends ≡ p ∷ [])
Reflects (unknown p) m sends = Says m uncertain false × (sends ≡ p ∷ [])

unfoldable pub response_verdict : Payload → Option String → Verdict
response_verdict p none = unknown p
response_verdict p (some provider_id) =
    if str_eq provider_id "" then unknown p else confirmed p provider_id

unfoldable pub reply_verdict : Payload → Reply → Verdict
unfolding response_verdict
reply_verdict p (accepted provider_id) = response_verdict p provider_id
reply_verdict p (raised e) =
    if e.is_send_error && not e.delivery_uncertain then rejected p e else unknown p
reply_verdict p cancelled = unknown p

unfoldable pub prepared_verdict : World → Prepared → Verdict
unfolding reply_verdict
prepared_verdict w (broken e) = broke e
prepared_verdict w (ready p) = reply_verdict p (w.send p)

unfoldable pub verdict : World → Services → Draft → Verdict
unfolding prepared_verdict
verdict w services d = if w.cancelled_early then unsent else prepared_verdict w (prepare services d)
