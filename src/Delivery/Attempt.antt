-- ===== src/Delivery/Attempt.antt =====
-- `deliver` and `_deliver_claimed` of app/support_delivery.py: one attempt to send a message.
-- Between its database calls other tasks commit theirs: `others n` is what they do to the database
-- before the n-th call, and `clock n` is the time that the call reads.
use ai_whats_app_shipment_as.Prelude.{
  ℕ, zero, String, Bool, true, false, not, ◌&&◌, ◌||◌, Option, none, some, List, [], ◌∷◌, str_eq,
  if◌then◌else◌,
}
use ai_whats_app_shipment_as.Delivery.Message.{Db}
use ai_whats_app_shipment_as.Delivery.Claim.{claim_delivery, begin_delivery}
use ai_whats_app_shipment_as.Delivery.Finish.{
  Outcome, sent_as, not_sent, in_doubt, finish_delivery, interrupt_delivery,
}
use ai_whats_app_shipment_as.Delivery.Payload.{
  Draft, Raised, Payload, Prepared, ready, broken, Services, prepare,
}

-- The transport's answer to a send: the provider id of its response, or an exception. A task can
-- also be cancelled there.
pub data Reply : Type 0 where
  accepted : Option String → Reply
  raised : Raised → Reply
  cancelled : Reply

pub record World : Type 0 where
  pub others : ℕ → Db → Db
  pub clock : ℕ → ℕ
  -- uuid4
  pub token : String
  -- cancellation of the task while it prepares
  pub cancelled_early : Bool
  pub send : Payload → Reply

-- The bridge refusals after which a reply is held for its line.
abbrev is_hold_code : Option String → Bool
is_hold_code none = false
is_hold_code (some code) =
    str_eq code "NOT_CONNECTED"
    || str_eq code "BRIDGE_UNAVAILABLE"
    || str_eq code "BRIDGE_INITIALIZING"
    || str_eq code "STORAGE_PRESSURE"
    || str_eq code "STOPPING"
    || str_eq code "MEDIA_UPLOAD_BUSY"

-- `exc.provider_code` where it is truthy
abbrev pub failure_code : Raised → Option ℕ
failure_code e =
    if e.is_send_error
    then elim e.provider_code [ none ↦ none | some zero ↦ none | some code ↦ some code ]
    else none

-- Only a failure before the provider call, or a definite rejection, leaves the reply retryable.
unfoldable pub is_safe : Bool → Raised → Bool
is_safe started e = not started || (e.is_send_error && not e.delivery_uncertain)

unfoldable pub failure : Bool → Raised → Outcome
unfolding is_safe
failure started e =
    if is_safe started e
    then not_sent (some "Not sent; retry is available.") (failure_code e)
        (is_hold_code e.bridge_code)
    else in_doubt (some "Delivery is uncertain; do not resend.")

abbrev pub unconfirmed : Raised
unconfirmed = record {
  is_send_error = true;
  delivery_uncertain = true;
  provider_code = none;
  bridge_code = none;
}

-- the provider id of a response, if it is not empty
unfoldable pub outcome_of_response : Option String → Outcome
unfolding failure
outcome_of_response none = failure true unconfirmed
outcome_of_response (some provider_id) =
    if str_eq provider_id "" then failure true unconfirmed else sent_as provider_id

module _ (w : World) (d : Draft) where
  -- After the provider call: record what is known of it.
  unfoldable pub record_reply : String → Reply → Db → Db
  record_reply token (accepted provider_id) db =
      finish_delivery (w.clock 2) token (outcome_of_response provider_id) d.message_id
        (w.others 2 db)
  record_reply token (raised e) db =
      finish_delivery (w.clock 2) token (failure true e) d.message_id (w.others 2 db)
  record_reply token cancelled db =
      interrupt_delivery (w.clock 2) token d.message_id (w.others 2 db)

  -- The list is what was handed to the provider.
  unfoldable pub hand_over : String → Payload → Bool → Db → Db × List Payload
  hand_over token p false db = (db, [])
  hand_over token p true db = (record_reply token (w.send p) db, p ∷ [])

  unfoldable pub after_preparation : String → Prepared → Db → Db × List Payload
  after_preparation token (broken e) db =
      (finish_delivery (w.clock 1) token (failure false e) d.message_id (w.others 1 db), [])
  after_preparation token (ready p) db =
      let (started, began) = begin_delivery (w.clock 1) token d.message_id (w.others 1 db) in
      hand_over token p began started

  unfoldable pub deliver_claimed : Services → String → Db → Db × List Payload
  deliver_claimed services token db =
      if w.cancelled_early
      then (interrupt_delivery (w.clock 1) token d.message_id (w.others 1 db), [])
      else after_preparation token (prepare services d) db

  unfoldable pub after_claim : Services → Option String → Db → Db × List Payload
  after_claim services none db = (db, [])
  after_claim services (some token) db = deliver_claimed services token db

  unfoldable pub deliver : Services → Bool → Db → Db × List Payload
  deliver services retry db =
      let (claimed, token) =
        claim_delivery (w.clock 0) retry d.delivery_token w.token d.message_id (w.others 0 db) in
      after_claim services token claimed
