-- ===== src/Delivery/Claim.antt =====
-- _lock_delivery_ticket, claim_delivery and begin_delivery of app/support_delivery_repository.py.
-- Each runs in one transaction that holds the ticket's row lock, so it is one atomic step. The
-- token of a claim is an argument: the source draws it by uuid4.
use ai_whats_app_shipment_as.Prelude.{
  ℕ, String, Bool, true, false, ◌&&◌, ◌||◌, Option, none, some, List, [], ◌∷◌, ◌++◌, is_none,
  eq_sql, eq_null_safe, truthy, if◌then◌else◌,
}
use ai_whats_app_shipment_as.Delivery.Message.{
  Message, Ticket, RetryEvent, Db, SenderType, pending, dispatching, uncertain, lease_expired,
  lease_live, is_pending, is_dispatching, is_failed, is_outbound, is_reply_status,
  is_forward_status,
}
use ai_whats_app_shipment_as.Delivery.ContactForward.{is_contact_forward}
use ai_whats_app_shipment_as.Delivery.Table.{find_message, find_ticket, update_row, row_matches}

-- The ticket of a message, if both rows are there.
unfoldable pub lock_delivery_ticket : Db → ℕ → Option Ticket
lock_delivery_ticket db message_id = elim (find_message message_id db.messages) [
  | none ↦ none
  | some m ↦ find_ticket m.ticket_id db.tickets
]

may_reply : Ticket → Bool
may_reply ticket = truthy ticket.active_key && is_reply_status ticket.status

may_forward : Ticket → Bool
may_forward ticket = truthy ticket.active_key && is_forward_status ticket.status

-- the clause on sender_type that both statements end with
unfoldable pub sender_authorized : Ticket → Message → Bool
unfolding may_reply may_forward
sender_authorized ticket m = elim m.sender_type [
  | SenderType.system ↦ true
  | SenderType.agent ↦
      (eq_sql m.sender_id ticket.current_assignee_id && may_reply ticket)
      || (may_forward ticket
          && truthy m.sender_id
          && m.is_forwarded
          && is_contact_forward m.client_message_id m.forwarded_from_ticket_id
              m.forwarded_from_message_id)
  | _ ↦ false
]

-- A dispatch that is past its lease is never claimed again: it becomes uncertain.
unfoldable pub quarantined : ℕ → Message → Bool
quarantined now m = is_dispatching m.send_status && lease_expired now m.delivery_claimed_at

unfoldable pub quarantine : Message → Message
quarantine m = record m {
  send_status = some uncertain;
  error_message = some "Delivery confirmation was lost; do not resend.";
}

retryable : Bool → Message → Bool
retryable retry m = retry && is_failed m.send_status && m.delivery_retry_safe

-- the WHERE clause of the claim
unfoldable pub claimable : ℕ → Bool → Option String → Ticket → Message → Bool
unfolding retryable
claimable now retry expected_token ticket m =
    is_outbound m.direction
    && is_none m.deleted_for_everyone_at
    && (is_none m.whatsapp_message_id || retryable retry m)
    && ((is_pending m.send_status
          && is_none m.delivery_started_at
          && (is_none m.delivery_token || lease_expired now m.delivery_claimed_at))
        || (retryable retry m && eq_null_safe m.delivery_token expected_token))
    && sender_authorized ticket m

unfoldable pub take_claim : ℕ → String → Message → Message
take_claim now token m = record m {
  whatsapp_message_id = none;
  send_status = some pending;
  delivery_token = some token;
  delivery_claimed_at = some now;
  delivery_started_at = none;
  delivery_retry_safe = false;
  error_message = none;
}

-- the provider id that a claim is about to clear
unfoldable pub prior_provider_id : ℕ → List Message → Option String
prior_provider_id message_id ms = elim (find_message message_id ms) [
  | none ↦ none
  | some m ↦ m.whatsapp_message_id
]

-- the DELIVERY_RETRY event, written where a claim cleared a provider id
unfoldable pub retry_events : ℕ → Ticket → ℕ → Bool → Option String → List RetryEvent
retry_events now ticket message_id claimed none = []
retry_events now ticket message_id claimed (some provider_id) =
    if claimed && truthy (some provider_id)
    then (record {
      ticket_id = ticket.id;
      message_id = message_id;
      failed_provider_id = provider_id;
      created_at = now;
    })
      ∷ []
    else []

claim_under_lock : ℕ → Bool → Option String → String → ℕ → Ticket → Db → Db × Option String
claim_under_lock now retry expected_token token message_id ticket db =
    let fenced = update_row message_id (quarantined now) quarantine db.messages in
    let prior = prior_provider_id message_id fenced in
    let guard = claimable now retry expected_token ticket in
    let claimed = row_matches message_id guard fenced in
    let after = record db {
      messages = update_row message_id guard (take_claim now token) fenced;
      events = db.events ++ retry_events now ticket message_id claimed prior;
    } in
    (after, if claimed then some token else none)

unfoldable pub claim_delivery : ℕ → Bool → Option String → String → ℕ → Db → Db × Option String
unfolding claim_under_lock
claim_delivery now retry expected_token token message_id db =
    elim (lock_delivery_ticket db message_id) [
      | none ↦ (db, none)
      | some ticket ↦ claim_under_lock now retry expected_token token message_id ticket db
    ]

-- the WHERE clause of the step across the provider boundary
unfoldable pub startable : ℕ → String → Ticket → Message → Bool
startable now token ticket m =
    eq_sql m.delivery_token (some token)
    && is_pending m.send_status
    && is_outbound m.direction
    && is_none m.deleted_for_everyone_at
    && is_none m.whatsapp_message_id
    && is_none m.delivery_started_at
    && lease_live now m.delivery_claimed_at
    && sender_authorized ticket m

unfoldable pub start : ℕ → Message → Message
start now m = record m {
  send_status = some dispatching;
  delivery_started_at = some now;
  delivery_claimed_at = some now;
}

unfoldable pub begin_delivery : ℕ → String → ℕ → Db → Db × Bool
begin_delivery now token message_id db = elim (lock_delivery_ticket db message_id) [
  | none ↦ (db, false)
  | some ticket ↦ (
    record db {
      messages = update_row message_id (startable now token ticket) (start now) db.messages;
    },
    row_matches message_id (startable now token ticket) db.messages,
  )
]
