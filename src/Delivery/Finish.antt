-- ===== src/Delivery/Finish.antt =====
-- finish_delivery, interrupt_delivery, recover_abandoned_deliveries, expire_held_replies and
-- _fence_deliveries_for_lifecycle of app/support_delivery_repository.py, and failure_policy of
-- app/whatsapp_failures.py.
use Prim.Native.String.{◌++◌ as text_append}
use ai_whats_app_shipment_as.Prelude.{
  decimal, ℕ, ◌+◌, String, Bool, true, false, ◌&&◌, ◌||◌, Option, none, some, count_if, any,
  is_none, is_some, eq_sql, ltb, leb, ◌==◌, if◌then◌else◌,
}
use ai_whats_app_shipment_as.Delivery.Message.{
  Message, Db, SendStatus, SenderType, sent, uncertain, failed, held_reply, lease_live, is_pending,
  is_dispatching, is_uncertain, is_failed, is_outbound,
}
use ai_whats_app_shipment_as.Delivery.Table.{update_row, update_where}
use ai_whats_app_shipment_as.Delivery.Claim.{quarantined, quarantine}

-- The text of a provider error, and whether the failed attempt may be retried.
unfoldable pub failure_policy : Option ℕ → String × Bool
unfolding decimal
failure_policy none = ("WhatsApp reported delivery failed. Retry is available.", true)
failure_policy (some code) =
    if code == 131047
    then (
      "WhatsApp 131047: This number's 24-hour reply window is closed. Ask the customer to message this business number before sending a new message, or use an approved Meta template. This failed attempt cannot be retried.",
      false,
    )
    else if ltb 0 code && ltb code 10000000
    then (
      text_append "WhatsApp " (
          text_append (decimal code)
            ": Delivery failed. Check the provider error before retrying."),
      true,
    )
    else ("WhatsApp reported delivery failed. Retry is available.", true)

-- The three outcomes that `deliver` reports.
pub data Outcome : Type 0 where
  sent_as : String → Outcome
  not_sent : Option String → Option ℕ → Bool → Outcome
  in_doubt : Option String → Outcome

abbrev pub outcome_status : Outcome → SendStatus
outcome_status (sent_as _) = sent
outcome_status (not_sent _ _ _) = failed
outcome_status (in_doubt _) = uncertain

abbrev pub outcome_provider_id : Outcome → Option String
outcome_provider_id (sent_as provider_id) = some provider_id
outcome_provider_id _ = none

outcome_retry_safe : Outcome → Bool
unfolding failure_policy
outcome_retry_safe (not_sent error (some code) held) = (failure_policy (some code)).1
outcome_retry_safe (not_sent error none held) = true
outcome_retry_safe _ = false

outcome_error : Outcome → Option String
unfolding failure_policy
outcome_error (sent_as _) = none
outcome_error (not_sent error (some code) held) = some (failure_policy (some code)).0
outcome_error (not_sent error none held) = error
outcome_error (in_doubt error) = error

abbrev is_held : Outcome → Bool
is_held (not_sent error code held) = held
is_held _ = false

-- the WHERE clause of finish_delivery
unfoldable pub finishable : ℕ → String → Outcome → Message → Bool
finishable now token (sent_as _) m =
    eq_sql m.delivery_token (some token)
    && (is_dispatching m.send_status || is_uncertain m.send_status)
finishable now token outcome m =
    eq_sql m.delivery_token (some token)
    && ((is_pending m.send_status || is_dispatching m.send_status)
        && lease_live now m.delivery_claimed_at)

-- COALESCE
abbrev pub or_else {ℓ} : {A : Type ℓ} → Option A → Option A → Option A
or_else none b = b
or_else (some a) b = some a

abbrev pub is_agent : SenderType → Bool
is_agent SenderType.agent = true
is_agent _ = false

abbrev is_sent_as : Outcome → Bool
is_sent_as (sent_as _) = true
is_sent_as _ = false

unfoldable pub finish : ℕ → Outcome → Message → Message
unfolding outcome_retry_safe outcome_error
finish now outcome m = record m {
  send_status = some (outcome_status outcome);
  whatsapp_message_id = or_else (outcome_provider_id outcome) m.whatsapp_message_id;
  read_sync_pending =
      (if is_sent_as outcome && is_agent m.sender_type then true else m.read_sync_pending);
  error_message = outcome_error outcome;
  delivery_retry_safe = outcome_retry_safe outcome;
  held_until =
      (if is_held outcome && outcome_retry_safe outcome
        then or_else m.held_until (some (now + held_reply))
        else none);
  updated_at = now;
}

unfoldable pub finish_delivery : ℕ → String → Outcome → ℕ → Db → Db
finish_delivery now token outcome message_id db = record db {
  messages = update_row message_id (finishable now token outcome) (finish now outcome) db.messages;
}

unfoldable pub interruptible : ℕ → String → Message → Bool
interruptible now token m =
    eq_sql m.delivery_token (some token)
    && is_outbound m.direction
    && (is_dispatching m.send_status
        || (is_pending m.send_status
            && is_none m.delivery_started_at
            && lease_live now m.delivery_claimed_at))

unfoldable pub interrupt : ℕ → Message → Message
interrupt now m = record m {
  delivery_retry_safe = is_pending m.send_status;
  error_message =
      (if is_pending m.send_status
        then some "Preparation interrupted; retry is available."
        else some "Delivery confirmation was interrupted; do not resend.");
  send_status = (if is_pending m.send_status then some failed else some uncertain);
  updated_at = now;
}

unfoldable pub interrupt_delivery : ℕ → String → ℕ → Db → Db
interrupt_delivery now token message_id db = record db {
  messages = update_row message_id (interruptible now token) (interrupt now) db.messages;
}

unfoldable pub recover : ℕ → Message → Message
unfolding quarantine
recover now m = record (quarantine m) { updated_at = now }

-- Every lost dispatch becomes uncertain; the result is how many.
unfoldable pub recover_abandoned_deliveries : ℕ → Db → Db × ℕ
recover_abandoned_deliveries now db = (
  record db { messages = update_where (quarantined now) (recover now) db.messages },
  count_if (quarantined now) db.messages,
)

unfoldable pub hold_expired : ℕ → Message → Bool
hold_expired now m =
    is_failed m.send_status && elim m.held_until [ none ↦ false | some until ↦ leb until now ]

unfoldable pub end_hold : ℕ → Message → Message
end_hold now m = record m { held_until = none; updated_at = now }

-- The rows whose hold has run out; the source also returns their tickets.
unfoldable pub expire_held_replies : ℕ → Db → Db
expire_held_replies now db = record db {
  messages = update_where (hold_expired now) (end_hold now) db.messages;
}

-- Work on the ticket's messages that a lifecycle change must wait for.
unfoldable pub blocks_lifecycle : ℕ → ℕ → Message → Bool
blocks_lifecycle now ticket_id m =
    m.ticket_id == ticket_id
    && is_outbound m.direction
    && (is_dispatching m.send_status
        || (is_pending m.send_status
            && is_some m.delivery_token
            && (is_none m.delivery_claimed_at || lease_live now m.delivery_claimed_at)))

unfoldable pub idle_preparation : ℕ → Message → Bool
idle_preparation ticket_id m =
    m.ticket_id == ticket_id && is_outbound m.direction && is_pending m.send_status

-- the token of a fenced row is drawn by the database
unfoldable pub fence : ℕ → String → Message → Message
fence now token m = record m {
  send_status = some failed;
  delivery_retry_safe = true;
  delivery_token = some token;
  error_message = some "Not sent; conversation changed before dispatch. Explicit retry required.";
  updated_at = now;
}

-- The UUID of each row is a function of its id here.
unfoldable pub fence_deliveries_for_lifecycle : ℕ → (ℕ → String) → ℕ → Db → Db × Bool
fence_deliveries_for_lifecycle now uuid ticket_id db =
    if any (blocks_lifecycle now ticket_id) db.messages then (db, false) else (
      record db {
        messages =
            update_where (idle_preparation ticket_id) (λ m. fence now (uuid m.id) m) db.messages;
      },
      true,
    )
