-- ===== src/Receipts/Model.antt =====
-- apply_delivery_status of app/support_repository.py: a callback of the provider on a message that
-- was handed to it. Instants are microseconds.
use ai_whats_app_shipment_as.Prelude.{
  ℕ, String, Bool, true, false, not, ◌&&◌, ◌||◌, Option, none, some, List, [], ◌∷◌, codes, is_none,
  is_some, eq_sql, ltb, str_eq, truthy, if◌then◌else◌,
}
use ai_whats_app_shipment_as.Delivery.Message.{
  SendStatus, sent, failed, SenderType, Direction, is_outbound,
}
use ai_whats_app_shipment_as.Delivery.ContactForward.{after_prefix}
use ai_whats_app_shipment_as.Delivery.Finish.{failure_policy, is_agent}

-- The statuses of DELIVERY_STATUS_RANK.
pub data Status : Type 0 where
  delivered read played : Status

-- DELIVERY_STATUS_RANK
abbrev pub rank : Status → ℕ
rank delivered = 1
rank read = 2
rank played = 3

-- a message without a status has rank 0
abbrev pub rank_of : Option Status → ℕ
rank_of none = 0
rank_of (some s) = rank s

-- A row of support_ticket_messages joined with its ticket, with the columns of the statement.
pub record Row : Type 0 where
  pub whatsapp_message_id : Option String
  pub direction : Direction
  pub sender_type : SenderType
  pub send_status : Option SendStatus
  pub delivery_retry_safe : Bool
  pub read_sync_pending : Bool
  pub error_message : Option String
  pub delivery_status : Option Status
  pub delivered_at : Option ℕ
  pub read_at : Option ℕ
  pub updated_at : ℕ
  pub ticket_line_id : Option String
  pub ticket_phone : Option String

-- What a callback says: `status` is none for "failed".
pub record Receipt : Type 0 where
  pub whatsapp_message_id : String
  pub status : Option Status
  pub at : ℕ
  pub business_phone_number_id : Option String
  pub phone_number : Option String
  pub failure_code : Option ℕ

abbrev text_of : Option String → String
text_of none = ""
text_of (some s) = s

-- the receipt names no other line and no other customer
unfoldable pub concerns : Receipt → Row → Bool
concerns r row =
    (not (truthy r.business_phone_number_id)
      || str_eq (text_of row.ticket_line_id) ""
      || str_eq (text_of row.ticket_line_id) (text_of r.business_phone_number_id))
    && (not (truthy r.phone_number) || str_eq (text_of row.ticket_phone) (text_of r.phone_number))

-- str(error_message or "").startswith("WhatsApp 131047:")
unfoldable pub is_blocked : Option String → Bool
unfolding after_prefix
is_blocked error = is_some (after_prefix (codes "WhatsApp 131047:") (codes (text_of error)))

abbrev is_failed_row : Option SendStatus → Bool
is_failed_row (some failed) = true
is_failed_row _ = false

abbrev pub is_sent : Option SendStatus → Bool
is_sent (some sent) = true
is_sent _ = false

abbrev differ : Bool → Bool → Bool
differ true b = not b
differ false b = b

-- a failure that is news, on a message that was never delivered
unfoldable pub is_news : String → Bool → Option ℕ → Row → Bool
is_news error retry_safe failure_code row =
    (is_some failure_code || not (is_blocked row.error_message))
    && (not (is_failed_row row.send_status)
        || not (eq_sql row.error_message (some error))
        || differ row.delivery_retry_safe retry_safe)

unfoldable pub set_failed : ℕ → String → Bool → Row → Row
set_failed now error retry_safe row = record row {
  send_status = some failed;
  delivery_retry_safe = retry_safe;
  read_sync_pending = false;
  error_message = some error;
  updated_at = now;
}

-- COALESCE
abbrev or_now : Option ℕ → ℕ → Option ℕ
or_now none at = some at
or_now (some t) at = some t

abbrev is_seen : Status → Bool
is_seen delivered = false
is_seen _ = true

-- send_status <> 'SENT', which a null is not
abbrev is_other : Option SendStatus → Bool
is_other none = false
is_other (some s) = not (is_sent (some s))

unfoldable pub set_status : Status → ℕ → Row → Row
set_status status at row = record row {
  delivery_status = some status;
  delivered_at = or_now row.delivered_at at;
  read_at = (if is_seen status then or_now row.read_at at else row.read_at);
  error_message = (if is_sent row.send_status then row.error_message else none);
  read_sync_pending =
      (if is_other row.send_status && is_agent row.sender_type
        then true
        else row.read_sync_pending);
  send_status = some sent;
}

-- the row after the callback, and whether it changed
unfoldable pub judged : ℕ → Option Status → Option ℕ → ℕ → Row → Row × Bool
judged now none failure_code at row =
    let (error, retry_safe) = failure_policy failure_code in
    if is_none row.delivery_status && is_news error retry_safe failure_code row
    then (set_failed now error retry_safe row, true)
    else (row, false)
judged now (some status) failure_code at row =
    if ltb (rank_of row.delivery_status) (rank status)
    then (set_status status at row, true)
    else (row, false)

abbrev pub updated : ℕ → Receipt → Row → Row × Bool
updated now r row = judged now r.status r.failure_code r.at row

abbrev pub is_outgoing : String → Row → Bool
is_outgoing id row = eq_sql row.whatsapp_message_id (some id) && is_outbound row.direction

-- The first row with the provider's id is locked and updated; none where it concerns no message.
unfoldable pub apply_delivery_status : ℕ → Receipt → List Row → List Row × Option (Row × Bool)
apply_delivery_status now r [] = ([], none)
apply_delivery_status now r (row ∷ rows) =
    let (rest, answer) = apply_delivery_status now r rows in
    let (after, changed) = updated now r row in
    if is_outgoing r.whatsapp_message_id row
    then (if concerns r row then (after ∷ rows, some (after, changed)) else (row ∷ rows, none))
    else (row ∷ rest, answer)

unfoldable pub find_outgoing : String → List Row → Option Row
find_outgoing id [] = none
find_outgoing id (row ∷ rows) = if is_outgoing id row then some row else find_outgoing id rows

-- callbacks in the order of their transactions, each with its time
unfoldable pub run : List (ℕ × Receipt) → List Row → List Row
run [] rows = rows
run ((now, r) ∷ rs) rows = run rs (apply_delivery_status now r rows).0
