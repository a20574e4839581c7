-- ===== src/Delivery/Message.antt =====
-- The rows that the delivery statements of app/support_delivery_repository.py read and write.
-- Instants and intervals are microseconds, as UTC_TIMESTAMP(6) has them.
use ai_whats_app_shipment_as.Prelude.{
  ℕ, ◌+◌, ◌*◌, String, Bool, true, false, Option, none, some, List, ltb, leb,
}

pub data SendStatus : Type 0 where
  pending dispatching sent uncertain failed : SendStatus

pub data Direction : Type 0 where
  inbound outbound internal : Direction

pub data SenderType : Type 0 where
  customer agent ai system : SenderType

pub data TicketStatus : Type 0 where
  new assigned in_progress waiting_customer waiting_internal resolved closed : TicketStatus

-- A row of support_ticket_messages, with the columns of the delivery statements.
pub record Message : Type 0 where
  pub id : ℕ
  pub ticket_id : ℕ
  pub direction : Direction
  pub sender_type : SenderType
  pub sender_id : Option String
  pub client_message_id : Option String
  pub is_forwarded : Bool
  pub forwarded_from_ticket_id : Option ℕ
  pub forwarded_from_message_id : Option ℕ
  pub deleted_for_everyone_at : Option ℕ
  pub whatsapp_message_id : Option String
  pub send_status : Option SendStatus
  pub delivery_token : Option String
  pub delivery_claimed_at : Option ℕ
  pub delivery_started_at : Option ℕ
  pub delivery_retry_safe : Bool
  pub error_message : Option String
  pub held_until : Option ℕ
  pub read_sync_pending : Bool
  pub created_at : ℕ
  pub updated_at : ℕ

-- A row of support_tickets, with the columns that decide who may send.
pub record Ticket : Type 0 where
  pub id : ℕ
  pub active_key : Option String
  pub status : TicketStatus
  pub current_assignee_id : Option String

-- A DELIVERY_RETRY row of support_ticket_events.
pub record RetryEvent : Type 0 where
  pub ticket_id : ℕ
  pub message_id : ℕ
  pub failed_provider_id : String
  pub created_at : ℕ

pub record Db : Type 0 where
  pub messages : List Message
  pub tickets : List Ticket
  pub events : List RetryEvent

abbrev pub minute : ℕ
minute = 60 * 1000000

abbrev pub delivery_lease : ℕ
delivery_lease = 5 * minute

abbrev pub held_reply : ℕ
held_reply = 30 * minute

-- delivery_claimed_at < UTC_TIMESTAMP(6) - INTERVAL 5 MINUTE; a null claims nothing
abbrev pub lease_expired : ℕ → Option ℕ → Bool
lease_expired now none = false
lease_expired now (some at) = ltb (at + delivery_lease) now

-- delivery_claimed_at >= UTC_TIMESTAMP(6) - INTERVAL 5 MINUTE
abbrev pub lease_live : ℕ → Option ℕ → Bool
lease_live now none = false
lease_live now (some at) = leb now (at + delivery_lease)

abbrev pub is_pending : Option SendStatus → Bool
is_pending (some pending) = true
is_pending _ = false

abbrev pub is_dispatching : Option SendStatus → Bool
is_dispatching (some dispatching) = true
is_dispatching _ = false

abbrev pub is_uncertain : Option SendStatus → Bool
is_uncertain (some uncertain) = true
is_uncertain _ = false

abbrev pub is_failed : Option SendStatus → Bool
is_failed (some failed) = true
is_failed _ = false

abbrev pub is_outbound : Direction → Bool
is_outbound outbound = true
is_outbound _ = false

-- The states in which the ticket's assignee may answer.
abbrev pub is_reply_status : TicketStatus → Bool
is_reply_status assigned = true
is_reply_status in_progress = true
is_reply_status waiting_customer = true
is_reply_status waiting_internal = true
is_reply_status _ = false

-- The states in which a forwarded contact may be sent.
abbrev pub is_forward_status : TicketStatus → Bool
is_forward_status new = true
is_forward_status status = is_reply_status status
