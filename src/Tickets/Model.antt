-- ===== src/Tickets/Model.antt =====
-- The tables that the ticket operations of app/support_repository.py read and write, and the guards
-- of app/support_models.py. Instants are microseconds. A staff id is the decimal text that the
-- source compares; `int` and `str` keep it.
use Prim.Native.String.{◌++◌ as text_append}
use ai_whats_app_shipment_as.Prelude.{
  ℕ, String, Bool, true, false, not, ◌&&◌, ◌||◌, Option, none, some, List, str_eq, truthy,
  if◌then◌else◌,
}
use ai_whats_app_shipment_as.Delivery.Message.{
  TicketStatus, new, assigned, in_progress, waiting_customer, waiting_internal, resolved, closed,
  Message,
}

-- conversation_origin
pub data Origin : Type 0 where
  customer staff : Origin

-- The columns that no operation tests.
pub record Profile : Type 0 where
  pub ticket_reference : String
  pub customer_id : Option String
  pub customer_userid : Option String
  pub customer_name : Option String
  pub reason : String
  pub ai_summary : String
  pub tracking_reference : Option String
  pub requested_action : Option String
  pub current_language : Option String
  pub communication_style : Option String
  pub context_json : String

-- A row of support_tickets.
pub record Ticket : Type 0 where
  pub id : ℕ
  pub profile : Profile
  pub active_key : Option String
  pub whatsapp_phone : String
  pub business_phone_number_id : Option String
  pub business_display_phone_number : Option String
  pub conversation_origin : Origin
  pub initiated_by_staff_id : Option String
  pub initiated_by_staff_name : Option String
  pub source_whatsapp_message_id : Option String
  pub status : TicketStatus
  pub current_assignee_id : Option String
  pub current_assignee_name : Option String
  pub created_at : ℕ
  pub updated_at : ℕ
  pub last_activity_at : ℕ
  pub assigned_at : Option ℕ
  pub resolved_at : Option ℕ
  pub resolved_by_staff_id : Option String
  pub closed_at : Option ℕ

-- event_type; the last three are written when a removed line comes back, or were in the past
pub data EventType : Type 0 where
  ticket_created ticket_claimed ticket_transferred ticket_resolved ticket_reopened chat_started
        chat_reopened chat_closed status_changed customer_replied returned_to_ai ticket_closed
        ticket_restored chat_restored :
      EventType

pub data ActorType : Type 0 where
  system agent customer : ActorType

-- details_json, with the keys that each event has
pub data Details : Type 0 where
  empty : Details
  created : (reason : String) (source_whatsapp_message_id : Option String) → Details
  transfer :
      (from_agent_id from_agent_name to_agent_id to_agent_name : String)
      (previous_status : TicketStatus)
      → Details
  change : (from to : TicketStatus) → Details
  resolution : (previous_status : TicketStatus) (last_assignee_id : Option String) → Details
  idle : (idle_minutes : ℕ) → Details
  reopening :
      (restored_status : TicketStatus) (last_assignee_id : Option String)
      (current_assignee_id : String) (resolved_by_staff_id : Option String) (resolved_at : Option ℕ)
      → Details

-- A row of support_ticket_events.
pub record Event : Type 0 where
  pub id : ℕ
  pub ticket_id : ℕ
  pub event_type : EventType
  pub actor_type : ActorType
  pub actor_id : Option String
  pub actor_name : Option String
  pub details : Details
  pub created_at : ℕ

-- A row of staff.
pub record Staff : Type 0 where
  pub id : String
  pub name : String
  pub is_active : Bool

-- What get_transport says of a line.
pub data Transport : Type 0 where
  cloud linked_device removed : Transport

-- A row of whatsapp_phone_numbers.
pub record Line : Type 0 where
  pub phone_number_id : String
  pub is_linked_device : Bool
  pub is_enabled : Bool
  pub provider_present : Bool
  pub removed_at : Option ℕ

-- The tables. Ids are drawn in order; `removals` are the lines whose removal is in the audit.
pub record State : Type 0 where
  pub tickets : List Ticket
  pub messages : List Message
  pub events : List Event
  pub staff : List Staff
  pub lines : List Line
  pub removals : List String
  pub transport : String → Transport
  pub next_ticket : ℕ
  pub next_event : ℕ

-- SupportNotFoundError and SupportConflictError, an IntegrityError that is raised again, and
-- SupportRepositoryError
pub data Error : Type 0 where
  not_found conflict integrity repository assertion : Error

pub data Result {ℓ} (A : Type ℓ) : Type ℓ where
  ok : A → Result A
  raised : Error → Result A

-- str(value or "")
abbrev pub text_of : Option String → String
text_of none = ""
text_of (some s) = s

-- ACTIVE_TICKET_STATUSES
abbrev pub is_active_status : TicketStatus → Bool
is_active_status resolved = false
is_active_status closed = false
is_active_status _ = true

abbrev pub is_new : TicketStatus → Bool
is_new new = true
is_new _ = false

abbrev pub is_staff_chat : Origin → Bool
is_staff_chat staff = true
is_staff_chat customer = false

-- ALLOWED_TRANSITIONS
unfoldable pub allowed_transition : TicketStatus → TicketStatus → Bool
allowed_transition new assigned = true
allowed_transition assigned in_progress = true
allowed_transition assigned waiting_customer = true
allowed_transition assigned waiting_internal = true
allowed_transition in_progress waiting_customer = true
allowed_transition in_progress waiting_internal = true
allowed_transition waiting_customer in_progress = true
allowed_transition waiting_customer waiting_internal = true
allowed_transition waiting_internal in_progress = true
allowed_transition waiting_internal waiting_customer = true
allowed_transition resolved closed = true
allowed_transition _ _ = false

unfoldable pub may_reopen_customer_ticket : Ticket → String → Bool → Bool
may_reopen_customer_ticket t staff_id supervisor =
    not (is_staff_chat t.conversation_origin)
    && (supervisor
        || (str_eq (text_of t.current_assignee_id) staff_id
            && str_eq (text_of t.resolved_by_staff_id) staff_id))

-- _ticket_active_key; `strip` is the string method
unfoldable pub ticket_active_key : (String → String) → String → Option String → String
ticket_active_key strip phone line =
    let business_id = strip (text_of line) in
    if truthy (some business_id) then text_append business_id (text_append ":" phone) else phone
