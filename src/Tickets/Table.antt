-- ===== src/Tickets/Table.antt =====
-- Reads and writes of the ticket tables. `id` is the primary key, and active_key and
-- source_whatsapp_message_id have a UNIQUE index, which nulls do not meet.
use ai_whats_app_shipment_as.Prelude.{
  ℕ, ◌+◌, String, Bool, not, ◌&&◌, Option, none, some, List, [], ◌∷◌, ◌++◌, any, ◌==◌, eq_sql,
  str_eq, if◌then◌else◌,
}
use ai_whats_app_shipment_as.Delivery.Finish.{fence_deliveries_for_lifecycle}
use ai_whats_app_shipment_as.Tickets.Model.{
  Ticket, EventType, ActorType, Details, Staff, Line, State,
}

unfoldable pub find_ticket : ℕ → List Ticket → Option Ticket
find_ticket id [] = none
find_ticket id (t ∷ ts) = if t.id == id then some t else find_ticket id ts

-- UPDATE support_tickets SET ... WHERE id = %s, on a row that the transaction has locked
unfoldable pub set_ticket : ℕ → Ticket → List Ticket → List Ticket
set_ticket id row [] = []
set_ticket id row (t ∷ ts) = if t.id == id then row ∷ ts else t ∷ set_ticket id row ts

unfoldable pub delete_ticket : ℕ → List Ticket → List Ticket
delete_ticket id [] = []
delete_ticket id (t ∷ ts) = if t.id == id then ts else t ∷ delete_ticket id ts

abbrev pub has_key : String → Ticket → Bool
has_key key t = eq_sql t.active_key (some key)

-- active_key=%s AND id<>%s
unfoldable pub key_taken : String → ℕ → List Ticket → Bool
key_taken key id ts = any (λ t. has_key key t && not (t.id == id)) ts

unfoldable pub find_staff : String → List Staff → Option Staff
find_staff id [] = none
find_staff id (s ∷ ss) = if str_eq s.id id then some s else find_staff id ss

unfoldable pub find_line : String → List Line → Option Line
find_line id [] = none
find_line id (l ∷ ls) = if str_eq l.phone_number_id id then some l else find_line id ls

-- INSERT INTO support_ticket_events
unfoldable pub add_event :
    ℕ → ℕ → EventType → ActorType → Option String → Option String → Details → State → State
add_event now ticket_id kind actor_type actor_id actor_name details s = record s {
  events =
      s.events
      ++ (record {
        id = s.next_event;
        ticket_id = ticket_id;
        event_type = kind;
        actor_type = actor_type;
        actor_id = actor_id;
        actor_name = actor_name;
        details = details;
        created_at = now;
      }
          ∷ []);
  next_event = s.next_event + 1;
}

unfoldable pub put_ticket : ℕ → Ticket → State → State
put_ticket id row s = record s { tickets = set_ticket id row s.tickets }

-- _fence_deliveries_for_lifecycle; a refusal is followed by a rollback
unfoldable pub fence : ℕ → (ℕ → String) → ℕ → State → State × Bool
fence now uuid ticket_id s =
    let (db, passed) =
      fence_deliveries_for_lifecycle now uuid ticket_id
        (record { messages = s.messages; tickets = []; events = [] }) in
    (record s { messages = db.messages }, passed)
