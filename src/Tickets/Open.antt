-- ===== src/Tickets/Open.antt =====
-- How conversations come and go: find_active_ticket_by_phone, get_ticket_by_source_message,
-- create_ticket, create_staff_chat, bind_ticket_channel, delete_history_ticket and
-- delete_staff_chat of app/support_repository.py.
use ai_whats_app_shipment_as.Prelude.{
  ℕ, ◌+◌, String, Bool, true, false, not, ◌&&◌, ◌||◌, Option, none, some, List, [], ◌∷◌, ◌++◌, any,
  is_none, is_some, eq_sql, ◌==◌, str_eq, truthy, if◌then◌else◌,
}
use ai_whats_app_shipment_as.Delivery.Message.{Message, new, assigned}
use ai_whats_app_shipment_as.Tickets.Model.{
  Origin, Profile, Ticket, ticket_created, chat_started, Event, ActorType, Details, State,
  not_found, conflict, integrity, repository, Result, ok, raised, text_of, is_active_status,
  is_staff_chat, ticket_active_key,
}
use ai_whats_app_shipment_as.Tickets.Table.{
  find_ticket, delete_ticket, has_key, key_taken, add_event, put_ticket,
}
use ai_whats_app_shipment_as.Tickets.Lifecycle.{Actor, locked, refused, agent_event}
use ai_whats_app_shipment_as.Tickets.Reopen.{line_available}

-- ORDER BY id DESC LIMIT 1; the rows stand in the order of their ids
unfoldable pub find_last : (Ticket → Bool) → List Ticket → Option Ticket
find_last p [] = none
find_last p (t ∷ ts) =
    let rest = find_last p ts in elim rest [ some u ↦ some u | none ↦ if p t then some t else none ]

-- the WHERE clauses of find_active_ticket_by_phone
unfoldable pub is_thread : String → Option String → Bool → Ticket → Bool
is_thread phone line include_legacy t =
    str_eq t.whatsapp_phone phone
    && is_some t.active_key
    && is_active_status t.status
    && (not (truthy line)
        || eq_sql t.business_phone_number_id line
        || (include_legacy && is_none t.business_phone_number_id && has_key phone t))

unfoldable pub find_active_ticket_by_phone :
    String → Option String → Bool → List Ticket → Option Ticket
find_active_ticket_by_phone phone line include_legacy ts =
    find_last (is_thread phone line include_legacy) ts

unfoldable pub get_ticket_by_source_message : String → List Ticket → Option Ticket
get_ticket_by_source_message message_id ts =
    find_last (λ t. eq_sql t.source_whatsapp_message_id (some message_id)) ts

-- What a request says of the conversation that it opens.
pub record Request : Type 0 where
  pub profile : Profile
  pub phone_number : String
  pub business_phone_number_id : Option String
  pub business_display_phone_number : Option String
  pub source_whatsapp_message_id : Option String

unfoldable pub new_ticket : ℕ → ℕ → String → Request → Ticket
new_ticket id now key r = record {
  id = id;
  profile = r.profile;
  active_key = some key;
  whatsapp_phone = r.phone_number;
  business_phone_number_id = r.business_phone_number_id;
  business_display_phone_number = r.business_display_phone_number;
  conversation_origin = Origin.customer;
  initiated_by_staff_id = none;
  initiated_by_staff_name = none;
  source_whatsapp_message_id = r.source_whatsapp_message_id;
  status = new;
  current_assignee_id = none;
  current_assignee_name = none;
  created_at = now;
  updated_at = now;
  last_activity_at = now;
  assigned_at = none;
  resolved_at = none;
  resolved_by_staff_id = none;
  closed_at = none;
}

unfoldable pub new_chat : ℕ → ℕ → String → Actor → Request → Ticket
unfolding new_ticket
new_chat id now key actor r = record (new_ticket id now key r) {
  conversation_origin = Origin.staff;
  initiated_by_staff_id = some actor.id;
  initiated_by_staff_name = some actor.name;
  source_whatsapp_message_id = none;
  status = assigned;
  current_assignee_id = some actor.id;
  current_assignee_name = some actor.name;
  assigned_at = some now;
}

unfoldable pub append_ticket : Ticket → State → State
append_ticket t s = record s { tickets = s.tickets ++ (t ∷ []); next_ticket = s.next_ticket + 1 }

-- a UNIQUE index refuses the row
unfoldable pub duplicate : Ticket → List Ticket → Bool
duplicate row ts =
    any
      (λ t.
        eq_sql t.active_key row.active_key
        || eq_sql t.source_whatsapp_message_id row.source_whatsapp_message_id)
      ts

abbrev or_thread : Option Ticket → Option Ticket → Option Ticket
or_thread (some t) thread = some t
or_thread none thread = thread

abbrev pub find_existing : Option String → Option Ticket → List Ticket → Option Ticket
find_existing none thread ts = thread
find_existing (some source) thread ts =
    or_thread (if truthy (some source) then get_ticket_by_source_message source ts else none) thread

-- the two lookups of create_ticket
unfoldable pub existing_ticket : Request → State → Option Ticket
existing_ticket r s =
    find_existing r.source_whatsapp_message_id
      (find_active_ticket_by_phone r.phone_number r.business_phone_number_id true s.tickets)
      s.tickets

abbrev or_created : Option Ticket → Result (Ticket × Bool)
or_created none = raised repository
or_created (some t) = ok (t, true)

abbrev pub or_integrity : Option Ticket → Result (Ticket × Bool)
or_integrity none = raised integrity
or_integrity (some t) = ok (t, false)

-- the INSERTs of create_ticket, in one transaction, and the reading after it
unfoldable pub insert_ticket :
    (String → String) → (State → State) → ℕ → Request → State → State × Result (Ticket × Bool)
insert_ticket strip later now r s =
    let key = ticket_active_key strip r.phone_number r.business_phone_number_id in
    let row = new_ticket s.next_ticket now key r in
    let after =
      add_event now row.id ticket_created ActorType.system none none
        (Details.created r.profile.reason r.source_whatsapp_message_id) (append_ticket row s) in
    if not (line_available (text_of r.business_phone_number_id) s)
    then refused s
    else if duplicate row s.tickets
    then (s, or_integrity (existing_ticket r (later s)))
    else (after, or_created (find_ticket row.id (later after).tickets))

-- `others` is what other tasks commit between the lookups and the transaction, `later` what they
-- commit before the row is read again.
unfoldable pub create_ticket :
    (String → String)
    → (State → State)
    → (State → State)
    → ℕ
    → Request
    → State
    → State × Result (Ticket × Bool)
create_ticket strip others later now r s = elim (existing_ticket r s) [
  | some t ↦ (others s, ok (t, false))
  | none ↦ insert_ticket strip later now r (others s)
]

abbrev or_repository : Option Ticket → Result Ticket
or_repository none = raised repository
or_repository (some t) = ok t

abbrev conflict_or_integrity : Option Ticket → Result Ticket
conflict_or_integrity none = raised integrity
conflict_or_integrity (some t) = raised conflict

unfoldable pub insert_chat :
    (String → String) → (State → State) → ℕ → Actor → Bool → Request → State → State × Result Ticket
insert_chat strip later now actor include_legacy r s =
    let key = ticket_active_key strip r.phone_number r.business_phone_number_id in
    let row = new_chat s.next_ticket now key actor r in
    let after = agent_event now row.id chat_started actor Details.empty (append_ticket row s) in
    if not (line_available (text_of r.business_phone_number_id) s)
    then refused s
    else if duplicate row s.tickets
    then (
      s,
      conflict_or_integrity (
          find_active_ticket_by_phone r.phone_number r.business_phone_number_id include_legacy
            (later s).tickets),
    )
    else (after, or_repository (find_ticket row.id (later after).tickets))

unfoldable pub create_staff_chat :
    (String → String)
    → (State → State)
    → (State → State)
    → ℕ
    → Actor
    → Bool
    → Request
    → State
    → State × Result Ticket
create_staff_chat strip others later now actor include_legacy r s =
    elim (find_active_ticket_by_phone r.phone_number r.business_phone_number_id include_legacy
      s.tickets) [
        | some t ↦ refused (others s)
        | none ↦ insert_chat strip later now actor include_legacy r (others s)
      ]

-- COALESCE
abbrev or_old : Option String → Option String → Option String
or_old none old = old
or_old (some a) old = some a

unfoldable pub bound : (String → String) → ℕ → String → String → Option String → Ticket → Ticket
bound strip now phone line display t = record t {
  business_phone_number_id = some line;
  business_display_phone_number = or_old display t.business_display_phone_number;
  active_key =
      (if has_key phone t then some (ticket_active_key strip phone (some line)) else t.active_key);
  updated_at = now;
}

abbrev or_not_found : Option Ticket → Result Ticket
or_not_found none = raised not_found
or_not_found (some t) = ok t

-- A legacy ticket is bound to its line once. The UNIQUE index may refuse the new key.
unfoldable pub bind_ticket_channel :
    (String → String)
    → (State → State)
    → ℕ
    → String
    → String
    → Option String
    → ℕ
    → State
    → State × Result Ticket
bind_ticket_channel strip later now phone line display id s = locked id s λ t.
    let row = bound strip now phone line display t in
    if is_some t.active_key && is_none t.business_phone_number_id
    then (if key_taken (text_of row.active_key) id s.tickets then (s, raised integrity) else (
      put_ticket id row s,
      or_not_found (find_ticket id (later (put_ticket id row s)).tickets),
    ))
    else (s, ok t)

drop_messages : ℕ → List Message → List Message
drop_messages id [] = []
drop_messages id (m ∷ ms) =
    let rest = drop_messages id ms in if m.ticket_id == id then rest else m ∷ rest

unfoldable pub drop_events : ℕ → List Event → List Event
drop_events id [] = []
drop_events id (e ∷ es) =
    let rest = drop_events id es in if e.ticket_id == id then rest else e ∷ rest

-- _delete_ticket_rows, on the tables of the model
unfoldable pub delete_ticket_rows : ℕ → State → State
unfolding drop_messages
delete_ticket_rows id s = record s {
  tickets = delete_ticket id s.tickets;
  messages = drop_messages id s.messages;
  events = drop_events id s.events;
}

-- Only what is resolved or closed may be deleted.
unfoldable pub deletable : Ticket → Bool
deletable t = not (is_active_status t.status) && is_none t.active_key

unfoldable pub delete_history_ticket : ℕ → State → State × Result Ticket
delete_history_ticket id s =
    locked id s λ t. if deletable t then (delete_ticket_rows id s, ok t) else refused s

unfoldable pub delete_staff_chat : ℕ → State → State × Result Ticket
delete_staff_chat id s = locked id s λ t.
    if not (is_staff_chat t.conversation_origin)
    then (s, raised not_found)
    else if deletable t
    then (delete_ticket_rows id s, ok t)
    else refused s
