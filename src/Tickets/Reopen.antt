-- ===== src/Tickets/Reopen.antt =====
-- reopen_customer_ticket, reopen_staff_chat and close_staff_chat of app/support_repository.py, with
-- the guard on the WhatsApp line, _lock_available_whatsapp_line.
use ai_whats_app_shipment_as.Prelude.{
  ℕ, String, Bool, true, false, not, ◌&&◌, Option, none, some, List, [], ◌∷◌, any, is_none, is_some,
  ◌==◌, str_eq, truthy, if◌then◌else◌,
}
use ai_whats_app_shipment_as.Delivery.Message.{TicketStatus, assigned, resolved}
use ai_whats_app_shipment_as.Tickets.Model.{
  Ticket, EventType, ticket_resolved, ticket_reopened, chat_reopened, chat_closed, Event, Details,
  Staff, Transport, cloud, linked_device, removed, Line, State, not_found, repository, assertion,
  Result, ok, raised, text_of, is_active_status, is_new, is_staff_chat, may_reopen_customer_ticket,
  ticket_active_key,
}
use ai_whats_app_shipment_as.Tickets.Table.{find_staff, find_line, key_taken, put_ticket, fence}
use ai_whats_app_shipment_as.Tickets.Lifecycle.{
  Actor, locked, reloaded, refused, agent_event, active_staff, owner_moved, resolved_by,
}

abbrev pub was_removed : Option Line → Bool
was_removed none = false
was_removed (some l) = is_some l.removed_at

abbrev is_ready : Option Line → Bool
is_ready none = false
is_ready (some l) = l.is_linked_device && l.is_enabled && l.provider_present

abbrev serves : Transport → Option Line → Bool
serves cloud l = true
serves linked_device l = is_ready l
serves removed l = false

-- _lock_available_whatsapp_line; false is SupportConflictError
unfoldable pub line_available : String → State → Bool
line_available line s =
    let row = find_line line s.lines in
    if not (truthy (some line))
    then true
    else if is_none row && any (λ r. str_eq r line) s.removals
    then false
    else if was_removed row
    then false
    else serves (s.transport line) row

abbrev is_kind_resolved : EventType → Bool
is_kind_resolved ticket_resolved = true
is_kind_resolved _ = false

abbrev is_kind_reopened : EventType → Bool
is_kind_reopened ticket_reopened = true
is_kind_reopened _ = false

-- a TICKET_REOPENED event of the ticket
unfoldable pub was_reopened : ℕ → List Event → Bool
was_reopened id es = any (λ e. e.ticket_id == id && is_kind_reopened e.event_type) es

-- the details of the ticket's last TICKET_RESOLVED event; the rows stand in the order of their ids
unfoldable pub last_resolution : ℕ → List Event → Option Details
last_resolution id [] = none
last_resolution id (e ∷ es) =
    let rest = last_resolution id es in
    elim rest [
      | some d ↦ some d
      | none ↦ if e.ticket_id == id && is_kind_resolved e.event_type then some e.details else none
    ]

abbrev previous_status : Option Details → Option TicketStatus
previous_status (some (Details.resolution previous _)) = some previous
previous_status _ = none

-- the status before the resolution, if it is one that a claimed ticket has
unfoldable pub restored_status : Option Details → TicketStatus
restored_status d = elim (previous_status d) [
  | none ↦ assigned
  | some p ↦ if is_active_status p && not (is_new p) then p else assigned
]

abbrev same_instant : Option ℕ → Option ℕ → Bool
same_instant none none = true
same_instant (some a) (some b) = a == b
same_instant _ _ = false

-- who takes a reopened ticket
abbrev pub next_owner : Bool → Actor → Ticket → String
next_owner supervisor actor t = if supervisor then actor.id else text_of t.current_assignee_id

abbrev pub member_name : Option Staff → Option String
member_name none = none
member_name (some m) = some m.name

unfoldable pub reopened :
    ℕ → Bool → TicketStatus → String → String → Option String → Ticket → Ticket
reopened now supervisor status key owner name t = record t {
  status = status;
  active_key = some key;
  current_assignee_id = some owner;
  current_assignee_name = (if supervisor then name else t.current_assignee_name);
  assigned_at = (if supervisor then some now else t.assigned_at);
  updated_at = now;
  last_activity_at = now;
}

is_resolved_status : TicketStatus → Bool
is_resolved_status resolved = true
is_resolved_status _ = false

-- the tests on the locked row, up to the one for a repeated request
unfoldable pub reopening_allowed : Bool → Actor → String → Option ℕ → Ticket → Bool
reopening_allowed supervisor actor line expected_resolved_at t =
    str_eq (text_of t.business_phone_number_id) line
    && may_reopen_customer_ticket t actor.id supervisor
    && same_instant t.resolved_at expected_resolved_at

-- the tests on a ticket that is not active
unfoldable pub reopenable : Bool → Actor → String → ℕ → State → Ticket → Bool
unfolding is_resolved_status
reopenable supervisor actor key id s t =
    is_resolved_status t.status
    && is_none t.active_key
    && truthy (some (next_owner supervisor actor t))
    && active_staff (find_staff (next_owner supervisor actor t) s.staff)
    && not (key_taken key id s.tickets)

-- A manager becomes the owner, an agent stays it. `line` is the ticket's line as read before the
-- transaction, "" for none, and `strip` the string method.
unfoldable pub reopen_customer_ticket :
    (String → String)
    → (State → State)
    → ℕ
    → (ℕ → String)
    → Actor
    → Bool
    → String
    → Option ℕ
    → ℕ
    → State
    → State × Result (Ticket × Bool)
reopen_customer_ticket strip later now uuid actor supervisor line expected_resolved_at id s =
    if not (line_available line s)
    then refused s
    else locked id s λ t.
      let key = ticket_active_key strip t.whatsapp_phone (some line) in
      let status = restored_status (last_resolution id s.events) in
      let owner = next_owner supervisor actor t in
      let (fenced, passed) = fence now uuid id s in
      if not (reopening_allowed supervisor actor line expected_resolved_at t)
      then refused s
      else if is_some t.active_key && is_active_status t.status
      then (if was_reopened id s.events then (s, ok (t, false)) else refused s)
      else if not (reopenable supervisor actor key id s t)
      then refused s
      else if not passed
      then refused s
      else reloaded later not_found id true (
          agent_event now id ticket_reopened actor
            (Details.reopening status t.current_assignee_id owner t.resolved_by_staff_id
              t.resolved_at)
            (put_ticket id
              (reopened now supervisor status key owner (member_name (find_staff owner s.staff)) t)
              fenced))

unfoldable pub reopened_chat : ℕ → String → Actor → Ticket → Ticket
reopened_chat now key actor t = record t {
  active_key = some key;
  status = assigned;
  current_assignee_id = some actor.id;
  current_assignee_name = some actor.name;
  assigned_at = some now;
  resolved_at = none;
  resolved_by_staff_id = none;
  updated_at = now;
  last_activity_at = now;
}

unfoldable pub reopen_staff_chat :
    (String → String)
    → (State → State)
    → ℕ
    → Actor
    → String
    → ℕ
    → State
    → State × Result (Ticket × Bool)
reopen_staff_chat strip later now actor line id s =
    if not (line_available line s)
    then refused s
    else locked id s λ t.
      let key = ticket_active_key strip t.whatsapp_phone t.business_phone_number_id in
      if not (is_staff_chat t.conversation_origin)
      then (s, raised not_found)
      else if not (str_eq (text_of t.business_phone_number_id) line)
      then refused s
      else if is_some t.active_key && is_active_status t.status
      then reloaded later assertion id false s
      else if key_taken key id s.tickets
      then refused s
      else reloaded later repository id true (
          agent_event now id chat_reopened actor Details.empty
            (put_ticket id (reopened_chat now key actor t) s))

unfoldable pub close_staff_chat :
    (State → State)
    → ℕ
    → (ℕ → String)
    → Actor
    → Option String
    → ℕ
    → State
    → State × Result (Ticket × Bool)
close_staff_chat later now uuid actor expected id s = locked id s λ t.
    let (fenced, passed) = fence now uuid id s in
    if not (is_staff_chat t.conversation_origin)
    then (s, raised not_found)
    else if owner_moved expected t
    then refused s
    else if is_none t.active_key
    then reloaded later assertion id false s
    else if not passed
    then refused s
    else reloaded later not_found id true (
        agent_event now id chat_closed actor Details.empty
          (put_ticket id (resolved_by now (some actor.id) t) fenced))
