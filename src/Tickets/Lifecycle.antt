-- ===== src/Tickets/Lifecycle.antt =====
-- claim_ticket, transfer_ticket, update_status, resolve_ticket, mark_customer_replied,
-- mark_agent_reply_started and auto_resolve_idle_phone_app_ticket of app/support_repository.py.
-- Each is one transaction under the ticket's row lock; what it raises rolls it back.
use ai_whats_app_shipment_as.Prelude.{
  ℕ, ◌+◌, ◌*◌, String, Bool, true, false, not, ◌&&◌, Option, none, some, List, any, is_none,
  is_some, ltb, leb, ◌==◌, str_eq, truthy, if◌then◌else◌,
}
use ai_whats_app_shipment_as.Delivery.Message.{
  TicketStatus, assigned, in_progress, waiting_customer, resolved, closed, Message, minute,
  is_outbound,
}
use ai_whats_app_shipment_as.Delivery.Finish.{is_agent}
use ai_whats_app_shipment_as.Tickets.Model.{
  Ticket, EventType, ticket_claimed, ticket_transferred, ticket_resolved, status_changed,
  customer_replied, returned_to_ai, ActorType, Details, Staff, State, Error, not_found, conflict,
  assertion, Result, ok, raised, text_of, is_active_status, is_new, is_staff_chat,
  allowed_transition,
}
use ai_whats_app_shipment_as.Tickets.Table.{find_ticket, find_staff, add_event, put_ticket, fence}

-- Who acts.
pub record Actor : Type 0 where
  pub id : String
  pub name : String

-- SELECT ... FOR UPDATE
abbrev pub locked {ℓ} : {A : Type ℓ} → ℕ → State → (Ticket → State × Result A) → State × Result A
locked id s k = elim (find_ticket id s.tickets) [ none ↦ (s, raised not_found) | some t ↦ k t ]

abbrev or_missing : Error → Bool → Option Ticket → Result (Ticket × Bool)
or_missing missing changed none = raised missing
or_missing missing changed (some t) = ok (t, changed)

-- The ticket is read again after the commit, by another connection: `later` is what other tasks
-- commit in between, so that the ticket may have changed again, or be gone, which is an error after
-- a change that stands.
abbrev pub reloaded : (State → State) → Error → ℕ → Bool → State → State × Result (Ticket × Bool)
reloaded later missing id changed s =
    (s, or_missing missing changed (find_ticket id (later s).tickets))

abbrev pub refused {ℓ} : {A : Type ℓ} → State → State × Result A
refused s = (s, raised conflict)

-- an event of the acting member of staff
abbrev pub agent_event : ℕ → ℕ → EventType → Actor → Details → State → State
agent_event now id kind actor details s =
    add_event now id kind ActorType.agent (some actor.id) (some actor.name) details s

unfoldable pub claimed : ℕ → Actor → Ticket → Ticket
claimed now actor t = record t {
  current_assignee_id = some actor.id;
  current_assignee_name = some actor.name;
  status = assigned;
  assigned_at = some now;
  updated_at = now;
  last_activity_at = now;
}

unfoldable pub claimable : Ticket → Bool
claimable t = is_new t.status && is_none t.current_assignee_id && is_some t.active_key

-- the same agent asks again
unfoldable pub claimed_by : Actor → Ticket → Bool
claimed_by actor t =
    is_some t.active_key
    && str_eq (text_of t.current_assignee_id) actor.id
    && is_active_status t.status

unfoldable pub claim_ticket :
    (State → State) → ℕ → Actor → ℕ → State → State × Result (Ticket × Bool)
claim_ticket later now actor id s = locked id s λ t.
    if claimable t
    then reloaded later not_found id true (
        agent_event now id ticket_claimed actor Details.empty
          (put_ticket id (claimed now actor t) s))
    else if claimed_by actor t
    then reloaded later not_found id false s
    else refused s

-- str(value or "Support Agent")
abbrev pub name_or : Option String → String
name_or none = "Support Agent"
name_or (some s) = if truthy (some s) then s else "Support Agent"

unfoldable pub transferable : String → String → Ticket → Bool
transferable expected target t =
    is_some t.active_key
    && is_active_status t.status
    && truthy t.current_assignee_id
    && str_eq (text_of t.current_assignee_id) expected
    && not (str_eq (text_of t.current_assignee_id) target)

unfoldable pub transferred : ℕ → String → String → Ticket → Ticket
transferred now target name t = record t {
  current_assignee_id = some target;
  current_assignee_name = some name;
  status = assigned;
  assigned_at = some now;
  updated_at = now;
  last_activity_at = now;
}

abbrev pub active_staff : Option Staff → Bool
active_staff none = false
active_staff (some m) = m.is_active

abbrev pub staff_name : Option Staff → String
staff_name none = "Support Agent"
staff_name (some m) = name_or (some m.name)

unfoldable pub transfer_ticket :
    (State → State)
    → ℕ
    → (ℕ → String)
    → String
    → String
    → Actor
    → ℕ
    → State
    → State × Result (Ticket × Bool)
transfer_ticket later now uuid expected target actor id s = locked id s λ t.
    let member = find_staff target s.staff in
    let (fenced, passed) = fence now uuid id s in
    if not (transferable expected target t)
    then refused s
    else if not (active_staff member)
    then refused s
    else if not passed
    then refused s
    else reloaded later not_found id true (
        agent_event now id ticket_transferred actor
          (Details.transfer (text_of t.current_assignee_id) (name_or t.current_assignee_name) target
            (staff_name member) t.status)
          (put_ticket id (transferred now target (staff_name member) t) fenced))

-- expected_assignee_id is not None and differs from the owner
abbrev pub owner_moved : Option String → Ticket → Bool
owner_moved none t = false
owner_moved (some expected) t = not (str_eq (text_of t.current_assignee_id) expected)

abbrev is_closed : TicketStatus → Bool
is_closed closed = true
is_closed _ = false

unfoldable pub with_status : ℕ → TicketStatus → Ticket → Ticket
with_status now status t = record t {
  status = status;
  updated_at = now;
  last_activity_at = now;
  closed_at = (if is_closed status then some now else t.closed_at);
}

unfoldable pub update_status :
    (State → State)
    → ℕ
    → TicketStatus
    → Actor
    → Option String
    → ℕ
    → State
    → State × Result (Ticket × Bool)
update_status later now status actor expected id s = locked id s λ t.
    if owner_moved expected t
    then refused s
    else if not (allowed_transition t.status status)
    then refused s
    else reloaded later not_found id true (
        agent_event now id status_changed actor (Details.change t.status status)
          (put_ticket id (with_status now status t) s))

unfoldable pub resolved_by : ℕ → Option String → Ticket → Ticket
resolved_by now resolver t = record t {
  status = resolved;
  active_key = none;
  resolved_at = some now;
  resolved_by_staff_id = resolver;
  updated_at = now;
  last_activity_at = now;
}

unfoldable pub resolve_ticket :
    (State → State)
    → ℕ
    → (ℕ → String)
    → Actor
    → Option String
    → ℕ
    → State
    → State × Result (Ticket × Bool)
resolve_ticket later now uuid actor expected id s = locked id s λ t.
    let (fenced, passed) = fence now uuid id s in
    if owner_moved expected t
    then refused s
    else if not (is_active_status t.status)
    then reloaded later assertion id false s
    else if not passed
    then refused s
    else reloaded later not_found id true (
        agent_event now id returned_to_ai actor Details.empty (
          agent_event now id ticket_resolved actor
            (Details.resolution t.status t.current_assignee_id)
            (put_ticket id (resolved_by now (some actor.id) t) fenced)))

abbrev pub is_waiting_customer : TicketStatus → Bool
is_waiting_customer waiting_customer = true
is_waiting_customer _ = false

abbrev pub is_assigned : TicketStatus → Bool
is_assigned assigned = true
is_assigned _ = false

-- the SET clause of both `mark` statements
unfoldable pub in_work : ℕ → Ticket → Ticket
in_work now t = record t { status = in_progress; updated_at = now; last_activity_at = now }

unfoldable pub mark_customer_replied : ℕ → ℕ → State → State
mark_customer_replied now id s = elim (find_ticket id s.tickets) [
  | none ↦ s
  | some t ↦
      if is_waiting_customer t.status && is_some t.active_key
      then add_event now id customer_replied ActorType.customer none none Details.empty
          (put_ticket id (in_work now t) s)
      else s
]

unfoldable pub mark_agent_reply_started : ℕ → Actor → ℕ → State → State
mark_agent_reply_started now actor id s = elim (find_ticket id s.tickets) [
  | none ↦ s
  | some t ↦
      if is_assigned t.status && is_some t.active_key
      then agent_event now id status_changed actor (Details.change assigned in_progress)
          (put_ticket id (in_work now t) s)
      else s
]

-- _PHONE_APP_REPLY_EXISTS
unfoldable pub phone_app_reply : ℕ → Message → Bool
phone_app_reply id m =
    m.ticket_id == id && is_outbound m.direction && is_agent m.sender_type && is_none m.sender_id

-- a message of the ticket within the idle window
unfoldable pub recent_message : ℕ → ℕ → ℕ → Message → Bool
recent_message now idle_minutes id m =
    m.ticket_id == id && leb now (m.created_at + idle_minutes * minute)

-- _IDLE_PHONE_APP_TICKET
unfoldable pub idle_phone_app : ℕ → ℕ → List Message → Ticket → Bool
idle_phone_app now idle_minutes ms t =
    not (is_staff_chat t.conversation_origin)
    && is_new t.status
    && is_none t.current_assignee_id
    && is_some t.active_key
    && any (phone_app_reply t.id) ms
    && ltb (t.created_at + idle_minutes * minute) now
    && not (any (recent_message now idle_minutes t.id) ms)

-- `name` is auto_resolve_actor_name; None where nothing changed
unfoldable pub auto_resolve : (State → State) → ℕ → ℕ → String → ℕ → State → State × Option Ticket
auto_resolve later now idle_minutes name id s = elim (find_ticket id s.tickets) [
  | none ↦ (s, none)
  | some t ↦
      if idle_phone_app now idle_minutes s.messages t
      then (let after =
            add_event now id returned_to_ai ActorType.system none (some name)
              (Details.idle idle_minutes)
              (add_event now id ticket_resolved ActorType.system none (some name)
                (Details.idle idle_minutes) (put_ticket id (resolved_by now none t) s)) in
          (after, find_ticket id (later after).tickets))
      else (s, none)
]
