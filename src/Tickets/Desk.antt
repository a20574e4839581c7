-- ===== src/Tickets/Desk.antt =====
-- The ticket requests of SupportService in app/support_service.py, up to what follows the
-- repository's transaction (automatic messages, conversation cache, media files, events). Each
-- reads the ticket, tests what it read, and asks the repository later: `others` is what other tasks
-- commit in between.
use ai_whats_app_shipment_as.Prelude.{
  ℕ, String, Bool, true, false, not, ◌&&◌, ◌||◌, Option, none, some, any, is_none, is_some, eq_sql,
  ◌==◌, str_eq, truthy, if◌then◌else◌,
}
use ai_whats_app_shipment_as.Delivery.Message.{TicketStatus, resolved}
use ai_whats_app_shipment_as.Tickets.Model.{
  Ticket, ticket_claimed, ticket_transferred, Event, Details, Transport, removed, State, Error,
  not_found, conflict, Result, ok, raised, text_of, is_active_status, is_new, is_staff_chat,
  allowed_transition, may_reopen_customer_ticket,
}
use ai_whats_app_shipment_as.Tickets.Table.{find_ticket, find_line}
use ai_whats_app_shipment_as.Tickets.Lifecycle.{
  Actor, claim_ticket, transfer_ticket, update_status, resolve_ticket,
}
use ai_whats_app_shipment_as.Tickets.Reopen.{was_removed, reopen_customer_ticket, close_staff_chat}
use ai_whats_app_shipment_as.Tickets.Open.{
  find_active_ticket_by_phone, bind_ticket_channel, delete_history_ticket, delete_staff_chat,
}

-- SupportAgent
pub record Agent : Type 0 where
  pub id : String
  pub name : String
  pub role : String

unfoldable pub is_supervisor : Agent → Bool
is_supervisor agent = str_eq agent.role "supervisor" || str_eq agent.role "admin"

abbrev pub actor_of : Agent → Actor
actor_of agent = record { id = agent.id; name = agent.name }

-- SupportForbiddenError, SupportValidationError, and what the repository raises
pub data Refusal : Type 0 where
  forbidden validation : Refusal
  failed : Error → Refusal

pub data Answer : Type 0 where
  answered : Ticket → Bool → Answer
  denied : Refusal → Answer

abbrev pub answer_pair : Result (Ticket × Bool) → Answer
answer_pair (ok (t, changed)) = answered t changed
answer_pair (raised e) = denied (failed e)

abbrev answer_one : Result Ticket → Answer
answer_one (ok t) = answered t true
answer_one (raised e) = denied (failed e)

abbrev pub passed_on : State × Result (Ticket × Bool) → State × Answer
passed_on (s, r) = (s, answer_pair r)

abbrev pub passed_one : State × Result Ticket → State × Answer
passed_one (s, r) = (s, answer_one r)

-- get_ticket, and the tests on what it read
abbrev pub with_ticket : ℕ → State → (Ticket → State × Answer) → State × Answer
with_ticket id s k = elim (find_ticket id s.tickets) [
  | none ↦ (s, denied (failed not_found))
  | some t ↦ k t
]

abbrev pub deny : Refusal → State → State × Answer
deny r s = (s, denied r)

-- _can_operate
unfoldable pub can_operate : Ticket → Agent → Bool
can_operate t agent = is_supervisor agent || str_eq (text_of t.current_assignee_id) agent.id

-- _is_assignee
abbrev pub is_assignee : Ticket → Agent → Bool
is_assignee t agent = str_eq (text_of t.current_assignee_id) agent.id

-- an audit event that makes the agent a participant
unfoldable pub participation : ℕ → String → Event → Bool
participation id agent e = e.ticket_id == id && elim e.event_type [
  | ticket_claimed ↦ eq_sql e.actor_id (some agent)
  | ticket_transferred ↦ elim e.details [
    | Details.transfer from _ to _ _ ↦ str_eq from agent || str_eq to agent
    | _ ↦ false
  ]
  | _ ↦ false
]

unfoldable pub agent_has_participated : ℕ → String → State → Bool
agent_has_participated id agent s = elim (find_ticket id s.tickets) [
  | none ↦ false
  | some t ↦
      eq_sql t.current_assignee_id (some agent)
      || (is_staff_chat t.conversation_origin && eq_sql t.initiated_by_staff_id (some agent))
      || any (participation id agent) s.events
]

-- _can_view_ticket
unfoldable pub can_view_ticket : Ticket → Agent → State → Bool
can_view_ticket t agent s =
    is_supervisor agent
    || (is_none t.active_key && not (is_active_status t.status))
    || (is_new t.status && is_none t.current_assignee_id && is_some t.active_key)
    || is_assignee t agent
    || agent_has_participated t.id agent.id s

abbrev is_removed : Transport → Bool
is_removed removed = true
is_removed _ = false

-- The line's row or the ticket says that the number has been removed. `retired` is the ticket's
-- column that the relinking of a number writes.
unfoldable pub number_removed : (Ticket → Bool) → Ticket → State → Bool
number_removed retired t s =
    was_removed (find_line (text_of t.business_phone_number_id) s.lines)
    || retired t
    || is_removed (s.transport (text_of t.business_phone_number_id))

abbrev pub is_resolved : TicketStatus → Bool
is_resolved resolved = true
is_resolved _ = false

module _ (others later : State → State) (now : ℕ) where
  -- up to the greeting
  unfoldable pub claim : ℕ → Agent → State → State × Answer
  claim id agent s =
      let next = passed_on (claim_ticket later now (actor_of agent) id (others s)) in
      elim (find_ticket id s.tickets) [
        | none ↦ next
        | some t ↦ if is_staff_chat t.conversation_origin then deny validation s else next
      ]

  unfoldable pub change_status : ℕ → TicketStatus → Agent → State → State × Answer
  change_status id status agent s = with_ticket id s λ t.
      if is_staff_chat t.conversation_origin
      then deny validation s
      else if not (can_operate t agent)
      then deny forbidden s
      else if is_resolved status
      then deny validation s
      else if not (allowed_transition t.status status)
      then deny validation s
      else passed_on
          (update_status later now status (actor_of agent) t.current_assignee_id id (others s))

  unfoldable pub transfer : (ℕ → String) → ℕ → String → Agent → State → State × Answer
  transfer uuid id target agent s = with_ticket id s λ t.
      if is_none t.active_key || not (is_active_status t.status)
      then deny (failed conflict) s
      else if is_none t.current_assignee_id
      then deny (failed conflict) s
      else if not (can_operate t agent)
      then deny forbidden s
      else passed_on (
          transfer_ticket later now uuid (text_of t.current_assignee_id) target (actor_of agent) id
            (others s))

  -- up to the resolution notice
  unfoldable pub resolve_and_return_to_ai : (ℕ → String) → ℕ → Agent → State → State × Answer
  resolve_and_return_to_ai uuid id agent s = with_ticket id s λ t.
      if is_staff_chat t.conversation_origin
      then deny validation s
      else if not (can_operate t agent)
      then deny forbidden s
      else if is_none t.current_assignee_id && not (is_supervisor agent)
      then deny (failed conflict) s
      else passed_on
          (resolve_ticket later now uuid (actor_of agent) t.current_assignee_id id (others s))

  -- up to the release of the cached conversation
  unfoldable pub close_chat : (ℕ → String) → ℕ → Agent → State → State × Answer
  close_chat uuid id agent s = with_ticket id s λ t.
      if not (is_staff_chat t.conversation_origin)
      then deny (failed not_found) s
      else if not (can_operate t agent)
      then deny forbidden s
      else passed_on
          (close_staff_chat later now uuid (actor_of agent) t.current_assignee_id id (others s))

  -- up to the removal of the media files
  unfoldable pub delete_history : ℕ → Agent → State → State × Answer
  delete_history id agent s =
      if not (is_supervisor agent)
      then deny forbidden s
      else with_ticket id s λ t.
        if is_staff_chat t.conversation_origin
        then deny (failed conflict) s
        else if is_some t.active_key || is_active_status t.status
        then deny (failed conflict) s
        else passed_one (delete_history_ticket id (others s))

  unfoldable pub delete_chat : ℕ → Agent → State → State × Answer
  delete_chat id agent s =
      if not (is_supervisor agent)
      then deny forbidden s
      else with_ticket id s λ t.
        if not (is_staff_chat t.conversation_origin)
        then deny (failed not_found) s
        else if is_some t.active_key || is_active_status t.status
        then deny (failed conflict) s
        else passed_one (delete_staff_chat id (others s))

  -- up to the refresh of the cached conversation; `line` is what the repository reads before its
  -- transaction, and `resolved_at` is in UTC
  unfoldable pub reopen_ticket :
      (String → String)
      → (ℕ → String)
      → (Ticket → Bool)
      → String
      → ℕ
      → Agent
      → Option ℕ
      → State
      → State × Answer
  reopen_ticket strip uuid retired line id agent resolved_at s = with_ticket id s λ t.
      if not
        (can_view_ticket t agent s && may_reopen_customer_ticket t agent.id (is_supervisor agent))
      then deny forbidden s
      else if number_removed retired t s
      then deny (failed conflict) s
      else passed_on (
          reopen_customer_ticket strip later now uuid (actor_of agent) (is_supervisor agent) line
            resolved_at id (others s))

-- the ticket after the binding; another line may have won it
abbrev pub after_binding :
    (State → State) → String → String → State × Result Ticket → State × Result (Option Ticket)
after_binding later phone line (s, raised e) = (s, raised e)
after_binding later phone line (s, ok t) =
    if str_eq (text_of t.business_phone_number_id) line
    then (s, ok (some t))
    else (later s, ok (find_active_ticket_by_phone phone (some line) true (later s).tickets))

-- get_active_ticket: a ticket from before lines were recorded is bound to the line that asks. The
-- requests of other tasks run before the binding (`others`), before the row is read again after it
-- (`meanwhile`) and before the second search (`later`).
unfoldable pub get_active_ticket :
    (String → String)
    → (State → State)
    → (State → State)
    → (State → State)
    → ℕ
    → String
    → Option String
    → Option String
    → State
    → State × Result (Option Ticket)
get_active_ticket strip others meanwhile later now phone line display s =
    elim (find_active_ticket_by_phone phone line true s.tickets) [
      | none ↦ (s, ok none)
      | some t ↦
          if truthy line && not (truthy t.business_phone_number_id)
          then after_binding later phone (text_of line)
              (bind_ticket_channel strip meanwhile now phone (text_of line) display t.id (others s))
          else (s, ok (some t))
    ]
