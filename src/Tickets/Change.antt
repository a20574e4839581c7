-- ===== src/Tickets/Change.antt =====
-- What one operation on the ticket tables may do to them.
use ai_whats_app_shipment_as.Prelude.{
  ℕ, ◌+◌, String, ◌≡◌, refl, Bool, true, false, Option, none, some, List, [], ◌∷◌, ◌++◌, is_none,
  is_some, length, Option-cases, inl, inr, truthy, if◌then◌else◌,
}
use ai_whats_app_shipment_as.Delivery.Message.{
  TicketStatus, assigned, in_progress, waiting_customer,
}
use ai_whats_app_shipment_as.Tickets.Model.{
  Ticket, Event, EventType, ticket_created, ticket_claimed, ticket_transferred, ticket_resolved,
  ticket_reopened, chat_started, chat_reopened, chat_closed, status_changed, customer_replied,
  returned_to_ai, ActorType, Details, State, Result, text_of, is_active_status, is_staff_chat,
  is_new, allowed_transition,
}
use ai_whats_app_shipment_as.Tickets.Table.{find_ticket, set_ticket, delete_ticket, key_taken}
use ai_whats_app_shipment_as.Tickets.Lifecycle.{
  Actor, locked, claimable, claimed, transferable, transferred, with_status, resolved_by, in_work,
  name_or,
}
use ai_whats_app_shipment_as.Tickets.Reopen.{reopened, reopened_chat, next_owner}
use ai_whats_app_shipment_as.Tickets.Open.{
  Request, new_ticket, new_chat, bound, duplicate, deletable, drop_events,
}

-- An event without its id, ticket and time.
pub record Note : Type 0 where
  pub event_type : EventType
  pub actor_type : ActorType
  pub actor_id : Option String
  pub actor_name : Option String
  pub details : Details

abbrev pub by_agent : EventType → Actor → Details → Note
by_agent kind actor details = record {
  event_type = kind;
  actor_type = ActorType.agent;
  actor_id = some actor.id;
  actor_name = some actor.name;
  details = details;
}

abbrev pub by_system : EventType → Option String → Details → Note
by_system kind name details = record {
  event_type = kind;
  actor_type = ActorType.system;
  actor_id = none;
  actor_name = name;
  details = details;
}

-- The row of a note.
abbrev pub stamp : ℕ → ℕ → ℕ → Note → Event
stamp now ticket_id id n = record {
  id = id;
  ticket_id = ticket_id;
  event_type = n.event_type;
  actor_type = n.actor_type;
  actor_id = n.actor_id;
  actor_name = n.actor_name;
  details = n.details;
  created_at = now;
}

-- The rows of some notes, with the ids from `first` on.
abbrev pub stamped : ℕ → ℕ → ℕ → List Note → List Event
stamped now ticket_id first [] = []
stamped now ticket_id first (n ∷ ns) =
    stamp now ticket_id first n ∷ stamped now ticket_id (first + 1) ns

-- What may happen to a row, and the events that tell it.
pub data RowStep (s : State) (id : ℕ) (t : Ticket) : Ticket → List Note → Type 0 where
  claiming :
      (now : ℕ) (actor : Actor)
      → claimable t ≡ true
      → RowStep s id t (claimed now actor t) (by_agent ticket_claimed actor Details.empty ∷ [])
  transferring :
      (now : ℕ) (expected target name : String) (actor : Actor)
      → transferable expected target t ≡ true
      → RowStep s id t (transferred now target name t) (
          by_agent ticket_transferred actor (
            Details.transfer
              (text_of t.current_assignee_id)
              (name_or t.current_assignee_name)
              target
              name
              t.status)
          ∷ [])
  changing :
      (now : ℕ) (status : TicketStatus) (actor : Actor)
      → allowed_transition t.status status ≡ true
      → RowStep s id t
          (with_status now status t)
          (by_agent status_changed actor (Details.change t.status status) ∷ [])
  resolving :
      (now : ℕ) (actor : Actor)
      → is_active_status t.status ≡ true
      → RowStep s id t (resolved_by now (some actor.id) t) (
          by_agent ticket_resolved actor (Details.resolution t.status t.current_assignee_id)
          ∷ by_agent returned_to_ai actor Details.empty
          ∷ [])
  quieting :
      (now idle_minutes : ℕ) (name : String)
      → is_new t.status ≡ true
      → is_none t.current_assignee_id ≡ true
      → RowStep s id t (resolved_by now none t) (
          by_system ticket_resolved (some name) (Details.idle idle_minutes)
          ∷ by_system returned_to_ai (some name) (Details.idle idle_minutes)
          ∷ [])
  answering :
      (now : ℕ)
      → t.status ≡ waiting_customer
      → is_some t.active_key ≡ true
      → RowStep s id t (in_work now t) (
          record {
            event_type = customer_replied;
            actor_type = ActorType.customer;
            actor_id = none;
            actor_name = none;
            details = Details.empty;
          }
          ∷ [])
  working :
      (now : ℕ) (actor : Actor)
      → t.status ≡ assigned
      → is_some t.active_key ≡ true
      → RowStep s id t
          (in_work now t)
          (by_agent status_changed actor (Details.change assigned in_progress) ∷ [])
  reopening :
      (now : ℕ) (supervisor : Bool) (status : TicketStatus) (key : String) (name : Option String)
      (actor : Actor)
      → is_active_status status ≡ true
      → is_new status ≡ false
      → is_none t.active_key ≡ true
      → key_taken key id s.tickets ≡ false
      → truthy (some (next_owner supervisor actor t)) ≡ true
      → RowStep s id t (reopened now supervisor status key (next_owner supervisor actor t) name t) (
          by_agent ticket_reopened actor (
            Details.reopening status t.current_assignee_id
              (next_owner supervisor actor t)
              t.resolved_by_staff_id
              t.resolved_at)
          ∷ [])
  rechatting :
      (now : ℕ) (key : String) (actor : Actor)
      → is_staff_chat t.conversation_origin ≡ true
      → key_taken key id s.tickets ≡ false
      → RowStep s id t
          (reopened_chat now key actor t)
          (by_agent chat_reopened actor Details.empty ∷ [])
  closing :
      (now : ℕ) (actor : Actor)
      → is_staff_chat t.conversation_origin ≡ true
      → is_some t.active_key ≡ true
      → RowStep s id t
          (resolved_by now (some actor.id) t)
          (by_agent chat_closed actor Details.empty ∷ [])
  binding :
      (strip : String → String) (now : ℕ) (phone line : String) (display : Option String)
      → is_some t.active_key ≡ true
      → key_taken (text_of (bound strip now phone line display t).active_key) id s.tickets ≡ false
      → RowStep s id t (bound strip now phone line display t) []

-- A row that an INSERT adds, and the event that tells it.
pub data NewRow (s : State) : Ticket → Note → Type 0 where
  ticket_row :
      (now : ℕ) (key : String) (r : Request)
      → NewRow s (new_ticket s.next_ticket now key r) (
          by_system ticket_created none
            (Details.created r.profile.reason r.source_whatsapp_message_id))
  chat_row :
      (now : ℕ) (key : String) (actor : Actor) (r : Request)
      → NewRow s
          (new_chat s.next_ticket now key actor r)
          (by_agent chat_started actor Details.empty)

-- The change of one operation at an instant.
pub data Change (now : ℕ) (s after : State) : Type 0 where
  still : after ≡ s → Change now s after
  moved :
      (id : ℕ) (t u : Ticket) (notes : List Note)
      → find_ticket id s.tickets ≡ some t
      → RowStep s id t u notes
      → after.tickets ≡ set_ticket id u s.tickets
      → after.events ≡ s.events ++ stamped now id s.next_event notes
      → after.next_event ≡ s.next_event + length notes
      → after.next_ticket ≡ s.next_ticket
      → Change now s after
  opened :
      (t : Ticket) (note : Note)
      → NewRow s t note
      → duplicate t s.tickets ≡ false
      → after.tickets ≡ s.tickets ++ (t ∷ [])
      → after.events ≡ s.events ++ stamped now s.next_ticket s.next_event (note ∷ [])
      → after.next_event ≡ s.next_event + 1
      → after.next_ticket ≡ s.next_ticket + 1
      → Change now s after
  dropped :
      (id : ℕ) (t : Ticket)
      → find_ticket id s.tickets ≡ some t
      → deletable t ≡ true
      → after.tickets ≡ delete_ticket id s.tickets
      → after.events ≡ drop_events id s.events
      → after.next_event ≡ s.next_event
      → after.next_ticket ≡ s.next_ticket
      → Change now s after

module _ {ℓ} {A : Type ℓ} (now : ℕ) (s : State) where
  pub locked-Change :
      (id : ℕ) (k : Ticket → State × Result A)
      → ((t : Ticket) → find_ticket id s.tickets ≡ some t → Change now s (k t).0)
      → Change now s (locked id s k).0
  locked-Change id k each = elim (Option-cases (find_ticket id s.tickets)) [
    | inl e ↦ rw (e, locked) (still refl)
    | inr (t, e) ↦ rw (e, locked) (each t e)
  ]

  pub if-Change :
      (b : Bool) (x y : State × Result A)
      → (b ≡ true → Change now s x.0)
      → (b ≡ false → Change now s y.0)
      → Change now s (if b then x else y).0
  if-Change true x y h k = h refl
  if-Change false x y h k = k refl
