-- ===== src/Tickets/OpenAt.antt =====
-- Which conversations were open when a message was sent: _tickets_open_at_whatsapp_timestamp and
-- _ticket_open_at of app/support_repository.py, and ticket_for_delayed_inbound of
-- app/support_service.py. Instants are microseconds.
use ai_whats_app_shipment_as.Prelude.{
  ℕ, ◌+◌, String, Bool, true, false, not, ◌&&◌, ◌||◌, Option, none, some, List, [], ◌∷◌, ◌++◌,
  is_none, eq_sql, ltb, leb, ◌==◌, str_eq, truthy, if◌then◌else◌,
}
use ai_whats_app_shipment_as.Delivery.Message.{closed}
use ai_whats_app_shipment_as.Tickets.Model.{
  Ticket, Event, EventType, ticket_resolved, ticket_reopened, ticket_closed, ticket_restored,
  chat_started, chat_reopened, chat_closed, chat_restored, status_changed, Details, is_staff_chat,
  text_of,
}
use ai_whats_app_shipment_as.Tickets.Phone.{normalize_phone}

abbrev pub to_closed : Details → Bool
to_closed (Details.change _ closed) = true
to_closed _ = false

-- What an event says of a chat: whether it is open from then on.
abbrev pub chat_mark : EventType → Option Bool
chat_mark chat_started = some true
chat_mark chat_reopened = some true
chat_mark chat_restored = some true
chat_mark chat_closed = some false
chat_mark _ = none

-- The same for a customer's ticket.
abbrev pub ticket_mark : EventType → Details → Option Bool
ticket_mark ticket_reopened d = some true
ticket_mark ticket_restored d = some true
ticket_mark ticket_resolved d = some false
ticket_mark ticket_closed d = some false
ticket_mark status_changed d = if to_closed d then some false else none
ticket_mark _ d = none

-- ORDER BY created_at DESC, id DESC
abbrev pub newer : Event → Event → Bool
newer a b = ltb b.created_at a.created_at || (a.created_at == b.created_at && ltb b.id a.id)

abbrev pub newest : Event → Option Event → Option Event
newest e none = some e
newest e (some x) = if newer e x then some e else some x

-- the newest event of the ticket with a mark, before the cutoff
unfoldable pub last_marked : (Event → Option Bool) → ℕ → ℕ → List Event → Option Event
last_marked mark id cutoff [] = none
last_marked mark id cutoff (e ∷ es) =
    let rest = last_marked mark id cutoff es in
    if e.ticket_id == id && not (is_none (mark e)) && ltb e.created_at cutoff
    then newest e rest
    else rest

abbrev pub mark_in : (Event → Option Bool) → Option Event → Option Bool
mark_in mark none = none
mark_in mark (some e) = mark e

abbrev pub mark_of_chat : Event → Option Bool
mark_of_chat e = chat_mark e.event_type

abbrev pub mark_of_ticket : Event → Option Bool
mark_of_ticket e = ticket_mark e.event_type e.details

abbrev pub not_before : ℕ → Option ℕ → Bool
not_before at none = true
not_before at (some t) = leb at t

abbrev pub second : ℕ
second = 1000000

unfoldable pub ticket_open_at : ℕ → ℕ → Ticket → List Event → Bool
ticket_open_at sent_at cutoff t es =
    if is_staff_chat t.conversation_origin
    then (elim (mark_in mark_of_chat (last_marked mark_of_chat t.id cutoff es)) [
      | none ↦ false
      | some b ↦ b
    ])
    else elim (mark_in mark_of_ticket (last_marked mark_of_ticket t.id cutoff es)) [
      | none ↦ not_before sent_at t.resolved_at && not_before sent_at t.closed_at
      | some b ↦ b
    ]

-- ORDER BY id DESC, on rows that stand in the order of their ids
unfoldable pub tickets_open_at : String → String → ℕ → List Event → List Ticket → List Ticket
tickets_open_at phone line sent_at es [] = []
tickets_open_at phone line sent_at es (t ∷ ts) =
    let rest = tickets_open_at phone line sent_at es ts in
    if str_eq t.whatsapp_phone phone
      && eq_sql t.business_phone_number_id (some line)
      && ltb t.created_at (sent_at + second)
      && ticket_open_at sent_at (sent_at + second) t es
    then rest ++ (t ∷ [])
    else rest

-- What ticket_for_delayed_inbound answers.
pub data Match : Type 0 where
  no_line_identity no_ticket_at_send_time ambiguous_ticket_at_send_time : Match
  matched : Ticket → Match

abbrev only : List Ticket → Match
only [] = no_ticket_at_send_time
only (t ∷ []) = matched t
only (t ∷ _ ∷ _) = ambiguous_ticket_at_send_time

-- `is_digit` is the class of the pattern in normalize_phone, and `strip` the string method.
unfoldable pub ticket_for_delayed_inbound :
    (ℕ → Bool) → (String → String) → String → Option String → ℕ → List Event → List Ticket → Match
ticket_for_delayed_inbound is_digit strip phone line sent_at es ts =
    let peer = normalize_phone is_digit phone in
    let line_id = strip (text_of line) in
    if not (truthy (some peer)) || not (truthy (some line_id))
    then no_line_identity
    else only (tickets_open_at peer line_id sent_at es ts)
