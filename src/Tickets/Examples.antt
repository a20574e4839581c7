-- ===== src/Tickets/Examples.antt =====
-- The theorems on tickets at concrete tables, and runs of the operations of
-- app/support_repository.py and app/support_service.py.
use ai_whats_app_shipment_as.Prelude.{
  ℕ, ◌+◌, String, ◌≡◌, refl, true, false, none, some, List, [], ◌∷◌, arith,
}
use ai_whats_app_shipment_as.Delivery.Message.{new, assigned, waiting_customer}
use ai_whats_app_shipment_as.Tickets.Model.{
  Origin, Ticket, Profile, cloud, State, ok, conflict, allowed_transition, ticket_active_key,
}
use ai_whats_app_shipment_as.Tickets.Table.{
  find_ticket, find_line, set_ticket, put_ticket, add_event, key_taken,
}
use ai_whats_app_shipment_as.Tickets.Lifecycle.{
  Actor, claim_ticket, claimable, claimed, update_status, with_status,
}
use ai_whats_app_shipment_as.Tickets.Reopen.{line_available}
use ai_whats_app_shipment_as.Tickets.Open.{
  Request, insert_ticket, create_ticket, find_active_ticket_by_phone, find_last, is_thread,
  bind_ticket_channel, bound, duplicate, append_ticket, new_ticket,
}
use ai_whats_app_shipment_as.Tickets.Trace.{Op, Call, run, apply, claim, open_ticket, transfer}
use ai_whats_app_shipment_as.Tickets.Sound.{IsSound, run-IsSound}
use ai_whats_app_shipment_as.Tickets.Claims.{AtMostOneClaim, run-AtMostOneClaim}
use ai_whats_app_shipment_as.Tickets.Desk
use ai_whats_app_shipment_as.Tickets.Desk.{
  Agent, is_supervisor, can_operate, change_status, get_active_ticket, denied, failed,
}
use ai_whats_app_shipment_as.Tickets.Authority.{OwnedBy, serve, to_status, is_change, serve-OwnedBy}
use ai_whats_app_shipment_as.Tickets.Thread.{OnLine, get_active_ticket-OnLine}
use ai_whats_app_shipment_as.Tickets.Retry.{create_ticket-again}
use ai_whats_app_shipment_as.Tickets.OpenAt.{ticket_open_at, second}
use ai_whats_app_shipment_as.Tickets.Told.{InOrder, last_mark}
use ai_whats_app_shipment_as.Tickets.Present.{Audited}
use ai_whats_app_shipment_as.Tickets.Answers.{Forward, ticket_open_at-now}
use ai_whats_app_shipment_as.Tickets.Orphan.{change_status-stuck}

abbrev profile : Profile
profile = record {
  ticket_reference = "T-1";
  customer_id = none;
  customer_userid = none;
  customer_name = some "Lina";
  reason = "parcel lost";
  ai_summary = "parcel lost";
  tracking_reference = none;
  requested_action = none;
  current_language = none;
  communication_style = none;
  context_json = "{}";
}

abbrev request : Request
request = record {
  profile = profile;
  phone_number = "961700";
  business_phone_number_id = some "L1";
  business_display_phone_number = none;
  source_whatsapp_message_id = some "wamid.1";
}

abbrev empty_state : State
empty_state = record {
  tickets = [];
  messages = [];
  events = [];
  staff =
      record { id = "7"; name = "Ana"; is_active = true }
      ∷ record { id = "8"; name = "Bo"; is_active = true }
      ∷ [];
  lines = [];
  removals = [];
  transport = λ _. cloud;
  next_ticket = 1;
  next_event = 1;
}

abbrev ana : Actor
ana = record { id = "7"; name = "Ana" }

abbrev bo : Actor
bo = record { id = "8"; name = "Bo" }

abbrev strip : String → String
strip text = text

abbrev at : ℕ → Op → Call
at now op = record { now = now; op = op }

-- The ticket is opened, both ask for it, and Ana gives it to Bo.
abbrev calls : List Call
calls =
    at 10 (open_ticket request)
    ∷ at 20 (claim ana 1)
    ∷ at 21 (claim bo 1)
    ∷ at 30 (transfer (λ _. "u") "7" "8" ana 1)
    ∷ []

empty_state-IsSound : IsSound empty_state
empty_state-IsSound = record {
  fresh = _;
  one_row = λ k. omega arith;
  one_thread = λ key. omega arith;
  one_source = λ source. omega arith;
  live = _;
}

run-IsSound_example : IsSound (run strip calls empty_state)
run-IsSound_example = run-IsSound strip calls empty_state empty_state-IsSound

empty_state-AtMostOneClaim : AtMostOneClaim empty_state
unfolding AtMostOneClaim
empty_state-AtMostOneClaim k = omega arith

run-AtMostOneClaim_example : AtMostOneClaim (run strip calls empty_state)
run-AtMostOneClaim_example =
    run-AtMostOneClaim strip calls empty_state empty_state-IsSound empty_state-AtMostOneClaim

-- Ana's ticket.
abbrev mine : Ticket
mine = record {
  id = 1;
  profile = profile;
  active_key = some "L1:961700";
  whatsapp_phone = "961700";
  business_phone_number_id = some "L1";
  business_display_phone_number = none;
  conversation_origin = Origin.customer;
  initiated_by_staff_id = none;
  initiated_by_staff_name = none;
  source_whatsapp_message_id = some "wamid.1";
  status = assigned;
  current_assignee_id = some "7";
  current_assignee_name = some "Ana";
  created_at = 10;
  updated_at = 20;
  last_activity_at = 20;
  assigned_at = some 20;
  resolved_at = none;
  resolved_by_staff_id = none;
  closed_at = none;
}

abbrev with_row : Ticket → State
with_row t = record empty_state { tickets = t ∷ []; next_ticket = 2 }

claimed_state-IsSound : IsSound (with_row mine)
claimed_state-IsSound = record {
  fresh = (omega arith, _);
  one_row = λ k. ground arith;
  one_thread = λ key. ground arith;
  one_source = λ source. ground arith;
  live = (refl, _);
}

abbrev agent : Agent
agent = record { id = "7"; name = "Ana"; role = "agent" }

abbrev manager : Agent
manager = record { id = "9"; name = "Mia"; role = "supervisor" }

abbrev no_others : State → State
no_others s = s

is_plain : is_supervisor agent ≡ false
unfolding is_supervisor
is_plain = refl

ana-answers :
    is_change (serve no_others no_others 30 (to_status waiting_customer) 1 agent (with_row mine)).1
    ≡ true
unfolding serve change_status find_ticket can_operate is_supervisor update_status allowed_transition
    put_ticket set_ticket with_status add_event
ana-answers = refl

serve-OwnedBy_example : OwnedBy "7" 1 (with_row mine)
serve-OwnedBy_example =
    serve-OwnedBy no_others no_others 30 1 agent is_plain refl (to_status waiting_customer)
      (with_row mine) ana-answers

-- A ticket from before lines were recorded, which the line that asks takes.
abbrev legacy : Ticket
legacy = record mine { active_key = some "961700"; business_phone_number_id = none }

abbrev taken : Ticket
taken = record mine { updated_at = 40 }

legacy-taken :
    (get_active_ticket strip no_others no_others no_others 40 "961700"
      (some "L1")
      none
      (with_row legacy)).1
    ≡ ok (some taken)
unfolding get_active_ticket find_active_ticket_by_phone find_last is_thread bind_ticket_channel
    find_ticket bound key_taken put_ticket set_ticket ticket_active_key
legacy-taken = refl

get_active_ticket-OnLine_example : OnLine "L1" taken
get_active_ticket-OnLine_example =
    get_active_ticket-OnLine strip no_others no_others no_others 40 "961700" "L1" none
      (with_row legacy) taken refl legacy-taken

abbrev fresh_ticket : Ticket
fresh_ticket = record mine {
  status = new;
  current_assignee_id = none;
  current_assignee_name = none;
  updated_at = 10;
  last_activity_at = 10;
  assigned_at = none;
}

request-opens : (insert_ticket strip (λ x. x) 10 request empty_state).1 ≡ ok (fresh_ticket, true)
unfolding insert_ticket line_available find_line duplicate add_event append_ticket new_ticket
    find_ticket ticket_active_key
request-opens = refl

fresh-found :
    find_ticket 1
      (run strip
        (at 20 (claim ana 1) ∷ [])
        (insert_ticket strip (λ x. x) 10 request empty_state).0).tickets
    ≡ some mine
unfolding run apply claim_ticket claimable claimed put_ticket set_ticket insert_ticket
    line_available find_line duplicate add_event append_ticket new_ticket find_ticket
    ticket_active_key
fresh-found = refl

create_ticket-again_example :
    create_ticket strip no_others no_others 50 request
      (run strip (at 20 (claim ana 1) ∷ []) (insert_ticket strip (λ x. x) 10 request empty_state).0)
    ≡ (
      run strip (at 20 (claim ana 1) ∷ []) (insert_ticket strip (λ x. x) 10 request empty_state).0,
      ok (mine, false),
    )
create_ticket-again_example =
    create_ticket-again strip 10 50 no_others no_others request "wamid.1" empty_state fresh_ticket
      mine (at 20 (claim ana 1) ∷ []) empty_state-IsSound refl refl request-opens fresh-found

is_manager : is_supervisor manager ≡ true
unfolding is_supervisor
is_manager = refl

fresh_ticket-row : find_ticket 1 (with_row fresh_ticket).tickets ≡ some fresh_ticket
unfolding find_ticket
fresh_ticket-row = refl

change_status-stuck_example :
    (is_change (change_status no_others no_others 20 1 assigned manager (with_row fresh_ticket)).1
      ≡ true)
    × (Desk.claim no_others no_others 30 1 agent
          (change_status no_others no_others 20 1 assigned manager (with_row fresh_ticket)).0
        ≡ (
          (change_status no_others no_others 20 1 assigned manager (with_row fresh_ticket)).0,
          denied (failed conflict),
        ))
    × (Desk.transfer no_others no_others 30
          (λ _. "u")
          1
          "8"
          agent
          (change_status no_others no_others 20 1 assigned manager (with_row fresh_ticket)).0
        ≡ (
          (change_status no_others no_others 20 1 assigned manager (with_row fresh_ticket)).0,
          denied (failed conflict),
        ))
change_status-stuck_example =
    change_status-stuck 20 30 1 manager agent (λ _. "u") "8" (with_row fresh_ticket) fresh_ticket
      fresh_ticket-row refl refl refl is_manager refl

abbrev claimed_calls : List Call
claimed_calls = at 10 (open_ticket request) ∷ at 20 (claim ana 1) ∷ []

forward : Forward 0 claimed_calls
unfolding Forward
forward = (omega arith, (omega arith, _))

empty_state-Audited : Audited 0 empty_state
unfolding find_ticket InOrder last_mark
empty_state-Audited = record {
  order = _;
  past = _;
  told = λ id t found customer. cc;
  unmarked = λ id high. refl;
}

claimed-found : find_ticket 1 (run strip claimed_calls empty_state).tickets ≡ some mine
unfolding run apply claim_ticket claimable claimed put_ticket set_ticket insert_ticket
    line_available find_line duplicate add_event append_ticket new_ticket find_ticket
    ticket_active_key
claimed-found = refl

ticket_open_at-now_example :
    ticket_open_at 100 (100 + second) mine (run strip claimed_calls empty_state).events ≡ true
ticket_open_at-now_example =
    ticket_open_at-now strip claimed_calls 0 100 1 empty_state mine forward empty_state-IsSound
      empty_state-Audited claimed-found refl (omega arith)
