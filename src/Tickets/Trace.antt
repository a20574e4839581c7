-- ===== src/Tickets/Trace.antt =====
-- Sequences of the operations of app/support_repository.py on tickets. The lookups of create_ticket
-- and create_staff_chat change nothing, and their transactions may run at any later time, so the
-- transactions stand in the sequence by themselves.
use ai_whats_app_shipment_as.Prelude.{ℕ, String, Bool, Option, List, [], ◌∷◌}
use ai_whats_app_shipment_as.Delivery.Message.{TicketStatus}
use ai_whats_app_shipment_as.Tickets.Model.{State}
use ai_whats_app_shipment_as.Tickets.Lifecycle.{
  Actor, claim_ticket, transfer_ticket, update_status, resolve_ticket, mark_customer_replied,
  mark_agent_reply_started, auto_resolve,
}
use ai_whats_app_shipment_as.Tickets.Reopen.{
  reopen_customer_ticket, reopen_staff_chat, close_staff_chat,
}
use ai_whats_app_shipment_as.Tickets.Open.{
  Request, insert_ticket, insert_chat, bind_ticket_channel, delete_history_ticket,
  delete_staff_chat,
}

pub data Op : Type 0 where
  claim : Actor → ℕ → Op
  transfer : (ℕ → String) → (expected target : String) → Actor → ℕ → Op
  set_status : TicketStatus → Actor → Option String → ℕ → Op
  resolve : (ℕ → String) → Actor → Option String → ℕ → Op
  customer_answers : ℕ → Op
  agent_answers : Actor → ℕ → Op
  quiet : (idle_minutes : ℕ) → (name : String) → ℕ → Op
  reopen : (ℕ → String) → Actor → Bool → (line : String) → Option ℕ → ℕ → Op
  reopen_chat : Actor → (line : String) → ℕ → Op
  close_chat : (ℕ → String) → Actor → Option String → ℕ → Op
  open_ticket : Request → Op
  open_chat : Actor → Bool → Request → Op
  bind : (phone line : String) → Option String → ℕ → Op
  delete_history : ℕ → Op
  delete_chat : ℕ → Op

pub record Call : Type 0 where
  pub now : ℕ
  pub op : Op

-- The state that an operation leaves. What it reads again after its commit goes into its answer
-- alone, so nothing is committed by others in between here.
unfoldable pub apply : (String → String) → ℕ → Op → State → State
apply strip now (claim actor id) s = (claim_ticket (λ x. x) now actor id s).0
apply strip now (transfer uuid expected target actor id) s =
    (transfer_ticket (λ x. x) now uuid expected target actor id s).0
apply strip now (set_status status actor expected id) s =
    (update_status (λ x. x) now status actor expected id s).0
apply strip now (resolve uuid actor expected id) s =
    (resolve_ticket (λ x. x) now uuid actor expected id s).0
apply strip now (customer_answers id) s = mark_customer_replied now id s
apply strip now (agent_answers actor id) s = mark_agent_reply_started now actor id s
apply strip now (quiet idle_minutes name id) s =
    (auto_resolve (λ x. x) now idle_minutes name id s).0
apply strip now (reopen uuid actor supervisor line resolved_at id) s =
    (reopen_customer_ticket strip (λ x. x) now uuid actor supervisor line resolved_at id s).0
apply strip now (reopen_chat actor line id) s =
    (reopen_staff_chat strip (λ x. x) now actor line id s).0
apply strip now (close_chat uuid actor expected id) s =
    (close_staff_chat (λ x. x) now uuid actor expected id s).0
apply strip now (open_ticket r) s = (insert_ticket strip (λ x. x) now r s).0
apply strip now (open_chat actor include_legacy r) s =
    (insert_chat strip (λ x. x) now actor include_legacy r s).0
apply strip now (bind phone line display id) s =
    (bind_ticket_channel strip (λ x. x) now phone line display id s).0
apply strip now (delete_history id) s = (delete_history_ticket id s).0
apply strip now (delete_chat id) s = (delete_staff_chat id s).0

unfoldable pub run : (String → String) → List Call → State → State
run strip [] s = s
run strip (c ∷ cs) s = run strip cs (apply strip c.now c.op s)
