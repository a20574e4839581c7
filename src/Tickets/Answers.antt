-- ===== src/Tickets/Answers.antt =====
-- The audit of customers' tickets over sequences of operations, and _ticket_open_at of
-- app/support_repository.py on it.
use mathlib.Core.Path.{subst}
use ai_whats_app_shipment_as.Prelude.{
  ℕ, ◌+◌, ◌≤◌, ◌<◌, String, ◌≡◌, sym, Bool, false, ◌&&◌, Option, none, some, List, [], ◌∷◌, arith,
  All,
}
use ai_whats_app_shipment_as.Tickets.Model.{Ticket, Event, State, is_active_status, is_staff_chat}
use ai_whats_app_shipment_as.Tickets.Table.{find_ticket}
use ai_whats_app_shipment_as.Tickets.Rows.{find_ticket-id}
use ai_whats_app_shipment_as.Tickets.Sound.{IsSound, Change-IsSound}
use ai_whats_app_shipment_as.Tickets.Trace.{Call, apply, run}
use ai_whats_app_shipment_as.Tickets.Openings.{apply-Change}
use ai_whats_app_shipment_as.Tickets.OpenAt.{ticket_open_at, not_before, second}
use ai_whats_app_shipment_as.Tickets.Told.{last_mark, last_marked-last_mark}
use ai_whats_app_shipment_as.Tickets.Audit.{Told}
use ai_whats_app_shipment_as.Tickets.Present.{Past, Audited}
use ai_whats_app_shipment_as.Tickets.AuditKept.{Change-Audited}

-- A clock that does not go back, and where it ends.
unfoldable pub Forward : ℕ → List Call → Type 0
Forward clock [] = Unit
Forward clock (c ∷ cs) = (clock ≤ c.now) × Forward c.now cs

abbrev pub ends : ℕ → List Call → ℕ
ends clock [] = clock
ends clock (c ∷ cs) = ends c.now cs

run-Audited :
    (strip : String → String) (calls : List Call) (clock : ℕ) (s : State)
    → Forward clock calls
    → IsSound s
    → Audited clock s
    → Audited (ends clock calls) (run strip calls s)
unfolding run Forward
run-Audited strip [] clock s forward sound a = a
run-Audited strip (c ∷ cs) clock s forward sound a =
    run-Audited strip cs c.now (apply strip c.now c.op s) forward.1
      (Change-IsSound c.now s (apply-Change c.now s strip c.op) sound)
      (Change-Audited clock c.now s forward.0 (apply-Change c.now s strip c.op) sound a)

past-cutoff :
    (clock next sent_at : ℕ) (es : List Event)
    → clock ≤ sent_at
    → All (Past clock next) es
    → All (λ e. e.created_at < sent_at + second) es
past-cutoff clock next sent_at [] le h = _
past-cutoff clock next sent_at (e ∷ es) le h =
    (omega (arith, le, h.0.0), past-cutoff clock next sent_at es le h.1)

Told-answer :
    (o : Option Bool) (sent_at : ℕ) (t : Ticket)
    → Told o t
    → (elim o [
      | none ↦ not_before sent_at t.resolved_at && not_before sent_at t.closed_at
      | some b ↦ b
    ])
      ≡ is_active_status t.status
unfolding Told
Told-answer none sent_at t h = rw (h.1, h.2) (sym h.0)
Told-answer (some b) sent_at t h = h

-- After any sequence of the operations with a clock that does not go back, a message that is sent
-- when they are done is taken to find a customer's ticket open exactly when its status is active,
-- if that was so before: reading the audit of events comes to the same as reading the row.
pub ticket_open_at-now :
    (strip : String → String) (calls : List Call) (clock sent_at id : ℕ) (s : State) (t : Ticket)
    → Forward clock calls
    → IsSound s
    → Audited clock s
    → find_ticket id (run strip calls s).tickets ≡ some t
    → is_staff_chat t.conversation_origin ≡ false
    → ends clock calls ≤ sent_at
    → ticket_open_at sent_at (sent_at + second) t (run strip calls s).events
      ≡ is_active_status t.status
unfolding ticket_open_at
ticket_open_at-now strip calls clock sent_at id s t forward sound a found mine le =
    let audit = run-Audited strip calls clock s forward sound a in
    let read =
      last_marked-last_mark t.id (sent_at + second) (run strip calls s).events audit.order (
        past-cutoff (ends clock calls) (run strip calls s).next_event sent_at
          (run strip calls s).events le audit.past) in
    let same = find_ticket-id id (run strip calls s).tickets t found in
    rw (mine, read)
      (Told-answer (last_mark t.id (run strip calls s).events) sent_at t (
        subst (λ i. Told (last_mark i (run strip calls s).events) t) (sym same)
          (audit.told id t found mine)))
