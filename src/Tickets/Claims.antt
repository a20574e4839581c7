-- ===== src/Tickets/Claims.antt =====
-- How often a ticket is claimed: the TICKET_CLAIMED events that claim_ticket of
-- app/support_repository.py leaves.
use mathlib.Core.Path.{subst}
use ai_whats_app_shipment_as.Prelude.{
  ℕ, ◌+◌, ◌≤◌, String, ◌≡◌, ◌∙◌, sym, refl, Bool, true, false, ◌&&◌, Option, none, some, List, [],
  ◌∷◌, ◌++◌, arith, inl, inr, Bool-cases, count_if, count_if-append, if◌then◌else◌, ◌==◌,
}
use ai_whats_app_shipment_as.Delivery.Message.{TicketStatus}
use ai_whats_app_shipment_as.Tickets.Model.{
  Ticket, EventType, ticket_claimed, Event, State, is_new, allowed_transition,
}
use ai_whats_app_shipment_as.Tickets.Table.{find_ticket, set_ticket, delete_ticket}
use ai_whats_app_shipment_as.Tickets.Lifecycle.{
  claimable, claimed, transferred, with_status, resolved_by, in_work,
}
use ai_whats_app_shipment_as.Tickets.Reopen.{reopened, reopened_chat}
use ai_whats_app_shipment_as.Tickets.Open.{bound, drop_events}
use ai_whats_app_shipment_as.Tickets.Change.{RowStep, NewRow, Note, Change, stamped}
use ai_whats_app_shipment_as.Tickets.Rows.{
  find_ticket-id, find_ticket-set_ticket, find_ticket-delete_ticket, find_ticket-append,
  find_ticket-fresh,
}
use ai_whats_app_shipment_as.Tickets.Steps.{RowStep-id, NewRow-id}
use ai_whats_app_shipment_as.Tickets.Sound.{IsSound, Change-IsSound}
use ai_whats_app_shipment_as.Tickets.Trace.{Call, apply, run}
use ai_whats_app_shipment_as.Tickets.Openings.{apply-Change}
use ai_whats_app_shipment_as.Tickets.Change.RowStep.{
  claiming, transferring, changing, resolving, quieting, answering, working, reopening, rechatting,
  closing, binding,
}
use ai_whats_app_shipment_as.Tickets.Change.NewRow.{ticket_row, chat_row}
use ai_whats_app_shipment_as.Tickets.Change.Change.{still, moved, opened, dropped}

abbrev is_claim : EventType → Bool
is_claim ticket_claimed = true
is_claim _ = false

abbrev pub claim_of : ℕ → Event → Bool
claim_of id e = e.ticket_id == id && is_claim e.event_type

abbrev claims : List Note → ℕ
claims ns = count_if (λ n. is_claim n.event_type) ns

-- how many claims a ticket may have behind it
abbrev weight : Ticket → ℕ
weight t = if is_new t.status then 0 else 1

abbrev weight_of : Option Ticket → ℕ
weight_of none = 0
weight_of (some t) = weight t

allowed_transition-new :
    (from to : TicketStatus) → allowed_transition from to ≡ true → is_new to ≡ false
unfolding allowed_transition
allowed_transition-new from to e = ground arith

RowStep-weight :
    {s : State} {id : ℕ} {t : Ticket} {u : Ticket} {notes : List Note}
    → RowStep s id t u notes
    → weight t + claims notes ≤ weight u
unfolding claimed transferred with_status resolved_by in_work reopened reopened_chat bound claimable
RowStep-weight {t = t} (claiming _ _ e) = ground (arith, e)
RowStep-weight {t = t} (transferring _ _ _ _ _ _) = ground arith
RowStep-weight {t = t} (changing _ status _ e) =
    ground (arith, allowed_transition-new t.status status e)
RowStep-weight {t = t} (resolving _ _ _) = ground arith
RowStep-weight {t = t} (quieting _ _ _ _ _) = ground arith
RowStep-weight {t = t} (answering _ _ _) = ground arith
RowStep-weight {t = t} (working _ _ _ _) = ground arith
RowStep-weight {t = t} (reopening _ _ _ _ _ _ _ e _ _ _) = ground (arith, e)
RowStep-weight {t = t} (rechatting _ _ _ _ _) = ground arith
RowStep-weight {t = t} (closing _ _ _ _) = ground arith
RowStep-weight {t = t} (binding _ _ _ _ _ _ _) = ground arith

NewRow-weight :
    {s : State} {t : Ticket} {note : Note} → NewRow s t note → is_claim note.event_type ≡ false
NewRow-weight (ticket_row _ _ _) = refl
NewRow-weight (chat_row _ _ _ _) = refl

stamped-claims :
    (now id first k : ℕ) (ns : List Note)
    → count_if (claim_of k) (stamped now id first ns) ≡ (if id == k then claims ns else 0)
stamped-claims now id first k [] = ground arith
stamped-claims now id first k (n ∷ ns) = ground (arith, stamped-claims now id (first + 1) k ns)

drop_events-claims :
    (id k : ℕ) (es : List Event)
    → count_if (claim_of k) (drop_events id es) ≡ (if id == k then 0 else count_if (claim_of k) es)
unfolding drop_events
drop_events-claims id k [] = ground arith
drop_events-claims id k (e ∷ es) = ground (arith, drop_events-claims id k es)

-- A ticket that is new, or that does not exist, has no claim behind it; another one has at most one.
unfoldable pub AtMostOneClaim : State → Type 0
AtMostOneClaim s = (k : ℕ) → count_if (claim_of k) s.events ≤ weight_of (find_ticket k s.tickets)

module _ (now : ℕ) {s : State} (sound : IsSound s) (h : AtMostOneClaim s) where
  claims_at :
      (id k : ℕ) (o : Option Ticket)
      → (id == k) ≡ true
      → find_ticket id s.tickets ≡ o
      → count_if (claim_of k) s.events ≤ weight_of o
  unfolding AtMostOneClaim
  claims_at id k o e f =
      subst (λ i. count_if (claim_of i) s.events ≤ weight_of o) (ground (arith, e))
        (subst (λ x. count_if (claim_of id) s.events ≤ weight_of x) f (h id))

  moved-AtMostOneClaim :
      (after : State) (id : ℕ) (t u : Ticket) (notes : List Note)
      → find_ticket id s.tickets ≡ some t
      → RowStep s id t u notes
      → after.tickets ≡ set_ticket id u s.tickets
      → after.events ≡ s.events ++ stamped now id s.next_event notes
      → AtMostOneClaim after
  unfolding AtMostOneClaim
  moved-AtMostOneClaim after id t u notes found step rows log k = elim (Bool-cases (id == k)) [
    | inl here ↦
        rw
          (
            rows,
            log,
            count_if-append (claim_of k) s.events (stamped now id s.next_event notes),
            stamped-claims now id s.next_event k notes,
            find_ticket-set_ticket id k t u s.tickets
                (RowStep-id step ∙ find_ticket-id id s.tickets t found) found,
            here,
          )
          (omega (arith, claims_at id k (some t) here found, RowStep-weight step))
    | inr other ↦
        rw
          (
            rows,
            log,
            count_if-append (claim_of k) s.events (stamped now id s.next_event notes),
            stamped-claims now id s.next_event k notes,
            find_ticket-set_ticket id k t u s.tickets
                (RowStep-id step ∙ find_ticket-id id s.tickets t found) found,
            other,
          )
          (omega (arith, h k))
  ]

  opened-AtMostOneClaim :
      (after : State) (t : Ticket) (note : Note)
      → NewRow s t note
      → after.tickets ≡ s.tickets ++ (t ∷ [])
      → after.events ≡ s.events ++ stamped now s.next_ticket s.next_event (note ∷ [])
      → AtMostOneClaim after
  unfolding AtMostOneClaim
  opened-AtMostOneClaim after t note row rows log k = elim (Bool-cases (s.next_ticket == k)) [
    | inl here ↦
        rw
          (
            rows,
            log,
            count_if-append (claim_of k) s.events
                (stamped now s.next_ticket s.next_event (note ∷ [])),
            stamped-claims now s.next_ticket s.next_event k (note ∷ []),
            find_ticket-append s.next_ticket k t s.tickets (NewRow-id row) sound.fresh,
            here,
          )
          (rw (NewRow-weight row) (
            ground (
              arith,
              claims_at s.next_ticket k none here
                  (find_ticket-fresh s.next_ticket s.tickets sound.fresh),
            )))
    | inr other ↦
        rw
          (
            rows,
            log,
            count_if-append (claim_of k) s.events
                (stamped now s.next_ticket s.next_event (note ∷ [])),
            stamped-claims now s.next_ticket s.next_event k (note ∷ []),
            find_ticket-append s.next_ticket k t s.tickets (NewRow-id row) sound.fresh,
            other,
          )
          (omega (arith, h k))
  ]

  dropped-AtMostOneClaim :
      (after : State) (id : ℕ)
      → after.tickets ≡ delete_ticket id s.tickets
      → after.events ≡ drop_events id s.events
      → AtMostOneClaim after
  unfolding AtMostOneClaim
  dropped-AtMostOneClaim after id rows log k = elim (Bool-cases (id == k)) [
    | inl here ↦ rw (rows, log, drop_events-claims id k s.events, here) (omega arith)
    | inr other ↦
        rw
          (
            rows,
            log,
            drop_events-claims id k s.events,
            find_ticket-delete_ticket id k s.tickets other,
            other,
          )
          (h k)
  ]

Change-AtMostOneClaim :
    (now : ℕ) (s : State) {after : State}
    → Change now s after
    → IsSound s
    → AtMostOneClaim s
    → AtMostOneClaim after
Change-AtMostOneClaim now s (still same) sound h = subst AtMostOneClaim (sym same) h
Change-AtMostOneClaim now s (moved id t u notes found step rows log _ _) sound h =
    moved-AtMostOneClaim now sound h _ id t u notes found step rows log
Change-AtMostOneClaim now s (opened t note row _ rows log _ _) sound h =
    opened-AtMostOneClaim now sound h _ t note row rows log
Change-AtMostOneClaim now s (dropped id t _ _ rows log _ _) sound h =
    dropped-AtMostOneClaim now sound h _ id rows log

-- Any sequence of the operations on tickets leaves at most one TICKET_CLAIMED event for a ticket
-- that has been claimed or assigned, and none for one that is new or that does not exist: of any
-- number of agents who ask for a ticket, one wins.
pub run-AtMostOneClaim :
    (strip : String → String) (calls : List Call) (s : State)
    → IsSound s
    → AtMostOneClaim s
    → AtMostOneClaim (run strip calls s)
unfolding run
run-AtMostOneClaim strip [] s sound h = h
run-AtMostOneClaim strip (c ∷ cs) s sound h =
    run-AtMostOneClaim strip cs (apply strip c.now c.op s)
      (Change-IsSound c.now s (apply-Change c.now s strip c.op) sound)
      (Change-AtMostOneClaim c.now s (apply-Change c.now s strip c.op) sound h)
