-- ===== src/Tickets/Present.antt =====
-- Asked for the present, the audit of a customer's ticket answers whether the ticket is active:
-- the operations of app/support_repository.py against its _ticket_open_at.
use mathlib.Core.Path.{subst}
use ai_whats_app_shipment_as.Prelude.{
  ℕ, ◌+◌, ◌≤◌, ◌<◌, ◌≡◌, ◌∙◌, sym, ap, false, none, some, List, [], ◌∷◌, ◌++◌, arith, inl, inr,
  Bool-cases, All, All-append, length, ◌==◌, if◌then◌else◌,
}
use ai_whats_app_shipment_as.Tickets.Model.{Ticket, Event, State, is_staff_chat}
use ai_whats_app_shipment_as.Tickets.Table.{find_ticket}
use ai_whats_app_shipment_as.Tickets.Open.{drop_events}
use ai_whats_app_shipment_as.Tickets.Change.{Note, stamp, stamped}
use ai_whats_app_shipment_as.Tickets.Told.{or_earlier, last_mark, After, InOrder}
use ai_whats_app_shipment_as.Tickets.Audit.{Told, stamped-last_mark, last_mark-append, note_mark}

-- An event is not later than the clock, its id has been drawn.
abbrev pub Past : ℕ → ℕ → Event → Type 0
Past clock next e = (e.created_at ≤ clock) × (e.id < next)

pub Past-later :
    (clock now next more : ℕ) (es : List Event)
    → clock ≤ now
    → next ≤ more
    → All (Past clock next) es
    → All (Past now more) es
Past-later clock now next more [] a b h = h
Past-later clock now next more (e ∷ es) a b h =
    ((omega (arith, a, h.0.0), omega (arith, b, h.0.1)), Past-later clock now next more es a b h.1)

InOrder-append :
    (es fs : List Event)
    → InOrder es
    → InOrder fs
    → All (λ e. All (After e) fs) es
    → InOrder (es ++ fs)
unfolding InOrder
InOrder-append [] fs h k j = k
InOrder-append (e ∷ es) fs h k j =
    (All-append (After e) es fs h.0 j.0, InOrder-append es fs h.1 k j.1)

-- the rows of some notes come after one that is past
stamped-After :
    (clock now id first : ℕ) (e : Event) (ns : List Note)
    → clock ≤ now
    → Past clock first e
    → All (After e) (stamped now id first ns)
stamped-After clock now id first e [] le h = _
stamped-After clock now id first e (n ∷ ns) le h = (
  (omega (arith, le, h.0), h.1),
  stamped-After clock now id (first + 1) e ns le (h.0, omega (arith, h.1)),
)

stamped-all-After :
    (clock now id first : ℕ) (ns : List Note) (es : List Event)
    → clock ≤ now
    → All (Past clock first) es
    → All (λ e. All (After e) (stamped now id first ns)) es
stamped-all-After clock now id first ns [] le h = _
stamped-all-After clock now id first ns (e ∷ es) le h = (
  stamped-After clock now id first e ns le h.0,
  stamped-all-After clock now id first ns es le h.1,
)

stamped-Past :
    (now id first : ℕ) (ns : List Note)
    → All (Past now (first + length ns)) (stamped now id first ns)
stamped-Past now id first [] = _
stamped-Past now id first (n ∷ ns) = (
  (omega arith, omega arith),
  subst (λ m. All (Past now m) (stamped now id (first + 1) ns)) (omega arith)
      (stamped-Past now id (first + 1) ns),
)

stamped-InOrder : (now id first : ℕ) (ns : List Note) → InOrder (stamped now id first ns)
unfolding InOrder
stamped-InOrder now id first [] = _
stamped-InOrder now id first (n ∷ ns) = (
  stamped-After now now id (first + 1) (stamp now id first n) ns (omega arith)
      (omega arith, omega arith),
  stamped-InOrder now id (first + 1) ns,
)

pub All-drop :
    (P : Event → Type 0) (id : ℕ) (es : List Event) → All P es → All P (drop_events id es)
unfolding drop_events
All-drop P id [] h = h
All-drop P id (e ∷ es) h = elim (Bool-cases (e.ticket_id == id)) [
  | inl here ↦ rw here (All-drop P id es h.1)
  | inr there ↦ rw there (h.0, All-drop P id es h.1)
]

pub drop-InOrder : (id : ℕ) (es : List Event) → InOrder es → InOrder (drop_events id es)
unfolding drop_events InOrder
drop-InOrder id [] h = h
drop-InOrder id (e ∷ es) h = elim (Bool-cases (e.ticket_id == id)) [
  | inl here ↦ rw here (drop-InOrder id es h.1)
  | inr there ↦ rw there (All-drop (After e) id es h.0, drop-InOrder id es h.1)
]

-- The audit up to the clock: in order, past, and true of every customer's ticket.
pub record Audited (clock : ℕ) (s : State) : Type 0 where
  pub order : InOrder s.events
  pub past : All (Past clock s.next_event) s.events
  pub told :
      (id : ℕ) (t : Ticket)
      → find_ticket id s.tickets ≡ some t
      → is_staff_chat t.conversation_origin ≡ false
      → Told (last_mark id s.events) t
  pub unmarked : (id : ℕ) → s.next_ticket ≤ id → last_mark id s.events ≡ none

module _ (clock now : ℕ) (s after : State) (le : clock ≤ now) (a : Audited clock s) where
  -- what an operation adds to the audit keeps it in order and past
  pub written :
      (id : ℕ) (ns : List Note)
      → after.events ≡ s.events ++ stamped now id s.next_event ns
      → after.next_event ≡ s.next_event + length ns
      → InOrder after.events × All (Past now after.next_event) after.events
  written id ns log next =
      subst (λ es. InOrder es × All (Past now after.next_event) es) (sym log)
        (subst
          (λ n.
            InOrder (s.events ++ stamped now id s.next_event ns)
            × All (Past now n) (s.events ++ stamped now id s.next_event ns))
          (sym next)
          (
            InOrder-append s.events (stamped now id s.next_event ns) a.order
                (stamped-InOrder now id s.next_event ns)
                (stamped-all-After clock now id s.next_event ns s.events le a.past),
            All-append (Past now (s.next_event + length ns)) s.events
                (stamped now id s.next_event ns)
                (Past-later clock now s.next_event (s.next_event + length ns) s.events le
                  (omega arith) a.past)
                (stamped-Past now id s.next_event ns),
          ))

  pub mark_after :
      (id k : ℕ) (ns : List Note)
      → after.events ≡ s.events ++ stamped now id s.next_event ns
      → last_mark k after.events
        ≡ or_earlier (if id == k then note_mark ns else none) (last_mark k s.events)
  mark_after id k ns log =
      ap (last_mark k) log
      ∙ last_mark-append k s.events (stamped now id s.next_event ns)
      ∙ ap (λ o. or_earlier o (last_mark k s.events)) (stamped-last_mark now id s.next_event k ns)
