-- ===== src/Tickets/Audit.antt =====
-- The audit of a customer's ticket tells whether the ticket is open: the events that the operations
-- of app/support_repository.py leave, read by its _ticket_open_at.
use ai_whats_app_shipment_as.Prelude.{
  ℕ, ◌+◌, ◌≡◌, ◌∙◌, sym, ap, refl, Bool, true, false, Option, none, some, List, [], ◌∷◌, ◌++◌,
  arith, inl, inr, Bool-cases, ◌==◌, if◌then◌else◌,
}
use ai_whats_app_shipment_as.Delivery.Message.{
  TicketStatus, new, assigned, in_progress, waiting_customer, waiting_internal, resolved, closed,
}
use ai_whats_app_shipment_as.Tickets.Model.{
  Ticket, Event, State, Details, is_active_status, is_staff_chat, allowed_transition,
}
use ai_whats_app_shipment_as.Tickets.Lifecycle.{
  claimable, claimed, transferable, transferred, with_status, resolved_by, in_work,
}
use ai_whats_app_shipment_as.Tickets.Reopen.{reopened}
use ai_whats_app_shipment_as.Tickets.Open.{bound, drop_events}
use ai_whats_app_shipment_as.Tickets.Change.{RowStep, Note, stamped}
use ai_whats_app_shipment_as.Tickets.Change.RowStep.{
  claiming, transferring, changing, resolving, quieting, answering, working, reopening, rechatting,
  closing, binding,
}
use ai_whats_app_shipment_as.Tickets.Steps.{allowed_transition-active}
use ai_whats_app_shipment_as.Tickets.OpenAt.{mark_of_ticket, ticket_mark, to_closed}
use ai_whats_app_shipment_as.Tickets.Told.{or_earlier, last_mark}

-- The mark agrees with the row; a ticket without a mark has been open from the start.
unfoldable pub Told : Option Bool → Ticket → Type 0
Told none t = (is_active_status t.status ≡ true) × (t.resolved_at ≡ none) × (t.closed_at ≡ none)
Told (some b) t = b ≡ is_active_status t.status

abbrev pub note_mark : List Note → Option Bool
note_mark [] = none
note_mark (n ∷ ns) = or_earlier (note_mark ns) (ticket_mark n.event_type n.details)

-- a step that changes neither the activity nor the times of the end
Told-same :
    (o : Option Bool) (t u : Ticket)
    → is_active_status u.status ≡ is_active_status t.status
    → u.resolved_at ≡ t.resolved_at
    → u.closed_at ≡ t.closed_at
    → Told o t
    → Told o u
unfolding Told
Told-same none t u e r c h = (e ∙ h.0, r ∙ h.1, c ∙ h.2)
Told-same (some b) t u e r c h = h ∙ sym e

Told-marked : (b : Bool) (u : Ticket) → b ≡ is_active_status u.status → Told (some b) u
unfolding Told
Told-marked b u e = e

Told-changing :
    (now : ℕ) (status : TicketStatus) (t : Ticket) (o : Option Bool)
    → allowed_transition t.status status ≡ true
    → Told o t
    → Told
        (or_earlier (if to_closed (Details.change t.status status) then some false else none) o)
        (with_status now status t)
unfolding with_status
Told-changing now new t o e h =
    Told-same o t (with_status now new t) (allowed_transition-active t.status new e) refl refl h
Told-changing now assigned t o e h =
    Told-same o t (with_status now assigned t) (allowed_transition-active t.status assigned e) refl
      refl h
Told-changing now in_progress t o e h =
    Told-same o t (with_status now in_progress t) (allowed_transition-active t.status in_progress e)
      refl refl h
Told-changing now waiting_customer t o e h =
    Told-same o t (with_status now waiting_customer t)
      (allowed_transition-active t.status waiting_customer e) refl refl h
Told-changing now waiting_internal t o e h =
    Told-same o t (with_status now waiting_internal t)
      (allowed_transition-active t.status waiting_internal e) refl refl h
Told-changing now resolved t o e h =
    Told-same o t (with_status now resolved t) (allowed_transition-active t.status resolved e) refl
      refl h
Told-changing now closed t o e h = Told-marked false (with_status now closed t) refl

pub RowStep-Told :
    {s : State} {id : ℕ} {t : Ticket} {u : Ticket} {notes : List Note}
    → RowStep s id t u notes
    → is_staff_chat t.conversation_origin ≡ false
    → (o : Option Bool) → Told o t
    → Told (or_earlier (note_mark notes) o) u
unfolding claimed transferred resolved_by in_work reopened bound claimable transferable
RowStep-Told {t = t} (claiming now actor e) mine o h =
    Told-same o t (claimed now actor t) (ground (arith, e)) refl refl h
RowStep-Told {t = t} (transferring now expected target name actor e) mine o h =
    Told-same o t (transferred now target name t) (ground (arith, e)) refl refl h
RowStep-Told {t = t} (changing now status actor e) mine o h = Told-changing now status t o e h
RowStep-Told {t = t} (resolving now actor _) mine o h =
    Told-marked false (resolved_by now (some actor.id) t) refl
RowStep-Told {t = t} (quieting now idle_minutes name _ _) mine o h =
    Told-marked false (resolved_by now none t) refl
RowStep-Told {t = t} (answering now e _) mine o h =
    Told-same o t (in_work now t) (sym (ap is_active_status e)) refl refl h
RowStep-Told {t = t} (working now actor e _) mine o h =
    Told-same o t (in_work now t) (sym (ap is_active_status e)) refl refl h
RowStep-Told {t = t} (reopening now supervisor status key name actor e _ _ _ _) mine o h =
    Told-marked true (reopened now supervisor status key _ name t) (sym e)
RowStep-Told (rechatting _ _ _ e _) mine o h = ground (arith, e, mine)
RowStep-Told (closing _ _ e _) mine o h = ground (arith, e, mine)
RowStep-Told {t = t} (binding strip now phone line display _ _) mine o h =
    Told-same o t (bound strip now phone line display t) refl refl refl h

pub stamped-last_mark :
    (now id first k : ℕ) (ns : List Note)
    → last_mark k (stamped now id first ns) ≡ (if id == k then note_mark ns else none)
unfolding last_mark
stamped-last_mark now id first k [] = ground arith
stamped-last_mark now id first k (n ∷ ns) = elim (Bool-cases (id == k)) [
  | inl here ↦ rw (stamped-last_mark now id (first + 1) k ns, here) refl
  | inr other ↦ rw (stamped-last_mark now id (first + 1) k ns, other) refl
]

or_earlier_assoc :
    (a b c : Option Bool) → or_earlier (or_earlier a b) c ≡ or_earlier a (or_earlier b c)
or_earlier_assoc none b c = refl
or_earlier_assoc (some x) b c = refl

or_earlier-none : (o : Option Bool) → or_earlier o none ≡ o
or_earlier-none none = refl
or_earlier-none (some b) = refl

apart : (a b c : ℕ) → (a == b) ≡ true → (b == c) ≡ false → (a == c) ≡ false
apart a b c e f = ground (arith, e, f)

pub last_mark-append :
    (k : ℕ) (es fs : List Event)
    → last_mark k (es ++ fs) ≡ or_earlier (last_mark k fs) (last_mark k es)
unfolding last_mark
last_mark-append k [] fs = sym (or_earlier-none (last_mark k fs))
last_mark-append k (e ∷ es) fs =
    let own = if e.ticket_id == k then mark_of_ticket e else none in
    ap (λ o. or_earlier o own) (last_mark-append k es fs)
    ∙ or_earlier_assoc (last_mark k fs) (last_mark k es) own

pub drop_events-last_mark :
    (id k : ℕ) (es : List Event)
    → (id == k) ≡ false
    → last_mark k (drop_events id es) ≡ last_mark k es
unfolding last_mark drop_events
drop_events-last_mark id k [] other = refl
drop_events-last_mark id k (e ∷ es) other = elim (Bool-cases (e.ticket_id == id)) [
  | inl here ↦
      rw (here, apart e.ticket_id id k here other)
        (drop_events-last_mark id k es other ∙ sym (or_earlier-none (last_mark k es)))
  | inr there ↦ rw there (
      ap (λ o. or_earlier o (if e.ticket_id == k then mark_of_ticket e else none))
        (drop_events-last_mark id k es other))
]
