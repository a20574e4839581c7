-- ===== src/Tickets/AuditKept.antt =====
-- Every operation of app/support_repository.py on tickets keeps the audit of customers' tickets true.
use mathlib.Core.Path.{subst}
use ai_whats_app_shipment_as.Prelude.{
  ℕ, ◌+◌, ◌≤◌, ◌<◌, ◌≡◌, ◌∙◌, sym, ap, refl, Bool, true, false, Option, none, some, List, [], ◌∷◌,
  ◌++◌, arith, inl, inr, Bool-cases, is_none, All, count_if, length, ◌==◌, if◌then◌else◌,
}
use ai_whats_app_shipment_as.Tickets.Model.{Ticket, State, is_staff_chat}
use ai_whats_app_shipment_as.Tickets.Table.{find_ticket, set_ticket, delete_ticket}
use ai_whats_app_shipment_as.Tickets.Open.{drop_events, new_ticket, new_chat}
use ai_whats_app_shipment_as.Tickets.Change.{RowStep, NewRow, Note, Change, stamped}
use ai_whats_app_shipment_as.Tickets.Change.Change.{still, moved, opened, dropped}
use ai_whats_app_shipment_as.Tickets.Change.NewRow.{ticket_row, chat_row}
use ai_whats_app_shipment_as.Tickets.Rows.{
  with_id, All-find_ticket, find_ticket-id, find_ticket-set_ticket, find_ticket-delete_ticket,
  find_ticket-append, find_ticket-deleted,
}
use ai_whats_app_shipment_as.Tickets.Steps.{RowStep-id, RowStep-origin, NewRow-id}
use ai_whats_app_shipment_as.Tickets.Sound.{Below, IsSound}
use ai_whats_app_shipment_as.Tickets.Told.{InOrder, or_earlier, last_mark}
use ai_whats_app_shipment_as.Tickets.Audit.{Told, RowStep-Told, drop_events-last_mark, note_mark}
use ai_whats_app_shipment_as.Tickets.Present.{
  Past, Past-later, All-drop, drop-InOrder, Audited, written, mark_after,
}

NewRow-mark :
    {s : State} {t : Ticket} {note : Note} → NewRow s t note → note_mark (note ∷ []) ≡ none
NewRow-mark (ticket_row _ _ _) = refl
NewRow-mark (chat_row _ _ _ _) = refl

NewRow-Told :
    {s : State} {t : Ticket} {note : Note}
    → NewRow s t note
    → is_staff_chat t.conversation_origin ≡ false
    → Told none t
unfolding Told new_ticket new_chat
NewRow-Told (ticket_row _ _ _) mine = (refl, refl, refl)
NewRow-Told (chat_row _ _ _ _) mine = cc

same_some : (t u : Ticket) → ◌≡◌ {A = Option Ticket} (some t) (some u) → t ≡ u
same_some t u e = cc

silent : (b : Bool) {o : Option Bool} → o ≡ none → (if b then o else none) ≡ none
silent true e = e
silent false e = refl

equal : (a b : ℕ) → (a == b) ≡ true → a ≡ b
equal a b e = ground (arith, e)

impossible : (P : Type 0) → true ≡ false → P
impossible P e = subst (λ (b : Bool). if b then Unit else P) e _

gone :
    (id k : ℕ) (s : State) (x : Ticket) (P : Type 0)
    → (id == k) ≡ true
    → count_if (with_id id) s.tickets ≤ 1
    → find_ticket k (delete_ticket id s.tickets) ≡ some x
    → P
gone id k s x P here few there = impossible P (
    ap is_none (
      sym (find_ticket-deleted id s.tickets few)
      ∙ ap (λ i. find_ticket i (delete_ticket id s.tickets)) (equal id k here)
      ∙ there))

beyond :
    (id k next more : ℕ) (t : Ticket)
    → t.id < next
    → t.id ≡ id
    → more ≡ next
    → more ≤ k
    → (id == k) ≡ false
beyond id k next more t low same fresh high = ground (arith, low, same, fresh, high)

module _ (clock now : ℕ) (s after : State) (le : clock ≤ now) (sound : IsSound s)
    (a : Audited clock s) where
  moved-Audited :
      (id : ℕ) (t u : Ticket) (notes : List Note)
      → find_ticket id s.tickets ≡ some t
      → RowStep s id t u notes
      → after.tickets ≡ set_ticket id u s.tickets
      → after.events ≡ s.events ++ stamped now id s.next_event notes
      → after.next_event ≡ s.next_event + length notes
      → after.next_ticket ≡ s.next_ticket
      → Audited now after
  moved-Audited id t u notes found step rows log next fresh =
      let kept = written clock now s after le a id notes log next in
      let low = All-find_ticket (Below s.next_ticket) id s.tickets t found sound.fresh in
      let same = find_ticket-id id s.tickets t found in
      record {
        order = kept.0;
        past = kept.1;
        told = λ k x there mine.
            let read =
              sym (
                ap (find_ticket k) rows
                ∙ find_ticket-set_ticket id k t u s.tickets (RowStep-id step ∙ same) found)
              ∙ there in
            elim (Bool-cases (id == k)) [
              | inl here ↦
                  let now_u =
                    same_some u x
                      (sym (ap (λ b. if b then some u else find_ticket k s.tickets) here) ∙ read) in
                  let customer =
                    ap is_staff_chat (sym (RowStep-origin step))
                    ∙ ap (λ y. is_staff_chat y.conversation_origin) now_u
                    ∙ mine in
                  subst (Told (last_mark k after.events)) now_u (
                    subst (λ o. Told o u)
                      (sym (
                        mark_after clock now s after le a id k notes log
                        ∙ ap
                            (λ b.
                              or_earlier (if b then note_mark notes else none)
                                (last_mark k s.events))
                            here))
                      (RowStep-Told step customer (last_mark k s.events) (
                        subst (λ i. Told (last_mark i s.events) t) (ground (arith, here))
                          (a.told id t found customer))))
              | inr other ↦
                  subst (λ o. Told o x)
                    (sym (
                      mark_after clock now s after le a id k notes log
                      ∙ ap
                          (λ b.
                            or_earlier (if b then note_mark notes else none) (last_mark k s.events))
                          other))
                    (a.told k x
                      (sym (ap (λ b. if b then some u else find_ticket k s.tickets) other) ∙ read)
                      mine)
            ];
        unmarked = λ k high.
            mark_after clock now s after le a id k notes log
            ∙ ap (λ b. or_earlier (if b then note_mark notes else none) (last_mark k s.events))
                (beyond id k s.next_ticket after.next_ticket t low same fresh high)
            ∙ a.unmarked k (omega (arith, high, fresh));
      }

  opened-Audited :
      (t : Ticket) (note : Note)
      → NewRow s t note
      → after.tickets ≡ s.tickets ++ (t ∷ [])
      → after.events ≡ s.events ++ stamped now s.next_ticket s.next_event (note ∷ [])
      → after.next_event ≡ s.next_event + 1
      → after.next_ticket ≡ s.next_ticket + 1
      → Audited now after
  opened-Audited t note row rows log next fresh =
      let kept = written clock now s after le a s.next_ticket (note ∷ []) log next in
      let quiet : (k : ℕ) → last_mark k after.events ≡ last_mark k s.events = λ k.
        mark_after clock now s after le a s.next_ticket k (note ∷ []) log
        ∙ ap (λ o. or_earlier o (last_mark k s.events))
            (silent (s.next_ticket == k) (NewRow-mark row)) in
      record {
        order = kept.0;
        past = kept.1;
        told = λ k x there mine.
            let read =
              sym (
                ap (find_ticket k) rows
                ∙ find_ticket-append s.next_ticket k t s.tickets (NewRow-id row) sound.fresh)
              ∙ there in
            subst (λ o. Told o x) (sym (quiet k))
              (elim (Bool-cases (s.next_ticket == k)) [
                | inl here ↦
                    let now_t =
                      same_some t x (
                        sym (ap (λ b. if b then some t else find_ticket k s.tickets) here)
                        ∙ read) in
                    subst (λ o. Told o x) (sym (a.unmarked k (ground (arith, here))))
                      (subst (Told none) now_t (
                        NewRow-Told row
                          (ap (λ y. is_staff_chat y.conversation_origin) now_t ∙ mine)))
                | inr other ↦
                    a.told k x
                      (sym (ap (λ b. if b then some t else find_ticket k s.tickets) other) ∙ read)
                      mine
              ]);
        unmarked = λ k high. quiet k ∙ a.unmarked k (omega (arith, high, fresh));
      }

  dropped-Audited :
      (id : ℕ) (t : Ticket)
      → find_ticket id s.tickets ≡ some t
      → after.tickets ≡ delete_ticket id s.tickets
      → after.events ≡ drop_events id s.events
      → after.next_event ≡ s.next_event
      → after.next_ticket ≡ s.next_ticket
      → Audited now after
  dropped-Audited id t found rows log next fresh =
      let low = All-find_ticket (Below s.next_ticket) id s.tickets t found sound.fresh in
      let same = find_ticket-id id s.tickets t found in
      record {
        order = subst InOrder (sym log) (drop-InOrder id s.events a.order);
        past =
            subst (λ es. All (Past now after.next_event) es) (sym log)
              (All-drop (Past now after.next_event) id s.events (
                Past-later clock now s.next_event after.next_event s.events le (omega (arith, next))
                  a.past));
        told = λ k x there mine.
            let read = sym (ap (find_ticket k) rows) ∙ there in
            elim (Bool-cases (id == k)) [
              | inl here ↦
                  gone id k s x (Told (last_mark k after.events) x) here (sound.one_row id) read
              | inr other ↦
                  subst (λ o. Told o x)
                    (sym (ap (last_mark k) log ∙ drop_events-last_mark id k s.events other))
                    (a.told k x (sym (find_ticket-delete_ticket id k s.tickets other) ∙ read) mine)
            ];
        unmarked = λ k high.
            ap (last_mark k) log
            ∙ drop_events-last_mark id k s.events
                (beyond id k s.next_ticket after.next_ticket t low same fresh high)
            ∙ a.unmarked k (omega (arith, high, fresh));
      }

pub Change-Audited :
    (clock now : ℕ) (s : State) {after : State}
    → clock ≤ now
    → Change now s after
    → IsSound s
    → Audited clock s
    → Audited now after
Change-Audited clock now s le (still same) sound a = subst (Audited now) (sym same) (record {
  order = a.order;
  past = Past-later clock now s.next_event s.next_event s.events le (omega arith) a.past;
  told = a.told;
  unmarked = a.unmarked;
})
Change-Audited clock now s le (moved id t u notes found step rows log next fresh) sound a =
    moved-Audited clock now s _ le sound a id t u notes found step rows log next fresh
Change-Audited clock now s le (opened t note row _ rows log next fresh) sound a =
    opened-Audited clock now s _ le sound a t note row rows log next fresh
Change-Audited clock now s le (dropped id t found _ rows log next fresh) sound a =
    dropped-Audited clock now s _ le sound a id t found rows log next fresh
