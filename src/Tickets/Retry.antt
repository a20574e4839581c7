-- ===== src/Tickets/Retry.antt =====
-- A handoff that is retried: create_ticket of app/support_repository.py with a message that has
-- opened a ticket before.
use mathlib.Core.Path.{subst}
use ai_whats_app_shipment_as.Prelude.{
  ℕ, ◌+◌, ◌≤◌, ◌<◌, String, ◌≡◌, ◌∙◌, sym, ap, refl, Bool, true, false, not, Option, none, some,
  List, [], ◌∷◌, ◌++◌, arith, inl, inr, Bool-cases, All, All-append, count_if, eq_sql, eq_iff,
  truthy, ◌==◌, if◌then◌else◌,
}
use ai_whats_app_shipment_as.Tickets.Model.{Ticket, State, Result, ok, text_of, ticket_active_key}
use ai_whats_app_shipment_as.Tickets.Table.{find_ticket, add_event}
use ai_whats_app_shipment_as.Tickets.Reopen.{line_available}
use ai_whats_app_shipment_as.Tickets.Open.{
  Request, new_ticket, append_ticket, duplicate, find_last, find_active_ticket_by_phone,
  get_ticket_by_source_message, find_existing, existing_ticket, or_integrity, insert_ticket,
  create_ticket,
}
use ai_whats_app_shipment_as.Tickets.Change.{Change}
use ai_whats_app_shipment_as.Tickets.Change.Change.{still, moved, opened, dropped}
use ai_whats_app_shipment_as.Tickets.Rows.{
  All-set_ticket, All-delete_ticket, All-find_ticket, find_ticket-id, find_ticket-last, found_first,
}
use ai_whats_app_shipment_as.Tickets.Steps.{has_source, RowStep-id, RowStep-source, NewRow-id}
use ai_whats_app_shipment_as.Tickets.Sound.{Below, IsSound, Change-IsSound, run-IsSound}
use ai_whats_app_shipment_as.Tickets.Trace.{Call, apply, run}
use ai_whats_app_shipment_as.Tickets.Openings.{apply-Change, insert_ticket-Change}

-- A test that only one row passes finds that row.
find_last-none : (p : Ticket → Bool) (ts : List Ticket) → count_if p ts ≡ 0 → find_last p ts ≡ none
unfolding find_last
find_last-none p [] few = refl
find_last-none p (x ∷ xs) few = ground (arith, find_last-none p xs)

find_last-first :
    (p : Ticket → Bool) (x : Ticket) (xs : List Ticket)
    → p x ≡ true
    → count_if p (x ∷ xs) ≤ 1
    → find_last p (x ∷ xs) ≡ some x
unfolding find_last
find_last-first p x xs e few = rw (find_last-none p xs (ground (arith, few, e)), e) refl

find_last-only :
    (p : Ticket → Bool) (id : ℕ) (ts : List Ticket) (t : Ticket)
    → find_ticket id ts ≡ some t
    → p t ≡ true
    → count_if p ts ≤ 1
    → find_last p ts ≡ some t
unfolding find_last find_ticket
find_last-only p id [] t found holds few = cc
find_last-only p id (x ∷ xs) t found holds few = elim (Bool-cases (x.id == id)) [
  | inl here ↦
      find_last-first p x xs (ap p (found_first x xs id t here found) ∙ holds) few
      ∙ ap some (found_first x xs id t here found)
  | inr later ↦
      rw (find_last-only p id xs t (ground (arith, later)) holds (ground (arith, few))) refl
]

find_existing-source :
    (source : String) (thread : Option Ticket) (ts : List Ticket) (t : Ticket)
    → truthy (some source) ≡ true
    → find_last (has_source source) ts ≡ some t
    → find_existing (some source) thread ts ≡ some t
unfolding get_ticket_by_source_message
find_existing-source source thread ts t named found = rw (named, found) refl

existing_ticket-source :
    (s : State) (id : ℕ) (t : Ticket) (r : Request) (source : String)
    → IsSound s
    → find_ticket id s.tickets ≡ some t
    → t.source_whatsapp_message_id ≡ some source
    → r.source_whatsapp_message_id ≡ some source
    → truthy (some source) ≡ true
    → existing_ticket r s ≡ some t
unfolding existing_ticket
existing_ticket-source s id t r source sound found mine asked named =
    ap
      (λ o.
        find_existing o
          (find_active_ticket_by_phone r.phone_number r.business_phone_number_id true s.tickets)
          s.tickets)
      asked
    ∙ find_existing-source source _ s.tickets t named (
        find_last-only (has_source source) id s.tickets t found
          (ap (λ o. eq_sql o (some source)) mine ∙ (eq_iff source source).1 refl)
          (sound.one_source source))

-- The row with the id came from the message.
abbrev From : ℕ → String → Ticket → Type 0
From id source t = t.id ≡ id → t.source_whatsapp_message_id ≡ some source

Change-From :
    (now id : ℕ) (source : String) (s : State) {after : State}
    → Change now s after
    → id < s.next_ticket
    → All (From id source) s.tickets
    → All (From id source) after.tickets
Change-From now id source s (still same) low h =
    subst (λ x. All (From id source) x.tickets) (sym same) h
Change-From now id source s (moved k t u notes found step rows _ _ _) low h =
    subst (All (From id source)) (sym rows) (
      All-set_ticket (From id source) k u s.tickets
        (λ same.
          RowStep-source step
          ∙ All-find_ticket (From id source) k s.tickets t found h (sym (RowStep-id step) ∙ same))
        h)
Change-From now id source s (opened t note row _ rows _ _ _) low h =
    subst (All (From id source)) (sym rows) (
      All-append (From id source) s.tickets (t ∷ []) h
        ((λ same. ground (arith, same, NewRow-id row, low)), _))
Change-From now id source s (dropped k t _ _ rows _ _ _) low h =
    subst (All (From id source)) (sym rows) (All-delete_ticket (From id source) k s.tickets h)

Change-later :
    (now : ℕ) (s : State) {after : State} {id : ℕ}
    → Change now s after
    → id < s.next_ticket
    → id < after.next_ticket
Change-later now s (still same) low = omega (arith, ap (λ x. x.next_ticket) same, low)
Change-later now s (moved _ _ _ _ _ _ _ _ _ next) low = omega (arith, next, low)
Change-later now s (opened _ _ _ _ _ _ _ next) low = omega (arith, next, low)
Change-later now s (dropped _ _ _ _ _ _ _ next) low = omega (arith, next, low)

run-From :
    (strip : String → String) (calls : List Call) (id : ℕ) (source : String) (s : State)
    → id < s.next_ticket
    → All (From id source) s.tickets
    → All (From id source) (run strip calls s).tickets
unfolding run
run-From strip [] id source s low h = h
run-From strip (c ∷ cs) id source s low h =
    run-From strip cs id source (apply strip c.now c.op s)
      (Change-later c.now s (apply-Change c.now s strip c.op) low)
      (Change-From c.now id source s (apply-Change c.now s strip c.op) low h)

-- What the transaction that opens a ticket leaves.
record Opened (s after : State) (r : Request) (t : Ticket) : Type 0 where
  id : t.id ≡ s.next_ticket
  source : t.source_whatsapp_message_id ≡ r.source_whatsapp_message_id
  rows : after.tickets ≡ s.tickets ++ (t ∷ [])
  next : after.next_ticket ≡ s.next_ticket + 1

module _ (s : State) (r : Request) (t : Ticket) where
  abbrev Opens : State × Result (Ticket × Bool) → Type 0
  Opens x = x.1 ≡ ok (t, true) → Opened s x.0 r t

  if-Opens :
      (b : Bool) (x y : State × Result (Ticket × Bool))
      → Opens x
      → (b ≡ false → Opens y)
      → Opens (if b then x else y)
  if-Opens true x y h k = h
  if-Opens false x y h k = k refl

  late-Opens : (o : Option Ticket) → Opens (s, or_integrity o)
  late-Opens none = λ e. cc
  late-Opens (some u) = λ e. cc

  same_row : (u : Ticket) → ◌≡◌ {A = Result (Ticket × Bool)} (ok (u, true)) (ok (t, true)) → u ≡ t
  same_row u e = cc

  insert_ticket-Opened :
      (strip : String → String) (now : ℕ) → IsSound s → Opens (insert_ticket strip (λ x. x) now r s)
  unfolding insert_ticket append_ticket add_event new_ticket
  insert_ticket-Opened strip now sound =
      let key = ticket_active_key strip r.phone_number r.business_phone_number_id in
      let row = new_ticket s.next_ticket now key r in
      if-Opens (not (line_available (text_of r.business_phone_number_id) s)) _ _ (λ e. cc)
        (λ _. if-Opens (duplicate row s.tickets) _ _ (late-Opens (existing_ticket r s)) (λ _.
          rw (find_ticket-last s.next_ticket row s.tickets refl sound.fresh) (λ e.
            subst (Opened s _ r) (same_row row e)
              (record { id = refl; source = refl; rows = refl; next = refl }))))

All-vacuous :
    (id : ℕ) (source : String) (ts : List Ticket) → All (Below id) ts → All (From id source) ts
All-vacuous id source [] h = h
All-vacuous id source (t ∷ ts) h =
    ((λ same. ground (arith, h.0, same)), All-vacuous id source ts h.1)

create_ticket-known :
    (strip : String → String) (others meanwhile : State → State) (now : ℕ) (r : Request) (s : State)
    (t : Ticket)
    → existing_ticket r s ≡ some t
    → create_ticket strip others meanwhile now r s ≡ (others s, ok (t, false))
unfolding create_ticket
create_ticket-known strip others meanwhile now r s t e = rw (e, create_ticket) refl

-- A message that has opened a ticket opens no other: when the handoff is tried again, after any
-- sequence of operations that has left the ticket in the table, create_ticket answers that ticket
-- as it stands then and adds nothing to what the other tasks commit.
pub create_ticket-again :
    (strip : String → String) (now later : ℕ) (others meanwhile : State → State) (r : Request)
    (source : String) (s : State) (t u : Ticket) (calls : List Call)
    → IsSound s
    → r.source_whatsapp_message_id ≡ some source
    → truthy (some source) ≡ true
    → (insert_ticket strip (λ x. x) now r s).1 ≡ ok (t, true)
    → find_ticket t.id (run strip calls (insert_ticket strip (λ x. x) now r s).0).tickets ≡ some u
    → create_ticket strip others meanwhile later r
        (run strip calls (insert_ticket strip (λ x. x) now r s).0)
      ≡ (others (run strip calls (insert_ticket strip (λ x. x) now r s).0), ok (u, false))
create_ticket-again strip now later others meanwhile r source s t u calls sound asked named made
      found =
    let first = insert_ticket-Opened s r t strip now sound made in
    let after = (insert_ticket strip (λ x. x) now r s).0 in
    let rows = run-From strip calls t.id source after (omega (arith, first.next, first.id)) (
      subst (All (From t.id source)) (sym first.rows) (
        All-append (From t.id source) s.tickets (t ∷ [])
          (subst (λ i. All (From i source) s.tickets) (sym first.id)
            (All-vacuous s.next_ticket source s.tickets sound.fresh))
          ((λ _. first.source ∙ asked), _))) in
    create_ticket-known strip others meanwhile later r (run strip calls after) u (
      existing_ticket-source (run strip calls after) t.id u r source
        (run-IsSound strip calls after
          (Change-IsSound now s (insert_ticket-Change now s strip r) sound))
        found
        (All-find_ticket (From t.id source) t.id _ u found rows (find_ticket-id t.id _ u found))
        asked named)
