-- ===== src/Tickets/Orphan.antt =====
-- A supervisor's change of a new ticket's status to ASSIGNED: update_status of
-- app/support_service.py lets it pass without an assignee.
use ai_whats_app_shipment_as.Prelude.{
  ℕ, String, ◌≡◌, ◌∙◌, sym, ap, refl, inl, inr, is_none, Bool, true, false, not, ◌||◌, Option, none,
  some, arith, Bool-cases, str_eq, eq_iff, truthy, if◌then◌else◌,
}
use ai_whats_app_shipment_as.Delivery.Message.{new, assigned}
use ai_whats_app_shipment_as.Tickets.Model.{
  Ticket, State, status_changed, Details, Result, ok, raised, not_found, conflict, text_of, is_new,
  is_active_status, allowed_transition, is_staff_chat,
}
use ai_whats_app_shipment_as.Tickets.Table.{find_ticket, add_event, put_ticket}
use ai_whats_app_shipment_as.Tickets.Lifecycle.{
  Actor, locked, refused, reloaded, agent_event, claim_ticket, claimable, claimed_by, update_status,
  with_status,
}
use ai_whats_app_shipment_as.Tickets.Rows.{find_ticket-rewritten}
use ai_whats_app_shipment_as.Tickets.Desk.{
  answer_pair, actor_of, Agent, is_supervisor, denied, failed, passed_on, with_ticket, can_operate,
  claim, change_status, transfer,
}
use ai_whats_app_shipment_as.Tickets.Authority.{is_change}

unnamed : (a : String) → truthy (some a) ≡ true → str_eq "" a ≡ false
unnamed a named = elim (Bool-cases (str_eq "" a)) [
  | inl e ↦ ground (arith, named, (eq_iff a "").1 (sym ((eq_iff "" a).0 e)))
  | inr e ↦ e
]

-- A customer's ticket that is ASSIGNED to nobody.
pub record Orphan (t : Ticket) : Type 0 where
  customer : is_staff_chat t.conversation_origin ≡ false
  is_assigned : t.status ≡ assigned
  unowned : t.current_assignee_id ≡ none

module _ {t : Ticket} (o : Orphan t) where
  claimable-Orphan : claimable t ≡ false
  unfolding claimable
  claimable-Orphan = rw (ap is_new o.is_assigned) refl

  claimed_by-Orphan : (actor : Actor) → truthy (some actor.id) ≡ true → claimed_by actor t ≡ false
  unfolding claimed_by
  claimed_by-Orphan actor named =
      ground (arith, unnamed actor.id named, ap (λ a. str_eq (text_of a) actor.id) o.unowned)

either {ℓ} : {A : Type ℓ} (b : Bool) (x y : A) → y ≡ x → (if b then x else y) ≡ x
either true x y e = refl
either false x y e = e

locked-at {ℓ} :
    {A : Type ℓ} (id : ℕ) (s : State) (t : Ticket) (k : Ticket → State × Result A)
    → find_ticket id s.tickets ≡ some t
    → locked id s k ≡ k t
locked-at id s t k e = rw (e, locked) refl

module _ (now : ℕ) (id : ℕ) (s : State) (t : Ticket) (found : find_ticket id s.tickets ≡ some t)
    (o : Orphan t) where
  claim_ticket-Orphan :
      (actor : Actor)
      → truthy (some actor.id) ≡ true
      → claim_ticket (λ x. x) now actor id s ≡ refused s
  unfolding claim_ticket
  claim_ticket-Orphan actor named =
      locked-at id s t _ found ∙ (rw (claimable-Orphan o, claimed_by-Orphan o actor named) refl)

  claim-Orphan :
      (agent : Agent)
      → truthy (some agent.id) ≡ true
      → claim (λ x. x) (λ x. x) now id agent s ≡ (s, denied (failed conflict))
  unfolding claim
  claim-Orphan agent named =
      rw (found, claim) (rw (o.customer, claim_ticket-Orphan (actor_of agent) named) refl)

  transfer-Orphan :
      (uuid : ℕ → String) (target : String) (agent : Agent)
      → transfer (λ x. x) (λ x. x) now uuid id target agent s ≡ (s, denied (failed conflict))
  unfolding transfer
  transfer-Orphan uuid target agent =
      rw (found, with_ticket)
        (rw (ap is_none o.unowned)
          (either (is_none t.active_key || not (is_active_status t.status)) _ _ refl))

abbrev written_answer : Option Ticket → Result (Ticket × Bool)
written_answer none = raised not_found
written_answer (some t) = ok (t, true)

module _ (now : ℕ) (id : ℕ) (agent : Agent) (s : State) (t : Ticket)
    (found : find_ticket id s.tickets ≡ some t)
    (customer : is_staff_chat t.conversation_origin ≡ false) (is_open : t.status ≡ new)
    (unowned : t.current_assignee_id ≡ none) (manager : is_supervisor agent ≡ true) where
  assigned_now : State
  assigned_now = (change_status (λ x. x) (λ x. x) now id assigned agent s).0

  change_status-new :
      change_status (λ x. x) (λ x. x) now id assigned agent s
      ≡ passed_on (update_status (λ x. x) now assigned (actor_of agent) none id s)
  unfolding change_status can_operate allowed_transition
  change_status-new =
      rw (found, with_ticket)
        (rw (customer, manager, ap (λ x. allowed_transition x assigned) is_open, unowned) refl)

  update_status-new :
      (update_status (λ x. x) now assigned (actor_of agent) none id s)
      ≡ reloaded
          (λ x. x)
          not_found
          id
          true
          (agent_event now id status_changed
            (actor_of agent)
            (Details.change t.status assigned)
            (put_ticket id (with_status now assigned t) s))
  unfolding update_status allowed_transition
  update_status-new =
      locked-at id s t _ found ∙ (rw (ap (λ x. allowed_transition x assigned) is_open) refl)

  assigned_now-found :
      (find_ticket id assigned_now.tickets ≡ some (with_status now assigned t))
      × (is_change (change_status (λ x. x) (λ x. x) now id assigned agent s).1 ≡ true)
  unfolding assigned_now with_status put_ticket add_event
  assigned_now-found =
      let written = find_ticket-rewritten id t (with_status now assigned t) s.tickets refl found in
      let step = change_status-new ∙ ap passed_on update_status-new in
      (
        ap (λ x. find_ticket id x.0.tickets) step ∙ written,
        ap (λ x. is_change x.1) step ∙ ap (λ o. is_change (answer_pair (written_answer o))) written,
      )

  with_status-Orphan : Orphan (with_status now assigned t)
  unfolding with_status
  with_status-Orphan = record { customer = customer; is_assigned = refl; unowned = unowned }

-- A supervisor may set a new customer ticket that nobody owns to ASSIGNED. The ticket then is
-- assigned to nobody, and every claim and every transfer of it is a conflict.
pub change_status-stuck :
    (now later : ℕ) (id : ℕ) (manager agent : Agent) (uuid : ℕ → String) (target : String)
    (s : State) (t : Ticket)
    → find_ticket id s.tickets ≡ some t
    → is_staff_chat t.conversation_origin ≡ false
    → t.status ≡ new
    → t.current_assignee_id ≡ none
    → is_supervisor manager ≡ true
    → truthy (some agent.id) ≡ true
    → let after = (change_status (λ x. x) (λ x. x) now id assigned manager s).0 in
      (is_change (change_status (λ x. x) (λ x. x) now id assigned manager s).1 ≡ true)
      × (claim (λ x. x) (λ x. x) later id agent after ≡ (after, denied (failed conflict)))
      × (transfer (λ x. x) (λ x. x) later uuid id target agent after
          ≡ (after, denied (failed conflict)))
unfolding assigned_now
change_status-stuck now later id manager agent uuid target s t found customer is_open unowned super
      named =
    let next = assigned_now-found now id manager s t found customer is_open unowned super in
    let orphan = with_status-Orphan now id manager s t found customer is_open unowned super in
    (
      next.1,
      claim-Orphan later id _ _ next.0 orphan agent named,
      transfer-Orphan later id _ _ next.0 orphan uuid target agent,
    )
