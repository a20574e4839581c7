-- ===== src/Tickets/Authority.antt =====
-- Who may change a ticket: the requests of app/support_service.py against what other tasks commit
-- between the reading of the ticket and the transaction.
use ai_whats_app_shipment_as.Prelude.{
  ℕ, String, ◌≡◌, ◌∙◌, sym, ap, refl, Bool, true, false, not, ◌&&◌, ◌||◌, Option, some, arith,
  is_none, Option-cases, inl, inr, str_eq, eq_iff, truthy, if◌then◌else◌,
}
use ai_whats_app_shipment_as.Delivery.Message.{TicketStatus}
use ai_whats_app_shipment_as.Tickets.Model.{
  Ticket, State, Result, ok, raised, text_of, is_active_status, is_staff_chat, allowed_transition,
}
use ai_whats_app_shipment_as.Tickets.Table.{find_ticket}
use ai_whats_app_shipment_as.Tickets.Lifecycle.{
  Actor, locked, update_status, transfer_ticket, transferable, resolve_ticket, owner_moved,
}
use ai_whats_app_shipment_as.Tickets.Reopen.{close_staff_chat}
use ai_whats_app_shipment_as.Tickets.Rows.{text_of-some}
use ai_whats_app_shipment_as.Tickets.Desk.{
  Agent, is_supervisor, actor_of, Answer, answered, denied, passed_on, is_resolved, with_ticket,
  can_operate, change_status, transfer, resolve_and_return_to_ai, close_chat,
}

-- A request about one ticket that its assignee may make. A claim is none of these: it takes a
-- ticket that is nobody's.
pub data Demand : Type 0 where
  to_status : TicketStatus → Demand
  to_agent : (ℕ → String) → String → Demand
  to_ai : (ℕ → String) → Demand
  to_close : (ℕ → String) → Demand

unfoldable pub serve :
    (State → State) → (State → State) → ℕ → Demand → ℕ → Agent → State → State × Answer
serve others later now (to_status status) id agent s =
    change_status others later now id status agent s
serve others later now (to_agent uuid target) id agent s =
    transfer others later now uuid id target agent s
serve others later now (to_ai uuid) id agent s =
    resolve_and_return_to_ai others later now uuid id agent s
serve others later now (to_close uuid) id agent s = close_chat others later now uuid id agent s

-- the answer of a request that changed the ticket
abbrev pub is_change : Answer → Bool
is_change (answered _ changed) = changed
is_change (denied _) = false

abbrev won : Result (Ticket × Bool) → Bool
won (ok (_, changed)) = changed
won (raised _) = false

-- The ticket exists and is the agent's.
unfoldable pub OwnedBy : String → ℕ → State → Type 0
OwnedBy agent id s =
    (t : Ticket) × (find_ticket id s.tickets ≡ some t) × (text_of t.current_assignee_id ≡ agent)

module _ (later : State → State) (now : ℕ) (id : ℕ) (a : String) (s : State) where
  -- a transaction that changes something has passed the test on the owner
  abbrev Fair : State × Result (Ticket × Bool) → Type 0
  Fair x = won x.1 ≡ true → OwnedBy a id s

  locked-Fair :
      (k : Ticket → State × Result (Ticket × Bool))
      → ((t : Ticket) → find_ticket id s.tickets ≡ some t → Fair (k t))
      → Fair (locked id s k)
  locked-Fair k each = elim (Option-cases (find_ticket id s.tickets)) [
    | inl e ↦ rw (e, locked) (λ w. cc)
    | inr (t, e) ↦ rw (e, locked) (each t e)
  ]

  guard-Fair :
      (b : Bool) (x y : State × Result (Ticket × Bool))
      → won x.1 ≡ false
      → (b ≡ false → Fair y)
      → Fair (if b then x else y)
  guard-Fair true x y lost k = λ w. cc
  guard-Fair false x y lost k = k refl

  owner :
      (t : Ticket)
      → find_ticket id s.tickets ≡ some t
      → str_eq (text_of t.current_assignee_id) a ≡ true
      → OwnedBy a id s
  unfolding OwnedBy
  owner t found same = (t, found, (eq_iff (text_of t.current_assignee_id) a).0 same)

  update_status-Fair :
      (status : TicketStatus) (actor : Actor)
      → Fair (update_status later now status actor (some a) id s)
  unfolding update_status
  update_status-Fair status actor = locked-Fair _ λ t found.
      guard-Fair (owner_moved (some a) t) _ _ refl (λ e _. owner t found (ground (arith, e)))

  resolve_ticket-Fair :
      (uuid : ℕ → String) (actor : Actor) → Fair (resolve_ticket later now uuid actor (some a) id s)
  unfolding resolve_ticket
  resolve_ticket-Fair uuid actor = locked-Fair _ λ t found.
      guard-Fair (owner_moved (some a) t) _ _ refl (λ e _. owner t found (ground (arith, e)))

  close_staff_chat-Fair :
      (uuid : ℕ → String) (actor : Actor)
      → Fair (close_staff_chat later now uuid actor (some a) id s)
  unfolding close_staff_chat
  close_staff_chat-Fair uuid actor = locked-Fair _ λ t found.
      guard-Fair (not (is_staff_chat t.conversation_origin)) _ _ refl (λ _.
        guard-Fair (owner_moved (some a) t) _ _ refl (λ e _. owner t found (ground (arith, e))))

  transfer_ticket-Fair :
      (uuid : ℕ → String) (target : String) (actor : Actor)
      → Fair (transfer_ticket later now uuid a target actor id s)
  unfolding transfer_ticket transferable
  transfer_ticket-Fair uuid target actor = locked-Fair _ λ t found.
      guard-Fair (not (transferable a target t)) _ _ refl (λ e _. owner t found (ground (arith, e)))

is_change-answer : (x : State × Result (Ticket × Bool)) → is_change (passed_on x).1 ≡ won x.1
is_change-answer (s, ok (t, changed)) = refl
is_change-answer (s, raised e) = refl

module _ (others later : State → State) (now : ℕ) (id : ℕ) (agent : Agent)
    (plain : is_supervisor agent ≡ false) (named : truthy (some agent.id) ≡ true) where
  operator : (t : Ticket) → can_operate t agent ≡ true → t.current_assignee_id ≡ some agent.id
  unfolding can_operate
  operator t e = text_of-some t.current_assignee_id agent.id named (ground (arith, e, plain))

  abbrev Rightful : State → State × Answer → Type 0
  Rightful s x = is_change x.1 ≡ true → OwnedBy agent.id id (others s)

  with_ticket-Rightful :
      (s : State) (k : Ticket → State × Answer)
      → ((t : Ticket) → Rightful s (k t))
      → Rightful s (with_ticket id s k)
  with_ticket-Rightful s k each = elim (Option-cases (find_ticket id s.tickets)) [
    | inl e ↦ rw (e, with_ticket) (λ w. cc)
    | inr (t, e) ↦ rw (e, with_ticket) (each t)
  ]

  guard-Rightful :
      (s : State) (b : Bool) (x y : State × Answer)
      → is_change x.1 ≡ false
      → (b ≡ false → Rightful s y)
      → Rightful s (if b then x else y)
  guard-Rightful s true x y lost k = λ w. cc
  guard-Rightful s false x y lost k = k refl

  asked :
      (s : State) (t : Ticket) (k : Option String → State × Result (Ticket × Bool))
      → not (can_operate t agent) ≡ false
      → Fair later now id agent.id (others s) (k (some agent.id))
      → Rightful s (passed_on (k t.current_assignee_id))
  asked s t k e fair w = fair (
      ap (λ o. won (k o).1) (sym (operator t (ground (arith, e))))
      ∙ sym (is_change-answer (k t.current_assignee_id))
      ∙ w)

  -- A request to change the status of a ticket, to transfer it, to resolve it or to close it, from
  -- a named agent who is not a supervisor, if it changes the ticket, finds it theirs in the
  -- transaction, whatever other tasks have committed since they read it.
  pub serve-OwnedBy :
      (d : Demand) (s : State)
      → is_change (serve others later now d id agent s).1 ≡ true
      → OwnedBy agent.id id (others s)
  unfolding serve change_status transfer resolve_and_return_to_ai close_chat
  serve-OwnedBy (to_status status) s = with_ticket-Rightful s _ λ t.
      guard-Rightful s (is_staff_chat t.conversation_origin) _ _ refl (λ _.
        guard-Rightful s (not (can_operate t agent)) _ _ refl (λ e.
          guard-Rightful s (is_resolved status) _ _ refl (λ _.
            guard-Rightful s (not (allowed_transition t.status status)) _ _ refl (λ _.
              asked s t (λ o. update_status later now status (actor_of agent) o id (others s)) e
                (update_status-Fair later now id agent.id (others s) status (actor_of agent))))))
  serve-OwnedBy (to_agent uuid target) s = with_ticket-Rightful s _ λ t.
      guard-Rightful s (is_none t.active_key || not (is_active_status t.status)) _ _ refl (λ _.
        guard-Rightful s (is_none t.current_assignee_id) _ _ refl (λ _.
          guard-Rightful s (not (can_operate t agent)) _ _ refl (λ e.
            asked s t
              (λ o.
                transfer_ticket later now uuid (text_of o) target (actor_of agent) id (others s))
              e
              (transfer_ticket-Fair later now id agent.id (others s) uuid target
                (actor_of agent)))))
  serve-OwnedBy (to_ai uuid) s = with_ticket-Rightful s _ λ t.
      guard-Rightful s (is_staff_chat t.conversation_origin) _ _ refl (λ _.
        guard-Rightful s (not (can_operate t agent)) _ _ refl (λ e.
          guard-Rightful s (is_none t.current_assignee_id && not (is_supervisor agent)) _ _ refl
            (λ _.
              asked s t (λ o. resolve_ticket later now uuid (actor_of agent) o id (others s)) e
                (resolve_ticket-Fair later now id agent.id (others s) uuid (actor_of agent)))))
  serve-OwnedBy (to_close uuid) s = with_ticket-Rightful s _ λ t.
      guard-Rightful s (not (is_staff_chat t.conversation_origin)) _ _ refl (λ _.
        guard-Rightful s (not (can_operate t agent)) _ _ refl (λ e.
          asked s t (λ o. close_staff_chat later now uuid (actor_of agent) o id (others s)) e
            (close_staff_chat-Fair later now id agent.id (others s) uuid (actor_of agent))))
