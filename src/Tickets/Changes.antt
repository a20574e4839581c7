-- ===== src/Tickets/Changes.antt =====
-- Each operation makes a change that Tickets.Change describes.
use ai_whats_app_shipment_as.Prelude.{
  ℕ, String, ◌≡◌, refl, Bool, true, false, not, ◌&&◌, Option, some, [], ◌∷◌, arith, is_none,
  is_some, str_eq,
}
use mathlib.Core.List.{append_assoc}
use ai_whats_app_shipment_as.Delivery.Message.{TicketStatus}
use ai_whats_app_shipment_as.Tickets.Model.{
  State, Details, is_active_status, is_new, is_staff_chat, allowed_transition, text_of,
  ticket_active_key,
}
use ai_whats_app_shipment_as.Tickets.Table.{find_staff, key_taken, add_event, put_ticket, fence}
use ai_whats_app_shipment_as.Tickets.Lifecycle.{
  Actor, claim_ticket, claimable, claimed_by, transfer_ticket, transferable, active_staff,
  owner_moved, update_status, resolve_ticket,
}
use ai_whats_app_shipment_as.Tickets.Reopen.{
  reopen_customer_ticket, reopen_staff_chat, close_staff_chat, reopening_allowed, reopenable,
  was_reopened, line_available, restored_status, last_resolution,
}
use ai_whats_app_shipment_as.Tickets.Change.{RowStep, Change, locked-Change, if-Change}
use ai_whats_app_shipment_as.Tickets.Change.{still, moved}

restored_status-active : (d : Option Details) → is_active_status (restored_status d) ≡ true
unfolding restored_status
restored_status-active d = ground arith

restored_status-new : (d : Option Details) → is_new (restored_status d) ≡ false
unfolding restored_status
restored_status-new d = ground arith

module _ (now : ℕ) (s : State) where
  pub claim_ticket-Change :
      (actor : Actor) (id : ℕ) → Change now s (claim_ticket (λ x. x) now actor id s).0
  unfolding claim_ticket add_event put_ticket
  claim_ticket-Change actor id = locked-Change now s id _ λ t found.
      if-Change now s (claimable t) _ _
        (λ e. moved id t _ _ found (RowStep.claiming now actor e) refl refl refl refl)
        (λ _. if-Change now s (claimed_by actor t) _ _ (λ _. still refl) (λ _. still refl))

  pub transfer_ticket-Change :
      (uuid : ℕ → String) (expected target : String) (actor : Actor) (id : ℕ)
      → Change now s (transfer_ticket (λ x. x) now uuid expected target actor id s).0
  unfolding transfer_ticket fence add_event put_ticket
  transfer_ticket-Change uuid expected target actor id = locked-Change now s id _ λ t found.
      if-Change now s (not (transferable expected target t)) _ _ (λ _. still refl)
        (λ e.
          if-Change now s (not (active_staff (find_staff target s.staff))) _ _ (λ _. still refl)
            (λ _.
              if-Change now s (not (fence now uuid id s).1) _ _ (λ _. still refl)
                (λ _.
                  moved id t _ _ found
                    (RowStep.transferring now expected target _ actor (ground (arith, e))) refl refl
                    refl refl)))

  pub update_status-Change :
      (status : TicketStatus) (actor : Actor) (expected : Option String) (id : ℕ)
      → Change now s (update_status (λ x. x) now status actor expected id s).0
  unfolding update_status add_event put_ticket
  update_status-Change status actor expected id = locked-Change now s id _ λ t found.
      if-Change now s (owner_moved expected t) _ _ (λ _. still refl)
        (λ _.
          if-Change now s (not (allowed_transition t.status status)) _ _ (λ _. still refl)
            (λ e.
              moved id t _ _ found (RowStep.changing now status actor (ground (arith, e))) refl refl
                refl refl))

  pub resolve_ticket-Change :
      (uuid : ℕ → String) (actor : Actor) (expected : Option String) (id : ℕ)
      → Change now s (resolve_ticket (λ x. x) now uuid actor expected id s).0
  unfolding resolve_ticket fence add_event put_ticket
  resolve_ticket-Change uuid actor expected id = locked-Change now s id _ λ t found.
      if-Change now s (owner_moved expected t) _ _ (λ _. still refl)
        (λ _.
          if-Change now s (not (is_active_status t.status)) _ _ (λ _. still refl)
            (λ e.
              if-Change now s (not (fence now uuid id s).1) _ _ (λ _. still refl)
                (λ _.
                  moved id t _ _ found (RowStep.resolving now actor (ground (arith, e))) refl
                    (append_assoc s.events (_ ∷ []) (_ ∷ [])) (omega arith) refl)))

  pub reopen_customer_ticket-Change :
      (strip : String → String) (uuid : ℕ → String) (actor : Actor) (supervisor : Bool)
      (line : String) (resolved_at : Option ℕ) (id : ℕ)
      → Change now s
          (reopen_customer_ticket strip (λ x. x) now uuid actor supervisor line resolved_at id s).0
  unfolding reopen_customer_ticket fence add_event put_ticket reopenable
  reopen_customer_ticket-Change strip uuid actor supervisor line resolved_at id =
      if-Change now s (not (line_available line s)) _ _ (λ _. still refl)
        (λ _. locked-Change now s id _ λ t found.
          let key = ticket_active_key strip t.whatsapp_phone (some line) in
          let status = restored_status (last_resolution id s.events) in
          if-Change now s (not (reopening_allowed supervisor actor line resolved_at t)) _ _
            (λ _. still refl)
            (λ _.
              if-Change now s (is_some t.active_key && is_active_status t.status) _ _
                (λ _.
                  if-Change now s (was_reopened id s.events) _ _ (λ _. still refl)
                    (λ _. still refl))
                (λ _.
                  if-Change now s (not (reopenable supervisor actor key id s t)) _ _
                    (λ _. still refl)
                    (λ e.
                      if-Change now s (not (fence now uuid id s).1) _ _ (λ _. still refl)
                        (λ _.
                          moved id t _ _ found
                            (RowStep.reopening now supervisor status key _ actor
                              (restored_status-active (last_resolution id s.events))
                              (restored_status-new (last_resolution id s.events))
                              (ground (arith, e)) (ground (arith, e)) (ground (arith, e)))
                            refl refl refl refl)))))

  pub reopen_staff_chat-Change :
      (strip : String → String) (actor : Actor) (line : String) (id : ℕ)
      → Change now s (reopen_staff_chat strip (λ x. x) now actor line id s).0
  unfolding reopen_staff_chat add_event put_ticket
  reopen_staff_chat-Change strip actor line id =
      if-Change now s (not (line_available line s)) _ _ (λ _. still refl)
        (λ _. locked-Change now s id _ λ t found.
          let key = ticket_active_key strip t.whatsapp_phone t.business_phone_number_id in
          if-Change now s (not (is_staff_chat t.conversation_origin)) _ _ (λ _. still refl)
            (λ by_staff.
              if-Change now s (not (str_eq (text_of t.business_phone_number_id) line)) _ _
                (λ _. still refl)
                (λ _.
                  if-Change now s (is_some t.active_key && is_active_status t.status) _ _
                    (λ _. still refl)
                    (λ _.
                      if-Change now s (key_taken key id s.tickets) _ _ (λ _. still refl)
                        (λ e.
                          moved id t _ _ found
                            (RowStep.rechatting now key actor (ground (arith, by_staff)) e) refl
                            refl refl refl)))))

  pub close_staff_chat-Change :
      (uuid : ℕ → String) (actor : Actor) (expected : Option String) (id : ℕ)
      → Change now s (close_staff_chat (λ x. x) now uuid actor expected id s).0
  unfolding close_staff_chat fence add_event put_ticket
  close_staff_chat-Change uuid actor expected id = locked-Change now s id _ λ t found.
      if-Change now s (not (is_staff_chat t.conversation_origin)) _ _ (λ _. still refl)
        (λ by_staff.
          if-Change now s (owner_moved expected t) _ _ (λ _. still refl)
            (λ _.
              if-Change now s (is_none t.active_key) _ _ (λ _. still refl)
                (λ e.
                  if-Change now s (not (fence now uuid id s).1) _ _ (λ _. still refl)
                    (λ _.
                      moved id t _ _ found
                        (RowStep.closing now actor (ground (arith, by_staff)) (ground (arith, e)))
                        refl refl refl refl))))
