-- ===== src/Tickets/Openings.antt =====
-- The operations that mark, open, bind and delete tickets make a change that Tickets.Change
-- describes, and so does every operation.
use ai_whats_app_shipment_as.Prelude.{
  ℕ, String, sym, refl, Bool, not, ◌&&◌, Option, [], ◌∷◌, arith, is_none, is_some, Bool-cases,
  Option-cases, inl, inr,
}
use mathlib.Core.List.{append_assoc, append-nil}
use ai_whats_app_shipment_as.Tickets.Model.{State, is_staff_chat, text_of, ticket_active_key}
use ai_whats_app_shipment_as.Tickets.Table.{find_ticket, key_taken, add_event, put_ticket}
use ai_whats_app_shipment_as.Tickets.Lifecycle.{
  Actor, mark_customer_replied, mark_agent_reply_started, auto_resolve, idle_phone_app,
  is_waiting_customer, is_assigned,
}
use ai_whats_app_shipment_as.Tickets.Reopen.{line_available}
use ai_whats_app_shipment_as.Tickets.Open.{
  Request, insert_ticket, insert_chat, duplicate, new_ticket, new_chat, append_ticket,
  bind_ticket_channel, bound, delete_history_ticket, delete_staff_chat, delete_ticket_rows,
  deletable,
}
use ai_whats_app_shipment_as.Tickets.Change.{RowStep, NewRow, Change, locked-Change, if-Change}
use ai_whats_app_shipment_as.Tickets.Change.{still, moved, opened, dropped}
use ai_whats_app_shipment_as.Tickets.Changes.{
  claim_ticket-Change, transfer_ticket-Change, update_status-Change, resolve_ticket-Change,
  reopen_customer_ticket-Change, reopen_staff_chat-Change, close_staff_chat-Change,
}
use ai_whats_app_shipment_as.Tickets.Trace.{Op, apply}
use ai_whats_app_shipment_as.Tickets.Trace.{
  claim, transfer, set_status, resolve, customer_answers, agent_answers, quiet, reopen, reopen_chat,
  close_chat, open_ticket, open_chat, bind, delete_history, delete_chat,
}

module _ (now : ℕ) (s : State) where
  mark_customer_replied-Change : (id : ℕ) → Change now s (mark_customer_replied now id s)
  unfolding mark_customer_replied add_event put_ticket
  mark_customer_replied-Change id = elim (Option-cases (find_ticket id s.tickets)) [
    | inl e ↦ rw (e, mark_customer_replied) (still refl)
    | inr (t, found) ↦
        rw (found, mark_customer_replied)
          (elim (Bool-cases (is_waiting_customer t.status && is_some t.active_key)) [
            | inl e ↦ rw e (
                moved id t _ _ found (RowStep.answering now (ground (arith, e)) (ground (arith, e)))
                  refl refl refl refl)
            | inr e ↦ rw e (still refl)
          ])
  ]

  mark_agent_reply_started-Change :
      (actor : Actor) (id : ℕ) → Change now s (mark_agent_reply_started now actor id s)
  unfolding mark_agent_reply_started add_event put_ticket
  mark_agent_reply_started-Change actor id = elim (Option-cases (find_ticket id s.tickets)) [
    | inl e ↦ rw (e, mark_agent_reply_started) (still refl)
    | inr (t, found) ↦
        rw (found, mark_agent_reply_started)
          (elim (Bool-cases (is_assigned t.status && is_some t.active_key)) [
            | inl e ↦ rw e (
                moved id t _ _ found
                  (RowStep.working now actor (ground (arith, e)) (ground (arith, e))) refl refl refl
                  refl)
            | inr e ↦ rw e (still refl)
          ])
  ]

  auto_resolve-Change :
      (idle_minutes : ℕ) (name : String) (id : ℕ)
      → Change now s (auto_resolve (λ x. x) now idle_minutes name id s).0
  unfolding auto_resolve idle_phone_app add_event put_ticket
  auto_resolve-Change idle_minutes name id = elim (Option-cases (find_ticket id s.tickets)) [
    | inl e ↦ rw (e, auto_resolve) (still refl)
    | inr (t, found) ↦
        rw (found, auto_resolve)
          (elim (Bool-cases (idle_phone_app now idle_minutes s.messages t)) [
            | inl e ↦ rw e (
                moved id t _ _ found
                  (RowStep.quieting now idle_minutes name (ground (arith, e)) (ground (arith, e)))
                  refl (append_assoc s.events (_ ∷ []) (_ ∷ [])) (omega arith) refl)
            | inr e ↦ rw e (still refl)
          ])
  ]

  pub insert_ticket-Change :
      (strip : String → String) (r : Request)
      → Change now s (insert_ticket strip (λ x. x) now r s).0
  unfolding insert_ticket append_ticket add_event new_ticket
  insert_ticket-Change strip r =
      let key = ticket_active_key strip r.phone_number r.business_phone_number_id in
      if-Change now s (not (line_available (text_of r.business_phone_number_id) s)) _ _
        (λ _. still refl)
        (λ _.
          if-Change now s (duplicate (new_ticket s.next_ticket now key r) s.tickets) _ _
            (λ _. still refl) (λ e. opened _ _ (NewRow.ticket_row now key r) e refl refl refl refl))

  insert_chat-Change :
      (strip : String → String) (actor : Actor) (include_legacy : Bool) (r : Request)
      → Change now s (insert_chat strip (λ x. x) now actor include_legacy r s).0
  unfolding insert_chat append_ticket add_event new_chat
  insert_chat-Change strip actor include_legacy r =
      let key = ticket_active_key strip r.phone_number r.business_phone_number_id in
      if-Change now s (not (line_available (text_of r.business_phone_number_id) s)) _ _
        (λ _. still refl)
        (λ _.
          if-Change now s (duplicate (new_chat s.next_ticket now key actor r) s.tickets) _ _
            (λ _. still refl)
            (λ e. opened _ _ (NewRow.chat_row now key actor r) e refl refl refl refl))

  bind_ticket_channel-Change :
      (strip : String → String) (phone line : String) (display : Option String) (id : ℕ)
      → Change now s (bind_ticket_channel strip (λ x. x) now phone line display id s).0
  unfolding bind_ticket_channel put_ticket
  bind_ticket_channel-Change strip phone line display id = locked-Change now s id _ λ t found.
      if-Change now s (is_some t.active_key && is_none t.business_phone_number_id) _ _
        (λ e.
          if-Change now s
            (key_taken (text_of (bound strip now phone line display t).active_key) id s.tickets) _ _
            (λ _. still refl)
            (λ free.
              moved id t _ [] found
                (RowStep.binding strip now phone line display (ground (arith, e)) free) refl
                (sym (append-nil s.events)) (omega arith) refl))
        (λ _. still refl)

  delete_history_ticket-Change : (id : ℕ) → Change now s (delete_history_ticket id s).0
  unfolding delete_history_ticket delete_ticket_rows
  delete_history_ticket-Change id = locked-Change now s id _ λ t found.
      if-Change now s (deletable t) _ _ (λ e. dropped id t found e refl refl refl refl)
        (λ _. still refl)

  delete_staff_chat-Change : (id : ℕ) → Change now s (delete_staff_chat id s).0
  unfolding delete_staff_chat delete_ticket_rows
  delete_staff_chat-Change id = locked-Change now s id _ λ t found.
      if-Change now s (not (is_staff_chat t.conversation_origin)) _ _ (λ _. still refl)
        (λ _.
          if-Change now s (deletable t) _ _ (λ e. dropped id t found e refl refl refl refl)
            (λ _. still refl))

  pub apply-Change : (strip : String → String) (op : Op) → Change now s (apply strip now op s)
  unfolding apply
  apply-Change strip (claim actor id) = claim_ticket-Change now s actor id
  apply-Change strip (transfer uuid expected target actor id) =
      transfer_ticket-Change now s uuid expected target actor id
  apply-Change strip (set_status status actor expected id) =
      update_status-Change now s status actor expected id
  apply-Change strip (resolve uuid actor expected id) =
      resolve_ticket-Change now s uuid actor expected id
  apply-Change strip (customer_answers id) = mark_customer_replied-Change id
  apply-Change strip (agent_answers actor id) = mark_agent_reply_started-Change actor id
  apply-Change strip (quiet idle_minutes name id) = auto_resolve-Change idle_minutes name id
  apply-Change strip (reopen uuid actor supervisor line resolved_at id) =
      reopen_customer_ticket-Change now s strip uuid actor supervisor line resolved_at id
  apply-Change strip (reopen_chat actor line id) =
      reopen_staff_chat-Change now s strip actor line id
  apply-Change strip (close_chat uuid actor expected id) =
      close_staff_chat-Change now s uuid actor expected id
  apply-Change strip (open_ticket r) = insert_ticket-Change strip r
  apply-Change strip (open_chat actor include_legacy r) =
      insert_chat-Change strip actor include_legacy r
  apply-Change strip (bind phone line display id) =
      bind_ticket_channel-Change strip phone line display id
  apply-Change strip (delete_history id) = delete_history_ticket-Change id
  apply-Change strip (delete_chat id) = delete_staff_chat-Change id
