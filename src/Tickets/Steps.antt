-- ===== src/Tickets/Steps.antt =====
-- What every step on a row of the ticket table keeps.
use ai_whats_app_shipment_as.Prelude.{
  ℕ, String, ◌≡◌, ◌∙◌, sym, ap, refl, Bool, true, false, Option, none, some, List, [], ◌∷◌, arith,
  ◌⊎◌, inl, inr, is_some, Option-cases, count_if, eq_sql, eq_iff,
}
use ai_whats_app_shipment_as.Delivery.Message.{TicketStatus}
use ai_whats_app_shipment_as.Tickets.Model.{
  Ticket, State, is_active_status, text_of, allowed_transition,
}
use ai_whats_app_shipment_as.Tickets.Table.{has_key, key_taken}
use ai_whats_app_shipment_as.Tickets.Lifecycle.{
  claimable, claimed, transferable, transferred, with_status, resolved_by, in_work,
}
use ai_whats_app_shipment_as.Tickets.Reopen.{reopened, reopened_chat}
use ai_whats_app_shipment_as.Tickets.Open.{bound, new_ticket, new_chat, duplicate}
use ai_whats_app_shipment_as.Tickets.Change.{RowStep, NewRow, Note}
use ai_whats_app_shipment_as.Tickets.Change.RowStep.{
  claiming, transferring, changing, resolving, quieting, answering, working, reopening, rechatting,
  closing, binding,
}
use ai_whats_app_shipment_as.Tickets.Change.NewRow.{ticket_row, chat_row}

-- A ticket holds its key while its status is active.
abbrev pub IsLive : Ticket → Type 0
IsLive t = is_some t.active_key ≡ is_active_status t.status

pub allowed_transition-active :
    (from to : TicketStatus)
    → allowed_transition from to ≡ true
    → is_active_status to ≡ is_active_status from
unfolding allowed_transition
allowed_transition-active from to e = ground arith

module _ {s : State} {id : ℕ} {t : Ticket} where
  pub RowStep-id : {u : Ticket} {notes : List Note} → RowStep s id t u notes → u.id ≡ t.id
  unfolding claimed transferred with_status resolved_by in_work reopened reopened_chat bound
  RowStep-id (claiming _ _ _) = refl
  RowStep-id (transferring _ _ _ _ _ _) = refl
  RowStep-id (changing _ _ _ _) = refl
  RowStep-id (resolving _ _ _) = refl
  RowStep-id (quieting _ _ _ _ _) = refl
  RowStep-id (answering _ _ _) = refl
  RowStep-id (working _ _ _ _) = refl
  RowStep-id (reopening _ _ _ _ _ _ _ _ _ _ _) = refl
  RowStep-id (rechatting _ _ _ _ _) = refl
  RowStep-id (closing _ _ _ _) = refl
  RowStep-id (binding _ _ _ _ _ _ _) = refl

  pub RowStep-source :
      {u : Ticket} {notes : List Note}
      → RowStep s id t u notes
      → u.source_whatsapp_message_id ≡ t.source_whatsapp_message_id
  unfolding claimed transferred with_status resolved_by in_work reopened reopened_chat bound
  RowStep-source (claiming _ _ _) = refl
  RowStep-source (transferring _ _ _ _ _ _) = refl
  RowStep-source (changing _ _ _ _) = refl
  RowStep-source (resolving _ _ _) = refl
  RowStep-source (quieting _ _ _ _ _) = refl
  RowStep-source (answering _ _ _) = refl
  RowStep-source (working _ _ _ _) = refl
  RowStep-source (reopening _ _ _ _ _ _ _ _ _ _ _) = refl
  RowStep-source (rechatting _ _ _ _ _) = refl
  RowStep-source (closing _ _ _ _) = refl
  RowStep-source (binding _ _ _ _ _ _ _) = refl

  pub RowStep-origin :
      {u : Ticket} {notes : List Note}
      → RowStep s id t u notes
      → u.conversation_origin ≡ t.conversation_origin
  unfolding claimed transferred with_status resolved_by in_work reopened reopened_chat bound
  RowStep-origin (claiming _ _ _) = refl
  RowStep-origin (transferring _ _ _ _ _ _) = refl
  RowStep-origin (changing _ _ _ _) = refl
  RowStep-origin (resolving _ _ _) = refl
  RowStep-origin (quieting _ _ _ _ _) = refl
  RowStep-origin (answering _ _ _) = refl
  RowStep-origin (working _ _ _ _) = refl
  RowStep-origin (reopening _ _ _ _ _ _ _ _ _ _ _) = refl
  RowStep-origin (rechatting _ _ _ _ _) = refl
  RowStep-origin (closing _ _ _ _) = refl
  RowStep-origin (binding _ _ _ _ _ _ _) = refl

  pub RowStep-IsLive :
      {u : Ticket} {notes : List Note} → RowStep s id t u notes → IsLive t → IsLive u
  unfolding claimed transferred with_status resolved_by in_work reopened reopened_chat bound
      claimable transferable
  RowStep-IsLive (claiming _ _ e) live = ground (arith, e)
  RowStep-IsLive (transferring _ _ _ _ _ e) live = ground (arith, e)
  RowStep-IsLive (changing _ status _ e) live =
      ground (arith, live, allowed_transition-active t.status status e)
  RowStep-IsLive (resolving _ _ _) live = refl
  RowStep-IsLive (quieting _ _ _ _ _) live = refl
  RowStep-IsLive (answering _ _ e) live = e
  RowStep-IsLive (working _ _ _ e) live = e
  RowStep-IsLive (reopening _ _ _ _ _ _ e _ _ _ _) live = ground (arith, e)
  RowStep-IsLive (rechatting _ _ _ _ _) live = refl
  RowStep-IsLive (closing _ _ _ _) live = refl
  RowStep-IsLive (binding strip now phone line display e _) live = ground (arith, e, live)

  -- A step drops the key, keeps it, or takes one that no other row has.
  pub RowStep-key :
      {u : Ticket} {notes : List Note}
      → RowStep s id t u notes
      → ((u.active_key ≡ none) ⊎ (u.active_key ≡ t.active_key))
        ⊎ ((key : String) × (u.active_key ≡ some key) × (key_taken key id s.tickets ≡ false))
  unfolding claimed transferred with_status resolved_by in_work reopened reopened_chat
  RowStep-key (claiming _ _ _) = inl (inr refl)
  RowStep-key (transferring _ _ _ _ _ _) = inl (inr refl)
  RowStep-key (changing _ _ _ _) = inl (inr refl)
  RowStep-key (resolving _ _ _) = inl (inl refl)
  RowStep-key (quieting _ _ _ _ _) = inl (inl refl)
  RowStep-key (answering _ _ _) = inl (inr refl)
  RowStep-key (working _ _ _ _) = inl (inr refl)
  RowStep-key (reopening _ _ _ key _ _ _ _ _ free _) = inr (key, refl, free)
  RowStep-key (rechatting _ key _ _ free) = inr (key, refl, free)
  RowStep-key (closing _ _ _ _) = inl (inl refl)
  RowStep-key (binding strip now phone line display e free) =
      elim (Option-cases (bound strip now phone line display t).active_key) [
        | inl lost ↦ inl (inl lost)
        | inr (key, kept) ↦
            inr (key, kept, ap (λ k. key_taken (text_of k) id s.tickets) (sym kept) ∙ free)
      ]

module _ {s : State} where
  pub NewRow-id : {t : Ticket} {note : Note} → NewRow s t note → t.id ≡ s.next_ticket
  unfolding new_ticket new_chat
  NewRow-id (ticket_row _ _ _) = refl
  NewRow-id (chat_row _ _ _ _) = refl

  pub NewRow-IsLive : {t : Ticket} {note : Note} → NewRow s t note → IsLive t
  unfolding new_ticket new_chat
  NewRow-IsLive (ticket_row _ _ _) = refl
  NewRow-IsLive (chat_row _ _ _ _) = refl

abbrev pub has_source : String → Ticket → Bool
has_source source t = eq_sql t.source_whatsapp_message_id (some source)

eq_sql-hits :
    (a b : Option String) (c : String)
    → eq_sql a (some c) ≡ true
    → eq_sql b (some c) ≡ true
    → eq_sql a b ≡ true
eq_sql-hits none b c e f = cc
eq_sql-hits (some a) none c e f = cc
eq_sql-hits (some a) (some b) c e f = (eq_iff a b).1 ((eq_iff a c).0 e ∙ sym ((eq_iff b c).0 f))

-- A row that no UNIQUE index refuses adds at most the first use of its key and its source.
pub duplicate-key :
    (key : String) (t : Ticket) (ts : List Ticket)
    → duplicate t ts ≡ false
    → has_key key t ≡ true
    → count_if (has_key key) ts ≡ 0
unfolding duplicate
duplicate-key key t [] free e = refl
duplicate-key key t (x ∷ xs) free e =
    ground (arith, duplicate-key key t xs, eq_sql-hits x.active_key t.active_key key)

pub duplicate-source :
    (source : String) (t : Ticket) (ts : List Ticket)
    → duplicate t ts ≡ false
    → has_source source t ≡ true
    → count_if (has_source source) ts ≡ 0
unfolding duplicate
duplicate-source source t [] free e = refl
duplicate-source source t (x ∷ xs) free e = ground (
  arith,
  duplicate-source source t xs,
  eq_sql-hits x.source_whatsapp_message_id t.source_whatsapp_message_id source,
)
