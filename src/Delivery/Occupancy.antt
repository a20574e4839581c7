-- ===== src/Delivery/Occupancy.antt =====
-- What each statement of the delivery repository does to the occupancy of one row.
use ai_whats_app_shipment_as.Prelude.{
  ℕ, ◌+◌, ◌≤◌, String, ◌≡◌, refl, Bool, false, ◌&&◌, Option, none, some, List, arith,
}
use ai_whats_app_shipment_as.Delivery.Message.{Message, Ticket, is_dispatching}
use ai_whats_app_shipment_as.Delivery.Table.{
  KeepsId, find_message, update_row, update_where, set_where, map_row, find_message-update_row,
  find_message-update_where,
}
use ai_whats_app_shipment_as.Delivery.Claim.{
  quarantined, quarantine, claimable, take_claim, startable, start,
}
use ai_whats_app_shipment_as.Delivery.Finish.{
  Outcome, sent_as, not_sent, in_doubt, finishable, finish, interruptible, interrupt, recover,
  hold_expired, end_hold, idle_preparation, fence,
}
use ai_whats_app_shipment_as.Delivery.Trace

pub occupied-quarantine :
    (now : ℕ) (m : Message)
    → Trace.occupied (some (set_where (quarantined now) quarantine m)) ≡ Trace.occupied (some m)
unfolding quarantined quarantine
occupied-quarantine now m = ground arith

pub occupied-take_claim :
    (now : ℕ) (retry : Bool) (expected : Option String) (token : String) (ticket : Ticket)
    (m : Message)
    → Trace.occupied
        (some (set_where (claimable now retry expected ticket) (take_claim now token) m))
      ≡ Trace.occupied (some m)
unfolding claimable take_claim
occupied-take_claim now retry expected token ticket m = ground arith

pub occupied-start :
    (now : ℕ) (token : String) (ticket : Ticket) (m : Message)
    → Trace.one_if (startable now token ticket m) + Trace.occupied (some m)
      ≡ Trace.occupied (some (set_where (startable now token ticket) (start now) m))
unfolding startable start
occupied-start now token ticket m = ground arith

-- the update that records a rejection
abbrev pub rejecting : String → ℕ → Outcome → Message → Bool
rejecting token now (not_sent error code held) m =
    finishable now token (not_sent error code held) m && is_dispatching m.send_status
rejecting token now _ m = false

pub occupied-finish :
    (now : ℕ) (token : String) (outcome : Outcome) (m : Message)
    → Trace.occupied (some m)
      ≤ Trace.one_if (rejecting token now outcome m)
        + Trace.occupied (some (set_where (finishable now token outcome) (finish now outcome) m))
unfolding finishable finish
occupied-finish now token (sent_as p) m = ground arith
occupied-finish now token (not_sent e c h) m = ground arith
occupied-finish now token (in_doubt e) m = ground arith

pub occupied-interrupt :
    (now : ℕ) (token : String) (m : Message)
    → Trace.occupied (some (set_where (interruptible now token) (interrupt now) m))
      ≡ Trace.occupied (some m)
unfolding interruptible interrupt
occupied-interrupt now token m = ground arith

pub occupied-recover :
    (now : ℕ) (m : Message)
    → Trace.occupied (some (set_where (quarantined now) (recover now) m)) ≡ Trace.occupied (some m)
unfolding quarantined recover
occupied-recover now m = ground arith

pub occupied-end_hold :
    (now : ℕ) (m : Message)
    → Trace.occupied (some (set_where (hold_expired now) (end_hold now) m))
      ≡ Trace.occupied (some m)
unfolding hold_expired end_hold
occupied-end_hold now m = ground arith

pub occupied-fence :
    (now : ℕ) (uuid : ℕ → String) (ticket_id : ℕ) (m : Message)
    → Trace.occupied
        (some (set_where (idle_preparation ticket_id) (λ r. fence now (uuid r.id) r) m))
      ≡ Trace.occupied (some m)
unfolding idle_preparation fence
occupied-fence now uuid ticket_id m = ground arith

-- A statement that keeps the occupancy of every row keeps that of the row with id k.
module _ (k : ℕ) (guard : Message → Bool) (f : Message → Message) (keeps : KeepsId f)
    (same : (m : Message)
      → Trace.occupied (some (set_where guard f m)) ≡ Trace.occupied (some m)) where
  pub occupied-map_row :
      (o : Option Message) → Trace.occupied (map_row (set_where guard f) o) ≡ Trace.occupied o
  occupied-map_row none = refl
  occupied-map_row (some m) = same m

  pub occupied-update_row :
      (id : ℕ) (ms : List Message)
      → Trace.occupied (find_message k (update_row id guard f ms))
        ≡ Trace.occupied (find_message k ms)
  occupied-update_row id ms =
      ground
        (arith, find_message-update_row guard f keeps id k ms, occupied-map_row (find_message k ms))

  pub occupied-update_where :
      (ms : List Message)
      → Trace.occupied (find_message k (update_where guard f ms))
        ≡ Trace.occupied (find_message k ms)
  occupied-update_where ms =
      rw (find_message-update_where guard f keeps k ms) (occupied-map_row (find_message k ms))
