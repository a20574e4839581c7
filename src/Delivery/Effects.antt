-- ===== src/Delivery/Effects.antt =====
-- What each call does to the row that it names, where its statement applies.
use ai_whats_app_shipment_as.Prelude.{
  ℕ, String, ◌≡◌, refl, Bool, true, false, Option, some, List, arith,
}
use ai_whats_app_shipment_as.Delivery.Message.{Message, Ticket, Db}
use ai_whats_app_shipment_as.Delivery.Table.{
  KeepsId, find_message, find_ticket, update_row, set_where, row_matches, find_message-update_row,
}
use ai_whats_app_shipment_as.Delivery.Claim.{
  lock_delivery_ticket, quarantined, quarantine, claimable, take_claim, claim_delivery, startable,
  start, begin_delivery,
}
use ai_whats_app_shipment_as.Delivery.Finish.{
  Outcome, finishable, finish, finish_delivery, interruptible, interrupt, interrupt_delivery,
}

-- The row with id k is m, and its ticket is there.
pub record Present (k : ℕ) (m : Message) (ticket : Ticket) (db : Db) : Type 0 where
  pub found : find_message k db.messages ≡ some m
  pub owner : find_ticket m.ticket_id db.tickets ≡ some ticket

lock-Present :
    {k : ℕ} {m : Message} {ticket : Ticket} {db : Db}
    → Present k m ticket db
    → lock_delivery_ticket db k ≡ some ticket
unfolding lock_delivery_ticket
lock-Present p = rw (p.found, lock_delivery_ticket) p.owner

update_row_self :
    (k : ℕ) (guard : Message → Bool) (f : Message → Message) (keeps : KeepsId f) (ms : List Message)
    (m : Message)
    → find_message k ms ≡ some m
    → find_message k (update_row k guard f ms) ≡ some (set_where guard f m)
update_row_self k guard f keeps ms m found =
    ground (arith, find_message-update_row guard f keeps k k ms)

module _ (k : ℕ) (m : Message) (ticket : Ticket) (db : Db) (p : Present k m ticket db) where
  matches : (guard : Message → Bool) → guard m ≡ true → row_matches k guard db.messages ≡ true
  matches guard g = rw (p.found, row_matches) g

  set_row :
      (guard : Message → Bool) (f : Message → Message) (keeps : KeepsId f)
      → guard m ≡ true
      → find_message k (update_row k guard f db.messages) ≡ some (f m)
  set_row guard f keeps g = rw (update_row_self k guard f keeps db.messages m p.found) (rw g)

  pub begin_delivery-startable :
      (now : ℕ) (token : String)
      → startable now token ticket m ≡ true
      → ((begin_delivery now token k db).1 ≡ true)
        × Present k (start now m) ticket (begin_delivery now token k db).0
  unfolding begin_delivery start
  begin_delivery-startable now token g =
      rw (lock-Present p, begin_delivery)
        (
          matches (startable now token ticket) g,
          record {
            found = set_row (startable now token ticket) (start now) (λ r. refl) g;
            owner = p.owner;
          },
        )

  pub finish_delivery-finishable :
      (now : ℕ) (token : String) (outcome : Outcome)
      → finishable now token outcome m ≡ true
      → find_message k (finish_delivery now token outcome k db).messages
        ≡ some (finish now outcome m)
  unfolding finish_delivery finish
  finish_delivery-finishable now token outcome g =
      set_row (finishable now token outcome) (finish now outcome) (λ r. refl) g

  pub interrupt_delivery-interruptible :
      (now : ℕ) (token : String)
      → interruptible now token m ≡ true
      → find_message k (interrupt_delivery now token k db).messages ≡ some (interrupt now m)
  unfolding interrupt_delivery interrupt
  interrupt_delivery-interruptible now token g =
      set_row (interruptible now token) (interrupt now) (λ r. refl) g

not_quarantined :
    (now : ℕ) (retry : Bool) (expected : Option String) (ticket : Ticket) (m : Message)
    → claimable now retry expected ticket m ≡ true
    → quarantined now m ≡ false
unfolding claimable quarantined
not_quarantined now retry expected ticket m g = ground arith

-- The statement that quarantines a lost dispatch leaves a claimable row alone.
fenced-Present :
    (k : ℕ) (m : Message) (ticket : Ticket) (db : Db) (now : ℕ)
    → Present k m ticket db
    → quarantined now m ≡ false
    → Present k m ticket
        (record db { messages = update_row k (quarantined now) quarantine db.messages })
unfolding quarantine
fenced-Present k m ticket db now p g = record {
  found =
      rw (update_row_self k (quarantined now) quarantine (λ r. refl) db.messages m p.found) (rw g);
  owner = p.owner;
}

module _ (k : ℕ) (m : Message) (ticket : Ticket) (db : Db) (p : Present k m ticket db) where
  pub claim_delivery-claimable :
      (now : ℕ) (retry : Bool) (expected : Option String) (token : String)
      → claimable now retry expected ticket m ≡ true
      → ((claim_delivery now retry expected token k db).1 ≡ some token)
        × Present k (take_claim now token m) ticket (claim_delivery now retry expected token k db).0
  unfolding claim_delivery take_claim
  claim_delivery-claimable now retry expected token g =
      let fenced : Db = record db {
        messages = update_row k (quarantined now) quarantine db.messages;
      } in
      let q : Present k m ticket fenced =
        fenced-Present k m ticket db now p (not_quarantined now retry expected ticket m g) in
      rw (lock-Present p, claim_delivery)
        (
          rw (matches k m ticket fenced q (claimable now retry expected ticket) g),
          record {
            found =
                set_row k m ticket fenced q (claimable now retry expected ticket)
                  (take_claim now token) (λ r. refl) g;
            owner = p.owner;
          },
        )
