-- ===== src/Delivery/AtMostOnce.antt =====
-- How many times a message is handed to the provider, over any interleaving of the calls.
use ai_whats_app_shipment_as.Prelude.{
  ℕ, ◌+◌, ◌≤◌, String, ◌≡◌, ◌∙◌, refl, Bool, false, ◌&&◌, Option, none, some, List, [], ◌∷◌, arith,
  ◌==◌, any, Option-cases, Bool-cases, inl, inr,
}
use ai_whats_app_shipment_as.Delivery.Message.{Message, Ticket, Db}
use ai_whats_app_shipment_as.Delivery.Table.{
  find_message, update_row, set_where, map_row, row_matches, find_message-update_row,
}
use ai_whats_app_shipment_as.Delivery.Claim.{
  lock_delivery_ticket, quarantined, quarantine, claimable, take_claim, claim_delivery, startable,
  start, begin_delivery,
}
use ai_whats_app_shipment_as.Delivery.Finish.{
  Outcome, sent_as, not_sent, in_doubt, finishable, finish, finish_delivery, interruptible,
  interrupt, interrupt_delivery, recover, recover_abandoned_deliveries, hold_expired, end_hold,
  expire_held_replies, blocks_lifecycle, idle_preparation, fence, fence_deliveries_for_lifecycle,
}
use ai_whats_app_shipment_as.Delivery.Trace.{
  Call, perform, run, one_if, dispatches_now, rejects_now, dispatches, rejections, occupied,
}
use ai_whats_app_shipment_as.Delivery.Occupancy.{
  rejecting, occupied-quarantine, occupied-take_claim, occupied-start, occupied-finish,
  occupied-interrupt, occupied-recover, occupied-end_hold, occupied-fence, occupied-update_row,
  occupied-update_where,
}

abbrev occupancy : ℕ → Db → ℕ
occupancy k db = occupied (find_message k db.messages)

occupancy-claim :
    (k now : ℕ) (retry : Bool) (expected : Option String) (token : String) (id : ℕ) (db : Db)
    → occupancy k (claim_delivery now retry expected token id db).0 ≡ occupancy k db
unfolding claim_delivery take_claim quarantine
occupancy-claim k now retry expected token id db =
    elim (Option-cases (lock_delivery_ticket db id)) [
      | inl e ↦ rw (e, claim_delivery)
      | inr (ticket, e) ↦
          rw (e, claim_delivery)
            (occupied-update_row k (claimable now retry expected ticket) (take_claim now token)
                (λ m. refl) (occupied-take_claim now retry expected token ticket) id
                (update_row id (quarantined now) quarantine db.messages)
              ∙ occupied-update_row k (quarantined now) quarantine (λ m. refl)
                  (occupied-quarantine now) id db.messages)
    ]

start_row :
    (now : ℕ) (token : String) (ticket : Ticket) (o : Option Message)
    → one_if (elim o [ none ↦ false | some m ↦ startable now token ticket m ]) + occupied o
      ≡ occupied (map_row (set_where (startable now token ticket) (start now)) o)
start_row now token ticket none = refl
start_row now token ticket (some m) = occupied-start now token ticket m

occupancy-begin :
    (k now : ℕ) (token : String) (id : ℕ) (db : Db)
    → one_if (id == k && (begin_delivery now token id db).1) + occupancy k db
      ≡ occupancy k (begin_delivery now token id db).0
unfolding begin_delivery start
occupancy-begin k now token id db = elim (Option-cases (lock_delivery_ticket db id)) [
  | inl e ↦ rw (e, begin_delivery) (ground arith)
  | inr (ticket, e) ↦
      rw (e, begin_delivery)
        (ground (
          arith,
          find_message-update_row (startable now token ticket) (start now) (λ m. refl) id k
              db.messages,
          start_row now token ticket (find_message k db.messages),
        ))
]

finish_row :
    (now : ℕ) (token : String) (outcome : Outcome) (o : Option Message)
    → occupied o
      ≤ one_if (elim o [ none ↦ false | some m ↦ rejecting token now outcome m ])
        + occupied (map_row (set_where (finishable now token outcome) (finish now outcome)) o)
finish_row now token outcome none = omega arith
finish_row now token outcome (some m) = occupied-finish now token outcome m

occupancy-finish :
    (k now : ℕ) (token : String) (outcome : Outcome) (id : ℕ) (db : Db)
    → occupancy k db
      ≤ one_if (id == k && row_matches id (rejecting token now outcome) db.messages)
        + occupancy k (finish_delivery now token outcome id db)
unfolding finish_delivery finish
occupancy-finish k now token outcome id db = ground (
  arith,
  find_message-update_row (finishable now token outcome) (finish now outcome) (λ m. refl) id k
      db.messages,
  finish_row now token outcome (find_message k db.messages),
)

occupancy-interrupt :
    (k now : ℕ) (token : String) (id : ℕ) (db : Db)
    → occupancy k (interrupt_delivery now token id db) ≡ occupancy k db
unfolding interrupt_delivery interrupt
occupancy-interrupt k now token id db =
    occupied-update_row k (interruptible now token) (interrupt now) (λ m. refl)
      (occupied-interrupt now token) id db.messages

occupancy-recover :
    (k now : ℕ) (db : Db) → occupancy k (recover_abandoned_deliveries now db).0 ≡ occupancy k db
unfolding recover_abandoned_deliveries recover
occupancy-recover k now db =
    occupied-update_where k (quarantined now) (recover now) (λ m. refl) (occupied-recover now)
      db.messages

occupancy-expire : (k now : ℕ) (db : Db) → occupancy k (expire_held_replies now db) ≡ occupancy k db
unfolding expire_held_replies end_hold
occupancy-expire k now db =
    occupied-update_where k (hold_expired now) (end_hold now) (λ m. refl) (occupied-end_hold now)
      db.messages

occupancy-fence :
    (k now : ℕ) (uuid : ℕ → String) (ticket_id : ℕ) (db : Db)
    → occupancy k (fence_deliveries_for_lifecycle now uuid ticket_id db).0 ≡ occupancy k db
unfolding fence_deliveries_for_lifecycle fence
occupancy-fence k now uuid ticket_id db =
    elim (Bool-cases (any (blocks_lifecycle now ticket_id) db.messages)) [
      | inl e ↦ rw e
      | inr e ↦ rw e (
          occupied-update_where k (idle_preparation ticket_id) (λ m. fence now (uuid m.id) m)
            (λ m. refl) (occupied-fence now uuid ticket_id) db.messages)
    ]

-- One call starts a dispatch only of a free row, and frees an occupied one only by a rejection.
perform_step :
    (k : ℕ) (c : Call) (db : Db)
    → dispatches_now k c db + occupancy k db ≤ rejects_now k c db + occupancy k (perform c db)
unfolding perform dispatches_now rejects_now
perform_step k (Call.claim now retry expected token id) db =
    omega (arith, occupancy-claim k now retry expected token id db)
perform_step k (Call.begin now token id) db = omega (arith, occupancy-begin k now token id db)
perform_step k (Call.finish now token (sent_as p) id) db =
    ground (arith, occupancy-finish k now token (sent_as p) id db)
perform_step k (Call.finish now token (not_sent e c h) id) db =
    omega (arith, occupancy-finish k now token (not_sent e c h) id db)
perform_step k (Call.finish now token (in_doubt e) id) db =
    ground (arith, occupancy-finish k now token (in_doubt e) id db)
perform_step k (Call.interrupt now token id) db =
    omega (arith, occupancy-interrupt k now token id db)
perform_step k (Call.recover now) db = omega (arith, occupancy-recover k now db)
perform_step k (Call.expire now) db = omega (arith, occupancy-expire k now db)
perform_step k (Call.fence now uuid ticket_id) db =
    omega (arith, occupancy-fence k now uuid ticket_id db)

run_steps :
    (k : ℕ) (cs : List Call) (db : Db)
    → dispatches k cs db + occupancy k db ≤ rejections k cs db + occupancy k (run cs db)
unfolding dispatches rejections run
run_steps k [] db = omega arith
run_steps k (c ∷ cs) db = omega (arith, perform_step k c db, run_steps k cs (perform c db))

occupied-le-one : (o : Option Message) → occupied o ≤ 1
occupied-le-one none = omega arith
occupied-le-one (some m) = ground arith

-- Whatever calls the workers and the maintenance tasks make, with whatever tokens, clocks and
-- retry requests, message k is handed to the provider at most once more than the provider has
-- definitely rejected it.
pub dispatches-le-rejections :
    (k : ℕ) (cs : List Call) (db : Db) → dispatches k cs db ≤ rejections k cs db + 1
dispatches-le-rejections k cs db =
    omega (arith, run_steps k cs db, occupied-le-one (find_message k (run cs db).messages))
