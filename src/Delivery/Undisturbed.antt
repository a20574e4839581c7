-- ===== src/Delivery/Undisturbed.antt =====
-- An attempt that no other task disturbs, from the claim to its verdict.
use ai_whats_app_shipment_as.Prelude.{ℕ, ◌+◌, ◌≤◌, ◌≡◌, Bool, true, some, List}
use ai_whats_app_shipment_as.Delivery.Message.{Message, Ticket, Db, delivery_lease}
use ai_whats_app_shipment_as.Delivery.Table.{find_message}
use ai_whats_app_shipment_as.Delivery.Claim.{claimable, take_claim, start}
use ai_whats_app_shipment_as.Delivery.Payload.{Draft, Payload}
use ai_whats_app_shipment_as.Delivery.Attempt.{World}
use ai_whats_app_shipment_as.Delivery.Verdicts.{Verdict, Reflects}

-- The row with id k, where it says what the attempt knows.
abbrev pub Recorded : ℕ → Verdict → Db × List Payload → Type 0
Recorded k v result =
    (m : Message) × (find_message k result.0.messages ≡ some m) × Reflects v m result.1

module _ (w : World) (d : Draft) (retry : Bool) (m : Message) (ticket : Ticket)
    (quiet : (n : ℕ) (db : Db) → w.others n db ≡ db)
    (claims : claimable (w.clock 0) retry d.delivery_token ticket m ≡ true)
    (in_time : (w.clock 1 ≤ w.clock 0 + delivery_lease)
      × (w.clock 2 ≤ w.clock 1 + delivery_lease)) where
  abbrev claimed : Message
  claimed = take_claim (w.clock 0) w.token m

  abbrev dispatched : Message
  dispatched = start (w.clock 1) claimed
