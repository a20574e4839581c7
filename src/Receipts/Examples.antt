-- ===== src/Receipts/Examples.antt =====
-- Callbacks on one message, and the theorem at them.
use ai_whats_app_shipment_as.Prelude.{ℕ, max, ◌≡◌, refl, false, none, some, List, [], ◌∷◌}
use ai_whats_app_shipment_as.Delivery.Message.{SenderType, Direction, sent}
use ai_whats_app_shipment_as.Receipts.Model.{
  Status, delivered, read, rank_of, Row, Receipt, find_outgoing, run, concerns,
}
use ai_whats_app_shipment_as.Receipts.Order.{Delivered, claimed_rank, peak, run-highest}

abbrev row : Row
row = record {
  whatsapp_message_id = some "wamid.9";
  direction = Direction.outbound;
  sender_type = SenderType.agent;
  send_status = some sent;
  delivery_retry_safe = false;
  read_sync_pending = false;
  error_message = none;
  delivery_status = none;
  delivered_at = none;
  read_at = none;
  updated_at = 5;
  ticket_line_id = some "L1";
  ticket_phone = some "961700";
}

abbrev receipt : Status → ℕ → Receipt
receipt status at = record {
  whatsapp_message_id = "wamid.9";
  status = some status;
  at = at;
  business_phone_number_id = some "L1";
  phone_number = some "961700";
  failure_code = none;
}

abbrev failure : Receipt
failure = record (receipt read 9) { status = none; failure_code = some 131026 }

-- The reading is told before the delivery, and a failure last.
abbrev callbacks : List (ℕ × Receipt)
callbacks = (20, receipt read 12) ∷ (21, receipt delivered 11) ∷ (22, failure) ∷ []

row-found : find_outgoing "wamid.9" (row ∷ []) ≡ some row
unfolding find_outgoing
row-found = refl

row-Delivered : Delivered row
unfolding Delivered
row-Delivered h = refl

run-highest_example :
    (after : Row) × (find_outgoing "wamid.9" (run callbacks (row ∷ [])) ≡ some after)
    × (rank_of after.delivery_status ≡ max 0 (peak "wamid.9" row callbacks))
    × Delivered after
run-highest_example = run-highest "wamid.9" callbacks (row ∷ []) row row-found row-Delivered

highest : peak "wamid.9" row callbacks ≡ 2
unfolding peak claimed_rank concerns
highest = refl
