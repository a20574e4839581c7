-- ===== src/Delivery/Examples.antt =====
-- Runs of the delivery repository on a small database, and the theorems at such inputs.
use ai_whats_app_shipment_as.Prelude.{
  ◌≢◌, eq_iff, ◌⊎◌, ℕ, ◌+◌, ◌≤◌, String, ◌≡◌, refl, true, false, none, some, List, [], ◌∷◌, inl,
}
use ai_whats_app_shipment_as.Delivery.Message.{
  Message, Ticket, Db, TicketStatus, SenderType, Direction, pending,
}
use ai_whats_app_shipment_as.Delivery.Table.{find_message, find_ticket, update_row, update_where}
use ai_whats_app_shipment_as.Delivery.ContactForward.{is_contact_forward}
use ai_whats_app_shipment_as.Delivery.Claim.{
  lock_delivery_ticket, sender_authorized, quarantined, quarantine, claimable, take_claim,
  prior_provider_id, retry_events, claim_delivery, startable, start, begin_delivery,
}
use ai_whats_app_shipment_as.Delivery.Finish.{
  sent_as, not_sent, finishable, finish, finish_delivery, blocks_lifecycle, idle_preparation, fence,
  fence_deliveries_for_lifecycle,
}
use ai_whats_app_shipment_as.Delivery.Trace
use ai_whats_app_shipment_as.Delivery.Trace.{Call, perform, run, dispatches, rejections}
use ai_whats_app_shipment_as.Delivery.AtMostOnce.{dispatches-le-rejections}
use ai_whats_app_shipment_as.Delivery.Moves.{Moved}
use ai_whats_app_shipment_as.Delivery.EveryMove.{perform-Moved}
use ai_whats_app_shipment_as.Delivery.RowStep.{Whole}
use ai_whats_app_shipment_as.Delivery.Payload.{Kind, Draft, plain_error, Services}
use ai_whats_app_shipment_as.Delivery.Attempt.{World, accepted}
use ai_whats_app_shipment_as.Delivery.Lifecycle.{begin-fence}

abbrev reply : Message
reply = record {
  id = 7;
  ticket_id = 3;
  direction = Direction.outbound;
  sender_type = SenderType.agent;
  sender_id = some "12";
  client_message_id = some "c1";
  is_forwarded = false;
  forwarded_from_ticket_id = none;
  forwarded_from_message_id = none;
  deleted_for_everyone_at = none;
  whatsapp_message_id = none;
  send_status = some pending;
  delivery_token = none;
  delivery_claimed_at = none;
  delivery_started_at = none;
  delivery_retry_safe = false;
  error_message = none;
  held_until = none;
  read_sync_pending = false;
  created_at = 0;
  updated_at = 0;
}

abbrev ticket : Ticket
ticket = record {
  id = 3;
  active_key = some "c:1";
  status = TicketStatus.assigned;
  current_assignee_id = some "12";
}

abbrev db : Db
db = record { messages = reply ∷ []; tickets = ticket ∷ []; events = [] }

-- A first attempt that the provider rejects, an explicit retry that it accepts, and a late worker.
abbrev calls : List Call
calls =
    Call.claim 10 false none "t1" 7
    ∷ Call.begin 20 "t1" 7
    ∷ Call.finish 30 "t1" (not_sent none none false) 7
    ∷ Call.claim 40 true (some "t1") "t2" 7
    ∷ Call.begin 50 "t1" 7
    ∷ Call.begin 60 "t2" 7
    ∷ Call.finish 70 "t2" (sent_as "wamid.1") 7
    ∷ []

two_dispatches : (dispatches 7 calls db ≡ 2) × (rejections 7 calls db ≡ 1)
unfolding dispatches rejections perform claim_delivery begin_delivery finish_delivery
    lock_delivery_ticket find_message find_ticket update_row quarantined quarantine claimable
    take_claim prior_provider_id retry_events startable start finishable finish sender_authorized
    is_contact_forward Trace.dispatches_now Trace.rejects_now
two_dispatches = (refl, refl)

dispatches-le-rejections_example : dispatches 7 calls db ≤ rejections 7 calls db + 1
dispatches-le-rejections_example = dispatches-le-rejections 7 calls db

perform-Moved_example :
    let c = Call.claim 10 false none "t1" 7 in
    Whole (Moved c reply) (find_message 7 (perform c db).messages)
unfolding find_message
perform-Moved_example = perform-Moved reply 7 db refl (Call.claim 10 false none "t1" 7)

abbrev draft : Draft
draft = record {
  message_id = 7;
  kind = Kind.text;
  body = "hello";
  latitude = none;
  longitude = none;
  location_name = none;
  location_address = none;
  delivery_token = none;
  is_forwarded = false;
  forwarded_from_ticket_id = none;
  business_phone_number_id = some "line";
}

abbrev services : Services
services = record {
  asset = λ id. none;
  upload = λ asset. inl plain_error;
  source_line = λ id. none;
}

abbrev world : World
world = record {
  others = λ n x. x;
  clock = λ n. 100 + n;
  token = "t1";
  cancelled_early = false;
  send = λ p. accepted (some "wamid.9");
}

abbrev uuids : ℕ → String
uuids n = "fenced"

-- after the fence, an explicit retry under a token of its own
abbrev retried : List Call
retried = Call.claim 15 true (some "fenced") "t2" 7 ∷ []

abbrev second : String
second = "t2"

other_token : second ≢ "t1"
other_token e = let b : false ≡ true = (eq_iff "t2" "t1").1 e in cc

begin-fence_example :
    let after = (fence_deliveries_for_lifecycle 10 uuids 3 db).0 in
    ((fence_deliveries_for_lifecycle 10 uuids 3 db).1 ≡ true
      × ((begin_delivery 20 "t1" 7 (run retried after)).1 ≡ false))
    ⊎ ((fence_deliveries_for_lifecycle 10 uuids 3 db).1 ≡ false × (after ≡ db))
unfolding fence_deliveries_for_lifecycle blocks_lifecycle idle_preparation fence update_where
    find_message
begin-fence_example = begin-fence 10 uuids 3 7 db 20 "t1" retried (λ m found. cc) (other_token, _)
