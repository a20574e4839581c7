-- ===== src/Delivery/Trace.antt =====
-- The calls of app/support_delivery_repository.py by any number of API workers and maintenance
-- tasks, in the order in which their transactions commit. The provider's callbacks and the
-- confirmations of linked devices, which app/support_repository.py writes to the same rows, are not
-- among them.
use ai_whats_app_shipment_as.Prelude.{
  ℕ, ◌+◌, String, Bool, true, false, ◌&&◌, Option, none, some, List, [], ◌∷◌, ◌==◌,
}
use ai_whats_app_shipment_as.Delivery.Message.{
  Message, Db, SendStatus, pending, failed, is_dispatching,
}
use ai_whats_app_shipment_as.Delivery.Table.{row_matches}
use ai_whats_app_shipment_as.Delivery.Claim.{claim_delivery, begin_delivery}
use ai_whats_app_shipment_as.Delivery.Finish.{
  Outcome, not_sent, finishable, finish_delivery, interrupt_delivery, recover_abandoned_deliveries,
  expire_held_replies, fence_deliveries_for_lifecycle,
}

-- One call, with the clock that its statement reads.
pub data Call : Type 0 where
  claim : ℕ → Bool → Option String → String → ℕ → Call
  begin : ℕ → String → ℕ → Call
  finish : ℕ → String → Outcome → ℕ → Call
  interrupt : ℕ → String → ℕ → Call
  recover : ℕ → Call
  expire : ℕ → Call
  fence : ℕ → (ℕ → String) → ℕ → Call

unfoldable pub perform : Call → Db → Db
perform (claim now retry expected token id) db = (claim_delivery now retry expected token id db).0
perform (begin now token id) db = (begin_delivery now token id db).0
perform (finish now token outcome id) db = finish_delivery now token outcome id db
perform (interrupt now token id) db = interrupt_delivery now token id db
perform (recover now) db = (recover_abandoned_deliveries now db).0
perform (expire now) db = expire_held_replies now db
perform (fence now uuid ticket_id) db = (fence_deliveries_for_lifecycle now uuid ticket_id db).0

unfoldable pub run : List Call → Db → Db
run [] db = db
run (c ∷ cs) db = run cs (perform c db)

abbrev pub one_if : Bool → ℕ
one_if true = 1
one_if false = 0

-- A call that lets a worker hand message k to the provider.
unfoldable pub dispatches_now : ℕ → Call → Db → ℕ
dispatches_now k (begin now token id) db = one_if (id == k && (begin_delivery now token id db).1)
dispatches_now k _ db = 0

-- A call that records the provider's definite rejection of a dispatch of message k.
unfoldable pub rejects_now : ℕ → Call → Db → ℕ
rejects_now k (finish now token (not_sent error code held) id) db = one_if (
    id == k
    && row_matches id
        (λ m. finishable now token (not_sent error code held) m && is_dispatching m.send_status)
        db.messages)
rejects_now k _ db = 0

unfoldable pub dispatches : ℕ → List Call → Db → ℕ
dispatches k [] db = 0
dispatches k (c ∷ cs) db = dispatches_now k c db + dispatches k cs (perform c db)

unfoldable pub rejections : ℕ → List Call → Db → ℕ
rejections k [] db = 0
rejections k (c ∷ cs) db = rejects_now k c db + rejections k cs (perform c db)

-- 1 while an attempt is with the provider, confirmed, or in doubt.
abbrev pub status_occupied : Option SendStatus → ℕ
status_occupied none = 0
status_occupied (some pending) = 0
status_occupied (some failed) = 0
status_occupied _ = 1

abbrev pub occupied : Option Message → ℕ
occupied none = 0
occupied (some m) = status_occupied m.send_status
