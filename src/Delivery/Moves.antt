-- ===== src/Delivery/Moves.antt =====
-- The moves of a reply's send_status: which call of app/support_delivery_repository.py takes a row
-- from one status to another, and what the row must show for it.
use ai_whats_app_shipment_as.Prelude.{
  ℕ, String, ◌≡◌, refl, Bool, true, Option, some, arith, ◌⊎◌, inl, inr, eq_sql, ◌||◌, eq_null_safe,
  is_none,
}
use ai_whats_app_shipment_as.Delivery.Message.{
  Message, Ticket, SendStatus, pending, dispatching, sent, uncertain, failed, lease_live,
  lease_expired,
}
use ai_whats_app_shipment_as.Delivery.Claim.{claimable, take_claim, startable, start}
use ai_whats_app_shipment_as.Delivery.Finish.{
  Outcome, sent_as, not_sent, in_doubt, finishable, finish, interruptible, interrupt,
  idle_preparation, fence,
}
use ai_whats_app_shipment_as.Delivery.Trace.{Call}

-- The token of the call is the row's.
abbrev pub Carried : String → Message → Type 0
Carried token m = eq_sql m.delivery_token (some token) ≡ true

-- The call takes the row from one status to another.
pub data Move (m : Message) : Call → SendStatus → SendStatus → Type 0 where
  retry :
      {now id : ℕ} {expected : Option String} {token : String}
      → m.delivery_retry_safe ≡ true
      → eq_null_safe m.delivery_token expected ≡ true
      → Move m (Call.claim now true expected token id) failed pending
  begin :
      {now id : ℕ} {token : String}
      → Carried token m
      → lease_live now m.delivery_claimed_at ≡ true
      → Move m (Call.begin now token id) pending dispatching
  reclaim_lost :
      {now id : ℕ} {retrying : Bool} {expected : Option String} {token : String}
      → lease_expired now m.delivery_claimed_at ≡ true
      → Move m (Call.claim now retrying expected token id) dispatching uncertain
  recover_lost :
      {now : ℕ}
      → lease_expired now m.delivery_claimed_at ≡ true
      → Move m (Call.recover now) dispatching uncertain
  confirm :
      {now id : ℕ} {token provider_id : String}
      → Carried token m
      → Move m (Call.finish now token (sent_as provider_id) id) dispatching sent
  confirm_late :
      {now id : ℕ} {token provider_id : String}
      → Carried token m
      → Move m (Call.finish now token (sent_as provider_id) id) uncertain sent
  reclaim :
      {now id : ℕ} {retrying : Bool} {expected : Option String} {token : String}
      → (is_none m.delivery_token || lease_expired now m.delivery_claimed_at) ≡ true
      → Move m (Call.claim now retrying expected token id) pending pending
  reject :
      {now id : ℕ} {token : String} {error : Option String} {code : Option ℕ} {held : Bool}
      {s : SendStatus}
      → Carried token m
      → lease_live now m.delivery_claimed_at ≡ true
      → (s ≡ pending) ⊎ (s ≡ dispatching)
      → Move m (Call.finish now token (not_sent error code held) id) s failed
  lose :
      {now id : ℕ} {token : String} {error : Option String} {s : SendStatus}
      → Carried token m
      → lease_live now m.delivery_claimed_at ≡ true
      → (s ≡ pending) ⊎ (s ≡ dispatching)
      → Move m (Call.finish now token (in_doubt error) id) s uncertain
  cut_short :
      {now id : ℕ} {token : String}
      → Carried token m
      → lease_live now m.delivery_claimed_at ≡ true
      → Move m (Call.interrupt now token id) pending failed
  cut_off :
      {now id : ℕ} {token : String}
      → Carried token m
      → Move m (Call.interrupt now token id) dispatching uncertain
  fenced :
      {now ticket_id : ℕ} {uuid : ℕ → String}
      → m.ticket_id ≡ ticket_id
      → Move m (Call.fence now uuid ticket_id) pending failed

-- A call leaves the attempt of a row as it is, or makes a move that the row allows.
pub data Moved (c : Call) (m m' : Message) : Type 0 where
  left :
      m'.send_status ≡ m.send_status
      → m'.delivery_token ≡ m.delivery_token
      → m'.delivery_started_at ≡ m.delivery_started_at
      → Moved c m m'
  moved :
      {s t : SendStatus}
      → m.send_status ≡ some s
      → m'.send_status ≡ some t
      → Move m c s t
      → Moved c m m'

pub claim-Moved :
    (now id : ℕ) (retrying : Bool) (expected : Option String) (token : String) (ticket : Ticket)
    (m : Message) (o : Option SendStatus)
    → m.send_status ≡ o
    → claimable now retrying expected ticket m ≡ true
    → Moved (Call.claim now retrying expected token id) m (take_claim now token m)
unfolding claimable take_claim
claim-Moved now id retrying expected token ticket m (some pending) e g =
    moved e refl (reclaim (ground arith))
claim-Moved now id true expected token ticket m (some failed) e g =
    moved e refl (retry (ground arith) (ground arith))
claim-Moved now id retrying expected token ticket m o e g = ground arith

pub start-Moved :
    (now id : ℕ) (token : String) (ticket : Ticket) (m : Message) (o : Option SendStatus)
    → m.send_status ≡ o
    → startable now token ticket m ≡ true
    → Moved (Call.begin now token id) m (start now m)
unfolding startable start
start-Moved now id token ticket m (some pending) e g =
    moved e refl (begin (ground arith) (ground arith))
start-Moved now id token ticket m o e g = ground arith

pub finish-Moved :
    (now id : ℕ) (token : String) (outcome : Outcome) (m : Message) (o : Option SendStatus)
    → m.send_status ≡ o
    → finishable now token outcome m ≡ true
    → Moved (Call.finish now token outcome id) m (finish now outcome m)
unfolding finishable finish
finish-Moved now id token (sent_as p) m (some dispatching) e g =
    moved e refl (confirm (ground arith))
finish-Moved now id token (sent_as p) m (some uncertain) e g =
    moved e refl (confirm_late (ground arith))
finish-Moved now id token (not_sent r c b) m (some pending) e g =
    moved e refl (reject (ground arith) (ground arith) (inl refl))
finish-Moved now id token (not_sent r c b) m (some dispatching) e g =
    moved e refl (reject (ground arith) (ground arith) (inr refl))
finish-Moved now id token (in_doubt r) m (some pending) e g =
    moved e refl (lose (ground arith) (ground arith) (inl refl))
finish-Moved now id token (in_doubt r) m (some dispatching) e g =
    moved e refl (lose (ground arith) (ground arith) (inr refl))
finish-Moved now id token outcome m o e g = ground arith

pub interrupt-Moved :
    (now id : ℕ) (token : String) (m : Message) (o : Option SendStatus)
    → m.send_status ≡ o
    → interruptible now token m ≡ true
    → Moved (Call.interrupt now token id) m (interrupt now m)
unfolding interruptible interrupt
interrupt-Moved now id token m (some pending) e g =
    moved e (ground arith) (cut_short (ground arith) (ground arith))
interrupt-Moved now id token m (some dispatching) e g =
    moved e (ground arith) (cut_off (ground arith))
interrupt-Moved now id token m o e g = ground arith

pub fence-Moved :
    (now ticket_id : ℕ) (uuid : ℕ → String) (m : Message) (o : Option SendStatus)
    → m.send_status ≡ o
    → idle_preparation ticket_id m ≡ true
    → Moved (Call.fence now uuid ticket_id) m (fence now (uuid m.id) m)
unfolding idle_preparation fence
fence-Moved now ticket_id uuid m (some pending) e g = moved e refl (fenced (ground arith))
fence-Moved now ticket_id uuid m o e g = ground arith
