-- ===== src/Delivery/EveryMove.antt =====
-- Every call of app/support_delivery_repository.py moves the status of a row as Delivery.Moves says.
use mathlib.Core.Path.{subst}
use ai_whats_app_shipment_as.Prelude.{
  ℕ, String, ◌≡◌, refl, sym, Bool, true, Option, none, some, List, arith, ◌⊎◌, inl, inr, ◌==◌,
  Option-cases, Bool-cases, any,
}
use ai_whats_app_shipment_as.Delivery.Message.{Message, Ticket, Db, SendStatus, dispatching}
use ai_whats_app_shipment_as.Delivery.Table.{
  find_message, update_row, update_where, set_where, map_row, KeepsId, find_message-update_row,
  find_message-update_where,
}
use ai_whats_app_shipment_as.Delivery.Claim.{
  lock_delivery_ticket, quarantined, quarantine, claimable, take_claim, claim_delivery, startable,
  start, begin_delivery,
}
use ai_whats_app_shipment_as.Delivery.Finish.{
  finishable, finish, finish_delivery, interruptible, interrupt, interrupt_delivery, recover,
  recover_abandoned_deliveries, hold_expired, end_hold, expire_held_replies, blocks_lifecycle,
  idle_preparation, fence, fence_deliveries_for_lifecycle,
}
use ai_whats_app_shipment_as.Delivery.Trace.{Call, perform}
use ai_whats_app_shipment_as.Delivery.RowStep.{Whole}
use ai_whats_app_shipment_as.Delivery.Moves.{
  Moved, left, moved, reclaim_lost, recover_lost, claim-Moved, start-Moved, finish-Moved,
  interrupt-Moved, fence-Moved,
}

-- An update that takes the rows with P to rows with Q.
module _ (P Q : Message → Type 0) (guard : Message → Bool) (f : Message → Message)
    (keeps : KeepsId f) (same : (x : Message) → P x → Q x)
    (taken : (x : Message) → P x → guard x ≡ true → Q (f x)) where
  to_row : (o : Option Message) → Whole P o → Whole Q (map_row (set_where guard f) o)
  to_row none h = h
  to_row (some x) h = elim (Bool-cases (guard x)) [
    | inl e ↦ rw e (taken x h e)
    | inr e ↦ rw e (same x h)
  ]

  same_row : (o : Option Message) → Whole P o → Whole Q o
  same_row none h = h
  same_row (some x) h = same x h

  to_update_row :
      (k id : ℕ) (ms : List Message)
      → Whole P (find_message k ms)
      → Whole Q (find_message k (update_row id guard f ms))
  to_update_row k id ms h =
      rw (find_message-update_row guard f keeps id k ms) (elim (Bool-cases (id == k)) [
        | inl e ↦ rw e (to_row (find_message k ms) h)
        | inr e ↦ rw e (same_row (find_message k ms) h)
      ])

  to_update_where :
      (k : ℕ) (ms : List Message)
      → Whole P (find_message k ms)
      → Whole Q (find_message k (update_where guard f ms))
  to_update_where k ms h =
      rw (find_message-update_where guard f keeps k ms) (to_row (find_message k ms) h)

module _ (m : Message) where
  abbrev Is : Message → Type 0
  Is x = m ≡ x

  still : (c : Call) (x : Message) → Is x → Moved c m x
  still c x e = subst (Moved c m) e (left refl refl refl)

  -- from what the first update of a claim leaves
  abbrev LostOrSame : ℕ → Message → Type 0
  LostOrSame now x = Is x ⊎ ((x ≡ quarantine m) × (quarantined now m ≡ true))

  lost : (now : ℕ) (x : Message) → Is x → quarantined now x ≡ true → LostOrSame now (quarantine x)
  lost now x e g =
      subst (λ y. quarantined now y ≡ true → LostOrSame now (quarantine y)) e (λ h. inr (refl, h)) g

  module _ (now id : ℕ) (retrying : Bool) (expected : Option String) (token : String)
      (ticket : Ticket) where
    abbrev claiming : Call
    claiming = Call.claim now retrying expected token id

    claim-quarantined :
        claimable now retrying expected ticket (quarantine m) ≡ true
        → Moved claiming m (take_claim now token (quarantine m))
    unfolding claimable quarantine
    claim-quarantined g = ground arith

    quarantine-Moved : quarantined now m ≡ true → Moved claiming m (quarantine m)
    unfolding quarantined quarantine
    quarantine-Moved g = elim (Option-cases m.send_status) [
      | inl e ↦ ground arith
      | inr (s, e) ↦ by_status s e
    ]
      where
        by_status : (s : SendStatus) → m.send_status ≡ some s → Moved claiming m (quarantine m)
        by_status dispatching e = moved e refl (reclaim_lost (ground arith))
        by_status s e = ground arith

    unclaimed : (x : Message) → LostOrSame now x → Moved claiming m x
    unclaimed x (inl e) = still claiming x e
    unclaimed x (inr (e, g)) = subst (Moved claiming m) (sym e) (quarantine-Moved g)

    claimed :
        (x : Message)
        → LostOrSame now x
        → claimable now retrying expected ticket x ≡ true
        → Moved claiming m (take_claim now token x)
    claimed x (inl e) g =
        subst
          (λ y.
            claimable now retrying expected ticket y ≡ true
            → Moved claiming m (take_claim now token y))
          e (claim-Moved now id retrying expected token ticket m m.send_status refl) g
    claimed x (inr (e, _)) g =
        subst
          (λ y.
            claimable now retrying expected ticket y ≡ true
            → Moved claiming m (take_claim now token y))
          (sym e) claim-quarantined g

  -- an update of the row as it is
  at_row :
      (c : Call) (guard : Message → Bool) (f : Message → Message)
      → (guard m ≡ true → Moved c m (f m))
      → (x : Message) → Is x
      → guard x ≡ true
      → Moved c m (f x)
  at_row c guard f step x e = subst (λ y. guard y ≡ true → Moved c m (f y)) e step

  recover-Moved : (now : ℕ) → quarantined now m ≡ true → Moved (Call.recover now) m (recover now m)
  unfolding quarantined recover
  recover-Moved now g = by_status m.send_status refl
    where
      by_status :
          (o : Option SendStatus) → m.send_status ≡ o → Moved (Call.recover now) m (recover now m)
      by_status (some dispatching) e = moved e refl (recover_lost (ground arith))
      by_status o e = ground arith

  module _ (k : ℕ) (db : Db) (found : find_message k db.messages ≡ some m) where
    was : Whole Is (find_message k db.messages)
    was = rw found refl

    abbrev Stepped : Call → Db → Type 0
    Stepped c after = Whole (Moved c m) (find_message k after.messages)

    unmoved : (c : Call) → Stepped c db
    unmoved c = rw found (left refl refl refl)

    claim_delivery-Moved :
        (now id : ℕ) (retrying : Bool) (expected : Option String) (token : String)
        → Stepped
            (Call.claim now retrying expected token id)
            (claim_delivery now retrying expected token id db).0
    unfolding claim_delivery take_claim quarantine
    claim_delivery-Moved now id retrying expected token =
        elim (Option-cases (lock_delivery_ticket db id)) [
          | inl e ↦ rw (e, claim_delivery) (unmoved (Call.claim now retrying expected token id))
          | inr (ticket, e) ↦
              rw (e, claim_delivery)
                (to_update_row (LostOrSame now)
                  (Moved (claiming now id retrying expected token ticket) m)
                  (claimable now retrying expected ticket) (take_claim now token) (λ x. refl)
                  (unclaimed now id retrying expected token ticket)
                  (claimed now id retrying expected token ticket) k id
                  (update_row id (quarantined now) quarantine db.messages)
                  (to_update_row Is (LostOrSame now) (quarantined now) quarantine (λ x. refl)
                    (λ x. inl) (lost now) k id db.messages was))
        ]

    begin_delivery-Moved :
        (now id : ℕ) (token : String)
        → Stepped (Call.begin now token id) (begin_delivery now token id db).0
    unfolding begin_delivery start
    begin_delivery-Moved now id token = elim (Option-cases (lock_delivery_ticket db id)) [
      | inl e ↦ rw (e, begin_delivery) (unmoved (Call.begin now token id))
      | inr (ticket, e) ↦
          let c = Call.begin now token id in
          rw (e, begin_delivery)
            (to_update_row Is (Moved c m) (startable now token ticket) (start now) (λ x. refl)
              (still c)
              (at_row c (startable now token ticket) (start now)
                (start-Moved now id token ticket m m.send_status refl))
              k id db.messages was)
    ]

    fence-all :
        (now ticket_id : ℕ) (uuid : ℕ → String)
        → Stepped
            (Call.fence now uuid ticket_id)
            (fence_deliveries_for_lifecycle now uuid ticket_id db).0
    unfolding fence_deliveries_for_lifecycle fence
    fence-all now ticket_id uuid =
        let c = Call.fence now uuid ticket_id in
        let f = λ (x : Message). fence now (uuid x.id) x in
        elim (Bool-cases (any (blocks_lifecycle now ticket_id) db.messages)) [
          | inl e ↦ rw e (unmoved c)
          | inr e ↦ rw e (
              to_update_where Is (Moved c m) (idle_preparation ticket_id) f (λ x. refl) (still c)
                (at_row c (idle_preparation ticket_id) f
                  (fence-Moved now ticket_id uuid m m.send_status refl))
                k db.messages was)
        ]

    -- Each of the seven calls of the delivery repository leaves the status, the token and the start
    -- of a reply's attempt as they are, or makes one of the listed moves, with what the row must
    -- show for it: a dispatch ends by a call that carries its token, or as lost once its lease is
    -- over, and a failed attempt is claimed again only if it is safe to retry.
    pub perform-Moved : (c : Call) → Whole (Moved c m) (find_message k (perform c db).messages)
    unfolding perform finish_delivery finish interrupt_delivery interrupt
        recover_abandoned_deliveries recover expire_held_replies end_hold quarantine
    perform-Moved (Call.claim now retrying expected token id) =
        claim_delivery-Moved now id retrying expected token
    perform-Moved (Call.begin now token id) = begin_delivery-Moved now id token
    perform-Moved (Call.finish now token outcome id) =
        let c = Call.finish now token outcome id in
        to_update_row Is (Moved c m) (finishable now token outcome) (finish now outcome) (λ x. refl)
          (still c)
          (at_row c (finishable now token outcome) (finish now outcome)
            (finish-Moved now id token outcome m m.send_status refl))
          k id db.messages was
    perform-Moved (Call.interrupt now token id) =
        let c = Call.interrupt now token id in
        to_update_row Is (Moved c m) (interruptible now token) (interrupt now) (λ x. refl) (still c)
          (at_row c (interruptible now token) (interrupt now)
            (interrupt-Moved now id token m m.send_status refl))
          k id db.messages was
    perform-Moved (Call.recover now) =
        let c = Call.recover now in
        to_update_where Is (Moved c m) (quarantined now) (recover now) (λ x. refl) (still c)
          (at_row c (quarantined now) (recover now) (recover-Moved now)) k db.messages was
    perform-Moved (Call.expire now) =
        let c = Call.expire now in
        to_update_where Is (Moved c m) (hold_expired now) (end_hold now) (λ x. refl) (still c)
          (at_row c (hold_expired now) (end_hold now) (λ g. left refl refl refl)) k db.messages was
    perform-Moved (Call.fence now uuid ticket_id) = fence-all now ticket_id uuid
