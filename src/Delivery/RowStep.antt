-- ===== src/Delivery/RowStep.antt =====
-- What one statement may do to one row, as a relation, and the rule that carries a property of a
-- row over any run of the repository's calls.
use ai_whats_app_shipment_as.Prelude.{
  ℕ, String, ◌≡◌, refl, Bool, true, Option, none, some, List, [], ◌∷◌, ◌==◌, any, All, Option-cases,
  Bool-cases, inl, inr,
}
use ai_whats_app_shipment_as.Delivery.Message.{Message, Ticket, Db}
use ai_whats_app_shipment_as.Delivery.Table.{
  KeepsId, find_message, update_row, update_where, set_where, map_row, find_message-update_row,
  find_message-update_where,
}
use ai_whats_app_shipment_as.Delivery.Claim.{
  lock_delivery_ticket, quarantined, quarantine, claimable, take_claim, claim_delivery, startable,
  start, begin_delivery,
}
use ai_whats_app_shipment_as.Delivery.Finish.{
  Outcome, finishable, finish, finish_delivery, interruptible, interrupt, interrupt_delivery,
  recover, recover_abandoned_deliveries, hold_expired, end_hold, expire_held_replies,
  blocks_lifecycle, idle_preparation, fence, fence_deliveries_for_lifecycle,
}
use ai_whats_app_shipment_as.Delivery.Trace.{Call, perform, run}

-- `drawn` is what is known of the tokens that claims and fences draw.
pub data RowStep (drawn : String → Type 0) (m : Message) : Message → Type 0 where
  quarantining : (now : ℕ) → quarantined now m ≡ true → RowStep drawn m (quarantine m)
  claiming :
      (now : ℕ) (retry : Bool) (expected : Option String) (token : String) (ticket : Ticket)
      → drawn token
      → claimable now retry expected ticket m ≡ true
      → RowStep drawn m (take_claim now token m)
  starting :
      (now : ℕ) (token : String) (ticket : Ticket)
      → startable now token ticket m ≡ true
      → RowStep drawn m (start now m)
  finishing :
      (now : ℕ) (token : String) (outcome : Outcome)
      → finishable now token outcome m ≡ true
      → RowStep drawn m (finish now outcome m)
  interrupting :
      (now : ℕ) (token : String)
      → interruptible now token m ≡ true
      → RowStep drawn m (interrupt now m)
  recovering : (now : ℕ) → quarantined now m ≡ true → RowStep drawn m (recover now m)
  unholding : (now : ℕ) → hold_expired now m ≡ true → RowStep drawn m (end_hold now m)
  fencing :
      (now : ℕ) (token : String) (ticket_id : ℕ)
      → drawn token
      → idle_preparation ticket_id m ≡ true
      → RowStep drawn m (fence now token m)

-- A property of a row, where there is one.
abbrev pub Whole : (Message → Type 0) → Option Message → Type 0
Whole P none = Unit
Whole P (some m) = P m

-- The tokens that a call draws have what is known of them.
abbrev pub Draws : (String → Type 0) → Call → Type 0
Draws drawn (Call.claim now retry expected token id) = drawn token
Draws drawn (Call.fence now uuid ticket_id) = (id : ℕ) → drawn (uuid id)
Draws drawn _ = Unit

module _ (drawn : String → Type 0) (P : Message → Type 0)
    (kept : (m m' : Message) → RowStep drawn m m' → P m → P m') where
  module _ (guard : Message → Bool) (f : Message → Message) (keeps : KeepsId f)
      (allowed : (m : Message) → guard m ≡ true → RowStep drawn m (f m)) where
    Whole-map_row : (o : Option Message) → Whole P o → Whole P (map_row (set_where guard f) o)
    Whole-map_row none h = h
    Whole-map_row (some m) h = elim (Bool-cases (guard m)) [
      | inl e ↦ rw e (kept m (f m) (allowed m e) h)
      | inr e ↦ rw e h
    ]

    Whole-update_row :
        (k id : ℕ) (ms : List Message)
        → Whole P (find_message k ms)
        → Whole P (find_message k (update_row id guard f ms))
    Whole-update_row k id ms h =
        rw (find_message-update_row guard f keeps id k ms) (elim (Bool-cases (id == k)) [
          | inl e ↦ rw e (Whole-map_row (find_message k ms) h)
          | inr e ↦ rw e h
        ])

    Whole-update_where :
        (k : ℕ) (ms : List Message)
        → Whole P (find_message k ms)
        → Whole P (find_message k (update_where guard f ms))
    Whole-update_where k ms h =
        rw (find_message-update_where guard f keeps k ms) (Whole-map_row (find_message k ms) h)

  abbrev Holds : ℕ → Db → Type 0
  Holds k db = Whole P (find_message k db.messages)

  Holds-claim :
      (k now : ℕ) (retry : Bool) (expected : Option String) (token : String) (id : ℕ) (db : Db)
      → drawn token
      → Holds k db
      → Holds k (claim_delivery now retry expected token id db).0
  unfolding claim_delivery take_claim quarantine
  Holds-claim k now retry expected token id db new h =
      elim (Option-cases (lock_delivery_ticket db id)) [
        | inl e ↦ rw (e, claim_delivery) h
        | inr (ticket, e) ↦
            rw (e, claim_delivery)
              (Whole-update_row (claimable now retry expected ticket) (take_claim now token)
                (λ m. refl) (λ m. RowStep.claiming now retry expected token ticket new) k id
                (update_row id (quarantined now) quarantine db.messages)
                (Whole-update_row (quarantined now) quarantine (λ m. refl)
                  (λ m. RowStep.quarantining now) k id db.messages h))
      ]

  Holds-begin :
      (k now : ℕ) (token : String) (id : ℕ) (db : Db)
      → Holds k db
      → Holds k (begin_delivery now token id db).0
  unfolding begin_delivery start
  Holds-begin k now token id db h = elim (Option-cases (lock_delivery_ticket db id)) [
    | inl e ↦ rw (e, begin_delivery) h
    | inr (ticket, e) ↦
        rw (e, begin_delivery)
          (Whole-update_row (startable now token ticket) (start now) (λ m. refl)
            (λ m. RowStep.starting now token ticket) k id db.messages h)
  ]

  Holds-fence :
      (k now : ℕ) (uuid : ℕ → String) (ticket_id : ℕ) (db : Db)
      → ((id : ℕ) → drawn (uuid id))
      → Holds k db
      → Holds k (fence_deliveries_for_lifecycle now uuid ticket_id db).0
  unfolding fence_deliveries_for_lifecycle fence
  Holds-fence k now uuid ticket_id db new h =
      elim (Bool-cases (any (blocks_lifecycle now ticket_id) db.messages)) [
        | inl e ↦ rw e h
        | inr e ↦ rw e (
            Whole-update_where (idle_preparation ticket_id) (λ m. fence now (uuid m.id) m)
              (λ m. refl) (λ m. RowStep.fencing now (uuid m.id) ticket_id (new m.id)) k db.messages
              h)
      ]

  -- What every row step keeps of a row, every call keeps.
  Holds-perform : (k : ℕ) (c : Call) (db : Db) → Draws drawn c → Holds k db → Holds k (perform c db)
  unfolding perform finish_delivery finish interrupt_delivery interrupt recover_abandoned_deliveries
      recover expire_held_replies end_hold quarantine
  Holds-perform k (Call.claim now retry expected token id) db new h =
      Holds-claim k now retry expected token id db new h
  Holds-perform k (Call.begin now token id) db new h = Holds-begin k now token id db h
  Holds-perform k (Call.finish now token outcome id) db new h =
      Whole-update_row (finishable now token outcome) (finish now outcome) (λ m. refl)
        (λ m. RowStep.finishing now token outcome) k id db.messages h
  Holds-perform k (Call.interrupt now token id) db new h =
      Whole-update_row (interruptible now token) (interrupt now) (λ m. refl)
        (λ m. RowStep.interrupting now token) k id db.messages h
  Holds-perform k (Call.recover now) db new h =
      Whole-update_where (quarantined now) (recover now) (λ m. refl) (λ m. RowStep.recovering now) k
        db.messages h
  Holds-perform k (Call.expire now) db new h =
      Whole-update_where (hold_expired now) (end_hold now) (λ m. refl) (λ m. RowStep.unholding now)
        k db.messages h
  Holds-perform k (Call.fence now uuid ticket_id) db new h =
      Holds-fence k now uuid ticket_id db new h

  pub Holds-run :
      (k : ℕ) (cs : List Call) (db : Db) → All (Draws drawn) cs → Holds k db → Holds k (run cs db)
  unfolding run
  Holds-run k [] db new h = h
  Holds-run k (c ∷ cs) db new h = Holds-run k cs (perform c db) new.1 (Holds-perform k c db new.0 h)
