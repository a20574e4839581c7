-- ===== src/Delivery/Lifecycle.antt =====
-- Lifecycle changes fence the deliveries of their ticket.
use mathlib.Core.Path.{subst}
use ai_whats_app_shipment_as.Prelude.{
  ◌≢◌, ◌&&◌, eq_sql, eq_iff, All, ◌⊎◌, ℕ, String, ◌≡◌, ◌∙◌, refl, sym, ap, Bool, true, false,
  Option, none, some, List, [], ◌∷◌, arith, ◌==◌, any, if◌then◌else◌, Option-cases, Bool-cases, inl,
  inr,
}
use ai_whats_app_shipment_as.Delivery.Message.{
  Message, Ticket, Db, Direction, outbound, is_outbound, is_pending, is_dispatching,
}
use ai_whats_app_shipment_as.Delivery.Table.{
  find_message, update_where, set_where, map_row, find_message-update_where,
}
use ai_whats_app_shipment_as.Delivery.Claim.{
  lock_delivery_ticket, quarantined, quarantine, claimable, take_claim, startable, start,
  begin_delivery,
}
use ai_whats_app_shipment_as.Delivery.Trace.{Call, run}
use ai_whats_app_shipment_as.Delivery.RowStep.{RowStep, Whole, Draws, Holds-run}
use ai_whats_app_shipment_as.Delivery.Finish.{
  sent_as, not_sent, in_doubt, finishable, finish, interruptible, interrupt, recover, end_hold,
  blocks_lifecycle, idle_preparation, fence, fence_deliveries_for_lifecycle,
}

-- After a fence that succeeded, a reply of the ticket has nothing on its way.
abbrev pub Fenced : ℕ → Message → Type 0
Fenced ticket_id m =
    m.ticket_id ≡ ticket_id
    → m.direction ≡ outbound
    → (is_pending m.send_status ≡ false) × (is_dispatching m.send_status ≡ false)

find-any :
    (p : Message → Bool) (k : ℕ) (ms : List Message) (m : Message)
    → any p ms ≡ false
    → find_message k ms ≡ some m
    → p m ≡ false
unfolding find_message
find-any p k [] m free found = cc
find-any p k (x ∷ xs) m free found = elim (Bool-cases (x.id == k)) [
  | inl e ↦ ground arith
  | inr e ↦ find-any p k xs m (ground arith) (rw e at found)
]

Direction-cases : (d : Direction) → (d ≡ outbound) ⊎ (is_outbound d ≡ false)
Direction-cases outbound = inl refl
Direction-cases _ = inr refl

Fenced-row :
    (now : ℕ) (token : ℕ → String) (ticket_id : ℕ) (m : Message)
    → blocks_lifecycle now ticket_id m ≡ false
    → Fenced ticket_id (set_where (idle_preparation ticket_id) (λ r. fence now (token r.id) r) m)
unfolding blocks_lifecycle idle_preparation fence
Fenced-row now token ticket_id m free same out = ground arith

-- A row on which no attempt with the token may start.
abbrev Barred : String → Message → Type 0
Barred token m =
    (eq_sql m.delivery_token (some token) && is_pending m.send_status && is_outbound m.direction)
    ≡ false

RowStep-Barred :
    (token : String) (m m' : Message)
    → RowStep (λ t. t ≢ token) m m'
    → Barred token m
    → Barred token m'
unfolding take_claim start finish interrupt quarantine recover end_hold fence quarantined claimable
    startable finishable interruptible idle_preparation
RowStep-Barred token m _ (RowStep.quarantining now g) h = ground arith
RowStep-Barred token m _ (RowStep.claiming now retrying expected t ticket new g) h =
    ground (arith, eq_iff t token, new)
RowStep-Barred token m _ (RowStep.starting now t ticket g) h = ground arith
RowStep-Barred token m _ (RowStep.finishing now t (sent_as p) g) h = ground arith
RowStep-Barred token m _ (RowStep.finishing now t (not_sent e c b) g) h = ground arith
RowStep-Barred token m _ (RowStep.finishing now t (in_doubt e) g) h = ground arith
RowStep-Barred token m _ (RowStep.interrupting now t g) h = ground arith
RowStep-Barred token m _ (RowStep.recovering now g) h = ground arith
RowStep-Barred token m _ (RowStep.unholding now g) h = ground arith
RowStep-Barred token m _ (RowStep.fencing now t ticket_id new g) h = ground arith

startable-Barred :
    (later : ℕ) (token : String) (ticket : Ticket) (o : Option Message)
    → Whole (Barred token) o
    → elim o [ none ↦ false | some m ↦ startable later token ticket m ] ≡ false
unfolding startable
startable-Barred later token ticket none h = refl
startable-Barred later token ticket (some m) h = ground arith

begin-Barred :
    (later : ℕ) (token : String) (k : ℕ) (db : Db)
    → Whole (Barred token) (find_message k db.messages)
    → (begin_delivery later token k db).1 ≡ false
unfolding begin_delivery
begin-Barred later token k db h = elim (Option-cases (lock_delivery_ticket db k)) [
  | inl e ↦ rw (e, begin_delivery)
  | inr (ticket, e) ↦
      rw (e, begin_delivery) (startable-Barred later token ticket (find_message k db.messages) h)
]

module _ (now : ℕ) (uuid : ℕ → String) (ticket_id k : ℕ) (db : Db) where
  abbrev after : Db
  after = (fence_deliveries_for_lifecycle now uuid ticket_id db).0

  Fenced-map_row :
      (o : Option Message) (m : Message)
      → ((r : Message) → o ≡ some r → blocks_lifecycle now ticket_id r ≡ false)
      → map_row (set_where (idle_preparation ticket_id) (λ r. fence now (uuid r.id) r)) o ≡ some m
      → Fenced ticket_id m
  Fenced-map_row none m free e = cc
  Fenced-map_row (some r) m free e =
      let same : set_where (idle_preparation ticket_id) (λ x. fence now (uuid x.id) x) r ≡ m = cc in
      subst (Fenced ticket_id) same (Fenced-row now uuid ticket_id r (free r refl))

  abbrev Passed : Type 0
  Passed = (fence_deliveries_for_lifecycle now uuid ticket_id db).1 ≡ true

  Passed-free : Passed → any (blocks_lifecycle now ticket_id) db.messages ≡ false
  unfolding fence_deliveries_for_lifecycle
  Passed-free p = ground arith

  Passed-after :
      Passed
      → after.messages
        ≡ update_where (idle_preparation ticket_id) (λ r. fence now (uuid r.id) r) db.messages
  unfolding fence_deliveries_for_lifecycle
  Passed-after p =
      ap
        (λ (b : Bool).
          let r : Db × Bool = if b then (db, false) else (
            record db {
              messages =
                  update_where (idle_preparation ticket_id) (λ r. fence now (uuid r.id) r)
                    db.messages;
            },
            true,
          ) in
          r.0.messages)
        (Passed-free p)

  Fenced-find : (m : Message) → Passed → find_message k after.messages ≡ some m → Fenced ticket_id m
  unfolding fence
  Fenced-find m p found =
      Fenced-map_row (find_message k db.messages) m
        (λ r. find-any (blocks_lifecycle now ticket_id) k db.messages r (Passed-free p))
        (sym (
            find_message-update_where (idle_preparation ticket_id) (λ r. fence now (uuid r.id) r)
              (λ r. refl) k db.messages)
          ∙ (sym (ap (find_message k) (Passed-after p)) ∙ found))

  -- the outbound row of the ticket, as it was and as the fence left it
  Barred-after :
      (token : String) (m : Message)
      → find_message k after.messages ≡ some m
      → m.ticket_id ≡ ticket_id
      → Passed
      → Barred token m
  Barred-after token m found same p = elim (Direction-cases m.direction) [
    | inl out ↦ ground (arith, Fenced-find m p found same out)
    | inr other ↦ ground arith
  ]

  Whole-after :
      (token : String) (o : Option Message)
      → find_message k after.messages ≡ o
      → ((m : Message) → find_message k after.messages ≡ some m → m.ticket_id ≡ ticket_id)
      → Passed
      → Whole (Barred token) o
  Whole-after token none e same p = _
  Whole-after token (some m) e same p = Barred-after token m e (same m e) p

  -- A lifecycle fence either is refused and changes nothing, or it fences the ticket's deliveries;
  -- then an attempt on one of its messages that was under way with some token never reaches the
  -- provider, whatever calls come after the fence and however late it wakes up, if none of those
  -- calls draws that token again.
  pub begin-fence :
      (later : ℕ) (token : String) (cs : List Call)
      → ((m : Message) → find_message k after.messages ≡ some m → m.ticket_id ≡ ticket_id)
      → All (Draws (λ t. t ≢ token)) cs
      → ((fence_deliveries_for_lifecycle now uuid ticket_id db).1 ≡ true
          × ((begin_delivery later token k (run cs after)).1 ≡ false))
        ⊎ ((fence_deliveries_for_lifecycle now uuid ticket_id db).1 ≡ false × (after ≡ db))
  unfolding fence_deliveries_for_lifecycle
  begin-fence later token cs same new =
      elim (Bool-cases (fence_deliveries_for_lifecycle now uuid ticket_id db).1) [
        | inl p ↦ inl (
          p,
          begin-Barred later token k (run cs after) (
              Holds-run (λ t. t ≢ token) (Barred token) (RowStep-Barred token) k cs after new
                (Whole-after token (find_message k after.messages) refl same p)),
        )
        | inr refused ↦ inr (refused, ground (arith, refused))
      ]
