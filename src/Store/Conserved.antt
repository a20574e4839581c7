-- ===== src/Store/Conserved.antt =====
-- No queued work is lost or duplicated, and it comes out in the order in which it went in.
use ai_whats_app_shipment_as.Prelude.{
  ℕ, ◌+◌, String, ◌≡◌, refl, ap, Bool, true, false, none, some, List, [], ◌∷◌, ◌++◌, arith, All,
  is_some, Bool-cases, str_eq, eq_iff, if◌then◌else◌, Option-cases, inl, inr,
}
use ai_whats_app_shipment_as.Prelude.Dict
use ai_whats_app_shipment_as.Prelude.Dict.{Dict}
use ai_whats_app_shipment_as.Store.Inbox.{
  Item, Inbox, Result, ok, raised, queue_of, put_or_pop, pending_of, inflight_of, drop_reserved,
  same_receipt, acknowledge_incoming_work, push, push_after, enqueue_incoming_work,
  pop_incoming_work,
}

pub data Work : Type 0 where
  enqueue : String → Item → Bool → Work
  pop : String → String → Work
  acknowledge : String → Item → Work

-- A call that raises leaves the inbox as it was.
unfoldable pub state_after : Inbox → Result Inbox → Inbox
state_after s (ok s') = s'
state_after s (raised e) = s

unfoldable pub perform : Work → Inbox → Inbox
unfolding state_after
perform (enqueue phone item front) s = state_after s (enqueue_incoming_work phone item front s)
perform (pop phone receipt) s = (pop_incoming_work phone receipt s).0
perform (acknowledge phone item) s = state_after s (acknowledge_incoming_work phone item s)

unfoldable pub run : List Work → Inbox → Inbox
run [] s = s
run (w ∷ ws) s = run ws (perform w s)

-- What an item is apart from its receipt.
abbrev pub strip : Item → Item
strip item = record item { receipt = none }

abbrev weight : Bool → ℕ
weight true = 1
weight false = 0

abbrev if_done : ℕ → Result Inbox → ℕ
if_done n (ok s) = n
if_done n (raised e) = 0

-- A worker that hands work back hands back what was reserved under that receipt.
abbrev Returns : Item → List Item → Type 0
Returns item reserved = All (λ x. same_receipt item x ≡ true → strip x ≡ strip item) reserved

abbrev HonestNow : Work → Inbox → Type 0
HonestNow (enqueue p item front) s = is_some item.receipt ≡ true → Returns item (inflight_of p s)
HonestNow (pop p receipt) s = Unit
HonestNow (acknowledge p item) s = Returns item (inflight_of p s)

unfoldable pub Honest : List Work → Inbox → Type 0
Honest [] s = Unit
Honest (w ∷ ws) s = HonestNow w s × Honest ws (perform w s)

-- The items that a test q picks, whatever their receipts.
module _ (q : Item → Bool) where
  unfoldable pub count : List Item → ℕ
  count [] = 0
  count (x ∷ xs) = weight (q (strip x)) + count xs

  -- New work for a sender: an enqueue with no receipt.
  unfoldable pub arrived_now : String → Work → ℕ
  arrived_now phone (enqueue p item front) =
      if str_eq p phone
      then elim item.receipt [ none ↦ weight (q (strip item)) | some _ ↦ 0 ]
      else 0
  arrived_now phone _ = 0

  unfoldable pub arrived : String → List Work → ℕ
  arrived phone [] = 0
  arrived phone (w ∷ ws) = arrived_now phone w + arrived phone ws

  -- Work of a sender that was acknowledged.
  unfoldable pub finished_now : String → Work → Inbox → ℕ
  finished_now phone (acknowledge p item) s =
      if str_eq p phone
      then if_done (weight (q (strip item))) (acknowledge_incoming_work p item s)
      else 0
  finished_now phone _ s = 0

  unfoldable pub finished : String → List Work → Inbox → ℕ
  finished phone [] s = 0
  finished phone (w ∷ ws) s = finished_now phone w s + finished phone ws (perform w s)

  -- What a sender has waiting or in flight.
  abbrev pub outstanding : String → Inbox → ℕ
  outstanding phone s = count (pending_of phone s) + count (inflight_of phone s)

  count-append : (xs ys : List Item) → count (xs ++ ys) ≡ count xs + count ys
  unfolding count
  count-append [] ys = omega arith
  count-append (x ∷ xs) ys = omega (arith, count-append xs ys)

  count-cons : (x : Item) (xs : List Item) → count (x ∷ xs) ≡ weight (q (strip x)) + count xs
  unfolding count
  count-cons x xs = refl

  count_one : (x : Item) → count (x ∷ []) ≡ weight (q (strip x))
  unfolding count
  count_one x = omega arith

  count_dropped :
      (item : Item) (items rest : List Item)
      → Returns item items
      → drop_reserved item items ≡ some rest
      → count items ≡ weight (q (strip item)) + count rest
  unfolding drop_reserved count
  count_dropped item [] rest honest h = cc
  count_dropped item (x ∷ xs) rest honest h = elim (Bool-cases (same_receipt item x)) [
    | inl b ↦ ground (arith, ap (λ y. weight (q y)) (honest.0 b))
    | inr b ↦ elim (Option-cases (drop_reserved item xs)) [
      | inl e ↦ ground arith
      | inr (r, e) ↦ ground (arith, count_dropped item xs r honest.1 e)
    ]
  ]

module _ (p phone : String) where
  pub queue_of-put :
      (items : List Item) (d : Dict (List Item))
      → queue_of phone (Dict.put p items d) ≡ (if str_eq p phone then items else queue_of phone d)
  unfolding queue_of
  queue_of-put items d = ground (arith, Dict.get-put p phone items d)

  pub queue_of-put_or_pop :
      (items : List Item) (d : Dict (List Item))
      → queue_of phone (put_or_pop p items d) ≡ (if str_eq p phone then items else queue_of phone d)
  unfolding queue_of
  queue_of-put_or_pop [] d = ground (arith, Dict.get-pop p phone d)
  queue_of-put_or_pop (x ∷ xs) d = ground (arith, Dict.get-put p phone (x ∷ xs) d)

  pub same_queue : str_eq p phone ≡ true → (d : Dict (List Item)) → queue_of p d ≡ queue_of phone d
  same_queue e d = ap (λ x. queue_of x d) ((eq_iff p phone).0 e)

module _ (q : Item → Bool) (p phone : String) where
  outstanding-push :
      (item : Item) (front : Bool) (s : Inbox)
      → outstanding q phone (push p item front s) ≡ (
          if str_eq p phone
          then outstanding q phone s + weight (q (strip item))
          else outstanding q phone s)
  unfolding push
  outstanding-push item true s = ground (
    arith,
    queue_of-put p phone (strip item ∷ pending_of p s) s.pending,
    λ (e : str_eq p phone ≡ true). same_queue p phone e s.pending,
    count-cons q (strip item) (pending_of p s),
  )
  outstanding-push item false s = ground (
    arith,
    queue_of-put p phone (pending_of p s ++ (strip item ∷ [])) s.pending,
    count-append q (pending_of p s) (strip item ∷ []),
    count_one q (strip item),
    λ (e : str_eq p phone ≡ true). same_queue p phone e s.pending,
  )

  outstanding-acknowledge :
      (item : Item) (s : Inbox)
      → Returns item (inflight_of p s)
      → outstanding q phone (state_after s (acknowledge_incoming_work p item s))
          + (if str_eq p phone
              then if_done (weight (q (strip item))) (acknowledge_incoming_work p item s)
              else 0)
        ≡ outstanding q phone s
  unfolding acknowledge_incoming_work state_after
  outstanding-acknowledge item s honest =
      elim (Option-cases (drop_reserved item (inflight_of p s))) [
        | inl e ↦ rw e (ground arith)
        | inr (rest, e) ↦ rw e (
            ground (
              arith,
              queue_of-put p phone rest s.inflight,
              count_dropped q item (inflight_of p s) rest honest e,
              λ (h : str_eq p phone ≡ true). same_queue p phone h s.inflight,
            ))
      ]

  popped :
      (receipt : String) (s : Inbox) (items : List Item)
      → pending_of p s ≡ items
      → outstanding q phone (pop_incoming_work p receipt s).0 ≡ outstanding q phone s
  unfolding pop_incoming_work
  popped receipt s [] e = rw (e, pop_incoming_work)
  popped receipt s (x ∷ xs) e =
      let reserved = record x { receipt = some receipt } in
      rw (e, pop_incoming_work)
        (ground (
          arith,
          queue_of-put_or_pop p phone xs s.pending,
          queue_of-put p phone (inflight_of p s ++ (reserved ∷ [])) s.inflight,
          count-append q (inflight_of p s) (reserved ∷ []),
          count_one q reserved,
          count-cons q x xs,
          λ (h : str_eq p phone ≡ true). same_queue p phone h s.pending,
          λ (h : str_eq p phone ≡ true). same_queue p phone h s.inflight,
        ))

  -- Work that is put back leaves the flight and waits again.
  put_back :
      (item : Item) (front : Bool) (s : Inbox) (r : Result Inbox)
      → outstanding q phone (state_after s r)
          + (if str_eq p phone then if_done (weight (q (strip item))) r else 0)
        ≡ outstanding q phone s
      → outstanding q phone (state_after s (push_after p item front r)) ≡ outstanding q phone s
  unfolding state_after push_after
  put_back item front s (ok s') h = ground (arith, outstanding-push item front s')
  put_back item front s (raised e) h = refl

  enqueued :
      (item : Item) (front : Bool) (s : Inbox)
      → (is_some item.receipt ≡ true → Returns item (inflight_of p s))
      → outstanding q phone (state_after s (enqueue_incoming_work p item front s))
        ≡ arrived_now q phone (enqueue p item front) + outstanding q phone s
  unfolding enqueue_incoming_work state_after arrived_now
  enqueued item front s honest = elim (Option-cases item.receipt) [
    | inl e ↦ simp e (ground (arith, outstanding-push item front s))
    | inr (receipt, e) ↦
        let returned : Returns item (inflight_of p s) = honest (ap is_some e) in
        simp e (
          ground (
            arith,
            put_back item front s (acknowledge_incoming_work p item s)
                (outstanding-acknowledge item s returned),
          ))
  ]

perform-conserves :
    (q : Item → Bool) (phone : String) (w : Work) (s : Inbox)
    → HonestNow w s
    → outstanding q phone (perform w s) + finished_now q phone w s
      ≡ arrived_now q phone w + outstanding q phone s
unfolding perform finished_now arrived_now
perform-conserves q phone (enqueue p item front) s honest =
    unfold arrived_now in omega (arith, enqueued q p phone item front s honest)
perform-conserves q phone (pop p receipt) s honest =
    omega (arith, popped q p phone receipt s (pending_of p s) refl)
perform-conserves q phone (acknowledge p item) s honest =
    omega (arith, outstanding-acknowledge q p phone item s honest)

-- Over any sequence of enqueues, pops and acknowledgements, failing ones included, in which workers
-- hand back what was reserved under its receipt, the items of a sender that wait or are in flight
-- are those that were there and those that arrived, less those that were acknowledged: of any kind
-- that a test `q` picks, whatever the receipts, the numbers agree.
pub work_conserved :
    (q : Item → Bool) (phone : String) (ws : List Work) (s : Inbox)
    → Honest ws s
    → outstanding q phone (run ws s) + finished q phone ws s
      ≡ arrived q phone ws + outstanding q phone s
unfolding run finished arrived Honest
work_conserved q phone [] s honest = omega arith
work_conserved q phone (w ∷ ws) s honest = omega (
  arith,
  perform-conserves q phone w s honest.0,
  work_conserved q phone ws (perform w s) honest.1,
)
