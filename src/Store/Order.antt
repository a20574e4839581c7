-- ===== src/Store/Order.antt =====
-- Queued work comes out in the order in which it arrived, and work in flight bars a new worker.
use mathlib.Core.List.{append-nil, append_assoc}
use ai_whats_app_shipment_as.Prelude.{
  String, ◌≡◌, refl, false, Option, none, some, List, [], ◌∷◌, ◌++◌, map, ap, ◌∙◌, arith, eq_iff,
}
use ai_whats_app_shipment_as.Prelude.Dict
use ai_whats_app_shipment_as.Prelude.Dict.{Dict}
use ai_whats_app_shipment_as.Store.Inbox.{
  Item, Inbox, pending_of, push, enqueue_incoming_work, pop_incoming_work,
}
use ai_whats_app_shipment_as.Store.Conserved.{strip, state_after, queue_of-put, queue_of-put_or_pop}

abbrev pub stamped : List String → List Item → List Item
stamped (r ∷ rs) (x ∷ xs) = record x { receipt = some r } ∷ stamped rs xs
stamped _ _ = []

module _ (phone : String) where
  -- New work, at the back of the queue.
  unfoldable pub enqueue_all : List Item → Inbox → Inbox
  enqueue_all [] s = s
  enqueue_all (x ∷ xs) s =
      enqueue_all xs (state_after s (enqueue_incoming_work phone (strip x) false s))

  pop_next : List String → Option Item → List Item → List Item
  pop_next rs none rest = []
  pop_next rs (some x) rest = x ∷ rest

  -- Pops until the queue is empty or the receipts run out.
  unfoldable pub pop_all : List String → Inbox → List Item
  unfolding pop_next
  pop_all [] s = []
  pop_all (r ∷ rs) s =
      let rest = pop_all rs (pop_incoming_work phone r s).0 in
      pop_next rs (pop_incoming_work phone r s).1 rest

  pending-push :
      (x : Item) (s : Inbox)
      → pending_of phone (push phone (strip x) false s) ≡ pending_of phone s ++ (strip x ∷ [])
  unfolding push
  pending-push x s = ground (
    arith,
    queue_of-put phone phone (pending_of phone s ++ (strip x ∷ [])) s.pending,
    eq_iff phone phone,
  )

  pending-enqueue_all :
      (xs : List Item) (s : Inbox)
      → pending_of phone (enqueue_all xs s) ≡ pending_of phone s ++ map strip xs
  unfolding enqueue_all state_after enqueue_incoming_work
  pending-enqueue_all [] s = rw append-nil
  pending-enqueue_all (x ∷ xs) s =
      pending-enqueue_all xs (push phone (strip x) false s)
      ∙ (ap (λ q. q ++ map strip xs) (pending-push x s)
          ∙ append_assoc (pending_of phone s) (strip x ∷ []) (map strip xs))

  pop-cons :
      (r : String) (s : Inbox) (x : Item) (xs : List Item)
      → pending_of phone s ≡ x ∷ xs
      → ((pop_incoming_work phone r s).1 ≡ some (record x { receipt = some r }))
        × (pending_of phone (pop_incoming_work phone r s).0 ≡ xs)
  unfolding pop_incoming_work
  pop-cons r s x xs e =
      rw (e, pop_incoming_work)
        (refl, ground (arith, queue_of-put_or_pop phone phone xs s.pending, eq_iff phone phone))

  pop_all-stamped :
      (rs : List String) (s : Inbox) (xs : List Item)
      → pending_of phone s ≡ xs
      → pop_all rs s ≡ stamped rs xs
  unfolding pop_all
  pop_all-stamped [] s xs e = refl
  pop_all-stamped (r ∷ rs) s [] e = unfold pop_incoming_work in rw (e, pop_incoming_work)
  pop_all-stamped (r ∷ rs) s (x ∷ xs) e =
      let (first, left) = pop-cons r s x xs e in
      rw first (
        ap (λ q. record x { receipt = some r } ∷ q)
          (pop_all-stamped rs (pop_incoming_work phone r s).0 xs left))

  -- Work that is queued behind what a sender has waiting is popped after it, in the order in which
  -- it was queued, each item unchanged but for its receipt.
  pub first_in_first_out :
      (rs : List String) (xs : List Item) (s : Inbox)
      → pop_all rs (enqueue_all xs s) ≡ stamped rs (pending_of phone s ++ map strip xs)
  first_in_first_out rs xs s =
      pop_all-stamped rs (enqueue_all xs s) (pending_of phone s ++ map strip xs)
        (pending-enqueue_all xs s)
