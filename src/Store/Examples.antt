-- ===== src/Store/Examples.antt =====
-- The store at concrete calls.
use ai_whats_app_shipment_as.Prelude.{
  ◌+◌, ◌≤◌, ◌≡◌, refl, false, Bool, str_eq, inl, ◌++◌, map, none, some, List, [], ◌∷◌, arith,
}
use ai_whats_app_shipment_as.Prelude.Dict
use ai_whats_app_shipment_as.Store.Guards.{Claim, Claims, at, completed, claim, release, pin}
use ai_whats_app_shipment_as.Store.Exclusive
use ai_whats_app_shipment_as.Store.Exclusive.{
  Call, claiming, completing, releasing, wins, gives_back, live_claim_stands,
}
use ai_whats_app_shipment_as.Store.OneWorker.{wins-le-gives_back}
use ai_whats_app_shipment_as.Store.Inbox.{
  Item, Inbox, queue_of, pending_of, enqueue_incoming_work, pop_incoming_work,
  acknowledge_incoming_work, push, drop_reserved,
}
use ai_whats_app_shipment_as.Store.Conserved.{
  Work, enqueue, pop, acknowledge, run, arrived, finished, outstanding, work_conserved, strip,
  Honest, perform, state_after,
}
use ai_whats_app_shipment_as.Store.Order.{stamped, enqueue_all, pop_all, first_in_first_out}

abbrev done : Claim
done = record { state = completed; token = ""; expires_at = at 1000 }

abbrev claims : Claims
claims = ("m", done) ∷ []

abbrev redelivered : List Call
redelivered = claiming 900 10 "t2" "m" ∷ completing 900 20 "" "m" ∷ releasing 30 "" "m" ∷ []

live_claim_stands_example :
    (wins "m" redelivered claims ≡ 0)
    × (Dict.get "m" (Exclusive.run redelivered claims) ≡ some done)
unfolding Dict.get
live_claim_stands_example =
    live_claim_stands "m" done redelivered claims refl
      (refl, inl refl, (refl, inl refl, (refl, inl refl, tt)))

-- A worker gives its claim back, and a second one takes it; a third is refused.
abbrev retried : List Call
retried =
    claiming 900 10 "t1" "m"
    ∷ releasing 20 "t1" "m"
    ∷ claiming 900 30 "t2" "m"
    ∷ claiming 900 40 "t3" "m"
    ∷ []

two_claims : (wins "m" retried [] ≡ 2) × (gives_back "m" retried [] ≡ 1)
unfolding wins Exclusive.wins_now gives_back Exclusive.gives_back_now Exclusive.perform claim
    release Dict.get Dict.put
two_claims = (refl, refl)

wins-le-gives_back_example : wins "m" retried [] ≤ gives_back "m" retried [] + 1
wins-le-gives_back_example = wins-le-gives_back 500 "m" retried [] (omega arith)

abbrev item : Item
item = record { message_id = some "m"; claim_token = some "t1"; receipt = none; body = "hi" }

abbrev empty : Inbox
empty = record { pending = []; inflight = []; messages = []; conversations = [] }

abbrev day : List Work
day =
    enqueue "+1" item false
    ∷ pop "+1" "r1"
    ∷ acknowledge "+1" (record item { receipt = some "r0" })
    ∷ acknowledge "+1" (record item { receipt = some "r1" })
    ∷ []

abbrev is_hi : Item → Bool
is_hi x = str_eq x.body "hi"

day-Honest : Honest day empty
unfolding Honest perform enqueue_incoming_work pop_incoming_work acknowledge_incoming_work push
    queue_of Dict.get Dict.put Dict.pop pin state_after drop_reserved
day-Honest = ground arith

work_conserved_example :
    outstanding is_hi "+1" (run day empty) + finished is_hi "+1" day empty
    ≡ arrived is_hi "+1" day + outstanding is_hi "+1" empty
work_conserved_example = work_conserved is_hi "+1" day empty day-Honest

first_in_first_out_example :
    pop_all "+1" ("r1" ∷ "r2" ∷ []) (enqueue_all "+1" (item ∷ item ∷ []) empty)
    ≡ stamped ("r1" ∷ "r2" ∷ []) (pending_of "+1" empty ++ map strip (item ∷ item ∷ []))
first_in_first_out_example = first_in_first_out "+1" ("r1" ∷ "r2" ∷ []) (item ∷ item ∷ []) empty

abbrev busy : Inbox
busy = record { pending = []; inflight = ("+1", item ∷ []) ∷ []; messages = []; conversations = [] }
