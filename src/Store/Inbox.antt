-- ===== src/Store/Inbox.antt =====
-- The durable inbox of InMemoryConversationStore in app/conversation_store.py: work waits in a
-- queue for each sender, and popped work stays in flight until it is acknowledged.
use ai_whats_app_shipment_as.Prelude.{
  ℕ, String, Bool, not, ◌&&◌, Option, none, some, List, [], ◌∷◌, ◌++◌, is_empty, truthy,
  eq_null_safe, if◌then◌else◌,
}
use ai_whats_app_shipment_as.Prelude.Dict
use ai_whats_app_shipment_as.Prelude.Dict.{Dict}
use ai_whats_app_shipment_as.Store.Guards.{Claims, claim, pin, conversation_ttl}

-- A queued webhook: its ids, the receipt that `pop` gave it, and the rest of the payload.
pub record Item : Type 0 where
  pub message_id : Option String
  pub claim_token : Option String
  pub receipt : Option String
  pub body : String

pub record Inbox : Type 0 where
  pub pending : Dict (List Item)
  pub inflight : Dict (List Item)
  pub messages : Claims
  pub conversations : Claims

-- The RuntimeErrors of the store.
pub data Error : Type 0 where
  receipt_missing : Error
  recovery_required : Error

pub data Result {ℓ} (A : Type ℓ) : Type ℓ where
  ok : A → Result A
  raised : Error → Result A

abbrev list_or_empty : Option (List Item) → List Item
list_or_empty none = []
list_or_empty (some items) = items

-- d.get(phone, [])
unfoldable pub queue_of : String → Dict (List Item) → List Item
queue_of phone d = list_or_empty (Dict.get phone d)

abbrev pub pending_of : String → Inbox → List Item
pending_of phone s = queue_of phone s.pending

abbrev pub inflight_of : String → Inbox → List Item
inflight_of phone s = queue_of phone s.inflight

abbrev pub same_receipt : Item → Item → Bool
same_receipt item reserved = eq_null_safe reserved.receipt item.receipt

-- the first reserved item with the receipt goes; None if there is none
abbrev cons_some : Item → Option (List Item) → Option (List Item)
cons_some x none = none
cons_some x (some xs) = some (x ∷ xs)

unfoldable pub drop_reserved : Item → List Item → Option (List Item)
drop_reserved item [] = none
drop_reserved item (x ∷ xs) =
    let rest = drop_reserved item xs in if same_receipt item x then some xs else cons_some x rest

acknowledged : String → Inbox → Option (List Item) → Result Inbox
acknowledged phone s none = raised receipt_missing
acknowledged phone s (some rest) = ok (record s { inflight = Dict.put phone rest s.inflight })

unfoldable pub acknowledge_incoming_work : String → Item → Inbox → Result Inbox
unfolding acknowledged
acknowledge_incoming_work phone item s =
    acknowledged phone s (drop_reserved item (inflight_of phone s))

-- the message's claim never expires while its work is queued
pin_claim : Item → Claims → Claims
pin_claim item d = elim item.message_id [
  | none ↦ d
  | some id ↦ elim item.claim_token [
    | none ↦ d
    | some token ↦ if truthy (some id) && truthy (some token) then pin token id d else d
  ]
]

abbrev without_receipt : Item → Item
without_receipt item = record item { receipt = none }

unfoldable pub push : String → Item → Bool → Inbox → Inbox
unfolding pin_claim
push phone item front s = record s {
  pending =
      Dict.put phone
        (if front
          then without_receipt item ∷ pending_of phone s
          else pending_of phone s ++ (without_receipt item ∷ []))
        s.pending;
  messages = pin_claim item s.messages;
}

unfoldable pub push_after : String → Item → Bool → Result Inbox → Result Inbox
push_after phone item front (ok s) = ok (push phone item front s)
push_after phone item front (raised e) = raised e

-- Work that is put back gives its receipt up first.
unfoldable pub enqueue_incoming_work : String → Item → Bool → Inbox → Result Inbox
enqueue_incoming_work phone item front s = elim item.receipt [
  | none ↦ ok (push phone item front s)
  | some _ ↦ push_after phone item front (acknowledge_incoming_work phone item s)
]

-- an empty queue leaves the dict
abbrev pub put_or_pop : String → List Item → Dict (List Item) → Dict (List Item)
put_or_pop phone [] d = Dict.pop phone d
put_or_pop phone (x ∷ xs) d = Dict.put phone (x ∷ xs) d

pop_from : String → String → List Item → Inbox → Inbox × Option Item
pop_from phone receipt [] s = (s, none)
pop_from phone receipt (x ∷ xs) s =
    let reserved = record x { receipt = some receipt } in
    (
      record s {
        pending = put_or_pop phone xs s.pending;
        inflight = Dict.put phone (inflight_of phone s ++ (reserved ∷ [])) s.inflight;
      },
      some reserved,
    )

-- The receipt is a fresh random token in the source.
unfoldable pub pop_incoming_work : String → String → Inbox → Inbox × Option Item
unfolding pop_from
pop_incoming_work phone receipt s = pop_from phone receipt (pending_of phone s) s

unfoldable pub claim_conversation_processing :
    ℕ → ℕ → ℕ → String → String → Inbox → Inbox × Result (Option String)
claim_conversation_processing lock_ttl turn_timeout now token phone s =
    let (taken, won) =
      claim (conversation_ttl lock_ttl turn_timeout) now token phone s.conversations in
    elim won [
      | none ↦ (record s { conversations = taken }, ok none)
      | some t ↦
          if truthy (some t) && not (is_empty (inflight_of phone s))
          then (record s { conversations = Dict.pop phone taken }, raised recovery_required)
          else (record s { conversations = taken }, ok (some t))
    ]
