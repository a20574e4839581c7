-- ===== src/Delivery/Table.antt =====
-- UPDATE and SELECT on the message and ticket tables. `id` is the primary key, so a statement that
-- names one id reaches at most one row, and changes it if the rest of its WHERE clause holds.
use ai_whats_app_shipment_as.Prelude.{
  ℕ, ◌≡◌, refl, Bool, Option, none, some, List, [], ◌∷◌, map, arith, ◌==◌, if◌then◌else◌,
}
use ai_whats_app_shipment_as.Delivery.Message.{Message, Ticket}

unfoldable pub find_message : ℕ → List Message → Option Message
find_message id [] = none
find_message id (m ∷ ms) = if m.id == id then some m else find_message id ms

unfoldable pub find_ticket : ℕ → List Ticket → Option Ticket
find_ticket id [] = none
find_ticket id (t ∷ ts) = if t.id == id then some t else find_ticket id ts

-- SET on a row if the WHERE clause holds of it
abbrev pub set_where : (Message → Bool) → (Message → Message) → Message → Message
set_where guard f m = if guard m then f m else m

-- UPDATE ... WHERE id = %s AND guard
unfoldable pub update_row : ℕ → (Message → Bool) → (Message → Message) → List Message → List Message
update_row id guard f [] = []
update_row id guard f (m ∷ ms) =
    if m.id == id then set_where guard f m ∷ ms else m ∷ update_row id guard f ms

-- rowcount == 1
abbrev pub row_matches : ℕ → (Message → Bool) → List Message → Bool
row_matches id guard ms = elim (find_message id ms) [ none ↦ Bool.false | some m ↦ guard m ]

-- UPDATE ... WHERE guard
unfoldable pub update_where : (Message → Bool) → (Message → Message) → List Message → List Message
update_where guard f = map (set_where guard f)

abbrev pub map_row : (Message → Message) → Option Message → Option Message
map_row f none = none
map_row f (some m) = some (f m)

-- A SET clause that leaves the primary key alone.
abbrev pub KeepsId : (Message → Message) → Type 0
KeepsId f = (m : Message) → (f m).id ≡ m.id

module _ (guard : Message → Bool) (f : Message → Message) (keeps : KeepsId f) where
  set_where-id : (m : Message) → (set_where guard f m).id ≡ m.id
  set_where-id m = ground (arith, keeps m)

  pub find_message-update_row :
      (id other : ℕ) (ms : List Message)
      → find_message other (update_row id guard f ms) ≡ (
          if id == other
          then map_row (set_where guard f) (find_message other ms)
          else find_message other ms)
  unfolding find_message update_row
  find_message-update_row id other [] = ground arith
  find_message-update_row id other (m ∷ ms) =
      ground (arith, keeps m, find_message-update_row id other ms)

  pub find_message-update_where :
      (other : ℕ) (ms : List Message)
      → find_message other (update_where guard f ms)
        ≡ map_row (set_where guard f) (find_message other ms)
  unfolding find_message update_where
  find_message-update_where other [] = refl
  find_message-update_where other (m ∷ ms) =
      ground (arith, keeps m, find_message-update_where other ms)
