-- ===== src/Tickets/Told.antt =====
-- The last mark that the audit of a ticket bears, and what the steps on its row add to it.
use mathlib.Core.Path.{subst}
use ai_whats_app_shipment_as.Prelude.{
  ℕ, ◌≤◌, ◌<◌, ◌≡◌, ◌∙◌, sym, ap, refl, Bool, true, false, not, ◌&&◌, Option, none, some, List, [],
  ◌∷◌, arith, ◌⊎◌, inl, inr, Option-cases, All, is_none, ltb, ◌==◌, if◌then◌else◌,
}
use ai_whats_app_shipment_as.Tickets.Model.{Event}
use ai_whats_app_shipment_as.Tickets.OpenAt.{mark_of_ticket, newer, newest, last_marked, mark_in}

-- the later of two marks
abbrev pub or_earlier : Option Bool → Option Bool → Option Bool
or_earlier none earlier = earlier
or_earlier (some b) earlier = some b

-- The mark of the last marked event of a ticket, in the order of the rows.
unfoldable pub last_mark : ℕ → List Event → Option Bool
last_mark id [] = none
last_mark id (e ∷ es) =
    or_earlier (last_mark id es) (if e.ticket_id == id then mark_of_ticket e else none)

abbrev pub After : Event → Event → Type 0
After a b = (a.created_at ≤ b.created_at) × (a.id < b.id)

-- The rows stand in the order of their times, which may be equal, and of their ids.
unfoldable pub InOrder : List Event → Type 0
InOrder [] = Unit
InOrder (e ∷ es) = All (After e) es × InOrder es

if-some {ℓ} :
    {A : Type ℓ} (b : Bool) (u v x : A)
    → (if b then some u else some v) ≡ some x
    → ((b ≡ true) × (u ≡ x)) ⊎ (v ≡ x)
if-some true u v x e = inl (refl, cc)
if-some false u v x e = inr cc

picked :
    (b : Bool) (e : Event) (rest : Option Event) (x : Event)
    → (if b then newest e rest else rest) ≡ some x
    → (rest ≡ some x) ⊎ ((b ≡ true) × (e ≡ x))
picked false e rest x h = inl h
picked true e none x h = inr (refl, cc)
picked true e (some z) x h = elim (if-some (newer e z) e z x h) [
  | inl (_, first) ↦ inr (refl, first)
  | inr later ↦ inl (ap some later)
]

-- an older event is not taken
newest-After :
    (b : Bool) (e x : Event) → After e x → (if b then newest e (some x) else some x) ≡ some x
newest-After false e x h = refl
newest-After true e x h = ground (arith, h.0, h.1)

module _ (mark : Event → Option Bool) where
  alone :
      (a c : Bool) (e : Event)
      → c ≡ true
      → mark_in mark (if a && not (is_none (mark e)) && c then some e else none)
        ≡ (if a then mark e else none)
  alone false c e h = refl
  alone true c e h = elim (Option-cases (mark e)) [
    | inl nothing ↦ rw (h, nothing) refl
    | inr (b, told) ↦ rw (h, told) told
  ]

  kept : (o earlier : Option Bool) → is_none o ≡ false → or_earlier o earlier ≡ o
  kept none earlier h = cc
  kept (some b) earlier h = refl

marked : (a b c : Bool) → (a && not b && c) ≡ true → b ≡ false
marked a b c e = ground (arith, e)

module _ (id cutoff : ℕ) where
  found-After :
      (e : Event) (es : List Event) (x : Event)
      → All (After e) es
      → last_marked mark_of_ticket id cutoff es ≡ some x
      → After e x × (is_none (mark_of_ticket x) ≡ false)
  unfolding last_marked
  found-After e [] x h found = cc
  found-After e (y ∷ ys) x h found =
      elim (picked
        (y.ticket_id == id && not (is_none (mark_of_ticket y)) && ltb y.created_at cutoff) y
        (last_marked mark_of_ticket id cutoff ys) x found) [
          | inl later ↦ found-After e ys x h.1 later
          | inr (b, same) ↦
              subst (λ z. After e z × (is_none (mark_of_ticket z) ≡ false)) same
                (
                  h.0,
                  marked (y.ticket_id == id) (is_none (mark_of_ticket y)) (ltb y.created_at cutoff)
                      b,
                )
        ]

  pub last_marked-last_mark :
      (es : List Event)
      → InOrder es
      → All (λ e. e.created_at < cutoff) es
      → mark_in mark_of_ticket (last_marked mark_of_ticket id cutoff es) ≡ last_mark id es
  unfolding last_marked last_mark InOrder
  last_marked-last_mark [] h k = refl
  last_marked-last_mark (e ∷ es) h k =
      let earlier = last_marked-last_mark es h.1 k.1 in
      let cond = e.ticket_id == id && not (is_none (mark_of_ticket e)) && ltb e.created_at cutoff in
      elim (Option-cases (last_marked mark_of_ticket id cutoff es)) [
        | inl nothing ↦
            ap (λ o. mark_in mark_of_ticket (if cond then newest e o else o)) nothing
            ∙ alone mark_of_ticket (e.ticket_id == id) (ltb e.created_at cutoff) e
                (ground (arith, k.0))
            ∙ ap (λ o. or_earlier o (if e.ticket_id == id then mark_of_ticket e else none))
                (ap (mark_in mark_of_ticket) (sym nothing) ∙ earlier)
        | inr (x, there) ↦
            let later = found-After e es x h.0 there in
            let mark_x = ap (mark_in mark_of_ticket) (sym there) ∙ earlier in
            ap (λ o. mark_in mark_of_ticket (if cond then newest e o else o)) there
            ∙ ap (mark_in mark_of_ticket) (newest-After cond e x later.0)
            ∙ sym (
                kept mark_of_ticket (mark_of_ticket x)
                  (if e.ticket_id == id then mark_of_ticket e else none) later.1)
            ∙ ap (λ o. or_earlier o (if e.ticket_id == id then mark_of_ticket e else none)) mark_x
      ]
