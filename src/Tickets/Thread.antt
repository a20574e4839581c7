-- ===== src/Tickets/Thread.antt =====
-- Which conversation a customer's message belongs to: get_active_ticket of app/support_service.py.
use mathlib.Core.Path.{subst}
use ai_whats_app_shipment_as.Prelude.{
  ℕ, String, ◌≡◌, ◌∙◌, ap, refl, Bool, true, false, not, ◌&&◌, Option, none, some, List, [], ◌∷◌,
  arith, ◌⊎◌, inl, inr, Option-cases, str_eq, eq_iff, truthy, if◌then◌else◌,
}
use ai_whats_app_shipment_as.Tickets.Model.{Ticket, State, Result, ok, raised, text_of}
use ai_whats_app_shipment_as.Tickets.Open.{find_last, is_thread, find_active_ticket_by_phone}
use ai_whats_app_shipment_as.Tickets.Rows.{text_of-some}
use ai_whats_app_shipment_as.Tickets.Desk.{after_binding, get_active_ticket}

abbrev last_of : Option Ticket → Ticket → Bool → Option Ticket
last_of o x b = elim o [ some u ↦ some u | none ↦ if b then some x else none ]

which :
    (o : Option Ticket) (x t : Ticket) (b : Bool)
    → last_of o x b ≡ some t
    → (o ≡ some t) ⊎ ((b ≡ true) × (x ≡ t))
which (some u) x t b e = inl e
which none x t true e = inr (refl, cc)
which none x t false e = cc

pub find_last-holds :
    (p : Ticket → Bool) (ts : List Ticket) (t : Ticket) → find_last p ts ≡ some t → p t ≡ true
unfolding find_last
find_last-holds p [] t e = cc
find_last-holds p (x ∷ xs) t e = elim (which (find_last p xs) x t (p x) e) [
  | inl later ↦ find_last-holds p xs t later
  | inr (here, same) ↦ subst (λ y. p y ≡ true) same here
]

-- The ticket is on the line, or from before lines were recorded.
unfoldable pub OnLine : String → Ticket → Type 0
OnLine line t =
    (t.business_phone_number_id ≡ some line) ⊎ (truthy t.business_phone_number_id ≡ false)

is_thread-OnLine :
    (phone line : String) (t : Ticket)
    → truthy (some line) ≡ true
    → is_thread phone (some line) true t ≡ true
    → OnLine line t
unfolding is_thread OnLine
is_thread-OnLine phone line t named e = elim (Option-cases t.business_phone_number_id) [
  | inl unbound ↦ inr (ap truthy unbound)
  | inr (l, on) ↦ inl (on ∙ ap some ((eq_iff l line).0 (ground (arith, on, e, named))))
]

same_answer : (t u : Ticket) → ◌≡◌ {A = Result (Option Ticket)} (ok (some t)) (ok (some u)) → t ≡ u
same_answer t u e = cc

module _ (phone line : String) (named : truthy (some line) ≡ true) where
  abbrev Bound : State × Result (Option Ticket) → Type 0
  Bound x = (t : Ticket) → x.1 ≡ ok (some t) → OnLine line t

  searched-OnLine :
      (s : State) → Bound (s, ok (find_active_ticket_by_phone phone (some line) true s.tickets))
  unfolding find_active_ticket_by_phone
  searched-OnLine s t e =
      is_thread-OnLine phone line t named
        (find_last-holds (is_thread phone (some line) true) s.tickets t cc)

  if-Bound :
      (b : Bool) (x y : State × Result (Option Ticket))
      → (b ≡ true → Bound x)
      → (b ≡ false → Bound y)
      → Bound (if b then x else y)
  if-Bound true x y h k = h refl
  if-Bound false x y h k = k refl

  after_binding-OnLine :
      (later : State → State) (x : State × Result Ticket) → Bound (after_binding later phone line x)
  unfolding OnLine
  after_binding-OnLine later (s, raised r) = λ t e. cc
  after_binding-OnLine later (s, ok u) =
      if-Bound (str_eq (text_of u.business_phone_number_id) line) _ _
        (λ on t e.
          subst (OnLine line) (same_answer u t e)
            (inl (text_of-some u.business_phone_number_id line named on)))
        (λ _. searched-OnLine (later s))

-- The conversation that get_active_ticket finds for a business line is on that line or not yet on
-- any, whatever other tasks commit before the binding, after it and before the second search: a ticket
-- that another line has taken is never answered.
pub get_active_ticket-OnLine :
    (strip : String → String) (others meanwhile later : State → State) (now : ℕ)
    (phone line : String) (display : Option String) (s : State) (t : Ticket)
    → truthy (some line) ≡ true
    → (get_active_ticket strip others meanwhile later now phone (some line) display s).1
      ≡ ok (some t)
    → OnLine line t
unfolding get_active_ticket OnLine
get_active_ticket-OnLine strip others meanwhile later now phone line display s t named =
    elim (Option-cases (find_active_ticket_by_phone phone (some line) true s.tickets)) [
      | inl nothing ↦ rw (nothing, get_active_ticket) (λ e. cc)
      | inr (u, found) ↦
          rw (found, get_active_ticket)
            (if-Bound phone line named
              (truthy (some line) && not (truthy u.business_phone_number_id)) _ _
              (λ _. after_binding-OnLine phone line named later _)
              (λ _ x e.
                subst (OnLine line) (same_answer u x e)
                  (searched-OnLine phone line named s u (ap ok found)))
              t)
    ]
