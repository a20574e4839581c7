-- ===== src/Timing/Accounted.antt =====
-- No time of a ticket is counted twice: the projection of app/support_timing.py over a whole audit.
use ai_whats_app_shipment_as.Prelude.{
  refl, All-append, ℕ, ◌+◌, ◌≤◌, Option, none, some, List, [], ◌∷◌, arith, All, ltb, Bool-cases,
  inl, inr,
}
use ai_whats_app_shipment_as.Timing.Periods.{Event, Active, State, ended, apply}
use ai_whats_app_shipment_as.Timing.Projection.{
  not_after, sorted, insert, replay, nothing, still_open, responsibility_periods,
}
use ai_whats_app_shipment_as.Timing.Tiling.{
  Tiled, total, Tiled-total, Tiled-append, Within, Upto, Upto-later,
}
use ai_whats_app_shipment_as.Timing.Credit.{In, Credited, still_open-Credited}
use ai_whats_app_shipment_as.Timing.Steps.{apply-Upto}

abbrev Ascending : List Event → Type 0
Ascending [] = Unit
Ascending (e ∷ es) = All (λ (x : Event). e.created_at ≤ x.created_at) es × Ascending es

-- What holds of every event of a list holds of every event of the sorted list.
module _ (P : Event → Type 0) where
  All-insert : (e : Event) (es : List Event) → P e → All P es → All P (insert e es)
  unfolding insert
  All-insert e [] h k = (h, k)
  All-insert e (x ∷ xs) h k = elim (Bool-cases (not_after e x)) [
    | inl b ↦ rw b (h, k)
    | inr b ↦ rw b (k.0, All-insert e xs h k.1)
  ]

  All-sorted : (es : List Event) → All P es → All P (sorted es)
  unfolding sorted
  All-sorted [] h = h
  All-sorted (e ∷ es) h = All-insert e (sorted es) h.0 (All-sorted es h.1)

module _ (t : ℕ) where
  abbrev From : Event → Type 0
  From e = t ≤ e.created_at

  From-earlier :
      (e : Event) (es : List Event)
      → t ≤ e.created_at
      → All (λ (x : Event). e.created_at ≤ x.created_at) es
      → All From es
  From-earlier e [] le h = h
  From-earlier e (x ∷ xs) le h = (omega (arith, le, h.0), From-earlier e xs le h.1)

Ascending-insert : (e : Event) (es : List Event) → Ascending es → Ascending (insert e es)
unfolding insert
Ascending-insert e [] h = (h, h)
Ascending-insert e (x ∷ xs) h = elim (Bool-cases (not_after e x)) [
  | inl b ↦
      let le : e.created_at ≤ x.created_at = ground (arith, b) in
      rw b ((le, From-earlier e.created_at x xs le h.0), h)
  | inr b ↦
      let le : x.created_at ≤ e.created_at = ground (arith, b) in
      rw b (All-insert (From x.created_at) e xs le h.0, Ascending-insert e xs h.1)
]

sorted-Ascending : (es : List Event) → Ascending (sorted es)
unfolding sorted
sorted-Ascending [] = _
sorted-Ascending (e ∷ es) = Ascending-insert e (sorted es) (sorted-Ascending es)

All-weaken :
    (P Q : Event → Type 0) (es : List Event) → ((e : Event) → P e → Q e) → All P es → All Q es
All-weaken P Q [] f h = h
All-weaken P Q (e ∷ es) f h = (f e h.0, All-weaken P Q es f h.1)

In-self : (es : List Event) → All (In es) es
In-self [] = _
In-self (e ∷ es) = (inl refl, All-weaken (In es) (In (e ∷ es)) es (λ x. inr) (In-self es))

module _ (as_of from : ℕ) where
  replay-Upto :
      (events : List Event) (t : ℕ) (es : List Event) (s : State)
      → t ≤ as_of
      → All (From t) es
      → All (In events) es
      → Ascending es
      → Upto as_of from events t s
      → Upto as_of from events as_of (replay as_of es s)
  unfolding replay
  replay-Upto events t [] s le after members order h = Upto-later as_of from events t as_of s le h
  replay-Upto events t (e ∷ es) s le after members order h =
      elim (Bool-cases (ltb as_of e.created_at)) [
        | inl b ↦ rw b (replay-Upto events t es s le after.1 members.1 order.1 h)
        | inr b ↦ rw b (
            replay-Upto events e.created_at es (apply e s) (ground (arith, b)) order.0 members.1
              order.1
              (apply-Upto as_of from events e s members.0
                (Upto-later as_of from events t e.created_at s after.0 h)))
      ]

  still_open-Tiled :
      (last : ℕ) (cycle_start : Option ℕ) (o : Option Active)
      → Within last as_of o
      → Tiled as_of last (still_open as_of cycle_start o) as_of
  unfolding ended
  still_open-Tiled last cycle_start none h = h
  still_open-Tiled last cycle_start (some a) h = (h.0, omega (arith, h.1), omega arith)

  replayed :
      (events : List Event)
      → from ≤ as_of
      → All (From from) events
      → Upto as_of from events as_of (replay as_of (sorted events) nothing)
  replayed events le after =
      replay-Upto events from (sorted events) nothing le (All-sorted (From from) events after)
        (All-sorted (In events) events (In-self events)) (sorted-Ascending events)
        (record { last = from; tiled = omega arith; within = omega arith; credited = _ })

  -- Whatever the audit holds, in whatever order, its periods follow one another between the first
  -- instant and `as_of`: none starts before the one before it has ended, and each is as long as
  -- from its start to its end, or to `as_of` where it is still open.
  pub responsibility_periods-Tiled :
      (events : List Event)
      → from ≤ as_of
      → All (From from) events
      → Tiled as_of from (responsibility_periods events as_of).periods as_of
  unfolding responsibility_periods
  responsibility_periods-Tiled events le after =
      let s = replay as_of (sorted events) nothing in
      let h = replayed events le after in
      Tiled-append as_of from h.last as_of s.periods (still_open as_of s.cycle_start s.active)
        h.tiled (still_open-Tiled h.last s.cycle_start s.active h.within)

  -- The handling times of a ticket's periods, of all its owners together, are no longer than the
  -- time from the first instant to `as_of`.
  pub total_le :
      (events : List Event)
      → from ≤ as_of
      → All (From from) events
      → total (responsibility_periods events as_of).periods + from ≤ as_of
  total_le events le after =
      Tiled-total as_of from as_of (responsibility_periods events as_of).periods
        (responsibility_periods-Tiled events le after)

From-zero : (es : List Event) → All (From 0) es
From-zero [] = _
From-zero (e ∷ es) = (omega arith, From-zero es)

-- Whatever the audit holds, in whatever order, a period is credited with a resolution only if it
-- was valid and the audit has an event, at the period's end, by which the period's own owner, as an
-- agent, resolved the ticket; it is then credited with its own length.
pub responsibility_periods-Credited :
    (as_of : ℕ) (events : List Event)
    → All (Credited events) (responsibility_periods events as_of).periods
unfolding responsibility_periods
responsibility_periods-Credited as_of events =
    let s = replay as_of (sorted events) nothing in
    All-append (Credited events) s.periods (still_open as_of s.cycle_start s.active)
      (replayed as_of 0 events (omega arith) (From-zero events)).credited
      (still_open-Credited events as_of s.cycle_start s.active)
