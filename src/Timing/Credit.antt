-- ===== src/Timing/Credit.antt =====
-- Who is credited with a resolution: the periods of app/support_timing.py.
use ai_whats_app_shipment_as.Prelude.{
  ℕ, String, ◌≡◌, Bool, true, Option, none, some, List, [], ◌∷◌, arith, All, ◌⊎◌, inl, inr, eq_iff,
  Bool-cases, refl, ◌&&◌, str_eq,
}
use ai_whats_app_shipment_as.Timing.Periods.{
  Event, ticket_resolved, Period, Reason, resolved, closed, Active, ended, closing, or_none,
  actor_of,
}
use ai_whats_app_shipment_as.Timing.Projection.{still_open}

-- An event of the audit.
abbrev pub In : List Event → Event → Type 0
In [] e = ⊥
In (x ∷ xs) e = (e ≡ x) ⊎ In xs e

-- The audit has an agent resolve the ticket at this time.
pub record ResolvedBy (events : List Event) (at : ℕ) (agent : String) : Type 0 where
  pub event : Event
  pub is_recorded : In events event
  pub resolves : event.event_type ≡ ticket_resolved
  pub by_an_agent : event.by_agent ≡ true
  pub is_theirs : event.actor_id ≡ agent
  pub is_then : event.created_at ≡ at

-- A period that is credited with a resolution was valid, the audit has its owner resolve the ticket
-- at its end, and it is credited with its own length.
pub record Earned (events : List Event) (p : Period) : Type 0 where
  pub was_valid : p.valid ≡ true
  pub ends_resolved : p.end_reason ≡ resolved
  pub own_length : p.resolution_seconds ≡ some p.seconds
  pub at : ℕ
  pub ends_then : p.ended_at ≡ some at
  pub by_owner : ResolvedBy events at p.agent_id

-- A period is credited with nothing, or has earned it.
abbrev pub Credited : List Event → Period → Type 0
Credited events p = (p.resolution_seconds ≡ none) ⊎ Earned events p

-- The audit has an agent resolve the ticket, if that is why a period ends.
abbrev pub Backed : List Event → ℕ → Reason → Option String → Type 0
Backed events at resolved (some agent) = ResolvedBy events at agent
Backed events at _ _ = Unit

module _ (events : List Event) (at : ℕ) where
  ended-Credited :
      (reason : Reason) (resolver : Option String) (valid : Bool) (cycle_start : Option ℕ)
      (a : Active)
      → Backed events at reason resolver
      → Credited events (ended at reason resolver valid cycle_start a)
  unfolding ended
  ended-Credited resolved (some x) valid cycle_start a h =
      elim (Bool-cases (valid && str_eq x a.agent_id)) [
        | inl e ↦ inr (record {
          was_valid = ground (arith, e);
          ends_resolved = refl;
          own_length = ground (arith, e);
          at = at;
          ends_then = refl;
          by_owner = record {
            event = h.event;
            is_recorded = h.is_recorded;
            resolves = h.resolves;
            by_an_agent = h.by_an_agent;
            is_theirs = ground (arith, e, h.is_theirs, eq_iff x a.agent_id);
            is_then = h.is_then;
          };
        })
        | inr e ↦ inl (ground (arith, e))
      ]
  ended-Credited reason resolver valid cycle_start a h = inl (ground arith)

  pub closing-Credited :
      (reason : Reason) (resolver : Option String) (valid : Bool) (cycle_start : Option ℕ)
      (o : Option Active)
      → Backed events at reason resolver
      → All (Credited events) (closing at reason resolver valid cycle_start o)
  closing-Credited reason resolver valid cycle_start none h = _
  closing-Credited reason resolver valid cycle_start (some a) h =
      (ended-Credited reason resolver valid cycle_start a h, _)

pub still_open-Credited :
    (events : List Event) (as_of : ℕ) (cycle_start : Option ℕ) (o : Option Active)
    → All (Credited events) (still_open as_of cycle_start o)
unfolding ended
still_open-Credited events as_of cycle_start none = _
still_open-Credited events as_of cycle_start (some a) = (inl (ground arith), _)

-- What the audit's TICKET_RESOLVED backs.
pub resolved-Backed :
    (events : List Event) (e : Event)
    → In events e
    → e.event_type ≡ ticket_resolved
    → Backed events e.created_at resolved (or_none (actor_of e))
resolved-Backed events e member kind = elim (Bool-cases e.by_agent) [
  | inr b ↦ rw b _
  | inl b ↦ rw b (elim (Bool-cases (str_eq e.actor_id "")) [
    | inl t ↦ rw t _
    | inr t ↦ rw t (record {
      event = e;
      is_recorded = member;
      resolves = kind;
      by_an_agent = b;
      is_theirs = refl;
      is_then = refl;
    })
  ])
]

-- The other ends of a period need no event.
pub closed-Backed :
    (events : List Event) (at : ℕ) (resolver : Option String) → Backed events at closed resolver
closed-Backed events at resolver = _
