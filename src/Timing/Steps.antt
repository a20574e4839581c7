-- ===== src/Timing/Steps.antt =====
-- Each event of app/support_timing.py's loop keeps the periods in order.
use ai_whats_app_shipment_as.Prelude.{
  ℕ, ◌+◌, ◌≡◌, refl, String, Bool, true, false, not, ◌&&◌, ◌||◌, Option, none, some, List, [], ◌∷◌,
  ◌++◌, is_some, is_none, if◌then◌else◌,
}
use ai_whats_app_shipment_as.Timing.Periods.{
  Kind, Details, Event, Reason, incomplete, transferred, resolved, closed, State, Issue,
  preceding_open, no_owner, bad_transfer, no_start, owner_disagrees, add_issue, note, next_cycle,
  is_claim, remember_claimant, closes, actor_of, or_none, is_text, ticket_claimed,
  ticket_transferred, ticket_resolved, ticket_reopened, chat_started, chat_reopened, chat_closed,
  status_changed, ticket_restored, chat_restored, other, finish, start, close_open, owned, restore,
  assign, transfer, conclude, apply,
}
use ai_whats_app_shipment_as.Timing.Credit.{In, Backed, resolved-Backed, closed-Backed}
use ai_whats_app_shipment_as.Timing.Tiling.{Upto, Upto-if, finish-Upto, start-Upto}

module _ (as_of from : ℕ) (events : List Event) where
  -- The other fields do not matter.
  keep :
      (t : ℕ) (s : State) (issues : List Issue) (cycle_start : Option ℕ) (cycle : ℕ)
      (claimant : Option String)
      → Upto as_of from events t s
      → Upto as_of from events t (record s {
        issues = issues;
        cycle_start = cycle_start;
        cycle = cycle;
        original_claimant = claimant;
      })
  keep t s issues cycle_start cycle claimant h = record {
    last = h.last;
    tiled = h.tiled;
    within = h.within;
    credited = h.credited;
  }

  noted :
      (t : ℕ) (i : Issue) (s : State)
      → Upto as_of from events t s
      → Upto as_of from events t (add_issue i s)
  noted t i s h = keep t s (s.issues ++ (i ∷ [])) s.cycle_start s.cycle s.original_claimant h

  next_cycle-Upto :
      (t : ℕ) (at : Option ℕ) (s : State)
      → Upto as_of from events t s
      → Upto as_of from events t (next_cycle at s)
  next_cycle-Upto t at s h = keep t s s.issues at (s.cycle + 1) s.original_claimant h

  close_open-Upto :
      (at : ℕ) (s : State)
      → Upto as_of from events at s
      → Upto as_of from events at (close_open at s)
  unfolding close_open
  close_open-Upto at s h =
      Upto-if as_of from events at (is_some s.active)
        (add_issue preceding_open (finish at incomplete none false s)) s
        (noted at preceding_open (finish at incomplete none false s)
          (finish-Upto as_of from events at incomplete none false s _ h))
        h

  fresh-Upto :
      (at : ℕ) (owner : String) (kind : Kind) (s : State)
      → Upto as_of from events at s
      → Upto as_of from events at (start at owner kind (next_cycle (some at) (close_open at s)))
  fresh-Upto at owner kind s h =
      start-Upto as_of from events at owner kind (next_cycle (some at) (close_open at s))
        (next_cycle-Upto at (some at) (close_open at s) (close_open-Upto at s h))

  restore-Upto :
      (at : ℕ) (kind : Kind) (owner : String) (s : State)
      → Upto as_of from events at s
      → Upto as_of from events at (restore at kind owner s)
  unfolding restore
  restore-Upto at kind owner s h =
      Upto-if as_of from events at (not (is_text owner) || owned owner s.active) s _ h
        (fresh-Upto at owner kind s h)

  remember-Upto :
      (at : ℕ) (kind : Kind) (actor : String) (s : State)
      → Upto as_of from events at s
      → Upto as_of from events at (remember_claimant kind actor s)
  remember-Upto at kind actor s h =
      Upto-if as_of from events at (is_claim kind && is_none s.original_claimant) _ s
        (keep at s s.issues s.cycle_start s.cycle (or_none actor) h) h

  assign-Upto :
      (at : ℕ) (kind : Kind) (actor owner : String) (s : State)
      → Upto as_of from events at s
      → Upto as_of from events at (assign at kind actor owner s)
  unfolding assign
  assign-Upto at kind actor owner s h =
      let s1 = remember_claimant kind actor s in
      let h1 = remember-Upto at kind actor s h in
      Upto-if as_of from events at (owned owner s1.active && is_claim kind) s1 _ h1 (
        Upto-if as_of from events at (is_text owner) _ _ (fresh-Upto at owner kind s1 h1) (
          noted at no_owner (next_cycle none (close_open at s1))
            (next_cycle-Upto at none (close_open at s1) (close_open-Upto at s1 h1))))

  transfer-Upto :
      (at : ℕ) (kind : Kind) (d : Details) (s : State)
      → Upto as_of from events at s
      → Upto as_of from events at (transfer at kind d s)
  unfolding transfer
  transfer-Upto at kind d s h =
      let valid = owned d.from_agent_id s.active && is_text d.to_agent_id in
      let doubtful = record (add_issue bad_transfer s) { cycle_start = none } in
      let s1 = if valid then s else doubtful in
      let h1 =
        Upto-if as_of from events at valid s doubtful h
          (keep at s (s.issues ++ (bad_transfer ∷ [])) none s.cycle s.original_claimant h) in
      let s2 = finish at transferred none valid s1 in
      let h2 = finish-Upto as_of from events at transferred none valid s1 _ h1 in
      Upto-if as_of from events at (is_text d.to_agent_id) _ s2
        (start-Upto as_of from events at d.to_agent_id kind s2 h2) h2

  note-Upto :
      (t : ℕ) (b : Bool) (i : Issue) (s : State)
      → Upto as_of from events t s
      → Upto as_of from events t (note b i s)
  note-Upto t b i s h = Upto-if as_of from events t b (add_issue i s) s (noted t i s h) h

  conclude-Upto :
      (at : ℕ) (reason : Reason) (complains : Bool) (actor : String) (d : Details) (s : State)
      → Backed events at reason (or_none actor)
      → Upto as_of from events at s
      → Upto as_of from events at (conclude at reason complains actor d s)
  unfolding conclude
  conclude-Upto at reason complains actor d s backed h =
      finish-Upto as_of from events at reason (or_none actor) _ _ backed
        (note-Upto at _ owner_disagrees _ (note-Upto at _ no_start s h))

  -- `member` is that the event stands in the audit.
  pub apply-Upto :
      (e : Event) (s : State)
      → In events e
      → Upto as_of from events e.created_at s
      → Upto as_of from events e.created_at (apply e s)
  unfolding apply
  apply-Upto e s member h = by_kind e.event_type refl
    where
      by_kind :
          (k : Kind)
          → e.event_type ≡ k
          → Upto as_of from events e.created_at (apply (record e { event_type = k }) s)
      by_kind ticket_restored is =
          restore-Upto e.created_at ticket_restored e.details.current_assignee_id s h
      by_kind chat_restored is =
          restore-Upto e.created_at chat_restored e.details.current_assignee_id s h
      by_kind ticket_claimed is =
          assign-Upto e.created_at ticket_claimed (actor_of e) (actor_of e) s h
      by_kind chat_started is = assign-Upto e.created_at chat_started (actor_of e) (actor_of e) s h
      by_kind chat_reopened is =
          assign-Upto e.created_at chat_reopened (actor_of e) (actor_of e) s h
      by_kind ticket_reopened is =
          assign-Upto e.created_at ticket_reopened (actor_of e) e.details.current_assignee_id s h
      by_kind ticket_transferred is = transfer-Upto e.created_at ticket_transferred e.details s h
      by_kind ticket_resolved is =
          conclude-Upto e.created_at resolved true (actor_of e) e.details s
            (resolved-Backed events e member is) h
      by_kind chat_closed is =
          conclude-Upto e.created_at closed true (actor_of e) e.details s
            (closed-Backed events e.created_at (or_none (actor_of e))) h
      by_kind status_changed is =
          Upto-if as_of from events e.created_at (closes e.details) _ s
            (conclude-Upto e.created_at closed false (actor_of e) e.details s
              (closed-Backed events e.created_at (or_none (actor_of e))) h)
            h
      by_kind other is = h
