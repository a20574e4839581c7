-- ===== src/Timing/Periods.antt =====
-- responsibility_periods of app/support_timing.py: the periods in which each member of the staff was
-- responsible for a ticket, read from its audit. Instants are microseconds. The details of an event
-- have been decoded from JSON; a missing text is empty, as `or ''` makes it.
use ai_whats_app_shipment_as.Prelude.{
  ℕ, ◌+◌, ◌-◌, String, Bool, true, false, not, ◌&&◌, ◌||◌, Option, none, some, List, [], ◌∷◌, ◌++◌,
  str_eq, is_none, is_some, truthy, if◌then◌else◌,
}

-- LIFECYCLE_EVENTS, and every other type of event.
pub data Kind : Type 0 where
  ticket_claimed ticket_transferred ticket_resolved ticket_reopened chat_started chat_reopened
        chat_closed status_changed ticket_restored chat_restored other :
      Kind

pub record Details : Type 0 where
  pub current_assignee_id : String
  pub from_agent_id : String
  pub to_agent_id : String
  pub last_assignee_id : String
  pub to : String

pub record Event : Type 0 where
  pub id : ℕ
  pub created_at : ℕ
  pub event_type : Kind
  pub by_agent : Bool
  pub actor_id : String
  pub details : Details

pub data Reason : Type 0 where
  incomplete transferred resolved closed ongoing : Reason

pub record Active : Type 0 where
  pub agent_id : String
  pub started_at : ℕ
  pub start_event : Kind
  pub cycle : ℕ

pub record Period : Type 0 where
  pub agent_id : String
  pub started_at : ℕ
  pub start_event : Kind
  pub cycle : ℕ
  pub ended_at : Option ℕ
  pub end_reason : Reason
  pub resolver_id : Option String
  pub seconds : ℕ
  pub valid : Bool
  pub resolution_seconds : Option ℕ
  pub cycle_resolution_seconds : Option ℕ

pub data Issue : Type 0 where
  preceding_open no_owner bad_transfer no_start owner_disagrees : Issue

pub record State : Type 0 where
  pub periods : List Period
  pub issues : List Issue
  pub active : Option Active
  pub cycle_start : Option ℕ
  pub cycle : ℕ
  pub original_claimant : Option String

abbrev pub is_resolved : Reason → Bool
is_resolved resolved = true
is_resolved _ = false

abbrev ends_cycle : Reason → Bool
ends_cycle resolved = true
ends_cycle closed = true
ends_cycle _ = false

abbrev pub is_text : String → Bool
is_text s = truthy (some s)

abbrev pub or_none : String → Option String
or_none s = if is_text s then some s else none

abbrev is_owner : Option String → String → Bool
is_owner none agent = false
is_owner (some resolver) agent = str_eq resolver agent

since : ℕ → Option ℕ → Option ℕ
since at none = none
since at (some start) = some (at - start)

-- The period that ends; no event of the ordered log is before its start, so nothing is cut to 0.
unfoldable pub ended : ℕ → Reason → Option String → Bool → Option ℕ → Active → Period
unfolding since
ended at reason resolver valid cycle_start a = record {
  agent_id = a.agent_id;
  started_at = a.started_at;
  start_event = a.start_event;
  cycle = a.cycle;
  ended_at = some at;
  end_reason = reason;
  resolver_id = resolver;
  seconds = at - a.started_at;
  valid = valid;
  resolution_seconds =
      (if valid && is_resolved reason && is_owner resolver a.agent_id
        then some (at - a.started_at)
        else none);
  cycle_resolution_seconds = (if valid && is_resolved reason then since at cycle_start else none);
}

abbrev pub closing : ℕ → Reason → Option String → Bool → Option ℕ → Option Active → List Period
closing at reason resolver valid cycle_start none = []
closing at reason resolver valid cycle_start (some a) =
    ended at reason resolver valid cycle_start a ∷ []

-- the inner function finish
unfoldable pub finish : ℕ → Reason → Option String → Bool → State → State
finish at reason resolver valid s = record s {
  periods = s.periods ++ closing at reason resolver valid s.cycle_start s.active;
  active = none;
  cycle_start = (if ends_cycle reason then none else s.cycle_start);
}

abbrev pub add_issue : Issue → State → State
add_issue i s = record s { issues = s.issues ++ (i ∷ []) }

-- an issue that is noted under a condition
abbrev pub note : Bool → Issue → State → State
note b i s = if b then add_issue i s else s

abbrev pub start : ℕ → String → Kind → State → State
start at owner kind s = record s {
  active = some (record { agent_id = owner; started_at = at; start_event = kind; cycle = s.cycle });
}

abbrev pub next_cycle : Option ℕ → State → State
next_cycle at s = record s { cycle = s.cycle + 1; cycle_start = at }

-- an assignment that is still open when another starts
unfoldable pub close_open : ℕ → State → State
close_open at s =
    if is_some s.active then add_issue preceding_open (finish at incomplete none false s) else s

abbrev pub owned : String → Option Active → Bool
owned owner none = false
owned owner (some a) = str_eq a.agent_id owner

unfoldable pub restore : ℕ → Kind → String → State → State
restore at kind owner s =
    if not (is_text owner) || owned owner s.active
    then s
    else start at owner kind (next_cycle (some at) (close_open at s))

abbrev pub is_claim : Kind → Bool
is_claim ticket_claimed = true
is_claim _ = false

abbrev pub remember_claimant : Kind → String → State → State
remember_claimant kind actor s =
    if is_claim kind && is_none s.original_claimant
    then record s { original_claimant = or_none actor }
    else s

unfoldable pub assign : ℕ → Kind → String → String → State → State
assign at kind actor owner s =
    let s1 = remember_claimant kind actor s in
    if owned owner s1.active && is_claim kind
    then s1
    else if is_text owner
    then start at owner kind (next_cycle (some at) (close_open at s1))
    else add_issue no_owner (next_cycle none (close_open at s1))

unfoldable pub transfer : ℕ → Kind → Details → State → State
transfer at kind d s =
    let valid = owned d.from_agent_id s.active && is_text d.to_agent_id in
    let s1 = if valid then s else record (add_issue bad_transfer s) { cycle_start = none } in
    let s2 = finish at transferred none valid s1 in
    if is_text d.to_agent_id then start at d.to_agent_id kind s2 else s2

-- `complains` is whether a missing responsibility is noted
unfoldable pub conclude : ℕ → Reason → Bool → String → Details → State → State
conclude at reason complains actor d s =
    let valid = not (is_text d.last_assignee_id) || owned d.last_assignee_id s.active in
    finish at reason (or_none actor) valid
      (note (not valid) owner_disagrees (note (is_none s.active && complains) no_start s))

-- STATUS_CHANGED to one of the final states
abbrev pub closes : Details → Bool
closes d = str_eq d.to "RESOLVED" || str_eq d.to "CLOSED"

abbrev pub actor_of : Event → String
actor_of e = if e.by_agent then e.actor_id else ""

-- the loop's body, on an event that is not after `as_of`
unfoldable pub apply : Event → State → State
apply e s = elim e.event_type [
  | ticket_restored ↦ restore e.created_at ticket_restored e.details.current_assignee_id s
  | chat_restored ↦ restore e.created_at chat_restored e.details.current_assignee_id s
  | ticket_claimed ↦ assign e.created_at ticket_claimed (actor_of e) (actor_of e) s
  | chat_started ↦ assign e.created_at chat_started (actor_of e) (actor_of e) s
  | chat_reopened ↦ assign e.created_at chat_reopened (actor_of e) (actor_of e) s
  | ticket_reopened ↦
      assign e.created_at ticket_reopened (actor_of e) e.details.current_assignee_id s
  | ticket_transferred ↦ transfer e.created_at ticket_transferred e.details s
  | ticket_resolved ↦ conclude e.created_at resolved true (actor_of e) e.details s
  | chat_closed ↦ conclude e.created_at closed true (actor_of e) e.details s
  | status_changed ↦
      if closes e.details then conclude e.created_at closed false (actor_of e) e.details s else s
  | other ↦ s
]
