-- ===== src/Timing/Projection.antt =====
-- The projection of a whole audit: responsibility_periods of app/support_timing.py.
use ai_whats_app_shipment_as.Prelude.{
  ℕ, String, Bool, true, false, ◌&&◌, ◌||◌, Option, none, some, List, [], ◌∷◌, ◌++◌, ltb, leb, ◌==◌,
  if◌then◌else◌,
}
use ai_whats_app_shipment_as.Timing.Periods.{
  Event, Active, Period, Issue, preceding_open, no_owner, bad_transfer, no_start, owner_disagrees,
  State, ongoing, ended, apply,
}

-- the order of (created_at, id)
abbrev pub not_after : Event → Event → Bool
not_after a b = ltb a.created_at b.created_at || (a.created_at == b.created_at && leb a.id b.id)

-- `sorted`, which keeps the order of equal keys
unfoldable pub insert : Event → List Event → List Event
insert e [] = e ∷ []
insert e (x ∷ xs) = let rest = insert e xs in if not_after e x then e ∷ x ∷ xs else x ∷ rest

unfoldable pub sorted : List Event → List Event
sorted [] = []
sorted (e ∷ es) = insert e (sorted es)

unfoldable pub replay : ℕ → List Event → State → State
replay as_of [] s = s
replay as_of (e ∷ es) s = replay as_of es (if ltb as_of e.created_at then s else apply e s)

abbrev pub nothing : State
nothing = record {
  periods = [];
  issues = [];
  active = none;
  cycle_start = none;
  cycle = 0;
  original_claimant = none;
}

abbrev pub without_end : Period → Period
without_end p = record p { ended_at = none }

-- A period that is still open is measured up to `as_of` and has no end.
abbrev pub still_open : ℕ → Option ℕ → Option Active → List Period
still_open as_of cycle_start none = []
still_open as_of cycle_start (some a) =
    without_end (ended as_of ongoing none true cycle_start a) ∷ []

abbrev same_issue : Issue → Issue → Bool
same_issue preceding_open preceding_open = true
same_issue no_owner no_owner = true
same_issue bad_transfer bad_transfer = true
same_issue no_start no_start = true
same_issue owner_disagrees owner_disagrees = true
same_issue _ _ = false

without : Issue → List Issue → List Issue
without i [] = []
without i (x ∷ xs) = let rest = without i xs in if same_issue i x then rest else x ∷ rest

-- list(dict.fromkeys(issues)): the first of each
unfoldable pub distinct : List Issue → List Issue
unfolding without
distinct [] = []
distinct (x ∷ xs) = x ∷ without x (distinct xs)

pub record Projection : Type 0 where
  pub periods : List Period
  pub issues : List Issue
  pub original_claimant_id : Option String

unfoldable pub responsibility_periods : List Event → ℕ → Projection
responsibility_periods events as_of =
    let s = replay as_of (sorted events) nothing in
    record {
      periods = s.periods ++ still_open as_of s.cycle_start s.active;
      issues = distinct s.issues;
      original_claimant_id = s.original_claimant;
    }
