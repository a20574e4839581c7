-- ===== src/Timing/Examples.antt =====
-- A ticket that is claimed, transferred and resolved.
use ai_whats_app_shipment_as.Prelude.{
  ℕ, ◌+◌, ◌≤◌, String, ◌≡◌, refl, true, List, [], ◌∷◌, arith, map, All,
}
use ai_whats_app_shipment_as.Timing.Periods.{
  Kind, ticket_claimed, ticket_transferred, ticket_resolved, Details, Event, Period, ended, finish,
  close_open, assign, transfer, conclude, apply,
}
use ai_whats_app_shipment_as.Timing.Projection.{insert, sorted, replay, responsibility_periods}
use ai_whats_app_shipment_as.Timing.Tiling.{Tiled, total}
use ai_whats_app_shipment_as.Timing.Accounted.{
  responsibility_periods-Tiled, total_le, responsibility_periods-Credited,
}
use ai_whats_app_shipment_as.Timing.Credit.{Credited}

abbrev details : String → String → Details
details from to = record {
  current_assignee_id = "";
  from_agent_id = from;
  to_agent_id = to;
  last_assignee_id = "";
  to = "";
}

abbrev event : ℕ → ℕ → Kind → String → Details → Event
event id at kind actor d = record {
  id = id;
  created_at = at;
  event_type = kind;
  by_agent = true;
  actor_id = actor;
  details = d;
}

-- The log is out of order.
abbrev log : List Event
log =
    event 2 150 ticket_transferred "7" (details "7" "8")
    ∷ event 1 100 ticket_claimed "7" (details "" "")
    ∷ event 3 400 ticket_resolved "8" (details "" "")
    ∷ []

abbrev lengths : List Period → List ℕ
lengths ps = map (λ (p : Period). p.seconds) ps

periods_of_log : lengths (responsibility_periods log 500).periods ≡ 50 ∷ 250 ∷ []
unfolding responsibility_periods replay sorted insert apply assign transfer conclude finish
    close_open ended
periods_of_log = refl

responsibility_periods-Tiled_example : Tiled 500 90 (responsibility_periods log 500).periods 500
responsibility_periods-Tiled_example =
    responsibility_periods-Tiled 500 90 log (omega arith) (omega arith)

total_le_example : total (responsibility_periods log 500).periods + 90 ≤ 500
total_le_example = total_le 500 90 log (omega arith) (omega arith)

responsibility_periods-Credited_example :
    All (Credited log) (responsibility_periods log 500).periods
responsibility_periods-Credited_example = responsibility_periods-Credited 500 log
