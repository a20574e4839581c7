-- ===== src/Availability/Schedule.antt =====
-- The schedule of app/ai_availability.py: _parse_time_minutes, _scheduled_enabled,
-- _next_schedule_transition and evaluate_ai_availability. An instant is a number of microseconds in
-- UTC. The text methods of Python and the zones of ZoneInfo are the parameter `lang`.
use ai_whats_app_shipment_as.Prelude.{
  ℕ, zero, suc, ◌+◌, ◌*◌, ◌/◌, String, Bool, true, false, ◌&&◌, ◌||◌, Option, none, some, List, [],
  ◌∷◌, ltb, leb, ◌==◌, codes, if◌then◌else◌,
}

-- What ZoneInfo makes of a key: a zone, ZoneInfoNotFoundError, or the ValueError of a key that is
-- no relative path of its directory.
pub data Lookup : Type 0 where
  found not_found malformed : Lookup

pub record Lang : Type 0 where
  pub strip : String → String
  pub upper : String → String
  -- the value of a character that `\d` matches, as `int` reads it
  pub digit : ℕ → Option ℕ
  -- what ZoneInfo makes of a key, and the local hour * 60 + minute that it gives to an instant
  pub zone_info : String → Lookup
  pub local_minutes : String → ℕ → ℕ

pub data Mode : Type 0 where
  manual scheduled : Mode

pub record Configuration : Type 0 where
  pub control_mode : Mode
  pub manual_ai_enabled : Bool
  pub schedule_start_time : String
  pub schedule_end_time : String
  pub schedule_timezone : String
  pub version : ℕ
  pub updated_at : Option ℕ
  pub updated_by_staff_id : Option ℕ
  pub updated_by_staff_name : Option String

pub data Reason : Type 0 where
  manual_on manual_off within_schedule outside_schedule : Reason

pub record Effective : Type 0 where
  pub configuration : Configuration
  pub enabled : Bool
  pub reason : Reason
  pub next_transition_at : Option ℕ

-- the hour: [01]\d or 2[0-3]; the code points of 0, 1, 2 and 3 are 48, 49, 50 and 51
unfoldable pub hour_of : Lang → ℕ → ℕ → Option ℕ
hour_of lang a b =
    if a == 50
    then (if leb 48 b && leb b 51
        then elim (lang.digit b) [ none ↦ none | some d ↦ some (20 + d) ]
        else none)
    else if a == 48
    then lang.digit b
    else if a == 49
    then elim (lang.digit b) [ none ↦ none | some d ↦ some (10 + d) ]
    else none

-- the minute: [0-5]\d
unfoldable pub minute_of : Lang → ℕ → ℕ → Option ℕ
minute_of lang a b =
    if leb 48 a && leb a 53
    then elim (lang.digit a) [
      | none ↦ none
      | some t ↦ elim (lang.digit b) [ none ↦ none | some d ↦ some (10 * t + d) ]
    ]
    else none

in_minutes : Option ℕ → Option ℕ → Option ℕ
in_minutes (some hour) (some minute) = some (hour * 60 + minute)
in_minutes _ _ = none

-- the five characters of HH:mm, the third a colon (58)
unfoldable pub time_of : Lang → List ℕ → Option ℕ
unfolding in_minutes
time_of lang (a ∷ b ∷ c ∷ d ∷ e ∷ []) =
    if c == 58 then in_minutes (hour_of lang a b) (minute_of lang d e) else none
time_of lang _ = none

-- none is AIControlValidationError
unfoldable pub parse_time_minutes : Lang → String → Option ℕ
parse_time_minutes lang value = time_of lang (codes (lang.strip value))

-- the window from start to end, which may run over midnight
unfoldable pub in_window : ℕ → ℕ → ℕ → Bool
in_window start stop current =
    if ltb start stop
    then leb start current && ltb current stop
    else leb start current || ltb current stop

-- _scheduled_enabled, on a configuration whose times have been parsed
unfoldable pub scheduled_enabled : Lang → String → ℕ → ℕ → ℕ → Bool
scheduled_enabled lang zone start stop now = in_window start stop (lang.local_minutes zone now)

abbrev pub minute_us : ℕ
minute_us = 60 * 1000000

abbrev pub eq_bool : Bool → Bool → Bool
eq_bool true b = b
eq_bool false true = false
eq_bool false false = true

-- The loop: from `cursor`, minute by minute, the first instant that is not `current`.
unfoldable pub scan : (ℕ → Bool) → Bool → ℕ → ℕ → Option ℕ
scan enabled current zero cursor = none
scan enabled current (suc steps) cursor =
    let rest = scan enabled current steps (cursor + minute_us) in
    if eq_bool (enabled cursor) current then rest else some cursor

abbrev pub scan_steps : ℕ
scan_steps = 48 * 60 + 5

-- the start of the next minute
unfoldable pub next_minute : ℕ → ℕ
next_minute now = now / minute_us * minute_us + minute_us

unfoldable pub next_schedule_transition : Lang → String → ℕ → ℕ → ℕ → Bool → Option ℕ
next_schedule_transition lang zone start stop now current =
    scan (scheduled_enabled lang zone start stop) current scan_steps (next_minute now)

-- evaluate_ai_availability; none is AIControlValidationError
unfoldable pub evaluate : Lang → Configuration → ℕ → Option Effective
evaluate lang c now = elim c.control_mode [
  | Mode.manual ↦ some (record {
    configuration = c;
    enabled = c.manual_ai_enabled;
    reason = (if c.manual_ai_enabled then manual_on else manual_off);
    next_transition_at = none;
  })
  | Mode.scheduled ↦ elim (parse_time_minutes lang c.schedule_start_time) [
    | none ↦ none
    | some start ↦ elim (parse_time_minutes lang c.schedule_end_time) [
      | none ↦ none
      | some stop ↦
          let enabled = scheduled_enabled lang c.schedule_timezone start stop now in
          some (record {
            configuration = c;
            enabled = enabled;
            reason = (if enabled then within_schedule else outside_schedule);
            next_transition_at =
                next_schedule_transition lang c.schedule_timezone start stop now enabled;
          })
    ]
  ]
]
