-- ===== src/Availability/Examples.antt =====
-- The settings at a concrete row, in UTC and with ASCII digits.
use ai_whats_app_shipment_as.Prelude.{
  ℕ, ◌+◌, ◌-◌, ◌*◌, ◌/◌, ◌%◌, ◌≤◌, ◌<◌, String, ◌≡◌, refl, true, false, not, ◌&&◌, ◌⊎◌, Option,
  none, some, List, [], ◌∷◌, arith, leb, str_eq, if◌then◌else◌,
}
use ai_whats_app_shipment_as.Availability.Schedule.{
  Lang, Configuration, manual, found, not_found, minute_us, next_minute, scheduled_enabled,
  next_schedule_transition, hour_of, minute_of, time_of, parse_time_minutes, in_window, scan,
}
use ai_whats_app_shipment_as.Availability.Transition.{
  Tells, FixedOffset, next_schedule_transition-Tells, next_schedule_transition_found,
}
use ai_whats_app_shipment_as.Availability.Settings.{
  Settings, Row, Actor, Role, normalize_configuration, mode_of, stored_schedule, stored_zone,
  zone_result, validate_timezone,
}
use ai_whats_app_shipment_as.Availability.Control.{Request, locked_configuration, update_settings}
use ai_whats_app_shipment_as.Availability.ReadBack.{LangLaws}
use ai_whats_app_shipment_as.Availability.Updates.{Committed, Refused, update_settings-answers}
use ai_whats_app_shipment_as.Availability.History.{
  Call, Accounts, run, wins, run-Accounts, wins-le-one,
}

abbrev utc : String → ℕ → ℕ
utc zone t = t / minute_us % 1440

abbrev ascii_digit : ℕ → Option ℕ
ascii_digit c = if leb 48 c && leb c 57 then some (c - 48) else none

abbrev plain : Lang
plain = record {
  strip = λ s. s;
  upper = λ s. s;
  digit = ascii_digit;
  zone_info = λ zone. if str_eq zone "UTC" then found else not_found;
  local_minutes = utc;
}

-- 09:00 to 17:00, at 08:00:30 on the first day: the schedule turns on an hour later.
next_at_nine :
    next_schedule_transition plain "UTC" 540 1020 (480 * minute_us + 30000000) false
    ≡ some (540 * minute_us)
unfolding next_schedule_transition scan scheduled_enabled in_window next_minute
next_at_nine = refl

half_past_nine : parse_time_minutes plain "09:30" ≡ some 570
unfolding parse_time_minutes time_of hour_of minute_of
half_past_nine = refl

next_schedule_transition-Tells_example :
    let enabled = scheduled_enabled plain "UTC" 540 1020 in
    Tells enabled 30000000
      (next_schedule_transition plain "UTC" 540 1020 30000000 (enabled 30000000))
next_schedule_transition-Tells_example =
    next_schedule_transition-Tells plain "UTC" 540 1020 30000000

utc-FixedOffset : FixedOffset (plain.local_minutes "UTC")
utc-FixedOffset = record { of_day = λ t. omega arith; advances = λ t. omega arith }

next_schedule_transition_found_example :
    let enabled = scheduled_enabled plain "UTC" 1320 360 in
    (t : ℕ) × (next_schedule_transition plain "UTC" 1320 360 30000000 (enabled 30000000) ≡ some t)
    × (30000000 < t)
    × (t ≤ 30000000 + 1440 * minute_us)
    × (enabled t ≡ not (enabled 30000000))
next_schedule_transition_found_example =
    next_schedule_transition_found plain "UTC" utc-FixedOffset 1320 360 30000000 (omega arith)
      (omega arith) (omega arith)

plain-LangLaws : LangLaws plain
plain-LangLaws = record { strip_strip = λ s. refl; keeps_manual = refl; keeps_scheduled = refl }

abbrev first_row : Row
first_row = record {
  control_mode = "MANUAL";
  manual_ai_enabled = true;
  schedule_start_time = "09:00";
  schedule_end_time = "17:00";
  schedule_timezone = "UTC";
  version = 3;
  updated_at = none;
  updated_by_staff_id = none;
  updated_by_staff_name = none;
}

abbrev stored : Settings
stored = record { row = some first_row; audit = []; staff = [] }

abbrev first_configuration : Configuration
first_configuration = record {
  control_mode = manual;
  manual_ai_enabled = true;
  schedule_start_time = "09:00";
  schedule_end_time = "17:00";
  schedule_timezone = "UTC";
  version = 3;
  updated_at = none;
  updated_by_staff_id = none;
  updated_by_staff_name = none;
}

abbrev manager : Actor
manager = record { id = 5; name = "Rana"; role = Role.admin }

abbrev to_schedule : Request
to_schedule = record {
  expected_version = some 3;
  control_mode = "SCHEDULED";
  manual_ai_enabled = false;
  schedule_start_time = "22:00";
  schedule_end_time = "06:00";
  schedule_timezone = "UTC";
}

-- Another session deletes the names of the staff before the settings are read again.
abbrev forget : Settings → Settings
forget s = record s { staff = [] }

update_settings-answers_example :
    let (after, result) = update_settings plain forget 70 manager to_schedule stored in
    Committed plain plain-LangLaws forget 70 manager to_schedule stored after result
    ⊎ Refused plain plain-LangLaws forget manager to_schedule stored after result
update_settings-answers_example =
    update_settings-answers plain plain-LangLaws forget 70 manager to_schedule stored

-- Two sessions that change the same version.
abbrev race : List Call
race =
    record { others = λ x. x; now = 70; actor = manager; request = to_schedule }
    ∷ record { others = λ x. x; now = 80; actor = manager; request = to_schedule }
    ∷ []

run-Accounts_example : Accounts plain stored (run plain race stored) first_configuration
unfolding locked_configuration normalize_configuration mode_of stored_schedule stored_zone
    zone_result validate_timezone parse_time_minutes time_of hour_of minute_of
run-Accounts_example = run-Accounts plain plain-LangLaws race stored first_configuration refl

wins-le-one_example : wins plain 3 race stored ≤ 1
wins-le-one_example = wins-le-one plain plain-LangLaws 3 race stored
