-- ===== src/Availability/Control.antt =====
-- The update of the settings in app/ai_availability.py: AIControlRepository.update, under the row's
-- lock, and AIAvailabilityService.update_settings. The UTC clock of the database is an argument.
use ai_whats_app_shipment_as.Prelude.{
  ℕ, ◌+◌, String, Bool, true, false, not, Option, none, some, [], ◌∷◌, ◌++◌, ltb, ◌==◌,
  if◌then◌else◌,
}
use ai_whats_app_shipment_as.Availability.Schedule.{Lang, Mode, Configuration, Effective, evaluate}
use ai_whats_app_shipment_as.Availability.Settings.{
  Actor, Error, Result, Role, Row, Settings, Snapshot, agent, conflict, control_error, forbidden,
  get, invalid, mode_of, mode_text, normalize_configuration, ok, raised, schedule_of,
}

-- What update_settings hands to the repository.
pub record Change : Type 0 where
  pub expected_version : ℕ
  pub control_mode : Mode
  pub manual_ai_enabled : Bool
  pub schedule_start_time : String
  pub schedule_end_time : String
  pub schedule_timezone : String

unfoldable pub updated_row : ℕ → Actor → Change → ℕ → Row
updated_row now actor change version = record {
  control_mode = mode_text change.control_mode;
  manual_ai_enabled = change.manual_ai_enabled;
  schedule_start_time = change.schedule_start_time;
  schedule_end_time = change.schedule_end_time;
  schedule_timezone = change.schedule_timezone;
  version = version;
  updated_at = some now;
  updated_by_staff_id = some actor.id;
  updated_by_staff_name = some actor.name;
}

unfoldable pub old_payload : Configuration → Snapshot
old_payload c = record {
  control_mode = c.control_mode;
  manual_ai_enabled = c.manual_ai_enabled;
  schedule_start_time = c.schedule_start_time;
  schedule_end_time = c.schedule_end_time;
  schedule_timezone = c.schedule_timezone;
  version = c.version;
}

unfoldable pub new_payload : Change → ℕ → Snapshot
new_payload change version = record {
  control_mode = change.control_mode;
  manual_ai_enabled = change.manual_ai_enabled;
  schedule_start_time = change.schedule_start_time;
  schedule_end_time = change.schedule_end_time;
  schedule_timezone = change.schedule_timezone;
  version = version;
}

-- the UPDATE and the INSERT of the audit row, committed together
unfoldable pub write : ℕ → Actor → Change → Configuration → Settings → Settings
write now actor change current s =
    let next = current.version + 1 in
    record s {
      row = some (updated_row now actor change next);
      audit =
          s.audit
          ++ (record {
            actor_staff_id = actor.id;
            actor_staff_name = actor.name;
            old_configuration = old_payload current;
            new_configuration = new_payload change next;
            created_at = now;
          }
              ∷ []);
    }

-- the configuration of the locked row; a missing row is AIControlError
unfoldable pub locked_configuration : Lang → Settings → Result Configuration
unfolding normalize_configuration
locked_configuration lang s = elim s.row [
  | none ↦ raised control_error
  | some row ↦ normalize_configuration lang row
]

-- AIControlRepository.update up to its commit; an exception rolls the transaction back
unfoldable pub commit : Lang → ℕ → Actor → Change → Settings → Settings × Option Error
unfolding locked_configuration
commit lang now actor change s = elim (locked_configuration lang s) [
  | raised e ↦ (s, some e)
  | ok current ↦
      if current.version == change.expected_version
      then (write now actor change current s, none)
      else (s, some conflict)
]

abbrev read_again : Lang → Settings → Option Error → Result Configuration
read_again lang s none = get lang s
read_again lang s (some e) = raised e

-- AIControlRepository.update: once it is committed, the row is read again, in a transaction of its
-- own. `others` is what other sessions commit in between.
unfoldable pub update :
    Lang → (Settings → Settings) → ℕ → Actor → Change → Settings → Settings × Result Configuration
update lang others now actor change s =
    let (after, error) = commit lang now actor change s in
    (after, read_again lang (others after) error)

-- is_supervisor of app/support_auth.py
abbrev pub is_supervisor : Role → Bool
is_supervisor agent = false
is_supervisor _ = true

-- the arguments of update_settings; a version that is no number is `none`
pub record Request : Type 0 where
  pub expected_version : Option ℕ
  pub control_mode : String
  pub manual_ai_enabled : Bool
  pub schedule_start_time : String
  pub schedule_end_time : String
  pub schedule_timezone : String

-- the tests of update_settings, in their order
unfoldable pub change_of : Lang → Request → Result Change
change_of lang r = elim (mode_of lang r.control_mode) [
  | none ↦ raised invalid
  | some mode ↦ elim r.expected_version [
    | none ↦ raised invalid
    | some version ↦
        if ltb version 1
        then raised invalid
        else elim (schedule_of lang r.schedule_start_time r.schedule_end_time r.schedule_timezone) [
          | raised e ↦ raised e
          | ok zone ↦ ok (record {
            expected_version = version;
            control_mode = mode;
            manual_ai_enabled = r.manual_ai_enabled;
            schedule_start_time = lang.strip r.schedule_start_time;
            schedule_end_time = lang.strip r.schedule_end_time;
            schedule_timezone = zone;
          })
        ]
  ]
]

abbrev or_invalid : Option Effective → Result Effective
or_invalid none = raised invalid
or_invalid (some e) = ok e

abbrev pub evaluated : Lang → ℕ → Result Configuration → Result Effective
evaluated lang now (raised e) = raised e
evaluated lang now (ok c) = or_invalid (evaluate lang c now)

-- AIAvailabilityService.update_settings; the source returns the result as a dict
unfoldable pub update_settings :
    Lang → (Settings → Settings) → ℕ → Actor → Request → Settings → Settings × Result Effective
update_settings lang others now actor r s =
    if not (is_supervisor actor.role) then (s, raised forbidden) else elim (change_of lang r) [
      | raised e ↦ (s, raised e)
      | ok change ↦
          let (after, result) = update lang others now actor change s in
          (after, evaluated lang now result)
    ]
