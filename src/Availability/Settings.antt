-- ===== src/Availability/Settings.antt =====
-- The settings row of app/ai_availability.py: its columns and audit, and how it is read, which is
-- _normalize_configuration, _validate_timezone and AIControlRepository.get.
use ai_whats_app_shipment_as.Prelude.{
  ℕ, String, Bool, not, ◌&&◌, ◌||◌, Option, none, some, List, [], ◌∷◌, length, ltb, ◌==◌, str_eq,
  codes, if◌then◌else◌,
}
use ai_whats_app_shipment_as.Availability.Schedule.{
  Lang, Lookup, found, not_found, malformed, Mode, manual, scheduled, Configuration,
  parse_time_minutes,
}

-- The columns as they are stored; a null text is the empty one here, as `or ""` makes it.
pub record Row : Type 0 where
  pub control_mode : String
  pub manual_ai_enabled : Bool
  pub schedule_start_time : String
  pub schedule_end_time : String
  pub schedule_timezone : String
  pub version : ℕ
  pub updated_at : Option ℕ
  pub updated_by_staff_id : Option ℕ
  pub updated_by_staff_name : Option String

-- The configuration that an audit row records, as JSON in the source.
pub record Snapshot : Type 0 where
  pub control_mode : Mode
  pub manual_ai_enabled : Bool
  pub schedule_start_time : String
  pub schedule_end_time : String
  pub schedule_timezone : String
  pub version : ℕ

pub record Audit : Type 0 where
  pub actor_staff_id : ℕ
  pub actor_staff_name : String
  pub old_configuration : Snapshot
  pub new_configuration : Snapshot
  pub created_at : ℕ

pub record Staff : Type 0 where
  pub id : ℕ
  pub name : String
  pub deleted : Bool

pub record Settings : Type 0 where
  pub row : Option Row
  pub audit : List Audit
  pub staff : List Staff

pub data Role : Type 0 where
  agent supervisor admin : Role

pub record Actor : Type 0 where
  pub id : ℕ
  pub name : String
  pub role : Role

-- AIControlError and its subclasses, and the ValueError of ZoneInfo, which nothing catches.
pub data Error : Type 0 where
  control_error forbidden invalid conflict value_error : Error

pub data Result {ℓ} (A : Type ℓ) : Type ℓ where
  ok : A → Result A
  raised : Error → Result A

unfoldable pub zone_result : String → Lookup → Result String
zone_result rendered found = ok rendered
zone_result rendered not_found = raised invalid
zone_result rendered malformed = raised value_error

-- _validate_timezone
unfoldable pub validate_timezone : Lang → String → Result String
unfolding zone_result
validate_timezone lang value =
    let rendered = lang.strip value in
    if str_eq rendered "" || ltb 128 (length (codes rendered))
    then raised invalid
    else zone_result rendered (lang.zone_info rendered)

-- the mode that a text names after strip().upper()
unfoldable pub mode_of : Lang → String → Option Mode
mode_of lang value =
    if str_eq (lang.upper (lang.strip value)) "MANUAL"
    then some manual
    else if str_eq (lang.upper (lang.strip value)) "SCHEDULED"
    then some scheduled
    else none

abbrev pub mode_text : Mode → String
mode_text manual = "MANUAL"
mode_text scheduled = "SCHEDULED"

-- The schedule of a request: both times, which must differ, and then the zone.
unfoldable pub schedule_of : Lang → String → String → String → Result String
schedule_of lang start stop zone = elim (parse_time_minutes lang (lang.strip start)) [
  | none ↦ raised invalid
  | some a ↦ elim (parse_time_minutes lang (lang.strip stop)) [
    | none ↦ raised invalid
    | some b ↦ if a == b then raised invalid else validate_timezone lang zone
  ]
]

unfoldable pub stored_zone : Bool → Result String → Result String
stored_zone same (ok zone) = if same then raised control_error else ok zone
stored_zone same (raised value_error) = raised value_error
stored_zone same (raised _) = raised control_error

-- The schedule of a row: both times, the zone, and then that the times differ. Its validation
-- errors become AIControlError.
unfoldable pub stored_schedule : Lang → String → String → String → Result String
unfolding stored_zone
stored_schedule lang start stop zone = elim (parse_time_minutes lang (lang.strip start)) [
  | none ↦ raised control_error
  | some a ↦ elim (parse_time_minutes lang (lang.strip stop)) [
    | none ↦ raised control_error
    | some b ↦ stored_zone (a == b) (validate_timezone lang zone)
  ]
]

-- _normalize_configuration
unfoldable pub normalize_configuration : Lang → Row → Result Configuration
normalize_configuration lang row = elim (mode_of lang row.control_mode) [
  | none ↦ raised control_error
  | some mode ↦
      elim (stored_schedule lang row.schedule_start_time row.schedule_end_time
        row.schedule_timezone) [
          | raised e ↦ raised e
          | ok zone ↦
              if ltb row.version 1
              then raised control_error
              else ok (record {
                control_mode = mode;
                manual_ai_enabled = row.manual_ai_enabled;
                schedule_start_time = lang.strip row.schedule_start_time;
                schedule_end_time = lang.strip row.schedule_end_time;
                schedule_timezone = zone;
                version = row.version;
                updated_at = row.updated_at;
                updated_by_staff_id = row.updated_by_staff_id;
                updated_by_staff_name = row.updated_by_staff_name;
              })
        ]
]

-- the name of a staff account that is not deleted; ids start at 1
unfoldable pub staff_name : List Staff → ℕ → Option String
staff_name [] id = none
staff_name (s ∷ ss) id =
    let rest = staff_name ss id in
    if s.id == id && not s.deleted && ltb 0 id then some s.name else rest

abbrev renamed : Row → Option String → Row
renamed row none = row
renamed row (some name) = record row { updated_by_staff_name = some name }

-- attach_current_staff_names on the row
unfoldable pub attach_current_staff_names : List Staff → Row → Row
attach_current_staff_names staff row = elim row.updated_by_staff_id [
  | none ↦ row
  | some id ↦ renamed row (staff_name staff id)
]

-- AIControlRepository.get
unfoldable pub get : Lang → Settings → Result Configuration
unfolding normalize_configuration
get lang s = elim s.row [
  | none ↦ raised control_error
  | some row ↦ normalize_configuration lang (attach_current_staff_names s.staff row)
]
