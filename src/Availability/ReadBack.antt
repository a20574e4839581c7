-- ===== src/Availability/ReadBack.antt =====
-- The row that an update writes is one that the service reads back as it was meant.
use ai_whats_app_shipment_as.Prelude.{
  ℕ, ◌+◌, String, ◌≡◌, ◌∙◌, refl, sym, ap, Option, none, some, List, arith, Option-cases, inl, inr,
  if◌then◌else◌,
}
use ai_whats_app_shipment_as.Availability.Schedule.{
  Lang, manual_on, manual_off, within_schedule, outside_schedule, scheduled_enabled,
  next_schedule_transition, Mode, manual, scheduled, Configuration, Effective, parse_time_minutes,
  evaluate,
}
use ai_whats_app_shipment_as.Availability.Settings.{
  Row, Staff, Settings, Actor, ok, mode_of, mode_text, schedule_of, stored_schedule,
  validate_timezone, normalize_configuration, attach_current_staff_names, staff_name, get,
}
use ai_whats_app_shipment_as.Availability.Control.{
  Change, updated_row, write, locked_configuration, Request, change_of,
}

-- What the service relies on: str.strip is idempotent, and strip and upper keep the two modes.
pub record LangLaws (lang : Lang) : Type 0 where
  pub strip_strip : (s : String) → lang.strip (lang.strip s) ≡ lang.strip s
  pub keeps_manual : lang.upper (lang.strip "MANUAL") ≡ "MANUAL"
  pub keeps_scheduled : lang.upper (lang.strip "SCHEDULED") ≡ "SCHEDULED"

-- A change whose texts the stored row gives back as they are.
pub record Readable (lang : Lang) (change : Change) : Type 0 where
  start_stripped : lang.strip change.schedule_start_time ≡ change.schedule_start_time
  end_stripped : lang.strip change.schedule_end_time ≡ change.schedule_end_time
  has_schedule :
      stored_schedule lang change.schedule_start_time change.schedule_end_time
        change.schedule_timezone
      ≡ ok change.schedule_timezone

module _ (lang : Lang) (laws : LangLaws lang) where
  mode_of-mode_text : (m : Mode) → mode_of lang (mode_text m) ≡ some m
  unfolding mode_of
  mode_of-mode_text manual = rw laws.keeps_manual refl
  mode_of-mode_text scheduled = rw laws.keeps_scheduled refl

  validate_timezone_again :
      (z zone : String) → validate_timezone lang z ≡ ok zone → validate_timezone lang zone ≡ ok zone
  unfolding validate_timezone
  validate_timezone_again z zone e = ground (arith, laws.strip_strip z)

  schedule_of_again :
      (a b z zone : String)
      → schedule_of lang a b z ≡ ok zone
      → stored_schedule lang (lang.strip a) (lang.strip b) zone ≡ ok zone
  unfolding schedule_of stored_schedule
  schedule_of_again a b z zone e = ground (
    arith,
    ap (parse_time_minutes lang) (laws.strip_strip a),
    ap (parse_time_minutes lang) (laws.strip_strip b),
    validate_timezone_again z zone,
  )

  abbrev pub stored : ℕ → Actor → Change → ℕ → Option String → Configuration
  stored now actor change version name = record {
    control_mode = change.control_mode;
    manual_ai_enabled = change.manual_ai_enabled;
    schedule_start_time = change.schedule_start_time;
    schedule_end_time = change.schedule_end_time;
    schedule_timezone = change.schedule_timezone;
    version = version;
    updated_at = some now;
    updated_by_staff_id = some actor.id;
    updated_by_staff_name = name;
  }

  -- The row that an update writes is read back as it was meant, whatever name it shows.
  pub normalize-updated_row :
      (now : ℕ) (actor : Actor) (change : Change) (version : ℕ) (name : Option String)
      → Readable lang change
      → normalize_configuration lang
          (record (updated_row now actor change (version + 1)) { updated_by_staff_name = name })
        ≡ ok (stored now actor change (version + 1) name)
  unfolding normalize_configuration updated_row
  normalize-updated_row now actor change version name r = ground (
    arith,
    mode_of-mode_text change.control_mode,
    r.has_schedule,
    r.start_stripped,
    r.end_stripped,
  )

  attach-updated_row :
      (staff : List Staff) (now : ℕ) (actor : Actor) (change : Change) (version : ℕ)
      → (name : Option String) × (attach_current_staff_names staff
            (updated_row now actor change version)
          ≡ record (updated_row now actor change version) { updated_by_staff_name = name })
  unfolding attach_current_staff_names updated_row
  attach-updated_row staff now actor change version =
      elim (Option-cases (staff_name staff actor.id)) [
        | inl n ↦ (some actor.name, simp n refl)
        | inr (x, n) ↦ (some x, simp n refl)
      ]

  get-normalized :
      (s : Settings) (row : Row) (c : Configuration)
      → s.row ≡ some row
      → normalize_configuration lang (attach_current_staff_names s.staff row) ≡ ok c
      → get lang s ≡ ok c
  unfolding get
  get-normalized s row c e normal = ground (arith, e, normal)

  pub get-updated_row :
      (now : ℕ) (actor : Actor) (change : Change) (version : ℕ) (s : Settings)
      → Readable lang change
      → s.row ≡ some (updated_row now actor change (version + 1))
      → (name : Option String) × (get lang s ≡ ok (stored now actor change (version + 1) name))
  get-updated_row now actor change version s r e =
      let (name, shown) = attach-updated_row s.staff now actor change (version + 1) in
      (
        name,
        get-normalized s (updated_row now actor change (version + 1))
            (stored now actor change (version + 1) name) e
            (ap (normalize_configuration lang) shown
              ∙ normalize-updated_row now actor change version name r),
      )

  evaluate-parsed :
      (c : Configuration) (now a b : ℕ) (m : Mode)
      → c.control_mode ≡ m
      → parse_time_minutes lang c.schedule_start_time ≡ some a
      → parse_time_minutes lang c.schedule_end_time ≡ some b
      → (e : Effective) × (evaluate lang c now ≡ some e) × (e.configuration ≡ c)
  unfolding evaluate
  evaluate-parsed c now a b manual m start stop = (
    record {
      configuration = c;
      enabled = c.manual_ai_enabled;
      reason = (if c.manual_ai_enabled then manual_on else manual_off);
      next_transition_at = none;
    },
    ground (arith, m),
    refl,
  )
  evaluate-parsed c now a b scheduled m start stop =
      let enabled = scheduled_enabled lang c.schedule_timezone a b now in
      (
        record {
          configuration = c;
          enabled = enabled;
          reason = (if enabled then within_schedule else outside_schedule);
          next_transition_at = next_schedule_transition lang c.schedule_timezone a b now enabled;
        },
        ground (arith, m, start, stop),
        refl,
      )

  times_of :
      (a b zone result : String)
      → stored_schedule lang a b zone ≡ ok result
      → ((x : ℕ) × (parse_time_minutes lang (lang.strip a) ≡ some x))
        × ((y : ℕ) × (parse_time_minutes lang (lang.strip b) ≡ some y))
  unfolding stored_schedule
  times_of a b zone result e = (
    elim (Option-cases (parse_time_minutes lang (lang.strip a))) [
      | inr found ↦ found
      | inl p ↦ ground (arith, p)
    ],
    elim (Option-cases (parse_time_minutes lang (lang.strip b))) [
      | inr found ↦ found
      | inl p ↦ ground (arith, p)
    ],
  )

  pub evaluate-answers :
      (now at : ℕ) (actor : Actor) (change : Change) (version : ℕ) (name : Option String)
      → Readable lang change
      → (e : Effective) × (evaluate lang (stored at actor change version name) now ≡ some e)
        × (e.configuration ≡ stored at actor change version name)
  evaluate-answers now at actor change version name r =
      let ((x, p), (y, q)) =
        times_of change.schedule_start_time change.schedule_end_time change.schedule_timezone
          change.schedule_timezone r.has_schedule in
      evaluate-parsed (stored at actor change version name) now x y change.control_mode refl
        (sym (ap (parse_time_minutes lang) r.start_stripped) ∙ p)
        (sym (ap (parse_time_minutes lang) r.end_stripped) ∙ q)

  pub change_of-Readable :
      (r : Request) (change : Change) → change_of lang r ≡ ok change → Readable lang change
  unfolding change_of
  change_of-Readable r change e = record {
    start_stripped = ground (arith, laws.strip_strip r.schedule_start_time);
    end_stripped = ground (arith, laws.strip_strip r.schedule_end_time);
    has_schedule = ground (
      arith,
      schedule_of_again r.schedule_start_time r.schedule_end_time r.schedule_timezone
          change.schedule_timezone,
    );
  }

  pub locked-write :
      (now : ℕ) (actor : Actor) (change : Change) (s : Settings) (before : Configuration)
      → Readable lang change
      → locked_configuration lang (write now actor change before s)
        ≡ ok (stored now actor change (before.version + 1) (some actor.name))
  unfolding locked_configuration write updated_row
  locked-write now actor change s before r =
      normalize-updated_row now actor change before.version (some actor.name) r

  pub get-write :
      (now : ℕ) (actor : Actor) (change : Change) (s : Settings) (before : Configuration)
      → Readable lang change
      → (name : Option String) × (get lang (write now actor change before s)
          ≡ ok (stored now actor change (before.version + 1) name))
  unfolding write
  get-write now actor change s before r =
      get-updated_row now actor change before.version (write now actor change before s) r refl
