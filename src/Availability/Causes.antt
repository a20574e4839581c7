-- ===== src/Availability/Causes.antt =====
-- Which errors the tests of app/ai_availability.py raise, and for what.
use ai_whats_app_shipment_as.Prelude.{
  String, ◌≡◌, refl, Bool, true, false, some, arith, ◌⊎◌, inl, inr, Bool-cases, Option-cases,
  str_eq, ◌||◌, ltb, length, codes, ◌==◌,
}
use ai_whats_app_shipment_as.Availability.Schedule.{
  Lang, Lookup, found, not_found, malformed, parse_time_minutes,
}
use ai_whats_app_shipment_as.Availability.Settings.{
  Settings, Row, Error, Result, ok, raised, control_error, invalid, value_error, zone_result,
  validate_timezone, mode_of, schedule_of, stored_zone, stored_schedule, normalize_configuration,
}
use ai_whats_app_shipment_as.Availability.Control.{Request, change_of, locked_configuration}

-- A validation error, or the ValueError of a malformed key.
abbrev pub Raises : Lang → Error → String → Error → Type 0
Raises lang usual zone e =
    (e ≡ usual) ⊎ ((e ≡ value_error) × (lang.zone_info (lang.strip zone) ≡ malformed))

pub Result-cases {ℓ} :
    {A : Type ℓ} (r : Result A) → ((e : Error) × (r ≡ raised e)) ⊎ ((a : A) × (r ≡ ok a))
Result-cases (ok a) = inr (a, refl)
Result-cases (raised e) = inl (e, refl)

module _ (lang : Lang) (e : Error) where
  looked_up :
      (zone : String) (l : Lookup)
      → lang.zone_info (lang.strip zone) ≡ l
      → zone_result (lang.strip zone) l ≡ raised e
      → Raises lang invalid zone e
  unfolding zone_result
  looked_up zone found is h = ground arith
  looked_up zone not_found is h = inl (ground arith)
  looked_up zone malformed is h = inr (ground arith, is)

  validate_timezone-Raises :
      (zone : String) → validate_timezone lang zone ≡ raised e → Raises lang invalid zone e
  unfolding validate_timezone
  validate_timezone-Raises zone h =
      let rendered = lang.strip zone in
      elim (Bool-cases (str_eq rendered "" || ltb 128 (length (codes rendered)))) [
        | inl b ↦ inl (ground (arith, b))
        | inr b ↦ looked_up zone (lang.zone_info rendered) refl (ground (arith, b))
      ]

  schedule_of-Raises :
      (a b zone : String) → schedule_of lang a b zone ≡ raised e → Raises lang invalid zone e
  unfolding schedule_of
  schedule_of-Raises a b zone h = elim (Option-cases (parse_time_minutes lang (lang.strip a))) [
    | inl p ↦ inl (ground (arith, p))
    | inr (x, p) ↦ elim (Option-cases (parse_time_minutes lang (lang.strip b))) [
      | inl q ↦ inl (ground (arith, p, q))
      | inr (y, q) ↦ elim (Bool-cases (x == y)) [
        | inl same ↦ inl (ground (arith, p, q, same))
        | inr other ↦ validate_timezone-Raises zone (ground (arith, p, q, other))
      ]
    ]
  ]

  pub change_of-Raises :
      (r : Request) → change_of lang r ≡ raised e → Raises lang invalid r.schedule_timezone e
  unfolding change_of
  change_of-Raises r h = elim (Option-cases (mode_of lang r.control_mode)) [
    | inl p ↦ inl (ground (arith, p))
    | inr (mode, p) ↦ elim (Option-cases r.expected_version) [
      | inl q ↦ inl (ground (arith, p, q))
      | inr (version, q) ↦ elim (Bool-cases (ltb version 1)) [
        | inl low ↦ inl (ground (arith, p, q, low))
        | inr high ↦
            schedule_of-Raises r.schedule_start_time r.schedule_end_time r.schedule_timezone
              (ground (arith, p, q, high))
      ]
    ]
  ]

  stored_zone-Raises :
      (same : Bool) (zone : String) (r : Result String)
      → validate_timezone lang zone ≡ r
      → ((x : Error) → r ≡ raised x → Raises lang invalid zone x)
      → stored_zone same r ≡ raised e
      → Raises lang control_error zone e
  unfolding stored_zone
  stored_zone-Raises true zone (ok z) is each h = inl (ground arith)
  stored_zone-Raises false zone (ok z) is each h = ground arith
  stored_zone-Raises same zone (raised value_error) is each h = elim (each value_error refl) [
    | inl p ↦ ground (arith, p)
    | inr (_, key) ↦ inr (ground arith, key)
  ]
  stored_zone-Raises same zone (raised x) is each h = inl (ground arith)

module _ (lang : Lang) (e : Error) where
  stored_schedule-Raises :
      (a b zone : String)
      → stored_schedule lang a b zone ≡ raised e
      → Raises lang control_error zone e
  unfolding stored_schedule
  stored_schedule-Raises a b zone h = elim (Option-cases (parse_time_minutes lang (lang.strip a))) [
    | inl p ↦ inl (ground (arith, p))
    | inr (x, p) ↦ elim (Option-cases (parse_time_minutes lang (lang.strip b))) [
      | inl q ↦ inl (ground (arith, p, q))
      | inr (y, q) ↦
          stored_zone-Raises lang e (x == y) zone (validate_timezone lang zone) refl
            (λ z. validate_timezone-Raises lang z zone) (ground (arith, p, q))
    ]
  ]

  normalize-Raises :
      (row : Row)
      → normalize_configuration lang row ≡ raised e
      → Raises lang control_error row.schedule_timezone e
  unfolding normalize_configuration
  normalize-Raises row h = elim (Option-cases (mode_of lang row.control_mode)) [
    | inl p ↦ inl (ground (arith, p))
    | inr (mode, p) ↦
        elim (Result-cases (
          stored_schedule lang row.schedule_start_time row.schedule_end_time
            row.schedule_timezone)) [
              | inl (x, q) ↦
                  stored_schedule-Raises row.schedule_start_time row.schedule_end_time
                    row.schedule_timezone (ground (arith, p, q))
              | inr (zone, q) ↦ inl (ground (arith, p, q))
            ]
  ]

  -- The row's key is malformed, or the error is AIControlError.
  pub locked-Raises :
      (s : Settings)
      → locked_configuration lang s ≡ raised e
      → (e ≡ control_error)
        ⊎ ((e ≡ value_error)
            × ((row : Row) × (s.row ≡ some row)
                × (lang.zone_info (lang.strip row.schedule_timezone) ≡ malformed)))
  unfolding locked_configuration
  locked-Raises s h = elim (Option-cases s.row) [
    | inl p ↦ inl (ground (arith, p))
    | inr (row, p) ↦ elim (normalize-Raises row (ground (arith, p))) [
      | inl usual ↦ inl usual
      | inr (odd, key) ↦ inr (odd, (row, p, key))
    ]
  ]
