-- ===== src/Availability/Transition.antt =====
-- The next change of the schedule.
use ai_whats_app_shipment_as.Prelude.{
  ℕ, zero, suc, ◌+◌, ◌-◌, ◌*◌, ◌%◌, ◌/◌, ◌≤◌, ◌<◌, ◌≢◌, String, ◌≡◌, refl, sym, Bool, true, false,
  not, Option, none, some, arith, Bool-cases, inl, inr, ltb, if◌then◌else◌, ◌∙◌, ap,
}
use ai_whats_app_shipment_as.Availability.Schedule.{
  Lang, minute_us, scan, scan_steps, next_minute, in_window, scheduled_enabled,
  next_schedule_transition, eq_bool,
}

-- The first of the instants that the loop visits at which the schedule differs.
pub record FirstChange (enabled : ℕ → Bool) (current : Bool) (cursor steps t : ℕ) : Type 0 where
  pub count : ℕ
  pub in_reach : count < steps
  pub is_visited : t ≡ cursor + count * minute_us
  pub changed : enabled t ≡ not current
  pub steady_before : (j : ℕ) → j < count → enabled (cursor + j * minute_us) ≡ current

-- What the result of the loop says.
abbrev pub Answers : (ℕ → Bool) → Bool → ℕ → ℕ → Option ℕ → Type 0
Answers enabled current cursor steps none =
    (j : ℕ) → j < steps → enabled (cursor + j * minute_us) ≡ current
Answers enabled current cursor steps (some t) = FirstChange enabled current cursor steps t

eq_bool-true : (a b : Bool) → eq_bool a b ≡ true → a ≡ b
eq_bool-true true b e = sym e
eq_bool-true false true e = cc
eq_bool-true false false e = refl

eq_bool-false : (a b : Bool) → eq_bool a b ≡ false → a ≡ not b
eq_bool-false true true e = cc
eq_bool-false true false e = refl
eq_bool-false false true e = refl
eq_bool-false false false e = cc

module _ (enabled : ℕ → Bool) (current : Bool) where
  steady_from :
      (cursor j : ℕ)
      → enabled cursor ≡ current
      → ((i : ℕ) → i < j → enabled (cursor + minute_us + i * minute_us) ≡ current)
      → (i : ℕ) → i < suc j
      → enabled (cursor + i * minute_us) ≡ current
  steady_from cursor j now later zero small =
      let same : cursor + 0 * minute_us ≡ cursor = omega arith in ap enabled same ∙ now
  steady_from cursor j now later (suc i) small =
      let same : cursor + suc i * minute_us ≡ cursor + minute_us + i * minute_us = omega arith in
      ap enabled same ∙ later i (omega arith)

  Answers-later :
      (cursor steps : ℕ) (r : Option ℕ)
      → enabled cursor ≡ current
      → Answers enabled current (cursor + minute_us) steps r
      → Answers enabled current cursor (suc steps) r
  Answers-later cursor steps none now a = steady_from cursor steps now a
  Answers-later cursor steps (some t) now a = record {
    count = suc a.count;
    in_reach = omega (arith, a.in_reach);
    is_visited = omega (arith, a.is_visited);
    changed = a.changed;
    steady_before = steady_from cursor a.count now a.steady_before;
  }

  scan-Answers :
      (steps cursor : ℕ) → Answers enabled current cursor steps (scan enabled current steps cursor)
  unfolding scan
  scan-Answers zero cursor = λ j small. ground arith
  scan-Answers (suc steps) cursor = elim (Bool-cases (eq_bool (enabled cursor) current)) [
    | inl e ↦ rw e (
        Answers-later cursor steps (scan enabled current steps (cursor + minute_us))
          (eq_bool-true (enabled cursor) current e) (scan-Answers steps (cursor + minute_us)))
    | inr e ↦ rw e (record {
      count = 0;
      in_reach = omega arith;
      is_visited = omega arith;
      changed = eq_bool-false (enabled cursor) current e;
      steady_before = λ j small. ground arith;
    })
  ]

scanned :
    (lang : Lang) (zone : String) (start stop now : ℕ)
    → let enabled = scheduled_enabled lang zone start stop in
      Answers enabled
        (enabled now)
        (next_minute now)
        scan_steps
        (next_schedule_transition lang zone start stop now (enabled now))
unfolding next_schedule_transition
scanned lang zone start stop now =
    scan-Answers (scheduled_enabled lang zone start stop)
      (scheduled_enabled lang zone start stop now) scan_steps (next_minute now)

-- An instant at which a minute starts.
abbrev pub WholeMinute : ℕ → Type 0
WholeMinute t = t % 60000000 ≡ 0

-- What the answer says of the schedule: none, that it does not change at any whole minute of the
-- next 2885; an instant, that it is a whole minute after the present at which the schedule has
-- changed, and that it has not changed at any whole minute between.
abbrev pub Tells : (ℕ → Bool) → ℕ → Option ℕ → Type 0
Tells enabled now none =
    (u : ℕ) → WholeMinute u → now < u → u ≤ now + 2885 * 60000000 → enabled u ≡ enabled now
Tells enabled now (some t) =
    WholeMinute t
    × (now < t)
    × (t ≤ now + 2885 * 60000000)
    × (enabled t ≡ not (enabled now))
    × ((u : ℕ) → WholeMinute u → now < u → u < t → enabled u ≡ enabled now)

-- The whole minutes after the present are those that the loop visits.
visited : (now u : ℕ) → WholeMinute u → now < u → (j : ℕ) × (u ≡ next_minute now + j * minute_us)
unfolding next_minute
visited now u whole later = (u / 60000000 - (now / 60000000 + 1), omega arith)

Answers-Tells :
    (enabled : ℕ → Bool) (now : ℕ) (r : Option ℕ)
    → Answers enabled (enabled now) (next_minute now) scan_steps r
    → Tells enabled now r
unfolding next_minute
Answers-Tells enabled now none a = λ u whole later near.
    let (j, e) = visited now u whole later in ap enabled e ∙ a j (omega (arith, e))
Answers-Tells enabled now (some t) a = (
  omega (arith, a.is_visited),
  omega (arith, a.is_visited),
  omega (arith, a.is_visited, a.in_reach),
  a.changed,
  λ u whole later before.
      let (j, e) = visited now u whole later in
      ap enabled e ∙ a.steady_before j (omega (arith, e, a.is_visited)),
)

-- The transition that the schedule announces is the first whole minute after the present at which
-- the schedule differs from what it says now; where it announces none, the schedule keeps its
-- answer at every whole minute of the next 2885.
pub next_schedule_transition-Tells :
    (lang : Lang) (zone : String) (start stop now : ℕ)
    → let enabled = scheduled_enabled lang zone start stop in
      Tells enabled now (next_schedule_transition lang zone start stop now (enabled now))
next_schedule_transition-Tells lang zone start stop now =
    let enabled = scheduled_enabled lang zone start stop in
    Answers-Tells enabled now (next_schedule_transition lang zone start stop now (enabled now))
      (scanned lang zone start stop now)

-- A zone whose offset does not change: its wall clock advances one minute every minute.
pub record FixedOffset (local : ℕ → ℕ) : Type 0 where
  pub of_day : (t : ℕ) → local t < 1440
  pub advances : (t : ℕ) → local (t + minute_us) ≡ (local t + 1) % 1440

module _ (lang : Lang) (zone : String) (fixed : FixedOffset (lang.local_minutes zone)) where
  local_after :
      (t k : ℕ)
      → lang.local_minutes zone (t + k * minute_us) ≡ (lang.local_minutes zone t + k) % 1440
  local_after t zero =
      let same : t + 0 * minute_us ≡ t = omega arith in
      ap (lang.local_minutes zone) same ∙ omega (arith, fixed.of_day t)
  local_after t (suc k) =
      let same : t + suc k * minute_us ≡ t + k * minute_us + minute_us = omega arith in
      ap (lang.local_minutes zone) same
      ∙ omega (arith, fixed.advances (t + k * minute_us), local_after t k)

  -- the minutes from t until the wall clock reads `goal`
  wait : ℕ → ℕ → ℕ
  wait t goal = (goal + (1440 - lang.local_minutes zone t)) % 1440

  local-wait :
      (t goal : ℕ) → goal < 1440 → lang.local_minutes zone (t + wait t goal * minute_us) ≡ goal
  unfolding wait
  local-wait t goal small = omega (arith, fixed.of_day t, local_after t (wait t goal))

  -- the wall clock reading at which the schedule leaves its answer
  turn : ℕ → ℕ → Bool → ℕ
  turn start stop current = if current then stop else start

  in_window-turn :
      (start stop : ℕ) (current : Bool)
      → start ≢ stop
      → in_window start stop (turn start stop current) ≡ not current
  unfolding in_window turn
  in_window-turn start stop true different = ground (arith, different)
  in_window-turn start stop false different = ground (arith, different)

  -- At the wait for its turn, the schedule has left its answer.
  changes_at_turn :
      (start stop t : ℕ) (current : Bool)
      → start < 1440
      → stop < 1440
      → start ≢ stop
      → scheduled_enabled lang zone start stop (t + wait t (turn start stop current) * minute_us)
        ≡ not current
  unfolding scheduled_enabled turn
  changes_at_turn start stop t true a b different =
      rw (local-wait t stop b) (in_window-turn start stop true different)
  changes_at_turn start stop t false a b different =
      rw (local-wait t start a) (in_window-turn start stop false different)

  wait-lt : (t goal : ℕ) → wait t goal < 1440
  unfolding wait
  wait-lt t goal = omega arith

  found_by_turn :
      (enabled : ℕ → Bool) (current : Bool) (cursor k : ℕ) (r : Option ℕ)
      → k < 1440
      → enabled (cursor + k * minute_us) ≡ not current
      → Answers enabled current cursor scan_steps r
      → (t : ℕ) × (r ≡ some t)
        × (cursor ≤ t)
        × (t ≤ cursor + k * minute_us)
        × (enabled t ≡ not current)
  found_by_turn enabled current cursor k none small change a =
      let same : enabled (cursor + k * minute_us) ≡ current = a k (omega arith) in ground arith
  found_by_turn enabled current cursor k (some t) small change a =
      elim (Bool-cases (ltb k a.count)) [
        | inl e ↦
            let same : enabled (cursor + k * minute_us) ≡ current =
              a.steady_before k (ground (arith, e)) in
            ground arith
        | inr e ↦
            let le : a.count ≤ k = ground (arith, e) in
            (t, refl, omega (arith, a.is_visited), omega (arith, a.is_visited, le), a.changed)
      ]

  -- In a zone of fixed offset, a schedule whose times differ always announces its next transition,
  -- at most a day from now.
  pub next_schedule_transition_found :
      (start stop now : ℕ)
      → start < 1440
      → stop < 1440
      → start ≢ stop
      → let enabled = scheduled_enabled lang zone start stop in
        (t : ℕ) × (next_schedule_transition lang zone start stop now (enabled now) ≡ some t)
        × (now < t)
        × (t ≤ now + 1440 * minute_us)
        × (enabled t ≡ not (enabled now))
  unfolding next_minute
  next_schedule_transition_found start stop now a b different =
      let enabled = scheduled_enabled lang zone start stop in
      let goal = turn start stop (enabled now) in
      let (t, found, after, before, changed) =
        found_by_turn enabled (enabled now) (next_minute now) (wait (next_minute now) goal)
          (next_schedule_transition lang zone start stop now (enabled now))
          (wait-lt (next_minute now) goal)
          (changes_at_turn start stop (next_minute now) (enabled now) a b different)
          (scanned lang zone start stop now) in
      (
        t,
        found,
        omega (arith, after),
        omega (arith, before, wait-lt (next_minute now) goal),
        changed,
      )
