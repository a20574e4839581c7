-- ===== src/RateLimit/Quota.antt =====
-- The quotas hold over every rolling window, for any sequence of turns.
use mathlib.Core.Path.{subst}
use mathlib.Core.List.{append-nil, append_assoc}
use ai_whats_app_shipment_as.Prelude.{
  ◌⊎◌, inl, inr, zero, suc, sym, ℕ, ◌+◌, ◌≤◌, ◌<◌, String, ◌≡◌, refl, Bool, true, false, ◌&&◌, none,
  List, [], ◌∷◌, ◌++◌, arith, count_if, count_if-append, count_if-le, ltb, leb, if◌then◌else◌,
  str_eq, eq_iff, Bool-cases, inl, inr,
}
use ai_whats_app_shipment_as.Prelude.Dict
use ai_whats_app_shipment_as.RateLimit.Memory.{
  Limits, Limiter, events_of, drop_expired, refusal, appended, is_recent, recent, consume_memory,
  minute_ms, hour_ms, day_ms,
}

-- The window (start, start + span].
abbrev pub in_window : ℕ → ℕ → ℕ → Bool
in_window start span t = ltb start t && leb t (start + span)

abbrev pub within : ℕ → ℕ → List ℕ → ℕ
within start span ts = count_if (in_window start span) ts

-- A turn: the clock, and the customer.
pub record Turn : Type 0 where
  pub at : ℕ
  pub key : String

unfoldable pub after : Limits → List Turn → Limiter → Limiter
after limits [] l = l
after limits (u ∷ us) l = after limits us (consume_memory limits u.at u.key l).0

-- The times at which turns of one customer were allowed.
unfoldable pub granted : Limits → String → List Turn → Limiter → List ℕ
granted limits key [] l = []
granted limits key (u ∷ us) l =
    let (l', decision) = consume_memory limits u.at u.key l in
    let rest = granted limits key us l' in
    if str_eq u.key key && decision.allowed then u.at ∷ rest else rest

-- The clock does not go back.
abbrev pub Ordered : ℕ → List Turn → Type 0
Ordered last [] = Unit
Ordered last (u ∷ us) = (last ≤ u.at) × Ordered u.at us

-- What has left the day lies in no window that the clock has not passed.
within-drop_expired :
    (now start span : ℕ) (ts : List ℕ)
    → now ≤ start + span
    → span ≤ day_ms
    → within start span (drop_expired now ts) ≡ within start span ts
unfolding drop_expired
within-drop_expired now start span [] h k = refl
within-drop_expired now start span (t ∷ ts) h k =
    ground (arith, within-drop_expired now start span ts h k)

within-le-recent :
    (now start span : ℕ) (ts : List ℕ)
    → now ≤ start + span
    → within start span ts ≤ recent now span ts
within-le-recent now start span [] h = omega arith
within-le-recent now start span (t ∷ ts) h = ground (arith, within-le-recent now start span ts h)

-- A quota that `refusal` enforces: at most `limit` turns in any window of `span`.
pub record Enforced (limits : Limits) (span limit : ℕ) : Type 0 where
  pub in_day : span ≤ day_ms
  pub tight :
      (now : ℕ) (customer global : List ℕ)
      → refusal limits now customer global ≡ none
      → recent now span customer < limit

module _ (limits : Limits) (span limit : ℕ) (q : Enforced limits span limit) (key : String) where
  -- The stored events cover what was granted, in every window that the clock has not passed.
  record Covers (last : ℕ) (old : List ℕ) (l : Limiter) : Type 0 where
    covers :
        (start : ℕ)
        → last ≤ start + span
        → within start span old ≤ within start span (events_of key l)
    bounded : (start : ℕ) → within start span old ≤ limit

  events_of-consume :
      (now : ℕ) (who : String) (l : Limiter)
      → events_of key (consume_memory limits now who l).0 ≡ (
          if str_eq who key
          then appended
              (consume_memory limits now who l).1.allowed
              now
              (drop_expired now (events_of who l))
          else events_of key l)
  unfolding consume_memory events_of
  events_of-consume now who l = ground (
    arith,
    Dict.get-put who key
        (appended (consume_memory limits now who l).1.allowed now
          (drop_expired now (events_of who l)))
        l.customer_events,
  )

  refusal_of_allowed :
      (now : ℕ) (who : String) (l : Limiter)
      → (consume_memory limits now who l).1.allowed ≡ true
      → refusal limits now (drop_expired now (events_of who l)) (drop_expired now l.global_events)
        ≡ none
  unfolding consume_memory
  refusal_of_allowed now who l a = ground arith

  within-snoc :
      (start t : ℕ) (ts : List ℕ)
      → within start span (ts ++ (t ∷ [])) ≡ within start span ts + within start span (t ∷ [])
  within-snoc start t ts = count_if-append (in_window start span) ts (t ∷ [])

  stored_grant :
      (now : ℕ) (l : Limiter)
      → (consume_memory limits now key l).1.allowed ≡ true
      → events_of key (consume_memory limits now key l).0
        ≡ drop_expired now (events_of key l) ++ (now ∷ [])
  stored_grant now l a = ground (arith, events_of-consume now key l, eq_iff key key)

  -- Every granted turn in a window that contains `now` is still stored, and was counted.
  room_before :
      (last now start : ℕ) (old : List ℕ) (l : Limiter)
      → last ≤ now
      → Covers last old l
      → (consume_memory limits now key l).1.allowed ≡ true
      → now ≤ start + span
      → within start span old < limit
  room_before last now start old l h c a fits = omega (
    arith,
    c.covers start (omega arith),
    within-drop_expired now start span (events_of key l) fits q.in_day,
    within-le-recent now start span (drop_expired now (events_of key l)) fits,
    q.tight now (drop_expired now (events_of key l)) (drop_expired now l.global_events)
        (refusal_of_allowed now key l a),
  )

  -- One allowed turn of the customer.
  Covers-grant :
      (last now : ℕ) (old : List ℕ) (l : Limiter)
      → last ≤ now
      → Covers last old l
      → (consume_memory limits now key l).1.allowed ≡ true
      → Covers now (old ++ (now ∷ [])) (consume_memory limits now key l).0
  Covers-grant last now old l h c a = record {
    covers = λ start fits. rw (stored_grant now l a) (
        omega (
          arith,
          within-snoc start now old,
          within-snoc start now (drop_expired now (events_of key l)),
          within-drop_expired now start span (events_of key l) fits q.in_day,
          c.covers start (omega arith),
        ));
    bounded = λ start. elim (Bool-cases (in_window start span now)) [
      | inl e ↦
          ground (
            arith,
            within-snoc start now old,
            room_before last now start old l h c a (ground arith),
          )
      | inr e ↦ ground (arith, within-snoc start now old, c.bounded start)
    ];
  }

  -- Any other turn: of another customer, or refused.
  Covers-other :
      (last now : ℕ) (who : String) (old : List ℕ) (l : Limiter)
      → last ≤ now
      → Covers last old l
      → (str_eq who key && (consume_memory limits now who l).1.allowed) ≡ false
      → Covers now old (consume_memory limits now who l).0
  Covers-other last now who old l h c a = record {
    covers = λ start fits. ground (
      arith,
      events_of-consume now who l,
      eq_iff who key,
      within-drop_expired now start span (events_of key l) fits q.in_day,
      c.covers start (omega arith),
    );
    bounded = c.bounded;
  }

  Covers-own :
      (last now : ℕ) (who : String) (old : List ℕ) (l : Limiter)
      → last ≤ now
      → Covers last old l
      → who ≡ key
      → (consume_memory limits now who l).1.allowed ≡ true
      → Covers now (old ++ (now ∷ [])) (consume_memory limits now who l).0
  Covers-own last now who old l h c e =
      subst
        (λ x.
          (consume_memory limits now x l).1.allowed ≡ true
          → Covers now (old ++ (now ∷ [])) (consume_memory limits now x l).0)
        (sym e) (Covers-grant last now old l h c)

  granted-bounded :
      (us : List Turn) (last : ℕ) (old : List ℕ) (l : Limiter)
      → Ordered last us
      → Covers last old l
      → (start : ℕ) → within start span (old ++ granted limits key us l) ≤ limit
  unfolding granted
  granted-bounded [] last old l h c start = rw append-nil (c.bounded start)
  granted-bounded (u ∷ us) last old l h c start =
      elim (Bool-cases (str_eq u.key key && (consume_memory limits u.at u.key l).1.allowed)) [
        | inl e ↦ rw e (
            rw
              (← append_assoc old (u.at ∷ [])
                (granted limits key us (consume_memory limits u.at u.key l).0))
              (granted-bounded us u.at (old ++ (u.at ∷ [])) (consume_memory limits u.at u.key l).0
                h.1
                (Covers-own last u.at u.key old l h.0 c ((eq_iff u.key key).0 (ground arith))
                  (ground arith))
                start))
        | inr e ↦ rw e (
            granted-bounded us u.at old (consume_memory limits u.at u.key l).0 h.1
              (Covers-other last u.at u.key old l h.0 c e) start)
      ]

abbrev pub fresh : Limiter
fresh = record { customer_events = []; global_events = []; notice_until = [] }

module _ (limits : Limits) where
  minute_quota : 0 < limits.per_minute → Enforced limits minute_ms limits.per_minute
  unfolding refusal
  minute_quota on = record { in_day = omega arith; tight = λ now customer global h. ground arith }

  hour_quota : 0 < limits.per_hour → Enforced limits hour_ms limits.per_hour
  unfolding refusal
  hour_quota on = record { in_day = omega arith; tight = λ now customer global h. ground arith }

  day_quota : 0 < limits.per_day → Enforced limits day_ms limits.per_day
  unfolding refusal
  day_quota on = record {
    in_day = omega arith;
    tight = λ now customer global h. ground (arith, count_if-le (is_recent now day_ms) customer);
  }

  -- If the clock does not go back, then over any sequence of turns of any customers, one customer
  -- is granted at most `limit` turns in every window of the quota's span, for each of the
  -- minute, hour and day quotas, unless that quota is off.
  pub rolling_quota :
      (key : String) (us : List Turn) (start : ℕ)
      → Ordered 0 us
      → ((limits.per_minute ≡ 0)
          ⊎ (within start minute_ms (granted limits key us fresh) ≤ limits.per_minute))
        × ((limits.per_hour ≡ 0)
            ⊎ (within start hour_ms (granted limits key us fresh) ≤ limits.per_hour))
        × ((limits.per_day ≡ 0)
            ⊎ (within start day_ms (granted limits key us fresh) ≤ limits.per_day))
  rolling_quota key us start h = (
    quota minute_ms limits.per_minute minute_quota,
    quota hour_ms limits.per_hour hour_quota,
    quota day_ms limits.per_day day_quota,
  )
    where
      quota :
          (span limit : ℕ)
          → (0 < limit → Enforced limits span limit)
          → (limit ≡ 0) ⊎ (within start span (granted limits key us fresh) ≤ limit)
      quota span zero q = inl refl
      quota span (suc n) q = inr (
          granted-bounded limits span (suc n) (q (omega arith)) key us 0 [] fresh h
            (record { covers = λ s f. omega arith; bounded = λ s. omega arith }) start)
