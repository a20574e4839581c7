-- ===== src/RateLimit/Memory.antt =====
-- AIUsageRateLimiter of app/ai_rate_limit.py: its limits, and the quotas that it keeps in memory.
-- The clock reads milliseconds. A test such as `item > now - 60` is written with the sum on the
-- other side, since subtraction on ℕ stops at 0.
use ai_whats_app_shipment_as.Prelude.{
  ℕ, ◌+◌, ◌*◌, String, Bool, true, false, not, ◌&&◌, ◌||◌, Option, none, some, List, [], ◌∷◌, ◌++◌,
  length, count_if, ltb, leb, if◌then◌else◌,
}
use ai_whats_app_shipment_as.Prelude.Dict
use ai_whats_app_shipment_as.Prelude.Dict.{Dict}

abbrev pub minute_ms : ℕ
minute_ms = 60 * 1000

abbrev pub hour_ms : ℕ
hour_ms = 60 * 60 * 1000

abbrev pub day_ms : ℕ
day_ms = 24 * 60 * 60 * 1000

-- A limit of 0 is off; the constructor's max(0, …) makes every limit a natural number.
pub record Limits : Type 0 where
  pub per_minute : ℕ
  pub per_hour : ℕ
  pub per_day : ℕ
  pub global_per_day : ℕ
  pub notice_cooldown : ℕ
  pub fail_closed : Bool

pub data Scope : Type 0 where
  customer_minute customer_hour customer_day global_day limiter_unavailable unknown : Scope

pub record Decision : Type 0 where
  pub allowed : Bool
  pub scope : Option Scope

abbrev pub allow : Decision
allow = record { allowed = true; scope = none }

abbrev pub refuse : Scope → Decision
refuse s = record { allowed = false; scope = some s }

-- _customer_events, _global_events and _notice_until
pub record Limiter : Type 0 where
  pub customer_events : Dict (List ℕ)
  pub global_events : List ℕ
  pub notice_until : Dict ℕ

abbrev or_empty : Option (List ℕ) → List ℕ
or_empty none = []
or_empty (some events) = events

-- self._customer_events[key] of a defaultdict
unfoldable pub events_of : String → Limiter → List ℕ
events_of key l = or_empty (Dict.get key l.customer_events)

-- while events and events[0] <= now - day: events.popleft()
unfoldable pub drop_expired : ℕ → List ℕ → List ℕ
drop_expired now [] = []
drop_expired now (t ∷ ts) =
    let rest = drop_expired now ts in if leb (t + day_ms) now then rest else t ∷ ts

-- item > now - span
abbrev pub is_recent : ℕ → ℕ → ℕ → Bool
is_recent now span t = ltb now (t + span)

-- sum(1 for item in events if item > now - span)
abbrev pub recent : ℕ → ℕ → List ℕ → ℕ
recent now span events = count_if (is_recent now span) events

-- The limits that are on and used up, in the order of the tests.
unfoldable pub refusal : Limits → ℕ → List ℕ → List ℕ → Option Scope
refusal limits now customer global =
    if ltb 0 limits.per_minute && leb limits.per_minute (recent now minute_ms customer)
    then some Scope.customer_minute
    else if ltb 0 limits.per_hour && leb limits.per_hour (recent now hour_ms customer)
    then some Scope.customer_hour
    else if ltb 0 limits.per_day && leb limits.per_day (length customer)
    then some Scope.customer_day
    else if ltb 0 limits.global_per_day && leb limits.global_per_day (length global)
    then some Scope.global_day
    else none

abbrev decide : Option Scope → Decision
decide none = allow
decide (some s) = refuse s

-- the events after the decision
abbrev pub appended : Bool → ℕ → List ℕ → List ℕ
appended true now events = events ++ (now ∷ [])
appended false now events = events

-- _consume_memory, under its lock
unfoldable pub consume_memory : Limits → ℕ → String → Limiter → Limiter × Decision
consume_memory limits now key l =
    let customer = drop_expired now (events_of key l) in
    let global = drop_expired now l.global_events in
    let decision = decide (refusal limits now customer global) in
    (
      record l {
        customer_events = Dict.put key (appended decision.allowed now customer) l.customer_events;
        global_events = appended (decision.allowed && ltb 0 limits.global_per_day) now global;
      },
      decision,
    )

-- What the Redis script's call comes back with.
pub data Answer : Type 0 where
  failed : Answer
  malformed : Answer
  reply : ℕ → ℕ → Answer

unfoldable pub scope_of : ℕ → Scope
scope_of code =
    if ltb 0 code && leb code 4
    then (if leb code 1
        then Scope.customer_minute
        else if leb code 2
        then Scope.customer_hour
        else if leb code 3
        then Scope.customer_day
        else Scope.global_day)
    else Scope.unknown

unfoldable pub redis_decision : Limits → Answer → Decision
unfolding scope_of
redis_decision limits (reply allowed code) = if ltb 0 allowed then allow else refuse (scope_of code)
redis_decision limits _ = record {
  allowed = not limits.fail_closed;
  scope = some Scope.limiter_unavailable;
}

-- _enabled
unfoldable pub enabled : Limits → Bool
enabled limits =
    ltb 0 limits.per_minute
    || ltb 0 limits.per_hour
    || ltb 0 limits.per_day
    || ltb 0 limits.global_per_day

-- consume: `redis` is the answer of the script, where a Redis client is configured.
unfoldable pub consume : Bool → Option Answer → Limits → ℕ → String → Limiter → Limiter × Decision
unfolding redis_decision
consume switched_on redis limits now key l =
    if not (switched_on && enabled limits) then (l, allow) else elim redis [
      | none ↦ consume_memory limits now key l
      | some answer ↦ (l, redis_decision limits answer)
    ]

abbrev until_of : Option ℕ → ℕ
until_of none = 0
until_of (some t) = t

-- claim_notice without Redis
unfoldable pub claim_notice : Limits → ℕ → String → Limiter → Limiter × Bool
claim_notice limits now key l =
    if ltb now (until_of (Dict.get key l.notice_until)) then (l, false) else (
      record l { notice_until = Dict.put key (now + limits.notice_cooldown) l.notice_until },
      true,
    )
