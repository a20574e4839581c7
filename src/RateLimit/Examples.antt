-- ===== src/RateLimit/Examples.antt =====
-- The rate limiters at concrete turns.
use ai_whats_app_shipment_as.Prelude.{◌⊎◌, ◌≤◌, ◌≡◌, refl, true, List, [], ◌∷◌, arith}
use ai_whats_app_shipment_as.Prelude.Dict
use ai_whats_app_shipment_as.RateLimit.Memory.{
  Limits, Limiter, events_of, drop_expired, refusal, consume_memory, redis_decision, minute_ms,
  hour_ms, day_ms,
}
use ai_whats_app_shipment_as.RateLimit.Script.{consume_script, remove_expired}
use ai_whats_app_shipment_as.RateLimit.Quota.{Turn, granted, within, fresh, rolling_quota}
use ai_whats_app_shipment_as.RateLimit.Agreement.{sets_of, script_agrees, script_no_laxer}

abbrev limits : Limits
limits = record {
  per_minute = 2;
  per_hour = 5;
  per_day = 9;
  global_per_day = 0;
  notice_cooldown = 1000;
  fail_closed = true;
}

-- Three turns within a minute, and a fourth a minute after the first.
abbrev turns : List Turn
turns =
    record { at = 1000; key = "a" }
    ∷ record { at = 2000; key = "a" }
    ∷ record { at = 3000; key = "a" }
    ∷ record { at = 61000; key = "a" }
    ∷ []

granted-turns : granted limits "a" turns fresh ≡ 1000 ∷ 2000 ∷ 61000 ∷ []
unfolding granted consume_memory events_of drop_expired refusal Dict.get Dict.put
granted-turns = refl

rolling_quota_example :
    ((limits.per_minute ≡ 0) ⊎ (within 500 minute_ms (granted limits "a" turns fresh) ≤ 2))
    × ((limits.per_hour ≡ 0) ⊎ (within 500 hour_ms (granted limits "a" turns fresh) ≤ 5))
    × ((limits.per_day ≡ 0) ⊎ (within 500 day_ms (granted limits "a" turns fresh) ≤ 9))
rolling_quota_example = rolling_quota limits "a" turns 500 (omega arith)

abbrev stored : Limiter
stored = record {
  customer_events = ("a", 1000 ∷ 2000 ∷ []) ∷ [];
  global_events = [];
  notice_until = [];
}

script_agrees_example :
    redis_decision limits (consume_script limits 3000 (sets_of "a" stored)).1
    ≡ (consume_memory limits 3000 "a" stored).1
unfolding events_of Dict.get
script_agrees_example =
    script_agrees limits 3000 "a" stored (omega arith) (omega arith) (omega arith)

-- A minute after the second turn the script has room for one more.
script_no_laxer_example : (consume_memory limits 62001 "a" stored).1.allowed ≡ true
unfolding events_of Dict.get consume_script redis_decision remove_expired
script_no_laxer_example = script_no_laxer limits 62001 "a" stored (omega arith) refl
