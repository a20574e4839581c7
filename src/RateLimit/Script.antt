-- ===== src/RateLimit/Script.antt =====
-- _CONSUME_SCRIPT of app/ai_rate_limit.py, the Lua script that Redis runs in one step. A sorted
-- set is the list of its scores: every member is new, so ZADD adds one score. The keys expire a
-- minute after their newest score has left the day, which removes nothing that the script would
-- still count.
use ai_whats_app_shipment_as.Prelude.{
  ℕ, suc, ◌+◌, Bool, true, false, ◌&&◌, List, [], ◌∷◌, ◌++◌, length, count_if, ltb, leb,
  if◌then◌else◌,
}
use ai_whats_app_shipment_as.RateLimit.Memory.{Limits, Answer, reply, minute_ms, hour_ms, day_ms}

-- ZREMRANGEBYSCORE key -inf now - day
unfoldable pub remove_expired : ℕ → List ℕ → List ℕ
remove_expired now [] = []
remove_expired now (t ∷ ts) =
    let rest = remove_expired now ts in if leb (t + day_ms) now then rest else t ∷ rest

-- ZCOUNT key now - span +inf
abbrev pub zcount : ℕ → ℕ → List ℕ → ℕ
zcount now span = count_if (λ t. leb now (t + span))

pub record Sets : Type 0 where
  pub customer : List ℕ
  pub global : List ℕ

verdict : Limits → ℕ → List ℕ → List ℕ → Answer
verdict limits now customer global =
    if ltb 0 limits.per_minute && leb limits.per_minute (zcount now minute_ms customer)
    then reply 0 1
    else if ltb 0 limits.per_hour && leb limits.per_hour (zcount now hour_ms customer)
    then reply 0 2
    else if ltb 0 limits.per_day && leb limits.per_day (length customer)
    then reply 0 3
    else if ltb 0 limits.global_per_day && leb limits.global_per_day (length global)
    then reply 0 4
    else reply 1 0

abbrev is_yes : Answer → Bool
is_yes (reply (suc _) _) = true
is_yes _ = false

abbrev zadd : Bool → ℕ → List ℕ → List ℕ
zadd true now scores = scores ++ (now ∷ [])
zadd false now scores = scores

unfoldable pub consume_script : Limits → ℕ → Sets → Sets × Answer
unfolding verdict
consume_script limits now sets =
    let customer = remove_expired now sets.customer in
    let global =
      if ltb 0 limits.global_per_day then remove_expired now sets.global else sets.global in
    let answer = verdict limits now customer global in
    (
      record {
        customer = zadd (is_yes answer) now customer;
        global = zadd (is_yes answer && ltb 0 limits.global_per_day) now global;
      },
      answer,
    )
