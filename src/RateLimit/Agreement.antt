-- ===== src/RateLimit/Agreement.antt =====
-- The Redis script and the memory fallback decide alike.
use ai_whats_app_shipment_as.Prelude.{
  ℕ, ◌+◌, ◌≤◌, ◌<◌, ◌≢◌, String, ◌≡◌, refl, ap, true, List, [], ◌∷◌, arith, All, leb, Bool-cases,
  inl, inr,
}
use ai_whats_app_shipment_as.RateLimit.Memory.{
  Limits, Limiter, events_of, drop_expired, refusal, recent, consume_memory, redis_decision,
  minute_ms, hour_ms, day_ms,
}
use ai_whats_app_shipment_as.RateLimit.Script.{Sets, remove_expired, zcount, consume_script}

-- Events in the order of a clock that did not go back.
abbrev pub Ascending : List ℕ → Type 0
Ascending [] = Unit
Ascending (t ∷ ts) = All (λ u. t ≤ u) ts × Ascending ts

-- No event is exactly as old as the span.
abbrev pub OffBoundary : ℕ → ℕ → List ℕ → Type 0
OffBoundary now span = All (λ t. t + span ≢ now)

remove_none :
    (now t : ℕ) (ts : List ℕ) → now < t + day_ms → All (λ u. t ≤ u) ts → remove_expired now ts ≡ ts
unfolding remove_expired
remove_none now t [] h a = refl
remove_none now t (u ∷ us) h a = ground (arith, remove_none now t us h a.1)

-- A sorted set loses the same events as a deque that is in order.
remove_expired-eq-drop_expired :
    (now : ℕ) (ts : List ℕ) → Ascending ts → remove_expired now ts ≡ drop_expired now ts
unfolding remove_expired drop_expired
remove_expired-eq-drop_expired now [] a = refl
remove_expired-eq-drop_expired now (t ∷ ts) a = elim (Bool-cases (leb (t + day_ms) now)) [
  | inl e ↦ rw e (remove_expired-eq-drop_expired now ts a.1)
  | inr e ↦ rw e (ap (λ r. t ∷ r) (remove_none now t ts (ground arith) a.0))
]

recent-le-zcount : (now span : ℕ) (ts : List ℕ) → recent now span ts ≤ zcount now span ts
recent-le-zcount now span [] = omega arith
recent-le-zcount now span (t ∷ ts) = ground (arith, recent-le-zcount now span ts)

recent-eq-zcount :
    (now span : ℕ) (ts : List ℕ) → OffBoundary now span ts → recent now span ts ≡ zcount now span ts
recent-eq-zcount now span [] off = refl
recent-eq-zcount now span (t ∷ ts) off = ground (arith, recent-eq-zcount now span ts off.1, off.0)

OffBoundary-drop_expired :
    (now span : ℕ) (ts : List ℕ)
    → OffBoundary now span ts
    → OffBoundary now span (drop_expired now ts)
unfolding drop_expired
OffBoundary-drop_expired now span [] off = off
OffBoundary-drop_expired now span (t ∷ ts) off = elim (Bool-cases (leb (t + day_ms) now)) [
  | inl e ↦ rw e (OffBoundary-drop_expired now span ts off.1)
  | inr e ↦ rw e off
]

abbrev pub sets_of : String → Limiter → Sets
sets_of key l = record { customer = events_of key l; global = l.global_events }

module _ (limits : Limits) (now : ℕ) (key : String) (l : Limiter) where
  abbrev customer : List ℕ
  customer = drop_expired now (events_of key l)

  abbrev global : List ℕ
  global = drop_expired now l.global_events

  abbrev InOrder : Type 0
  InOrder = Ascending (events_of key l) × Ascending l.global_events

  -- If both lists are in the order of the clock, and no event of the customer is exactly a minute
  -- or an hour old, the script and the memory fallback come to the same decision on them.
  pub script_agrees :
      InOrder
      → OffBoundary now minute_ms (events_of key l)
      → OffBoundary now hour_ms (events_of key l)
      → redis_decision limits (consume_script limits now (sets_of key l)).1
        ≡ (consume_memory limits now key l).1
  unfolding consume_script consume_memory redis_decision refusal
  script_agrees (mine, all) minute hour = ground (
    arith,
    remove_expired-eq-drop_expired now (events_of key l) mine,
    remove_expired-eq-drop_expired now l.global_events all,
    recent-eq-zcount now minute_ms customer
        (OffBoundary-drop_expired now minute_ms (events_of key l) minute),
    recent-eq-zcount now hour_ms customer
        (OffBoundary-drop_expired now hour_ms (events_of key l) hour),
  )

  -- If both lists are in the order of the clock, a turn that the script allows is one that the
  -- memory fallback allows on the same events, also at the exact boundaries of the windows.
  pub script_no_laxer :
      InOrder
      → (redis_decision limits (consume_script limits now (sets_of key l)).1).allowed ≡ true
      → (consume_memory limits now key l).1.allowed ≡ true
  unfolding consume_script consume_memory redis_decision refusal
  script_no_laxer (mine, all) h = ground (
    arith,
    remove_expired-eq-drop_expired now (events_of key l) mine,
    remove_expired-eq-drop_expired now l.global_events all,
    recent-le-zcount now minute_ms customer,
    recent-le-zcount now hour_ms customer,
    h,
  )
