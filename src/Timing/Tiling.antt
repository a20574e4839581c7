-- ===== src/Timing/Tiling.antt =====
-- The periods of a ticket do not overlap, and no time is counted twice.
use ai_whats_app_shipment_as.Prelude.{
  All-append, ℕ, ◌+◌, ◌≤◌, String, ◌≡◌, Bool, true, false, Option, none, some, List, [], ◌∷◌, ◌++◌,
  arith, All, if◌then◌else◌,
}
use ai_whats_app_shipment_as.Timing.Periods.{
  Event, Kind, Reason, Active, Period, State, ended, closing, finish, start,
}
use ai_whats_app_shipment_as.Timing.Credit.{Credited, Backed, closing-Credited}

-- the end of a period, which is `as_of` where it is still open
abbrev pub end_of : ℕ → Period → ℕ
end_of as_of p = elim p.ended_at [ none ↦ as_of | some t ↦ t ]

-- Periods that follow one another between two instants, each as long as from its start to its end.
abbrev pub Tiled : ℕ → ℕ → List Period → ℕ → Type 0
Tiled as_of a [] b = a ≤ b
Tiled as_of a (p ∷ ps) b =
    (a ≤ p.started_at)
    × (p.seconds + p.started_at ≡ end_of as_of p)
    × Tiled as_of (end_of as_of p) ps b

abbrev pub total : List Period → ℕ
total [] = 0
total (p ∷ ps) = p.seconds + total ps

pub Tiled-total : (as_of a b : ℕ) (ps : List Period) → Tiled as_of a ps b → total ps + a ≤ b
Tiled-total as_of a b [] h = omega (arith, h)
Tiled-total as_of a b (p ∷ ps) h =
    omega (arith, h.0, h.1, Tiled-total as_of (end_of as_of p) b ps h.2)

pub Tiled-append :
    (as_of a b c : ℕ) (ps qs : List Period)
    → Tiled as_of a ps b
    → Tiled as_of b qs c
    → Tiled as_of a (ps ++ qs) c
Tiled-append as_of a b c [] [] h k = omega (arith, h, k)
Tiled-append as_of a b c [] (q ∷ qs) h k = (omega (arith, h, k.0), k.1, k.2)
Tiled-append as_of a b c (p ∷ ps) qs h k =
    (h.0, h.1, Tiled-append as_of (end_of as_of p) b c ps qs h.2 k)

-- where an open assignment stands: after the last end, and not after the present
abbrev pub Within : ℕ → ℕ → Option Active → Type 0
Within last t none = last ≤ t
Within last t (some a) = (last ≤ a.started_at) × (a.started_at ≤ t)

-- `events` is the audit that is replayed.
module _ (as_of from : ℕ) (events : List Event) where
  -- What holds after the events up to t.
  pub record Upto (t : ℕ) (s : State) : Type 0 where
    pub last : ℕ
    pub tiled : Tiled as_of from s.periods last
    pub within : Within last t s.active
    pub credited : All (Credited events) s.periods

  pub Upto-if : (t : ℕ) (b : Bool) (x y : State) → Upto t x → Upto t y → Upto t (if b then x else y)
  Upto-if t true x y h k = h
  Upto-if t false x y h k = k

  Within-later : (last t u : ℕ) (o : Option Active) → t ≤ u → Within last t o → Within last u o
  Within-later last t u none le h = omega (arith, h, le)
  Within-later last t u (some a) le h = (h.0, omega (arith, h.1, le))

  Within-le : (last t : ℕ) (o : Option Active) → Within last t o → last ≤ t
  Within-le last t none h = h
  Within-le last t (some a) h = omega (arith, h.0, h.1)

  pub Upto-later : (t u : ℕ) (s : State) → t ≤ u → Upto t s → Upto u s
  Upto-later t u s le h = record {
    last = h.last;
    tiled = h.tiled;
    within = Within-later h.last t u s.active le h.within;
    credited = h.credited;
  }

  closing-Tiled :
      (last at : ℕ) (reason : Reason) (resolver : Option String) (valid : Bool)
      (cycle_start : Option ℕ) (o : Option Active)
      → Within last at o
      → Tiled as_of last (closing at reason resolver valid cycle_start o) at
  unfolding ended
  closing-Tiled last at reason resolver valid cycle_start none h = h
  closing-Tiled last at reason resolver valid cycle_start (some a) h =
      (h.0, omega (arith, h.1), omega arith)

  pub finish-Upto :
      (at : ℕ) (reason : Reason) (resolver : Option String) (valid : Bool) (s : State)
      → Backed events at reason resolver
      → Upto at s
      → Upto at (finish at reason resolver valid s)
  unfolding finish
  finish-Upto at reason resolver valid s backed h = record {
    last = at;
    tiled =
        Tiled-append as_of from h.last at s.periods
          (closing at reason resolver valid s.cycle_start s.active) h.tiled
          (closing-Tiled h.last at reason resolver valid s.cycle_start s.active h.within);
    within = omega arith;
    credited =
        All-append (Credited events) s.periods
          (closing at reason resolver valid s.cycle_start s.active) h.credited
          (closing-Credited events at reason resolver valid s.cycle_start s.active backed);
  }

  pub start-Upto :
      (at : ℕ) (owner : String) (kind : Kind) (s : State)
      → Upto at s
      → Upto at (start at owner kind s)
  start-Upto at owner kind s h = record {
    last = h.last;
    tiled = h.tiled;
    within = (Within-le h.last at s.active h.within, omega arith);
    credited = h.credited;
  }
