-- ===== src/Store/OneWorker.antt =====
-- At most one worker handles a message within a claim's lifetime.
use ai_whats_app_shipment_as.Prelude.{
  ℕ, ◌+◌, ◌≤◌, ◌<◌, String, true, Option, none, some, List, [], ◌∷◌, arith, All, max, leb,
}
use ai_whats_app_shipment_as.Prelude.Dict
use ai_whats_app_shipment_as.Store.Guards.{Claim, Claims, at, never, claim}
use ai_whats_app_shipment_as.Store.Exclusive.{
  Call, claiming, completing, releasing, refreshing, pinning, perform, one_if, wins_now, wins,
  gives_back_now, gives_back, get-claim, get-complete, get-release, get-refresh, get-pin, same_key,
}

-- Whether a claim outlives the horizon.
abbrev outlives : ℕ → Option Claim → ℕ
outlives horizon none = 0
outlives horizon (some c) = one_if (elim c.expires_at [ at t ↦ leb horizon t | never ↦ true ])

-- Calls made before the horizon, with TTLs that reach it.
abbrev pub Reaches : ℕ → Call → Type 0
Reaches horizon (claiming ttl now token key) = (now < horizon) × (horizon ≤ now + max 1 ttl)
Reaches horizon (completing ttl now token key) = (now < horizon) × (horizon ≤ now + ttl)
Reaches horizon (refreshing ttl now token key) = (now < horizon) × (horizon ≤ now + ttl)
Reaches horizon (releasing now token key) = now < horizon
Reaches horizon (pinning now token key) = now < horizon

module _ (horizon : ℕ) (key : String) where
  step :
      (x : Call) (d : Claims)
      → Reaches horizon x
      → wins_now key x d + outlives horizon (Dict.get key d)
        ≤ gives_back_now key x d + outlives horizon (Dict.get key (perform x d))
  unfolding wins_now gives_back_now perform
  step (claiming ttl now token k) d h =
      unfold claim in ground (arith, get-claim key k token d ttl now, same_key key k token d)
  step (completing ttl now token k) d h =
      ground (arith, get-complete key k token d ttl now, same_key key k token d)
  step (releasing now token k) d h =
      ground (arith, get-release key k token d, same_key key k token d)
  step (refreshing ttl now token k) d h =
      ground (arith, get-refresh key k token d ttl now, same_key key k token d)
  step (pinning now token k) d h = ground (arith, get-pin key k token d, same_key key k token d)

  outlives-le-one : (o : Option Claim) → outlives horizon o ≤ 1
  outlives-le-one none = omega arith
  outlives-le-one (some c) = ground arith

  steps :
      (xs : List Call) (d : Claims)
      → All (Reaches horizon) xs
      → wins key xs d + outlives horizon (Dict.get key d) ≤ gives_back key xs d + 1
  unfolding wins gives_back
  steps [] d h = omega (arith, outlives-le-one (Dict.get key d))
  steps (x ∷ xs) d h = omega (arith, step x d h.0, steps xs (perform x d) h.1)

-- For any calls of any number of workers within one claim lifetime (before a horizon that every
-- TTL reaches), a message is claimed at most once more than its claim was given back by its owner.
-- Completing, refreshing and queueing never open it to another worker.
pub wins-le-gives_back :
    (horizon : ℕ) (key : String) (xs : List Call) (d : Claims)
    → All (Reaches horizon) xs
    → wins key xs d ≤ gives_back key xs d + 1
wins-le-gives_back horizon key xs d h = omega (arith, steps horizon key xs d h)
