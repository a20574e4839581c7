-- ===== src/Store/Exclusive.antt =====
-- What a claim excludes, over any sequence of calls of any number of workers.
use ai_whats_app_shipment_as.Prelude.{
  ℕ, ◌+◌, ◌≢◌, String, ◌≡◌, refl, Bool, true, false, not, ap, ◌&&◌, ◌⊎◌, Option, none, some, List,
  [], ◌∷◌, arith, max, str_eq, eq_iff, is_some, if◌then◌else◌,
}
use ai_whats_app_shipment_as.Prelude.Dict
use ai_whats_app_shipment_as.Store.Guards.{
  Claim, Claims, at, never, processing, completed, is_live, holds_live, owned_by, claim, complete,
  release, refresh, pin,
}

pub data Call : Type 0 where
  claiming : ℕ → ℕ → String → String → Call
  completing : ℕ → ℕ → String → String → Call
  releasing : ℕ → String → String → Call
  refreshing : ℕ → ℕ → String → String → Call
  pinning : ℕ → String → String → Call

unfoldable pub perform : Call → Claims → Claims
perform (claiming ttl now token key) d = (claim ttl now token key d).0
perform (completing ttl now token key) d = complete ttl now token key d
perform (releasing now token key) d = release token key d
perform (refreshing ttl now token key) d = (refresh ttl now token key d).0
perform (pinning now token key) d = pin token key d

abbrev pub one_if : Bool → ℕ
one_if true = 1
one_if false = 0

-- A call that gives a worker the claim on `key`.
unfoldable pub wins_now : String → Call → Claims → ℕ
wins_now key (claiming ttl now token k) d =
    one_if (str_eq k key && is_some (claim ttl now token k d).1)
wins_now key _ d = 0

unfoldable pub wins : String → List Call → Claims → ℕ
wins key [] d = 0
wins key (c ∷ cs) d = wins_now key c d + wins key cs (perform c d)

-- A call by which the owner gives the claim on `key` back.
unfoldable pub gives_back_now : String → Call → Claims → ℕ
gives_back_now key (releasing now token k) d =
    one_if (str_eq k key && owned_by token (Dict.get k d))
gives_back_now key _ d = 0

unfoldable pub gives_back : String → List Call → Claims → ℕ
gives_back key [] d = 0
gives_back key (c ∷ cs) d = gives_back_now key c d + gives_back key cs (perform c d)

unfoldable pub run : List Call → Claims → Claims
run [] d = d
run (c ∷ cs) d = run cs (perform c d)

abbrev pub clock_of : Call → ℕ
clock_of (claiming ttl now token key) = now
clock_of (completing ttl now token key) = now
clock_of (releasing now token key) = now
clock_of (refreshing ttl now token key) = now
clock_of (pinning now token key) = now

abbrev token_of : Call → Option String
token_of (claiming ttl now token key) = none
token_of (completing ttl now token key) = some token
token_of (releasing now token key) = some token
token_of (refreshing ttl now token key) = some token
token_of (pinning now token key) = some token

-- Calls of others, while the claim c has not expired.
abbrev pub Foreign : Claim → List Call → Type 0
Foreign c [] = Unit
Foreign c (x ∷ xs) =
    (is_live (clock_of x) c.expires_at ≡ true)
    × ((c.state ≡ completed) ⊎ (token_of x ≢ some c.token))
    × Foreign c xs

-- Each call as a read of `key` sees it.
module _ (key k token : String) (d : Claims) where
  pub get-claim :
      (ttl now : ℕ)
      → Dict.get key (claim ttl now token k d).0 ≡ (
          if str_eq k key && not (holds_live now (Dict.get k d))
          then some
              (record { state = processing; token = token; expires_at = at (now + max 1 ttl) })
          else Dict.get key d)
  unfolding claim
  get-claim ttl now = ground (
    arith,
    Dict.get-put k key
        (record { state = processing; token = token; expires_at = at (now + max 1 ttl) }) d,
  )

  pub get-complete :
      (ttl now : ℕ)
      → Dict.get key (complete ttl now token k d) ≡ (
          if str_eq k key && owned_by token (Dict.get k d)
          then some (record { state = completed; token = ""; expires_at = at (now + ttl) })
          else Dict.get key d)
  unfolding complete
  get-complete ttl now = ground (
    arith,
    Dict.get-put k key (record { state = completed; token = ""; expires_at = at (now + ttl) }) d,
  )

  pub get-release :
      Dict.get key (release token k d)
      ≡ (if str_eq k key && owned_by token (Dict.get k d) then none else Dict.get key d)
  unfolding release
  get-release = ground (arith, Dict.get-pop k key d)

  pub get-refresh :
      (ttl now : ℕ)
      → Dict.get key (refresh ttl now token k d).0 ≡ (
          if str_eq k key && owned_by token (Dict.get k d)
          then some (record { state = processing; token = token; expires_at = at (now + ttl) })
          else Dict.get key d)
  unfolding refresh
  get-refresh ttl now = ground (
    arith,
    Dict.get-put k key (record { state = processing; token = token; expires_at = at (now + ttl) })
        d,
  )

  pub get-pin : Dict.get key (pin token k d) ≡ (
      if str_eq k key && owned_by token (Dict.get k d)
      then some (record { state = processing; token = token; expires_at = never })
      else Dict.get key d)
  unfolding pin
  get-pin = ground (
    arith,
    Dict.get-put k key (record { state = processing; token = token; expires_at = never }) d,
  )

  pub same_key : str_eq k key ≡ true → Dict.get k d ≡ Dict.get key d
  same_key e = ap (λ x. Dict.get x d) ((eq_iff k key).0 e)

not_owner :
    (c : Claim) (token : String)
    → (c.state ≡ completed) ⊎ (some token ≢ some c.token)
    → owned_by token (some c) ≡ false
not_owner c token other = ground (arith, eq_iff c.token token)

module _ (key : String) (c : Claim) where
  unmoved :
      (x : Call) (d : Claims)
      → Dict.get key d ≡ some c
      → is_live (clock_of x) c.expires_at ≡ true
      → (c.state ≡ completed) ⊎ (token_of x ≢ some c.token)
      → (wins_now key x d ≡ 0) × (Dict.get key (perform x d) ≡ some c)
  unfolding wins_now perform
  unmoved (claiming ttl now token k) d h live other = (
    unfold claim in ground (arith, same_key key k token d),
    ground (arith, get-claim key k token d ttl now, same_key key k token d),
  )
  unmoved (completing ttl now token k) d h live other = (
    refl,
    ground (
      arith,
      get-complete key k token d ttl now,
      same_key key k token d,
      not_owner c token other,
    ),
  )
  unmoved (releasing now token k) d h live other = (
    refl,
    ground (arith, get-release key k token d, same_key key k token d, not_owner c token other),
  )
  unmoved (refreshing ttl now token k) d h live other = (
    refl,
    ground
        (arith, get-refresh key k token d ttl now, same_key key k token d, not_owner c token other),
  )
  unmoved (pinning now token k) d h live other =
      (refl, ground (arith, get-pin key k token d, same_key key k token d, not_owner c token other))

  -- While a claim on a key has not expired, calls that do not hold its token win nothing and
  -- change nothing: another worker can neither take, complete, release nor prolong it. A completed
  -- claim stands against every call.
  pub live_claim_stands :
      (xs : List Call) (d : Claims)
      → Dict.get key d ≡ some c
      → Foreign c xs
      → (wins key xs d ≡ 0) × (Dict.get key (run xs d) ≡ some c)
  unfolding wins run
  live_claim_stands [] d h f = (refl, h)
  live_claim_stands (x ∷ xs) d h f =
      let (lost, same) = unmoved x d h f.0 f.1 in
      let (rest, stands) = live_claim_stands xs (perform x d) same f.2 in (omega arith, stands)
