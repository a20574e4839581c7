-- ===== src/Prelude/Dict.antt =====
-- A Python dict with string keys, as an association list. The order of entries is never read.
use Prim.Native.String.{String}
use mathlib.Core.Path.{◌≡◌}
use mathlib.Core.Option.{Option, none, some}
use mathlib.Core.List.{List, [], ◌∷◌}
use native.Mathlib.Omega.{arith}
use text.Mathlib.Text.{◌==◌ as str_eq}
use text.Mathlib.TextEquality.{eq_iff}
use ai_whats_app_shipment_as.Prelude.Tests.{if◌then◌else◌}

abbrev pub Dict {ℓ} : Type ℓ → Type ℓ
Dict V = List (String × V)

module _ {ℓ} {V : Type ℓ} where
  -- d.get(key)
  unfoldable pub get : String → Dict V → Option V
  get key [] = none
  get key ((k, v) ∷ d) = if str_eq k key then some v else get key d

  -- d.pop(key, None), without the popped value
  unfoldable pub pop : String → Dict V → Dict V
  pop key [] = []
  pop key ((k, v) ∷ d) = let rest = pop key d in if str_eq k key then rest else (k, v) ∷ rest

  -- d[key] = value
  unfoldable pub put : String → V → Dict V → Dict V
  unfolding pop
  put key value d = (key, value) ∷ pop key d

  pub get-pop :
      (key other : String) (d : Dict V)
      → get other (pop key d) ≡ (if str_eq key other then none else get other d)
  unfolding get pop
  get-pop key other [] = ground arith
  get-pop key other ((k, v) ∷ d) =
      ground (arith, get-pop key other d, eq_iff k key, eq_iff k other, eq_iff key other)

  pub get-put :
      (key other : String) (value : V) (d : Dict V)
      → get other (put key value d) ≡ (if str_eq key other then some value else get other d)
  unfolding get put
  get-put key other value d = ground (arith, get-pop key other d, eq_iff key other)

pub ruleset dict_laws = (get-pop, get-put)
