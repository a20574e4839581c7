-- ===== src/Prelude/Decimal.antt =====
-- Numbers printed in decimal, and texts read as their code points.
use Prim.Native.Nat.{ℕ, zero, suc, ◌/◌, ◌%◌}
use Prim.Native.Char.{code}
use Prim.Native.String.{String, ◌++◌}
use mathlib.Core.Path.{◌≡◌, refl}
use mathlib.Core.List.{List, [], ◌∷◌}
use ai_whats_app_shipment_as.Prelude.Tests.{◌==◌, if◌then◌else◌}

-- The code points of a text.
abbrev pub codes : String → List ℕ
codes String.[] = []
codes (String.◌∷◌ c s) = code c ∷ codes s

digit_text : ℕ → String
digit_text zero = "0"
digit_text (suc zero) = "1"
digit_text (suc (suc zero)) = "2"
digit_text (suc (suc (suc zero))) = "3"
digit_text (suc (suc (suc (suc zero)))) = "4"
digit_text (suc (suc (suc (suc (suc zero))))) = "5"
digit_text (suc (suc (suc (suc (suc (suc zero)))))) = "6"
digit_text (suc (suc (suc (suc (suc (suc (suc zero))))))) = "7"
digit_text (suc (suc (suc (suc (suc (suc (suc (suc zero)))))))) = "8"
digit_text _ = "9"

decimal_fuel : ℕ → ℕ → String → String
unfolding digit_text
decimal_fuel zero n acc = acc
decimal_fuel (suc fuel) n acc =
    let text = digit_text (n % 10) ++ acc in
    let rest = decimal_fuel fuel (n / 10) text in if n / 10 == 0 then text else rest

-- str(n). A number n has at most n + 1 digits, so the fuel is enough.
unfoldable pub decimal : ℕ → String
unfolding decimal_fuel
decimal n = decimal_fuel (suc n) n ""

decimal-304 : decimal 304 ≡ "304"
unfolding decimal
decimal-304 = refl
