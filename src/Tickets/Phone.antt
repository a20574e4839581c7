-- ===== src/Tickets/Phone.antt =====
-- normalize_phone of app/customer_directory.py.
use Prim.Native.Char.{code}
use Prim.Native.String.{String, ◌∷◌, []}
use ai_whats_app_shipment_as.Prelude.{ℕ, Bool, ◌≡◌, refl, ltb, ◌&&◌, not, ◌==◌, if◌then◌else◌}

-- _PHONE_NON_DIGIT.sub("", value); `is_digit` is the class \d on code points
unfoldable pub only_digits : (ℕ → Bool) → String → String
only_digits is_digit [] = []
only_digits is_digit (c ∷ s) =
    let rest = only_digits is_digit s in if is_digit (code c) then c ∷ rest else rest

abbrev is_zero : ℕ → Bool
is_zero c = c == 48

abbrev without_zeros : String → String
without_zeros [] = []
without_zeros (c ∷ []) = c ∷ []
without_zeros (c ∷ (d ∷ s)) = if is_zero (code c) && is_zero (code d) then s else c ∷ (d ∷ s)

unfoldable pub normalize_phone : (ℕ → Bool) → String → String
normalize_phone is_digit value = without_zeros (only_digits is_digit value)

abbrev ascii_digit : ℕ → Bool
ascii_digit c = not (ltb c 48) && ltb c 58

international : normalize_phone ascii_digit "00961 70-123" ≡ "96170123"
unfolding normalize_phone only_digits
international = refl
