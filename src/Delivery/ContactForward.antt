-- ===== src/Delivery/ContactForward.antt =====
-- The capability that a forwarded contact carries in its client message id: the pattern
-- 'contact-forward:<ticket>:<message>:_%' of the claim and begin statements.
use Prim.Native.String.{◌++◌ as text_append}
use ai_whats_app_shipment_as.Prelude.{
  ℕ, suc, String, ◌≡◌, refl, Bool, true, false, Option, none, some, List, [], ◌∷◌, ◌==◌,
  if◌then◌else◌, codes, decimal,
}

-- What follows a prefix, if it is one.
unfoldable pub after_prefix : List ℕ → List ℕ → Option (List ℕ)
after_prefix [] text = some text
after_prefix (p ∷ prefix) [] = none
after_prefix (p ∷ prefix) (c ∷ text) = if p == c then after_prefix prefix text else none

-- the pattern's `_%`: one character at least
abbrev pub is_tail : Option (List ℕ) → Bool
is_tail (some (_ ∷ _)) = true
is_tail _ = false

abbrev pub forward_prefix : ℕ → ℕ → List ℕ
forward_prefix ticket message = codes (
    text_append "contact-forward:"
      (text_append (decimal ticket) (text_append ":" (text_append (decimal message) ":"))))

unfoldable pub is_contact_forward : Option String → Option ℕ → Option ℕ → Bool
unfolding after_prefix decimal
is_contact_forward (some client_id) (some (suc t)) (some (suc m)) =
    is_tail (after_prefix (forward_prefix (suc t) (suc m)) (codes client_id))
is_contact_forward _ _ _ = false

forwarded : is_contact_forward (some "contact-forward:12:7:x") (some 12) (some 7) ≡ true
unfolding is_contact_forward
forwarded = refl

other_message : is_contact_forward (some "contact-forward:12:70:x") (some 12) (some 7) ≡ false
unfolding is_contact_forward
other_message = refl
