-- ===== src/Tickets/Rows.antt =====
-- How the rows of the ticket table count after a write.
use mathlib.Core.Path.{subst}
use ai_whats_app_shipment_as.Prelude.{
  ℕ, ◌+◌, ◌≤◌, ◌<◌, String, ◌≡◌, ◌∙◌, sym, ap, refl, Bool, true, false, Option, none, some, List,
  [], ◌∷◌, ◌++◌, arith, All, count_if, ◌==◌, str_eq, eq_iff, truthy, Bool-cases, inl, inr,
  if◌then◌else◌,
}
use ai_whats_app_shipment_as.Tickets.Model.{Ticket, text_of}
use ai_whats_app_shipment_as.Tickets.Table.{
  find_ticket, set_ticket, delete_ticket, has_key, key_taken,
}

abbrev pub one_if : Bool → ℕ
one_if b = if b then 1 else 0

abbrev pub with_id : ℕ → Ticket → Bool
with_id id t = t.id == id

pub find_ticket-id :
    (id : ℕ) (ts : List Ticket) (t : Ticket) → find_ticket id ts ≡ some t → t.id ≡ id
unfolding find_ticket
find_ticket-id id [] t e = cc
find_ticket-id id (x ∷ xs) t e = ground (arith, find_ticket-id id xs t)

-- Replacing a row changes the count of a test by that row only.
pub count_if-set_ticket :
    (p : Ticket → Bool) (id : ℕ) (t u : Ticket) (ts : List Ticket)
    → find_ticket id ts ≡ some t
    → count_if p (set_ticket id u ts) + one_if (p t) ≡ count_if p ts + one_if (p u)
unfolding find_ticket set_ticket
count_if-set_ticket p id t u [] e = cc
count_if-set_ticket p id t u (x ∷ xs) e = elim (Bool-cases (x.id == id)) [
  | inl same ↦ ground (arith, same)
  | inr other ↦ ground (arith, other, count_if-set_ticket p id t u xs)
]

pub count_if-delete_ticket :
    (p : Ticket → Bool) (id : ℕ) (ts : List Ticket)
    → count_if p (delete_ticket id ts) ≤ count_if p ts
unfolding delete_ticket
count_if-delete_ticket p id [] = omega arith
count_if-delete_ticket p id (x ∷ xs) = ground (arith, count_if-delete_ticket p id xs)

pub found_first :
    (x : Ticket) (xs : List Ticket) (id : ℕ) (t : Ticket)
    → (x.id == id) ≡ true
    → find_ticket id (x ∷ xs) ≡ some t
    → x ≡ t
unfolding find_ticket
found_first x xs id t b e = ground (arith, b)

module _ {ℓ} (P : Ticket → Type ℓ) where
  pub All-set_ticket :
      (id : ℕ) (u : Ticket) (ts : List Ticket) → P u → All P ts → All P (set_ticket id u ts)
  unfolding set_ticket
  All-set_ticket id u [] h k = k
  All-set_ticket id u (x ∷ xs) h k = elim (Bool-cases (x.id == id)) [
    | inl e ↦ rw e (h, k.1)
    | inr e ↦ rw e (k.0, All-set_ticket id u xs h k.1)
  ]

  pub All-delete_ticket : (id : ℕ) (ts : List Ticket) → All P ts → All P (delete_ticket id ts)
  unfolding delete_ticket
  All-delete_ticket id [] k = k
  All-delete_ticket id (x ∷ xs) k = elim (Bool-cases (x.id == id)) [
    | inl e ↦ rw e k.1
    | inr e ↦ rw e (k.0, All-delete_ticket id xs k.1)
  ]

  pub All-find_ticket :
      (id : ℕ) (ts : List Ticket) (t : Ticket) → find_ticket id ts ≡ some t → All P ts → P t
  unfolding find_ticket
  All-find_ticket id [] t e k = cc
  All-find_ticket id (x ∷ xs) t e k = elim (Bool-cases (x.id == id)) [
    | inl b ↦ subst P (found_first x xs id t b e) k.0
    | inr b ↦ All-find_ticket id xs t (ground (arith, b)) k.1
  ]

pub not_below :
    (next : ℕ) (ts : List Ticket) → All (λ t. t.id < next) ts → count_if (with_id next) ts ≡ 0
not_below next [] h = refl
not_below next (x ∷ xs) h = ground (arith, not_below next xs h.1, h.0)

-- A key that no other row has, once the row with the id is apart.
no_other_key :
    (key : String) (id : ℕ) (ts : List Ticket)
    → key_taken key id ts ≡ false
    → count_if (with_id id) ts ≡ 0
    → count_if (has_key key) ts ≡ 0
unfolding key_taken
no_other_key key id [] free e = refl
no_other_key key id (x ∷ xs) free e = ground (arith, no_other_key key id xs)

pub count_if-key_taken :
    (key : String) (id : ℕ) (t : Ticket) (ts : List Ticket)
    → key_taken key id ts ≡ false
    → count_if (with_id id) ts ≤ 1
    → find_ticket id ts ≡ some t
    → count_if (has_key key) ts ≤ one_if (has_key key t)
unfolding key_taken find_ticket
count_if-key_taken key id t [] free unique e = omega arith
count_if-key_taken key id t (x ∷ xs) free unique e = elim (Bool-cases (x.id == id)) [
  | inl same ↦ ground (arith, same, no_other_key key id xs)
  | inr other ↦ ground (arith, other, count_if-key_taken key id t xs)
]

-- Which row a lookup finds after a write.
pub find_ticket-set_ticket :
    (id k : ℕ) (t u : Ticket) (ts : List Ticket)
    → u.id ≡ id
    → find_ticket id ts ≡ some t
    → find_ticket k (set_ticket id u ts) ≡ (if id == k then some u else find_ticket k ts)
unfolding find_ticket set_ticket
find_ticket-set_ticket id k t u [] same found = cc
find_ticket-set_ticket id k t u (x ∷ xs) same found =
    ground (arith, find_ticket-set_ticket id k t u xs same)

pub find_ticket-delete_ticket :
    (id k : ℕ) (ts : List Ticket)
    → (id == k) ≡ false
    → find_ticket k (delete_ticket id ts) ≡ find_ticket k ts
unfolding find_ticket delete_ticket
find_ticket-delete_ticket id k [] other = refl
find_ticket-delete_ticket id k (x ∷ xs) other =
    ground (arith, find_ticket-delete_ticket id k xs other)

pub find_ticket-append :
    (next k : ℕ) (t : Ticket) (ts : List Ticket)
    → t.id ≡ next
    → All (λ x. x.id < next) ts
    → find_ticket k (ts ++ (t ∷ [])) ≡ (if next == k then some t else find_ticket k ts)
unfolding find_ticket
find_ticket-append next k t [] same h = ground (arith, same)
find_ticket-append next k t (x ∷ xs) same h =
    ground (arith, find_ticket-append next k t xs same h.1, h.0)

pub find_ticket-fresh :
    (next : ℕ) (ts : List Ticket) → All (λ x. x.id < next) ts → find_ticket next ts ≡ none
unfolding find_ticket
find_ticket-fresh next [] h = refl
find_ticket-fresh next (x ∷ xs) h = ground (arith, find_ticket-fresh next xs h.1, h.0)

pub find_ticket-rewritten :
    (id : ℕ) (t u : Ticket) (ts : List Ticket)
    → u.id ≡ t.id
    → find_ticket id ts ≡ some t
    → find_ticket id (set_ticket id u ts) ≡ some u
find_ticket-rewritten id t u ts same found =
    ground (arith, find_ticket-set_ticket id id t u ts (same ∙ find_ticket-id id ts t found) found)

pub find_ticket-last :
    (next : ℕ) (t : Ticket) (ts : List Ticket)
    → t.id ≡ next
    → All (λ x. x.id < next) ts
    → find_ticket next (ts ++ (t ∷ [])) ≡ some t
find_ticket-last next t ts same h = ground (arith, find_ticket-append next next t ts same h)

pub text_of-some :
    (o : Option String) (a : String)
    → truthy (some a) ≡ true
    → str_eq (text_of o) a ≡ true
    → o ≡ some a
text_of-some none a n e = ground (arith, n, (eq_iff a "").1 (sym ((eq_iff "" a).0 e)))
text_of-some (some b) a n e = ap some ((eq_iff b a).0 e)

find_ticket-none :
    (id : ℕ) (ts : List Ticket) → count_if (with_id id) ts ≡ 0 → find_ticket id ts ≡ none
unfolding find_ticket
find_ticket-none id [] e = refl
find_ticket-none id (x ∷ xs) e = ground (arith, find_ticket-none id xs)

pub find_ticket-deleted :
    (id : ℕ) (ts : List Ticket)
    → count_if (with_id id) ts ≤ 1
    → find_ticket id (delete_ticket id ts) ≡ none
unfolding find_ticket delete_ticket
find_ticket-deleted id [] few = refl
find_ticket-deleted id (x ∷ xs) few =
    ground (arith, find_ticket-none id xs, find_ticket-deleted id xs)
