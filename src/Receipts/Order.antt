-- ===== src/Receipts/Order.antt =====
-- Callbacks of the provider come late, twice and in any order: what they leave on a message.
use ai_whats_app_shipment_as.Prelude.{
  ℕ, max, String, ◌≡◌, ◌∙◌, sym, ap, refl, Bool, true, false, ◌&&◌, Option, none, some, List, [],
  ◌∷◌, arith, inl, inr, Bool-cases, is_none, eq_sql, str_eq, eq_iff, ltb, if◌then◌else◌,
}
use ai_whats_app_shipment_as.Delivery.Message.{is_outbound}
use ai_whats_app_shipment_as.Delivery.Finish.{failure_policy}
use ai_whats_app_shipment_as.Receipts.Model.{
  Status, rank, rank_of, Row, Receipt, concerns, is_news, set_failed, set_status, judged, updated,
  is_outgoing, is_sent, apply_delivery_status, find_outgoing, run,
}

-- the rank that a receipt claims for the message
unfoldable pub claimed_rank : String → Row → Receipt → ℕ
claimed_rank id row r =
    if str_eq r.whatsapp_message_id id && concerns r row then rank_of r.status else 0

-- The highest rank that the receipts claim for a message.
unfoldable pub peak : String → Row → List (ℕ × Receipt) → ℕ
peak id row [] = 0
peak id row ((_, r) ∷ rs) = max (claimed_rank id row r) (peak id row rs)

-- A message with a delivery status counts as sent.
unfoldable pub Delivered : Row → Type 0
Delivered row = is_none row.delivery_status ≡ false → is_sent row.send_status ≡ true

-- What a receipt makes of the row that it is looked up for.
unfoldable met : ℕ → Receipt → String → Row → Row
met now r id row =
    if str_eq r.whatsapp_message_id id && concerns r row then (updated now r row).0 else row

-- The columns that no receipt writes.
record Same (a b : Row) : Type 0 where
  id : a.whatsapp_message_id ≡ b.whatsapp_message_id
  direction : a.direction ≡ b.direction
  line : a.ticket_line_id ≡ b.ticket_line_id
  phone : a.ticket_phone ≡ b.ticket_phone

if-row {ℓ} :
    (P : Row → Type ℓ) (b : Bool) (x y : Row × Bool)
    → (b ≡ true → P x.0)
    → (b ≡ false → P y.0)
    → P (if b then x else y).0
if-row P true x y h k = h refl
if-row P false x y h k = k refl

judged-rank :
    (now : ℕ) (status : Option Status) (code : Option ℕ) (at : ℕ) (row : Row)
    → rank_of (judged now status code at row).0.delivery_status
      ≡ max (rank_of row.delivery_status) (rank_of status)
unfolding judged set_failed set_status
judged-rank now none code at row =
    let policy = failure_policy code in
    if-row (λ x. rank_of x.delivery_status ≡ max (rank_of row.delivery_status) 0)
      (is_none row.delivery_status && is_news policy.0 policy.1 code row)
      (set_failed now policy.0 policy.1 row, true) (row, false) (λ _. omega arith)
      (λ _. omega arith)
judged-rank now (some status) code at row =
    if-row (λ x. rank_of x.delivery_status ≡ max (rank_of row.delivery_status) (rank status))
      (ltb (rank_of row.delivery_status) (rank status)) (set_status status at row, true)
      (row, false) (λ e. ground (arith, e)) (λ e. ground (arith, e))

judged-Delivered :
    (now : ℕ) (status : Option Status) (code : Option ℕ) (at : ℕ) (row : Row)
    → Delivered row
    → Delivered (judged now status code at row).0
unfolding judged set_failed set_status Delivered
judged-Delivered now none code at row h =
    let policy = failure_policy code in
    if-row Delivered (is_none row.delivery_status && is_news policy.0 policy.1 code row)
      (set_failed now policy.0 policy.1 row, true) (row, false)
      (λ e shown. ground (arith, e, shown)) (λ _. h)
judged-Delivered now (some status) code at row h =
    if-row Delivered (ltb (rank_of row.delivery_status) (rank status))
      (set_status status at row, true) (row, false) (λ _ _. refl) (λ _. h)

judged-Same :
    (now : ℕ) (status : Option Status) (code : Option ℕ) (at : ℕ) (row : Row)
    → Same (judged now status code at row).0 row
unfolding judged set_failed set_status
judged-Same now none code at row =
    let policy = failure_policy code in
    if-row (λ x. Same x row) (is_none row.delivery_status && is_news policy.0 policy.1 code row)
      (set_failed now policy.0 policy.1 row, true) (row, false)
      (λ _. record { id = refl; direction = refl; line = refl; phone = refl })
      (λ _. record { id = refl; direction = refl; line = refl; phone = refl })
judged-Same now (some status) code at row =
    if-row (λ x. Same x row) (ltb (rank_of row.delivery_status) (rank status))
      (set_status status at row, true) (row, false)
      (λ _. record { id = refl; direction = refl; line = refl; phone = refl })
      (λ _. record { id = refl; direction = refl; line = refl; phone = refl })

Same-is_outgoing : (id : String) (a b : Row) → Same a b → is_outgoing id a ≡ is_outgoing id b
Same-is_outgoing id a b h =
    ap (λ o. eq_sql o (some id) && is_outbound a.direction) h.id
    ∙ ap (λ d. eq_sql b.whatsapp_message_id (some id) && is_outbound d) h.direction

same_id :
    (a b : String) (o : Option String) → eq_sql o (some a) ≡ true → eq_sql o (some b) ≡ str_eq a b
same_id a b none e = cc
same_id a b (some w) e = ap (λ x. str_eq x b) ((eq_iff w a).0 e)

is_outgoing-other :
    (a b : String) (row : Row) → is_outgoing a row ≡ true → is_outgoing b row ≡ str_eq a b
is_outgoing-other a b row e =
    let parts = same_id a b row.whatsapp_message_id (ground (arith, e)) in ground (arith, e, parts)

-- what the receipt makes of the row that it locks
abbrev locked : ℕ → Receipt → Row → Row
locked now r x = if concerns r x then (updated now r x).0 else x

locked-Same : (now : ℕ) (r : Receipt) (x : Row) → Same (locked now r x) x
locked-Same now r x = elim (Bool-cases (concerns r x)) [
  | inl e ↦ rw e (judged-Same now r.status r.failure_code r.at x)
  | inr e ↦ rw e (record { id = refl; direction = refl; line = refl; phone = refl })
]

rows_of {ℓ} :
    {A : Type ℓ} (b c : Bool) (u x : Row) (xs rest : List Row) (o p q : A)
    → (if◌then◌else◌ {A = List Row × A} b (if c then (u ∷ xs, o) else (x ∷ xs, p)) (x ∷ rest, q)).0
      ≡ (if b then (if c then u else x) ∷ xs else x ∷ rest)
rows_of true true u x xs rest o p q = refl
rows_of true false u x xs rest o p q = refl
rows_of false c u x xs rest o p q = refl

apply_rows :
    (now : ℕ) (r : Receipt) (x : Row) (xs : List Row)
    → (apply_delivery_status now r (x ∷ xs)).0 ≡ (
        if is_outgoing r.whatsapp_message_id x
        then locked now r x ∷ xs
        else x ∷ (apply_delivery_status now r xs).0)
unfolding apply_delivery_status
apply_rows now r x xs = rows_of (is_outgoing r.whatsapp_message_id x) (concerns r x) _ x xs _ _ _ _

met-own :
    (now : ℕ) (r : Receipt) (id : String) (row : Row)
    → str_eq r.whatsapp_message_id id ≡ true
    → met now r id row ≡ locked now r row
unfolding met
met-own now r id row e = rw e refl

met-other :
    (now : ℕ) (r : Receipt) (id : String) (row : Row)
    → str_eq r.whatsapp_message_id id ≡ false
    → met now r id row ≡ row
unfolding met
met-other now r id row e = rw e refl

find-first :
    (id : String) (x row : Row) (xs : List Row)
    → find_outgoing id (x ∷ xs) ≡ some row
    → is_outgoing id x ≡ true
    → x ≡ row
unfolding find_outgoing
find-first id x row xs found e = ground (arith, e)

find-skip :
    (id : String) (x : Row) (xs : List Row)
    → is_outgoing id x ≡ false
    → find_outgoing id (x ∷ xs) ≡ find_outgoing id xs
unfolding find_outgoing
find-skip id x xs e = rw e refl

find-take :
    (id : String) (x : Row) (xs : List Row)
    → is_outgoing id x ≡ true
    → find_outgoing id (x ∷ xs) ≡ some x
unfolding find_outgoing
find-take id x xs e = rw e refl

not_same :
    (a b : String) (row : Row)
    → is_outgoing a row ≡ true
    → is_outgoing b row ≡ false
    → str_eq b a ≡ false
not_same a b row e f = elim (Bool-cases (str_eq b a)) [
  | inl same ↦ ground (arith, f, e, ap (λ x. is_outgoing x row) ((eq_iff b a).0 same))
  | inr other ↦ other
]

-- The row that is looked up afterwards is the one before, with what the receipt makes of it.
find_outgoing-apply :
    (now : ℕ) (r : Receipt) (id : String) (rows : List Row) (row : Row)
    → find_outgoing id rows ≡ some row
    → find_outgoing id (apply_delivery_status now r rows).0 ≡ some (met now r id row)
unfolding find_outgoing
find_outgoing-apply now r id [] row found = cc
find_outgoing-apply now r id (x ∷ xs) row found =
    elim (Bool-cases (is_outgoing r.whatsapp_message_id x)) [
      | inl hit ↦
          let own = is_outgoing-other r.whatsapp_message_id id x hit in
          let kept = Same-is_outgoing id (locked now r x) x (locked-Same now r x) in
          rw (apply_rows now r x xs, hit)
            (elim (Bool-cases (str_eq r.whatsapp_message_id id)) [
              | inl same ↦
                  let first = find-first id x row xs found (own ∙ same) in
                  find-take id (locked now r x) xs (kept ∙ own ∙ same)
                  ∙ ap (λ y. some (locked now r y)) first
                  ∙ ap some (sym (met-own now r id row same))
              | inr other ↦
                  find-skip id (locked now r x) xs (kept ∙ own ∙ other)
                  ∙ sym (find-skip id x xs (own ∙ other))
                  ∙ found
                  ∙ ap some (sym (met-other now r id row other))
            ])
      | inr miss ↦
          rw (apply_rows now r x xs, miss)
            (elim (Bool-cases (is_outgoing id x)) [
              | inl here ↦
                  find-take id x (apply_delivery_status now r xs).0 here
                  ∙ ap some (find-first id x row xs found here)
                  ∙ ap some
                      (sym (met-other now r id row (not_same id r.whatsapp_message_id x here miss)))
              | inr there ↦
                  find-skip id x (apply_delivery_status now r xs).0 there
                  ∙ find_outgoing-apply now r id xs row (sym (find-skip id x xs there) ∙ found)
            ])
    ]

met-Same : (now : ℕ) (r : Receipt) (id : String) (row : Row) → Same (met now r id row) row
unfolding met
met-Same now r id row = elim (Bool-cases (str_eq r.whatsapp_message_id id && concerns r row)) [
  | inl e ↦ rw e (judged-Same now r.status r.failure_code r.at row)
  | inr e ↦ rw e (record { id = refl; direction = refl; line = refl; phone = refl })
]

met-Delivered :
    (now : ℕ) (r : Receipt) (id : String) (row : Row) → Delivered row → Delivered (met now r id row)
unfolding met
met-Delivered now r id row h =
    elim (Bool-cases (str_eq r.whatsapp_message_id id && concerns r row)) [
      | inl e ↦ rw e (judged-Delivered now r.status r.failure_code r.at row h)
      | inr e ↦ rw e h
    ]

met-rank :
    (now : ℕ) (r : Receipt) (id : String) (row : Row)
    → rank_of (met now r id row).delivery_status
      ≡ max (rank_of row.delivery_status) (claimed_rank id row r)
unfolding met claimed_rank
met-rank now r id row = elim (Bool-cases (str_eq r.whatsapp_message_id id && concerns r row)) [
  | inl e ↦ rw e (judged-rank now r.status r.failure_code r.at row)
  | inr e ↦ rw e (omega arith)
]

claimed_rank-Same :
    (id : String) (r : Receipt) (a b : Row) → Same a b → claimed_rank id a r ≡ claimed_rank id b r
unfolding claimed_rank concerns
claimed_rank-Same id r a b h = rw (h.line, h.phone) refl

peak-Same :
    (id : String) (a b : Row) (rs : List (ℕ × Receipt)) → Same a b → peak id a rs ≡ peak id b rs
unfolding peak
peak-Same id a b [] h = refl
peak-Same id a b ((now, r) ∷ rs) h =
    omega (arith, claimed_rank-Same id r a b h, peak-Same id a b rs h)

-- Whatever the order in which the callbacks on a message come, and however often, its delivery
-- status has in the end the highest rank that it had or that one of them claims for its line and
-- customer; and if a message with a delivery status counted as sent before, it does afterwards, so
-- that a failure reported late undoes nothing.
pub run-highest :
    (id : String) (rs : List (ℕ × Receipt)) (rows : List Row) (row : Row)
    → find_outgoing id rows ≡ some row
    → Delivered row
    → (after : Row) × (find_outgoing id (run rs rows) ≡ some after)
      × (rank_of after.delivery_status ≡ max (rank_of row.delivery_status) (peak id row rs))
      × Delivered after
unfolding run peak
run-highest id [] rows row found h = (row, found, omega arith, h)
run-highest id ((now, r) ∷ rs) rows row found h =
    let (after, there, level, kept) =
      run-highest id rs (apply_delivery_status now r rows).0 (met now r id row)
        (find_outgoing-apply now r id rows row found) (met-Delivered now r id row h) in
    (
      after,
      there,
      omega (
        arith,
        level,
        met-rank now r id row,
        peak-Same id (met now r id row) row rs (met-Same now r id row),
      ),
      kept,
    )
