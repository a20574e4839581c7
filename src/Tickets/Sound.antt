-- ===== src/Tickets/Sound.antt =====
-- The invariant of the ticket table: fresh ids, and at most one row for an id, a key or a source.
use mathlib.Core.Path.{subst}
use ai_whats_app_shipment_as.Prelude.{
  ℕ, ◌+◌, ◌≤◌, ◌<◌, String, ◌≡◌, ◌∙◌, sym, ap, Bool, true, false, some, List, [], ◌∷◌, ◌++◌, arith,
  inl, inr, Bool-cases, All, All-append, count_if, count_if-append, eq_sql, eq_iff, ◌==◌,
}
use ai_whats_app_shipment_as.Tickets.Model.{Ticket, State}
use ai_whats_app_shipment_as.Tickets.Table.{
  find_ticket, set_ticket, delete_ticket, has_key, key_taken,
}
use ai_whats_app_shipment_as.Tickets.Open.{duplicate}
use ai_whats_app_shipment_as.Tickets.Change.{RowStep, NewRow, Note, Change}
use ai_whats_app_shipment_as.Tickets.Change.Change.{still, moved, opened, dropped}
use ai_whats_app_shipment_as.Tickets.Rows.{
  one_if, with_id, count_if-set_ticket, count_if-delete_ticket, All-set_ticket, All-delete_ticket,
  All-find_ticket, not_below, count_if-key_taken,
}
use ai_whats_app_shipment_as.Tickets.Steps.{
  IsLive, has_source, RowStep-id, RowStep-source, RowStep-IsLive, RowStep-key, NewRow-id,
  NewRow-IsLive, duplicate-key, duplicate-source,
}
use ai_whats_app_shipment_as.Tickets.Trace.{Call, apply, run}
use ai_whats_app_shipment_as.Tickets.Openings.{apply-Change}

abbrev pub Below : ℕ → Ticket → Type 0
Below next t = t.id < next

pub record IsSound (s : State) : Type 0 where
  pub fresh : All (Below s.next_ticket) s.tickets
  pub one_row : (id : ℕ) → count_if (with_id id) s.tickets ≤ 1
  pub one_thread : (key : String) → count_if (has_key key) s.tickets ≤ 1
  pub one_source : (source : String) → count_if (has_source source) s.tickets ≤ 1
  pub live : All IsLive s.tickets

-- A test that a step does not change counts the same rows.
set_ticket-same :
    (p : Ticket → Bool) (id : ℕ) (t u : Ticket) (ts : List Ticket)
    → find_ticket id ts ≡ some t
    → p u ≡ p t
    → count_if p ts ≤ 1
    → count_if p (set_ticket id u ts) ≤ 1
set_ticket-same p id t u ts found same few =
    omega (arith, count_if-set_ticket p id t u ts found, ap one_if same, few)

module _ {s : State} (id : ℕ) {t u : Ticket} {notes : List Note}
    (found : find_ticket id s.tickets ≡ some t) (step : RowStep s id t u notes)
    (h : IsSound s) where
  same_key :
      (key taken : String)
      → u.active_key ≡ some taken
      → key_taken taken id s.tickets ≡ false
      → has_key key u ≡ true
      → key_taken key id s.tickets ≡ false
  same_key key taken e free hit =
      ap (λ k. key_taken k id s.tickets)
        (sym ((eq_iff taken key).0 (sym (ap (λ k. eq_sql k (some key)) e) ∙ hit)))
      ∙ free

  step-one_thread : (key : String) → count_if (has_key key) (set_ticket id u s.tickets) ≤ 1
  step-one_thread key = elim (RowStep-key step) [
    | inl (inl lost) ↦
        ground
          (arith, lost, count_if-set_ticket (has_key key) id t u s.tickets found, h.one_thread key)
    | inl (inr kept) ↦
        set_ticket-same (has_key key) id t u s.tickets found (ap (λ k. eq_sql k (some key)) kept)
          (h.one_thread key)
    | inr (taken, e, free) ↦ elim (Bool-cases (has_key key u)) [
      | inl hit ↦ omega (
        arith,
        count_if-set_ticket (has_key key) id t u s.tickets found,
        count_if-key_taken key id t s.tickets (same_key key taken e free hit) (h.one_row id) found,
        ap one_if hit,
      )
      | inr miss ↦ omega (
        arith,
        count_if-set_ticket (has_key key) id t u s.tickets found,
        h.one_thread key,
        ap one_if miss,
      )
    ]
  ]

  step-IsSound :
      (after : State)
      → after.tickets ≡ set_ticket id u s.tickets
      → after.next_ticket ≡ s.next_ticket
      → IsSound after
  step-IsSound after rows next = record {
    fresh =
        subst (λ n. All (Below n) after.tickets) (sym next)
          (subst (All (Below s.next_ticket)) (sym rows) (
            All-set_ticket (Below s.next_ticket) id u s.tickets
              (subst (λ i. i < s.next_ticket) (sym (RowStep-id step))
                (All-find_ticket (Below s.next_ticket) id s.tickets t found h.fresh))
              h.fresh));
    one_row = λ k.
        subst (λ ts. count_if (with_id k) ts ≤ 1) (sym rows)
          (set_ticket-same (with_id k) id t u s.tickets found (ap (λ i. i == k) (RowStep-id step))
            (h.one_row k));
    one_thread =
        λ key. subst (λ ts. count_if (has_key key) ts ≤ 1) (sym rows) (step-one_thread key);
    one_source = λ source.
        subst (λ ts. count_if (has_source source) ts ≤ 1) (sym rows)
          (set_ticket-same (has_source source) id t u s.tickets found
            (ap (λ k. eq_sql k (some source)) (RowStep-source step)) (h.one_source source));
    live = subst (All IsLive) (sym rows) (
        All-set_ticket IsLive id u s.tickets
          (RowStep-IsLive step (All-find_ticket IsLive id s.tickets t found h.live)) h.live);
  }

-- A row that is added counts once.
appended :
    (p : Ticket → Bool) (t : Ticket) (ts : List Ticket)
    → count_if p ts ≤ 1
    → (p t ≡ true → count_if p ts ≡ 0)
    → count_if p (ts ++ (t ∷ [])) ≤ 1
appended p t ts few first = elim (Bool-cases (p t)) [
  | inl hit ↦ ground (arith, count_if-append p ts (t ∷ []), first hit, hit)
  | inr miss ↦ ground (arith, count_if-append p ts (t ∷ []), few, miss)
]

All-later : (next : ℕ) (ts : List Ticket) → All (Below next) ts → All (Below (next + 1)) ts
All-later next [] h = h
All-later next (t ∷ ts) h = (omega (arith, h.0), All-later next ts h.1)

opened-IsSound :
    (s after : State) (t : Ticket) (note : Note)
    → NewRow s t note
    → duplicate t s.tickets ≡ false
    → after.tickets ≡ s.tickets ++ (t ∷ [])
    → after.next_ticket ≡ s.next_ticket + 1
    → IsSound s
    → IsSound after
opened-IsSound s after t note row free rows next h = record {
  fresh =
      subst (λ n. All (Below n) after.tickets) (sym next)
        (subst (All (Below (s.next_ticket + 1))) (sym rows) (
          All-append (Below (s.next_ticket + 1)) s.tickets (t ∷ [])
            (All-later s.next_ticket s.tickets h.fresh) (omega (arith, NewRow-id row), _)));
  one_row = λ k.
      subst (λ ts. count_if (with_id k) ts ≤ 1) (sym rows)
        (appended (with_id k) t s.tickets (h.one_row k) (λ hit.
          ap (λ i. count_if (with_id i) s.tickets) (ground (arith, hit, NewRow-id row))
          ∙ not_below s.next_ticket s.tickets h.fresh));
  one_thread = λ key.
      subst (λ ts. count_if (has_key key) ts ≤ 1) (sym rows)
        (appended (has_key key) t s.tickets (h.one_thread key)
          (duplicate-key key t s.tickets free));
  one_source = λ source.
      subst (λ ts. count_if (has_source source) ts ≤ 1) (sym rows)
        (appended (has_source source) t s.tickets (h.one_source source)
          (duplicate-source source t s.tickets free));
  live =
      subst (All IsLive) (sym rows)
        (All-append IsLive s.tickets (t ∷ []) h.live (NewRow-IsLive row, _));
}

dropped-IsSound :
    (s after : State) (id : ℕ)
    → after.tickets ≡ delete_ticket id s.tickets
    → after.next_ticket ≡ s.next_ticket
    → IsSound s
    → IsSound after
dropped-IsSound s after id rows next h = record {
  fresh =
      subst (λ n. All (Below n) after.tickets) (sym next)
        (subst (All (Below s.next_ticket)) (sym rows)
          (All-delete_ticket (Below s.next_ticket) id s.tickets h.fresh));
  one_row = λ k. omega (
    arith,
    ap (count_if (with_id k)) rows,
    count_if-delete_ticket (with_id k) id s.tickets,
    h.one_row k,
  );
  one_thread = λ key. omega (
    arith,
    ap (count_if (has_key key)) rows,
    count_if-delete_ticket (has_key key) id s.tickets,
    h.one_thread key,
  );
  one_source = λ source. omega (
    arith,
    ap (count_if (has_source source)) rows,
    count_if-delete_ticket (has_source source) id s.tickets,
    h.one_source source,
  );
  live = subst (All IsLive) (sym rows) (All-delete_ticket IsLive id s.tickets h.live);
}

pub Change-IsSound :
    (now : ℕ) (s : State) {after : State} → Change now s after → IsSound s → IsSound after
Change-IsSound now s (still same) h = subst IsSound (sym same) h
Change-IsSound now s (moved id t u notes found step rows _ _ next) h =
    step-IsSound id found step h _ rows next
Change-IsSound now s (opened t note row free rows _ _ next) h =
    opened-IsSound s _ t note row free rows next h
Change-IsSound now s (dropped id t _ _ rows _ _ next) h = dropped-IsSound s _ id rows next h

-- Any sequence of the operations on tickets keeps the table sound: every id is below the next one
-- to be drawn, no two rows share an id, an active key or a source message, and a ticket holds an
-- active key exactly while its status is active.
pub run-IsSound :
    (strip : String → String) (calls : List Call) (s : State)
    → IsSound s
    → IsSound (run strip calls s)
unfolding run
run-IsSound strip [] s h = h
run-IsSound strip (c ∷ cs) s h =
    run-IsSound strip cs (apply strip c.now c.op s)
      (Change-IsSound c.now s (apply-Change c.now s strip c.op) h)
