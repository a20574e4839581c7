-- ===== src/Availability/History.antt =====
-- The settings over any sequence of updates: the audit tells every one, and one of two updates from
-- the same version is refused.
use mathlib.Core.List.{append-nil, append_assoc}
use ai_whats_app_shipment_as.Prelude.{
  ℕ, ◌+◌, ◌≤◌, ◌≡◌, ◌∙◌, refl, sym, ap, Bool, false, ◌&&◌, Option, none, some, List, [], ◌∷◌, ◌++◌,
  length, arith, inl, inr, ltb, ◌==◌, if◌then◌else◌,
}
use ai_whats_app_shipment_as.Availability.Schedule.{Lang, Configuration}
use ai_whats_app_shipment_as.Availability.Settings.{
  Snapshot, Audit, Settings, Actor, Result, ok, raised,
}
use ai_whats_app_shipment_as.Availability.Control.{
  locked_configuration, old_payload, Request, update_settings,
}
use ai_whats_app_shipment_as.Availability.ReadBack.{LangLaws}
use ai_whats_app_shipment_as.Availability.Updates.{update_settings-answers}

-- One call of update_settings, with the time at which it runs and what others commit between its
-- own commit and its last reading.
pub record Call : Type 0 where
  pub others : Settings → Settings
  pub now : ℕ
  pub actor : Actor
  pub request : Request

unfoldable pub perform : Lang → Call → Settings → Settings
perform lang c s = (update_settings lang c.others c.now c.actor c.request s).0

unfoldable pub run : Lang → List Call → Settings → Settings
run lang [] s = s
run lang (c ∷ cs) s = run lang cs (perform lang c s)

abbrev expects : ℕ → Option ℕ → Bool
expects v none = false
expects v (some w) = v == w

-- an accepted update leaves an entry in the audit
abbrev is_accepted : Settings → Settings → Bool
is_accepted s after = ltb (length s.audit) (length after.audit)

-- how many calls that expect version v are accepted
unfoldable pub wins : Lang → ℕ → List Call → Settings → ℕ
wins lang v [] s = 0
wins lang v (c ∷ cs) s =
    let rest = wins lang v cs (perform lang c s) in
    if is_accepted s (perform lang c s) && expects v c.request.expected_version
    then rest + 1
    else rest

-- Entries that lead from one configuration to another, each starting where the one before it ended
-- and taking the version one further.
abbrev pub Chain : Snapshot → List Audit → Snapshot → Type 0
Chain a [] b = a ≡ b
Chain a (x ∷ xs) b =
    (a ≡ x.old_configuration)
    × (x.new_configuration.version ≡ x.old_configuration.version + 1)
    × Chain x.new_configuration xs b

-- Entries that account for the way from one state to another.
pub record Accounts (lang : Lang) (s after : Settings) (start : Configuration) : Type 0 where
  pub entries : List Audit
  pub appended : after.audit ≡ s.audit ++ entries
  pub end : Configuration
  pub has_end : locked_configuration lang after ≡ ok end
  pub chain : Chain (old_payload start) entries (old_payload end)

or_start : Configuration → Result Configuration → Configuration
or_start a (raised e) = a
or_start a (ok b) = b

same_payload :
    (a b : Configuration)
    → (let x : Result Configuration = ok a in x ≡ ok b)
    → old_payload a ≡ old_payload b
unfolding or_start
same_payload a b e = ap (λ x. old_payload (or_start a x)) e

module _ (lang : Lang) (laws : LangLaws lang) where
  -- Over any sequence of updates of any number of sessions, the audit grows by entries that lead,
  -- without a gap, from the configuration that was stored to the one that is stored in the end.
  pub run-Accounts :
      (cs : List Call) (s : Settings) (start : Configuration)
      → locked_configuration lang s ≡ ok start
      → Accounts lang s (run lang cs s) start
  unfolding run perform old_payload
  run-Accounts [] s start e = record {
    entries = [];
    appended = sym (append-nil s.audit);
    end = start;
    has_end = e;
    chain = refl;
  }
  run-Accounts (c ∷ cs) s start e =
      elim (update_settings-answers lang laws c.others c.now c.actor c.request s) [
        | inl done ↦
            let rest = run-Accounts cs (perform lang c s) done.written done.is_now in
            record {
              entries =
                  record {
                    actor_staff_id = c.actor.id;
                    actor_staff_name = c.actor.name;
                    old_configuration = old_payload done.before;
                    new_configuration = old_payload done.written;
                    created_at = c.now;
                  }
                  ∷ rest.entries;
              appended =
                  rest.appended
                  ∙ (ap (λ (a : List Audit). a ++ rest.entries) done.recorded
                      ∙ append_assoc s.audit _ rest.entries);
              end = rest.end;
              has_end = rest.has_end;
              chain = (
                same_payload start done.before (sym e ∙ done.was),
                done.next_version,
                rest.chain,
              );
            }
        | inr refused ↦
            let still : locked_configuration lang (perform lang c s) ≡ ok start =
              ap (locked_configuration lang) refused.unchanged ∙ e in
            let rest = run-Accounts cs (perform lang c s) start still in
            record {
              entries = rest.entries;
              appended =
                  rest.appended ∙ ap (λ (x : Settings). x.audit ++ rest.entries) refused.unchanged;
              end = rest.end;
              has_end = rest.has_end;
              chain = rest.chain;
            }
      ]

  past : ℕ → Settings → ℕ
  past v s = elim (locked_configuration lang s) [
    | raised e ↦ 0
    | ok c ↦ if ltb v c.version then 1 else 0
  ]

  perform-past :
      (v : ℕ) (c : Call) (s : Settings)
      → (if is_accepted s (perform lang c s) && expects v c.request.expected_version then 1 else 0)
          + past v s
        ≤ past v (perform lang c s)
  unfolding past perform
  perform-past v c s = elim (update_settings-answers lang laws c.others c.now c.actor c.request s) [
    | inl done ↦ ground (arith, done.was, done.expected, done.is_now, done.next_version)
    | inr refused ↦ ground (arith, refused.unchanged)
  ]

  run-past :
      (v : ℕ) (cs : List Call) (s : Settings) → wins lang v cs s + past v s ≤ past v (run lang cs s)
  unfolding wins run
  run-past v [] s = omega arith
  run-past v (c ∷ cs) s = ground (arith, perform-past v c s, run-past v cs (perform lang c s))

  past-le-one : (v : ℕ) (s : Settings) → past v s ≤ 1
  unfolding past
  past-le-one v s = ground arith

  -- Of any number of updates that expect the same version, one at most is accepted.
  pub wins-le-one : (v : ℕ) (cs : List Call) (s : Settings) → wins lang v cs s ≤ 1
  wins-le-one v cs s = omega (arith, run-past v cs s, past-le-one v (run lang cs s))
