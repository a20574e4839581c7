-- ===== src/Availability/Updates.antt =====
-- The updates of the settings, over any sequence of requests: their versions and their audit.
use mathlib.Core.Path.{subst}
use ai_whats_app_shipment_as.Prelude.{
  sym, ◌∙◌, ◌≢◌, ℕ, ◌+◌, String, ◌≡◌, refl, ap, true, false, Option, some, [], ◌∷◌, ◌++◌, arith,
  Bool-cases, ◌⊎◌, inl, inr, ◌==◌,
}
use ai_whats_app_shipment_as.Availability.Schedule.{Lang, malformed, Configuration, Effective}
use ai_whats_app_shipment_as.Availability.Settings.{
  Settings, Row, Actor, Error, control_error, forbidden, invalid, conflict, value_error, Result, ok,
  raised, get,
}
use ai_whats_app_shipment_as.Availability.Control.{
  Change, old_payload, new_payload, write, locked_configuration, commit, update, Request, change_of,
  update_settings, evaluated, is_supervisor,
}
use ai_whats_app_shipment_as.Availability.Causes.{Result-cases, change_of-Raises, locked-Raises}
use ai_whats_app_shipment_as.Availability.ReadBack.{
  LangLaws, stored, evaluate-answers, change_of-Readable, locked-write, get-write,
}

-- `others` is what other sessions commit before the row is read again.
module _ (lang : Lang) (laws : LangLaws lang) (others : Settings → Settings) where
  -- What an accepted update did.
  pub record Committed (now : ℕ) (actor : Actor) (r : Request) (s after : Settings)
      (result : Result Effective) : Type 0 where
    pub manager : is_supervisor actor.role ≡ true
    pub before : Configuration
    pub was : locked_configuration lang s ≡ ok before
    pub expected : r.expected_version ≡ some before.version
    pub written : Configuration
    pub is_now : locked_configuration lang after ≡ ok written
    pub next_version : written.version ≡ before.version + 1
    pub recorded :
        after.audit
        ≡ s.audit
          ++ (record {
            actor_staff_id = actor.id;
            actor_staff_name = actor.name;
            old_configuration = old_payload before;
            new_configuration = old_payload written;
            created_at = now;
          }
              ∷ [])
    pub answered : result ≡ evaluated lang now (get lang (others after))
    pub answer : Effective
    pub reads : evaluated lang now (get lang after) ≡ ok answer
    pub tells : old_payload answer.configuration ≡ old_payload written

  -- Why an update is refused.
  pub data Cause (actor : Actor) (r : Request) (s : Settings) : Error → Type 0 where
    not_manager : is_supervisor actor.role ≡ false → Cause actor r s forbidden
    bad_request : change_of lang r ≡ raised invalid → Cause actor r s invalid
    bad_key :
        lang.zone_info (lang.strip r.schedule_timezone) ≡ malformed → Cause actor r s value_error
    unreadable : locked_configuration lang s ≡ raised control_error → Cause actor r s control_error
    unreadable_key :
        (row : Row)
        → s.row ≡ some row
        → lang.zone_info (lang.strip row.schedule_timezone) ≡ malformed
        → Cause actor r s value_error
    stale :
        (before : Configuration)
        → locked_configuration lang s ≡ ok before
        → r.expected_version ≢ some before.version
        → Cause actor r s conflict

  -- A refused update: it changed nothing, and said why.
  pub record Refused (actor : Actor) (r : Request) (s after : Settings) (result : Result Effective)
      : Type 0 where
    pub unchanged : after ≡ s
    pub error : Error
    pub told : result ≡ raised error
    pub cause : Cause actor r s error

  expected-change_of :
      (r : Request) (change : Change)
      → change_of lang r ≡ ok change
      → r.expected_version ≡ some change.expected_version
  unfolding change_of
  expected-change_of r change valid = ground arith

  update-writes :
      (now : ℕ) (actor : Actor) (change : Change) (s : Settings) (before : Configuration)
      → locked_configuration lang s ≡ ok before
      → (before.version == change.expected_version) ≡ true
      → update lang others now actor change s
        ≡ (write now actor change before s, get lang (others (write now actor change before s)))
  unfolding update commit
  update-writes now actor change s before e same = ground (arith, e, same)

  update_settings-writes :
      (now : ℕ) (actor : Actor) (r : Request) (s : Settings) (before : Configuration)
      (change : Change)
      → is_supervisor actor.role ≡ true
      → change_of lang r ≡ ok change
      → locked_configuration lang s ≡ ok before
      → (before.version == change.expected_version) ≡ true
      → let after = write now actor change before s in
        update_settings lang others now actor r s
        ≡ (after, evaluated lang now (get lang (others after)))
  unfolding update_settings
  update_settings-writes now actor r s before change manager valid e same =
      ground (arith, manager, valid, update-writes now actor change s before e same)

  write-Committed :
      (now : ℕ) (actor : Actor) (r : Request) (s : Settings) (before : Configuration)
      (change : Change) (answer : Effective) (name : Option String)
      → is_supervisor actor.role ≡ true
      → change_of lang r ≡ ok change
      → locked_configuration lang s ≡ ok before
      → (before.version == change.expected_version) ≡ true
      → answer.configuration ≡ stored lang laws now actor change (before.version + 1) name
      → evaluated lang now (get lang (write now actor change before s)) ≡ ok answer
      → let after = write now actor change before s in
        Committed now actor r s after (evaluated lang now (get lang (others after)))
  unfolding write old_payload new_payload
  write-Committed now actor r s before change answer name manager valid e same tells reads =
      record {
        manager = manager;
        before = before;
        was = e;
        expected = ground (arith, expected-change_of r change valid, same);
        written = stored lang laws now actor change (before.version + 1) (some actor.name);
        is_now =
            locked-write lang laws now actor change s before
              (change_of-Readable lang laws r change valid);
        next_version = refl;
        recorded = refl;
        answered = refl;
        answer = answer;
        reads = reads;
        tells = ap old_payload tells;
      }

  update_settings-Committed :
      (now : ℕ) (actor : Actor) (r : Request) (s : Settings) (before : Configuration)
      (change : Change)
      → is_supervisor actor.role ≡ true
      → change_of lang r ≡ ok change
      → locked_configuration lang s ≡ ok before
      → (before.version == change.expected_version) ≡ true
      → let (after, result) = update_settings lang others now actor r s in
        Committed now actor r s after result
  update_settings-Committed now actor r s before change manager valid e same =
      let readable = change_of-Readable lang laws r change valid in
      let (name, read) = get-write lang laws now actor change s before readable in
      let (answer, told, tells) =
        evaluate-answers lang laws now now actor change (before.version + 1) name readable in
      rw (update_settings-writes now actor r s before change manager valid e same) (
        write-Committed now actor r s before change answer name manager valid e same tells
          (ground (arith, read, told)))

  request-Cause :
      (actor : Actor) (r : Request) (s : Settings) (e : Error)
      → change_of lang r ≡ raised e
      → Cause actor r s e
  request-Cause actor r s e h = elim (change_of-Raises lang e r h) [
    | inl usual ↦ subst (Cause actor r s) (sym usual) (bad_request (h ∙ ap raised usual))
    | inr (odd, key) ↦ subst (Cause actor r s) (sym odd) (bad_key key)
  ]

  row-Cause :
      (actor : Actor) (r : Request) (s : Settings) (e : Error)
      → locked_configuration lang s ≡ raised e
      → Cause actor r s e
  row-Cause actor r s e h = elim (locked-Raises lang e s h) [
    | inl usual ↦ subst (Cause actor r s) (sym usual) (unreadable (h ∙ ap raised usual))
    | inr (odd, (row, found, key)) ↦
        subst (Cause actor r s) (sym odd) (unreadable_key row found key)
  ]

  Refused-with :
      (actor : Actor) (r : Request) (error : Error) (s : Settings) (p : Settings × Result Effective)
      → Cause actor r s error
      → (let refusal : Settings × Result Effective = (s, raised error) in p ≡ refusal)
      → Refused actor r s p.0 p.1
  Refused-with actor r error s p cause same = record {
    unchanged = ap (λ (q : Settings × Result Effective). q.0) same;
    error = error;
    told = ap (λ (q : Settings × Result Effective). q.1) same;
    cause = cause;
  }

  -- An update is accepted or refused. It is accepted from a manager only, and only if the expected
  -- version is the stored one; then the version goes up by one, the audit gains one entry that
  -- tells the configuration before and after, and the answer is what the settings are when they are
  -- read again, whatever others have committed by then; read at once, they are what was written. It
  -- is refused only from others, for a request that is not valid, where the stored row cannot be
  -- read, for a zone's key that ZoneInfo finds malformed, in the request or in the row, or for a
  -- version that is not the stored one; then it changes nothing and names that cause.
  pub update_settings-answers :
      (now : ℕ) (actor : Actor) (r : Request) (s : Settings)
      → let (after, result) = update_settings lang others now actor r s in
        Committed now actor r s after result ⊎ Refused actor r s after result
  unfolding update_settings update commit
  update_settings-answers now actor r s = elim (Bool-cases (is_supervisor actor.role)) [
    | inr e0 ↦ inr (
        Refused-with actor r forbidden s (update_settings lang others now actor r s)
          (not_manager e0) (ground (arith, e0)))
    | inl manager ↦ elim (Result-cases (change_of lang r)) [
      | inl (e, e1) ↦ inr (
          Refused-with actor r e s (update_settings lang others now actor r s)
            (request-Cause actor r s e e1) (ground (arith, manager, e1)))
      | inr (change, valid) ↦ elim (Result-cases (locked_configuration lang s)) [
        | inl (e, e2) ↦ inr (
            Refused-with actor r e s (update_settings lang others now actor r s)
              (row-Cause actor r s e e2) (ground (arith, manager, valid, e2)))
        | inr (before, e) ↦ elim (Bool-cases (before.version == change.expected_version)) [
          | inl same ↦
              inl (update_settings-Committed now actor r s before change manager valid e same)
          | inr e3 ↦ inr (
              Refused-with actor r conflict s (update_settings lang others now actor r s)
                (stale before e (ground (arith, e3, expected-change_of r change valid)))
                (ground (arith, manager, valid, e, e3)))
        ]
      ]
    ]
  ]
