-- ===== src/Ingest/Store.antt =====
-- src/ingest/state-store.ts: reading the record of a change and its journal, and appending to both.
pub mod Reading
pub mod Writing
pub mod Faults
pub mod Retrying
pub mod OnDisk
pub mod Sound
use web_comunidad_solar.Prelude.{
  ℕ, ◌+◌, ◌≡◌, refl, Bool, true, false, not, Option, none, some, List, [], ◌∷◌, ◌++◌, Text, codes,
  ◌===◌, ◌==◌, if◌then◌else◌, ◌&&◌, ◌||◌, length, first, last,
}
use web_comunidad_solar.Json.{Json, null, boolean, nat, number, object, field, end, canonical_json}
use web_comunidad_solar.Ingest.Failure.{
  Failure, Result, ok, err, or_throw, state_not_json, state_missing, journal_not_at_revision,
  state_differs_from_journal, transition_type_required, retry_reserved,
  state_transition_not_allowed, orphaned_journal, initial_must_be_received, only_failed_can_retry,
}
use web_comunidad_solar.Ingest.Platform.{Platform, sha256_canonical}
use web_comunidad_solar.Ingest.Disk.{
  Host, World, Action, state, journal, ◌>>=◌, ◌>>◌, pure, throw, lift, reject_if, try_catch,
  then_throw, read_regular_file, timestamp, write_atomic, remove_file_atomically,
}
use web_comunidad_solar.Ingest.Domain.{
  ChangeState, received, rejected, failed, state_eq, allowed_transition, is_resume_state,
}
use web_comunidad_solar.Ingest.Journal.{
  JournalEvent, JournalEventDraft, is_event_type, nullable_eq, create_journal_event,
  verify_journal_events, previous_hash,
}
use web_comunidad_solar.Ingest.Journal.Format.{serialize_journal, parse_journal}
use web_comunidad_solar.Ingest.Record.{
  ChangeRecord, attempt_id, record_json, assert_change_record, record_from_journal,
}

pub record TransitionEvent : Type 0 where
  pub type : Text
  pub to : ChangeState
  pub payload : Json

module _ (p : Platform) (host : Host) (change_id : Text) where
  unfoldable pub read_state_text : Option Text → Result (Option ChangeRecord)
  read_state_text none = ok none
  read_state_text (some bytes) = elim (p.json_parse bytes) [
    | none ↦ err state_not_json
    | some value ↦ elim (assert_change_record p change_id value) [
      | ok r ↦ ok (some r)
      | err e ↦ err e
    ]
  ]

  unfoldable pub read_state : Action (Option ChangeRecord)
  read_state = do bytes ← read_regular_file state; lift (read_state_text bytes)

  abbrev pub or_empty : Option Text → Text
  or_empty none = []
  or_empty (some t) = t

  unfoldable pub read_journal_text : Text → Result (List JournalEvent)
  read_journal_text t = elim (parse_journal p t) [
    | ok values ↦ verify_journal_events p values
    | err e ↦ err e
  ]

  unfoldable pub read_journal : Action (List JournalEvent)
  read_journal = do bytes ← read_regular_file journal; lift (read_journal_text (or_empty bytes))

  abbrev at_is : Option JournalEvent → Text → Bool
  at_is none t = false
  at_is (some e) t = e.at === t

  abbrev ends_at : ChangeRecord → Option JournalEvent → Bool
  ends_at r none = false
  ends_at r (some e) = state_eq e.to r.state && e.at === r.updated_at

  -- The journal and the record agree.
  unfoldable pub check_record : ChangeRecord → List JournalEvent → Result (List JournalEvent)
  check_record r events =
      if not (length events == r.revision)
        || not (ends_at r (last events))
        || not (at_is (first events) r.created_at)
      then err journal_not_at_revision
      else elim (record_from_journal r.change_id events) [
        | err e ↦ err e
        | ok expected ↦
            if canonical_json (record_json r) === canonical_json (record_json expected)
            then ok events
            else err state_differs_from_journal
      ]

  unfoldable pub verify_journal_of : ChangeRecord → Action (List JournalEvent)
  verify_journal_of r = do events ← read_journal; lift (check_record r events)

  abbrev pub or_missing : Option ChangeRecord → Action ChangeRecord
  or_missing none = throw state_missing
  or_missing (some r) = pure r

  -- `verifyJournalFor` without a record
  unfoldable pub verify_journal_for : Action (List JournalEvent)
  verify_journal_for = do found ← read_state; r ← or_missing found; verify_journal_of r

  -- `readChangeAtPaths`
  unfoldable pub read_change : Action ChangeRecord
  read_change = do found ← read_state; r ← or_missing found; events ← verify_journal_of r; pure r

  initial_record : Text → ChangeRecord
  initial_record at = record {
    change_id = change_id;
    state = received;
    revision = 1;
    attempt_number = 1;
    current_attempt_id = attempt_id 1;
    resume_state = received;
    created_at = at;
    updated_at = at;
  }

  unfoldable pub advanced_record : ChangeRecord → ChangeState → Text → ChangeRecord
  advanced_record previous to at = record previous {
    state = to;
    revision = previous.revision + 1;
    resume_state = if is_resume_state to then to else previous.resume_state;
    updated_at = at;
  }

  -- What was in the journal before: removed if there was no record, and else written again.
  restore_journal : Option ChangeRecord → List JournalEvent → Action (Unit {0})
  restore_journal none existing = remove_file_atomically host journal
  restore_journal (some r) existing = write_atomic host journal (serialize_journal existing)

  -- The journal first, then the record, with the journal put back if the record cannot be written.
  unfoldable pub persist :
      Option ChangeRecord → List JournalEvent → JournalEvent → ChangeRecord → Action ChangeRecord
  unfolding restore_journal
  persist previous existing event next = do
    write_atomic host journal (serialize_journal (existing ++ event ∷ []))
    try_catch (write_atomic host state (canonical_json (record_json next)))
        λ error. then_throw (restore_journal previous existing) error
    pure next

  abbrev pub draft_of :
      ChangeRecord → Text → Text → Option ChangeState → Json → List JournalEvent → JournalEventDraft
  draft_of next at type from payload existing = record {
    sequence = next.revision;
    at = at;
    type = type;
    from = from;
    to = next.state;
    payload_sha256 = sha256_canonical p payload;
    previous_event_sha256 = previous_hash (last existing);
  }

  abbrev is_nil : List JournalEvent → Bool
  is_nil [] = true
  is_nil (e ∷ es) = false

  -- `persistTransition` where there is no record yet, and where there is one
  unfoldable pub transition_from :
      Option ChangeRecord → TransitionEvent → Bool → Text → Action ChangeRecord
  unfolding initial_record
  transition_from none event internal at = do
    orphaned ← read_journal
    reject_if (not (is_nil orphaned)) orphaned_journal
    reject_if (not (state_eq event.to received)) initial_must_be_received
    let next = initial_record at
    signed ← lift (create_journal_event p (draft_of next at event.type none event.payload []))
    persist none [] signed next
  transition_from (some previous) event internal at = do
    existing ← verify_journal_of previous
    reject_if
        ((internal && not (state_eq event.to previous.state))
          || (not internal && not (allowed_transition previous.state event.to)))
        state_transition_not_allowed
    let next = advanced_record previous event.to at
    signed ← lift (
        create_journal_event p
          (draft_of next at event.type (some previous.state) event.payload existing))
    persist (some previous) existing signed next

  unfoldable pub persist_transition :
      Option ChangeRecord → TransitionEvent → Bool → Action ChangeRecord
  persist_transition previous event internal = do
    reject_if (not (is_event_type event.type)) transition_type_required
    reject_if (event.type === codes "retry") retry_reserved
    reject_if (event.type === codes "lock-recovered" && not internal) state_transition_not_allowed
    at ← timestamp host
    transition_from previous event internal at

  abbrev recovery_of : ChangeRecord → TransitionEvent
  recovery_of r = record {
    type = codes "lock-recovered";
    to = r.state;
    payload = object (field (codes "recovered") (boolean true) end);
  }

  record_recovery_of : Option ChangeRecord → Action (Unit {0})
  record_recovery_of none = pure tt
  record_recovery_of (some r) = do
    recovered ← persist_transition (some r) (recovery_of r) true
    pure tt

  unfoldable pub record_lock_recovery : Action (Unit {0})
  unfolding record_recovery_of
  record_lock_recovery = do previous ← read_state; record_recovery_of previous

  unfoldable pub retried_record : ChangeRecord → Text → ChangeRecord
  retried_record previous at = record previous {
    state = previous.resume_state;
    revision = previous.revision + 1;
    attempt_number = previous.attempt_number + 1;
    current_attempt_id = attempt_id (previous.attempt_number + 1);
    updated_at = at;
  }

  abbrev pub attempt_json : ℕ → Json
  attempt_json n = object (field (codes "attemptNumber") (number (nat n)) end)

  -- The body of `retryChange`, under the lock.
  unfoldable pub retry_under_lock : Action ChangeRecord
  retry_under_lock = do
    previous ← read_change
    reject_if (not (state_eq previous.state failed) && not (state_eq previous.state rejected))
        only_failed_can_retry
    at ← timestamp host
    events ← verify_journal_of previous
    let next = retried_record previous at
    signed ← lift (
        create_journal_event p (
          draft_of next at (codes "retry") (some previous.state) (attempt_json next.attempt_number)
            events))
    persist (some previous) events signed next
