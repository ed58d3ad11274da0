-- ===== src/Ingest/Journal.antt =====
-- src/ingest/journal.ts: the events of a change, each with the hash of the one before, and the
-- verification of a journal that is read back.
pub mod Events
pub mod Chain
pub mod Verified
pub mod History
pub mod Append
pub mod Format
unfoldable pub use Events.*
use web_comunidad_solar.Prelude.{
  ℕ, ◌+◌, Bool, true, false, not, Option, none, some, List, [], ◌∷◌, ◌++◌, map, Text, codes, ◌===◌,
  ◌==◌, if◌then◌else◌, ◌&&◌, ◌||◌, any,
}
use web_comunidad_solar.Json.{Json, canonical_json}
use web_comunidad_solar.Ingest.Failure.{
  Result, ok, err, ◌>>=◌, ◌>>◌, throw_if, or_throw, sequence_not_contiguous, hash_chain_broken,
  must_start_received, state_chain_broken, recovery_changes_state, invalid_retry,
  transition_not_allowed, invalid_event, event_not_canonical, journal_truncated, journal_blank_line,
  journal_not_json,
}
use web_comunidad_solar.Ingest.Platform.{Platform, sha256_canonical}
use web_comunidad_solar.Ingest.Domain.{
  ChangeState, received, rejected, failed, state_eq, allowed_transition, is_resume_state,
}

abbrev pub previous_sequence : Option JournalEvent → ℕ
previous_sequence none = 0
previous_sequence (some e) = e.sequence

abbrev pub previous_hash : Option JournalEvent → Option Text
previous_hash none = none
previous_hash (some e) = some e.event_sha256

abbrev pub from_state : Option ChangeState → ChangeState → Bool
from_state none s = false
from_state (some r) s = state_eq r s

-- The checks on the states of an event that is not the first.
later_shape : JournalEvent → JournalEvent → Result (Unit {0})
later_shape event previous =
    if not (from_state event.from previous.to)
    then err state_chain_broken
    else if event.type === codes "lock-recovered"
    then throw_if (not (from_state event.from event.to)) recovery_changes_state
    else if event.type === codes "retry"
    then throw_if
        ((not (from_state event.from failed) && not (from_state event.from rejected))
          || not (is_resume_state event.to))
        invalid_retry
    else throw_if (not (allowed_transition previous.to event.to)) transition_not_allowed

abbrev is_none : Option ChangeState → Bool
is_none none = true
is_none (some s) = false

first_shape : JournalEvent → Result (Unit {0})
first_shape event =
    throw_if
      (not (is_none event.from)
        || not (state_eq event.to received)
        || event.type === codes "retry"
        || event.type === codes "lock-recovered")
      must_start_received

abbrev states_shape : JournalEvent → Option JournalEvent → Result (Unit {0})
states_shape event none = first_shape event
states_shape event (some previous) = later_shape event previous

unfoldable pub assert_transition_shape : JournalEvent → Option JournalEvent → Result (Unit {0})
unfolding first_shape later_shape
assert_transition_shape event previous = do
  throw_if (not (event.sequence == previous_sequence previous + 1)) sequence_not_contiguous
  throw_if (not (nullable_eq event.previous_event_sha256 (previous_hash previous)))
      hash_chain_broken
  states_shape event previous

module _ (p : Platform) where
  unfoldable pub event_hash : JournalEventDraft → Text
  event_hash d = sha256_canonical p (draft_json d)

  unfoldable pub create_journal_event : JournalEventDraft → Result JournalEvent
  create_journal_event d = do
    throw_if
        (not (is_sequence d.sequence)
          || not (is_event_type d.type)
          || not (is_hash d.payload_sha256)
          || not (nullable_hash d.previous_event_sha256))
        invalid_event
    ok (sign d (event_hash d))

  -- The loop of `verifyJournalEvents`, from the event before.
  unfoldable pub verify_from : Option JournalEvent → List Json → Result (List JournalEvent)
  verify_from previous [] = ok []
  verify_from previous (value ∷ values) = do
    event ← or_throw (decode_event p value) event_not_canonical
    assert_transition_shape event previous
    throw_if (not (event.event_sha256 === event_hash (unsigned_event event))) hash_chain_broken
    rest ← verify_from (some event) values
    ok (event ∷ rest)

  unfoldable pub verify_journal_events : List Json → Result (List JournalEvent)
  unfolding verify_from
  verify_journal_events values = verify_from none values
