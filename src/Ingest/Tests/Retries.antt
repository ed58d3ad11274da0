-- ===== src/Ingest/Tests/Retries.antt =====
-- A run of a retry.
use web_comunidad_solar.Prelude.{◌≡◌, refl, inl, some, List, [], ◌∷◌, ◌++◌, codes, decimal}
use web_comunidad_solar.Json.{canonical_json}
use web_comunidad_solar.Ingest.Failure.{ok}
use web_comunidad_solar.Ingest.Platform.{Platform, sha256_canonical}
use web_comunidad_solar.Ingest.Domain.{received, failed, parse_state, allowed_transition}
use web_comunidad_solar.Ingest.Disk.{World, missing, regular}
use web_comunidad_solar.Ingest.Journal.{
  JournalEvent, event_json, draft_json, nullable_json, nullable_state, as_nullable_state,
  event_hash, decode_event, is_hash, is_event_type, is_sequence, verify_from, verify_journal_events,
  assert_transition_shape,
}
use web_comunidad_solar.Ingest.Journal.Format.{serialize_journal}
use web_comunidad_solar.Ingest.Record.{ChangeRecord, attempt_id, record_json, record_from_journal}
use web_comunidad_solar.Ingest.Store.{retried_record}
use web_comunidad_solar.Ingest.Store.Reading.{Holds}
use web_comunidad_solar.Ingest.Store.Retrying.{retry_record, retry_event, IsRetryable, retried}
use web_comunidad_solar.Ingest.Api.{retry_change}
use web_comunidad_solar.Ingest.Api.Released.{IsFree, locked}
use web_comunidad_solar.Ingest.Api.Retried.{retry_change-Holds}
use web_comunidad_solar.Ingest.Tests.{
  platform_reading, read_known, blind, seal, host, change, payload, opening, current, disk, midday,
}

abbrev failing : JournalEvent
failing = seal (record {
  sequence = 2;
  at = midday;
  type = codes "fail";
  from = some received;
  to = failed;
  payload_sha256 = sha256_canonical blind payload;
  previous_event_sha256 = some opening.event_sha256;
})

abbrev failed_events : List JournalEvent
failed_events = opening ∷ failing ∷ []

abbrev failed_record : ChangeRecord
failed_record = record current { state = failed; resume_state = received }

abbrev platform : Platform
platform = platform_reading (
    read_known (
      event_json opening
      ∷ event_json failing
      ∷ record_json failed_record
      ∷ event_json (retry_event blind host change failed_record failed_events midday)
      ∷ record_json (retry_record blind host change failed_record failed_events midday)
      ∷ []))

abbrev failed_disk : World
failed_disk = record disk {
  state_file = regular (canonical_json (record_json failed_record));
  journal_file = regular (serialize_journal failed_events);
}

failed-Holds : Holds platform change failed_record failed_events failed_disk
unfolding verify_journal_events verify_from decode_event assert_transition_shape allowed_transition
    parse_state as_nullable_state is_hash is_event_type is_sequence event_hash event_json draft_json
    nullable_json nullable_state record_json record_from_journal attempt_id decimal canonical_json
    sha256_canonical retried_record
failed-Holds = record {
  state_file = refl;
  journal_file = refl;
  verified = refl;
  agrees = refl;
  canonical = record {
    counted = refl;
    attempted = refl;
    named = refl;
    resumes = refl;
    created = refl;
    updated = refl;
  };
  reads_record = refl;
  reads_journal = (refl, (refl, tt));
}

failed-IsRetryable :
    IsRetryable platform host change failed_record failed_events midday
      (locked host failed_disk midday)
unfolding is_hash is_sequence event_hash event_json draft_json nullable_json nullable_state
    record_json attempt_id decimal canonical_json sha256_canonical retried_record
failed-IsRetryable = record {
  ended = inl refl;
  clock = refl;
  dated = refl;
  fits = refl;
  attempts = refl;
  payload = refl;
  hashed = refl;
  reads_event = refl;
  reads_record = refl;
}

failed-IsFree : IsFree host failed_disk midday
failed-IsFree = record {
  before = midday;
  guard_file = refl;
  lock_file = refl;
  clock = refl;
  clock_again = refl;
  guard_works = refl;
  lock_works = refl;
}

abbrev next : ChangeRecord
next = retry_record platform host change failed_record failed_events midday

next-attempt : (next.attempt_number ≡ 2) × (next.state ≡ received)
unfolding retried_record
next-attempt = (refl, refl)

abbrev after : World
after =
    record (retried platform host change failed_record failed_events midday
      (locked host failed_disk midday)) { lock_file = missing }

retry_change-Holds_example :
    (retry_change platform host change failed_disk ≡ (ok next, after))
    × Holds platform change next
        (failed_events ++ retry_event platform host change failed_record failed_events midday ∷ [])
        after
retry_change-Holds_example =
    retry_change-Holds platform host change failed_record failed_events midday failed_disk midday
      failed-IsFree failed-Holds failed-IsRetryable refl refl
