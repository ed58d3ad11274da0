-- ===== src/Ingest/Tests/Changes.antt =====
-- Runs of the store on a change.
use web_comunidad_solar.Prelude.{
  inl, inr, ℕ, ◌≡◌, refl, false, none, some, [], ◌∷◌, ◌++◌, ◌==◌, decimal, if◌then◌else◌,
}
use web_comunidad_solar.Json.{canonical_json}
use web_comunidad_solar.Ingest.Failure.{
  Result, ok, err, write_failed, journal_not_at_revision, change_locked,
}
use web_comunidad_solar.Ingest.Platform.{sha256_canonical}
use web_comunidad_solar.Ingest.Domain.{allowed_transition}
use web_comunidad_solar.Ingest.Disk.{
  Host, World, Fault, works, fails_before, fails_after, missing, regular,
}
use web_comunidad_solar.Ingest.Journal.{
  event_json, draft_json, nullable_json, nullable_state, event_hash, is_hash, is_event_type,
  is_sequence,
}
use web_comunidad_solar.Ingest.Record.{
  ChangeRecord, attempt_id, record_json, record_from_journal, IsCanonical,
}
use web_comunidad_solar.Ingest.Store.{advanced_record, persist_transition, read_change}
use web_comunidad_solar.Ingest.Store.Reading.{Holds}
use web_comunidad_solar.Ingest.Store.Writing.{IsReady, next_record, next_event, written}
use web_comunidad_solar.Ingest.Store.Faults.{
  after_fault, persist_transition_rolls_back, persist_transition_tears,
}
use web_comunidad_solar.Ingest.Owner.{owner_json, parse_lock_owner}
use web_comunidad_solar.Ingest.Owner.Abandoned.{IsInUse}
use web_comunidad_solar.Ingest.Lock.{acquire_lock}
use web_comunidad_solar.Ingest.Lock.Taking.{owner_text, acquire_lock-free, acquire_lock-held}
use web_comunidad_solar.Ingest.Api.{with_change_lock, transition}
use web_comunidad_solar.Ingest.Api.Released.{
  IsFree, locked, with_change_lock-released, transition-Holds,
}
use web_comunidad_solar.Ingest.Tests.{
  platform, host, host_with, change, events, current, planning, planning_event, planned_record,
  disk, midday, owner,
}
use web_comunidad_solar.Ingest.Tests.Journals.{events-verified, reads}

current-IsCanonical : IsCanonical platform current
unfolding is_sequence attempt_id decimal
current-IsCanonical = record {
  counted = refl;
  attempted = refl;
  named = refl;
  resumes = refl;
  created = refl;
  updated = refl;
}

pub disk-Holds : Holds platform change current events disk
unfolding record_from_journal canonical_json record_json attempt_id event_json draft_json event_hash
    nullable_json nullable_state sha256_canonical
disk-Holds = record {
  state_file = refl;
  journal_file = refl;
  verified = events-verified;
  agrees = refl;
  canonical = current-IsCanonical;
  reads_record = refl;
  reads_journal = reads;
}

next_record-planned :
    next_record platform host change current events planning midday ≡ planned_record
unfolding advanced_record
next_record-planned = refl

next_event-planned : next_event platform host change current events planning midday ≡ planning_event
unfolding advanced_record event_hash draft_json nullable_json nullable_state canonical_json
    sha256_canonical
next_event-planned = refl

module _ (fault : ℕ → Fault) (w : World) where
  planning-IsReady : IsReady platform (host_with fault) change current events planning midday w
  unfolding advanced_record record_json attempt_id is_event_type is_hash is_sequence event_json
      event_hash draft_json nullable_json nullable_state canonical_json sha256_canonical
      allowed_transition
  planning-IsReady = record {
    typed = refl;
    not_retry = refl;
    not_recovery = refl;
    allowed = refl;
    clock = refl;
    dated = refl;
    fits = refl;
    payload = refl;
    hashed = refl;
    reads_event = refl;
    reads_record = refl;
  }

abbrev failing_at : ℕ → Fault → ℕ → Fault
failing_at k f n = if n == k then f else works

abbrev after_planning : World → World
after_planning w = written platform host change current events planning midday w

abbrev no_journal : Host
no_journal = host_with (failing_at 0 fails_before)

abbrev no_record : Host
no_record = host_with (failing_at 1 fails_before)

persist_transition_rolls_back_example :
    (persist_transition platform no_record change (some current) planning false disk
      ≡ (err write_failed, after_fault 3 disk))
    × Holds platform change current events (after_fault 3 disk)
persist_transition_rolls_back_example =
    persist_transition_rolls_back platform no_record change current events planning midday
      disk-Holds (planning-IsReady (failing_at 1 fails_before) disk) refl refl refl

abbrev late_record : Host
late_record = host_with (failing_at 1 fails_after)

abbrev torn_disk : World
torn_disk = record disk {
  state_file = regular (
      canonical_json
        (record_json (next_record platform late_record change current events planning midday)));
  ticks = 1;
  writes = 3;
}

persist_transition_tears_example :
    (persist_transition platform late_record change (some current) planning false disk
      ≡ (err write_failed, torn_disk))
    × (read_change platform late_record change torn_disk ≡ (err journal_not_at_revision, torn_disk))
persist_transition_tears_example =
    persist_transition_tears platform late_record change current events planning midday disk-Holds
      (planning-IsReady (failing_at 1 fails_after) disk) refl refl refl

acquire_lock-free_example : acquire_lock platform host change disk ≡ (
  ok (record { owner_bytes = owner_text host midday 1; recovery_pending = false }),
  locked host disk midday,
)
acquire_lock-free_example =
    acquire_lock-free platform host change disk midday midday refl refl refl refl refl refl

abbrev held : World
held = record disk { lock_file = regular (canonical_json (owner_json owner)) }

owner-parsed : parse_lock_owner platform (canonical_json (owner_json owner)) ≡ some owner
unfolding parse_lock_owner canonical_json owner_json event_json draft_json event_hash nullable_json
    nullable_state sha256_canonical record_json attempt_id
owner-parsed = refl

owner-IsInUse : IsInUse platform host owner midday
owner-IsInUse = inr (inl refl)

acquire_lock-held_example :
    acquire_lock platform host change held
    ≡ (err change_locked, record held { ticks = 3; ids = 2; writes = 1 })
acquire_lock-held_example =
    acquire_lock-held platform host change held (canonical_json (owner_json owner)) midday midday
      midday owner refl refl owner-parsed refl refl refl refl owner-IsInUse

disk-IsFree : IsFree host disk midday
disk-IsFree = record {
  before = midday;
  guard_file = refl;
  lock_file = refl;
  clock = refl;
  clock_again = refl;
  guard_works = refl;
  lock_works = refl;
}

abbrev failing : World → Result ChangeRecord × World
failing w = (err write_failed, w)

with_change_lock-released_example :
    with_change_lock platform host change failing none disk
    ≡ (err write_failed, record (locked host disk midday) { lock_file = missing })
with_change_lock-released_example =
    with_change_lock-released platform host change failing none disk (locked host disk midday)
      midday (err write_failed) disk-IsFree refl refl

transition-Holds_example :
    (transition platform host change planning disk ≡ (
      ok (next_record platform host change current events planning midday),
      record (after_planning (locked host disk midday)) { lock_file = missing },
    ))
    × Holds platform change
        (next_record platform host change current events planning midday)
        (events ++ next_event platform host change current events planning midday ∷ [])
        (record (after_planning (locked host disk midday)) { lock_file = missing })
transition-Holds_example =
    transition-Holds platform host change current events planning midday disk midday disk-IsFree
      disk-Holds (planning-IsReady (λ n. works) (locked host disk midday)) refl refl
