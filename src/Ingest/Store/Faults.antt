-- ===== src/Ingest/Store/Faults.antt =====
-- A transition whose writes fail: when the files are restored, and when they are not.
use web_comunidad_solar.Prelude.{ℕ, ◌+◌, ◌≡◌, refl, ◌∙◌, arith, false, some, List, Text}
use web_comunidad_solar.Json.{canonical_json}
use web_comunidad_solar.Ingest.Failure.{Result, ok, err, write_failed, journal_not_at_revision}
use web_comunidad_solar.Ingest.Platform.{Platform}
use web_comunidad_solar.Ingest.Disk.{
  Host, World, works, fails_before, fails_after, regular, read_regular_file, write_atomic,
}
use web_comunidad_solar.Ingest.Journal.{JournalEvent}
use web_comunidad_solar.Ingest.Journal.Format.{serialize_journal}
use web_comunidad_solar.Ingest.Record.{ChangeRecord, record_json}
use web_comunidad_solar.Ingest.Record.Append.{record_from_journal-IsRecordOf}
use web_comunidad_solar.Ingest.Store.{
  TransitionEvent, advanced_record, persist, persist_transition, read_state, read_journal,
  check_record, verify_journal_of, read_change,
}
use web_comunidad_solar.Ingest.Store.Reading.{
  Holds, Holds-same_files, read_state_text-eq, read_journal_text-Holds,
  change_id-record_from_journal,
}
use web_comunidad_solar.Ingest.Store.Writing.{
  ticked, next_record, next_event, IsReady, next_record-IsCanonical, persist_transition-persist,
}

-- The disk after a fault, with the clock and the count of the writes moved on.
abbrev pub after_fault : ℕ → World → World
after_fault n w = record w { ticks = w.ticks + 1; writes = w.writes + n }

module _ (p : Platform) (host : Host) (id : Text) (r : ChangeRecord) (es : List JournalEvent)
    (event : TransitionEvent) (at : Text) {w : World} (h : Holds p id r es w)
    (ready : IsReady p host id r es event at w) where
  abbrev pub attempt : Result ChangeRecord × World
  attempt = persist_transition p host id (some r) event false w

  abbrev event' : JournalEvent
  event' = next_event p host id r es event at

  abbrev pub next : ChangeRecord
  next = next_record p host id r es event at

  module _ (v : World) (j : v.journal_file ≡ regular (serialize_journal es))
      (s : v.state_file ≡ regular (canonical_json (record_json r))) where
    journal_fault :
        host.fault v.writes ≡ fails_before
        → persist p host id (some r) es event' next v
          ≡ (err write_failed, record v { writes = v.writes + 1 })
    unfolding persist write_atomic
    journal_fault f = ground arith

    record_fault :
        host.fault v.writes ≡ works
        → host.fault (v.writes + 1) ≡ fails_before
        → host.fault (v.writes + 2) ≡ works
        → persist p host id (some r) es event' next v
          ≡ (err write_failed, record v { writes = v.writes + 3 })
    unfolding persist write_atomic
    record_fault f g k = ground arith

    late_fault :
        host.fault v.writes ≡ works
        → host.fault (v.writes + 1) ≡ fails_after
        → host.fault (v.writes + 2) ≡ works
        → persist p host id (some r) es event' next v ≡ (
          err write_failed,
          record v {
            state_file = regular (canonical_json (record_json next));
            writes = v.writes + 3;
          },
        )
    unfolding persist write_atomic
    late_fault f g k = ground arith

  restored : (n : ℕ) → Holds p id r es (after_fault n w)
  restored n = Holds-same_files p id r es w (after_fault n w) h refl refl

  -- A permitted transition of an intact change whose journal cannot be written fails and leaves the
  -- change as it was.
  pub persist_transition_journal_fault :
      host.fault w.writes ≡ fails_before
      → (attempt ≡ (err write_failed, after_fault 1 w)) × Holds p id r es (after_fault 1 w)
  persist_transition_journal_fault f = (
    persist_transition-persist p host id r es event at h ready
        ∙ journal_fault (ticked w) h.journal_file h.state_file f,
    restored 1,
  )

  -- A permitted transition of an intact change whose record cannot be written, after its event was,
  -- fails and leaves the change as it was if the journal can be written once more.
  pub persist_transition_rolls_back :
      host.fault w.writes ≡ works
      → host.fault (w.writes + 1) ≡ fails_before
      → host.fault (w.writes + 2) ≡ works
      → (attempt ≡ (err write_failed, after_fault 3 w)) × Holds p id r es (after_fault 3 w)
  persist_transition_rolls_back f g k = (
    persist_transition-persist p host id r es event at h ready
        ∙ record_fault (ticked w) h.journal_file h.state_file f g k,
    restored 3,
  )

  abbrev pub torn : World
  torn = record w {
    state_file = regular (canonical_json (record_json next));
    ticks = w.ticks + 1;
    writes = w.writes + 3;
  }

  torn_state : read_state p host id torn ≡ (ok (some next), torn)
  unfolding read_state read_regular_file advanced_record
  torn_state = ground (
    arith,
    read_state_text-eq p host id next (change_id-record_from_journal id es r h.agrees)
        (next_record-IsCanonical p host id r es event at h ready) ready.reads_record,
  )

  torn_check : check_record p host id next es ≡ err journal_not_at_revision
  unfolding check_record advanced_record
  torn_check = ground (arith, (record_from_journal-IsRecordOf id es r h.agrees).counted)

  torn_read : read_change p host id torn ≡ (err journal_not_at_revision, torn)
  unfolding read_change verify_journal_of read_journal read_regular_file
  torn_read =
      ground (arith, torn_state, torn_check, h.journal_file, read_journal_text-Holds p host id h)

  -- A permitted transition of an intact change, where the write of the record fails after the new
  -- file is in place and the old journal is written back, fails and leaves the new record beside the
  -- old journal: reading the change then fails as well.
  pub persist_transition_tears :
      host.fault w.writes ≡ works
      → host.fault (w.writes + 1) ≡ fails_after
      → host.fault (w.writes + 2) ≡ works
      → (attempt ≡ (err write_failed, torn))
        × (read_change p host id torn ≡ (err journal_not_at_revision, torn))
  persist_transition_tears f g k = (
    persist_transition-persist p host id r es event at h ready
        ∙ late_fault (ticked w) h.journal_file h.state_file f g k,
    torn_read,
  )
