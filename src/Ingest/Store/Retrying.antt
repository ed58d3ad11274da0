-- ===== src/Ingest/Store/Retrying.antt =====
-- A new attempt of a change that failed or was rejected.
use web_comunidad_solar.Prelude.{
  ◌+◌, ◌≡◌, refl, sym, ap, arith, ◌⊎◌, true, Option, none, some, List, [], ◌∷◌, ◌++◌, Text,
  ===_refl, All, All-append, last, subst,
}
use web_comunidad_solar.Json.{canonical_json}
use web_comunidad_solar.Ingest.Failure.{ok}
use web_comunidad_solar.Ingest.Platform.{Platform, sha256_canonical}
use web_comunidad_solar.Ingest.Disk.{Host, World, works, regular, timestamp, write_atomic}
use web_comunidad_solar.Ingest.Domain.{rejected, failed, is_resume_state}
use web_comunidad_solar.Ingest.Journal.{
  JournalEvent, sign, event_hash, create_journal_event, is_event_type, is_hash, is_sequence,
  is_date, IsWritable,
}
use web_comunidad_solar.Ingest.Journal.Chain.{IsChain, IsLinked, Moves, retries, retry}
use web_comunidad_solar.Ingest.Journal.Verified.{
  verify_journal_events-IsChain, verify_journal_events_of_IsChain,
}
use web_comunidad_solar.Ingest.Journal.Append.{IsChain-append, sequence-length}
use web_comunidad_solar.Ingest.Journal.Format.{serialize_journal, Reads}
use web_comunidad_solar.Ingest.Record.{
  ChangeRecord, attempt_id, record_json, record_from_journal, IsCanonical,
}
use web_comunidad_solar.Ingest.Record.Append.{
  IsRecordOf, record_from_journal-IsRecordOf, record_from_journal-append,
}
use web_comunidad_solar.Ingest.Store.{
  draft_of, attempt_json, retried_record, persist, retry_under_lock,
}
use web_comunidad_solar.Ingest.Store.Reading.{
  Holds, Holds-same_files, verify_journal_of-Holds, read_change-Holds,
}
use web_comunidad_solar.Ingest.Store.Writing.{last-nullable_hash, ticked}

Moves-retry :
    (e y : JournalEvent) (z : Option JournalEvent)
    → z ≡ some y
    → e.type ≡ retry
    → e.from ≡ some y.to
    → (y.to ≡ failed) ⊎ (y.to ≡ rejected)
    → is_resume_state e.to ≡ true
    → Moves e z
Moves-retry e y z at_end typed came ended resume = rw at_end (retries typed came ended resume)

module _ (p : Platform) (host : Host) (id : Text) (r : ChangeRecord) (es : List JournalEvent)
    (at : Text) where
  abbrev pub retry_record : ChangeRecord
  retry_record = retried_record p host id r at

  abbrev pub retry_event : JournalEvent
  retry_event =
      let d =
        draft_of p host id retry_record at retry (some r.state)
          (attempt_json p host id retry_record.attempt_number) es in
      sign d (event_hash p d)

  -- What a new attempt needs beside the change on disk: a change that failed or was rejected, a
  -- working clock, room for one more revision and attempt, digests of the form that SHA-256 has, and
  -- a parser that reads what is printed.
  pub record IsRetryable (w : World) : Type 0 where
    pub ended : (r.state ≡ failed) ⊎ (r.state ≡ rejected)
    pub clock : host.now w.ticks ≡ some at
    pub dated : is_date (p.date_parse at) ≡ true
    pub fits : is_sequence (r.revision + 1) ≡ true
    pub attempts : is_sequence (r.attempt_number + 1) ≡ true
    pub payload :
        is_hash (sha256_canonical p (attempt_json p host id retry_record.attempt_number)) ≡ true
    pub hashed : is_hash retry_event.event_sha256 ≡ true
    pub reads_event : Reads p retry_event
    pub reads_record :
        p.json_parse (canonical_json (record_json retry_record)) ≡ some (record_json retry_record)

  -- The disk after the retry.
  abbrev pub retried : World → World
  retried w = record w {
    state_file = regular (canonical_json (record_json retry_record));
    journal_file = regular (serialize_journal (es ++ retry_event ∷ []));
    ticks = w.ticks + 1;
    writes = w.writes + 2;
  }

  module _ {w : World} (h : Holds p id r es w) (ready : IsRetryable w) where
    facts : IsChain p none es × All (IsWritable p) es
    facts = verify_journal_events-IsChain p _ es h.verified

    record_of : IsRecordOf id es r
    record_of = record_from_journal-IsRecordOf id es r h.agrees

    type-IsEventType : is_event_type retry ≡ true
    unfolding is_event_type
    type-IsEventType = refl

    created :
        create_journal_event p (
          draft_of p host id retry_record at retry
            (some r.state)
            (attempt_json p host id retry_record.attempt_number)
            es)
        ≡ ok retry_event
    unfolding create_journal_event retried_record
    created = ground (
      arith,
      ready.fits,
      type-IsEventType,
      ready.payload,
      last-nullable_hash p none es refl facts.1,
    )

    persist-retried :
        (v : World)
        → v.journal_file ≡ regular (serialize_journal es)
        → v.state_file ≡ regular (canonical_json (record_json r))
        → host.fault v.writes ≡ works
        → host.fault (v.writes + 1) ≡ works
        → persist p host id (some r) es retry_event retry_record v ≡ (
          ok retry_record,
          record v {
            state_file = regular (canonical_json (record_json retry_record));
            journal_file = regular (serialize_journal (es ++ retry_event ∷ []));
            writes = v.writes + 2;
          },
        )
    unfolding persist write_atomic
    persist-retried v j s f g = ground arith

    retry_under_lock-persist :
        host.fault w.writes ≡ works
        → host.fault (w.writes + 1) ≡ works
        → retry_under_lock p host id w ≡ (ok retry_record, retried w)
    unfolding retry_under_lock timestamp
    retry_under_lock-persist f g = ground (
      arith,
      ready.ended,
      ready.clock,
      read_change-Holds p host id h,
      verify_journal_of-Holds p host id (Holds-same_files p id r es w (ticked w) h refl refl),
      created,
      persist-retried (ticked w) h.journal_file h.state_file f g,
    )

    linked : IsLinked p (last es) retry_event
    unfolding retried_record
    linked = record {
      counted = omega (arith, sequence-length p es facts.0, record_of.counted);
      chained = refl;
      moved =
          Moves-retry retry_event record_of.end_event (last es) record_of.ends refl
            (ap some (sym record_of.state))
            (subst (λ s. (s ≡ failed) ⊎ (s ≡ rejected)) (sym record_of.state) ready.ended)
            h.canonical.resumes;
      sealed = refl;
    }

    agrees : record_from_journal id (es ++ retry_event ∷ []) ≡ ok retry_record
    unfolding retried_record
    agrees = ground (
      arith,
      record_from_journal-append id es retry_event r h.agrees,
      ===_refl retry,
      h.canonical.resumes,
    )

    writable : IsWritable p retry_event
    unfolding retried_record
    writable = record {
      counted = ready.fits;
      dated = ready.dated;
      typed = type-IsEventType;
      payload = ready.payload;
      previous = last-nullable_hash p none es refl facts.1;
      hashed = ready.hashed;
    }

    retry_record-IsCanonical : IsCanonical p retry_record
    unfolding retried_record
    retry_record-IsCanonical = record {
      counted = ready.fits;
      attempted = ready.attempts;
      named = ===_refl (attempt_id (r.attempt_number + 1));
      resumes = h.canonical.resumes;
      created = h.canonical.created;
      updated = ready.dated;
    }

    retried-Holds : Holds p id retry_record (es ++ retry_event ∷ []) (retried w)
    retried-Holds = record {
      state_file = refl;
      journal_file = refl;
      verified =
          verify_journal_events_of_IsChain p (es ++ retry_event ∷ [])
            (IsChain-append p none es retry_event facts.0 linked)
            (All-append (IsWritable p) es (retry_event ∷ []) facts.1 (writable, tt));
      agrees = agrees;
      canonical = retry_record-IsCanonical;
      reads_record = ready.reads_record;
      reads_journal =
          All-append (Reads p) es (retry_event ∷ []) h.reads_journal (ready.reads_event, tt);
    }

    pub retry_under_lock-Holds :
        host.fault w.writes ≡ works
        → host.fault (w.writes + 1) ≡ works
        → (retry_under_lock p host id w ≡ (ok retry_record, retried w))
          × Holds p id retry_record (es ++ retry_event ∷ []) (retried w)
    retry_under_lock-Holds f g = (retry_under_lock-persist f g, retried-Holds)
