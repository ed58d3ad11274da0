-- ===== src/Ingest/Store/Writing.antt =====
-- Appending an event to a change on disk: what is written, and what is restored after a fault.
use web_comunidad_solar.Prelude.{
  ◌+◌, ◌≡◌, refl, sym, ap, ◌∙◌, arith, true, false, Option, none, some, List, [], ◌∷◌, ◌++◌, map,
  Text, ◌===◌, ===_iff, All, All-append, last, last_or, subst,
}
use web_comunidad_solar.Json.{canonical_json}
use web_comunidad_solar.Ingest.Failure.{ok}
use web_comunidad_solar.Ingest.Platform.{Platform, sha256_canonical}
use web_comunidad_solar.Ingest.Disk.{Host, World, works, regular, timestamp, write_atomic}
use web_comunidad_solar.Ingest.Domain.{allowed_transition}
use web_comunidad_solar.Ingest.Journal.{
  JournalEvent, sign, event_json, event_hash, create_journal_event, is_event_type, is_hash,
  is_sequence, is_date, nullable_hash, previous_hash, IsWritable,
}
use web_comunidad_solar.Ingest.Journal.Chain.{
  IsChain, IsLinked, Moves, advances, retry, lock_recovered,
}
use web_comunidad_solar.Ingest.Journal.Verified.{
  verify_journal_events-IsChain, verify_journal_events_of_IsChain,
}
use web_comunidad_solar.Ingest.Journal.Append.{IsChain-append, sequence-length}
use web_comunidad_solar.Ingest.Journal.Format.{serialize_journal, Reads}
use web_comunidad_solar.Ingest.Record.{ChangeRecord, record_json, record_from_journal, IsCanonical}
use web_comunidad_solar.Ingest.Record.Append.{
  IsRecordOf, record_from_journal-IsRecordOf, record_from_journal-append,
}
use web_comunidad_solar.Ingest.Store.{
  TransitionEvent, draft_of, advanced_record, persist, persist_transition, transition_from,
  read_change,
}
use web_comunidad_solar.Ingest.Store.Reading.{
  Holds, Holds-same_files, verify_journal_of-Holds, read_change-Holds,
}

pub last-nullable_hash :
    (p : Platform) (previous : Option JournalEvent) (es : List JournalEvent)
    → nullable_hash (previous_hash previous) ≡ true
    → All (IsWritable p) es
    → nullable_hash (previous_hash (last_or previous es)) ≡ true
last-nullable_hash p previous [] h w = h
last-nullable_hash p previous (e ∷ es) h (w, ws) = last-nullable_hash p (some e) es w.hashed ws

Moves-last :
    (e y : JournalEvent) (z : Option JournalEvent)
    → z ≡ some y
    → e.from ≡ some y.to
    → (e.type === retry) ≡ false
    → (e.type === lock_recovered) ≡ false
    → allowed_transition y.to e.to ≡ true
    → Moves e z
Moves-last e y z at_end came a b step = rw at_end (
    advances (ground (arith, ===_iff e.type retry)) (ground (arith, ===_iff e.type lock_recovered))
      came step)

abbrev pub ticked : World → World
ticked w = record w { ticks = w.ticks + 1 }

module _ (p : Platform) (host : Host) (id : Text) (r : ChangeRecord) (es : List JournalEvent)
    (event : TransitionEvent) (at : Text) where
  abbrev pub next_record : ChangeRecord
  next_record = advanced_record p host id r event.to at

  abbrev pub next_event : JournalEvent
  next_event =
      let d = draft_of p host id next_record at event.type (some r.state) event.payload es in
      sign d (event_hash p d)

  -- What a transition needs beside the change on disk: a permitted move of an ordinary type, a
  -- working clock, room for one more revision, digests of the form that SHA-256 has, and a parser
  -- that reads what is printed.
  pub record IsReady (w : World) : Type 0 where
    pub typed : is_event_type event.type ≡ true
    pub not_retry : (event.type === retry) ≡ false
    pub not_recovery : (event.type === lock_recovered) ≡ false
    pub allowed : allowed_transition r.state event.to ≡ true
    pub clock : host.now w.ticks ≡ some at
    pub dated : is_date (p.date_parse at) ≡ true
    pub fits : is_sequence (r.revision + 1) ≡ true
    pub payload : is_hash (sha256_canonical p event.payload) ≡ true
    pub hashed : is_hash next_event.event_sha256 ≡ true
    pub reads_event : Reads p next_event
    pub reads_record :
        p.json_parse (canonical_json (record_json next_record)) ≡ some (record_json next_record)

  -- The disk after the transition.
  abbrev pub written : World → World
  written w = record w {
    state_file = regular (canonical_json (record_json next_record));
    journal_file = regular (serialize_journal (es ++ next_event ∷ []));
    ticks = w.ticks + 1;
    writes = w.writes + 2;
  }

  module _ {w : World} (h : Holds p id r es w) (ready : IsReady w) where
    persist-works :
        (v : World)
        → v.journal_file ≡ regular (serialize_journal es)
        → v.state_file ≡ regular (canonical_json (record_json r))
        → host.fault v.writes ≡ works
        → host.fault (v.writes + 1) ≡ works
        → persist p host id (some r) es next_event next_record v ≡ (
          ok next_record,
          record v {
            state_file = regular (canonical_json (record_json next_record));
            journal_file = regular (serialize_journal (es ++ next_event ∷ []));
            writes = v.writes + 2;
          },
        )
    unfolding persist write_atomic
    persist-works v j s f g = ground arith

    facts : IsChain p none es × All (IsWritable p) es
    facts = verify_journal_events-IsChain p (map event_json es) es h.verified

    created :
        create_journal_event p
          (draft_of p host id next_record at event.type (some r.state) event.payload es)
        ≡ ok next_event
    unfolding create_journal_event advanced_record
    created =
        ground
          (arith, ready.fits, ready.typed, ready.payload, last-nullable_hash p none es refl facts.1)

    transition_from-persist :
        (v : World)
        → Holds p id r es v
        → transition_from p host id (some r) event false at v
          ≡ persist p host id (some r) es next_event next_record v
    unfolding transition_from
    transition_from-persist v k =
        ground (arith, verify_journal_of-Holds p host id k, ready.allowed, created)

    -- Up to the writes a permitted transition only reads the clock.
    pub persist_transition-persist :
        persist_transition p host id (some r) event false w
        ≡ persist p host id (some r) es next_event next_record (ticked w)
    unfolding persist_transition timestamp
    persist_transition-persist = ground (
      arith,
      ready.typed,
      ready.not_retry,
      ready.not_recovery,
      ready.clock,
      transition_from-persist (ticked w) (Holds-same_files p id r es w (ticked w) h refl refl),
    )

    persist_transition-works :
        host.fault w.writes ≡ works
        → host.fault (w.writes + 1) ≡ works
        → persist_transition p host id (some r) event false w ≡ (ok next_record, written w)
    persist_transition-works f g =
        persist_transition-persist ∙ persist-works (ticked w) h.journal_file h.state_file f g

    record_of : IsRecordOf id es r
    record_of = record_from_journal-IsRecordOf id es r h.agrees

    linked : IsLinked p (last es) next_event
    unfolding advanced_record
    linked = record {
      counted = omega (arith, sequence-length p es facts.0, record_of.counted);
      chained = refl;
      moved =
          Moves-last next_event record_of.end_event (last es) record_of.ends
            (ap some (sym record_of.state)) ready.not_retry ready.not_recovery
            (subst (λ s. allowed_transition s event.to ≡ true) (sym record_of.state) ready.allowed);
      sealed = refl;
    }

    agrees : record_from_journal id (es ++ next_event ∷ []) ≡ ok next_record
    unfolding advanced_record
    agrees = ground (
      arith,
      record_from_journal-append id es next_event r h.agrees,
      ready.not_retry,
      record_of.attempt,
    )

    writable : IsWritable p next_event
    unfolding advanced_record
    writable = record {
      counted = ready.fits;
      dated = ready.dated;
      typed = ready.typed;
      payload = ready.payload;
      previous = last-nullable_hash p none es refl facts.1;
      hashed = ready.hashed;
    }

    pub next_record-IsCanonical : IsCanonical p next_record
    unfolding advanced_record
    next_record-IsCanonical = record {
      counted = ready.fits;
      attempted = h.canonical.attempted;
      named = h.canonical.named;
      resumes = ground (arith, h.canonical.resumes);
      created = h.canonical.created;
      updated = ready.dated;
    }

    written-Holds : Holds p id next_record (es ++ next_event ∷ []) (written w)
    written-Holds = record {
      state_file = refl;
      journal_file = refl;
      verified =
          verify_journal_events_of_IsChain p (es ++ next_event ∷ [])
            (IsChain-append p none es next_event facts.0 linked)
            (All-append (IsWritable p) es (next_event ∷ []) facts.1 (writable, tt));
      agrees = agrees;
      canonical = next_record-IsCanonical;
      reads_record = ready.reads_record;
      reads_journal =
          All-append (Reads p) es (next_event ∷ []) h.reads_journal (ready.reads_event, tt);
    }

    -- A permitted transition on an intact change, with both writes working, returns the advanced
    -- record and leaves an intact change with one event more; reading it gives that record.
    pub persist_transition-Holds :
        host.fault w.writes ≡ works
        → host.fault (w.writes + 1) ≡ works
        → (persist_transition p host id (some r) event false w ≡ (ok next_record, written w))
          × Holds p id next_record (es ++ next_event ∷ []) (written w)
          × (read_change p host id (written w) ≡ (ok next_record, written w))
    persist_transition-Holds f g =
        (persist_transition-works f g, written-Holds, read_change-Holds p host id written-Holds)
