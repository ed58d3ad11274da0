-- ===== src/Ingest/Store/Reading.antt =====
-- A change whose record and journal agree on disk, and what is read from it.
use web_comunidad_solar.Prelude.{
  ◌≡◌, refl, sym, ◌∙◌, arith, Option, none, some, List, map, Text, ===_refl, ===_iff, ==_refl, All,
  length, first, last, subst,
}
use web_comunidad_solar.Json.{canonical_json}
use web_comunidad_solar.Ingest.Failure.{ok}
use web_comunidad_solar.Ingest.Platform.{Platform}
use web_comunidad_solar.Ingest.Disk.{Host, World, regular, read_regular_file}
use web_comunidad_solar.Ingest.Journal.{JournalEvent, event_json, verify_journal_events}
use web_comunidad_solar.Ingest.Journal.Chain.{state_eq_iff}
use web_comunidad_solar.Ingest.Journal.Format.{
  serialize_journal, Reads, parse_journal-serialize_journal,
}
use web_comunidad_solar.Ingest.Record.{
  ChangeRecord, record_json, assert_change_record, record_from_journal, IsCanonical, record_between,
  assert_change_record-record_json,
}
use web_comunidad_solar.Ingest.Store.{
  read_state_text, read_state, read_journal_text, read_journal, check_record, verify_journal_of,
  read_change,
}

-- The files hold the record `r` and the journal `es`, which agree, and the runtime's parser reads
-- what the program printed.
pub record Holds (p : Platform) (change_id : Text) (r : ChangeRecord) (es : List JournalEvent)
    (w : World) : Type 0 where
  pub state_file : w.state_file ≡ regular (canonical_json (record_json r))
  pub journal_file : w.journal_file ≡ regular (serialize_journal es)
  pub verified : verify_journal_events p (map event_json es) ≡ ok es
  pub agrees : record_from_journal change_id es ≡ ok r
  pub canonical : IsCanonical p r
  pub reads_record : p.json_parse (canonical_json (record_json r)) ≡ some (record_json r)
  pub reads_journal : All (Reads p) es

record_between-change_id :
    (id : Text) (es : List JournalEvent) (a z : Option JournalEvent) (r : ChangeRecord)
    → record_between id es a z ≡ ok r
    → r.change_id ≡ id
record_between-change_id id es none z r h = cc
record_between-change_id id es (some a) none r h = cc
record_between-change_id id es (some a) (some z) r h = ground arith

pub change_id-record_from_journal :
    (id : Text) (es : List JournalEvent) (r : ChangeRecord)
    → record_from_journal id es ≡ ok r
    → r.change_id ≡ id
unfolding record_from_journal
change_id-record_from_journal id es r h = record_between-change_id id es (first es) (last es) r h

check_between :
    (p : Platform) (host : Host) (id : Text) (es : List JournalEvent) (a z : Option JournalEvent)
    (r : ChangeRecord)
    → first es ≡ a
    → last es ≡ z
    → record_between id es a z ≡ ok r
    → record_from_journal r.change_id es ≡ ok r
    → check_record p host id r es ≡ ok es
unfolding check_record
check_between p host id es none z r f l h k = cc
check_between p host id es (some a) none r f l h k = cc
check_between p host id es (some a) (some z) r f l h k =
    rw (k, ===_refl (canonical_json (record_json r)))
      (ground (
        arith,
        state_eq_iff z.to r.state,
        ===_iff z.at r.updated_at,
        ===_iff a.at r.created_at,
        ==_refl (length es),
      ))

-- A record that is in its canonical form and is read by the runtime's parser.
pub read_state_text-eq :
    (p : Platform) (host : Host) (id : Text) (r : ChangeRecord)
    → r.change_id ≡ id
    → IsCanonical p r
    → p.json_parse (canonical_json (record_json r)) ≡ some (record_json r)
    → read_state_text p host id (some (canonical_json (record_json r))) ≡ ok (some r)
unfolding read_state_text
read_state_text-eq p host id r named c reads =
    let accepted : assert_change_record p id (record_json r) ≡ ok r =
      subst (λ t. assert_change_record p t (record_json r) ≡ ok r) named
        (assert_change_record-record_json p r c) in
    ground (arith, reads, accepted)

module _ (p : Platform) (host : Host) (id : Text) {r : ChangeRecord} {es : List JournalEvent}
    {w : World} (h : Holds p id r es w) where
  pub read_journal_text-Holds : read_journal_text p host id (serialize_journal es) ≡ ok es
  unfolding read_journal_text
  read_journal_text-Holds =
      ground (arith, parse_journal-serialize_journal p es h.reads_journal, h.verified)

  pub read_state-Holds : read_state p host id w ≡ (ok (some r), w)
  unfolding read_state read_regular_file
  read_state-Holds = ground (
    arith,
    read_state_text-eq p host id r (change_id-record_from_journal id es r h.agrees) h.canonical
        h.reads_record,
  )

  pub read_journal-Holds : read_journal p host id w ≡ (ok es, w)
  unfolding read_journal read_regular_file
  read_journal-Holds = ground (arith, read_journal_text-Holds)

  check_record-Holds : check_record p host id r es ≡ ok es
  check_record-Holds =
      check_between p host id es (first es) (last es) r refl refl
        (unfold record_from_journal in h.agrees)
        (subst (λ c. record_from_journal c es ≡ ok r)
          (sym (change_id-record_from_journal id es r h.agrees)) h.agrees)

  pub verify_journal_of-Holds : verify_journal_of p host id r w ≡ (ok es, w)
  unfolding verify_journal_of
  verify_journal_of-Holds = ground (arith, read_journal-Holds, check_record-Holds)

  -- What is read back is the record that the files hold, and reading changes nothing.
  pub read_change-Holds : read_change p host id w ≡ (ok r, w)
  unfolding read_change
  read_change-Holds = ground (arith, read_state-Holds, verify_journal_of-Holds)

-- Only the record and the journal matter.
pub Holds-same_files :
    (p : Platform) (id : Text) (r : ChangeRecord) (es : List JournalEvent) (w v : World)
    → Holds p id r es w
    → v.state_file ≡ w.state_file
    → v.journal_file ≡ w.journal_file
    → Holds p id r es v
Holds-same_files p id r es w v h s j = record {
  state_file = s ∙ h.state_file;
  journal_file = j ∙ h.journal_file;
  verified = h.verified;
  agrees = h.agrees;
  canonical = h.canonical;
  reads_record = h.reads_record;
  reads_journal = h.reads_journal;
}
