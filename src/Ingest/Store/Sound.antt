-- ===== src/Ingest/Store/Sound.antt =====
-- What reading a change establishes, whatever the disk holds.
use web_comunidad_solar.Prelude.{
  ◌≡◌, refl, ap, ◌∙◌, subst, arith, ◌⊎◌, inl, inr, [], Option, none, some, List, Text, eq_of_===,
  All, length, last,
}
use web_comunidad_solar.Json.{canonical_json}
use web_comunidad_solar.Ingest.Failure.{Result, ok, err}
use web_comunidad_solar.Ingest.Platform.{Platform}
use web_comunidad_solar.Ingest.Effect.{>>=-steps}
use web_comunidad_solar.Ingest.Disk.{Host, World, journal, read_regular_file}
use web_comunidad_solar.Ingest.Journal.{JournalEvent, IsWritable}
use web_comunidad_solar.Ingest.Journal.Chain.{IsChain}
use web_comunidad_solar.Ingest.Journal.Verified.{verify_journal_events-IsChain}
use web_comunidad_solar.Ingest.Journal.Format.{parse_journal}
use web_comunidad_solar.Ingest.Record.{ChangeRecord, record_json, record_from_journal}
use web_comunidad_solar.Ingest.Store.{
  read_state, read_journal_text, read_journal, check_record, verify_journal_of, or_missing,
  or_empty, read_change,
}
use web_comunidad_solar.Ingest.Store.OnDisk.{
  IsRecorded, IsLogged, read_journal-IsLogged, read_state-IsRecorded,
}

-- The journal is a chain of well-formed events, it has as many as the record counts, and the record
-- that it stands for prints as the record that was read.
pub record IsBacked (p : Platform) (r : ChangeRecord) (es : List JournalEvent) : Type 0 where
  pub chain : IsChain p none es
  pub forms : All (IsWritable p) es
  pub counted : length es ≡ r.revision
  pub expected : ChangeRecord
  pub replayed : record_from_journal r.change_id es ≡ ok expected
  pub same : canonical_json (record_json r) ≡ canonical_json (record_json expected)

module _ (p : Platform) (host : Host) (id : Text) where
  read_journal_text-IsChain :
      (t : Text) (es : List JournalEvent)
      → read_journal_text p host id t ≡ ok es
      → IsChain p none es × All (IsWritable p) es
  unfolding read_journal_text
  read_journal_text-IsChain t es h = from (parse_journal p t) refl
    where
      from : (x : Result _) → parse_journal p t ≡ x → IsChain p none es × All (IsWritable p) es
      from (ok values) e = verify_journal_events-IsChain p values es (ground (arith, e, h))
      from (err f) e = absurd (ground (arith, e, h))

  Agrees : ChangeRecord → List JournalEvent → List JournalEvent → Type 0
  Agrees r es fs =
      (fs ≡ es)
      × (length es ≡ r.revision)
      × ((expected : ChangeRecord) × (record_from_journal r.change_id es ≡ ok expected)
          × (canonical_json (record_json r) ≡ canonical_json (record_json expected)))

  check_record-Agrees :
      (r : ChangeRecord) (es fs : List JournalEvent)
      → check_record p host id r es ≡ ok fs
      → Agrees r es fs
  unfolding check_record Agrees
  check_record-Agrees r es fs h = from (record_from_journal r.change_id es) refl
    where
      from : (x : Result ChangeRecord) → record_from_journal r.change_id es ≡ x → Agrees r es fs
      from (ok expected) e = (
        ground (arith, e, h),
        ground (arith, e, h),
        (expected, e, eq_of_=== _ _ (ground (arith, e, h))),
      )
      from (err f) e = absurd (ground (arith, e, h))

  read_state-same :
      (w v : World) (x : Option ChangeRecord) → read_state p host id w ≡ (ok x, v) → v ≡ w
  unfolding read_state read_regular_file
  read_state-same w v x h = ground arith

  or_missing-same :
      (found : Option ChangeRecord) (w v : World) (r : ChangeRecord)
      → or_missing p host id found w ≡ (ok r, v)
      → v ≡ w
  or_missing-same none w v r h = absurd (ground arith)
  or_missing-same (some x) w v r h = ground arith

  read_journal-IsChain :
      (w v : World) (es : List JournalEvent)
      → read_journal p host id w ≡ (ok es, v)
      → (v ≡ w) × IsChain p none es × All (IsWritable p) es
  unfolding read_journal read_regular_file
  read_journal-IsChain w v es h =
      let (bytes, v', read, text) = >>=-steps (read_regular_file journal) _ w v es h in
      let (chain, forms) =
        read_journal_text-IsChain (or_empty p host id bytes) es (ground (arith, text)) in
      (ground (arith, read, text), chain, forms)

  -- The journal that agrees with a record has an event.
  check_record-some :
      (r : ChangeRecord) (fs : List JournalEvent) → check_record p host id r [] ≡ ok fs → ⊥
  unfolding check_record
  check_record-some r fs h = absurd (ground (arith, h))

  check_record-IsLogged :
      (w : World) (r : ChangeRecord) (es fs : List JournalEvent)
      → check_record p host id r es ≡ ok fs
      → (es ≡ []) ⊎ IsLogged p w es
      → IsLogged p w es
  check_record-IsLogged w r es fs h (inl blank) =
      absurd (check_record-some r fs (subst (λ x. check_record p host id r x ≡ ok fs) blank h))
  check_record-IsLogged w r es fs h (inr logged) = logged

  verify_journal_of-IsBacked :
      (w v : World) (r : ChangeRecord) (fs : List JournalEvent)
      → verify_journal_of p host id r w ≡ (ok fs, v)
      → (v ≡ w) × ((es : List JournalEvent) × IsLogged p w es × IsBacked p r es)
  unfolding verify_journal_of Agrees
  verify_journal_of-IsBacked w v r fs h =
      let (es, v', read, checked) = >>=-steps (read_journal p host id) _ w v fs h in
      let (same, chain, forms) = read_journal-IsChain w v' es read in
      let (kept, counted, (expected, replayed, printed)) =
        check_record-Agrees r es fs (ground (arith, checked)) in
      (
        ground (arith, same, checked),
        (
          es,
          check_record-IsLogged w r es fs (ground (arith, checked))
              (read_journal-IsLogged p host id w v' es read),
          record {
            chain = chain;
            forms = forms;
            counted = counted;
            expected = expected;
            replayed = replayed;
            same = printed;
          },
        ),
      )

  found_record :
      (found : Option ChangeRecord) (w v : World) (r : ChangeRecord)
      → or_missing p host id found w ≡ (ok r, v)
      → found ≡ some r
  found_record none w v r h = absurd (ground arith)
  found_record (some x) w v r h = ground arith

  -- Whatever the disk holds, a record that is read is the one in the file of the record, and the journal
  -- file holds a chain of well-formed events, as many as the record counts, and the record that the
  -- journal stands for prints as the one that was read; reading changes nothing.
  pub read_change-IsBacked :
      (w u : World) (r : ChangeRecord)
      → read_change p host id w ≡ (ok r, u)
      → (u ≡ w)
        × IsRecorded p id w r
        × ((es : List JournalEvent) × IsLogged p w es × IsBacked p r es)
  unfolding read_change
  read_change-IsBacked w u r h =
      let (found, v, read, more) = >>=-steps (read_state p host id) _ w u r h in
      let (r', v', present, last) = >>=-steps (or_missing p host id found) _ v u r more in
      let (fs, v'', verified, result) = >>=-steps (verify_journal_of p host id r') _ v' u r last in
      let (kept, (es, logged, backed)) = verify_journal_of-IsBacked v' v'' r' fs verified in
      let same : r' ≡ r = ground (arith, result) in
      let unread : v ≡ w = read_state-same w v found read in
      let moved : v' ≡ w = or_missing-same found v v' r' present ∙ unread in
      let given : found ≡ some r = found_record found v v' r' present ∙ ap (λ x. some x) same in
      (
        ground (arith, result, kept, moved),
        read_state-IsRecorded p host id w v r
            (subst (λ o. read_state p host id w ≡ (ok o, v)) given read),
        (es, subst (λ x. IsLogged p x es) moved logged, subst (λ x. IsBacked p x es) same backed),
      )
