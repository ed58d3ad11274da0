-- ===== src/Ingest/Store/OnDisk.antt =====
-- The files of the record and of the journal (src/ingest/state-store.ts), and what is read from them.
use web_comunidad_solar.Prelude.{
  ◌≡◌, refl, subst, arith, ◌⊎◌, inl, inr, [], Option, none, some, List, Text,
}
use web_comunidad_solar.Json.{Json}
use web_comunidad_solar.Ingest.Failure.{Result, ok, err}
use web_comunidad_solar.Ingest.Platform.{Platform}
use web_comunidad_solar.Ingest.Effect.{>>=-steps}
use web_comunidad_solar.Ingest.Disk.{
  Host, World, Entry, missing, regular, irregular, state, journal, read_regular_file,
}
use web_comunidad_solar.Ingest.Journal.{JournalEvent, verify_journal_events}
use web_comunidad_solar.Ingest.Journal.Format.{parse_journal}
use web_comunidad_solar.Ingest.Record.{ChangeRecord, assert_change_record}
use web_comunidad_solar.Ingest.Store.{
  read_state, read_journal_text, read_journal, or_empty, read_state_text,
}

-- The file of the record on the disk holds JSON that is this record of the change.
pub record IsRecorded (p : Platform) (id : Text) (w : World) (r : ChangeRecord) : Type 0 where
  pub text : Text
  pub stored : w.state_file ≡ regular text
  pub value : Json
  pub parsed : p.json_parse text ≡ some value
  pub decoded : assert_change_record p id value ≡ ok r

-- The journal file on the disk holds these events, each on a line of its own.
pub record IsLogged (p : Platform) (w : World) (es : List JournalEvent) : Type 0 where
  pub text : Text
  pub stored : w.journal_file ≡ regular text
  pub values : List Json
  pub parsed : parse_journal p text ≡ ok values
  pub verified : verify_journal_events p values ≡ ok es

module _ (p : Platform) (host : Host) (id : Text) where
  -- What a journal that is missing or read gives.
  IsReadAs : Option Text → List JournalEvent → Type 0
  IsReadAs none es = es ≡ []
  IsReadAs (some t) es =
      (values : List Json) × (parse_journal p t ≡ ok values)
      × (verify_journal_events p values ≡ ok es)

  read_journal_text-parsed :
      (t : Text) (es : List JournalEvent) (x : Result (List Json))
      → parse_journal p t ≡ x
      → read_journal_text p host id t ≡ ok es
      → (values : List Json) × (parse_journal p t ≡ ok values)
        × (verify_journal_events p values ≡ ok es)
  unfolding read_journal_text
  read_journal_text-parsed t es (ok values) e h = (values, e, ground (arith, e, h))
  read_journal_text-parsed t es (err f) e h = absurd (ground (arith, e, h))

  read_journal_text-blank :
      (es : List JournalEvent) → read_journal_text p host id [] ≡ ok es → es ≡ []
  unfolding read_journal_text parse_journal verify_journal_events
  read_journal_text-blank es h = ground (arith, h)

  read_journal_text-IsReadAs :
      (o : Option Text) (es : List JournalEvent)
      → read_journal_text p host id (or_empty p host id o) ≡ ok es
      → IsReadAs o es
  unfolding IsReadAs
  read_journal_text-IsReadAs none es h = read_journal_text-blank es h
  read_journal_text-IsReadAs (some t) es h = read_journal_text-parsed t es _ refl h

  journal_file_read :
      (w v : World) (o : Option Text)
      → read_regular_file journal w ≡ (ok o, v)
      → (e : Entry) → w.journal_file ≡ e
      → (o ≡ none) ⊎ ((t : Text) × (o ≡ some t) × (w.journal_file ≡ regular t))
  unfolding read_regular_file
  journal_file_read w v o h missing e = inl (ground (arith, e, h))
  journal_file_read w v o h (regular t) e = inr (t, ground (arith, e, h), e)
  journal_file_read w v o h irregular e = absurd (ground (arith, e, h))

  state_file_read :
      (w v : World) (o : Option Text)
      → read_regular_file state w ≡ (ok o, v)
      → (e : Entry) → w.state_file ≡ e
      → (o ≡ none) ⊎ ((t : Text) × (o ≡ some t) × (w.state_file ≡ regular t))
  unfolding read_regular_file
  state_file_read w v o h missing e = inl (ground (arith, e, h))
  state_file_read w v o h (regular t) e = inr (t, ground (arith, e, h), e)
  state_file_read w v o h irregular e = absurd (ground (arith, e, h))

  pub read_journal-IsLogged :
      (w v : World) (es : List JournalEvent)
      → read_journal p host id w ≡ (ok es, v)
      → (es ≡ []) ⊎ IsLogged p w es
  unfolding read_journal IsReadAs
  read_journal-IsLogged w v es h =
      let (bytes, v', read, text) = >>=-steps (read_regular_file journal) _ w v es h in
      let as_read = read_journal_text-IsReadAs bytes es (ground (arith, text)) in
      elim (journal_file_read w v' bytes read w.journal_file refl) [
        | inl absent ↦ inl (subst (λ o. IsReadAs o es) absent as_read)
        | inr (t, same, stored) ↦
            let (values, parsed, verified) = subst (λ o. IsReadAs o es) same as_read in
            inr (record {
              text = t;
              stored = stored;
              values = values;
              parsed = parsed;
              verified = verified;
            })
      ]

  state_absent : (r : ChangeRecord) → read_state_text p host id none ≡ ok (some r) → ⊥
  unfolding read_state_text
  state_absent r h = absurd (ground (arith, h))

  read_state_text-parsed :
      (t : Text) (r : ChangeRecord) (o : Option Json)
      → p.json_parse t ≡ o
      → read_state_text p host id (some t) ≡ ok (some r)
      → (value : Json) × (p.json_parse t ≡ some value) × (assert_change_record p id value ≡ ok r)
  unfolding read_state_text
  read_state_text-parsed t r none e h = absurd (ground (arith, e, h))
  read_state_text-parsed t r (some value) e h =
      (value, e, from (assert_change_record p id value) refl)
    where
      from :
          (x : Result ChangeRecord)
          → assert_change_record p id value ≡ x
          → assert_change_record p id value ≡ ok r
      from (ok y) f = ground (arith, e, f, h)
      from (err y) f = absurd (ground (arith, e, f, h))

  pub read_state-IsRecorded :
      (w v : World) (r : ChangeRecord)
      → read_state p host id w ≡ (ok (some r), v)
      → IsRecorded p id w r
  unfolding read_state
  read_state-IsRecorded w v r h =
      let (bytes, v', read, text) = >>=-steps (read_regular_file state) _ w v (some r) h in
      let given : read_state_text p host id bytes ≡ ok (some r) = ground (arith, text) in
      elim (state_file_read w v' bytes read w.state_file refl) [
        | inl absent ↦
            absurd
              (state_absent r (subst (λ o. read_state_text p host id o ≡ ok (some r)) absent given))
        | inr (t, same, stored) ↦
            let (value, parsed, decoded) =
              read_state_text-parsed t r _ refl
                (subst (λ o. read_state_text p host id o ≡ ok (some r)) same given) in
            record { text = t; stored = stored; value = value; parsed = parsed; decoded = decoded }
      ]
