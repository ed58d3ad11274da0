-- ===== src/Ingest/Journal/Verified.antt =====
-- The verification of a journal and the chains of well-formed events.
use web_comunidad_solar.Prelude.{
  ◌≡◌, refl, sym, arith, Option, none, some, List, [], ◌∷◌, map, All, subst, Option-cases, inl, inr,
}
use web_comunidad_solar.Json.{Json}
use web_comunidad_solar.Ingest.Failure.{Result, ok, ◌>>=◌, ◌>>◌, >>=-eq-ok, >>=-assoc}
use web_comunidad_solar.Ingest.Platform.{Platform}
use web_comunidad_solar.Ingest.Journal.{
  JournalEvent, event_json, decode_event, IsWritable, decode_event-event_json,
  decode_event-IsWritable, assert_transition_shape, verify_from, verify_journal_events,
}
use web_comunidad_solar.Ingest.Journal.Chain.{IsChain, checks, checks-IsLinked, IsLinked-checks}

ok-injective : {a b : List JournalEvent} → ok a ≡ ok b → a ≡ b
ok-injective h = cc

module _ (p : Platform) where
  abbrev after_checks :
      (previous : Option JournalEvent) (e : JournalEvent) (values : List Json)
      → Result (List JournalEvent)
  after_checks previous e values = do
    checks p previous e
    rest ← verify_from p (some e) values
    ok (e ∷ rest)

  verify_from-cons :
      (previous : Option JournalEvent) (v : Json) (vs : List Json) (e : JournalEvent)
      → decode_event p v ≡ some e
      → verify_from p previous (v ∷ vs) ≡ after_checks previous e vs
  unfolding verify_from
  verify_from-cons previous v vs e h =
      rw h (sym (>>=-assoc (assert_transition_shape e previous) _ _))

  verify_from_sound :
      (previous : Option JournalEvent) (values : List Json) (es : List JournalEvent)
      → verify_from p previous values ≡ ok es
      → IsChain p previous es × All (IsWritable p) es
  unfolding verify_from
  verify_from_sound previous [] [] h = (tt, tt)
  verify_from_sound previous [] (e ∷ es) h = cc
  verify_from_sound previous (v ∷ vs) es h = elim (Option-cases (decode_event p v)) [
    | inl bad ↦ ground arith
    | inr (e, read) ↦
        let later = rw (verify_from-cons previous v vs e read) at h in
        let (u, linked, more) = >>=-eq-ok (checks p previous e) _ later in
        let (rest, verified, same) = >>=-eq-ok (verify_from p (some e) vs) _ more in
        let (chain, forms) = verify_from_sound (some e) vs rest verified in
        subst (λ l. IsChain p previous l × All (IsWritable p) l) (ok-injective same)
          (
            (checks-IsLinked p previous e linked, chain),
            (decode_event-IsWritable p v e read, forms),
          )
  ]

  verify_from_complete :
      (previous : Option JournalEvent) (es : List JournalEvent)
      → IsChain p previous es
      → All (IsWritable p) es
      → verify_from p previous (map event_json es) ≡ ok es
  verify_from_complete previous [] c w = unfold verify_from in refl
  verify_from_complete previous (e ∷ es) (l, c) (w, ws) =
      rw (verify_from-cons previous _ (map event_json es) e (decode_event-event_json p e w))
        (rw (IsLinked-checks p previous e l, verify_from_complete (some e) es c ws))

-- Whatever values verification reads, it returns only a chain of well-formed events: each has the
-- next sequence number, the hash of the event before, a permitted move from its state, and the hash
-- of its own content.
pub verify_journal_events-IsChain :
    (p : Platform) (values : List Json) (es : List JournalEvent)
    → verify_journal_events p values ≡ ok es
    → IsChain p none es × All (IsWritable p) es
unfolding verify_journal_events
verify_journal_events-IsChain p values es h = verify_from_sound p none values es h

-- Verification accepts every chain of well-formed events, read back from its JSON, and returns it.
pub verify_journal_events_of_IsChain :
    (p : Platform) (es : List JournalEvent)
    → IsChain p none es
    → All (IsWritable p) es
    → verify_journal_events p (map event_json es) ≡ ok es
unfolding verify_journal_events
verify_journal_events_of_IsChain p es chain forms = verify_from_complete p none es chain forms
