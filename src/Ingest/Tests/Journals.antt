-- ===== src/Ingest/Tests/Journals.antt =====
-- Runs of the journal.
use web_comunidad_solar.Prelude.{◌+◌, ◌≡◌, ◌≤◌, refl, none, [], ◌∷◌, map, All}
use web_comunidad_solar.Json.{canonical_json}
use web_comunidad_solar.Ingest.Platform.{sha256_canonical}
use web_comunidad_solar.Ingest.Failure.{ok}
use web_comunidad_solar.Ingest.Domain.{
  parse_state, received, normalized, planned, gate1_approved, allowed_transition,
}
use web_comunidad_solar.Ingest.Domain.Transitions.{stage, IsPath-bounded}
use web_comunidad_solar.Ingest.Journal.{
  event_json, draft_json, nullable_json, nullable_state, as_nullable_state, is_hash, is_event_type,
  is_sequence, decode_event, event_hash, verify_from, assert_transition_shape, IsWritable,
  verify_journal_events,
}
use web_comunidad_solar.Ingest.Journal.Chain.{IsChain}
use web_comunidad_solar.Ingest.Journal.Verified.{
  verify_journal_events-IsChain, verify_journal_events_of_IsChain,
}
use web_comunidad_solar.Ingest.Journal.History.{Entered, verified-Entered}
use web_comunidad_solar.Ingest.Journal.Format.{
  parse_journal, serialize_journal, parse_journal-serialize_journal, Reads,
}
use web_comunidad_solar.Ingest.Tests.{platform, events, opening, normalizing}

pub events-verified : verify_journal_events platform (map event_json events) ≡ ok events
unfolding verify_journal_events event_json decode_event event_hash verify_from
    assert_transition_shape draft_json canonical_json nullable_json nullable_state as_nullable_state
    is_hash is_event_type is_sequence sha256_canonical parse_state allowed_transition
events-verified = refl

verify_journal_events-IsChain_example :
    IsChain platform none events × All (IsWritable platform) events
verify_journal_events-IsChain_example =
    verify_journal_events-IsChain platform (map event_json events) events events-verified

pub reads : All (Reads platform) events
unfolding canonical_json event_json draft_json event_hash nullable_json nullable_state
    sha256_canonical
reads = (refl, (refl, tt))

events-IsChain : IsChain platform none events × All (IsWritable platform) events
events-IsChain =
    verify_journal_events-IsChain platform (map event_json events) events events-verified

verify_journal_events_of_IsChain_example :
    verify_journal_events platform (map event_json events) ≡ ok events
verify_journal_events_of_IsChain_example =
    verify_journal_events_of_IsChain platform events events-IsChain.0 events-IsChain.1

verified-Entered_example : Entered (normalized ∷ []) (normalizing ∷ opening ∷ [])
verified-Entered_example =
    verified-Entered platform (map event_json events) events normalizing events-verified refl

parse_journal-serialize_journal_example :
    parse_journal platform (serialize_journal events) ≡ ok (map event_json events)
parse_journal-serialize_journal_example = parse_journal-serialize_journal platform events reads

IsPath-bounded_example : stage received + 3 ≤ 7
unfolding allowed_transition
IsPath-bounded_example =
    IsPath-bounded received (normalized ∷ planned ∷ gate1_approved ∷ []) (refl, (refl, (refl, tt)))
