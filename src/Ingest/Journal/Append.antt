-- ===== src/Ingest/Journal/Append.antt =====
-- One more event at the end of a chain.
use web_comunidad_solar.Prelude.{
  ◌+◌, ◌≡◌, arith, Option, none, some, List, [], ◌∷◌, ◌++◌, length, last, last_or,
}
use web_comunidad_solar.Ingest.Platform.{Platform}
use web_comunidad_solar.Ingest.Journal.{JournalEvent, previous_sequence}
use web_comunidad_solar.Ingest.Journal.Chain.{IsLinked, IsChain}

pub IsChain-append :
    (p : Platform) (previous : Option JournalEvent) (es : List JournalEvent) (e : JournalEvent)
    → IsChain p previous es
    → IsLinked p (last_or previous es) e
    → IsChain p previous (es ++ e ∷ [])
IsChain-append p previous [] e c l = (l, tt)
IsChain-append p previous (x ∷ es) e (m, c) l = (m, IsChain-append p (some x) es e c l)

sequence_from :
    (p : Platform) (previous : Option JournalEvent) (es : List JournalEvent)
    → IsChain p previous es
    → previous_sequence (last_or previous es) ≡ previous_sequence previous + length es
sequence_from p previous [] c = omega arith
sequence_from p previous (e ∷ es) (l, c) = omega (arith, sequence_from p (some e) es c, l.counted)

-- The last sequence number is the number of events.
pub sequence-length :
    (p : Platform) (es : List JournalEvent)
    → IsChain p none es
    → previous_sequence (last es) ≡ length es
sequence-length p es c = omega (arith, sequence_from p none es c)
