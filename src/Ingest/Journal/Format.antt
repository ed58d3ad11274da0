-- ===== src/Ingest/Journal/Format.antt =====
-- The text of a journal: one line of canonical JSON for each event.
use web_comunidad_solar.Prelude.{
  ℕ, ◌≡◌, refl, arith, false, not, Option, none, some, List, [], ◌∷◌, ◌++◌, map, Text,
  if◌then◌else◌, any, split, drop_last, ends_with, is_empty, join, IsFree, All, split-join,
  drop_last-append, ends_with-append, is_empty-append,
}
use web_comunidad_solar.Json.{Json, canonical_json}
use web_comunidad_solar.Json.Printable.{IsPrintable, HasPlainNumbers, canonical_json-Printable}
use web_comunidad_solar.Ingest.Failure.{
  Result, ok, err, or_throw, journal_truncated, journal_blank_line, journal_not_json,
}
use web_comunidad_solar.Ingest.Platform.{Platform}
use web_comunidad_solar.Ingest.Domain.{ChangeState}
use web_comunidad_solar.Ingest.Journal.Events.{
  JournalEvent, event_json, nullable_json, nullable_state,
}

abbrev line_end : ℕ
line_end = 10

abbrev event_line : JournalEvent → Text
event_line e = canonical_json (event_json e)

abbrev final_line_end : List JournalEvent → Text
final_line_end [] = []
final_line_end (e ∷ es) = line_end ∷ []

unfoldable pub serialize_journal : List JournalEvent → Text
serialize_journal events = join (line_end ∷ []) (map event_line events) ++ final_line_end events

-- `lines.map((line) => JSON.parse(line))`
pub parse_lines : Platform → List Text → Option (List Json)
parse_lines p [] = some []
parse_lines p (l ∷ ls) = elim (p.json_parse l) [
  | none ↦ none
  | some v ↦ elim (parse_lines p ls) [ none ↦ none | some vs ↦ some (v ∷ vs) ]
]

unfoldable pub parse_journal : Platform → Text → Result (List Json)
unfolding parse_lines
parse_journal p serialized =
    if is_empty serialized
    then ok []
    else if not (ends_with line_end serialized)
    then err journal_truncated
    else let lines = split line_end (drop_last serialized) in
      if any is_empty lines
      then err journal_blank_line
      else or_throw (parse_lines p lines) journal_not_json

-- `JSON.parse` reads what the program printed for an event.
abbrev pub Reads : Platform → JournalEvent → Type 0
Reads p e = p.json_parse (event_line e) ≡ some (event_json e)

IsFree-of_printable : (t : Text) → IsPrintable t → IsFree line_end t
IsFree-of_printable [] h = tt
IsFree-of_printable (c ∷ t) (p, h) = (omega arith, IsFree-of_printable t h)

event_json-HasPlainNumbers : (e : JournalEvent) → HasPlainNumbers (event_json e)
unfolding event_json
event_json-HasPlainNumbers e =
    (tt, (tt, (tt, (state e.from, (tt, (tt, (nullable e.previous_event_sha256, (tt, tt))))))))
  where
    state : (o : Option ChangeState) → HasPlainNumbers (nullable_state o)
    state none = unfold nullable_state in tt
    state (some s) = unfold nullable_state in tt

    nullable : (o : Option Text) → HasPlainNumbers (nullable_json o)
    nullable none = unfold nullable_json in tt
    nullable (some t) = unfold nullable_json in tt

event_line-IsFree : (e : JournalEvent) → IsFree line_end (event_line e)
event_line-IsFree e =
    IsFree-of_printable (event_line e)
      (canonical_json-Printable (event_json e) (event_json-HasPlainNumbers e))

event_line-ne-empty : (e : JournalEvent) → is_empty (event_line e) ≡ false
unfolding canonical_json event_json
event_line-ne-empty e = refl

lines-IsFree : (es : List JournalEvent) → All (IsFree line_end) (map event_line es)
lines-IsFree [] = tt
lines-IsFree (e ∷ es) = (event_line-IsFree e, lines-IsFree es)

lines-ne-empty : (es : List JournalEvent) → any is_empty (map event_line es) ≡ false
lines-ne-empty [] = refl
lines-ne-empty (e ∷ es) = rw (event_line-ne-empty e) (lines-ne-empty es)

parse_lines-map :
    (p : Platform) (es : List JournalEvent)
    → All (Reads p) es
    → parse_lines p (map event_line es) ≡ some (map event_json es)
unfolding parse_lines
parse_lines-map p [] h = refl
parse_lines-map p (e ∷ es) (r, h) = rw (r, parse_lines-map p es h)

-- The text of a journal gives back the values of its events, where the runtime's parser reads the
-- canonical JSON of each event.
pub parse_journal-serialize_journal :
    (p : Platform) (es : List JournalEvent)
    → All (Reads p) es
    → parse_journal p (serialize_journal es) ≡ ok (map event_json es)
unfolding parse_journal serialize_journal
parse_journal-serialize_journal p [] h = refl
parse_journal-serialize_journal p (e ∷ es) h =
    let body = join (line_end ∷ []) (map event_line (e ∷ es)) in
    rw (
      is_empty-append body line_end,
      ends_with-append line_end body,
      drop_last-append body line_end,
      split-join line_end (event_line e) (map event_line es) (lines-IsFree (e ∷ es)),
      lines-ne-empty (e ∷ es),
      parse_lines-map p (e ∷ es) h,
    )
