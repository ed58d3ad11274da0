-- ===== src/Ingest/Journal/Events.antt =====
-- The events of src/ingest/journal.ts, their JSON, and the test that a value has their form.
use web_comunidad_solar.Prelude.{
  ℕ, Bool, true, false, Option, none, some, List, [], ◌∷◌, Text, codes, ◌===◌, ◌==◌, ltb, leb,
  length, ◌≡◌, refl, arith, all, is_digit, is_lower, ◌&&◌, ◌||◌,
}
use web_comunidad_solar.Json.{Json, nat, null, number, string, object, Fields, end, field}
use web_comunidad_solar.Json.Decode.{
  ◌>>=◌, ◌>>◌, guard, own, has_exact_keys, as_object, as_string, as_nullable, as_positive,
  max_safe_integer,
}
use web_comunidad_solar.Ingest.Platform.{Platform}
use web_comunidad_solar.Ingest.Domain.{ChangeState, state_name, parse_state, parse_state-state_name}

pub record JournalEventDraft : Type 0 where
  pub sequence : ℕ
  pub at : Text
  pub type : Text
  pub from : Option ChangeState
  pub to : ChangeState
  pub payload_sha256 : Text
  pub previous_event_sha256 : Option Text

pub record JournalEvent : Type 0 where
  pub draft : JournalEventDraft
  pub open draft use *
  pub event_sha256 : Text

-- `unsignedEvent`: the event without its own hash
abbrev pub unsigned_event : JournalEvent → JournalEventDraft
unsigned_event e = e.draft

abbrev pub sign : JournalEventDraft → Text → JournalEvent
sign d hash = record { draft = d; event_sha256 = hash }

abbrev is_hash_unit : ℕ → Bool
is_hash_unit c = (leb b'a' c && leb c b'f') || is_digit c

-- /^[a-f0-9]{64}$/
unfoldable pub is_hash : Text → Bool
is_hash t = length t == 64 && all is_hash_unit t

abbrev is_type_unit : ℕ → Bool
is_type_unit c = is_lower c || is_digit c || c == b'-'

-- /^[a-z][a-z0-9-]{0,63}$/
unfoldable pub is_event_type : Text → Bool
is_event_type [] = false
is_event_type (c ∷ s) = is_lower c && all is_type_unit s && leb (length s) 63

unfoldable pub is_sequence : ℕ → Bool
is_sequence n = ltb 0 n && leb n max_safe_integer

abbrev pub nullable_hash : Option Text → Bool
nullable_hash none = true
nullable_hash (some t) = is_hash t

abbrev pub nullable_eq : Option Text → Option Text → Bool
nullable_eq none none = true
nullable_eq (some s) (some t) = s === t
nullable_eq _ _ = false

unfoldable pub nullable_json : Option Text → Json
nullable_json none = null
nullable_json (some t) = string t

unfoldable pub nullable_state : Option ChangeState → Json
nullable_state none = null
nullable_state (some s) = string (state_name s)

abbrev draft_fields : JournalEventDraft → Fields → Fields
draft_fields d more = field (codes "sequence") (number (nat d.sequence)) (
    field (codes "at") (string d.at) (
      field (codes "type") (string d.type) (
        field (codes "from") (nullable_state d.from) (
          field (codes "to") (string (state_name d.to)) (
            field (codes "payloadSha256") (string d.payload_sha256) (
              field (codes "previousEventSha256") (nullable_json d.previous_event_sha256) more))))))

-- The objects of the source, as the values that they are printed from.
unfoldable pub draft_json : JournalEventDraft → Json
draft_json d = object (draft_fields d end)

unfoldable pub event_json : JournalEvent → Json
event_json e =
    object (draft_fields e.draft (field (codes "eventSha256") (string e.event_sha256) end))

abbrev journal_keys : List Text
journal_keys =
    codes "at"
    ∷ codes "eventSha256"
    ∷ codes "from"
    ∷ codes "payloadSha256"
    ∷ codes "previousEventSha256"
    ∷ codes "sequence"
    ∷ codes "to"
    ∷ codes "type"
    ∷ []

abbrev as_state : Option Json → Option ChangeState
as_state v = do t ← as_string v; parse_state t

unfoldable pub as_nullable_state : Option (Option Text) → Option (Option ChangeState)
as_nullable_state none = none
as_nullable_state (some none) = some none
as_nullable_state (some (some t)) = do s ← parse_state t; some (some s)

abbrev pub is_date : Option ℕ → Bool
is_date none = false
is_date (some ms) = true

-- `isJournalEvent`; the value itself where it holds
unfoldable pub decode_event : Platform → Json → Option JournalEvent
decode_event p value = do
  fs ← as_object value
  guard (has_exact_keys fs journal_keys)
  sequence ← as_positive (own (codes "sequence") fs)
  at ← as_string (own (codes "at") fs)
  guard (is_date (p.date_parse at))
  type ← as_string (own (codes "type") fs)
  guard (is_event_type type)
  from ← as_nullable_state (as_nullable (own (codes "from") fs))
  to ← as_state (own (codes "to") fs)
  payload ← as_string (own (codes "payloadSha256") fs)
  guard (is_hash payload)
  previous ← as_nullable (own (codes "previousEventSha256") fs)
  guard (nullable_hash previous)
  hash ← as_string (own (codes "eventSha256") fs)
  guard (is_hash hash)
  some (record {
    draft = record {
      sequence = sequence;
      at = at;
      type = type;
      from = from;
      to = to;
      payload_sha256 = payload;
      previous_event_sha256 = previous;
    };
    event_sha256 = hash;
  })

as_nullable-nullable_json : (o : Option Text) → as_nullable (some (nullable_json o)) ≡ some o
unfolding nullable_json
as_nullable-nullable_json none = refl
as_nullable-nullable_json (some t) = refl

as_nullable_state-nullable_state :
    (o : Option ChangeState) → as_nullable_state (as_nullable (some (nullable_state o))) ≡ some o
unfolding nullable_state as_nullable_state
as_nullable_state-nullable_state none = refl
as_nullable_state-nullable_state (some s) = rw parse_state-state_name

-- The conditions under which an event passes `isJournalEvent` after it is written.
pub record IsWritable (p : Platform) (e : JournalEvent) : Type 0 where
  pub counted : is_sequence e.sequence ≡ true
  pub dated : is_date (p.date_parse e.at) ≡ true
  pub typed : is_event_type e.type ≡ true
  pub payload : is_hash e.payload_sha256 ≡ true
  pub previous : nullable_hash e.previous_event_sha256 ≡ true
  pub hashed : is_hash e.event_sha256 ≡ true

pub as_positive_lem : (n : ℕ) → is_sequence n ≡ true → as_positive (some (number (nat n))) ≡ some n
unfolding is_sequence
as_positive_lem n h = rw h

-- Reading back the JSON of an event gives the event.
pub decode_event-event_json :
    (p : Platform) (e : JournalEvent) → IsWritable p e → decode_event p (event_json e) ≡ some e
unfolding decode_event event_json
decode_event-event_json p e w = rw (
  as_positive_lem e.sequence w.counted,
  w.dated,
  w.typed,
  as_nullable_state-nullable_state,
  parse_state-state_name,
  w.payload,
  as_nullable-nullable_json,
  w.previous,
  w.hashed,
)

-- An event that passes `isJournalEvent` has the form that the test asks for.
pub decode_event-IsWritable :
    (p : Platform) (v : Json) (e : JournalEvent) → decode_event p v ≡ some e → IsWritable p e
unfolding decode_event is_sequence
decode_event-IsWritable p (object fs) e h = record {
  counted = ground arith;
  dated = ground arith;
  typed = ground arith;
  payload = ground arith;
  previous = ground arith;
  hashed = ground arith;
}
decode_event-IsWritable p _ e h = ground arith
