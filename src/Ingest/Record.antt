-- ===== src/Ingest/Record.antt =====
-- The record of a change, its JSON and its validation (src/ingest/domain.ts and
-- src/ingest/state-store.ts), and the record that a journal stands for.
pub mod Append
use web_comunidad_solar.Prelude.{
  ℕ, ◌+◌, ◌-◌, ◌≡◌, refl, Bool, true, false, Option, none, some, List, [], ◌∷◌, ◌++◌, Text, codes,
  ◌===◌, ===_refl, zero, suc, ◌==◌, if◌then◌else◌, ◌&&◌, length, first, last, decimal, arith,
}
use web_comunidad_solar.Json.{Json, Number, nat, null, number, string, object, Fields, end, field}
use web_comunidad_solar.Json.Decode.{
  ◌>>=◌, ◌>>◌, guard, own, has_exact_keys, as_object, as_string, as_positive,
}
use web_comunidad_solar.Ingest.Failure.{
  Result, ok, err, state_not_object, state_extra_fields, state_not_canonical,
  journal_without_initial_state,
}
use web_comunidad_solar.Ingest.Platform.{Platform}
use web_comunidad_solar.Ingest.Domain.{
  ChangeState, received, state_name, parse_state, parse_state-state_name, is_resume_state,
}
use web_comunidad_solar.Ingest.Journal.{JournalEvent, is_date, is_sequence, as_positive_lem}

pub record ChangeRecord : Type 0 where
  pub change_id : Text
  pub state : ChangeState
  pub revision : ℕ
  pub attempt_number : ℕ
  pub current_attempt_id : Text
  pub resume_state : ChangeState
  pub created_at : Text
  pub updated_at : Text

-- `String(n).padStart(6, "0")`
abbrev pad_start : ℕ → Text → Text
pad_start zero t = t
pad_start (suc n) t = b'0' ∷ pad_start n t

unfoldable pub attempt_id : ℕ → Text
attempt_id n = let t = decimal n in codes "attempt-" ++ pad_start (6 - length t) t

-- The object of the source, as the value that it is printed from.
unfoldable pub record_json : ChangeRecord → Json
record_json r = object (
    field (codes "schemaVersion") (number (nat 1)) (
      field (codes "changeId") (string r.change_id) (
        field (codes "state") (string (state_name r.state)) (
          field (codes "revision") (number (nat r.revision)) (
            field (codes "attemptNumber") (number (nat r.attempt_number)) (
              field (codes "currentAttemptId") (string r.current_attempt_id) (
                field (codes "resumeState") (string (state_name r.resume_state)) (
                  field (codes "createdAt") (string r.created_at)
                    (field (codes "updatedAt") (string r.updated_at) end)))))))))

abbrev record_keys : List Text
record_keys =
    codes "attemptNumber"
    ∷ codes "changeId"
    ∷ codes "createdAt"
    ∷ codes "currentAttemptId"
    ∷ codes "resumeState"
    ∷ codes "revision"
    ∷ codes "schemaVersion"
    ∷ codes "state"
    ∷ codes "updatedAt"
    ∷ []

abbrev is_one : Option Json → Bool
is_one (some (number (nat n))) = n == 1
is_one _ = false

abbrev as_change_state : Option Json → Option ChangeState
as_change_state v = do t ← as_string v; parse_state t

-- The fields of a record in their canonical form.
unfoldable pub decode_record : Platform → Text → Fields → Option ChangeRecord
decode_record p change_id fs = do
  guard (is_one (own (codes "schemaVersion") fs))
  id ← as_string (own (codes "changeId") fs)
  guard (id === change_id)
  state ← as_change_state (own (codes "state") fs)
  revision ← as_positive (own (codes "revision") fs)
  attempt_number ← as_positive (own (codes "attemptNumber") fs)
  current ← as_string (own (codes "currentAttemptId") fs)
  guard (current === attempt_id attempt_number)
  resume ← as_change_state (own (codes "resumeState") fs)
  guard (is_resume_state resume)
  created ← as_string (own (codes "createdAt") fs)
  guard (is_date (p.date_parse created))
  updated ← as_string (own (codes "updatedAt") fs)
  guard (is_date (p.date_parse updated))
  some (record {
    change_id = id;
    state = state;
    revision = revision;
    attempt_number = attempt_number;
    current_attempt_id = current;
    resume_state = resume;
    created_at = created;
    updated_at = updated;
  })

abbrev or_not_canonical : Option ChangeRecord → Result ChangeRecord
or_not_canonical none = err state_not_canonical
or_not_canonical (some r) = ok r

-- `assertChangeRecord`; the value itself where it does not throw
unfoldable pub assert_change_record : Platform → Text → Json → Result ChangeRecord
assert_change_record p change_id (object fs) =
    if has_exact_keys fs record_keys
    then or_not_canonical (decode_record p change_id fs)
    else err state_extra_fields
assert_change_record p change_id _ = err state_not_object

-- A round of the loop of `recordFromJournal`.
abbrev pub replay_event : ℕ × ChangeState → JournalEvent → ℕ × ChangeState
replay_event (attempts, resume) e = (
  if e.type === codes "retry" then attempts + 1 else attempts,
  if is_resume_state e.to then e.to else resume,
)

unfoldable pub replay : ℕ × ChangeState → List JournalEvent → ℕ × ChangeState
replay s [] = s
replay s (e ∷ es) = replay (replay_event s e) es

abbrev pub record_between :
    Text → List JournalEvent → Option JournalEvent → Option JournalEvent → Result ChangeRecord
record_between change_id events (some a) (some z) =
    let (attempts, resume) = replay (1, received) events in
    ok (record {
      change_id = change_id;
      state = z.to;
      revision = length events;
      attempt_number = attempts;
      current_attempt_id = attempt_id attempts;
      resume_state = resume;
      created_at = a.at;
      updated_at = z.at;
    })
record_between change_id events _ _ = err journal_without_initial_state

unfoldable pub record_from_journal : Text → List JournalEvent → Result ChangeRecord
unfolding replay
record_from_journal change_id events = record_between change_id events (first events) (last events)

-- The conditions under which a record passes `assertChangeRecord` after it is written.
pub record IsCanonical (p : Platform) (r : ChangeRecord) : Type 0 where
  pub counted : is_sequence r.revision ≡ true
  pub attempted : is_sequence r.attempt_number ≡ true
  pub named : (r.current_attempt_id === attempt_id r.attempt_number) ≡ true
  pub resumes : is_resume_state r.resume_state ≡ true
  pub created : is_date (p.date_parse r.created_at) ≡ true
  pub updated : is_date (p.date_parse r.updated_at) ≡ true

-- Reading back the JSON of a record gives the record.
pub assert_change_record-record_json :
    (p : Platform) (r : ChangeRecord)
    → IsCanonical p r
    → assert_change_record p r.change_id (record_json r) ≡ ok r
unfolding assert_change_record decode_record record_json
assert_change_record-record_json p r c = rw (
  ===_refl r.change_id,
  parse_state-state_name r.state,
  as_positive_lem r.revision c.counted,
  as_positive_lem r.attempt_number c.attempted,
  c.named,
  parse_state-state_name r.resume_state,
  c.resumes,
  c.created,
  c.updated,
)
