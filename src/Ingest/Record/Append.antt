-- ===== src/Ingest/Record/Append.antt =====
-- The record of a journal with one more event.
use web_comunidad_solar.Prelude.{
  ℕ, ◌+◌, ◌≡◌, refl, arith, Option, none, some, List, [], ◌∷◌, ◌++◌, Text, codes, ◌===◌, length,
  length-append, first, last, last_or-append, if◌then◌else◌,
}
use web_comunidad_solar.Ingest.Failure.{ok}
use web_comunidad_solar.Ingest.Domain.{ChangeState, received, is_resume_state}
use web_comunidad_solar.Ingest.Journal.{JournalEvent}
use web_comunidad_solar.Ingest.Record.{
  ChangeRecord, attempt_id, replay, replay_event, record_between, record_from_journal,
}

pub replay-append :
    (s : ℕ × ChangeState) (es : List JournalEvent) (e : JournalEvent)
    → replay s (es ++ e ∷ []) ≡ replay_event (replay s es) e
unfolding replay
replay-append s [] e = refl
replay-append s (x ∷ es) e = replay-append (replay_event s x) es e

-- What a record says of the journal that it comes from.
pub record IsRecordOf (id : Text) (es : List JournalEvent) (r : ChangeRecord) : Type 0 where
  pub start : JournalEvent
  pub end_event : JournalEvent
  pub begins : first es ≡ some start
  pub ends : last es ≡ some end_event
  pub named : r.change_id ≡ id
  pub state : end_event.to ≡ r.state
  pub counted : length es ≡ r.revision
  pub attempts : (replay (1, received) es).0 ≡ r.attempt_number
  pub attempt : r.current_attempt_id ≡ attempt_id r.attempt_number
  pub resumes : (replay (1, received) es).1 ≡ r.resume_state
  pub created : start.at ≡ r.created_at
  pub updated : end_event.at ≡ r.updated_at

record_between-IsRecordOf :
    (id : Text) (es : List JournalEvent) (a z : Option JournalEvent) (r : ChangeRecord)
    → first es ≡ a
    → last es ≡ z
    → record_between id es a z ≡ ok r
    → IsRecordOf id es r
record_between-IsRecordOf id es none z r f l h = absurd (cc)
record_between-IsRecordOf id es (some x) none r f l h = absurd (cc)
record_between-IsRecordOf id es (some x) (some y) r f l h = record {
  start = x;
  end_event = y;
  begins = f;
  ends = l;
  named = ground arith;
  state = ground arith;
  counted = ground arith;
  attempts = ground arith;
  attempt = ground arith;
  resumes = ground arith;
  created = ground arith;
  updated = ground arith;
}

pub record_from_journal-IsRecordOf :
    (id : Text) (es : List JournalEvent) (r : ChangeRecord)
    → record_from_journal id es ≡ ok r
    → IsRecordOf id es r
unfolding record_from_journal
record_from_journal-IsRecordOf id es r h =
    record_between-IsRecordOf id es (first es) (last es) r refl refl h

first-append :
    (es fs : List JournalEvent) (x : JournalEvent) → first es ≡ some x → first (es ++ fs) ≡ some x
first-append [] fs x h = absurd (cc)
first-append (e ∷ es) fs x h = h

abbrev attempts_after : ChangeRecord → JournalEvent → ℕ
attempts_after r e = if e.type === codes "retry" then r.attempt_number + 1 else r.attempt_number

-- The record of the journal with one event more.
abbrev pub with_event : ChangeRecord → JournalEvent → ChangeRecord
with_event r e = record r {
  state = e.to;
  revision = r.revision + 1;
  attempt_number = attempts_after r e;
  current_attempt_id = attempt_id (attempts_after r e);
  resume_state = if is_resume_state e.to then e.to else r.resume_state;
  updated_at = e.at;
}

pub record_from_journal-append :
    (id : Text) (es : List JournalEvent) (e : JournalEvent) (r : ChangeRecord)
    → record_from_journal id es ≡ ok r
    → record_from_journal id (es ++ e ∷ []) ≡ ok (with_event r e)
unfolding record_from_journal
record_from_journal-append id es e r h =
    let f = record_from_journal-IsRecordOf id es r h in
    ground (
      arith,
      first-append es (e ∷ []) f.start f.begins,
      last_or-append none es e,
      length-append es (e ∷ []),
      replay-append (1, received) es e,
      f.named,
      f.counted,
      f.attempts,
      f.resumes,
      f.created,
    )
