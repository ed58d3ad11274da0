-- ===== src/Ingest/Journal/Chain.antt =====
-- Chains of events, the form that the verification of a journal asks for.
use web_comunidad_solar.Prelude.{
  ◌+◌, ◌≡◌, ◌≢◌, arith, true, not, Option, none, some, List, [], ◌∷◌, Text, codes, ◌===◌, ===_iff,
  ===_refl, ==_iff, Bool-cases, inl, inr, ◌⊎◌, ◌↔◌,
}
use web_comunidad_solar.Ingest.Failure.{Result, ok, hash_chain_broken, ◌>>◌, throw_if}
use web_comunidad_solar.Ingest.Platform.{Platform}
use web_comunidad_solar.Ingest.Domain.{
  ChangeState, received, rejected, failed, state_eq, allowed_transition, is_resume_state,
}
use web_comunidad_solar.Ingest.Journal.{
  JournalEvent, unsigned_event, nullable_eq, previous_sequence, previous_hash, from_state,
  first_shape, later_shape, states_shape, assert_transition_shape, event_hash,
}

abbrev pub retry : Text
retry = codes "retry"

abbrev pub lock_recovered : Text
lock_recovered = codes "lock-recovered"

-- How an event may follow the one before.
pub data Moves (e : JournalEvent) : Option JournalEvent → Type 0 where
  starts : e.from ≡ none → e.to ≡ received → e.type ≢ retry → e.type ≢ lock_recovered → Moves e none
  recovers :
      {f : JournalEvent}
      → e.type ≡ lock_recovered
      → e.from ≡ some f.to
      → e.to ≡ f.to
      → Moves e (some f)
  retries :
      {f : JournalEvent}
      → e.type ≡ retry
      → e.from ≡ some f.to
      → (f.to ≡ failed) ⊎ (f.to ≡ rejected)
      → is_resume_state e.to ≡ true
      → Moves e (some f)
  advances :
      {f : JournalEvent}
      → e.type ≢ retry
      → e.type ≢ lock_recovered
      → e.from ≡ some f.to
      → allowed_transition f.to e.to ≡ true
      → Moves e (some f)

pub record IsLinked (p : Platform) (previous : Option JournalEvent) (e : JournalEvent)
    : Type 0 where
  pub counted : e.sequence ≡ previous_sequence previous + 1
  pub chained : e.previous_event_sha256 ≡ previous_hash previous
  pub moved : Moves e previous
  pub sealed : e.event_sha256 ≡ event_hash p (unsigned_event e)

abbrev pub IsChain : Platform → Option JournalEvent → List JournalEvent → Type 0
IsChain p previous [] = Unit
IsChain p previous (e ∷ es) = IsLinked p previous e × IsChain p (some e) es

pub state_eq_iff : (s t : ChangeState) → (state_eq s t ≡ true) ↔ (s ≡ t)
state_eq_iff s t = ground arith

pub nullable_eq_iff : (s t : Option Text) → (nullable_eq s t ≡ true) ↔ (s ≡ t)
nullable_eq_iff none none = ground arith
nullable_eq_iff none (some t) = ground arith
nullable_eq_iff (some s) none = ground arith
nullable_eq_iff (some s) (some t) = ground (arith, ===_iff s t)

from_state_iff : (o : Option ChangeState) (s : ChangeState) → (from_state o s ≡ true) ↔ (o ≡ some s)
from_state_iff none s = ground arith
from_state_iff (some r) s = ground (arith, state_eq_iff r s)

first_shape-Moves : (e : JournalEvent) → first_shape e ≡ ok tt → Moves e none
unfolding first_shape
first_shape-Moves e h =
    starts (ground arith) (ground (arith, state_eq_iff e.to received))
      (ground (arith, ===_iff e.type retry)) (ground (arith, ===_iff e.type lock_recovered))

later_shape-Moves : (e f : JournalEvent) → later_shape e f ≡ ok tt → Moves e (some f)
unfolding later_shape
later_shape-Moves e f h =
    let came : e.from ≡ some f.to = ground (arith, from_state_iff e.from f.to) in
    elim (Bool-cases (e.type === lock_recovered)) [
      | inl r ↦
          recovers ((===_iff e.type lock_recovered).0 r) came
            (ground (arith, from_state_iff e.from f.to, from_state_iff e.from e.to))
      | inr n ↦ elim (Bool-cases (e.type === retry)) [
        | inl r ↦
            retries ((===_iff e.type retry).0 r) came
              (ground (arith, from_state_iff e.from failed, from_state_iff e.from rejected))
              (ground arith)
        | inr m ↦
            advances (ground (arith, ===_iff e.type retry))
              (ground (arith, ===_iff e.type lock_recovered)) came (ground arith)
      ]
    ]

Moves-first_shape : (e : JournalEvent) → Moves e none → first_shape e ≡ ok tt
unfolding first_shape
Moves-first_shape e (starts a b c d) =
    ground (arith, state_eq_iff e.to received, ===_iff e.type retry, ===_iff e.type lock_recovered)

Moves-later_shape : (e f : JournalEvent) → Moves e (some f) → later_shape e f ≡ ok tt
unfolding later_shape
Moves-later_shape e f (recovers r came kept) =
    ground
      (arith, from_state_iff e.from f.to, from_state_iff e.from e.to, ===_iff e.type lock_recovered)
Moves-later_shape e f (retries r came from to) = ground (
  arith,
  from_state_iff e.from f.to,
  from_state_iff e.from failed,
  from_state_iff e.from rejected,
  ===_iff e.type retry,
  ===_refl retry,
)
Moves-later_shape e f (advances a b came step) =
    ground (arith, from_state_iff e.from f.to, ===_iff e.type retry, ===_iff e.type lock_recovered)

states_shape_iff :
    (e : JournalEvent) (previous : Option JournalEvent)
    → (states_shape e previous ≡ ok tt) ↔ Moves e previous
states_shape_iff e none = (first_shape-Moves e, Moves-first_shape e)
states_shape_iff e (some f) = (later_shape-Moves e f, Moves-later_shape e f)

-- The checks on one event and its own hash, apart from its form.
abbrev pub checks : Platform → Option JournalEvent → JournalEvent → Result (Unit {0})
checks p previous e = do
  assert_transition_shape e previous
  throw_if (not (e.event_sha256 === event_hash p (unsigned_event e))) hash_chain_broken

pub checks-IsLinked :
    (p : Platform) (previous : Option JournalEvent) (e : JournalEvent)
    → checks p previous e ≡ ok tt
    → IsLinked p previous e
unfolding assert_transition_shape
checks-IsLinked p previous e h = record {
  counted = ground arith;
  chained = ground (arith, nullable_eq_iff e.previous_event_sha256 (previous_hash previous));
  moved = (states_shape_iff e previous).0 (ground arith);
  sealed = ground (arith, ===_iff e.event_sha256 (event_hash p (unsigned_event e)));
}

pub IsLinked-checks :
    (p : Platform) (previous : Option JournalEvent) (e : JournalEvent)
    → IsLinked p previous e
    → checks p previous e ≡ ok tt
unfolding assert_transition_shape
IsLinked-checks p previous e l = rw (
  (==_iff e.sequence _).1 l.counted,
  (nullable_eq_iff _ _).1 l.chained,
  (states_shape_iff e previous).1 l.moved,
  (===_iff e.event_sha256 _).1 l.sealed,
)
