-- ===== src/Ingest/Domain.antt =====
-- src/ingest/domain.ts: the states of a change and the transitions between them.
pub mod Transitions
use web_comunidad_solar.Prelude.{
  ℕ, Bool, true, false, not, Option, none, some, Text, codes, ◌===◌, if◌then◌else◌, ◌&&◌, ◌||◌, ◌≡◌,
  refl, arith,
}

pub data ChangeState : Type 0 where
  received normalized planned gate1_approved generated validated gate2_approved : ChangeState
  published rejected failed : ChangeState

abbrev pub state_name : ChangeState → Text
state_name received = codes "received"
state_name normalized = codes "normalized"
state_name planned = codes "planned"
state_name gate1_approved = codes "gate1_approved"
state_name generated = codes "generated"
state_name validated = codes "validated"
state_name gate2_approved = codes "gate2_approved"
state_name published = codes "published"
state_name rejected = codes "rejected"
state_name failed = codes "failed"

-- The tests on the set `states`.
unfoldable pub parse_state : Text → Option ChangeState
parse_state t =
    if t === codes "received"
    then some received
    else if t === codes "normalized"
    then some normalized
    else if t === codes "planned"
    then some planned
    else if t === codes "gate1_approved"
    then some gate1_approved
    else if t === codes "generated"
    then some generated
    else if t === codes "validated"
    then some validated
    else if t === codes "gate2_approved"
    then some gate2_approved
    else if t === codes "published"
    then some published
    else if t === codes "rejected"
    then some rejected
    else if t === codes "failed"
    then some failed
    else none

pub parse_state-state_name : (s : ChangeState) → parse_state (state_name s) ≡ some s
unfolding parse_state
parse_state-state_name received = refl
parse_state-state_name normalized = refl
parse_state-state_name planned = refl
parse_state-state_name gate1_approved = refl
parse_state-state_name generated = refl
parse_state-state_name validated = refl
parse_state-state_name gate2_approved = refl
parse_state-state_name published = refl
parse_state-state_name rejected = refl
parse_state-state_name failed = refl

abbrev pub state_eq : ChangeState → ChangeState → Bool
state_eq received received = true
state_eq normalized normalized = true
state_eq planned planned = true
state_eq gate1_approved gate1_approved = true
state_eq generated generated = true
state_eq validated validated = true
state_eq gate2_approved gate2_approved = true
state_eq published published = true
state_eq rejected rejected = true
state_eq failed failed = true
state_eq _ _ = false

-- The keys of `nextState`; a state with no entry has no next one.
pub next_state : ChangeState → Option ChangeState
next_state received = some normalized
next_state normalized = some planned
next_state planned = some gate1_approved
next_state gate1_approved = some generated
next_state generated = some validated
next_state validated = some gate2_approved
next_state gate2_approved = some published
next_state _ = none

pub is_terminal : ChangeState → Bool
is_terminal published = true
is_terminal rejected = true
is_terminal failed = true
is_terminal _ = false

is_next : Option ChangeState → ChangeState → Bool
is_next none to = false
is_next (some s) to = state_eq s to

unfoldable pub allowed_transition : ChangeState → ChangeState → Bool
unfolding next_state is_terminal is_next
allowed_transition from to =
    if is_next (next_state from) to
    then true
    else not (is_terminal from) && (state_eq to rejected || state_eq to failed)

-- `resumeStates.has(state)`
abbrev pub is_resume_state : ChangeState → Bool
is_resume_state received = true
is_resume_state normalized = true
is_resume_state planned = true
is_resume_state gate1_approved = true
is_resume_state _ = false
