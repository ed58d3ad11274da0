-- ===== src/Ingest/Domain/Transitions.antt =====
-- The length of the life of a change (src/ingest/domain.ts).
use web_comunidad_solar.Prelude.{ℕ, ◌+◌, ◌≤◌, ◌<◌, ◌≡◌, arith, true, List, [], ◌∷◌, length}
use web_comunidad_solar.Ingest.Domain.{
  ChangeState, received, normalized, planned, gate1_approved, generated, validated, gate2_approved,
  published, rejected, failed, allowed_transition,
}

-- How far a state is along the way.
abbrev pub stage : ChangeState → ℕ
stage received = 0
stage normalized = 1
stage planned = 2
stage gate1_approved = 3
stage generated = 4
stage validated = 5
stage gate2_approved = 6
stage published = 7
stage rejected = 7
stage failed = 7

stage_max : (s : ChangeState) → stage s ≤ 7
stage_max s = ground arith

-- The states are entered one after the other by permitted transitions.
abbrev pub IsPath : ChangeState → List ChangeState → Type 0
IsPath from [] = Unit
IsPath from (to ∷ rest) = (allowed_transition from to ≡ true) × IsPath to rest

allowed_transition-stage :
    (from to : ChangeState) → allowed_transition from to ≡ true → stage from < stage to
unfolding allowed_transition
allowed_transition-stage from to h = ground arith

-- A change that moves by permitted transitions enters at most seven states after the first, and
-- fewer by the stage that it starts from.
pub IsPath-bounded :
    (from : ChangeState) (rest : List ChangeState) → IsPath from rest → stage from + length rest ≤ 7
IsPath-bounded from [] h = ground (arith, stage_max from)
IsPath-bounded from (to ∷ rest) (p, h) =
    ground (arith, allowed_transition-stage from to p, IsPath-bounded to rest h)
