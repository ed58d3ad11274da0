-- ===== src/Ingest/Approvals/Verify.antt =====
-- `verifyApproval` of src/ingest/approvals/service.ts: an approval against the plan or the candidate
-- that is at hand, and `main` as it stands.
use web_comunidad_solar.Prelude.{
  Bool, false, not, Option, none, some, [], ◌∷◌, Text, codes, ◌===◌, ltb, length, trim, member,
  if◌then◌else◌, ◌||◌, ◌&&◌,
}
use web_comunidad_solar.Ingest.Failure.{
  Result, ok, err, throw_if, actor_not_a_person, approval_invalid, baseline_moved,
  candidate_invalid, candidate_not_approved, plan_not_approved, plan_invalid,
}
use web_comunidad_solar.Ingest.Plan.{ChangePlan, plan_subject}
use web_comunidad_solar.Ingest.Candidate.{CandidateManifest, is_candidate}
use web_comunidad_solar.Ingest.Dossier.Commitment.{candidate_approval_subject}
use web_comunidad_solar.Ingest.Approvals.Approval.{
  Gate, gate_1, gate_2, ApprovalRecord, is_approval,
}
use web_comunidad_solar.Ingest.Approvals.Office.{Surroundings}

-- What `verifyApproval` compares a record with.
pub data Subject : Type 0 where
  plan_of : ChangePlan → Subject
  candidate_of : CandidateManifest → Subject

module _ (s : Surroundings) where
  unfoldable pub is_person : Text → Bool
  is_person actor = not (
      ltb (length actor) 3
      || ltb 120 (length actor)
      || not (trim actor === actor)
      || member (s.lower_case actor) (codes "agent" ∷ codes "codex" ∷ codes "fixture" ∷ []))

  unfoldable pub assert_actor : Text → Result (Unit {0})
  unfolding is_person
  assert_actor actor = throw_if (not (is_person actor)) actor_not_a_person

  unfoldable pub candidate_subject : CandidateManifest → Result Text
  candidate_subject c =
      if is_candidate c then candidate_approval_subject s.platform c else err candidate_invalid

  abbrev agrees_with_plan : ApprovalRecord → ChangePlan → Text → Bool
  agrees_with_plan r plan subject =
      r.change_id === plan.change_id
      && r.baseline_commit === plan.baseline_commit
      && r.subject_sha256 === subject

  abbrev same_optional : Option Text → Text → Bool
  same_optional none t = false
  same_optional (some u) t = u === t

  abbrev agrees_with_candidate : ApprovalRecord → CandidateManifest → Text → Bool
  agrees_with_candidate r c subject =
      r.change_id === c.change_id
      && r.baseline_commit === c.baseline_commit
      && r.subject_sha256 === subject
      && same_optional r.candidate_commit c.candidate_commit
      && same_optional r.artifact_sha256 c.artifact_sha256

  -- A subject of the other kind fails the schema of the one that the gate expects.
  abbrev pub verify_subject : Gate → ApprovalRecord → Subject → Result (Unit {0})
  verify_subject gate_1 r (plan_of plan) = elim (plan_subject s.platform plan) [
    | err e ↦ err e
    | ok subject ↦ throw_if (not (agrees_with_plan r plan subject)) plan_not_approved
  ]
  verify_subject gate_1 r (candidate_of c) = err plan_invalid
  verify_subject gate_2 r (candidate_of c) = elim (candidate_subject c) [
    | err e ↦ err e
    | ok subject ↦ throw_if (not (agrees_with_candidate r c subject)) candidate_not_approved
  ]
  verify_subject gate_2 r (plan_of plan) = err candidate_invalid

  unfoldable pub verify_approval : ApprovalRecord → Subject → Text → Result (Unit {0})
  verify_approval r subject current_baseline =
      if not (is_approval r)
      then err approval_invalid
      else if not (is_person r.actor)
      then err actor_not_a_person
      else if not (r.baseline_commit === current_baseline)
      then err baseline_moved
      else verify_subject r.gate r subject
