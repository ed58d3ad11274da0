-- ===== src/Ingest/Approvals/Second.antt =====
-- What an approval of a candidate rests on, when the second gate of
-- src/ingest/approvals/service.ts issues one.
use web_comunidad_solar.Prelude.{
  ℕ, ◌≡◌, refl, eq_of_===, sym, subst, ◌∙◌, arith, not, true, Option, Text, take,
}
use web_comunidad_solar.Ingest.Failure.{ok, approval_clock_invalid, environment_differs, or_throw}
use web_comunidad_solar.Ingest.Effect.{>>=-steps, lift-steps, reject_if-steps}
use web_comunidad_solar.Json.{canonical_json}
use web_comunidad_solar.Ingest.Plan.{publication_json, ChangePlan, plan_subject, plan_subject-eq-ok}
use web_comunidad_solar.Ingest.Candidate.{CandidateManifest}
use web_comunidad_solar.Ingest.Approvals.Approval.{
  Gate, gate_1, gate_2, ApprovalRecord, is_approval, environment_eq,
}
use web_comunidad_solar.Ingest.Approvals.Baseline.{protected_main_baseline}
use web_comunidad_solar.Ingest.Approvals.Prompt.{ApprovalPrompt, approval_prompt}
use web_comunidad_solar.Ingest.Approvals.Office.{
  ApprovalEntry, approval_1, Office, Surroundings, terminal,
}
use web_comunidad_solar.Ingest.Approvals.Verify.{
  plan_of, is_person, assert_actor, candidate_subject, verify_subject, verify_approval,
}
use web_comunidad_solar.Ingest.Approvals.Service.{
  assert_state_root, assert_issuance_baseline, assert_candidate_belongs_to_plan, approval_of_entry,
  persisted_gate_1, confirm, valid_approval, gate_2_record, gate_2_summary, issue_gate_2,
  approve_gate_2,
}
use web_comunidad_solar.Ingest.Approvals.Issued.{
  IsKept, IsKept-released, persist_approval-IsKept, under_lease-steps,
  assert_issuance_baseline-eq-ok, confirm-eq-ok, valid_approval-eq-ok, assert_actor-eq-ok,
}

module _ (s : Surroundings) where
  -- What the approval of a candidate rests on: an actor that may be a person, an interactive prompt that
  -- answered the first twelve characters of the candidate's subject, `main` where the plan was made, a
  -- first approval on the disk that verifies for the plan there and has the environment of the prompt, and
  -- a candidate with the change, the baseline, the request, the publication and the hash of the plan.
  pub record IsSecondApproval (actor : Text) (plan : ChangePlan) (c : CandidateManifest)
      (stored : ApprovalEntry) (r : ApprovalRecord) (prompt : ApprovalPrompt) : Type 0 where
    pub person : is_person s actor ≡ true
    pub planned : plan_subject s.platform plan ≡ ok plan.plan_sha256
    pub attended : prompt.is_tty ≡ true
    pub subject : Text
    pub digest : candidate_subject s c ≡ ok subject
    pub typed :
        prompt.confirm
          (record { gate = gate_2; subject_sha256 = subject; summary = gate_2_summary s c })
        ≡ take 12 subject
    pub baseline : protected_main_baseline s.checkout ≡ ok plan.baseline_commit
    pub first : ApprovalRecord
    pub on_disk : approval_of_entry s stored ≡ ok first
    pub verified : verify_approval s first (plan_of plan) plan.baseline_commit ≡ ok tt
    pub same_environment : environment_eq first.environment prompt.environment ≡ true
    pub bound : assert_candidate_belongs_to_plan s c plan plan.plan_sha256 ≡ ok tt
    pub of_change : c.change_id ≡ plan.change_id
    pub of_baseline : c.baseline_commit ≡ plan.baseline_commit
    pub of_plan : c.plan_sha256 ≡ plan.plan_sha256
    pub of_request : c.request_sha256 ≡ plan.request_sha256
    pub of_publication :
        canonical_json (publication_json c.build_profile)
        ≡ canonical_json (publication_json plan.publication)
    pub first_gate : first.gate ≡ gate_1
    pub first_of_change : first.change_id ≡ plan.change_id
    pub first_of_plan : first.subject_sha256 ≡ plan.plan_sha256
    pub at : Text
    pub issued : r ≡ gate_2_record s prompt actor c subject at
    pub valid : is_approval r ≡ true

  -- The candidate has the members of the plan that the plan's subject stands for.
  assert_candidate_belongs_to_plan-eq-ok :
      (c : CandidateManifest) (plan : ChangePlan) (subject : Text)
      → assert_candidate_belongs_to_plan s c plan subject ≡ ok tt
      → (c.change_id ≡ plan.change_id)
        × (c.baseline_commit ≡ plan.baseline_commit)
        × (c.plan_sha256 ≡ subject)
        × (c.request_sha256 ≡ plan.request_sha256)
        × (canonical_json (publication_json c.build_profile)
            ≡ canonical_json (publication_json plan.publication))
  unfolding assert_candidate_belongs_to_plan
  assert_candidate_belongs_to_plan-eq-ok c plan subject h = (
    eq_of_=== _ _ (ground (arith, h)),
    eq_of_=== _ _ (ground (arith, h)),
    eq_of_=== _ _ (ground (arith, h)),
    eq_of_=== _ _ (ground (arith, h)),
    eq_of_=== _ _ (ground (arith, h)),
  )

  abbrev IsOfPlan : ApprovalRecord → ChangePlan → Text → Type 0
  IsOfPlan r plan subject =
      (r.gate ≡ gate_1) × (r.change_id ≡ plan.change_id) × (r.subject_sha256 ≡ subject)

  verify_subject-IsOfPlan :
      (r : ApprovalRecord) (plan : ChangePlan) (subject : Text) (g : Gate)
      → r.gate ≡ g
      → plan_subject s.platform plan ≡ ok subject
      → verify_subject s g r (plan_of plan) ≡ ok tt
      → IsOfPlan r plan subject
  verify_subject-IsOfPlan r plan subject gate_1 e planned h =
      (e, eq_of_=== _ _ (ground (arith, planned, h)), eq_of_=== _ _ (ground (arith, planned, h)))
  verify_subject-IsOfPlan r plan subject gate_2 e planned h = absurd (ground (arith, h))

  -- An approval that verifies for a plan is one of the first gate, of the change and the hash of the plan.
  verify_approval-IsOfPlan :
      (r : ApprovalRecord) (plan : ChangePlan) (baseline subject : Text)
      → plan_subject s.platform plan ≡ ok subject
      → verify_approval s r (plan_of plan) baseline ≡ ok tt
      → IsOfPlan r plan subject
  unfolding verify_approval
  verify_approval-IsOfPlan r plan baseline subject planned h =
      verify_subject-IsOfPlan r plan subject r.gate refl planned (ground (arith, h))

  issue_gate_2-IsSecondApproval :
      (actor : Text) (plan : ChangePlan) (c : CandidateManifest) (prompt : ApprovalPrompt)
      (w u : Office) (r : ApprovalRecord)
      → is_person s actor ≡ true
      → plan_subject s.platform plan ≡ ok plan.plan_sha256
      → issue_gate_2 s actor plan c plan.plan_sha256 prompt w ≡ (ok r, u)
      → IsSecondApproval actor plan c (w.entries plan.change_id approval_1) r prompt
        × IsKept s r prompt u.entries
  unfolding issue_gate_2 assert_state_root persisted_gate_1
  issue_gate_2-IsSecondApproval actor plan c prompt w u r person planned h =
      let (ready, w1, rooted, h1) = >>=-steps (assert_state_root s prompt) _ w u r h in
      let unmoved : w1 ≡ w = ground (arith, rooted) in
      let (baseline, stands, h2) = lift-steps (assert_issuance_baseline s plan) _ w1 u r h1 in
      let (main, same) = assert_issuance_baseline-eq-ok s plan baseline stands in
      let (first, w2, read, h3) = >>=-steps (persisted_gate_1 s plan.change_id) _ w1 u r h2 in
      let (v1, verified, h4) =
        lift-steps (verify_approval s first (plan_of plan) baseline) _ w2 u r h3 in
      let (environments, h5) =
        reject_if-steps (not (environment_eq first.environment prompt.environment))
          environment_differs _ w2 u r h4 in
      let (v2, bound, h6) =
        lift-steps (assert_candidate_belongs_to_plan s c plan plan.plan_sha256) _ w2 u r h5 in
      let (subject, digest, h7) = lift-steps (candidate_subject s c) _ w2 u r h6 in
      let (v3, confirmed, h8) =
        lift-steps (confirm s prompt gate_2 subject (gate_2_summary s c)) _ w2 u r h7 in
      let (attended, typed) =
        confirm-eq-ok s prompt gate_2 subject (gate_2_summary s c) confirmed in
      let (at, clock, h9) = lift-steps (or_throw s.now approval_clock_invalid) _ w2 u r h8 in
      let (x, checked, h10) =
        lift-steps (valid_approval s (gate_2_record s prompt actor c subject at)) _ w2 u r h9 in
      let (valid, made) =
        valid_approval-eq-ok s (gate_2_record s prompt actor c subject at) x checked in
      let (kept, files) = persist_approval-IsKept s x r prompt w2 u h10 in
      let (of_change, of_baseline, of_plan, of_request, of_publication) =
        assert_candidate_belongs_to_plan-eq-ok c plan plan.plan_sha256 bound in
      let (first_gate, first_of_change, first_of_plan) =
        verify_approval-IsOfPlan first plan baseline plan.plan_sha256 planned verified in
      (
        record {
          person = person;
          planned = planned;
          attended = attended;
          subject = subject;
          digest = digest;
          typed = typed;
          baseline = main;
          first = first;
          on_disk = ground (arith, read, unmoved);
          verified =
              subst (λ x. verify_approval s first (plan_of plan) x ≡ ok tt) (sym same) verified;
          same_environment = ground (arith, environments);
          bound = bound;
          of_change = of_change;
          of_baseline = of_baseline;
          of_plan = of_plan;
          of_request = of_request;
          of_publication = of_publication;
          first_gate = first_gate;
          first_of_change = first_of_change;
          first_of_plan = first_of_plan;
          at = at;
          issued = kept ∙ made;
          valid = subst (λ y. is_approval y ≡ true) (sym (kept ∙ made)) valid;
        },
        subst (λ y. IsKept s y prompt u.entries) (sym kept) files,
      )

  -- If the second gate issues an approval of a candidate, the prompt of the capability, or the terminal's
  -- where none is given, is interactive and answered the first twelve characters of the candidate's
  -- subject. `main` stands at the baseline of the plan, an approval by the first gate with the change and
  -- the hash of that plan lies on the disk, verifies there and has the environment of the prompt, the
  -- candidate has the change, baseline, request, publication and hash of the plan, and the approval and
  -- its sealed provenance are on the disk afterwards.
  pub approve_gate_2-IsSecondApproval :
      (actor : Text) (plan : ChangePlan) (c : CandidateManifest) (capability : Option ℕ)
      (w u : Office) (r : ApprovalRecord)
      → approve_gate_2 s actor plan c capability w ≡ (ok r, u)
      → (prompt : ApprovalPrompt) × (approval_prompt (terminal s) capability w.run ≡ ok prompt)
        × IsSecondApproval actor plan c (w.entries plan.change_id approval_1) r prompt
        × IsKept s r prompt u.entries
  unfolding approve_gate_2
  approve_gate_2-IsSecondApproval actor plan c capability w u r h =
      let (v1, person, h1) = lift-steps (assert_actor s actor) _ w u r h in
      let (plan_sha256, planned, h2) = lift-steps (plan_subject s.platform plan) _ w u r h1 in
      let (prompt, chosen, h3) =
        lift-steps (approval_prompt (terminal s) capability w.run) _ w u r h2 in
      let (before, after, v, issued, released) =
        under_lease-steps s prompt (issue_gate_2 s actor plan c plan_sha256 prompt) w u r h3 in
      let (carried, computed) = plan_subject-eq-ok s.platform plan plan_sha256 planned in
      let (second, kept) =
        issue_gate_2-IsSecondApproval actor plan c prompt (record w { run = before }) v r
          (assert_actor-eq-ok s actor person)
          (subst (λ x. plan_subject s.platform plan ≡ ok x) (sym carried) planned)
          (subst (λ x. issue_gate_2 s actor plan c x prompt (record w { run = before }) ≡ (ok r, v))
            (sym carried) issued) in
      (prompt, chosen, second, IsKept-released s r prompt v u after released kept)
