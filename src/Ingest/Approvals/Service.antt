-- ===== src/Ingest/Approvals/Service.antt =====
-- src/ingest/approvals/service.ts: issuing the approvals of the two gates.
use web_comunidad_solar.Prelude.{
  ℕ, not, Option, none, some, ◌++◌, Text, codes, ◌===◌, take, if◌then◌else◌, ◌||◌,
}
use web_comunidad_solar.Json.{canonical_json}
use web_comunidad_solar.Ingest.Failure.{
  Result, ok, err, throw_if, or_throw, approval_clock_invalid, approval_invalid,
  baseline_differs_from_plan, candidate_not_of_plan, confirmation_differs, environment_differs,
  gate_1_missing, gate_1_unsafe, gate_1_not_json, not_interactive,
}
use web_comunidad_solar.Ingest.Effect.{◌>>=◌, ◌>>◌, pure, lift, reject_if, finally}
use web_comunidad_solar.Ingest.Plan.{ChangePlan, publication_json, plan_subject}
use web_comunidad_solar.Ingest.Candidate.{CandidateManifest}
use web_comunidad_solar.Ingest.Approvals.Approval.{
  Gate, gate_1, gate_2, ApprovalRecord, environment_eq, approval_json, is_approval, decode_approval,
}
use web_comunidad_solar.Ingest.Approvals.Baseline.{protected_main_baseline}
use web_comunidad_solar.Ingest.Approvals.Prompt.{
  ApprovalPrompt, ApprovalConfirmation, approval_prompt, acquire_approval_lease,
  release_approval_lease, assert_prompt_state_root,
}
use web_comunidad_solar.Ingest.Approvals.Office.{
  ApprovalEntry, no_entry, file, unsafe_entry, approval_1, approval_file, provenance_file, Office,
  Surroundings, Desk, terminal, write_approval_file,
}
use web_comunidad_solar.Ingest.Approvals.Provenance.{provenance_json}
use web_comunidad_solar.Ingest.Approvals.Sealed.{signed_approval_provenance}
use web_comunidad_solar.Ingest.Approvals.Verify.{
  plan_of, assert_actor, candidate_subject, verify_approval,
}

module _ (s : Surroundings) where
  abbrev baseline_of_plan : ChangePlan → Result Text → Result Text
  baseline_of_plan plan (err e) = err e
  baseline_of_plan plan (ok baseline) =
      if plan.baseline_commit === baseline then ok baseline else err baseline_differs_from_plan

  unfoldable pub assert_issuance_baseline : ChangePlan → Result Text
  assert_issuance_baseline plan = baseline_of_plan plan (protected_main_baseline s.checkout)

  unfoldable pub assert_candidate_belongs_to_plan :
      CandidateManifest → ChangePlan → Text → Result (Unit {0})
  assert_candidate_belongs_to_plan c plan subject =
      throw_if
        (not (c.change_id === plan.change_id)
          || not (c.baseline_commit === plan.baseline_commit)
          || not (c.plan_sha256 === subject)
          || not (c.request_sha256 === plan.request_sha256)
          || not (
              canonical_json (publication_json c.build_profile)
              === canonical_json (publication_json plan.publication)))
        candidate_not_of_plan

  abbrev parse_approval : Text → Result ApprovalRecord
  parse_approval t = elim (s.platform.json_parse t) [
    | none ↦ err gate_1_not_json
    | some value ↦ or_throw (decode_approval value) approval_invalid
  ]

  abbrev pub approval_of_entry : ApprovalEntry → Result ApprovalRecord
  approval_of_entry no_entry = err gate_1_missing
  approval_of_entry unsafe_entry = err gate_1_unsafe
  approval_of_entry (file t links) = parse_approval t

  unfoldable pub persisted_gate_1 : Text → Desk ApprovalRecord
  persisted_gate_1 id w = (approval_of_entry (w.entries id approval_1), w)

  unfoldable pub confirm : ApprovalPrompt → Gate → Text → Text → Result (Unit {0})
  confirm prompt gate subject summary =
      let confirmation : ApprovalConfirmation = record {
        gate = gate;
        subject_sha256 = subject;
        summary = summary;
      } in
      if not prompt.is_tty
      then err not_interactive
      else throw_if (not (prompt.confirm confirmation === take 12 subject)) confirmation_differs

  unfoldable pub assert_state_root : ApprovalPrompt → Desk (Unit {0})
  assert_state_root prompt w = (assert_prompt_state_root prompt s.view w.run, w)

  unfoldable pub persist_approval : ApprovalRecord → ApprovalPrompt → Desk ApprovalRecord
  unfolding assert_state_root
  persist_approval r prompt = do
    assert_state_root prompt
    lift prompt.before_persist
    write_approval_file s.fault r.change_id (approval_file r.gate)
        (canonical_json (approval_json r))
    write_approval_file s.fault r.change_id (provenance_file r.gate)
        (canonical_json (provenance_json (signed_approval_provenance s r prompt)))
    pure r

  -- `validateSchema("approval", record)`
  abbrev pub valid_approval : ApprovalRecord → Result ApprovalRecord
  valid_approval r = if is_approval r then ok r else err approval_invalid

  abbrev pub gate_1_record : ApprovalPrompt → Text → ChangePlan → Text → Text → ApprovalRecord
  gate_1_record prompt actor plan subject at = record {
    environment = prompt.environment;
    gate = gate_1;
    change_id = plan.change_id;
    actor = actor;
    approved_at = at;
    subject_sha256 = subject;
    baseline_commit = plan.baseline_commit;
    candidate_commit = none;
    artifact_sha256 = none;
  }

  abbrev pub gate_2_record :
      ApprovalPrompt → Text → CandidateManifest → Text → Text → ApprovalRecord
  gate_2_record prompt actor c subject at = record {
    environment = prompt.environment;
    gate = gate_2;
    change_id = c.change_id;
    actor = actor;
    approved_at = at;
    subject_sha256 = subject;
    baseline_commit = c.baseline_commit;
    candidate_commit = some c.candidate_commit;
    artifact_sha256 = some c.artifact_sha256;
  }

  abbrev pub gate_1_summary : ChangePlan → Text
  gate_1_summary plan =
      codes "Cambio "
      ++ (plan.change_id
          ++ (codes "; baseline "
              ++ (plan.baseline_commit ++ (codes "; ruta " ++ (plan.target_path ++ codes ".")))))

  abbrev pub gate_2_summary : CandidateManifest → Text
  gate_2_summary c =
      codes "Cambio "
      ++ (c.change_id
          ++ (codes "; candidato "
              ++ (c.candidate_commit
                  ++ (codes "; artefacto " ++ (c.artifact_sha256 ++ codes ".")))))

  -- The body of `approveGate1` under the lease.
  unfoldable pub issue_gate_1 : Text → ChangePlan → Text → ApprovalPrompt → Desk ApprovalRecord
  unfolding assert_state_root
  issue_gate_1 actor plan subject prompt = do
    assert_state_root prompt
    baseline ← lift (assert_issuance_baseline plan)
    lift (confirm prompt gate_1 subject (gate_1_summary plan))
    at ← lift (or_throw s.now approval_clock_invalid)
    approval ← lift (valid_approval (gate_1_record prompt actor plan subject at))
    persist_approval approval prompt

  -- The body of `approveGate2` under the lease.
  unfoldable pub issue_gate_2 :
      Text → ChangePlan → CandidateManifest → Text → ApprovalPrompt → Desk ApprovalRecord
  unfolding assert_state_root
  issue_gate_2 actor plan c plan_sha256 prompt = do
    assert_state_root prompt
    baseline ← lift (assert_issuance_baseline plan)
    gate1 ← persisted_gate_1 plan.change_id
    lift (verify_approval s gate1 (plan_of plan) baseline)
    reject_if (not (environment_eq gate1.environment prompt.environment)) environment_differs
    lift (assert_candidate_belongs_to_plan c plan plan_sha256)
    subject ← lift (candidate_subject s c)
    lift (confirm prompt gate_2 subject (gate_2_summary c))
    at ← lift (or_throw s.now approval_clock_invalid)
    approval ← lift (valid_approval (gate_2_record prompt actor c subject at))
    persist_approval approval prompt

  abbrev pub take_lease : ApprovalPrompt → Desk (Unit {0})
  take_lease prompt w =
      let (r, run) = acquire_approval_lease prompt w.run in (r, record w { run = run })

  abbrev pub release : ApprovalPrompt → Office → Office
  release prompt w = record w { run = release_approval_lease prompt w.run }

  -- `try { issue } finally { releaseLease() }` behind the lease
  unfoldable pub under_lease : ApprovalPrompt → Desk ApprovalRecord → Desk ApprovalRecord
  under_lease prompt issue = do take_lease prompt; finally issue (release prompt)

  unfoldable pub approve_gate_1 : Text → ChangePlan → Option ℕ → Desk ApprovalRecord
  approve_gate_1 actor plan capability w =
      (do
        lift (assert_actor s actor)
        subject ← lift (plan_subject s.platform plan)
        prompt ← lift (approval_prompt (terminal s) capability w.run)
        under_lease prompt (issue_gate_1 actor plan subject prompt))
        w

  unfoldable pub approve_gate_2 :
      Text → ChangePlan → CandidateManifest → Option ℕ → Desk ApprovalRecord
  approve_gate_2 actor plan c capability w =
      (do
        lift (assert_actor s actor)
        plan_sha256 ← lift (plan_subject s.platform plan)
        prompt ← lift (approval_prompt (terminal s) capability w.run)
        under_lease prompt (issue_gate_2 actor plan c plan_sha256 prompt))
        w
