-- ===== src/Ingest/Tests/Approvals.antt =====
-- Approvals of the two gates on an empty directory.
use web_comunidad_solar.Prelude.{
  arith, ◌≡◌, ===_refl, refl, true, none, some, [], ◌∷◌, Text, codes, take, trim, decimal, member,
  if◌then◌else◌,
}
use web_comunidad_solar.Json.{canonical_json}
use web_comunidad_solar.Ingest.Platform.{sha256_canonical}
use web_comunidad_solar.Ingest.Schema.{is_hash, is_change_id, is_target_path}
use web_comunidad_solar.Ingest.Plan.{
  plan_subject, is_change_plan, is_publication, unsigned_plan_json, publication_json,
}
use web_comunidad_solar.Ingest.Failure.{Result, ok, err}
use web_comunidad_solar.Ingest.Disk.{works}
use web_comunidad_solar.Ingest.Candidate.{is_candidate}
use web_comunidad_solar.Ingest.Dossier.{
  candidate_dossier_preimage, seal_validations, sealed_validation_preimage, seal_artifacts,
  sanitized_candidate_projection, sanitized_artifact_path, candidate_artifact_prefix,
  indexed_hashes,
}
use web_comunidad_solar.Ingest.Dossier.Printed.{preimage_json, projection_json}
use web_comunidad_solar.Ingest.Dossier.Commitment.{
  candidate_approval_subject, candidate_dossier_commitment, has_recordable_validation_evidence,
  approval_subject_sha256,
}
use web_comunidad_solar.Ingest.Approvals.Approval.{
  ApprovalRecord, gate_1, production, approval_json, is_approval, decode_approval,
}
use web_comunidad_solar.Ingest.Approvals.Baseline.{
  Checkout, directory, protected_main_baseline, git_root_of, is_commit,
}
use web_comunidad_solar.Ingest.Approvals.Prompt.{
  controller, ApprovalPrompt, FixtureRun, FixtureView, approval_prompt, begin_create_prompt,
  finish_create_prompt, fixture_prompt, waiting, going_on, begin_dispose, finish_dispose,
  production_prompt, acquire_approval_lease, release_approval_lease, assert_prompt_state_root,
}
use web_comunidad_solar.Ingest.Approvals.Office.{
  Office, Surroundings, no_entry, file, approval_1, provenance_file, terminal, put_entry,
  write_approval_file,
}
use web_comunidad_solar.Ingest.Approvals.Provenance.{
  ApprovalProvenanceRecord, VerifiedApprovalProvenance, provenance_json, provenance_payload,
  provenance_fields,
}
use web_comunidad_solar.Ingest.Approvals.Sealed.{
  signed_approval_provenance, approval_provenance_signature, verify_persisted_approval_provenance,
}
use web_comunidad_solar.Ingest.Approvals.Verify.{
  plan_of, is_person, assert_actor, candidate_subject, verify_approval,
}
use web_comunidad_solar.Ingest.Approvals.Service.{
  gate_1_record, approval_of_entry, persisted_gate_1, assert_candidate_belongs_to_plan,
  persist_approval, approve_gate_1, approve_gate_2, under_lease, issue_gate_1, issue_gate_2,
  assert_state_root, assert_issuance_baseline, confirm,
}
use web_comunidad_solar.Ingest.Approvals.Issued.{IsKept}
use web_comunidad_solar.Ingest.Approvals.First.{Reads, approve_gate_1-IsKept}
use web_comunidad_solar.Ingest.Approvals.Second.{IsSecondApproval, approve_gate_2-IsSecondApproval}
use web_comunidad_solar.Ingest.Approvals.Resealed.{
  IsReadable, IsCanonical, verify_persisted_approval_provenance-persist_approval,
  verify_persisted_approval_provenance-IsSealed,
}
use web_comunidad_solar.Ingest.Approvals.Steps.{
  fresh_run, Reach, Reach-joined, asks, hands_out, takes, gives_back, disposes, removes, here,
  onward,
}
use web_comunidad_solar.Ingest.Approvals.Disposal.{
  Reach-removed, Reach-disposed, IsReleased, given_back,
}
use web_comunidad_solar.Ingest.Tests.{digest, midday, letters, platform_reading, read_known, change}
use web_comunidad_solar.Ingest.Tests.Dossiers.{plan, candidate}

abbrev root : Text
root = codes "/repo"

abbrev checkout : Checkout
checkout = record {
  lexical = directory;
  root = some root;
  git = directory;
  realpath = λ t. some t;
  resolve = λ r t. t;
  git_output = λ args.
      if member (codes "--show-toplevel") args
      then some root
      else if member (codes "--verify") args
      then some (letters 40)
      else some (codes "/repo/.git");
}

abbrev actor : Text
actor = codes "Ana Vega"

abbrev blind_surroundings : Surroundings
blind_surroundings = record {
  platform = platform_reading (λ t. none);
  hmac = digest;
  lower_case = λ t. t;
  checkout = checkout;
  view = record {
    owned_clone = ok tt;
    real_repository_root = some root;
    state_root = codes "/repo/.change-state";
    state_is_safe = true;
  };
  is_tty = true;
  typed = λ c. take 12 c.subject_sha256;
  now = some midday;
  fault = λ n. works;
}

abbrev prompt : ApprovalPrompt
prompt = terminal blind_surroundings

abbrev first_approval : ApprovalRecord
first_approval = gate_1_record blind_surroundings prompt actor plan plan.plan_sha256 midday

abbrev seal_of_first : ApprovalProvenanceRecord
seal_of_first = signed_approval_provenance blind_surroundings first_approval prompt

abbrev surroundings : Surroundings
surroundings = record blind_surroundings {
  platform = platform_reading (read_known (approval_json first_approval ∷ []));
}

-- The same, with a reader of the provenance.
abbrev sealing : Surroundings
sealing = record blind_surroundings {
  platform = platform_reading (read_known (provenance_json seal_of_first ∷ []));
}

abbrev empty_office : Office
empty_office = record {
  entries = λ id f. no_entry;
  writes = 0;
  run = fresh_run (codes "/tmp/clone");
}

abbrev first_office : Office
first_office = (approve_gate_1 surroundings actor plan none empty_office).1

first_issued :
    approve_gate_1 surroundings actor plan none empty_office ≡ (ok first_approval, first_office)
unfolding approve_gate_1 assert_actor is_person trim plan_subject is_change_plan is_publication
    is_change_id is_hash is_target_path sha256_canonical canonical_json unsigned_plan_json
    publication_json approval_prompt under_lease acquire_approval_lease release_approval_lease
    production_prompt issue_gate_1 assert_state_root assert_prompt_state_root
    assert_issuance_baseline protected_main_baseline git_root_of is_commit confirm is_approval
    persist_approval write_approval_file put_entry approval_json signed_approval_provenance
    approval_provenance_signature provenance_payload provenance_fields fresh_run decimal
first_issued = refl

first_read : Reads surroundings first_approval
first_read = rw (===_refl (canonical_json (approval_json first_approval))) refl

approve_gate_1-IsKept_example :
    (prompt' : ApprovalPrompt) × (approval_prompt (terminal surroundings) none empty_office.run
      ≡ ok prompt')
    × (protected_main_baseline surroundings.checkout ≡ ok plan.baseline_commit)
    × (verify_approval surroundings first_approval (plan_of plan) plan.baseline_commit ≡ ok tt)
    × (approval_of_entry surroundings (first_office.entries plan.change_id approval_1)
        ≡ ok first_approval)
    × IsKept surroundings first_approval prompt' first_office.entries
approve_gate_1-IsKept_example =
    approve_gate_1-IsKept surroundings actor plan none empty_office first_office first_approval
      first_issued first_read

abbrev by_controller : VerifiedApprovalProvenance
by_controller = record { issuer = controller; environment = production }

abbrev persisted_office : Office
persisted_office = (persist_approval sealing first_approval prompt empty_office).1

first_persisted :
    persist_approval sealing first_approval prompt empty_office
    ≡ (ok first_approval, persisted_office)
unfolding persist_approval assert_state_root assert_prompt_state_root production_prompt
    write_approval_file put_entry
first_persisted = refl

first-IsReadable : IsReadable sealing (signed_approval_provenance sealing first_approval prompt)
unfolding signed_approval_provenance approval_provenance_signature is_hash sha256_canonical
    canonical_json approval_json production_prompt unsigned_plan_json provenance_payload
first-IsReadable = record {
  read = rw (===_refl (canonical_json (provenance_json seal_of_first))) refl;
  hash = refl;
  signature = refl;
}

first-IsApproval : is_approval first_approval ≡ true
unfolding is_approval is_change_id is_hash plan_subject unsigned_plan_json sha256_canonical
    canonical_json
first-IsApproval = refl

verify_persisted_approval_provenance-persist_approval_example :
    verify_persisted_approval_provenance sealing first_approval persisted_office
    ≡ (ok (record { issuer = controller; environment = production }), persisted_office)
unfolding production_prompt
verify_persisted_approval_provenance-persist_approval_example =
    verify_persisted_approval_provenance-persist_approval sealing first_approval first_approval
      prompt empty_office persisted_office first_persisted first-IsApproval refl first-IsReadable

verify_persisted_approval_provenance-IsSealed_example :
    (source : Text) × (v : ApprovalProvenanceRecord) × (persisted_office.entries change
        (provenance_file gate_1)
      ≡ file source 1)
    × IsCanonical sealing source v
    × (v.signature ≡ approval_provenance_signature sealing v.unsigned)
    × (v.approval_sha256 ≡ sha256_canonical sealing.platform (approval_json first_approval))
    × (v.environment ≡ first_approval.environment)
    × (by_controller ≡ record { issuer = v.issuer; environment = v.environment })
verify_persisted_approval_provenance-IsSealed_example =
    verify_persisted_approval_provenance-IsSealed sealing first_approval persisted_office
      persisted_office by_controller verify_persisted_approval_provenance-persist_approval_example

abbrev second_result : Result ApprovalRecord × Office
second_result = approve_gate_2 surroundings actor plan candidate none first_office

abbrev approval_in : Result ApprovalRecord → ApprovalRecord
approval_in (ok r) = r
approval_in (err e) = first_approval

second_issued :
    approve_gate_2 surroundings actor plan candidate none first_office
    ≡ (ok (approval_in second_result.0), second_result.1)
unfolding approve_gate_2 assert_actor is_person trim plan_subject is_change_plan is_publication
    is_change_id is_hash is_target_path sha256_canonical canonical_json unsigned_plan_json
    publication_json approval_prompt under_lease acquire_approval_lease release_approval_lease
    production_prompt issue_gate_2 persisted_gate_1 verify_approval decode_approval
    candidate_subject is_candidate candidate_approval_subject candidate_dossier_commitment
    has_recordable_validation_evidence assert_candidate_belongs_to_plan candidate_dossier_preimage
    assert_state_root assert_prompt_state_root assert_issuance_baseline protected_main_baseline
    git_root_of is_commit confirm is_approval persist_approval write_approval_file put_entry
    approval_json signed_approval_provenance approval_provenance_signature provenance_payload
    provenance_fields fresh_run decimal approve_gate_1 issue_gate_1 seal_validations
    sealed_validation_preimage seal_artifacts sanitized_candidate_projection approval_subject_sha256
    preimage_json sanitized_artifact_path candidate_artifact_prefix indexed_hashes projection_json
second_issued = refl

approve_gate_2-IsSecondApproval_example :
    (prompt' : ApprovalPrompt) × (approval_prompt (terminal surroundings) none first_office.run
      ≡ ok prompt')
    × IsSecondApproval surroundings actor plan candidate
        (first_office.entries change approval_1)
        (approval_in second_result.0)
        prompt'
    × IsKept surroundings (approval_in second_result.0) prompt' second_result.1.entries
approve_gate_2-IsSecondApproval_example =
    approve_gate_2-IsSecondApproval surroundings actor plan candidate none first_office
      second_result.1 (approval_in second_result.0) second_issued

-- A run whose `dispose` is called while a lease is held and a prompt is still being made.
abbrev fresh : FixtureRun
fresh = fresh_run (codes "/tmp/clone")

abbrev own_prompt : ApprovalPrompt
own_prompt = fixture_prompt (codes "/tmp/clone") true (codes "si") (ok tt)

abbrev leased : FixtureRun
leased = record fresh { active_leases = 1; preparing = 1 }

abbrev waited_for : FixtureRun
waited_for = record leased { closing = true; disposal = waiting }

abbrev late : FixtureRun
late = record waited_for { preparing = 0; handed_out = 1; prompts = (0, own_prompt) ∷ [] }

abbrev idle : FixtureRun
idle = record late { active_leases = 0; disposal = going_on }

late-Reach : Reach fresh late
unfolding fresh_run begin_create_prompt acquire_approval_lease begin_dispose finish_create_prompt
late-Reach = onward (asks refl) (
    onward (takes {next = leased} own_prompt refl refl) (
      onward {next = waited_for} disposes (
        onward
          (hands_out {run = waited_for} (ok tt) true (codes "si") (ok tt) (ok 0) (ground arith)
            refl)
          here)))

idle-Reach : Reach fresh (finish_dispose idle)
unfolding release_approval_lease finish_dispose fresh_run
idle-Reach = late_then (
    onward {next = idle} (gives_back {run = late} own_prompt refl (ground arith))
      (onward (removes {run = idle} refl) here))
  where
    late_then : Reach late (finish_dispose idle) → Reach fresh (finish_dispose idle)
    late_then more = Reach-joined late-Reach more

Reach-removed_example :
    ((finish_dispose idle).closing ≡ true) × ((finish_dispose idle).active_leases ≡ 0)
unfolding finish_dispose
Reach-removed_example = Reach-removed (codes "/tmp/clone") (finish_dispose idle) idle-Reach refl

abbrev clone_view : FixtureView
clone_view = record {
  owned_clone = ok tt;
  real_repository_root = some root;
  state_root = codes "/repo/.change-state";
  state_is_safe = true;
}

Reach-disposed_example : IsReleased late (given_back own_prompt 1 late)
unfolding fresh_run
Reach-disposed_example = Reach-disposed (codes "/tmp/clone") late own_prompt late-Reach refl refl
