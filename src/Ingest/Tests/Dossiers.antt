-- ===== src/Ingest/Tests/Dossiers.antt =====
-- A plan, a candidate of it, and what the dossier says of the candidate.
use mathlib.Core.List.Perm
use web_comunidad_solar.Prelude.{arith, ◌≡◌, refl, true, false, none, some, [], ◌∷◌, Text, codes}
use web_comunidad_solar.Json.{canonical_json}
use web_comunidad_solar.Ingest.Failure.{ok}
use web_comunidad_solar.Ingest.Platform.{sha256_canonical}
use web_comunidad_solar.Ingest.Schema.{is_hash, is_change_id}
use web_comunidad_solar.Ingest.Plan.{
  is_publication, ChangePlan, Publication, blocks, local, create, unsigned_plan_json,
}
use web_comunidad_solar.Ingest.Candidate.{CandidateManifest, passed, is_candidate}
use web_comunidad_solar.Ingest.Dossier.{
  CandidateDossierPreimage, candidate_dossier_preimage, sanitized_candidate_projection,
}
use web_comunidad_solar.Ingest.Dossier.Commitment.{
  parse_candidate_dossier_preimage, assert_candidate_dossier_projection_binding,
  has_recordable_validation_evidence, candidate_approval_subject,
}
use web_comunidad_solar.Ingest.Dossier.Files.{DossierCommitmentFile, sanitized_dossier_sha256}
use web_comunidad_solar.Ingest.Dossier.Accepted.{IsSealable}
use web_comunidad_solar.Ingest.Approvals.Baseline.{is_commit}
use web_comunidad_solar.Ingest.Dossier.Readable.{candidate_dossier_preimage-durable}
use web_comunidad_solar.Ingest.Dossier.Subjects.{
  candidate_dossier_preimage-total, candidate_approval_subject-total,
}
use web_comunidad_solar.Ingest.Dossier.Reordered.{sanitized_dossier_sha256-perm}
use web_comunidad_solar.Ingest.Tests.{blind, change, letters}

abbrev pub local_publication : Publication
local_publication = record {
  adapter = local;
  config_sha256 = letters 64;
  environment = none;
  site_indexable = false;
}

abbrev draft_plan : ChangePlan
draft_plan = record {
  change_id = change;
  baseline_commit = letters 40;
  request_sha256 = letters 64;
  selected_mode = blocks;
  target_path = codes "/contacto";
  overwrites_existing_route = false;
  files = record { path = codes "src/pages/contacto.astro"; operation = create } ∷ [];
  components = [];
  islands = [];
  dependencies = [];
  validations = codes "build" ∷ [];
  publication = local_publication;
  plan_sha256 = [];
}

abbrev pub plan : ChangePlan
plan = record draft_plan { plan_sha256 = sha256_canonical blind (unsigned_plan_json draft_plan) }

abbrev pub candidate : CandidateManifest
candidate = record {
  change_id = change;
  attempt_id = codes "attempt-000001";
  request_sha256 = letters 64;
  plan_sha256 = plan.plan_sha256;
  baseline_commit = letters 40;
  candidate_commit = letters 40;
  artifact_sha256 = letters 64;
  build_profile = local_publication;
  routes = codes "/contacto" ∷ [];
  files = codes "src/pages/contacto.astro" ∷ [];
  validations =
      record {
        id = codes "build";
        status = passed;
        evidence = codes "/tmp/build.json";
        evidence_sha256 = some (letters 64);
      }
      ∷ [];
  artifacts = record { path = codes "/tmp/index.html"; sha256 = letters 64; bytes = 12 } ∷ [];
  preview_command = codes "npm run preview";
  preview_url = codes "http://localhost:4321";
  known_differences = record { description = codes "fuentes" } ∷ [];
}

candidate-recordable : has_recordable_validation_evidence candidate ≡ true
unfolding has_recordable_validation_evidence is_hash
candidate-recordable = refl

abbrev sealed :
    (pre : CandidateDossierPreimage) × (candidate_dossier_preimage blind candidate ≡ ok pre)
sealed = candidate_dossier_preimage-total blind candidate candidate-recordable

blind_digests : (t : Text) → is_hash (blind.sha256 t) ≡ true
unfolding is_hash
blind_digests t = ground arith

candidate-accepted : is_candidate candidate ≡ true
unfolding is_candidate is_change_id is_publication is_hash sha256_canonical canonical_json
    unsigned_plan_json
candidate-accepted = refl

candidate-committed : is_commit candidate.baseline_commit ≡ true
unfolding is_commit
candidate-committed = refl

candidate-IsSealable : IsSealable blind candidate
candidate-IsSealable = record {
  accepted = candidate-accepted;
  attempt = refl;
  baseline = candidate-committed;
  commit = candidate-committed;
  ids = refl;
  digests = blind_digests;
}

candidate_dossier_preimage-durable_example :
    (assert_candidate_dossier_projection_binding blind sealed.0
        (sanitized_candidate_projection blind candidate)
      ≡ ok tt)
    × (parse_candidate_dossier_preimage sealed.0 ≡ ok sealed.0)
candidate_dossier_preimage-durable_example =
    candidate_dossier_preimage-durable blind candidate sealed.0 sealed.1 candidate-IsSealable refl

candidate_approval_subject-total_example :
    (t : Text) × (candidate_approval_subject blind candidate ≡ ok t)
candidate_approval_subject-total_example = candidate_approval_subject-total blind candidate

abbrev page : DossierCommitmentFile
page = record { path = codes "plan.md"; contents = codes "uno" }

abbrev notes : DossierCommitmentFile
notes = record { path = codes "candidate.json"; contents = codes "dos" }

sanitized_dossier_sha256-perm_example :
    sanitized_dossier_sha256 blind (page ∷ notes ∷ [])
    ≡ sanitized_dossier_sha256 blind (notes ∷ page ∷ [])
sanitized_dossier_sha256-perm_example =
    sanitized_dossier_sha256-perm blind (page ∷ notes ∷ []) (notes ∷ page ∷ [])
      (Perm.swap notes page [])
