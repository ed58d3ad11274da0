-- ===== src/Ingest/Dossier.antt =====
-- src/ingest/dossier-integrity.ts: what of a candidate may be printed, the preimage that commits to
-- the rest, and the subject that the second gate approves.
pub mod Printed
pub mod Commitment
pub mod Files
pub mod Bound
pub mod Reordered
pub mod Accepted
pub mod Readable
pub mod Subjects
use web_comunidad_solar.Prelude.{
  ℕ, ◌+◌, Bool, true, false, not, Option, none, some, List, [], ◌∷◌, ◌++◌, map, Text, codes, ◌===◌,
  ◌==◌, if◌then◌else◌, ◌&&◌, all, any, length, drop, starts_with, member, text_lt,
}
use web_comunidad_solar.Json.{Json, null, nat, number, string, boolean, object}
use web_comunidad_solar.Json.Encode.{array_of, object_of, nullable, fields}
use web_comunidad_solar.Ingest.Failure.{
  Result, ok, err, ◌>>=◌, ◌>>◌, throw_if, or_throw, evidence_not_sealed, artifact_not_kept,
  index_not_contiguous, preimage_invalid, validation_repeated, projection_mismatch, artifact_unsafe,
  path_repeated,
}
use web_comunidad_solar.Ingest.Platform.{Platform, sha256_canonical}
use web_comunidad_solar.Ingest.Plan.{Adapter, Publication, adapter_name, publication_json}
use web_comunidad_solar.Ingest.Schema.{is_hash}
use web_comunidad_solar.Ingest.Candidate.{
  CandidateManifest, Validation, Artifact, KnownDifference, ValidationStatus, passed, is_passed,
  validation_json, artifact_json, candidate_json,
}

pub record IndexedHash : Type 0 where
  pub index : ℕ
  pub value_sha256 : Text

pub record SealedProfile : Type 0 where
  pub adapter : Adapter
  pub config_sha256 : Text
  pub environment_sha256 : Option Text
  pub site_indexable : Bool

-- A validation of the preimage; its status is always `passed`.
pub record SealedValidation : Type 0 where
  pub index : ℕ
  pub id : Text
  pub evidence_path_sha256 : Text
  pub evidence_sha256 : Text

pub record SealedArtifact : Type 0 where
  pub index : ℕ
  pub source_path_sha256 : Text
  pub dossier_path_sha256 : Text
  pub sha256 : Text
  pub bytes : ℕ

-- A difference of the preimage; its `approvalRequired` is always true.
pub record SealedDifference : Type 0 where
  pub index : ℕ
  pub description_sha256 : Text

pub record CandidateDossierPreimage : Type 0 where
  pub change_id : Text
  pub attempt_id : Text
  pub request_sha256 : Text
  pub plan_sha256 : Text
  pub baseline_commit : Text
  pub candidate_commit : Text
  pub artifact_sha256 : Text
  pub build_profile : SealedProfile
  pub routes : List IndexedHash
  pub files : List IndexedHash
  pub validations : List SealedValidation
  pub artifacts : List SealedArtifact
  pub command_sha256 : Text
  pub url_sha256 : Text
  pub known_differences : List SealedDifference

-- `{ approvalRequired: true }`
pub data ApprovalRequired : Type 0 where
  approval_required : ApprovalRequired

-- The projection; the command of its preview is a constant.
pub record SanitizedCandidateProjection : Type 0 where
  pub change_id : Text
  pub attempt_id : Text
  pub request_sha256 : Text
  pub plan_sha256 : Text
  pub baseline_commit : Text
  pub candidate_commit : Text
  pub artifact_sha256 : Text
  pub build_profile : Publication
  pub routes : List Text
  pub files : List Text
  pub artifacts : List Artifact
  pub validations : List Validation
  pub known_differences : List ApprovalRequired

-- `values.map((value, index) => …)` from an index on
abbrev pub indexed {ℓ κ} : {A : Type ℓ} {B : Type κ} → (A → ℕ → B) → ℕ → List A → List B
indexed f n [] = []
indexed f n (x ∷ xs) = f x n ∷ indexed f (n + 1) xs

unfoldable pub candidate_artifact_prefix : CandidateManifest → Text
candidate_artifact_prefix c =
    codes ".artifacts/candidates/"
    ++ (c.change_id ++ (codes "/" ++ (c.attempt_id ++ codes "/bundle/")))

abbrev project_validation : Validation → Validation
project_validation v = record v { evidence = codes "evidence/" ++ (v.id ++ codes ".json") }

abbrev project_difference : KnownDifference → ApprovalRequired
project_difference d = approval_required

module _ (p : Platform) where
  -- `valueSha256`
  abbrev pub value_sha256 : Text → Text
  value_sha256 t = sha256_canonical p (string t)

  unfoldable pub sanitized_artifact_path : CandidateManifest → Artifact → Text
  sanitized_artifact_path c a =
      let prefix = candidate_artifact_prefix c in
      if starts_with a.path prefix
      then codes "bundle/" ++ drop (length prefix) a.path
      else codes "sealed-artifact/" ++ sha256_canonical p (artifact_json a)

  abbrev indexed_hash : Text → ℕ → IndexedHash
  indexed_hash t n = record { index = n; value_sha256 = value_sha256 t }

  unfoldable pub indexed_hashes : List Text → List IndexedHash
  indexed_hashes ts = indexed indexed_hash 0 ts

  abbrev project_artifact : CandidateManifest → Artifact → Artifact
  project_artifact c a = record a { path = sanitized_artifact_path c a }

  unfoldable pub sanitized_candidate_projection : CandidateManifest → SanitizedCandidateProjection
  sanitized_candidate_projection c = record {
    change_id = c.change_id;
    attempt_id = c.attempt_id;
    request_sha256 = c.request_sha256;
    plan_sha256 = c.plan_sha256;
    baseline_commit = c.baseline_commit;
    candidate_commit = c.candidate_commit;
    artifact_sha256 = c.artifact_sha256;
    build_profile = c.build_profile;
    routes = c.routes;
    files = c.files;
    artifacts = map (project_artifact c) c.artifacts;
    validations = map project_validation c.validations;
    known_differences = map project_difference c.known_differences;
  }

  abbrev sealed_validation : Validation → ℕ → Text → SealedValidation
  sealed_validation v n hash = record {
    index = n;
    id = v.id;
    evidence_path_sha256 = value_sha256 v.evidence;
    evidence_sha256 = hash;
  }

  abbrev seal_evidence : Validation → ℕ → Option Text → Result SealedValidation
  seal_evidence v n none = err evidence_not_sealed
  seal_evidence v n (some hash) =
      if is_passed v.status && is_hash hash
      then ok (sealed_validation v n hash)
      else err evidence_not_sealed

  -- `sealedValidationPreimage`
  unfoldable pub sealed_validation_preimage : Validation → ℕ → Result SealedValidation
  sealed_validation_preimage v n = seal_evidence v n v.evidence_sha256

  unfoldable pub seal_validations : ℕ → List Validation → Result (List SealedValidation)
  seal_validations n [] = ok []
  seal_validations n (v ∷ vs) = do
    first ← sealed_validation_preimage v n
    rest ← seal_validations (n + 1) vs
    ok (first ∷ rest)

  abbrev sealed_artifact : Artifact → ℕ → Artifact → SealedArtifact
  sealed_artifact a n printable = record {
    index = n;
    source_path_sha256 = value_sha256 a.path;
    dossier_path_sha256 = value_sha256 printable.path;
    sha256 = a.sha256;
    bytes = a.bytes;
  }

  -- The artifacts, each with the one that the projection prints at its index.
  unfoldable pub seal_artifacts : ℕ → List Artifact → List Artifact → Result (List SealedArtifact)
  seal_artifacts n [] printables = ok []
  seal_artifacts n (a ∷ more) [] = err artifact_not_kept
  seal_artifacts n (a ∷ more) (printable ∷ printables) = do
    rest ← seal_artifacts (n + 1) more printables
    ok (sealed_artifact a n printable ∷ rest)

  abbrev seal_environment : Option Text → Option Text
  seal_environment none = none
  seal_environment (some t) = some (value_sha256 t)

  abbrev pub seal_profile : Publication → SealedProfile
  seal_profile b = record {
    adapter = b.adapter;
    config_sha256 = b.config_sha256;
    environment_sha256 = seal_environment b.environment;
    site_indexable = b.site_indexable;
  }

  abbrev seal_difference : KnownDifference → ℕ → SealedDifference
  seal_difference d n = record { index = n; description_sha256 = value_sha256 d.description }

  -- The preimage around its sealed validations and artifacts.
  abbrev preimage_of :
      CandidateManifest → List SealedValidation → List SealedArtifact → CandidateDossierPreimage
  preimage_of c validations artifacts = record {
    change_id = c.change_id;
    attempt_id = c.attempt_id;
    request_sha256 = c.request_sha256;
    plan_sha256 = c.plan_sha256;
    baseline_commit = c.baseline_commit;
    candidate_commit = c.candidate_commit;
    artifact_sha256 = c.artifact_sha256;
    build_profile = seal_profile c.build_profile;
    routes = indexed_hashes c.routes;
    files = indexed_hashes c.files;
    validations = validations;
    artifacts = artifacts;
    command_sha256 = value_sha256 c.preview_command;
    url_sha256 = value_sha256 c.preview_url;
    known_differences = indexed seal_difference 0 c.known_differences;
  }

  unfoldable pub candidate_dossier_preimage : CandidateManifest → Result CandidateDossierPreimage
  candidate_dossier_preimage c = do
    let projection = sanitized_candidate_projection c
    validations ← seal_validations 0 c.validations
    artifacts ← seal_artifacts 0 c.artifacts projection.artifacts
    ok (preimage_of c validations artifacts)
