-- ===== src/Ingest/Dossier/Commitment.antt =====
-- src/ingest/dossier-integrity.ts: the reading of a preimage, its comparison with a projection, and
-- the subject of the second gate.
use web_comunidad_solar.Prelude.{
  ℕ, ◌+◌, Bool, true, false, not, Option, none, some, List, [], ◌∷◌, ◌++◌, map, Text, codes, ◌===◌,
  ◌==◌, if◌then◌else◌, ◌&&◌, ◌||◌, all, any, drop, leb, length, is_digit, is_lower, starts_with,
  member,
}
use web_comunidad_solar.Json.{Json, nat, number, string, boolean}
use web_comunidad_solar.Json.Encode.{array_of, object_of, nullable}
use web_comunidad_solar.Ingest.Failure.{
  Result, ok, ◌>>=◌, ◌>>◌, throw_if, index_not_contiguous, preimage_invalid, validation_repeated,
  projection_mismatch, artifact_unsafe,
}
use web_comunidad_solar.Ingest.Platform.{Platform, sha256_canonical}
use web_comunidad_solar.Ingest.Schema.{is_hash, is_change_id}
use web_comunidad_solar.Ingest.Approvals.Baseline.{is_commit}
use web_comunidad_solar.Ingest.Candidate.{
  CandidateManifest, Validation, Artifact, is_optional_hash, is_passed, status_name, candidate_json,
}
use web_comunidad_solar.Ingest.Dossier.{
  IndexedHash, SealedProfile, SealedValidation, SealedArtifact, SealedDifference,
  CandidateDossierPreimage, ApprovalRequired, SanitizedCandidateProjection, indexed, value_sha256,
  indexed_hashes, seal_profile, sanitized_candidate_projection, candidate_artifact_prefix,
  candidate_dossier_preimage,
}
use web_comunidad_solar.Ingest.Dossier.Printed.{
  projection_members, projection_json, preimage_json, indexed_hash_json, sealed_profile_json,
}

-- `entries.every((entry, index) => entry.index === index)` from an index on
abbrev pub counts_from : ℕ → List ℕ → Bool
counts_from n [] = true
counts_from n (i ∷ is) = i == n && counts_from (n + 1) is

abbrev assert_contiguous_indexes : List ℕ → Result (Unit {0})
assert_contiguous_indexes is = throw_if (not (counts_from 0 is)) index_not_contiguous

-- `new Set(ids).size !== ids.length`
abbrev pub has_repeated : List Text → Bool
has_repeated [] = false
has_repeated (t ∷ ts) = member t ts || has_repeated ts

-- /^attempt-[0-9]{6}$/
abbrev pub is_attempt_id : Text → Bool
is_attempt_id t = starts_with t (codes "attempt-") && all is_digit (drop 8 t) && length t == 14

abbrev is_id_unit : ℕ → Bool
is_id_unit c = is_lower c || is_digit c || c == b'-'

-- /^[a-z][a-z0-9-]{0,63}$/
abbrev pub is_validation_id : Text → Bool
is_validation_id [] = false
is_validation_id (c ∷ t) = is_lower c && all is_id_unit t && leb (length t) 63

abbrev is_sealed_profile : SealedProfile → Bool
is_sealed_profile b = is_hash b.config_sha256 && is_optional_hash b.environment_sha256

abbrev pub is_indexed_hash : IndexedHash → Bool
is_indexed_hash x = is_hash x.value_sha256

abbrev pub is_sealed_validation : SealedValidation → Bool
is_sealed_validation v =
    is_validation_id v.id && is_hash v.evidence_path_sha256 && is_hash v.evidence_sha256

abbrev pub is_sealed_artifact : SealedArtifact → Bool
is_sealed_artifact a =
    is_hash a.source_path_sha256 && is_hash a.dossier_path_sha256 && is_hash a.sha256

abbrev pub is_sealed_difference : SealedDifference → Bool
is_sealed_difference d = is_hash d.description_sha256

abbrev pub has_any : List SealedValidation → Bool
has_any [] = false
has_any (v ∷ vs) = true

-- `validateSchema("candidate-dossier-preimage", value)`
unfoldable pub is_candidate_dossier_preimage : CandidateDossierPreimage → Bool
is_candidate_dossier_preimage pre =
    is_change_id pre.change_id
    && is_attempt_id pre.attempt_id
    && is_hash pre.request_sha256
    && is_hash pre.plan_sha256
    && is_commit pre.baseline_commit
    && is_commit pre.candidate_commit
    && is_hash pre.artifact_sha256
    && is_sealed_profile pre.build_profile
    && all is_indexed_hash pre.routes
    && all is_indexed_hash pre.files
    && has_any pre.validations
    && all is_sealed_validation pre.validations
    && all is_sealed_artifact pre.artifacts
    && is_hash pre.command_sha256
    && is_hash pre.url_sha256
    && all is_sealed_difference pre.known_differences

unfoldable pub parse_candidate_dossier_preimage :
    CandidateDossierPreimage → Result CandidateDossierPreimage
parse_candidate_dossier_preimage pre = do
  throw_if (not (is_candidate_dossier_preimage pre)) preimage_invalid
  assert_contiguous_indexes (map (λ x. x.index) pre.routes)
  assert_contiguous_indexes (map (λ x. x.index) pre.files)
  assert_contiguous_indexes (map (λ x. x.index) pre.validations)
  assert_contiguous_indexes (map (λ x. x.index) pre.artifacts)
  assert_contiguous_indexes (map (λ x. x.index) pre.known_differences)
  throw_if (has_repeated (map (λ x. x.id) pre.validations)) validation_repeated
  ok pre

-- The members that a binding of a projection and one of a preimage print alike.
abbrev bound_validation : ℕ → Text → Text → Option Text → Json
bound_validation n id status hash = object_of (
    (codes "index", number (nat n))
    ∷ (codes "id", string id)
    ∷ (codes "status", string status)
    ∷ (codes "evidenceSha256", nullable hash)
    ∷ [])

abbrev bound_artifact : ℕ → Text → Text → ℕ → Json
bound_artifact n path hash bytes = object_of (
    (codes "index", number (nat n))
    ∷ (codes "dossierPathSha256", string path)
    ∷ (codes "sha256", string hash)
    ∷ (codes "bytes", number (nat bytes))
    ∷ [])

abbrev bound_difference : ℕ → Json
bound_difference n =
    object_of ((codes "index", number (nat n)) ∷ (codes "approvalRequired", boolean true) ∷ [])

abbrev pub identity : Json → Json
identity v = v

abbrev pub project_bound_difference : ApprovalRequired → ℕ → Json
project_bound_difference d n = bound_difference n

abbrev pub preimage_bound_validation : SealedValidation → Json
preimage_bound_validation v =
    bound_validation v.index v.id (codes "passed") (some v.evidence_sha256)

abbrev pub preimage_bound_artifact : SealedArtifact → Json
preimage_bound_artifact a = bound_artifact a.index a.dossier_path_sha256 a.sha256 a.bytes

abbrev pub preimage_bound_difference : SealedDifference → Json
preimage_bound_difference d = bound_difference d.index

unfoldable pub preimage_projection_binding : CandidateDossierPreimage → Json
preimage_projection_binding c = object_of (
    (codes "candidateSchemaVersion", number (nat 1))
    ∷ (codes "changeId", string c.change_id)
    ∷ (codes "attemptId", string c.attempt_id)
    ∷ (codes "requestSha256", string c.request_sha256)
    ∷ (codes "planSha256", string c.plan_sha256)
    ∷ (codes "baselineCommit", string c.baseline_commit)
    ∷ (codes "candidateCommit", string c.candidate_commit)
    ∷ (codes "artifactSha256", string c.artifact_sha256)
    ∷ (codes "buildProfile", sealed_profile_json c.build_profile)
    ∷ (codes "routes", array_of indexed_hash_json c.routes)
    ∷ (codes "files", array_of indexed_hash_json c.files)
    ∷ (codes "validations", array_of preimage_bound_validation c.validations)
    ∷ (codes "artifacts", array_of preimage_bound_artifact c.artifacts)
    ∷ (codes "knownDifferences", array_of preimage_bound_difference c.known_differences)
    ∷ [])

abbrev pub is_recordable_hash : Option Text → Bool
is_recordable_hash none = false
is_recordable_hash (some t) = is_hash t

abbrev pub is_recordable : Validation → Bool
is_recordable v = is_passed v.status && is_recordable_hash v.evidence_sha256

abbrev pub all_of_some : List Validation → Bool
all_of_some [] = false
all_of_some (v ∷ vs) = all is_recordable (v ∷ vs)

unfoldable pub has_recordable_validation_evidence : CandidateManifest → Bool
has_recordable_validation_evidence c = all_of_some c.validations

abbrev legacy_validation : Validation → Validation
legacy_validation v = record v {
  evidence = codes "evidence/" ++ (v.id ++ codes ".json");
  evidence_sha256 = none;
}

abbrev has_prefix : Text → Artifact → Bool
has_prefix prefix a = starts_with a.path prefix

unfoldable pub assert_dossier_artifact_paths : CandidateManifest → Result (Unit {0})
assert_dossier_artifact_paths c =
    throw_if (any (λ a. not (has_prefix (candidate_artifact_prefix c) a)) c.artifacts)
      artifact_unsafe

module _ (p : Platform) where
  abbrev pub project_bound_validation : Validation → ℕ → Json
  project_bound_validation v n = bound_validation n v.id (status_name v.status) v.evidence_sha256

  abbrev pub project_bound_artifact : Artifact → ℕ → Json
  project_bound_artifact a n = bound_artifact n (value_sha256 p a.path) a.sha256 a.bytes

  unfoldable pub projection_binding : SanitizedCandidateProjection → Json
  projection_binding c = object_of (
      (codes "candidateSchemaVersion", number (nat 1))
      ∷ (codes "changeId", string c.change_id)
      ∷ (codes "attemptId", string c.attempt_id)
      ∷ (codes "requestSha256", string c.request_sha256)
      ∷ (codes "planSha256", string c.plan_sha256)
      ∷ (codes "baselineCommit", string c.baseline_commit)
      ∷ (codes "candidateCommit", string c.candidate_commit)
      ∷ (codes "artifactSha256", string c.artifact_sha256)
      ∷ (codes "buildProfile", sealed_profile_json (seal_profile p c.build_profile))
      ∷ (codes "routes", array_of indexed_hash_json (indexed_hashes p c.routes))
      ∷ (codes "files", array_of indexed_hash_json (indexed_hashes p c.files))
      ∷ (codes "validations", array_of identity (indexed project_bound_validation 0 c.validations))
      ∷ (codes "artifacts", array_of identity (indexed project_bound_artifact 0 c.artifacts))
      ∷ (
        codes "knownDifferences",
        array_of identity (indexed project_bound_difference 0 c.known_differences),
      )
      ∷ [])

  unfoldable pub assert_candidate_dossier_projection_binding :
      CandidateDossierPreimage → SanitizedCandidateProjection → Result (Unit {0})
  assert_candidate_dossier_projection_binding pre projection =
      throw_if
        (not (
          sha256_canonical p (projection_binding projection)
          === sha256_canonical p (preimage_projection_binding pre)))
        projection_mismatch

  -- `approvalSubjectSha256` of `candidateDossierCommitmentFromProjection`
  unfoldable pub approval_subject_sha256 : Text → Json → Text
  approval_subject_sha256 sealed projection = sha256_canonical p (
      object_of (
        (codes "candidateSha256", string sealed)
        ∷ (codes "sanitizedProjectionSha256", string (sha256_canonical p projection))
        ∷ []))

  -- The subject in `candidateDossierCommitment`.
  unfoldable pub candidate_dossier_commitment : CandidateManifest → Result Text
  candidate_dossier_commitment c = do
    pre ← candidate_dossier_preimage p c
    ok (
        approval_subject_sha256 (sha256_canonical p (preimage_json pre))
          (projection_json (sanitized_candidate_projection p c)))

  unfoldable pub legacy_candidate_approval_subject : CandidateManifest → Text
  legacy_candidate_approval_subject c =
      let projection = sanitized_candidate_projection p c in
      approval_subject_sha256 (sha256_canonical p (candidate_json c))
        (projection_json (record projection { validations = map legacy_validation c.validations }))

  unfoldable pub candidate_approval_subject : CandidateManifest → Result Text
  candidate_approval_subject c =
      if has_recordable_validation_evidence c
      then candidate_dossier_commitment c
      else ok (legacy_candidate_approval_subject c)

  -- `sanitizedCandidateDossierRecord`: the projection with its three commitments
  unfoldable pub sanitized_candidate_dossier_record : CandidateManifest → Result Json
  sanitized_candidate_dossier_record c = do
    assert_dossier_artifact_paths c
    pre ← candidate_dossier_preimage p c
    let projection = sanitized_candidate_projection p c
    let sealed = sha256_canonical p (preimage_json pre)
    ok (
        object_of (
          projection_members projection
          ++ (codes "sealedCandidateSha256", string sealed)
            ∷ (
              codes "sanitizedProjectionSha256",
              string (sha256_canonical p (projection_json projection)),
            )
            ∷ (
              codes "approvalSubjectSha256",
              string (approval_subject_sha256 sealed (projection_json projection)),
            )
            ∷ []))
