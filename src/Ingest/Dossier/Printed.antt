-- ===== src/Ingest/Dossier/Printed.antt =====
-- The JSON of a projection and of a preimage of src/ingest/dossier-integrity.ts.
use web_comunidad_solar.Prelude.{List, [], ◌∷◌, Text, codes, true}
use web_comunidad_solar.Json.{Json, nat, number, string, boolean}
use web_comunidad_solar.Json.Encode.{array_of, object_of, nullable}
use web_comunidad_solar.Ingest.Plan.{adapter_name, publication_json}
use web_comunidad_solar.Ingest.Candidate.{validation_json, artifact_json}
use web_comunidad_solar.Ingest.Dossier.{
  IndexedHash, SealedProfile, SealedValidation, SealedArtifact, SealedDifference,
  CandidateDossierPreimage, ApprovalRequired, SanitizedCandidateProjection,
}

abbrev required_json : ApprovalRequired → Json
required_json r = object_of ((codes "approvalRequired", boolean true) ∷ [])

-- The members that the projection and its bindings share.
abbrev pub projection_members : SanitizedCandidateProjection → List (Text × Json)
projection_members c =
    (codes "schemaVersion", number (nat 1))
    ∷ (codes "changeId", string c.change_id)
    ∷ (codes "attemptId", string c.attempt_id)
    ∷ (codes "requestSha256", string c.request_sha256)
    ∷ (codes "planSha256", string c.plan_sha256)
    ∷ (codes "baselineCommit", string c.baseline_commit)
    ∷ (codes "candidateCommit", string c.candidate_commit)
    ∷ (codes "artifactSha256", string c.artifact_sha256)
    ∷ (codes "buildProfile", publication_json c.build_profile)
    ∷ (codes "routes", array_of string c.routes)
    ∷ (codes "files", array_of string c.files)
    ∷ (codes "artifacts", array_of artifact_json c.artifacts)
    ∷ (codes "validations", array_of validation_json c.validations)
    ∷ (
      codes "preview",
      object_of ((codes "command", string (codes "sealed verified candidate preview")) ∷ []),
    )
    ∷ (codes "knownDifferences", array_of required_json c.known_differences)
    ∷ []

unfoldable pub projection_json : SanitizedCandidateProjection → Json
projection_json c = object_of (projection_members c)

abbrev pub indexed_hash_json : IndexedHash → Json
indexed_hash_json h =
    object_of
      ((codes "index", number (nat h.index)) ∷ (codes "valueSha256", string h.value_sha256) ∷ [])

abbrev pub sealed_profile_json : SealedProfile → Json
sealed_profile_json b = object_of (
    (codes "adapter", string (adapter_name b.adapter))
    ∷ (codes "configSha256", string b.config_sha256)
    ∷ (codes "environmentSha256", nullable b.environment_sha256)
    ∷ (codes "siteIndexable", boolean b.site_indexable)
    ∷ [])

abbrev sealed_validation_json : SealedValidation → Json
sealed_validation_json v = object_of (
    (codes "index", number (nat v.index))
    ∷ (codes "id", string v.id)
    ∷ (codes "status", string (codes "passed"))
    ∷ (codes "evidencePathSha256", string v.evidence_path_sha256)
    ∷ (codes "evidenceSha256", string v.evidence_sha256)
    ∷ [])

abbrev sealed_artifact_json : SealedArtifact → Json
sealed_artifact_json a = object_of (
    (codes "index", number (nat a.index))
    ∷ (codes "sourcePathSha256", string a.source_path_sha256)
    ∷ (codes "dossierPathSha256", string a.dossier_path_sha256)
    ∷ (codes "sha256", string a.sha256)
    ∷ (codes "bytes", number (nat a.bytes))
    ∷ [])

abbrev sealed_difference_json : SealedDifference → Json
sealed_difference_json d = object_of (
    (codes "index", number (nat d.index))
    ∷ (codes "descriptionSha256", string d.description_sha256)
    ∷ (codes "approvalRequired", boolean true)
    ∷ [])

unfoldable pub preimage_json : CandidateDossierPreimage → Json
preimage_json c = object_of (
    (codes "schemaVersion", number (nat 1))
    ∷ (codes "kind", string (codes "sealed-candidate-preimage"))
    ∷ (codes "candidateSchemaVersion", number (nat 1))
    ∷ (codes "changeId", string c.change_id)
    ∷ (codes "attemptId", string c.attempt_id)
    ∷ (codes "requestSha256", string c.request_sha256)
    ∷ (codes "planSha256", string c.plan_sha256)
    ∷ (codes "baselineCommit", string c.baseline_commit)
    ∷ (codes "candidateCommit", string c.candidate_commit)
    ∷ (codes "artifactSha256", string c.artifact_sha256)
    ∷ (codes "buildProfile", sealed_profile_json c.build_profile)
    ∷ (codes "routes", array_of indexed_hash_json c.routes)
    ∷ (codes "files", array_of indexed_hash_json c.files)
    ∷ (codes "validations", array_of sealed_validation_json c.validations)
    ∷ (codes "artifacts", array_of sealed_artifact_json c.artifacts)
    ∷ (
      codes "preview",
      object_of (
          (codes "commandSha256", string c.command_sha256)
          ∷ (codes "urlSha256", string c.url_sha256)
          ∷ []),
    )
    ∷ (codes "knownDifferences", array_of sealed_difference_json c.known_differences)
    ∷ [])
