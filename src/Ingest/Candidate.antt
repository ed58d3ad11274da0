-- ===== src/Ingest/Candidate.antt =====
-- The manifest of a candidate (`CandidateManifest` of src/ingest/domain.ts), its JSON, and the test
-- that the schema candidate makes of it.
use web_comunidad_solar.Prelude.{
  ℕ, Bool, true, false, Option, none, some, List, [], ◌∷◌, ◌++◌, Text, codes, all, ◌&&◌,
}
use web_comunidad_solar.Json.{Json, nat, number, string, boolean}
use web_comunidad_solar.Json.Encode.{array_of, object_of}
use web_comunidad_solar.Ingest.Plan.{Publication, publication_json, is_publication}
use web_comunidad_solar.Ingest.Schema.{is_hash, is_change_id}

pub data ValidationStatus : Type 0 where
  passed failed : ValidationStatus

pub record Validation : Type 0 where
  pub id : Text
  pub status : ValidationStatus
  pub evidence : Text
  -- `none` where the property is absent
  pub evidence_sha256 : Option Text

pub record Artifact : Type 0 where
  pub path : Text
  pub sha256 : Text
  pub bytes : ℕ

-- A difference whose `approvalRequired` is true, as the type has it.
pub record KnownDifference : Type 0 where
  pub description : Text

pub record CandidateManifest : Type 0 where
  pub change_id : Text
  pub attempt_id : Text
  pub request_sha256 : Text
  pub plan_sha256 : Text
  pub baseline_commit : Text
  pub candidate_commit : Text
  pub artifact_sha256 : Text
  pub build_profile : Publication
  pub routes : List Text
  pub files : List Text
  pub validations : List Validation
  pub artifacts : List Artifact
  pub preview_command : Text
  pub preview_url : Text
  pub known_differences : List KnownDifference

abbrev pub status_name : ValidationStatus → Text
status_name passed = codes "passed"
status_name failed = codes "failed"

abbrev evidence_member : Option Text → List (Text × Json)
evidence_member none = []
evidence_member (some hash) = (codes "evidenceSha256", string hash) ∷ []

abbrev pub validation_json : Validation → Json
validation_json v = object_of (
    ((codes "id", string v.id)
      ∷ (codes "status", string (status_name v.status))
      ∷ (codes "evidence", string v.evidence)
      ∷ [])
    ++ evidence_member v.evidence_sha256)

abbrev pub artifact_json : Artifact → Json
artifact_json a = object_of (
    (codes "path", string a.path)
    ∷ (codes "sha256", string a.sha256)
    ∷ (codes "bytes", number (nat a.bytes))
    ∷ [])

abbrev difference_json : KnownDifference → Json
difference_json d =
    object_of
      ((codes "description", string d.description) ∷ (codes "approvalRequired", boolean true) ∷ [])

unfoldable pub candidate_json : CandidateManifest → Json
candidate_json c = object_of (
    (codes "schemaVersion", number (nat 1))
    ∷ (codes "changeId", string c.change_id)
    ∷ (codes "attemptId", string c.attempt_id)
    ∷ (codes "requestSha256", string c.request_sha256)
    ∷ (codes "planSha256", string c.plan_sha256)
    ∷ (codes "baselineCommit", string c.baseline_commit)
    ∷ (codes "candidateCommit", string c.candidate_commit)
    ∷ (codes "artifactSha256", string c.artifact_sha256)
    ∷ (codes "buildProfile", publication_json c.build_profile)
    ∷ (codes "routes", array_of string c.routes)
    ∷ (codes "files", array_of string c.files)
    ∷ (codes "validations", array_of validation_json c.validations)
    ∷ (codes "artifacts", array_of artifact_json c.artifacts)
    ∷ (
      codes "preview",
      object_of
          ((codes "command", string c.preview_command) ∷ (codes "url", string c.preview_url) ∷ []),
    )
    ∷ (codes "knownDifferences", array_of difference_json c.known_differences)
    ∷ [])

abbrev pub is_passed : ValidationStatus → Bool
is_passed passed = true
is_passed failed = false

abbrev pub is_optional_hash : Option Text → Bool
is_optional_hash none = true
is_optional_hash (some t) = is_hash t

abbrev is_validation : Validation → Bool
is_validation v = is_passed v.status && is_optional_hash v.evidence_sha256

abbrev pub is_artifact : Artifact → Bool
is_artifact a = is_hash a.sha256

abbrev has_validations : List Validation → Bool
has_validations [] = false
has_validations (v ∷ vs) = true

-- `validateSchema("candidate", candidate)`
unfoldable pub is_candidate : CandidateManifest → Bool
is_candidate c =
    is_change_id c.change_id
    && is_hash c.request_sha256
    && is_hash c.plan_sha256
    && is_hash c.artifact_sha256
    && is_publication c.build_profile
    && has_validations c.validations
    && all is_validation c.validations
    && all is_artifact c.artifacts
