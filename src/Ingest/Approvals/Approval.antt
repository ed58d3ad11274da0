-- ===== src/Ingest/Approvals/Approval.antt =====
-- The record of an approval (`ApprovalRecord` of src/ingest/domain.ts), its JSON, and the schema
-- approval that it is checked with.
use web_comunidad_solar.Prelude.{
  ℕ, ◌≡◌, refl, Bool, true, false, Option, none, some, List, [], ◌∷◌, Text, codes, ◌===◌, ◌==◌,
  is_empty, not, if◌then◌else◌, ◌&&◌,
}
use web_comunidad_solar.Json.{Json, nat, number, string, Fields}
use web_comunidad_solar.Json.Decode.{
  ◌>>=◌, ◌>>◌, guard, own, has_exact_keys, as_object, as_string, as_nullable,
}
use web_comunidad_solar.Json.Encode.{object_of, nullable}
use web_comunidad_solar.Ingest.Schema.{is_hash, is_change_id}

pub data Environment : Type 0 where
  production test : Environment

pub data Gate : Type 0 where
  gate_1 gate_2 : Gate

pub record ApprovalRecord : Type 0 where
  pub environment : Environment
  pub gate : Gate
  pub change_id : Text
  pub actor : Text
  pub approved_at : Text
  pub subject_sha256 : Text
  pub baseline_commit : Text
  pub candidate_commit : Option Text
  pub artifact_sha256 : Option Text

abbrev pub environment_name : Environment → Text
environment_name production = codes "production"
environment_name test = codes "test"

abbrev pub environment_eq : Environment → Environment → Bool
environment_eq production production = true
environment_eq test test = true
environment_eq _ _ = false

abbrev pub gate_number : Gate → ℕ
gate_number gate_1 = 1
gate_number gate_2 = 2

abbrev pub gate_eq : Gate → Gate → Bool
gate_eq gate_1 gate_1 = true
gate_eq gate_2 gate_2 = true
gate_eq _ _ = false

-- The object of the source, with its keys in the order that it is printed in.
unfoldable pub approval_json : ApprovalRecord → Json
approval_json r = object_of (
    (codes "actor", string r.actor)
    ∷ (codes "approvedAt", string r.approved_at)
    ∷ (codes "artifactSha256", nullable r.artifact_sha256)
    ∷ (codes "baselineCommit", string r.baseline_commit)
    ∷ (codes "candidateCommit", nullable r.candidate_commit)
    ∷ (codes "changeId", string r.change_id)
    ∷ (codes "environment", string (environment_name r.environment))
    ∷ (codes "gate", number (nat (gate_number r.gate)))
    ∷ (codes "schemaVersion", number (nat 1))
    ∷ (codes "subjectSha256", string r.subject_sha256)
    ∷ [])

-- What the schema asks of the candidate's commit and artifact at a gate.
abbrev names_candidate : Gate → Option Text → Option Text → Bool
names_candidate gate_1 none none = true
names_candidate gate_2 (some commit) (some artifact) = not (is_empty commit) && is_hash artifact
names_candidate _ _ _ = false

-- `validateSchema("approval", record)` on a record
unfoldable pub is_approval : ApprovalRecord → Bool
is_approval r =
    is_change_id r.change_id
    && is_hash r.subject_sha256
    && names_candidate r.gate r.candidate_commit r.artifact_sha256

abbrev approval_keys : List Text
approval_keys =
    codes "actor"
    ∷ codes "approvedAt"
    ∷ codes "artifactSha256"
    ∷ codes "baselineCommit"
    ∷ codes "candidateCommit"
    ∷ codes "changeId"
    ∷ codes "environment"
    ∷ codes "gate"
    ∷ codes "schemaVersion"
    ∷ codes "subjectSha256"
    ∷ []

abbrev pub is_version_1 : Option Json → Bool
is_version_1 (some (number (nat n))) = n == 1
is_version_1 _ = false

abbrev pub parse_environment : Text → Option Environment
parse_environment t =
    if t === codes "production"
    then some production
    else if t === codes "test"
    then some test
    else none

abbrev pub as_environment : Option Json → Option Environment
as_environment v = do t ← as_string v; parse_environment t

abbrev parse_gate : ℕ → Option Gate
parse_gate n = if n == 1 then some gate_1 else if n == 2 then some gate_2 else none

abbrev as_gate : Option Json → Option Gate
as_gate (some (number (nat n))) = parse_gate n
as_gate _ = none

abbrev approval_fields : Fields → Option ApprovalRecord
approval_fields fs = do
  guard (is_version_1 (own (codes "schemaVersion") fs))
  environment ← as_environment (own (codes "environment") fs)
  gate ← as_gate (own (codes "gate") fs)
  change_id ← as_string (own (codes "changeId") fs)
  actor ← as_string (own (codes "actor") fs)
  approved_at ← as_string (own (codes "approvedAt") fs)
  subject ← as_string (own (codes "subjectSha256") fs)
  baseline ← as_string (own (codes "baselineCommit") fs)
  commit ← as_nullable (own (codes "candidateCommit") fs)
  artifact ← as_nullable (own (codes "artifactSha256") fs)
  some (record {
    environment = environment;
    gate = gate;
    change_id = change_id;
    actor = actor;
    approved_at = approved_at;
    subject_sha256 = subject;
    baseline_commit = baseline;
    candidate_commit = commit;
    artifact_sha256 = artifact;
  })

-- `validateSchema("approval", value)` on a JSON value; the record that the value is
unfoldable pub decode_approval : Json → Option ApprovalRecord
decode_approval value = do
  fs ← as_object value
  guard (has_exact_keys fs approval_keys)
  r ← approval_fields fs
  guard (is_approval r)
  some r

pub as_environment_lem :
    (e : Environment) → as_environment (some (string (environment_name e))) ≡ some e
as_environment_lem production = refl
as_environment_lem test = refl

as_gate_lem : (g : Gate) → as_gate (some (number (nat (gate_number g)))) ≡ some g
as_gate_lem gate_1 = refl
as_gate_lem gate_2 = refl

as_nullable-nullable : (o : Option Text) → as_nullable (some (nullable o)) ≡ some o
as_nullable-nullable none = refl
as_nullable-nullable (some t) = refl

-- Reading the JSON of an approval gives the approval.
pub decode_approval-approval_json :
    (r : ApprovalRecord) → is_approval r ≡ true → decode_approval (approval_json r) ≡ some r
unfolding decode_approval approval_json
decode_approval-approval_json r h =
    rw
      (
        as_environment_lem r.environment,
        as_gate_lem r.gate,
        as_nullable-nullable r.candidate_commit,
        as_nullable-nullable r.artifact_sha256,
        h,
      )
      refl

pub environment_eq_refl : (e : Environment) → environment_eq e e ≡ true
environment_eq_refl production = refl
environment_eq_refl test = refl

pub eq_of_environment_eq : (e f : Environment) → environment_eq e f ≡ true → e ≡ f
eq_of_environment_eq production production h = refl
eq_of_environment_eq test test h = refl
eq_of_environment_eq production test h = cc
eq_of_environment_eq test production h = cc
