-- ===== src/Ingest/Approvals/Provenance.antt =====
-- The sealed provenance beside an approval (src/ingest/approvals/service.ts) and its JSON.
use web_comunidad_solar.Prelude.{
  ◌≡◌, refl, true, Option, none, some, List, [], ◌∷◌, Text, codes, ◌===◌, if◌then◌else◌,
}
use web_comunidad_solar.Json.{Json, nat, number, string, object, Fields}
use web_comunidad_solar.Json.Decode.{◌>>=◌, ◌>>◌, guard, own, has_exact_keys, as_string}
use web_comunidad_solar.Json.Encode.{object_of, fields}
use web_comunidad_solar.Ingest.Schema.{is_hash}
use web_comunidad_solar.Ingest.Approvals.Approval.{
  Environment, environment_name, is_version_1, as_environment, as_environment_lem,
}
use web_comunidad_solar.Ingest.Approvals.Prompt.{Issuer, controller, fixture}

pub record UnsignedProvenance : Type 0 where
  pub issuer : Issuer
  pub environment : Environment
  pub approval_sha256 : Text

pub record ApprovalProvenanceRecord : Type 0 where
  pub unsigned : UnsignedProvenance
  pub open unsigned use *
  pub signature : Text

pub record VerifiedApprovalProvenance : Type 0 where
  pub issuer : Issuer
  pub environment : Environment

abbrev pub issuer_name : Issuer → Text
issuer_name controller = codes "controller"
issuer_name fixture = codes "fixture"

abbrev parse_issuer : Text → Option Issuer
parse_issuer t =
    if t === codes "controller"
    then some controller
    else if t === codes "fixture"
    then some fixture
    else none

-- The object that is signed.
unfoldable pub provenance_payload : UnsignedProvenance → Json
provenance_payload v = object_of (
    (codes "approvalSha256", string v.approval_sha256)
    ∷ (codes "environment", string (environment_name v.environment))
    ∷ (codes "issuer", string (issuer_name v.issuer))
    ∷ (codes "schemaVersion", number (nat 1))
    ∷ [])

-- The sealed object, with its keys in the order that it is printed in.
unfoldable pub provenance_fields : ApprovalProvenanceRecord → Fields
provenance_fields v = fields (
    (codes "approvalSha256", string v.approval_sha256)
    ∷ (codes "environment", string (environment_name v.environment))
    ∷ (codes "issuer", string (issuer_name v.issuer))
    ∷ (codes "schemaVersion", number (nat 1))
    ∷ (codes "signature", string v.signature)
    ∷ [])

abbrev pub provenance_json : ApprovalProvenanceRecord → Json
provenance_json v = object (provenance_fields v)

abbrev provenance_keys : List Text
provenance_keys =
    codes "approvalSha256"
    ∷ codes "environment"
    ∷ codes "issuer"
    ∷ codes "schemaVersion"
    ∷ codes "signature"
    ∷ []

-- The fields of a provenance with the tests that are made on them.
unfoldable pub decode_provenance : Fields → Option ApprovalProvenanceRecord
decode_provenance fs = do
  guard (has_exact_keys fs provenance_keys)
  guard (is_version_1 (own (codes "schemaVersion") fs))
  issuer_text ← as_string (own (codes "issuer") fs)
  issuer ← parse_issuer issuer_text
  environment ← as_environment (own (codes "environment") fs)
  approval ← as_string (own (codes "approvalSha256") fs)
  guard (is_hash approval)
  signature ← as_string (own (codes "signature") fs)
  guard (is_hash signature)
  some (record {
    unsigned = record { issuer = issuer; environment = environment; approval_sha256 = approval };
    signature = signature;
  })

issuer_lem : (i : Issuer) → parse_issuer (issuer_name i) ≡ some i
issuer_lem controller = refl
issuer_lem fixture = refl

-- Reading the fields of a provenance gives the provenance.
pub decode_provenance-provenance_fields :
    (v : ApprovalProvenanceRecord)
    → is_hash v.approval_sha256 ≡ true
    → is_hash v.signature ≡ true
    → decode_provenance (provenance_fields v) ≡ some v
unfolding decode_provenance provenance_fields
decode_provenance-provenance_fields v hash signature =
    rw (issuer_lem v.issuer, as_environment_lem v.environment, hash, signature) refl
