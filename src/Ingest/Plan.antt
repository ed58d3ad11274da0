-- ===== src/Ingest/Plan.antt =====
-- The plan of a change (`ChangePlan` of src/ingest/domain.ts), the test that the schema change-plan
-- makes of it, and `planSubject` of src/ingest/approvals/service.ts.
use web_comunidad_solar.Prelude.{
  Bool, false, not, Option, none, some, List, [], ◌∷◌, Text, codes, ◌===◌, is_empty, ◌&&◌, ◌≡◌,
  arith, eq_of_===,
}
use web_comunidad_solar.Json.{Json, nat, number, string, boolean}
use web_comunidad_solar.Json.Encode.{array_of, object_of, nullable}
use web_comunidad_solar.Ingest.Failure.{Result, ok, ◌>>◌, throw_if, plan_invalid, plan_hash_differs}
use web_comunidad_solar.Ingest.Platform.{Platform, sha256_canonical}
use web_comunidad_solar.Ingest.Schema.{is_hash, is_change_id, is_target_path}

pub data SelectedMode : Type 0 where
  blocks freeform hybrid : SelectedMode

pub data FileOperation : Type 0 where
  create modify : FileOperation

pub data Adapter : Type 0 where
  local cloudflare : Adapter

pub record PlannedFile : Type 0 where
  pub path : Text
  pub operation : FileOperation

pub record Publication : Type 0 where
  pub adapter : Adapter
  pub config_sha256 : Text
  pub environment : Option Text
  pub site_indexable : Bool

pub record ChangePlan : Type 0 where
  pub change_id : Text
  pub baseline_commit : Text
  pub request_sha256 : Text
  pub selected_mode : SelectedMode
  pub target_path : Text
  pub overwrites_existing_route : Bool
  pub files : List PlannedFile
  pub components : List Text
  pub islands : List Text
  pub dependencies : List Text
  pub validations : List Text
  pub publication : Publication
  pub plan_sha256 : Text

abbrev pub mode_name : SelectedMode → Text
mode_name blocks = codes "blocks"
mode_name freeform = codes "freeform"
mode_name hybrid = codes "hybrid"

abbrev pub operation_name : FileOperation → Text
operation_name create = codes "create"
operation_name modify = codes "modify"

abbrev pub adapter_name : Adapter → Text
adapter_name local = codes "local"
adapter_name cloudflare = codes "cloudflare"

abbrev planned_file_json : PlannedFile → Json
planned_file_json f =
    object_of (
      (codes "path", string f.path) ∷ (codes "operation", string (operation_name f.operation)) ∷ [])

unfoldable pub publication_json : Publication → Json
publication_json p = object_of (
    (codes "adapter", string (adapter_name p.adapter))
    ∷ (codes "configSha256", string p.config_sha256)
    ∷ (codes "environment", nullable p.environment)
    ∷ (codes "siteIndexable", boolean p.site_indexable)
    ∷ [])

-- `unsignedPlan`: the plan without its own hash
unfoldable pub unsigned_plan_json : ChangePlan → Json
unfolding publication_json
unsigned_plan_json p = object_of (
    (codes "schemaVersion", number (nat 1))
    ∷ (codes "changeId", string p.change_id)
    ∷ (codes "baselineCommit", string p.baseline_commit)
    ∷ (codes "requestSha256", string p.request_sha256)
    ∷ (codes "selectedMode", string (mode_name p.selected_mode))
    ∷ (codes "targetPath", string p.target_path)
    ∷ (codes "overwritesExistingRoute", boolean p.overwrites_existing_route)
    ∷ (codes "files", array_of planned_file_json p.files)
    ∷ (codes "components", array_of string p.components)
    ∷ (codes "islands", array_of string p.islands)
    ∷ (codes "dependencies", array_of string p.dependencies)
    ∷ (codes "validations", array_of string p.validations)
    ∷ (codes "publication", publication_json p.publication)
    ∷ [])

-- What the schemas ask of an environment for an adapter, and of the index of search engines.
abbrev is_published : Adapter → Option Text → Bool → Bool
is_published local none indexable = not indexable
is_published local (some e) indexable = false
is_published cloudflare none indexable = false
is_published cloudflare (some e) indexable = not (is_empty e)

unfoldable pub is_publication : Publication → Bool
is_publication p = is_hash p.config_sha256 && is_published p.adapter p.environment p.site_indexable

-- `validateSchema("change-plan", plan)`
unfoldable pub is_change_plan : ChangePlan → Bool
unfolding is_publication
is_change_plan p =
    is_change_id p.change_id
    && is_hash p.request_sha256
    && is_target_path p.target_path
    && is_publication p.publication
    && is_hash p.plan_sha256

unfoldable pub plan_subject : Platform → ChangePlan → Result Text
plan_subject p plan = do
  throw_if (not (is_change_plan plan)) plan_invalid
  let subject = sha256_canonical p (unsigned_plan_json plan)
  throw_if (not (plan.plan_sha256 === subject)) plan_hash_differs
  ok subject

-- A plan whose subject can be taken carries it.
pub plan_subject-eq-ok :
    (p : Platform) (plan : ChangePlan) (subject : Text)
    → plan_subject p plan ≡ ok subject
    → (plan.plan_sha256 ≡ subject) × (sha256_canonical p (unsigned_plan_json plan) ≡ subject)
unfolding plan_subject
plan_subject-eq-ok p plan subject h =
    let computed : sha256_canonical p (unsigned_plan_json plan) ≡ subject = ground (arith, h) in
    let carried : plan.plan_sha256 ≡ sha256_canonical p (unsigned_plan_json plan) =
      eq_of_=== _ _ (ground (arith, h)) in
    (ground (arith, computed, carried), computed)
