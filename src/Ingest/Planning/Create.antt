-- ===== src/Ingest/Planning/Create.antt =====
-- `createChangePlan` of src/ingest/planning/plan.ts.
use web_comunidad_solar.Prelude.{
  ℕ, suc, Bool, true, false, not, Option, List, [], ◌∷◌, ◌++◌, Text, codes, decimal,
}
use web_comunidad_solar.Ingest.Failure.{
  Result, ok, ◌>>=◌, ◌>>◌, throw_if, baseline_unsafe, publication_not_prepared, plan_invalid,
}
use web_comunidad_solar.Ingest.Platform.{Platform, sha256_canonical}
use web_comunidad_solar.Ingest.Approvals.Baseline.{is_commit}
use web_comunidad_solar.Ingest.Plan.{
  ChangePlan, PlannedFile, FileOperation, create, modify, Publication, unsigned_plan_json,
  is_change_plan,
}
use web_comunidad_solar.Ingest.Planning.Request.{NormalizedRequest, assert_normalized_request}
use web_comunidad_solar.Ingest.Planning.Mode.{select_mode, select_catalog}
use web_comunidad_solar.Ingest.Planning.Outputs.{
  OutputPaths, SourceManifestRoute, output_paths, route_exists, read_source_manifest,
}

-- `PlanningContext`, with what the process and the disk have at its paths.
pub record PlanningContext : Type 0 where
  pub baseline_commit : Text
  pub publication : Publication
  -- The sanitizer of this process returned the publication.
  pub is_prepared : Bool
  pub manifest_pinned : Bool
  pub manifest_text : Option Text

-- `acceptance-criterion-n` for as many n as there are criteria, from a number on
abbrev pub criterion_validations : ℕ → List Text → List Text
criterion_validations n [] = []
criterion_validations n (c ∷ cs) =
    (codes "acceptance-criterion-" ++ decimal n) ∷ criterion_validations (suc n) cs

abbrev parity_validation : Bool → List Text
parity_validation true = codes "existing-route-visual-parity" ∷ []
parity_validation false = []

unfoldable pub default_validations : Bool → List Text → List Text
default_validations existing_route criteria =
    (codes "change-plan-schema"
      ∷ codes "output-path-policy"
      ∷ codes "dependency-policy"
      ∷ codes "seo-metadata"
      ∷ codes "privacy-policy"
      ∷ codes "navigation-links"
      ∷ codes "accessibility"
      ∷ codes "format"
      ∷ codes "lint"
      ∷ codes "typecheck"
      ∷ codes "build"
      ∷ codes "unit-tests"
      ∷ codes "preview-e2e"
      ∷ [])
    ++ (parity_validation existing_route ++ criterion_validations 1 criteria)

abbrev pub route_operation : Bool → FileOperation
route_operation true = modify
route_operation false = create

abbrev pub planned_files : OutputPaths → Bool → List PlannedFile
planned_files paths existing =
    record { path = paths.route; operation = route_operation existing }
    ∷ record { path = paths.components_dir; operation = create }
    ∷ record { path = paths.content; operation = create }
    ∷ record { path = paths.stylesheet; operation = create }
    ∷ record { path = paths.assets_dir; operation = create }
    ∷ []

-- `unsigned`, with a blank hash
unfoldable pub unsigned_plan :
    NormalizedRequest → PlanningContext → OutputPaths → List SourceManifestRoute → ChangePlan
unsigned_plan r context paths routes =
    let existing = route_exists r.target_path routes in
    let catalog = select_catalog r in
    record {
      change_id = r.change_id;
      baseline_commit = context.baseline_commit;
      request_sha256 = r.input_sha256;
      selected_mode = select_mode r;
      target_path = r.target_path;
      overwrites_existing_route = existing;
      files = planned_files paths existing;
      components = catalog.reused ++ catalog.created;
      islands = catalog.islands;
      dependencies = [];
      validations = default_validations existing r.acceptance_criteria;
      publication = context.publication;
      plan_sha256 = [];
    }

-- A plan with its hash.
unfoldable pub signed_plan : Platform → ChangePlan → ChangePlan
signed_plan p plan = record plan { plan_sha256 = sha256_canonical p (unsigned_plan_json plan) }

unfoldable pub create_change_plan :
    Platform → PlanningContext → NormalizedRequest → Result ChangePlan
create_change_plan p context r = do
  normalized ← assert_normalized_request p r
  throw_if (not (is_commit context.baseline_commit)) baseline_unsafe
  throw_if (not context.is_prepared) publication_not_prepared
  routes ← read_source_manifest p context.manifest_pinned context.manifest_text
  paths ← output_paths p normalized
  let plan = signed_plan p (unsigned_plan normalized context paths routes)
  throw_if (not (is_change_plan plan)) plan_invalid
  ok plan
