-- ===== src/Ingest/Tests/Plans.antt =====
-- A request for a page that the site has already, planned and validated.
use web_comunidad_solar.Prelude.{◌≡◌, refl, true, false, none, some, [], ◌∷◌, Text, codes, member}
use web_comunidad_solar.Json.{Json, string, array, object, nil, cons, field, end}
use web_comunidad_solar.Ingest.Failure.{ok}
use web_comunidad_solar.Ingest.Platform.{Platform, sha256_canonical}
use web_comunidad_solar.Ingest.Schema.{is_hash, is_change_id, is_target_path}
use web_comunidad_solar.Ingest.Approvals.Baseline.{is_commit}
use web_comunidad_solar.Ingest.Plan.{ChangePlan, local, is_publication}
use web_comunidad_solar.Ingest.Planning.Request.{
  NormalizedRequest, request, auto, is_normalized_request,
}
use web_comunidad_solar.Ingest.Planning.Outputs.{route_path, read_source_manifest}
use web_comunidad_solar.Ingest.Planning.Mode.{has_site_chrome, has_markup}
use web_comunidad_solar.Ingest.Planning.Create.{PlanningContext, create_change_plan}
use web_comunidad_solar.Ingest.Planning.Created.{IsPlannable, IsPlanOf, create_change_plan-IsPlanOf}
use web_comunidad_solar.Ingest.Validation.Routes.{
  not_canonical, is_canonical_target_path, found_unless, validate_generated_routes,
}
use web_comunidad_solar.Ingest.Validation.Planned.{validate_generated_routes-planned}

abbrev digest : Text
digest = codes "0123456789abcdef0123456789abcdef0123456789abcdef0123456789abcdef"

abbrev manifest : Json
manifest = object (
    field (codes "routes")
      (array (
        cons
          (object (
            field (codes "path") (string (codes "/tarifas/luz"))
              (field (codes "kind") (string (codes "page")) end)))
          nil))
      end)

abbrev platform : Platform
platform = record { sha256 = λ t. digest; json_parse = λ t. some manifest; date_parse = λ t. none }

abbrev context : PlanningContext
context = record {
  baseline_commit = codes "0123456789abcdef0123456789abcdef01234567";
  publication = record {
    adapter = local;
    config_sha256 = digest;
    environment = none;
    site_indexable = false;
  };
  is_prepared = true;
  manifest_pinned = true;
  manifest_text = some [];
}

abbrev asked : NormalizedRequest
asked = record {
  change_id = codes "tarifas-2026";
  input_kind = request;
  intent = codes "Actualizar las tarifas";
  audience = none;
  target_path = codes "/tarifas/luz";
  mode = auto;
  content = codes "1 < 2";
  claims = [];
  references = [];
  assets = [];
  seo_title = none;
  seo_description = none;
  seo_index = true;
  privacy_private = false;
  privacy_area = none;
  allowed_external_links = [];
  acceptance_criteria = codes "Se ve" ∷ [];
  input_sha256 = digest;
}

well_formed : is_normalized_request asked ≡ true
unfolding is_normalized_request is_change_id is_target_path is_hash
well_formed = refl

hash_of_all : (t : Text) → is_hash (platform.sha256 t) ≡ true
unfolding is_hash
hash_of_all t = refl

committed : is_commit context.baseline_commit ≡ true
unfolding is_commit
committed = refl

published : is_publication context.publication ≡ true
unfolding is_publication is_hash
published = refl

read :
    read_source_manifest platform true (some [])
    ≡ ok (record { path = codes "/tarifas/luz"; kind = codes "page" } ∷ [])
unfolding read_source_manifest
read = refl

plannable : IsPlannable platform context asked
unfolding sha256_canonical
plannable = record {
  well_formed = well_formed;
  hashed = refl;
  committed = committed;
  prepared = refl;
  published = published;
  routes = record { path = codes "/tarifas/luz"; kind = codes "page" } ∷ [];
  manifest = read;
  digests = hash_of_all;
}

create_change_plan-IsPlanOf_example :
    (plan : ChangePlan) × (create_change_plan platform context asked ≡ ok plan)
    × IsPlanOf platform context asked plannable plan
create_change_plan-IsPlanOf_example = create_change_plan-IsPlanOf platform context asked plannable

written :
    member (route_path (codes "/tarifas/luz")) (codes "src/pages/tarifas/luz.astro" ∷ []) ≡ true
unfolding route_path
written = refl

validate_generated_routes-planned_example :
    (plan : ChangePlan) × (create_change_plan platform context asked ≡ ok plan)
    × (validate_generated_routes plan (codes "src/pages/tarifas/luz.astro" ∷ [])
        ≡ found_unless (is_canonical_target_path (codes "/tarifas/luz")) not_canonical)
validate_generated_routes-planned_example =
    validate_generated_routes-planned platform context asked plannable
      (codes "src/pages/tarifas/luz.astro" ∷ []) written

-- A target path with two dashes in a row is well formed for a request and not canonical for a route.
two_dashes :
    (is_target_path (codes "/tarifas--luz") ≡ true)
    × (is_canonical_target_path (codes "/tarifas--luz") ≡ false)
unfolding is_target_path is_canonical_target_path
two_dashes = (refl, refl)

chrome_quoted : has_site_chrome (codes "<div class = 'a site-root b'>") ≡ true
unfolding has_site_chrome
chrome_quoted = refl

chrome_word : has_site_chrome (codes "import SiteLayouts") ≡ false
unfolding has_site_chrome
chrome_word = refl

comparison : has_markup (codes "1 < 2") ≡ false
unfolding has_markup
comparison = refl
