-- ===== src/Ingest/Validation/Planned.antt =====
-- The validation of routes and the plans that are made for requests.
use web_comunidad_solar.Prelude.{
  ◌≡◌, refl, subst, arith, Bool, true, false, List, [], ◌∷◌, ◌++◌, append-nil, Text, codes, ◌===◌,
  ===_refl, member,
}
use web_comunidad_solar.Ingest.Failure.{ok}
use web_comunidad_solar.Ingest.Platform.{Platform}
use web_comunidad_solar.Ingest.Plan.{ChangePlan}
use web_comunidad_solar.Ingest.Planning.Request.{NormalizedRequest}
use web_comunidad_solar.Ingest.Planning.Outputs.{route_path, output_paths_of}
use web_comunidad_solar.Ingest.Planning.Create.{
  PlanningContext, route_operation, planned_files, create_change_plan,
}
use web_comunidad_solar.Ingest.Planning.Created.{IsPlannable, IsPlanOf, create_change_plan-IsPlanOf}
use web_comunidad_solar.Ingest.Validation.Routes.{
  not_canonical, is_canonical_target_path, declared_at, declaration_findings, found_unless,
  validate_generated_routes,
}

-- No other planned file stands at the route.
components_apart :
    (t target : Text) → ((codes "src/components/generated/" ++ t) === route_path target) ≡ false
unfolding route_path
components_apart t target = ground arith

content_apart :
    (t target : Text) → ((codes "src/content/generated/" ++ t) === route_path target) ≡ false
unfolding route_path
content_apart t target = ground arith

styles_apart :
    (t target : Text) → ((codes "src/styles/generated/" ++ t) === route_path target) ≡ false
unfolding route_path
styles_apart t target = ground arith

assets_apart : (t target : Text) → ((codes "public/generated/" ++ t) === route_path target) ≡ false
unfolding route_path
assets_apart t target = ground arith

declared_at-planned_files :
    (r : NormalizedRequest) (existing : Bool)
    → declared_at (route_path r.target_path) (planned_files (output_paths_of r) existing)
      ≡ route_operation existing ∷ []
unfolding output_paths_of
declared_at-planned_files r existing =
    rw
      (
        ===_refl (route_path r.target_path),
        components_apart r.change_id r.target_path,
        content_apart (r.change_id ++ codes ".json") r.target_path,
        styles_apart (r.change_id ++ codes ".css") r.target_path,
        assets_apart r.change_id r.target_path,
      )
      refl

expected_operation :
    (existing : Bool) → declaration_findings existing (route_operation existing ∷ []) ≡ []
expected_operation true = refl
expected_operation false = refl

findings_of_route :
    (plan : ChangePlan) (written : List Text)
    → declaration_findings plan.overwrites_existing_route
        (declared_at (route_path plan.target_path) plan.files)
      ≡ []
    → member (route_path plan.target_path) written ≡ true
    → validate_generated_routes plan written
      ≡ found_unless (is_canonical_target_path plan.target_path) not_canonical
unfolding validate_generated_routes
findings_of_route plan written declared there = rw (declared, there, append-nil, append-nil) refl

declared_once :
    (p : Platform) (context : PlanningContext) (r : NormalizedRequest) (w : IsPlannable p context r)
    (plan : ChangePlan)
    → IsPlanOf p context r w plan
    → declaration_findings plan.overwrites_existing_route
        (declared_at (route_path plan.target_path) plan.files)
      ≡ []
declared_once p context r w plan o =
    rw
      (
        o.files,
        o.target,
        declared_at-planned_files r plan.overwrites_existing_route,
        expected_operation plan.overwrites_existing_route,
      )
      refl

-- The plan of a request that can be planned passes the validation of its route, once its route file is
-- written, exactly if its target path is canonical: the path is the only thing that is found otherwise.
pub validate_generated_routes-planned :
    (p : Platform) (context : PlanningContext) (r : NormalizedRequest)
    → IsPlannable p context r
    → (written : List Text) → member (route_path r.target_path) written ≡ true
    → (plan : ChangePlan) × (create_change_plan p context r ≡ ok plan)
      × (validate_generated_routes plan written
          ≡ found_unless (is_canonical_target_path r.target_path) not_canonical)
validate_generated_routes-planned p context r w written there =
    let (plan, e, o) = create_change_plan-IsPlanOf p context r w in
    let found =
      findings_of_route plan written (declared_once p context r w plan o) (rw o.target there) in
    (
      plan,
      e,
      subst
          (λ t.
            validate_generated_routes plan written
            ≡ found_unless (is_canonical_target_path t) not_canonical)
          o.target found,
    )
