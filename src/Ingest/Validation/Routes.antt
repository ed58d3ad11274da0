-- ===== src/Ingest/Validation/Routes.antt =====
-- src/ingest/validation/routes.ts: the route that a plan gives to what was generated for it.
use web_comunidad_solar.Prelude.{
  Bool, true, false, not, List, [], ◌∷◌, ◌++◌, Text, codes, ◌===◌, is_empty, all, member, split,
  starts_with, ends_with, is_lower, is_digit, if◌then◌else◌, ◌&&◌, ◌||◌,
}
use web_comunidad_solar.Ingest.Plan.{ChangePlan, PlannedFile, FileOperation, create, modify}
use web_comunidad_solar.Ingest.Planning.Outputs.{route_path}

pub data RouteFinding : Type 0 where
  not_canonical not_declared_once other_operation no_output : RouteFinding

abbrev is_word_part : Text → Bool
is_word_part t = not (is_empty t) && all (λ c. is_lower c || is_digit c) t

-- /^[a-z0-9]+(?:-[a-z0-9]+)*$/
abbrev is_canonical_segment : Text → Bool
is_canonical_segment t = all is_word_part (split b'-' t)

abbrev are_canonical_segments : List Text → Bool
are_canonical_segments [] = false
are_canonical_segments (root ∷ segments) = all is_canonical_segment segments

-- `isCanonicalTargetPath`; the first text of the split is the one before the first slash
unfoldable pub is_canonical_target_path : Text → Bool
is_canonical_target_path path =
    path === codes "/"
    || (starts_with path (codes "/")
        && not (ends_with b'/' path)
        && are_canonical_segments (split b'/' path))

abbrev pub declared_at : Text → List PlannedFile → List FileOperation
declared_at route [] = []
declared_at route (f ∷ fs) =
    let rest = declared_at route fs in if f.path === route then f.operation ∷ rest else rest

abbrev is_expected : Bool → FileOperation → Bool
is_expected true modify = true
is_expected true create = false
is_expected false modify = false
is_expected false create = true

abbrev pub declaration_findings : Bool → List FileOperation → List RouteFinding
declaration_findings existing (operation ∷ []) =
    if is_expected existing operation then [] else other_operation ∷ []
declaration_findings existing _ = not_declared_once ∷ []

abbrev pub found_unless : Bool → RouteFinding → List RouteFinding
found_unless true f = []
found_unless false f = f ∷ []

-- `validateGeneratedRoutes`, for the paths of the files
unfoldable pub validate_generated_routes : ChangePlan → List Text → List RouteFinding
validate_generated_routes plan files =
    let route = route_path plan.target_path in
    found_unless (is_canonical_target_path plan.target_path) not_canonical
    ++ declaration_findings plan.overwrites_existing_route (declared_at route plan.files)
    ++ found_unless (member route files) no_output
