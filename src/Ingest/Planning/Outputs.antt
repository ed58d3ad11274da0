-- ===== src/Ingest/Planning/Outputs.antt =====
-- src/ingest/planning/route-impact.ts: the paths that a candidate of a plan may write, and whether its
-- route is there already; `readSourceManifest` of src/ingest/planning/plan.ts.
use web_comunidad_solar.Prelude.{
  ℕ, Bool, not, Option, none, some, List, [], ◌∷◌, ◌++◌, Text, codes, ◌===◌, ◌==◌, is_empty, any,
  member, split, starts_with, if◌then◌else◌, ◌&&◌, ◌||◌,
}
use web_comunidad_solar.Json.{Json, string, array, object, Items, nil, cons}
use web_comunidad_solar.Json.Decode.{own}
use web_comunidad_solar.Ingest.Failure.{
  Result, ok, err, ◌>>=◌, ◌>>◌, throw_if, or_throw, output_path_unsafe, manifest_not_pinned,
  manifest_not_json, manifest_invalid, manifest_route_invalid, manifest_kind_invalid,
}
use web_comunidad_solar.Ingest.Platform.{Platform}
use web_comunidad_solar.Ingest.Planning.Request.{NormalizedRequest, assert_normalized_request}

pub record OutputPaths : Type 0 where
  pub route : Text
  pub components_dir : Text
  pub content : Text
  pub stylesheet : Text
  pub assets_dir : Text

pub record SourceManifestRoute : Type 0 where
  pub path : Text
  pub kind : Text

abbrev pub is_unsafe_segment : Text → Bool
is_unsafe_segment s = is_empty s || s === codes "." || s === codes ".."

abbrev pub is_unsafe_unit : ℕ → Bool
is_unsafe_unit c = c == b'\\' || c == 0

unfoldable pub is_safe_relative_path : Text → Bool
is_safe_relative_path path =
    not (is_empty path)
    && not (any is_unsafe_unit path)
    && not (starts_with path (codes "/"))
    && not (any is_unsafe_segment (split b'/' path))

-- `generatedRoutePath`, which src/ingest/validation/routes.ts has in the same words
unfoldable pub route_path : Text → Text
route_path target =
    if target === codes "/"
    then codes "src/pages/index.astro"
    else codes "src/pages" ++ target ++ codes ".astro"

unfoldable pub output_paths_of : NormalizedRequest → OutputPaths
output_paths_of r = record {
  route = route_path r.target_path;
  components_dir = codes "src/components/generated/" ++ r.change_id;
  content = codes "src/content/generated/" ++ r.change_id ++ codes ".json";
  stylesheet = codes "src/styles/generated/" ++ r.change_id ++ codes ".css";
  assets_dir = codes "public/generated/" ++ r.change_id;
}

abbrev assert_safe_output_path : Text → Result (Unit {0})
assert_safe_output_path path = throw_if (not (is_safe_relative_path path)) output_path_unsafe

abbrev pub assert_safe_output_paths : OutputPaths → Result OutputPaths
assert_safe_output_paths paths = do
  assert_safe_output_path paths.route
  assert_safe_output_path paths.components_dir
  assert_safe_output_path paths.content
  assert_safe_output_path paths.stylesheet
  assert_safe_output_path paths.assets_dir
  ok paths

unfoldable pub output_paths : Platform → NormalizedRequest → Result OutputPaths
output_paths p r = assert_normalized_request p r >>= λ normalized.
    assert_safe_output_paths (output_paths_of normalized)

abbrev is_rendered_at : Text → SourceManifestRoute → Bool
is_rendered_at target route =
    route.path === target && member route.kind (codes "page" ∷ codes "private-page" ∷ [])

unfoldable pub route_exists : Text → List SourceManifestRoute → Bool
route_exists target routes = any (is_rendered_at target) routes

abbrev manifest_route_kinds : List Text
manifest_route_kinds =
    codes "api"
    ∷ codes "asset"
    ∷ codes "gone"
    ∷ codes "page"
    ∷ codes "private-page"
    ∷ codes "redirect"
    ∷ []

abbrev route_at : Text → Option Json → Result SourceManifestRoute
route_at path (some (string kind)) =
    throw_if (not (member kind manifest_route_kinds)) manifest_kind_invalid
    >> ok (record { path = path; kind = kind })
route_at path _ = err manifest_kind_invalid

abbrev route_with : Option Json → Option Json → Result SourceManifestRoute
route_with (some (string path)) kind = route_at path kind
route_with _ kind = err manifest_route_invalid

abbrev manifest_route : Json → Result SourceManifestRoute
manifest_route (object fs) = route_with (own (codes "path") fs) (own (codes "kind") fs)
manifest_route _ = err manifest_route_invalid

abbrev manifest_routes : Items → Result (List SourceManifestRoute)
manifest_routes nil = ok []
manifest_routes (cons v more) = do
  route ← manifest_route v
  routes ← manifest_routes more
  ok (route ∷ routes)

abbrev routes_in : Option Json → Result (List SourceManifestRoute)
routes_in (some (array items)) = manifest_routes items
routes_in _ = err manifest_invalid

abbrev manifest_of : Json → Result (List SourceManifestRoute)
manifest_of (object fs) = routes_in (own (codes "routes") fs)
manifest_of _ = err manifest_invalid

abbrev parsed : Platform → Option Text → Option Json
parsed p none = none
parsed p (some t) = p.json_parse t

-- `readSourceManifest`, for whether the path is that of the pinned manifest, and for the text of the
-- file, if it can be read.
unfoldable pub read_source_manifest :
    Platform → Bool → Option Text → Result (List SourceManifestRoute)
read_source_manifest p is_pinned text = do
  throw_if (not is_pinned) manifest_not_pinned
  value ← or_throw (parsed p text) manifest_not_json
  manifest_of value
