-- ===== src/Ingest/Planning/Created.antt =====
-- What `createChangePlan` makes of a request, and what the approvals and the validation of routes make
-- of its plan.
use web_comunidad_solar.Prelude.{
  map, Some, All, ◌↔◌, ◌⊎◌, inl, inr, Bool, false, ◌∷◌, ◌≡◌, refl, sym, ap, subst, arith, true, not,
  List, [], ◌++◌, append-nil, Text, codes, ◌===◌, ===_refl,
}
use web_comunidad_solar.Ingest.Failure.{ok, throw_if, publication_not_prepared, plan_invalid}
use web_comunidad_solar.Ingest.Platform.{Platform, sha256_canonical}
use web_comunidad_solar.Ingest.Schema.{is_hash, is_slug, is_change_id, is_target_path}
use web_comunidad_solar.Ingest.Approvals.Baseline.{is_commit}
use web_comunidad_solar.Ingest.Plan.{
  ChangePlan, create, modify, unsigned_plan_json, is_change_plan, is_publication, plan_subject,
}
use web_comunidad_solar.Ingest.Planning.Request.{
  NormalizedRequest, is_normalized_request, unhashed_request_json, assert_normalized_request,
}
use web_comunidad_solar.Ingest.Planning.Outputs.{
  OutputPaths, route_path, SourceManifestRoute, is_safe_relative_path, output_paths_of,
  assert_safe_output_paths, output_paths, route_exists, read_source_manifest,
}
use web_comunidad_solar.Ingest.Planning.Create.{
  route_operation, PlanningContext, planned_files, unsigned_plan, signed_plan, create_change_plan,
}
use web_comunidad_solar.Ingest.Planning.Described.{
  IsSafePath, is_safe_relative_path-IsSafePath, IsPageAt, route_exists-IsPageAt,
  IsPageAt-route_exists,
}
use web_comunidad_solar.Ingest.Planning.Safe.{IsFileName, is_slug-IsFileName, route_path-safe}

components_safe :
    (t : Text)
    → IsFileName t
    → is_safe_relative_path (codes "src/components/generated/" ++ t) ≡ true
unfolding is_safe_relative_path
components_safe t n = rw n.alone (ground (arith, n.units, n.segment))

content_safe :
    (t : Text) → IsFileName t → is_safe_relative_path (codes "src/content/generated/" ++ t) ≡ true
unfolding is_safe_relative_path
content_safe t n = rw n.alone (ground (arith, n.units, n.segment))

styles_safe :
    (t : Text) → IsFileName t → is_safe_relative_path (codes "src/styles/generated/" ++ t) ≡ true
unfolding is_safe_relative_path
styles_safe t n = rw n.alone (ground (arith, n.units, n.segment))

assets_safe :
    (t : Text) → IsFileName t → is_safe_relative_path (codes "public/generated/" ++ t) ≡ true
unfolding is_safe_relative_path
assets_safe t n = rw n.alone (ground (arith, n.units, n.segment))

-- The check of the paths passes for every request that is well formed.
output_paths_of-safe :
    (r : NormalizedRequest)
    → is_change_id r.change_id ≡ true
    → is_target_path r.target_path ≡ true
    → assert_safe_output_paths (output_paths_of r) ≡ ok (output_paths_of r)
unfolding is_change_id output_paths_of
output_paths_of-safe r h k =
    let slug : is_slug r.change_id ≡ true = ground (arith, h) in
    let bare : IsFileName r.change_id =
      subst (λ t. IsFileName t) (append-nil r.change_id)
        (is_slug-IsFileName r.change_id [] slug tt refl) in
    rw
      (
        route_path-safe r.target_path k,
        components_safe r.change_id bare,
        content_safe (r.change_id ++ codes ".json")
            (is_slug-IsFileName r.change_id (codes ".json") slug (ground arith) refl),
        styles_safe (r.change_id ++ codes ".css")
            (is_slug-IsFileName r.change_id (codes ".css") slug (ground arith) refl),
        assets_safe r.change_id bare,
      )
      refl

assert_normalized_request-eq-ok :
    (p : Platform) (r : NormalizedRequest)
    → is_normalized_request r ≡ true
    → r.input_sha256 ≡ sha256_canonical p (unhashed_request_json r)
    → assert_normalized_request p r ≡ ok r
unfolding assert_normalized_request
assert_normalized_request-eq-ok p r h e =
    let same : (r.input_sha256 === sha256_canonical p (unhashed_request_json r)) ≡ true =
      subst (λ t. (r.input_sha256 === t) ≡ true) e (===_refl r.input_sha256) in
    rw (h, same) refl

-- The hash of a plan is not one of the members that are hashed.
signed_plan-same :
    (p : Platform) (plan : ChangePlan)
    → (signed_plan p plan).plan_sha256
      ≡ sha256_canonical p (unsigned_plan_json (signed_plan p plan))
unfolding signed_plan unsigned_plan_json
signed_plan-same p plan = refl

signed_plan-carries :
    (p : Platform) (plan : ChangePlan)
    → ((signed_plan p plan).plan_sha256
        === sha256_canonical p (unsigned_plan_json (signed_plan p plan)))
      ≡ true
signed_plan-carries p plan =
    subst (λ t. ((signed_plan p plan).plan_sha256 === t) ≡ true) (signed_plan-same p plan)
      (===_refl (signed_plan p plan).plan_sha256)

-- A request that can be planned in a context.
pub record IsPlannable (p : Platform) (context : PlanningContext) (r : NormalizedRequest)
    : Type 0 where
  pub well_formed : is_normalized_request r ≡ true
  pub hashed : r.input_sha256 ≡ sha256_canonical p (unhashed_request_json r)
  pub committed : is_commit context.baseline_commit ≡ true
  pub prepared : context.is_prepared ≡ true
  pub published : is_publication context.publication ≡ true
  pub routes : List SourceManifestRoute
  pub manifest : read_source_manifest p context.manifest_pinned context.manifest_text ≡ ok routes
  pub digests : (t : Text) → is_hash (p.sha256 t) ≡ true

module _ (p : Platform) (context : PlanningContext) (r : NormalizedRequest)
    (w : IsPlannable p context r) where
  planned : ChangePlan
  planned = signed_plan p (unsigned_plan r context (output_paths_of r) w.routes)

  abbrev IsPartOfRequest : Type 0
  IsPartOfRequest =
      (is_change_id r.change_id ≡ true)
      × (is_target_path r.target_path ≡ true)
      × (is_hash r.input_sha256 ≡ true)

  request_parts : IsPartOfRequest
  unfolding is_normalized_request
  request_parts =
      (ground (arith, w.well_formed), ground (arith, w.well_formed), ground (arith, w.well_formed))

  output_paths-eq-ok : output_paths p r ≡ ok (output_paths_of r)
  unfolding output_paths
  output_paths-eq-ok =
      let (id, target, hash) = request_parts in
      rw
        (
          assert_normalized_request-eq-ok p r w.well_formed w.hashed,
          output_paths_of-safe r id target,
        )
        refl

  planned-valid : is_change_plan planned ≡ true
  unfolding planned signed_plan unsigned_plan is_change_plan sha256_canonical
  planned-valid =
      let (id, target, hash) = request_parts in rw (id, target, hash, w.published, w.digests) refl

  is_prepared_passes : throw_if (not context.is_prepared) publication_not_prepared ≡ ok tt
  is_prepared_passes = rw w.prepared refl

  is_valid_passes : throw_if (not (is_change_plan planned)) plan_invalid ≡ ok tt
  is_valid_passes = rw planned-valid refl

  create_change_plan-planned : create_change_plan p context r ≡ ok planned
  unfolding create_change_plan planned
  create_change_plan-planned =
      rw
        (
          assert_normalized_request-eq-ok p r w.well_formed w.hashed,
          w.committed,
          is_prepared_passes,
          w.manifest,
          output_paths-eq-ok,
          is_valid_passes,
        )
        refl

  -- The hash that the plan carries is the one of its other members.
  plan_subject-planned : plan_subject p planned ≡ ok planned.plan_sha256
  unfolding plan_subject planned
  plan_subject-planned =
      let plan = unsigned_plan r context (output_paths_of r) w.routes in
      rw (planned-valid, signed_plan-carries p plan)
        (ap (λ t. ok t) (sym (signed_plan-same p plan)))

  pub record IsPlanOf (plan : ChangePlan) : Type 0 where
    pub request_hash : plan.request_sha256 ≡ r.input_sha256
    pub baseline : plan.baseline_commit ≡ context.baseline_commit
    pub target : plan.target_path ≡ r.target_path
    pub publication : plan.publication ≡ context.publication
    pub overwrites : plan.overwrites_existing_route ≡ route_exists r.target_path w.routes
    pub files : plan.files ≡ planned_files (output_paths_of r) plan.overwrites_existing_route
    pub paths :
        map (λ f. f.path) plan.files
        ≡ route_path r.target_path
          ∷ (codes "src/components/generated/" ++ r.change_id)
          ∷ (codes "src/content/generated/" ++ r.change_id ++ codes ".json")
          ∷ (codes "src/styles/generated/" ++ r.change_id ++ codes ".css")
          ∷ (codes "public/generated/" ++ r.change_id)
          ∷ []
    pub modifies :
        Some (λ f. (f.path ≡ route_path r.target_path) × (f.operation ≡ modify)) plan.files
        ↔ IsPageAt r.target_path w.routes
    pub creates : All (λ f. (f.path ≡ route_path r.target_path) ⊎ (f.operation ≡ create)) plan.files
    pub safe : All (λ f. IsSafePath f.path) plan.files
    pub approvable : plan_subject p plan ≡ ok plan.plan_sha256

route_operation-modify : (b : Bool) → route_operation b ≡ modify → b ≡ true
route_operation-modify true h = refl
route_operation-modify false h = cc

planned_files-modifies :
    (paths : OutputPaths) (target : Text) (routes : List SourceManifestRoute)
    → Some
        (λ f. (f.path ≡ paths.route) × (f.operation ≡ modify))
        (planned_files paths (route_exists target routes))
      ↔ IsPageAt target routes
planned_files-modifies paths target routes =
    (forward, λ page. inl (refl, ap route_operation (IsPageAt-route_exists target routes page)))
  where
    forward :
        Some
          (λ f. (f.path ≡ paths.route) × (f.operation ≡ modify))
          (planned_files paths (route_exists target routes))
        → IsPageAt target routes
    forward (inl (e, o)) =
        route_exists-IsPageAt target routes (route_operation-modify (route_exists target routes) o)
    forward (inr (inl (e, o))) = cc
    forward (inr (inr (inl (e, o)))) = cc
    forward (inr (inr (inr (inl (e, o))))) = cc
    forward (inr (inr (inr (inr (inl (e, o)))))) = cc
    forward (inr (inr (inr (inr (inr none_left))))) = absurd none_left

planned_files-IsSafePath :
    (r : NormalizedRequest) (existing : Bool)
    → is_change_id r.change_id ≡ true
    → is_target_path r.target_path ≡ true
    → All (λ f. IsSafePath f.path) (planned_files (output_paths_of r) existing)
unfolding is_change_id output_paths_of
planned_files-IsSafePath r existing h k =
    let slug : is_slug r.change_id ≡ true = ground (arith, h) in
    let bare : IsFileName r.change_id =
      subst (λ t. IsFileName t) (append-nil r.change_id)
        (is_slug-IsFileName r.change_id [] slug tt refl) in
    let json = is_slug-IsFileName r.change_id (codes ".json") slug (ground arith) refl in
    let css = is_slug-IsFileName r.change_id (codes ".css") slug (ground arith) refl in
    (
      is_safe_relative_path-IsSafePath _ (route_path-safe r.target_path k),
      (
        is_safe_relative_path-IsSafePath _ (components_safe r.change_id bare),
        (
          is_safe_relative_path-IsSafePath _ (content_safe (r.change_id ++ codes ".json") json),
          (
            is_safe_relative_path-IsSafePath _ (styles_safe (r.change_id ++ codes ".css") css),
            (is_safe_relative_path-IsSafePath _ (assets_safe r.change_id bare), tt),
          ),
        ),
      ),
    )

-- A well-formed request that carries its hash is planned on a baseline, a prepared publication and a
-- readable manifest of routes: the plan names the request, the baseline and the publication, and can be
-- approved by its hash. Its files are the route and the four generated paths of the change, all of them
-- safe; the route is modified if the manifest has a page or a private page there and is created otherwise,
-- and the others are created.
pub create_change_plan-IsPlanOf :
    (p : Platform) (context : PlanningContext) (r : NormalizedRequest) (w : IsPlannable p context r)
    → (plan : ChangePlan) × (create_change_plan p context r ≡ ok plan) × IsPlanOf p context r w plan
unfolding planned signed_plan unsigned_plan output_paths_of
create_change_plan-IsPlanOf p context r w =
    let (id, target, hash) = request_parts p context r w in
    (
      planned p context r w,
      create_change_plan-planned p context r w,
      record {
        request_hash = refl;
        baseline = refl;
        target = refl;
        publication = refl;
        overwrites = refl;
        files = refl;
        paths = refl;
        modifies = planned_files-modifies (output_paths_of r) r.target_path w.routes;
        creates = (inl refl, (inr refl, (inr refl, (inr refl, (inr refl, tt)))));
        safe = planned_files-IsSafePath r (route_exists r.target_path w.routes) id target;
        approvable = plan_subject-planned p context r w;
      },
    )
