-- ===== src/Ingest/Planning/Described.antt =====
-- What a safe path is and when a page stands at a route, beside the tests of
-- src/ingest/planning/route-impact.ts.
use web_comunidad_solar.Prelude.{
  ◌≡◌, ◌≢◌, ◌⊎◌, inl, inr, refl, arith, true, false, Bool-cases, List, [], ◌∷◌, Text, codes, ◌===◌,
  ===_refl, eq_of_===, any, split, All, Some, subst, sym,
}
use web_comunidad_solar.Ingest.Planning.Outputs.{
  SourceManifestRoute, is_safe_relative_path, is_unsafe_segment, is_unsafe_unit, route_exists,
}

-- No segment of the path is blank or made of one or two dots, and it has no backslash and no null.
pub record IsSafePath (path : Text) : Type 0 where
  pub segments : All (λ s. (s ≢ []) × (s ≢ codes ".") × (s ≢ codes "..")) (split b'/' path)
  pub units : All (λ c. (c ≢ b'\\') × (c ≢ 0)) path

segments-All :
    (ss : List Text)
    → any is_unsafe_segment ss ≡ false
    → All (λ s. (s ≢ []) × (s ≢ codes ".") × (s ≢ codes "..")) ss
segments-All [] h = tt
segments-All (s ∷ ss) h = (
  (
    λ e. absurd (
        subst (λ x. is_unsafe_segment x ≡ false → ⊥) (sym e) (λ k. ground (arith, k))
          (ground (arith, h))),
    λ e. absurd (
        subst (λ x. is_unsafe_segment x ≡ false → ⊥) (sym e) (λ k. ground (arith, k))
          (ground (arith, h))),
    λ e. absurd (
        subst (λ x. is_unsafe_segment x ≡ false → ⊥) (sym e) (λ k. ground (arith, k))
          (ground (arith, h))),
  ),
  segments-All ss (ground (arith, h)),
)

units-All : (t : Text) → any is_unsafe_unit t ≡ false → All (λ c. (c ≢ b'\\') × (c ≢ 0)) t
units-All [] h = tt
units-All (c ∷ t) h = (
  (λ e. absurd (ground (arith, h, e)), λ e. absurd (ground (arith, h, e))),
  units-All t (ground (arith, h)),
)

pub is_safe_relative_path-IsSafePath :
    (path : Text) → is_safe_relative_path path ≡ true → IsSafePath path
unfolding is_safe_relative_path
is_safe_relative_path-IsSafePath path h = record {
  segments = segments-All (split b'/' path) (ground (arith, h));
  units = units-All path (ground (arith, h));
}

-- The manifest has a page or a private page at the path.
abbrev pub IsPageAt : Text → List SourceManifestRoute → Type 0
IsPageAt target routes =
    Some
      (λ route.
        (route.path ≡ target) × ((route.kind ≡ codes "page") ⊎ (route.kind ≡ codes "private-page")))
      routes

pub route_exists-IsPageAt :
    (target : Text) (routes : List SourceManifestRoute)
    → route_exists target routes ≡ true
    → IsPageAt target routes
unfolding route_exists
route_exists-IsPageAt target [] h = absurd (ground (arith, h))
route_exists-IsPageAt target (route ∷ routes) h = elim (Bool-cases (route.path === target)) [
  | inl here ↦ elim (Bool-cases (route.kind === codes "page")) [
    | inl page ↦ inl (eq_of_=== _ _ here, inl (eq_of_=== _ _ page))
    | inr other ↦ elim (Bool-cases (route.kind === codes "private-page")) [
      | inl private ↦ inl (eq_of_=== _ _ here, inr (eq_of_=== _ _ private))
      | inr neither ↦ inr (route_exists-IsPageAt target routes (ground (arith, h, other, neither)))
    ]
  ]
  | inr away ↦ inr (route_exists-IsPageAt target routes (ground (arith, h, away)))
]

pub IsPageAt-route_exists :
    (target : Text) (routes : List SourceManifestRoute)
    → IsPageAt target routes
    → route_exists target routes ≡ true
unfolding route_exists
IsPageAt-route_exists target [] s = absurd s
IsPageAt-route_exists target (route ∷ routes) (inl (e, inl k)) = rw (e, k, ===_refl target) refl
IsPageAt-route_exists target (route ∷ routes) (inl (e, inr k)) = rw (e, k, ===_refl target) refl
IsPageAt-route_exists target (route ∷ routes) (inr s) =
    ground (arith, IsPageAt-route_exists target routes s)
