-- ===== src/Routing/Legacy/Coverage.antt =====
-- The categories of the old site's paths, and the ends of its redirects.
use web_comunidad_solar.Prelude.{
  ℕ, ◌+◌, ◌≡◌, refl, sym, arith, inl, inr, subst, Bool, true, false, not, ◌&&◌, Option, none, some,
  List, [], ◌∷◌, Text, ◌===◌, eq_of_===, ◌==◌, member, all, if◌then◌else◌, and-true, Bool-cases,
}
use web_comunidad_solar.Routing.Redirects.{legacy_redirects}
use web_comunidad_solar.Routing.Inventory.{
  legacy_routes_pending_decision, legacy_preserved_paths, legacy_wordpress_sitemap_paths,
}
use web_comunidad_solar.Routing.Legacy.{
  get_legacy_redirect, is_legacy_gone_path, normalize_legacy_path,
}
use web_comunidad_solar.Routing.Legacy.Lookup.{lookup-all}

abbrev is_some : Option Text → Bool
is_some none = false
is_some (some t) = true

abbrev one_if : Bool → ℕ
one_if b = if b then 1 else 0

-- In how many of the four categories a path is.
unfoldable pub categories : Text → ℕ
categories path =
    one_if (is_some (get_legacy_redirect path))
    + one_if (is_legacy_gone_path path)
    + one_if (member path legacy_routes_pending_decision)
    + one_if (member path legacy_preserved_paths)

all-member :
    (ok : Text → Bool) (t : Text) (ts : List Text)
    → all ok ts ≡ true
    → member t ts ≡ true
    → ok t ≡ true
all-member ok t [] h k = cc
all-member ok t (u ∷ ts) h k =
    let (p, q) = and-true (ok u) (all ok ts) h in
    elim (Bool-cases (t === u)) [
      | inl e ↦ subst (λ x. ok x ≡ true) (sym (eq_of_=== t u e)) p
      | inr e ↦ all-member ok t ts q (ground (arith, e))
    ]

sitemap_in_one : all (λ t. categories t == 1) legacy_wordpress_sitemap_paths ≡ true
unfolding categories get_legacy_redirect is_legacy_gone_path normalize_legacy_path
sitemap_in_one = refl

-- Every path of the old site's sitemap is in exactly one of the four categories: redirected,
-- withdrawn, waiting for a decision, or preserved.
pub sitemap-categories :
    (path : Text) → member path legacy_wordpress_sitemap_paths ≡ true → categories path ≡ 1
sitemap-categories path h =
    let e =
      all-member (λ t. categories t == 1) path legacy_wordpress_sitemap_paths sitemap_in_one h in
    ground (arith, e)

-- A path that a redirect leads to is served: it is not redirected and not withdrawn.
unfoldable pub is_served : Text → Bool
is_served path = not (is_some (get_legacy_redirect path)) && not (is_legacy_gone_path path)

pub is_served-cases :
    (path : Text)
    → is_served path ≡ true
    → (get_legacy_redirect path ≡ none) × (is_legacy_gone_path path ≡ false)
unfolding is_served
is_served-cases path h = ground arith

-- `destination.split("#")[0]`
unfoldable pub before_hash : Text → Text
before_hash [] = []
before_hash (c ∷ t) = let rest = before_hash t in if c == b'#' then [] else c ∷ rest

destinations_served : all (λ r. is_served (before_hash r.to)) legacy_redirects ≡ true
unfolding is_served before_hash get_legacy_redirect is_legacy_gone_path normalize_legacy_path
destinations_served = refl

-- No chains: the page that any path is redirected to is neither redirected nor withdrawn.
pub get_legacy_redirect-served :
    (path to : Text) → get_legacy_redirect path ≡ some to → is_served (before_hash to) ≡ true
unfolding get_legacy_redirect
get_legacy_redirect-served path to h =
    let (r, key, e, ok) =
      lookup-all (λ r. is_served (before_hash r.to)) (normalize_legacy_path path) legacy_redirects
        to destinations_served h in
    subst (λ t. is_served (before_hash t) ≡ true) e ok
