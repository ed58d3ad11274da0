-- ===== src/Routing/Tests.antt =====
-- Requests of old and private paths.
use web_comunidad_solar.Prelude.{◌≡◌, refl, ◌⊎◌, true, some, [], ◌∷◌, Text, codes}
use web_comunidad_solar.Routing.Legacy.{
  get_legacy_redirect, is_legacy_gone_path, normalize_legacy_path,
}
use web_comunidad_solar.Routing.Legacy.Coverage.{
  categories, sitemap-categories, before_hash, is_served, get_legacy_redirect-served,
}
use web_comunidad_solar.Routing.Web.{Request, Response, header, get}
use web_comunidad_solar.Routing.BeforeAstro.{redirect_response, destination_url, route_before_astro}
use web_comunidad_solar.Routing.BeforeAstro.Lands.{IsGone, IsRedirect, route_before_astro-final}
use web_comunidad_solar.Routing.Policy.{
  wrangler_static_asset_cache_control, needs_private_response_headers, normalize_worker_response,
  apply_response_policy, normalize_astro_static_html_response,
}
use web_comunidad_solar.Routing.Policy.Private.{
  apply_response_policy-private, apply_response_policy-static_private,
}

abbrev mission : Text
mission = codes "/Mision/"

normal-mission : normalize_legacy_path mission ≡ codes "/mision"
unfolding normalize_legacy_path
normal-mission = refl

sitemap-categories_example : categories (codes "/mision") ≡ 1
sitemap-categories_example = sitemap-categories (codes "/mision") refl

redirect-mission : get_legacy_redirect mission ≡ some (codes "/nosotros#mision")
unfolding get_legacy_redirect normalize_legacy_path
redirect-mission = refl

get_legacy_redirect-served_example : is_served (codes "/nosotros") ≡ true
unfolding before_hash
get_legacy_redirect-served_example =
    get_legacy_redirect-served mission (codes "/nosotros#mision") redirect-mission

abbrev at_path : Text → Request
at_path path = record {
  origin = codes "https://comunidadsolar.es";
  pathname = path;
  search = codes "?utm=1";
}

abbrev to_mission : Response
to_mission = redirect_response (codes "https://comunidadsolar.es/nosotros?utm=1#mision")

route-mission : route_before_astro (at_path mission) ≡ some to_mission
unfolding route_before_astro destination_url is_legacy_gone_path get_legacy_redirect
    normalize_legacy_path
route-mission = refl

route_before_astro-final_example : IsGone to_mission ⊎ IsRedirect (at_path mission) to_mission
route_before_astro-final_example =
    route_before_astro-final (at_path mission) to_mission route-mission

abbrev static_page : Response
static_page = record {
  status = 200;
  status_text = codes "OK";
  headers =
      header "content-type" "text/html; charset=utf-8"
      ∷ (codes "cache-control", wrangler_static_asset_cache_control)
      ∷ header "x-robots-tag" "all"
      ∷ [];
  body = some (codes "<p>socios</p>");
}

abbrev private_page : Request
private_page = at_path (codes "/socios/carmen")

private-private_page : needs_private_response_headers private_page ≡ true
unfolding needs_private_response_headers
private-private_page = refl

apply_response_policy-private_example :
    get (codes "x-robots-tag") (apply_response_policy private_page static_page).headers
    ≡ some (codes "all")
unfolding normalize_worker_response normalize_astro_static_html_response
apply_response_policy-private_example =
    apply_response_policy-private private_page static_page (codes "x-robots-tag")
      private-private_page

apply_response_policy-static_private_example :
    get (codes "cache-control") (apply_response_policy private_page static_page).headers
    ≡ some (codes "private, no-store")
apply_response_policy-static_private_example =
    apply_response_policy-static_private private_page static_page private-private_page refl refl
