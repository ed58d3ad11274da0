-- ===== src/Routing/Policy.antt =====
-- src/lib/http and src/lib/routing/response-headers.ts: what is changed in Astro's response.
pub mod Static
pub mod Private
use web_comunidad_solar.Prelude.{
  Bool, true, false, not, ◌&&◌, ◌||◌, Option, none, some, List, [], ◌∷◌, Text, codes, ◌===◌,
  starts_with, if◌then◌else◌,
}
use web_comunidad_solar.Routing.Legacy.{to_lower_case}
use web_comunidad_solar.Routing.Web.{Headers, Request, Response, header, get, has, set, delete}
use web_comunidad_solar.Routing.BeforeAstro.{route_before_astro}

abbrev pub wrangler_static_asset_cache_control : Text
wrangler_static_asset_cache_control = codes "public, max-age=0, must-revalidate"

abbrev pub or_empty : Option Text → Text
or_empty none = []
or_empty (some t) = t

-- `value === text` where the value may be missing
abbrev pub is_text : Option Text → Text → Bool
is_text none t = false
is_text (some s) t = s === t

-- `headers.get("content-type")?.toLowerCase()`; only ASCII is compared with it, and no other
-- character of a header, all below 0x100, becomes ASCII.
abbrev pub content_type : Response → Option Text
content_type r = elim (get (codes "content-type") r.headers) [
  | none ↦ none
  | some t ↦ some (to_lower_case t)
]

unfoldable pub normalize_astro_static_html_response : Response → Response
normalize_astro_static_html_response r =
    if not (starts_with (or_empty (content_type r)) (codes "text/html"))
      || not (is_text (get (codes "cache-control") r.headers) wrangler_static_asset_cache_control)
    then r
    else record r { headers = delete (codes "cache-control") r.headers }

abbrev pub robots_normalized : Request → Response → Response
robots_normalized request html_normalized =
    if not (request.pathname === codes "/robots.txt")
      || not (is_text (content_type html_normalized) (codes "text/plain; charset=utf-8"))
    then html_normalized
    else record html_normalized {
      headers = set (codes "content-type") (codes "text/plain") html_normalized.headers;
    }

unfoldable pub normalize_worker_response : Request → Response → Response
normalize_worker_response request response =
    robots_normalized request (normalize_astro_static_html_response response)

abbrev pub private_response_headers : Headers
private_response_headers =
    header "cache-control" "private, no-store"
    ∷ header "x-robots-tag" "noindex, nofollow, noarchive, noimageindex"
    ∷ header "x-content-type-options" "nosniff"
    ∷ header "referrer-policy" "no-referrer"
    ∷ []

unfoldable pub needs_private_response_headers : Request → Bool
needs_private_response_headers request =
    request.pathname === codes "/socios"
    || starts_with request.pathname (codes "/socios/")
    || request.pathname === codes "/guia-equipo"
    || request.pathname === codes "/guia-equipo-nueva-web-comunidad-solar.md"
    || request.pathname === codes "/manganafer/interesados"

-- `for (const [name, value] of entries) if (!headers.has(name)) headers.set(name, value)`
abbrev pub set_missing : Headers → Headers → Headers
set_missing headers [] = headers
set_missing headers ((name, value) ∷ entries) =
    if has name headers
    then set_missing headers entries
    else set_missing (set name value headers) entries

unfoldable pub response_with_private_headers : Response → Response
response_with_private_headers response = record response {
  headers = set_missing response.headers private_response_headers;
}

unfoldable pub apply_response_policy : Request → Response → Response
apply_response_policy request response =
    let normalized = normalize_worker_response request response in
    if needs_private_response_headers request
    then response_with_private_headers normalized
    else normalized

abbrev or_astro : Option Response → Response → Response
or_astro (some early) late = early
or_astro none late = late

-- Astro's answer is awaited only where there is no early one.
unfoldable pub run_worker_response_pipeline : Request → (Request → Response) → Response
run_worker_response_pipeline request handle_astro =
    or_astro (route_before_astro request) (apply_response_policy request (handle_astro request))
