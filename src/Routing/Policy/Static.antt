-- ===== src/Routing/Policy/Static.antt =====
-- What of a response the policy of src/lib/routing/response-headers.ts and src/lib/http does not touch.
use web_comunidad_solar.Prelude.{◌≡◌, arith}
use web_comunidad_solar.Routing.Web.{Request, Response}
use web_comunidad_solar.Routing.Policy.{
  normalize_worker_response, normalize_astro_static_html_response, response_with_private_headers,
  apply_response_policy,
}

abbrev pub IsSameBody : Response → Response → Type 0
IsSameBody r s = (r.status ≡ s.status) × (r.status_text ≡ s.status_text) × (r.body ≡ s.body)

html-IsSameBody : (r : Response) → IsSameBody (normalize_astro_static_html_response r) r
unfolding normalize_astro_static_html_response
html-IsSameBody r = ground arith

-- The policy changes headers only.
pub apply_response_policy-IsSameBody :
    (q : Request) (r : Response) → IsSameBody (apply_response_policy q r) r
unfolding apply_response_policy normalize_worker_response response_with_private_headers
apply_response_policy-IsSameBody q r = ground (arith, html-IsSameBody r)
