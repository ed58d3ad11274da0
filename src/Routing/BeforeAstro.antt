-- ===== src/Routing/BeforeAstro.antt =====
-- src/lib/routing/before-astro.ts and src/lib/routing/gone.ts: what is answered before Astro runs.
pub mod Lands
use web_comunidad_solar.Prelude.{
  Bool, true, false, Option, none, some, List, [], ◌∷◌, ◌++◌, Text, codes, ◌==◌, if◌then◌else◌,
}
use web_comunidad_solar.Routing.Legacy.{get_legacy_redirect, is_legacy_gone_path}
use web_comunidad_solar.Routing.Legacy.Coverage.{before_hash}
use web_comunidad_solar.Routing.Web.{Headers, Request, Response, header}

abbrev pub legacy_gone_body : Text
legacy_gone_body = codes "Esta página ya no forma parte del catálogo de Comunidad Solar."

abbrev pub legacy_gone_headers : Headers
legacy_gone_headers =
    header "cache-control" "public, max-age=3600"
    ∷ header "content-type" "text/plain; charset=utf-8"
    ∷ header "x-robots-tag" "noindex"
    ∷ []

abbrev pub legacy_gone_response : Response
legacy_gone_response = record {
  status = 410;
  status_text = [];
  headers = legacy_gone_headers;
  body = some legacy_gone_body;
}

-- The fragment of a destination, with its `#`.
abbrev pub from_hash : Text → Text
from_hash [] = []
from_hash (c ∷ t) = let rest = from_hash t in if c == b'#' then c ∷ t else rest

-- `new URL(destinationPath, url.origin)` with the search of the request, printed. A destination is
-- an absolute path, perhaps with a fragment, and has no search of its own.
unfoldable pub destination_url : Request → Text → Text
unfolding before_hash
destination_url url destination_path =
    url.origin ++ before_hash destination_path ++ url.search ++ from_hash destination_path

abbrev pub redirect_response : Text → Response
redirect_response location = record {
  status = 308;
  status_text = [];
  headers = header "cache-control" "public, max-age=3600" ∷ (codes "location", location) ∷ [];
  body = none;
}

abbrev pub redirect_to : Request → Option Text → Option Response
redirect_to url none = none
redirect_to url (some destination_path) =
    some (redirect_response (destination_url url destination_path))

unfoldable pub route_before_astro : Request → Option Response
route_before_astro url =
    if is_legacy_gone_path url.pathname
    then some legacy_gone_response
    else redirect_to url (get_legacy_redirect url.pathname)
