-- ===== src/Routing/BeforeAstro/Lands.antt =====
-- Where an early answer leads to.
use web_comunidad_solar.Prelude.{
  ◌≡◌, refl, subst, arith, ◌⊎◌, inl, inr, true, false, none, some, ◌++◌, Text, codes, Bool-cases,
  Option-cases,
}
use web_comunidad_solar.Routing.Legacy.{get_legacy_redirect, is_legacy_gone_path}
use web_comunidad_solar.Routing.Legacy.Coverage.{
  before_hash, is_served, is_served-cases, get_legacy_redirect-served,
}
use web_comunidad_solar.Routing.Web.{Request, Response, get}
use web_comunidad_solar.Routing.BeforeAstro.{
  from_hash, destination_url, redirect_response, legacy_gone_response, route_before_astro,
}

-- The response says that the page is gone, and names no other.
abbrev pub IsGone : Response → Type 0
IsGone r = (r.status ≡ 410) × (get (codes "location") r.headers ≡ none)

-- The response leads to another path of the same origin, with the search of the request, and a
-- request of that path is left to Astro.
abbrev pub IsRedirect : Request → Response → Type 0
IsRedirect q r =
    (path : Text) × (hash : Text) × (r.status ≡ 308)
    × (get (codes "location") r.headers ≡ some (q.origin ++ path ++ q.search ++ hash))
    × (route_before_astro (record q { pathname = path }) ≡ none)

served-route :
    (q : Request) (path : Text)
    → is_served path ≡ true
    → route_before_astro (record q { pathname = path }) ≡ none
unfolding route_before_astro
served-route q path h = ground (arith, is_served-cases path h)

IsRedirect-lands :
    (q : Request) (to : Text)
    → get_legacy_redirect q.pathname ≡ some to
    → IsRedirect q (redirect_response (destination_url q to))
unfolding destination_url
IsRedirect-lands q to h = (
  before_hash to,
  from_hash to,
  refl,
  refl,
  served-route q (before_hash to) (get_legacy_redirect-served q.pathname to h),
)

gone-response :
    (q : Request) (r : Response)
    → route_before_astro q ≡ some r
    → is_legacy_gone_path q.pathname ≡ true
    → legacy_gone_response ≡ r
unfolding route_before_astro
gone-response q r h e = ground (arith, e)

redirect-response :
    (q : Request) (r : Response) (to : Text)
    → route_before_astro q ≡ some r
    → is_legacy_gone_path q.pathname ≡ false
    → get_legacy_redirect q.pathname ≡ some to
    → redirect_response (destination_url q to) ≡ r
unfolding route_before_astro
redirect-response q r to h e n = ground (arith, e, n)

no-response :
    (q : Request) (r : Response)
    → route_before_astro q ≡ some r
    → is_legacy_gone_path q.pathname ≡ false
    → get_legacy_redirect q.pathname ≡ none
    → ⊥
unfolding route_before_astro
no-response q r h e n = ground (arith, e, n)

-- Whatever is answered before Astro is a page that is gone or a redirect, and a redirect needs no
-- second one.
pub route_before_astro-final :
    (q : Request) (r : Response) → route_before_astro q ≡ some r → IsGone r ⊎ IsRedirect q r
route_before_astro-final q r h = elim (Bool-cases (is_legacy_gone_path q.pathname)) [
  | inl e ↦ inl (subst IsGone (gone-response q r h e) (refl, refl))
  | inr e ↦ elim (Option-cases (get_legacy_redirect q.pathname)) [
    | inl n ↦ absurd (no-response q r h e n)
    | inr (to, n) ↦
        inr (subst (IsRedirect q) (redirect-response q r to h e n) (IsRedirect-lands q to n))
  ]
]
