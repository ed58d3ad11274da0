-- ===== src/Auth/ReturnPath.antt =====
-- Where a visitor is sent after signing in or out.
use web_comunidad_solar.Prelude.{
  ◌≡◌, arith, true, false, some, [], ◌∷◌, ◌++◌, Text, codes, starts_with,
}
use web_comunidad_solar.Auth.{
  Runtime, Url, app_origin, is_reserved_auth_path, safe_relative_return_path,
}

starts_with-append : (s t p : Text) → starts_with s p ≡ true → starts_with (s ++ t) p ≡ true
starts_with-append s t [] h = ground arith
starts_with-append [] t (b ∷ p) h = cc
starts_with-append (a ∷ s) t (b ∷ p) h = ground (arith, starts_with-append s t p)

-- A value that begins with one slash and is parsed to a path of two slashes on the application's
-- origin, off the reserved routes, passes as a text of two slashes, which a browser takes for another
-- host.
pub safe_relative_return_path-leaves :
    (rt : Runtime) (value : Text) (url : Url)
    → starts_with value (codes "/") ≡ true
    → starts_with value (codes "//") ≡ false
    → rt.parse_url value ≡ some url
    → url.origin ≡ app_origin
    → is_reserved_auth_path url.pathname ≡ false
    → starts_with url.pathname (codes "//") ≡ true
    → starts_with (safe_relative_return_path rt value) (codes "//") ≡ true
unfolding safe_relative_return_path
safe_relative_return_path-leaves rt value url a b c d e f =
    ground (
      arith,
      a,
      b,
      c,
      d,
      e,
      starts_with-append url.pathname (url.search ++ url.hash) (codes "//") f,
    )
