-- ===== src/Auth/Tests.antt =====
-- People on a list, and a path that the runtime resolves.
use web_comunidad_solar.Prelude.{
  ◌≡◌, refl, arith, ◌↔◌, inl, inr, true, none, some, [], ◌∷◌, All, Text, codes, ◌===◌, starts_with,
  trim, if◌then◌else◌,
}
use web_comunidad_solar.Routing.Legacy.{to_lower_case}
use web_comunidad_solar.Auth.{
  Runtime, Url, Identity, AccessEnv, manganafer, allowed, normalize_email, is_reserved_auth_path,
  resolve_private_access, safe_relative_return_path,
}
use web_comunidad_solar.Auth.Access.{IsSeparator, IsListed, resolve_private_access-IsListed}
use web_comunidad_solar.Auth.ReturnPath.{safe_relative_return_path-leaves}

abbrev dotted : Text
dotted = codes "/.//otro.example/inicio"

abbrev dotted_url : Url
dotted_url = record {
  origin = codes "https://app.local";
  pathname = codes "//otro.example/inicio";
  search = [];
  hash = [];
}

abbrev plain_url : Text → Url
plain_url t = record { origin = codes "https://app.local"; pathname = t; search = []; hash = [] }

abbrev runtime : Runtime
runtime = record {
  to_lower_case = to_lower_case;
  decode_uri_component = λ t. some t;
  encode_uri_component = λ t. t;
  parse_url = λ t. if t === dotted then some dotted_url else some (plain_url t);
}

abbrev ana : Identity
ana = record {
  display_name = codes "Ana";
  email = codes "Ana@Sol.es";
  full_name = some (codes "Ana");
}

abbrev env : AccessEnv
env = record {
  socios_allowed_emails = none;
  team_allowed_emails = none;
  manganafer_allowed_emails = some (codes "luis@sol.es; ana@sol.es");
}

luis_free : All (λ c. IsSeparator c → ⊥) (codes "luis@sol.es")
luis_free = ground arith

ana_free : All (λ c. IsSeparator c → ⊥) (codes " ana@sol.es")
ana_free = ground arith

ana-IsListed : IsListed runtime manganafer env ana
unfolding normalize_email trim
ana-IsListed = (
  (
    codes "luis@sol.es" ∷ codes " ana@sol.es" ∷ [],
    (b';', codes " ana@sol.es", inr (inl refl), luis_free, refl, (refl, ana_free)),
    inr (inl refl),
  ),
  refl,
)

resolve_private_access-IsListed_example :
    (resolve_private_access runtime manganafer (some ana) env ≡ allowed)
    ↔ ((who : Identity) × (some ana ≡ some who) × IsListed runtime manganafer env who)
resolve_private_access-IsListed_example =
    resolve_private_access-IsListed runtime manganafer (some ana) env

ana-enters : resolve_private_access runtime manganafer (some ana) env ≡ allowed
ana-enters = resolve_private_access-IsListed_example.1 (ana, refl, ana-IsListed)

safe_relative_return_path-leaves_example :
    starts_with (safe_relative_return_path runtime dotted) (codes "//") ≡ true
unfolding is_reserved_auth_path
safe_relative_return_path-leaves_example =
    safe_relative_return_path-leaves runtime dotted dotted_url refl refl refl refl refl refl
