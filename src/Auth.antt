-- ===== src/Auth.antt =====
-- src/lib/auth/identity.ts and src/lib/auth/private-area.ts: who asks, what is open to them, and where
-- they are sent after signing in.
pub mod Access
pub mod ReturnPath
mod Tests
use web_comunidad_solar.Prelude.{
  ℕ, Bool, true, false, not, ◌&&◌, ◌||◌, Option, none, some, List, [], ◌∷◌, ◌++◌, map, Text, codes,
  ◌===◌, ◌==◌, starts_with, member, is_empty, trim, if◌then◌else◌,
}
use web_comunidad_solar.Routing.Web.{Headers, get}

-- A parsed URL.
pub record Url : Type 0 where
  pub origin : Text
  pub pathname : Text
  pub search : Text
  pub hash : Text

-- What the runtime's own functions do with texts of any script and with URLs.
pub record Runtime : Type 0 where
  -- `text.toLowerCase()`
  pub to_lower_case : Text → Text
  -- `decodeURIComponent`; `none` where it throws
  pub decode_uri_component : Text → Option Text
  -- `encodeURIComponent`
  pub encode_uri_component : Text → Text
  -- `new URL(value, "https://app.local")`: origin, pathname, search and hash; `none` where it throws
  pub parse_url : Text → Option Url

pub record Identity : Type 0 where
  pub display_name : Text
  pub email : Text
  pub full_name : Option Text

pub data PrivateArea : Type 0 where
  socios equipo manganafer : PrivateArea

pub record AccessEnv : Type 0 where
  pub socios_allowed_emails : Option Text
  pub team_allowed_emails : Option Text
  pub manganafer_allowed_emails : Option Text

pub data PrivateAccessDecision : Type 0 where
  allowed anonymous denied unconfigured : PrivateAccessDecision

abbrev pub or_empty : Option Text → Text
or_empty none = []
or_empty (some t) = t

-- `env[accessVariables[area]]`
abbrev pub access_variable : PrivateArea → AccessEnv → Option Text
access_variable socios env = env.socios_allowed_emails
access_variable equipo env = env.team_allowed_emails
access_variable manganafer env = env.manganafer_allowed_emails

-- A binding of the Worker: a string, or something else.
pub data Binding : Type 0 where
  text_binding : Text → Binding
  other_binding : Binding

abbrev text_of : Option Binding → Option Text
text_of (some (text_binding t)) = some t
text_of _ = none

unfoldable pub read_access_env : (Text → Option Binding) → AccessEnv
read_access_env bindings = record {
  socios_allowed_emails = text_of (bindings (codes "SOCIOS_ALLOWED_EMAILS"));
  team_allowed_emails = text_of (bindings (codes "TEAM_ALLOWED_EMAILS"));
  manganafer_allowed_emails = text_of (bindings (codes "MANGANAFER_ALLOWED_EMAILS"));
}

abbrev is_separator : ℕ → Bool
is_separator c = c == b',' || c == b';' || c == 10

abbrev onto_first : ℕ → List Text → List Text
onto_first c [] = (c ∷ []) ∷ []
onto_first c (t ∷ ts) = (c ∷ t) ∷ ts

-- `value.split(/[,;\n]/)`
abbrev pub split_entries : Text → List Text
split_entries [] = [] ∷ []
split_entries (c ∷ t) =
    let rest = split_entries t in if is_separator c then [] ∷ rest else onto_first c rest

-- `entries.filter(Boolean)`
abbrev pub non_empty : List Text → List Text
non_empty [] = []
non_empty (t ∷ ts) = let rest = non_empty ts in if is_empty t then rest else t ∷ rest

abbrev decide : List Text → Text → PrivateAccessDecision
decide [] email = unconfigured
decide (e ∷ es) email = if member email (e ∷ es) then allowed else denied

abbrev app_origin : Text
app_origin = codes "https://app.local"

abbrev sign_in_route : Text
sign_in_route = codes "/signin-with-chatgpt"

abbrev sign_out_route : Text
sign_out_route = codes "/signout-with-chatgpt"

unfoldable pub is_reserved_auth_path : Text → Bool
is_reserved_auth_path pathname =
    pathname === sign_in_route || pathname === sign_out_route || pathname === codes "/callback"

module _ (rt : Runtime) where
  -- `encodedFullName && … ? safeDecodeURIComponent(encodedFullName) : null`
  abbrev full_name_of : Option Text → Option Text → Option Text
  full_name_of none encoding = none
  full_name_of (some name) none = none
  full_name_of (some name) (some encoding) =
      if not (is_empty name) && encoding === codes "percent-encoded-utf-8"
      then rt.decode_uri_component name
      else none

  abbrev or_email : Option Text → Text → Text
  or_email none email = email
  or_email (some name) email = name

  abbrev identity_of : Option Text → Option Text → Option Identity
  identity_of none full_name = none
  identity_of (some email) full_name =
      if is_empty email
      then none
      else some
          (record { display_name = or_email full_name email; email = email; full_name = full_name })

  unfoldable pub read_identity : Headers → Option Identity
  read_identity headers = identity_of (get (codes "oai-authenticated-user-email") headers) (
      full_name_of (get (codes "oai-authenticated-user-full-name") headers)
        (get (codes "oai-authenticated-user-full-name-encoding") headers))

  unfoldable pub normalize_email : Text → Text
  normalize_email email = rt.to_lower_case (trim email)

  unfoldable pub configured_emails : PrivateArea → AccessEnv → List Text
  configured_emails area env =
      non_empty (map normalize_email (split_entries (or_empty (access_variable area env))))

  unfoldable pub resolve_private_access :
      PrivateArea → Option Identity → AccessEnv → PrivateAccessDecision
  resolve_private_access area none env = anonymous
  resolve_private_access area (some identity) env =
      decide (configured_emails area env) (normalize_email identity.email)

  abbrev path_of_url : Option Url → Text
  path_of_url none = codes "/"
  path_of_url (some url) =
      if not (url.origin === app_origin) || is_reserved_auth_path url.pathname
      then codes "/"
      else url.pathname ++ url.search ++ url.hash

  unfoldable pub safe_relative_return_path : Text → Text
  safe_relative_return_path value =
      if not (starts_with value (codes "/")) || starts_with value (codes "//")
      then codes "/"
      else path_of_url (rt.parse_url value)

  unfoldable pub sign_in_path : Text → Text
  sign_in_path return_to =
      sign_in_route
      ++ codes "?return_to="
      ++ rt.encode_uri_component (safe_relative_return_path return_to)

  unfoldable pub sign_out_path : Text → Text
  sign_out_path return_to =
      sign_out_route
      ++ codes "?return_to="
      ++ rt.encode_uri_component (safe_relative_return_path return_to)
