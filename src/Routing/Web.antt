-- ===== src/Routing/Web.antt =====
-- The requests, responses and header lists of the Fetch standard that the Worker's code works with.
-- Header names are in lower case, as `Headers` keeps them. The URL of a request is absolute and
-- parsed: an origin, a pathname and a search that is empty or begins with `?`.
use web_comunidad_solar.Prelude.{
  ℕ, Bool, true, false, Option, none, some, List, [], ◌∷◌, ◌++◌, Text, codes, ◌===◌, if◌then◌else◌,
  String,
}

abbrev pub Headers : Type 0
Headers = List (Text × Text)

pub record Request : Type 0 where
  pub origin : Text
  pub pathname : Text
  pub search : Text

-- `response.body` is what a client reads; `null` is `none`.
pub record Response : Type 0 where
  pub status : ℕ
  pub status_text : Text
  pub headers : Headers
  pub body : Option Text

abbrev pub header : String → String → Text × Text
header name value = (codes name, codes value)

-- The values of one name are read joined by a comma.
abbrev pub and_then : Text → Option Text → Text
and_then v none = v
and_then v (some w) = v ++ (codes ", " ++ w)

-- `headers.get(name)`
abbrev pub get : Text → Headers → Option Text
get name [] = none
get name ((n, v) ∷ hs) =
    let rest = get name hs in if name === n then some (and_then v rest) else rest

-- `headers.has(name)`
abbrev pub has : Text → Headers → Bool
has name [] = false
has name ((n, v) ∷ hs) = let rest = has name hs in if name === n then true else rest

-- `headers.delete(name)`
abbrev pub delete : Text → Headers → Headers
delete name [] = []
delete name ((n, v) ∷ hs) = let rest = delete name hs in if name === n then rest else (n, v) ∷ rest

-- `headers.set(name, value)`: the first entry of the name takes the value and the others go.
abbrev pub set : Text → Text → Headers → Headers
set name value [] = (name, value) ∷ []
set name value ((n, v) ∷ hs) =
    let rest = set name value hs in
    let others = delete name hs in if name === n then (name, value) ∷ others else (n, v) ∷ rest
