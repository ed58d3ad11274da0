-- ===== src/Ingest/Planning/Mode.antt =====
-- src/ingest/planning/mode.ts and catalog.ts: what a plan takes from the content of a request.
use web_comunidad_solar.Prelude.{
  ℕ, Bool, true, false, not, Option, none, some, List, [], ◌∷◌, Text, codes, ◌==◌, is_empty, any,
  drop, trim_start, is_digit, is_lower, is_upper, starts_with, if◌then◌else◌, ◌&&◌, ◌||◌,
}
use web_comunidad_solar.Ingest.Plan.{SelectedMode, blocks, freeform, hybrid}
use web_comunidad_solar.Ingest.Planning.Request.{
  NormalizedRequest, InputKind, request, page, CompositionMode, auto, chosen,
}

abbrev is_letter : ℕ → Bool
is_letter c = is_lower c || is_upper c

-- `\w`
abbrev is_word : ℕ → Bool
is_word c = is_letter c || is_digit c || c == b'_'

abbrev is_word_at : Option ℕ → Bool
is_word_at none = false
is_word_at (some c) = is_word c

abbrev first_of : Text → Option ℕ
first_of [] = none
first_of (c ∷ t) = some c

abbrev differ : Bool → Bool → Bool
differ true b = not b
differ false b = b

-- `\b` between the unit before a text and the text
abbrev is_boundary : Option ℕ → Text → Bool
is_boundary before t = differ (is_word_at before) (is_word_at (first_of t))

abbrev is_quote : ℕ → Bool
is_quote c = c == b'"' || c == b'\''

-- A name of the site's chrome as a word at the front of a text, with a quote somewhere behind it.
abbrev names_chrome : Option ℕ → Text → Bool
names_chrome before t =
    is_boundary before t
    && ((starts_with t (codes "site-root")
          && is_boundary (some b't') (drop 9 t)
          && any is_quote (drop 9 t))
        || (starts_with t (codes "site-header")
            && is_boundary (some b'r') (drop 11 t)
            && any is_quote (drop 11 t)))

-- [^"']*\b(?:site-root|site-header)\b[^"']*["']
abbrev quotes_chrome : Option ℕ → Text → Bool
quotes_chrome before [] = false
quotes_chrome before (c ∷ t) =
    let later = quotes_chrome (some c) t in
    names_chrome before (c ∷ t) || (not (is_quote c) && later)

-- ["'] and what follows it
abbrev opens_chrome : Text → Bool
opens_chrome [] = false
opens_chrome (c ∷ t) = is_quote c && quotes_chrome (some c) t

abbrev assigns_chrome : Text → Bool
assigns_chrome [] = false
assigns_chrome (c ∷ t) = c == b'=' && opens_chrome (trim_start t)

abbrev names_layout : Option ℕ → Text → Bool
names_layout before t =
    is_boundary before t
    && starts_with t (codes "SiteLayout")
    && is_boundary (some b't') (drop 10 t)

abbrev chrome_behind : Option ℕ → Text → Bool
chrome_behind before [] = false
chrome_behind before (c ∷ t) =
    let later = chrome_behind (some c) t in
    (starts_with (c ∷ t) (codes "class") && assigns_chrome (trim_start (drop 5 (c ∷ t))))
    || names_layout before (c ∷ t)
    || later

-- `siteChrome.test(content)`
unfoldable pub has_site_chrome : Text → Bool
has_site_chrome t = chrome_behind none t

abbrev starts_letter : Text → Bool
starts_letter [] = false
starts_letter (c ∷ t) = is_letter c

abbrev closes_tag : Text → Bool
closes_tag t = starts_letter t || starts_with t (codes ">")

-- What may follow a `<`
abbrev opens_markup : Text → Bool
opens_markup [] = false
opens_markup (c ∷ t) =
    is_letter c
    || c == b'>'
    || (c == b'/' && closes_tag t)
    || (c == b'!' && (starts_with t (codes "--") || starts_letter t))

-- `markup.test(content)`
unfoldable pub has_markup : Text → Bool
has_markup [] = false
has_markup (c ∷ t) = (c == b'<' && opens_markup t) || has_markup t

abbrev automatic : InputKind → Text → SelectedMode
automatic request content =
    if has_site_chrome content
    then hybrid
    else if not (has_markup content)
    then blocks
    else freeform
automatic page content = if has_site_chrome content then hybrid else freeform

abbrev mode_of : CompositionMode → InputKind → Text → SelectedMode
mode_of auto kind content = automatic kind content
mode_of (chosen m) kind content = m

unfoldable pub select_mode : NormalizedRequest → SelectedMode
select_mode r = mode_of r.mode r.input_kind r.content

pub record CatalogSelection : Type 0 where
  pub reused : List Text
  pub created : List Text
  pub islands : List Text

abbrev is_titled : Option Text → Bool
is_titled none = false
is_titled (some t) = true

unfoldable pub select_catalog : NormalizedRequest → CatalogSelection
select_catalog r = record {
  reused =
      if is_titled r.seo_title || not (is_empty r.content)
      then codes "SiteLayout" ∷ codes "PageHero" ∷ []
      else codes "SiteLayout" ∷ [];
  created = [];
  islands = [];
}
