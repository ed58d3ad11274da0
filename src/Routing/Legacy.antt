-- ===== src/Routing/Legacy.antt =====
-- src/lib/routing/legacy.ts: the look-ups of a path in the inventory of the old site. A pathname
-- is that of a parsed URL, so it is ASCII and `toLowerCase` moves A to Z only.
pub mod Lookup
pub mod Coverage
use web_comunidad_solar.Prelude.{
  ℕ, ◌+◌, Bool, true, false, ◌||◌, Option, none, some, List, [], ◌∷◌, map, any, Text, codes, ◌===◌,
  ◌==◌, starts_with, member, is_upper, if◌then◌else◌,
}
use web_comunidad_solar.Routing.Redirects.{LegacyRedirect, legacy_redirects}
use web_comunidad_solar.Routing.Inventory.{legacy_gone_paths}

abbrev pub lower : ℕ → ℕ
lower c = if is_upper c then c + 32 else c

-- `text.toLowerCase()`
abbrev pub to_lower_case : Text → Text
to_lower_case t = map lower t

-- A slash goes when nothing is kept behind it.
abbrev pub keep_before : ℕ → Text → Text
keep_before c [] = if c == b'/' then [] else c ∷ []
keep_before c (d ∷ t) = c ∷ d ∷ t

-- `text.replace(/\/+$/, "")`
abbrev pub strip_slashes : Text → Text
strip_slashes [] = []
strip_slashes (c ∷ t) = keep_before c (strip_slashes t)

unfoldable pub normalize_legacy_path : Text → Text
normalize_legacy_path pathname =
    if pathname === codes "/" then pathname else to_lower_case (strip_slashes pathname)

-- `map.get(key)` for a map built from the entries: the last entry of a key wins.
abbrev pub lookup : Text → List LegacyRedirect → Option Text
lookup key [] = none
lookup key (r ∷ rs) = elim (lookup key rs) [
  | some to ↦ some to
  | none ↦ if key === r.from then some r.to else none
]

unfoldable pub get_legacy_redirect : Text → Option Text
get_legacy_redirect pathname = lookup (normalize_legacy_path pathname) legacy_redirects

abbrev gone_prefixes : List Text
gone_prefixes = codes "/blog/elementor-hf/" ∷ []

unfoldable pub is_legacy_gone_path : Text → Bool
is_legacy_gone_path pathname =
    let normalized_path = normalize_legacy_path pathname in
    member normalized_path legacy_gone_paths
    || any (λ prefix. starts_with normalized_path prefix) gone_prefixes
