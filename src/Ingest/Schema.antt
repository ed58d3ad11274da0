-- ===== src/Ingest/Schema.antt =====
-- The patterns that the schemas of schemas/ingestion share. A schema is modelled as the test that it
-- makes of a value of the type that the source declares for it.
use web_comunidad_solar.Prelude.{
  ℕ, Bool, false, not, Option, none, some, List, [], ◌∷◌, Text, codes, ◌===◌, ◌==◌, leb, length,
  all, any, first, last, is_lower, is_digit, is_empty, split, ◌&&◌, ◌||◌,
}
unfoldable pub use web_comunidad_solar.Ingest.Journal.Events.{is_hash}

abbrev pub is_alphanumeric : ℕ → Bool
is_alphanumeric c = is_lower c || is_digit c

abbrev pub is_slug_unit : ℕ → Bool
is_slug_unit c = is_alphanumeric c || c == b'-'

abbrev pub starts_alphanumeric : Option ℕ → Bool
starts_alphanumeric none = false
starts_alphanumeric (some c) = is_alphanumeric c

-- /^[a-z0-9](?:[a-z0-9-]*[a-z0-9])?$/
abbrev pub is_slug : Text → Bool
is_slug t = all is_slug_unit t && starts_alphanumeric (first t) && starts_alphanumeric (last t)

-- /^[a-z0-9](?:[a-z0-9-]{1,62}[a-z0-9])$/
unfoldable pub is_change_id : Text → Bool
is_change_id t = is_slug t && leb 3 (length t) && leb (length t) 64

abbrev pub is_api : Text → Bool
is_api t = t === codes "api"

-- The segments of a path behind its first slash.
abbrev pub are_path_segments : List Text → Bool
are_path_segments [] = false
are_path_segments (root ∷ []) = false
are_path_segments (root ∷ s ∷ segments) =
    is_empty root && all is_slug (s ∷ segments) && not (any is_api (s ∷ segments))

-- The patterns of `targetPath`: a slash, or slugs each behind a slash, none of them `api`.
unfoldable pub is_target_path : Text → Bool
is_target_path t = t === codes "/" || are_path_segments (split b'/' t)
