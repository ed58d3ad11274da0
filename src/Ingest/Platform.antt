-- ===== src/Ingest/Platform.antt =====
-- What the program takes from the runtime and does not implement: SHA-256 of node:crypto, and the
-- language's readers of JSON texts and of dates.
use web_comunidad_solar.Prelude.{ℕ, Option, Text}
use web_comunidad_solar.Json.{Json, canonical_json}

pub record Platform : Type 0 where
  -- `createHash("sha256").update(text).digest("hex")`
  pub sha256 : Text → Text
  -- `JSON.parse`; `none` where it throws
  pub json_parse : Text → Option Json
  -- `Date.parse` in milliseconds since the earliest date that a `Date` holds; `none` for `NaN`
  pub date_parse : Text → Option ℕ

-- src/ingest/canonical-json.ts
unfoldable pub sha256_canonical : Platform → Json → Text
sha256_canonical p v = p.sha256 (canonical_json v)
