-- ===== src/Ingest/Planning/Request.antt =====
-- The normalized request of a change (`NormalizedRequest` of src/ingest/domain.ts), the test that the
-- schema normalized-request makes of it, and `assertNormalizedRequest` of src/ingest/importers/common.ts.
use web_comunidad_solar.Prelude.{
  ℕ, ◌+◌, Bool, true, false, not, Option, none, some, List, [], ◌∷◌, Text, codes, ◌===◌, is_empty,
  all, length, leb, if◌then◌else◌, ◌&&◌,
}
use web_comunidad_solar.Json.{Json, nat, number, string, boolean, null}
use web_comunidad_solar.Json.Encode.{array_of, object_of, nullable}
use web_comunidad_solar.Auth.{PrivateArea, socios, equipo, manganafer}
use web_comunidad_solar.Ingest.Failure.{
  Result, ok, ◌>>◌, throw_if, request_invalid, request_hash_differs,
}
use web_comunidad_solar.Ingest.Platform.{Platform, sha256_canonical}
use web_comunidad_solar.Ingest.Schema.{is_hash, is_change_id, is_target_path}
use web_comunidad_solar.Ingest.Plan.{SelectedMode, mode_name}

pub data InputKind : Type 0 where
  request page : InputKind

-- `CompositionMode`, of which `SelectedMode` leaves `auto` out
pub data CompositionMode : Type 0 where
  auto : CompositionMode
  chosen : SelectedMode → CompositionMode

pub record RequestAsset : Type 0 where
  pub path : Text
  pub sha256 : Text
  pub media_type : Text

pub record NormalizedRequest : Type 0 where
  pub change_id : Text
  pub input_kind : InputKind
  pub intent : Text
  pub audience : Option Text
  pub target_path : Text
  pub mode : CompositionMode
  pub content : Text
  pub claims : List Text
  pub references : List Text
  pub assets : List RequestAsset
  pub seo_title : Option Text
  pub seo_description : Option Text
  pub seo_index : Bool
  pub privacy_private : Bool
  pub privacy_area : Option PrivateArea
  pub allowed_external_links : List Text
  pub acceptance_criteria : List Text
  pub input_sha256 : Text

abbrev pub input_kind_name : InputKind → Text
input_kind_name request = codes "request"
input_kind_name page = codes "page"

abbrev composition_mode_name : CompositionMode → Text
composition_mode_name auto = codes "auto"
composition_mode_name (chosen m) = mode_name m

abbrev pub private_area_name : PrivateArea → Text
private_area_name socios = codes "socios"
private_area_name equipo = codes "equipo"
private_area_name manganafer = codes "manganafer"

abbrev area_json : Option PrivateArea → Json
area_json none = null
area_json (some area) = string (private_area_name area)

abbrev asset_json : RequestAsset → Json
asset_json a = object_of (
    (codes "path", string a.path)
    ∷ (codes "sha256", string a.sha256)
    ∷ (codes "mediaType", string a.media_type)
    ∷ [])

-- `withoutHash`
unfoldable pub unhashed_request_json : NormalizedRequest → Json
unhashed_request_json r = object_of (
    (codes "schemaVersion", number (nat 1))
    ∷ (codes "changeId", string r.change_id)
    ∷ (codes "inputKind", string (input_kind_name r.input_kind))
    ∷ (codes "intent", string r.intent)
    ∷ (codes "audience", nullable r.audience)
    ∷ (codes "targetPath", string r.target_path)
    ∷ (codes "mode", string (composition_mode_name r.mode))
    ∷ (codes "content", string r.content)
    ∷ (codes "claims", array_of string r.claims)
    ∷ (codes "references", array_of string r.references)
    ∷ (codes "assets", array_of asset_json r.assets)
    ∷ (
      codes "seo",
      object_of (
          (codes "title", nullable r.seo_title)
          ∷ (codes "description", nullable r.seo_description)
          ∷ (codes "index", boolean r.seo_index)
          ∷ []),
    )
    ∷ (
      codes "privacy",
      object_of (
          (codes "private", boolean r.privacy_private)
          ∷ (codes "area", area_json r.privacy_area)
          ∷ []),
    )
    ∷ (codes "allowedExternalLinks", array_of string r.allowed_external_links)
    ∷ (codes "acceptanceCriteria", array_of string r.acceptance_criteria)
    ∷ [])

abbrev is_high : ℕ → Bool
is_high c = leb 0xd800 c && leb c 0xdbff

abbrev is_low : ℕ → Bool
is_low c = leb 0xdc00 c && leb c 0xdfff

-- The characters of a text, where a high unit and a low one behind it count as one; the first argument
-- says whether a high unit that is not yet paired stands before.
abbrev characters_behind : Bool → Text → ℕ
characters_behind pending [] = 0
characters_behind pending (c ∷ t) =
    let paired = characters_behind false t in
    let counted = 1 + characters_behind (is_high c) t in
    if pending && is_low c then paired else counted

abbrev is_criterion : Text → Bool
is_criterion t = not (is_empty t) && leb (characters_behind false t) 500

abbrev is_private : Bool → Option PrivateArea → Bool
is_private true none = false
is_private true (some area) = true
is_private false none = true
is_private false (some area) = false

abbrev has_hash : RequestAsset → Bool
has_hash a = is_hash a.sha256

-- `validateSchema("normalized-request", request)`
unfoldable pub is_normalized_request : NormalizedRequest → Bool
is_normalized_request r =
    is_change_id r.change_id
    && is_target_path r.target_path
    && all has_hash r.assets
    && is_private r.privacy_private r.privacy_area
    && leb 1 (length r.acceptance_criteria)
    && leb (length r.acceptance_criteria) 50
    && all is_criterion r.acceptance_criteria
    && is_hash r.input_sha256

unfoldable pub assert_normalized_request : Platform → NormalizedRequest → Result NormalizedRequest
assert_normalized_request p r = do
  throw_if (not (is_normalized_request r)) request_invalid
  throw_if (not (r.input_sha256 === sha256_canonical p (unhashed_request_json r)))
      request_hash_differs
  ok r
