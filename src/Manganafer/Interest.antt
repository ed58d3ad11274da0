-- ===== src/Manganafer/Interest.antt =====
-- src/lib/manganafer/interest.ts: the validation of what a visitor sent.
pub mod Validated
use web_comunidad_solar.Prelude.{
  ℕ, suc, Bool, true, false, not, ◌&&◌, ◌||◌, Option, none, some, List, [], ◌∷◌, ◌++◌, Text, codes,
  ◌===◌, ◌==◌, leb, ltb, all, length, take, trim, split, member, is_empty, is_digit, is_space,
  if◌then◌else◌,
}
use web_comunidad_solar.Json.{Json, string, boolean, object}
use web_comunidad_solar.Json.Decode.{own}

pub data InterestKind : Type 0 where
  neighbor roof : InterestKind

pub record ManganaferInterest : Type 0 where
  pub kind : InterestKind
  pub first_name : Text
  pub last_name : Text
  pub email : Text
  pub phone : Text
  pub municipality : Text
  pub postal_code : Text
  pub address : Text
  pub participant_profile : Text
  pub roof_surface_range : Text
  pub roof_relationship : Text
  pub message : Text
  pub consent_version : Text
  pub source : Text
  pub status : Text

pub data InterestValidationResult : Type 0 where
  valid : ManganaferInterest → InterestValidationResult
  invalid : Text → Text → InterestValidationResult

abbrev pub participant_profiles : List Text
participant_profiles = codes "hogar" ∷ codes "negocio" ∷ codes "asociacion" ∷ codes "otro" ∷ []

abbrev pub roof_surface_ranges : List Text
roof_surface_ranges =
    codes "menos-500" ∷ codes "500-1000" ∷ codes "1000-2000" ∷ codes "mas-2000" ∷ codes "no-se" ∷ []

abbrev pub roof_relationships : List Text
roof_relationships =
    codes "propietario" ∷ codes "representante" ∷ codes "arrendatario" ∷ codes "otro" ∷ []

unfoldable pub text : Option Json → ℕ → Text
text (some (string value)) maximum_length = take maximum_length (trim value)
text _ maximum_length = []

abbrev is_plain : ℕ → Bool
is_plain c = not (is_space c) && not (c == b'@')

-- A dot that is not the last character.
abbrev pub dot_before_end : Text → Bool
dot_before_end [] = false
dot_before_end (c ∷ t) = (c == b'.' && not (is_empty t)) || dot_before_end t

-- `[^\s@]+\.[^\s@]+` on the part behind the sign
abbrev pub inner_dot : Text → Bool
inner_dot [] = false
inner_dot (c ∷ t) = dot_before_end t

abbrev email_parts : List Text → Bool
email_parts (user ∷ domain ∷ []) =
    not (is_empty user) && all is_plain user && all is_plain domain && inner_dot domain
email_parts _ = false

-- /^[^\s@]+@[^\s@]+\.[^\s@]+$/
unfoldable pub is_email : Text → Bool
is_email value = email_parts (split b'@' value)

abbrev pub count_digits : Text → ℕ
count_digits [] = 0
count_digits (c ∷ t) = let rest = count_digits t in if is_digit c then suc rest else rest

unfoldable pub is_phone : Text → Bool
is_phone value = leb 9 (count_digits value)

-- /^\d{5}$/
unfoldable pub is_postal_code : Text → Bool
is_postal_code value = length value == 5 && all is_digit value

unfoldable pub field_value : Json → Text → Option Json
field_value (object fields) field = own field fields
field_value _ field = none

abbrev pub is_true : Option Json → Bool
is_true (some (boolean b)) = b
is_true _ = false

abbrev pub parse_kind : Text → Option InterestKind
parse_kind t =
    if t === codes "neighbor" then some neighbor else if t === codes "roof" then some roof else none

abbrev pub is_neighbor : InterestKind → Bool
is_neighbor neighbor = true
is_neighbor roof = false

-- The last checks, which depend on the kind, and the value.
unfoldable pub validate_kind : ManganaferInterest → InterestValidationResult
validate_kind i =
    if is_neighbor i.kind && not (member i.participant_profile participant_profiles)
    then invalid (codes "Indica si participaría un hogar o un negocio.")
        (codes "participantProfile")
    else if not (is_neighbor i.kind) && not (member i.roof_surface_range roof_surface_ranges)
    then invalid (codes "Indica la superficie aproximada de la cubierta.")
        (codes "roofSurfaceRange")
    else if not (is_neighbor i.kind) && not (member i.roof_relationship roof_relationships)
    then invalid (codes "Indica tu relación con la cubierta.") (codes "roofRelationship")
    else valid (record i {
      participant_profile = if is_neighbor i.kind then i.participant_profile else [];
      roof_surface_range = if is_neighbor i.kind then [] else i.roof_surface_range;
      roof_relationship = if is_neighbor i.kind then [] else i.roof_relationship;
    })

-- The checks of the fields that both kinds have.
unfoldable pub validate_fields : ManganaferInterest → Bool → InterestValidationResult
validate_fields i accepted =
    if is_empty i.first_name
    then invalid (codes "Indica tu nombre.") (codes "firstName")
    else if is_empty i.last_name
    then invalid (codes "Indica tus apellidos.") (codes "lastName")
    else if not (is_email i.email)
    then invalid (codes "Indica un correo electrónico válido.") (codes "email")
    else if not (is_phone i.phone)
    then invalid (codes "Indica un teléfono válido.") (codes "phone")
    else if is_empty i.municipality
    then invalid (codes "Indica tu municipio o diputación.") (codes "municipality")
    else if not (is_postal_code i.postal_code)
    then invalid (codes "Indica un código postal de cinco cifras.") (codes "postalCode")
    else if not accepted
    then invalid (codes "Necesitamos tu autorización para guardar los datos y contactarte.")
        (codes "privacyAccepted")
    else validate_kind i

-- `to_lower_case` is the runtime's `toLowerCase`.
module _ (to_lower_case : Text → Text) (payload : Json) where
  -- The fields of the payload, cut to their lengths, for a kind.
  unfoldable pub fields_of : InterestKind → ManganaferInterest
  fields_of kind = record {
    kind = kind;
    first_name = text (field_value payload (codes "firstName")) 80;
    last_name = text (field_value payload (codes "lastName")) 120;
    email = to_lower_case (text (field_value payload (codes "email")) 180);
    phone = text (field_value payload (codes "phone")) 40;
    municipality = text (field_value payload (codes "municipality")) 120;
    postal_code = text (field_value payload (codes "postalCode")) 5;
    address = text (field_value payload (codes "address")) 240;
    participant_profile = text (field_value payload (codes "participantProfile")) 40;
    roof_surface_range = text (field_value payload (codes "roofSurfaceRange")) 40;
    roof_relationship = text (field_value payload (codes "roofRelationship")) 40;
    message = text (field_value payload (codes "message")) 1200;
    consent_version = codes "2026-07-31";
    source = codes "manganafer-landing";
    status = codes "nuevo";
  }

  abbrev pub validate_for : Option InterestKind → InterestValidationResult
  validate_for none = invalid (codes "Elige cómo quieres participar.") (codes "kind")
  validate_for (some kind) =
      validate_fields (fields_of kind) (is_true (field_value payload (codes "privacyAccepted")))

  unfoldable pub validate_interest_payload : InterestValidationResult
  validate_interest_payload =
      validate_for (parse_kind (text (field_value payload (codes "kind")) 20))
