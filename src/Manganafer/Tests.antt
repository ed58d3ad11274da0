-- ===== src/Manganafer/Tests.antt =====
-- One visitor's form, sent and exported.
use web_comunidad_solar.Prelude.{
  ◌≡◌, refl, true, false, none, some, List, [], ◌∷◌, Text, codes, trim,
}
use web_comunidad_solar.Json.{Json, boolean, string, object, field, end}
use web_comunidad_solar.Routing.Legacy.{to_lower_case}
use web_comunidad_solar.Auth.{
  Runtime, Identity, AccessEnv, manganafer, normalize_email, resolve_private_access,
  configured_emails,
}
use web_comunidad_solar.Auth.Access.{IsListed}
use web_comunidad_solar.Manganafer.Csv.{
  InterestExportRow, csv_labels, csv_values, to_interest_csv, csv_response,
  handle_manganafer_interest_export,
}
use web_comunidad_solar.Manganafer.Csv.Reader.{read_csv}
use web_comunidad_solar.Manganafer.Csv.RoundTrip.{handle_manganafer_interest_export-IsListed}
use web_comunidad_solar.Manganafer.Interest.{
  neighbor, ManganaferInterest, field_value, text, is_email, is_phone, is_postal_code, fields_of,
  validate_kind, validate_fields, validate_interest_payload,
}
use web_comunidad_solar.Manganafer.Form.{
  Stream, done, chunk, body, InterestRequest, Dependencies, read_chunks, read_request_body,
  handle_interest_request,
}
use web_comunidad_solar.Manganafer.Form.Stored.{
  IsFounded, read_request_body-whole, handle_interest_request-IsFounded,
}

abbrev sent : Json
sent = object (
    field (codes "kind") (string (codes "neighbor")) (
      field (codes "firstName") (string (codes " Ana ")) (
        field (codes "lastName") (string (codes "Ruiz")) (
          field (codes "email") (string (codes "Ana@Sol.es")) (
            field (codes "phone") (string (codes "600 111 222")) (
              field (codes "municipality") (string (codes "Lorca")) (
                field (codes "postalCode") (string (codes "30800")) (
                  field (codes "participantProfile") (string (codes "hogar"))
                    (field (codes "privacyAccepted") (boolean true) end)))))))))

abbrev kept : ManganaferInterest
kept = record {
  kind = neighbor;
  first_name = codes "Ana";
  last_name = codes "Ruiz";
  email = codes "ana@sol.es";
  phone = codes "600 111 222";
  municipality = codes "Lorca";
  postal_code = codes "30800";
  address = [];
  participant_profile = codes "hogar";
  roof_surface_range = [];
  roof_relationship = [];
  message = [];
  consent_version = codes "2026-07-31";
  source = codes "manganafer-landing";
  status = codes "nuevo";
}

abbrev deps : Dependencies
deps = record {
  number_above = λ t n. false;
  decode = λ bytes. bytes;
  json_parse = λ t. some sent;
  to_lower_case = to_lower_case;
  ensure_storage = true;
  persist_interest = λ i. some (1, codes "neighbor");
}

abbrev stream : Stream
stream = chunk (codes "{\"kind\"") (chunk (codes ":\"neighbor\"}") done)

abbrev request : InterestRequest
request = record { content_length = none; body = some stream }

request-calls : (handle_interest_request deps request).1 ≡ kept ∷ []
unfolding handle_interest_request read_request_body read_chunks validate_interest_payload
    validate_fields validate_kind fields_of field_value text is_email is_phone is_postal_code trim
request-calls = refl

abbrev no_more : List ManganaferInterest
no_more = []

handle_interest_request-IsFounded_example : IsFounded deps request kept × (no_more ≡ [])
handle_interest_request-IsFounded_example =
    handle_interest_request-IsFounded deps kept no_more request request-calls

read_request_body-whole_example :
    read_request_body (some stream) ≡ body (codes "{\"kind\":\"neighbor\"}")
read_request_body-whole_example = read_request_body-whole stream refl

abbrev row : InterestExportRow
row = record {
  created_at = codes "2026-07-31T12:00:00.000Z";
  kind = codes "neighbor";
  first_name = codes "Ana";
  last_name = codes "Ruiz \"la Roja\", hija";
  email = codes "ana@sol.es";
  phone = codes "600 111 222";
  municipality = codes "Lorca";
  postal_code = codes "30800";
  address = [];
  participant_profile = codes "hogar";
  roof_surface_range = [];
  roof_relationship = [];
  message = codes "una\r\ndos";
  status = codes "nuevo";
  consent_version = codes "2026-07-31";
}

abbrev runtime : Runtime
runtime = record {
  to_lower_case = to_lower_case;
  decode_uri_component = λ t. some t;
  encode_uri_component = λ t. t;
  parse_url = λ t. none;
}

abbrev ana : Identity
ana = record { display_name = codes "Ana"; email = codes "Ana@Sol.es"; full_name = none }

abbrev env : AccessEnv
env = record {
  socios_allowed_emails = none;
  team_allowed_emails = none;
  manganafer_allowed_emails = some (codes "ana@sol.es");
}

abbrev file_name : Text
file_name = codes "attachment; filename=\"manganafer-interesados-2026-07-31.csv\""

exported :
    handle_manganafer_interest_export runtime
      (some ana)
      env
      (row ∷ [])
      (codes "2026-07-31T12:00:00.000Z")
    ≡ csv_response file_name (to_interest_csv (row ∷ []))
unfolding handle_manganafer_interest_export resolve_private_access configured_emails normalize_email
    trim
exported = refl

handle_manganafer_interest_export-IsListed_example :
    ((who : Identity) × (some ana ≡ some who) × IsListed runtime manganafer env who)
    × (read_csv (to_interest_csv (row ∷ [])) ≡ some (csv_labels ∷ csv_values row ∷ []))
handle_manganafer_interest_export-IsListed_example =
    handle_manganafer_interest_export-IsListed runtime (some ana) env (row ∷ [])
      (codes "2026-07-31T12:00:00.000Z") file_name (to_interest_csv (row ∷ [])) exported
