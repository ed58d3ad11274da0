-- ===== src/Manganafer/Csv.antt =====
-- src/lib/manganafer/csv.ts: the export of the collected interests as a CSV file.
pub mod Reader
pub mod RoundTrip
use web_comunidad_solar.Prelude.{
  ℕ, Bool, true, false, Option, none, some, List, [], ◌∷◌, ◌++◌, map, Text, codes, ◌==◌, join, take,
  if◌then◌else◌,
}
use web_comunidad_solar.Auth.{
  Runtime, Identity, AccessEnv, PrivateAccessDecision, allowed, manganafer, resolve_private_access,
}

pub record InterestExportRow : Type 0 where
  pub created_at : Text
  pub kind : Text
  pub first_name : Text
  pub last_name : Text
  pub email : Text
  pub phone : Text
  pub municipality : Text
  pub postal_code : Text
  pub address : Text
  pub participant_profile : Text
  pub roof_surface_range : Text
  pub roof_relationship : Text
  pub message : Text
  pub status : Text
  pub consent_version : Text

-- The labels of `csvColumns`.
abbrev pub csv_labels : List Text
csv_labels =
    codes "Fecha"
    ∷ codes "Tipo"
    ∷ codes "Nombre"
    ∷ codes "Apellidos"
    ∷ codes "Email"
    ∷ codes "Teléfono"
    ∷ codes "Municipio o diputación"
    ∷ codes "Código postal"
    ∷ codes "Dirección o zona"
    ∷ codes "Perfil participante"
    ∷ codes "Superficie cubierta"
    ∷ codes "Relación con cubierta"
    ∷ codes "Mensaje"
    ∷ codes "Estado"
    ∷ codes "Consentimiento"
    ∷ []

-- The values of a row in the order of `csvColumns`.
abbrev pub csv_values : InterestExportRow → List Text
csv_values r =
    r.created_at ∷ r.kind ∷ r.first_name ∷ r.last_name ∷ r.email ∷ r.phone ∷ r.municipality
    ∷ r.postal_code ∷ r.address ∷ r.participant_profile ∷ r.roof_surface_range ∷ r.roof_relationship
    ∷ r.message ∷ r.status ∷ r.consent_version ∷ []

-- `text.replaceAll('"', '""')`
unfoldable pub double_quotes : Text → Text
double_quotes [] = []
double_quotes (c ∷ t) =
    let rest = double_quotes t in if c == b'"' then b'"' ∷ b'"' ∷ rest else c ∷ rest

unfoldable pub csv_cell : Text → Text
csv_cell value = b'"' ∷ (double_quotes value ++ b'"' ∷ [])

unfoldable pub csv_line : List Text → Text
csv_line values = join (codes ",") (map csv_cell values)

abbrev row_line : InterestExportRow → Text
row_line r = csv_line (csv_values r)

-- The file begins with a byte order mark.
unfoldable pub to_interest_csv : List InterestExportRow → Text
to_interest_csv rows = 0xfeff ∷ join (codes "\r\n") (csv_line csv_labels ∷ map row_line rows)

pub data ExportResponse : Type 0 where
  error_response : ℕ → Text → ExportResponse
  csv_response : Text → Text → ExportResponse

abbrev export_for : PrivateAccessDecision → List InterestExportRow → Text → ExportResponse
export_for allowed rows now =
    csv_response
      (codes "attachment; filename=\"manganafer-interesados-" ++ take 10 now ++ codes ".csv\"")
      (to_interest_csv rows)
export_for _ rows now = error_response 403 (codes "Acceso no autorizado.")

-- `now` is the ISO text of the date; `rows` is what `listInterests` returns.
unfoldable pub handle_manganafer_interest_export :
    Runtime → Option Identity → AccessEnv → List InterestExportRow → Text → ExportResponse
handle_manganafer_interest_export rt none env rows now =
    error_response 401 (codes "Necesitas identificarte.")
handle_manganafer_interest_export rt (some identity) env rows now =
    export_for (resolve_private_access rt manganafer (some identity) env) rows now
