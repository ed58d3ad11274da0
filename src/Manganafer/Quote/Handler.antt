-- ===== src/Manganafer/Quote/Handler.antt =====
-- src/lib/manganafer/quote.ts: the handler of a request for a quote, with the calls of the services
-- that it makes.
use web_comunidad_solar.Prelude.{
  ℕ, ◌+◌, zero, suc, Bool, true, false, Option, none, some, List, [], ◌∷◌, ◌++◌, map, Text, codes,
  min, max, is_empty, if◌then◌else◌,
}
use web_comunidad_solar.Json.{Json, null, boolean, nat, number, string, object, Fields, end}
use web_comunidad_solar.Json.Decode.{own}
use web_comunidad_solar.Json.Encode.{object_of}
use web_comunidad_solar.Manganafer.Form.{
  InterestRequest, RequestBody, body, too_large, invalid_body, Stream, FormResponse, json_response,
  read_chunks, or_zero,
}
use web_comunidad_solar.Manganafer.Quote.Numbers.{Arithmetic, trimmed_string}
use web_comunidad_solar.Manganafer.Quote.Config.{
  ManganaferQuoteEnvironment, ManganaferQuoteConfig, get_manganafer_quote_config,
}
use web_comunidad_solar.Manganafer.Quote.Invoice.{
  normalize_cups, is_valid_cups, invoice_source, coordinate, factura_cliente,
  annualized_consumption,
}
use web_comunidad_solar.Manganafer.Quote.Distance.{nearest_plant_distance}
use web_comunidad_solar.Manganafer.Quote.Candidate.{
  QuoteCandidate, quote_candidate, is_positive, rank,
}

pub data ServiceCall : Type 0 where
  cups_call : Text → ServiceCall
  -- a call of the quoting service with a token, for a number of panels and with a body
  quote_call : Text → ℕ → Json → ServiceCall

-- What a call comes to: it fails, or it is answered, with `ok` and with the JSON of the answer, if it
-- has any.
pub data Answer : Type 0 where
  no_answer : Answer
  answer : Bool → Option Json → Answer

pub record QuoteRuntime (F : Type 0) : Type 0 where
  pub arithmetic : Arithmetic F
  -- `Number(text) > bound`
  pub number_above : Text → ℕ → Bool
  pub decode : List ℕ → Text
  -- `JSON.parse`; `none` where it throws
  pub json_parse : Text → Option Json
  pub to_upper_case : Text → Text
  -- `encodeURIComponent`
  pub encode : Text → Text
  pub environment : ManganaferQuoteEnvironment
  pub fetcher : ServiceCall → Answer

abbrev pub Outcome : Type 0
Outcome = FormResponse × List ServiceCall

abbrev pub maximum_body_bytes : ℕ
maximum_body_bytes = 4096

-- `readJsonBody`
unfoldable pub read_json_body : Option Stream → RequestBody
read_json_body none = invalid_body
read_json_body (some stream) = read_chunks maximum_body_bytes [] stream

abbrev refusal : ℕ → Text → FormResponse
refusal status error =
    json_response status
      (object_of ((codes "ok", boolean false) ∷ (codes "error", string error) ∷ []))

abbrev cups_refusal : Text → FormResponse
cups_refusal error = json_response 400 (
    object_of (
      (codes "ok", boolean false)
      ∷ (codes "field", string (codes "cups"))
      ∷ (codes "error", string error)
      ∷ []))

abbrev request_too_large : FormResponse
request_too_large = refusal 413 (codes "La solicitud es demasiado grande.")

abbrev unreadable : FormResponse
unreadable = refusal 400 (codes "No hemos podido leer el CUPS.")

abbrev pub service_failure : FormResponse
service_failure = refusal 502 (
    codes
      "No hemos podido preparar la estimación en este momento. Inténtalo de nuevo en unos minutos.")

abbrev pub json_or_empty : Option Json → Json
json_or_empty none = object end
json_or_empty (some v) = v

abbrev pub latitude_keys : List Text
latitude_keys =
    codes "suministro_lat" ∷ codes "latitud_suministro" ∷ codes "latitude" ∷ codes "lat" ∷ []

abbrev pub longitude_keys : List Text
longitude_keys =
    codes "suministro_lon"
    ∷ codes "suministro_lng"
    ∷ codes "longitud_suministro"
    ∷ codes "longitude"
    ∷ codes "lon"
    ∷ codes "lng"
    ∷ []

abbrev detail_or_default : Text → Text
detail_or_default detail =
    if is_empty detail
    then codes "No hemos podido consultar ese CUPS. Comprueba que está bien escrito."
    else detail

module _ {F : Type 0} (r : QuoteRuntime F) where
  abbrev pub a : Arithmetic F
  a = r.arithmetic

  -- The distance as an answer has it: in tens of metres.
  abbrev distance_members : F → List (Text × Json)
  distance_members distance =
      (
        codes "distanceMetres",
        a.json_of (
            a.multiply (a.round (a.divide distance (a.literal (codes "10"))))
              (a.literal (codes "10"))),
      )
      ∷ (codes "maximumCoverageMetres", number (nat 1000))
      ∷ []

  abbrev pub verdict : List (Text × Json) → F → List (Text × Json) → FormResponse
  verdict members distance more =
      json_response 200
        (object_of ((codes "ok", boolean true) ∷ members ++ (distance_members distance ++ more)))

  abbrev pub estimate_json : QuoteCandidate F → ManganaferQuoteConfig F → Json
  estimate_json c config = object_of (
      (codes "panels", number (nat c.panels))
      ∷ (codes "annualSaving", a.json_of c.annual_saving)
      ∷ (codes "monthlySaving", a.json_of c.monthly_saving)
      ∷ (codes "savingPercentage", a.json_of c.saving_percentage)
      ∷ (codes "currentAnnualBill", a.json_of c.current_annual_bill)
      ∷ (codes "estimatedAnnualBill", a.json_of c.estimated_annual_bill)
      ∷ (codes "projectSaving", a.json_of c.project_saving)
      ∷ (codes "monthlyFee", a.json_of c.monthly_fee)
      ∷ (codes "annualSolarEnergyKwh", a.json_of c.annual_solar_energy_kwh)
      ∷ (codes "projectYears", number (nat config.project_years))
      ∷ [])

  abbrev community_json : ManganaferQuoteConfig F → Json
  community_json config = object_of (
      (codes "ce_nombre", string (codes "Manganáfer"))
      ∷ (codes "ce_status", string (codes "Waiting list"))
      ∷ (codes "cuota_alquiler_mes", a.json_of config.monthly_panel_fee)
      ∷ (codes "cuota_alquiler_sin_iva", a.json_of config.monthly_panel_fee_without_vat)
      ∷ (codes "iva", a.json_of config.vat)
      ∷ (codes "paneles_disponibles", number (nat config.available_panels))
      ∷ (codes "produccion_anual_panel_kwh", a.json_of config.annual_panel_production_kwh)
      ∷ (codes "descuento", a.json_of config.discount)
      ∷ (codes "tipo_panel_w", a.json_of config.panel_power_w)
      ∷ (codes "degradacion_solar", a.json_of config.annual_degradation)
      ∷ [])

  unfoldable pub quoting_call : ManganaferQuoteConfig F → List (Text × Json) → ℕ → ServiceCall
  quoting_call config invoice panels = quote_call config.bearer_token panels (
      object_of (
        (codes "factura_cliente", object_of invoice)
        ∷ (codes "modo", string (codes "alquiler"))
        ∷ (codes "modo_calculo", string (codes "sin_desvios"))
        ∷ (codes "n_cep_alquiler_540w", number (nat panels))
        ∷ (codes "cuota_alquiler_mes", a.json_of config.monthly_panel_fee)
        ∷ (codes "descuento", a.json_of config.discount)
        ∷ (codes "años_proyecto", number (nat config.project_years))
        ∷ (codes "id_generacion", null)
        ∷ (codes "ce_config", community_json config)
        ∷ []))

  -- The candidate of an answer; `none` where the call fails.
  abbrev pub candidate_of : ℕ → Answer → Option (Option (QuoteCandidate F))
  candidate_of panels no_answer = none
  candidate_of panels (answer true payload) =
      some (quote_candidate a (json_or_empty payload) panels)
  candidate_of panels (answer false payload) = some none

  abbrev pub add_candidate :
      Option (QuoteCandidate F) → List (QuoteCandidate F) → List (QuoteCandidate F)
  add_candidate none cs = cs
  add_candidate (some c) cs = c ∷ cs

  -- `Promise.all` over the panels and the filter behind it: the candidates in the order of the panels,
  -- or none where one of the calls fails.
  unfoldable pub quote_responses :
      ManganaferQuoteConfig F → List (Text × Json) → List ℕ → Option (List (QuoteCandidate F))
  quote_responses config invoice [] = some []
  quote_responses config invoice (n ∷ ns) =
      elim (candidate_of n (r.fetcher (quoting_call config invoice n))) [
        | none ↦ none
        | some c ↦ elim (quote_responses config invoice ns) [
          | none ↦ none
          | some cs ↦ some (add_candidate c cs)
        ]
      ]

  -- 1, 2, … as many as a number says, from a number on
  abbrev pub options_from : ℕ → ℕ → List ℕ
  options_from n zero = []
  options_from n (suc k) = n ∷ options_from (n + 1) k

  abbrev pub bounded_by : Option ℕ → ℕ → ℕ
  bounded_by none n = n
  bounded_by (some m) n = min (max 2 m) n

  unfoldable pub maximum_panels : ManganaferQuoteConfig F → F → ℕ
  maximum_panels config annual_consumption =
      bounded_by
        (a.ceil (
          a.multiply (a.divide annual_consumption config.annual_panel_production_kwh)
            (a.literal (codes "1.35"))))
        (min config.maximum_panels_per_quote config.available_panels)

  abbrev pub not_calculable : F → FormResponse
  not_calculable distance =
      verdict ((codes "eligible", boolean true) ∷ (codes "calculable", boolean false) ∷ []) distance
        []

  unfoldable pub answer_best : ManganaferQuoteConfig F → F → List (QuoteCandidate F) → FormResponse
  answer_best config distance [] = not_calculable distance
  answer_best config distance (best ∷ others) =
      if is_positive a best
      then verdict ((codes "eligible", boolean true) ∷ (codes "calculable", boolean true) ∷ [])
          distance ((codes "estimate", estimate_json best config) ∷ [])
      else not_calculable distance

  abbrev pub answer_candidates :
      ManganaferQuoteConfig F → F → Option (List (QuoteCandidate F)) → FormResponse
  answer_candidates config distance none = service_failure
  answer_candidates config distance (some cs) = answer_best config distance (rank a cs)

  abbrev pub quote_invoice :
      ManganaferQuoteConfig F → ServiceCall → Fields → F → Option (List (Text × Json)) → Outcome
  quote_invoice config asked source distance none = (
    refusal 422 (
        codes
          "El CUPS está dentro de la zona, pero faltan datos de consumo para preparar una estimación automática. Déjanos tus datos y la completaremos contigo."),
    asked ∷ [],
  )
  quote_invoice config asked source distance (some invoice) =
      let options = options_from 1 (maximum_panels config (annualized_consumption a source)) in
      (
        answer_candidates config distance (quote_responses config invoice options),
        asked ∷ map (quoting_call config invoice) options,
      )

  unfoldable pub quote_place :
      ManganaferQuoteConfig F → Text → ServiceCall → Fields → F → F → Outcome
  quote_place config cups asked source latitude longitude =
      let distance = nearest_plant_distance a latitude longitude in
      if a.less (a.literal (codes "1000")) distance
      then (verdict ((codes "eligible", boolean false) ∷ []) distance [], asked ∷ [])
      else quote_invoice config asked source distance (factura_cliente a source cups)

  abbrev pub locate :
      ManganaferQuoteConfig F → Text → ServiceCall → Fields → Option F → Option F → Outcome
  locate config cups asked source (some latitude) (some longitude) =
      quote_place config cups asked source latitude longitude
  locate config cups asked source _ _ = (
    refusal 422 (
        codes
          "Hemos leído el CUPS, pero no hemos podido confirmar automáticamente su ubicación. Déjanos tus datos y lo comprobaremos contigo."),
    asked ∷ [],
  )

  unfoldable pub quote_source : ManganaferQuoteConfig F → Text → ServiceCall → Fields → Outcome
  quote_source config cups asked source =
      locate config cups asked source (coordinate a source latitude_keys)
        (coordinate a source longitude_keys)

  abbrev pub quote_payload : ManganaferQuoteConfig F → Text → ServiceCall → Bool → Json → Outcome
  quote_payload config cups asked true (object payload) =
      quote_source config cups asked (invoice_source payload)
  quote_payload config cups asked false (object payload) =
      (cups_refusal (detail_or_default (trimmed_string (own (codes "detail") payload))), asked ∷ [])
  quote_payload config cups asked success _ = (cups_refusal (detail_or_default []), asked ∷ [])

  abbrev pub quote_answer : ManganaferQuoteConfig F → Text → ServiceCall → Answer → Outcome
  quote_answer config cups asked no_answer = (service_failure, asked ∷ [])
  quote_answer config cups asked (answer success payload) =
      quote_payload config cups asked success (json_or_empty payload)

  abbrev pub cups_url : Text → Text
  cups_url cups =
      codes "https://api-contratacion.comunidadsolar.es/cups/consultar?cups=" ++ r.encode cups

  abbrev pub quote_with : Text → Option (ManganaferQuoteConfig F) → Outcome
  quote_with cups none = (
    refusal 503 (
        codes
          "La calculadora de Manganáfer todavía no está disponible. Puedes dejar tus datos en el registro de interés."),
    [],
  )
  quote_with cups (some config) =
      let asked = cups_call (cups_url cups) in quote_answer config cups asked (r.fetcher asked)

  unfoldable pub quote_cups : Text → Outcome
  quote_cups cups = quote_with cups (get_manganafer_quote_config a r.environment)

  abbrev pub quote_fields : Fields → Outcome
  quote_fields payload =
      let cups = normalize_cups r.to_upper_case (own (codes "cups") payload) in
      if is_valid_cups cups then quote_cups cups else (
        cups_refusal (codes "Comprueba el CUPS: debe empezar por ES y tener 20 o 22 caracteres."),
        [],
      )

  abbrev pub quote_json : Option Json → Outcome
  quote_json (some (object payload)) = quote_fields payload
  quote_json _ = (unreadable, [])

  abbrev pub quote_body : RequestBody → Outcome
  quote_body too_large = (request_too_large, [])
  quote_body invalid_body = (unreadable, [])
  quote_body (body bytes) = quote_json (r.json_parse (r.decode bytes))

  -- The response, and the calls of the services in their order.
  unfoldable pub handle_quote_request : InterestRequest → FormResponse × List ServiceCall
  handle_quote_request request =
      if r.number_above (or_zero request.content_length) maximum_body_bytes
      then (request_too_large, [])
      else quote_body (read_json_body request.body)
