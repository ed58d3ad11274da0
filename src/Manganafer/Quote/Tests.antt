-- ===== src/Manganafer/Quote/Tests.antt =====
-- A quote with whole numbers in the place of the language's, and the best of two candidates.
use web_comunidad_solar.Prelude.{
  Option, ℕ, suc, ◌+◌, ◌*◌, ◌-◌, ◌≡◌, refl, arith, true, false, none, some, List, [], ◌∷◌, Text,
  codes, min, ltb, trim, All, Some, inl, inr,
}
use web_comunidad_solar.Json.{Json, boolean, nat, number, string, object, field, end, Number}
use web_comunidad_solar.Manganafer.Form.{InterestRequest, chunk, done, read_chunks}
use web_comunidad_solar.Manganafer.Quote.Numbers.{Arithmetic, as_number, as_text, trimmed_string}
use web_comunidad_solar.Manganafer.Quote.Invoice.{
  is_valid_cups, normalize_cups, coordinate, invoice_source, factura_cliente,
  annualized_consumption,
}
use web_comunidad_solar.Manganafer.Quote.Distance.{nearest_plant_distance, haversine_metres}
use web_comunidad_solar.Manganafer.Quote.Config.{
  ManganaferQuoteEnvironment, ManganaferQuoteConfig, get_manganafer_quote_config,
}
use web_comunidad_solar.Manganafer.Quote.Candidate.{
  QuoteCandidate, is_positive, rank, insert_candidate, ranks_after, quote_candidate,
}
use web_comunidad_solar.Manganafer.Quote.Handler.{
  ServiceCall, cups_call, quote_call, Answer, answer, QuoteRuntime, handle_quote_request,
  answer_best, read_json_body, quote_cups, quote_source, quote_place, maximum_panels,
  quote_responses, quoting_call,
}
use web_comunidad_solar.Manganafer.Quote.Best.{IsOrder, IsBest, answer_best-IsBest}
use web_comunidad_solar.Manganafer.Quote.Asked.{IsCallFounded, handle_quote_request-founded}
use web_comunidad_solar.Manganafer.Quote.Handler.{verdict, estimate_json}

abbrev digits_onto : ℕ → Text → ℕ
digits_onto n [] = n
digits_onto n (c ∷ t) = digits_onto (n * 10 + (c - 48)) t

abbrev of_json_number : Number → Option ℕ
of_json_number (nat n) = some n
of_json_number _ = none

abbrev arithmetic : Arithmetic ℕ
arithmetic = record {
  parse = λ t. some (digits_onto 0 t);
  of_number = of_json_number;
  print = λ n. codes "30";
  json_of = λ n. number (nat n);
  literal = digits_onto 0;
  less = ltb;
  add = λ x y. x + y;
  subtract = λ x y. x - y;
  multiply = λ x y. x * y;
  divide = λ x y. x;
  pi = 3;
  sine = λ x. 0;
  cosine = λ x. 1;
  square_root = λ x. x;
  arc_tangent = λ x y. x;
  minimum = min;
  round = λ x. x;
  floor = λ x. x;
  ceil = λ x. some x;
}

arithmetic-IsOrder : IsOrder arithmetic
arithmetic-IsOrder = record {
  trans = λ x y z h k. ground (arith, h, k);
  asymm = λ x y h. ground (arith, h);
  cotrans = λ x y z h k. ground (arith, h, k);
}

abbrev environment : ManganaferQuoteEnvironment
environment = record {
  quoting_bearer_token = some (codes "token");
  panel_monthly_fee = some (codes "3");
  panel_monthly_fee_without_vat = some (codes "2");
  panel_fee_vat = some (codes "0");
  available_panels = some (codes "40");
  annual_panel_production_kwh = some (codes "800");
  discount = some (codes "0");
  panel_power_w = some (codes "540");
  annual_degradation = some (codes "0");
  maximum_panels_per_quote = some (codes "2");
}

abbrev supply : Json
supply = object (
    field (codes "lat") (number (nat 37)) (
      field (codes "lon") (number (nat 1)) (
        field (codes "periodo_inicio") (string (codes "2026-01-01")) (
          field (codes "periodo_fin") (string (codes "2026-01-31")) (
            field (codes "dias_facturados") (number (nat 30)) (
              field (codes "tarifa_acceso") (string (codes "2.0TD")) (
                field (codes "pot_p1_kw") (number (nat 4)) (
                  field (codes "pot_p2_kw") (number (nat 4)) (
                    field (codes "imp_ele") (number (nat 5)) (
                      field (codes "iva") (number (nat 21))
                        (field (codes "alq_eq_dia") (number (nat 1)) end)))))))))))

-- The service of the CUPS knows every supply; the quoting service gives no candidate.
abbrev services : ServiceCall → Answer
services (cups_call url) = answer true (some supply)
services (quote_call token panels sent) = answer true none

abbrev runtime : QuoteRuntime ℕ
runtime = record {
  arithmetic = arithmetic;
  number_above = λ t bound. false;
  decode = λ bytes. bytes;
  json_parse = λ t. some (object (field (codes "cups") (string t) end));
  to_upper_case = λ t. t;
  encode = λ t. t;
  environment = environment;
  fetcher = services;
}

-- A request with a CUPS that is well formed but for its blanks.
abbrev request : InterestRequest
request = record {
  content_length = none;
  body = some (chunk (codes "ES0021 0000000000 01AB") done);
}

abbrev size : {A : Type 0} → List A → ℕ
size [] = 0
size (x ∷ xs) = suc (size xs)

-- One call of the CUPS service and two of the quoting service.
asked_thrice : size (handle_quote_request runtime request).1 ≡ 3
unfolding handle_quote_request read_json_body read_chunks is_valid_cups normalize_cups
    trimmed_string trim quote_cups get_manganafer_quote_config quote_source coordinate as_number
    invoice_source quote_place nearest_plant_distance haversine_metres factura_cliente as_text
    insert_candidate is_positive quote_candidate rank ranks_after answer_best maximum_panels
    quote_responses quoting_call annualized_consumption
asked_thrice = refl

handle_quote_request-founded_example :
    All (IsCallFounded runtime) (handle_quote_request runtime request).1
handle_quote_request-founded_example = handle_quote_request-founded runtime request

abbrev candidate : ℕ → ℕ → QuoteCandidate ℕ
candidate panels saving = record {
  panels = panels;
  annual_saving = saving;
  monthly_saving = saving;
  saving_percentage = saving;
  current_annual_bill = 900;
  estimated_annual_bill = 700;
  project_saving = saving;
  monthly_fee = 3;
  annual_solar_energy_kwh = 800;
}

abbrev candidates : List (QuoteCandidate ℕ)
candidates = candidate 1 0 ∷ candidate 2 200 ∷ []

abbrev config : ManganaferQuoteConfig ℕ
config = record {
  bearer_token = codes "token";
  monthly_panel_fee = 3;
  monthly_panel_fee_without_vat = 2;
  vat = 0;
  available_panels = 40;
  annual_panel_production_kwh = 800;
  discount = 0;
  panel_power_w = 540;
  annual_degradation = 0;
  maximum_panels_per_quote = 2;
  project_years = 25;
}

one_gains : Some (λ c. is_positive arithmetic c ≡ true) candidates
unfolding is_positive
one_gains = inr (inl refl)

answer_best-IsBest_example :
    (best : QuoteCandidate ℕ) × IsBest arithmetic arithmetic-IsOrder best candidates
    × (is_positive arithmetic best ≡ true)
    × (answer_best runtime config 0 (rank arithmetic candidates)
        ≡ verdict runtime
            ((codes "eligible", boolean true) ∷ (codes "calculable", boolean true) ∷ [])
            0
            ((codes "estimate", estimate_json runtime best config) ∷ []))
answer_best-IsBest_example =
    answer_best-IsBest runtime arithmetic-IsOrder config 0 candidates one_gains
