-- ===== src/Manganafer/Quote/Asked.antt =====
-- What every call of the quoting service rests on.
use web_comunidad_solar.Prelude.{
  ℕ, zero, suc, ◌+◌, ◌≤◌, ◌<◌, ◌≡◌, refl, sym, subst, arith, Bool, true, false, Bool-cases, inl,
  inr, Option, none, some, List, map, Text, codes, All, min,
}
use web_comunidad_solar.Json.{Json, object, string, number, boolean, null, array, Fields, end}
use web_comunidad_solar.Json.Decode.{own}
use web_comunidad_solar.Manganafer.Form.{
  InterestRequest, RequestBody, body, too_large, invalid_body, or_zero,
}
use web_comunidad_solar.Manganafer.Quote.Numbers.{as_number}
use web_comunidad_solar.Manganafer.Quote.Config.{ManganaferQuoteConfig, get_manganafer_quote_config}
use web_comunidad_solar.Manganafer.Quote.Invoice.{
  normalize_cups, is_valid_cups, invoice_source, coordinate, factura_cliente,
  annualized_consumption,
}
use web_comunidad_solar.Manganafer.Quote.Distance.{nearest_plant_distance}
use web_comunidad_solar.Manganafer.Quote.Handler.{
  ServiceCall, cups_call, quote_call, Answer, no_answer, answer, QuoteRuntime, latitude_keys,
  longitude_keys, quoting_call, options_from, bounded_by, maximum_panels, quote_invoice,
  quote_place, locate, quote_source, quote_answer, cups_url, quote_with, quote_cups, quote_fields,
  quote_json, quote_body, handle_quote_request, maximum_body_bytes, read_json_body,
}

module _ {F : Type 0} (r : QuoteRuntime F) where
  -- What a call of the quoting service rests on: the calculator is configured, the CUPS is well formed
  -- and was answered for, the place in that answer is not beyond a kilometre, its invoice is complete,
  -- and the number of panels is between 1 and what the configuration and the plant allow.
  pub record IsQuoteFounded (token : Text) (panels : ℕ) (sent : Json) : Type 0 where
    pub config : ManganaferQuoteConfig F
    pub configured : get_manganafer_quote_config r.arithmetic r.environment ≡ some config
    pub authorised : token ≡ config.bearer_token
    pub cups : Text
    pub valid : is_valid_cups cups ≡ true
    pub payload : Fields
    pub answered : r.fetcher (cups_call (cups_url r cups)) ≡ answer true (some (object payload))
    pub latitude : F
    pub longitude : F
    pub at_latitude : coordinate r.arithmetic (invoice_source payload) latitude_keys ≡ some latitude
    pub at_longitude :
        coordinate r.arithmetic (invoice_source payload) longitude_keys ≡ some longitude
    pub covered :
        r.arithmetic.less
          (r.arithmetic.literal (codes "1000"))
          (nearest_plant_distance r.arithmetic latitude longitude)
        ≡ false
    pub invoice : List (Text × Json)
    pub complete : factura_cliente r.arithmetic (invoice_source payload) cups ≡ some invoice
    pub sent_invoice : quote_call token panels sent ≡ quoting_call r config invoice panels
    pub at_least_one : 1 ≤ panels
    pub allowed : panels ≤ config.maximum_panels_per_quote
    pub at_most_24 : panels ≤ 24
    pub available : panels ≤ config.available_panels

  abbrev pub IsCallFounded : ServiceCall → Type 0
  IsCallFounded (cups_call url) =
      (cups : Text) × (is_valid_cups cups ≡ true) × (url ≡ cups_url r cups)
  IsCallFounded (quote_call token panels sent) = IsQuoteFounded token panels sent

  get_manganafer_quote_config-bounded :
      (config : ManganaferQuoteConfig F)
      → get_manganafer_quote_config r.arithmetic r.environment ≡ some config
      → config.maximum_panels_per_quote ≤ 24
  unfolding get_manganafer_quote_config
  get_manganafer_quote_config-bounded config h = ground (arith, h)

  bounded_by-bounded :
      (o : Option ℕ) (m n : ℕ) → (bounded_by r o (min m n) ≤ m) × (bounded_by r o (min m n) ≤ n)
  bounded_by-bounded none m n = (ground arith, ground arith)
  bounded_by-bounded (some k) m n = (ground arith, ground arith)

  maximum_panels-bounded :
      (config : ManganaferQuoteConfig F) (consumed : F)
      → (maximum_panels r config consumed ≤ config.maximum_panels_per_quote)
        × (maximum_panels r config consumed ≤ config.available_panels)
  unfolding maximum_panels
  maximum_panels-bounded config consumed = bounded_by-bounded _ _ _

  All-options :
      (P : ServiceCall → Type 0) (call : ℕ → ServiceCall) (m k : ℕ)
      → ((n : ℕ) → m ≤ n → n < m + k → P (call n))
      → All P (map call (options_from r m k))
  All-options P call m zero h = tt
  All-options P call m (suc k) h = (
    h m (ground arith) (ground arith),
    All-options P call (m + 1) k (λ n lo hi. h n (ground (arith, lo)) (ground (arith, hi))),
  )

  -- What is known when a place was found in the answer for a CUPS.
  record IsLocated (config : ManganaferQuoteConfig F) (cups : Text) (payload : Fields)
      (latitude longitude : F) : Type 0 where
    pub configured : get_manganafer_quote_config r.arithmetic r.environment ≡ some config
    pub valid : is_valid_cups cups ≡ true
    pub answered : r.fetcher (cups_call (cups_url r cups)) ≡ answer true (some (object payload))
    pub at_latitude : coordinate r.arithmetic (invoice_source payload) latitude_keys ≡ some latitude
    pub at_longitude :
        coordinate r.arithmetic (invoice_source payload) longitude_keys ≡ some longitude

  quoting_call-IsQuoteFounded :
      (config : ManganaferQuoteConfig F) (cups : Text) (payload : Fields) (latitude longitude : F)
      (invoice : List (Text × Json)) (n : ℕ)
      → IsLocated config cups payload latitude longitude
      → r.arithmetic.less
          (r.arithmetic.literal (codes "1000"))
          (nearest_plant_distance r.arithmetic latitude longitude)
        ≡ false
      → factura_cliente r.arithmetic (invoice_source payload) cups ≡ some invoice
      → 1 ≤ n
      → n ≤ maximum_panels r config (annualized_consumption r.arithmetic (invoice_source payload))
      → IsCallFounded (quoting_call r config invoice n)
  unfolding quoting_call
  quoting_call-IsQuoteFounded config cups payload latitude longitude invoice n l near complete low
        high =
      let (by_quote, by_plant) =
        maximum_panels-bounded config
          (annualized_consumption r.arithmetic (invoice_source payload)) in
      let capped = get_manganafer_quote_config-bounded config l.configured in
      record {
        config = config;
        configured = l.configured;
        authorised = refl;
        cups = cups;
        valid = l.valid;
        payload = payload;
        answered = l.answered;
        latitude = latitude;
        longitude = longitude;
        at_latitude = l.at_latitude;
        at_longitude = l.at_longitude;
        covered = near;
        invoice = invoice;
        complete = complete;
        sent_invoice = refl;
        at_least_one = low;
        allowed = omega (arith, high, by_quote);
        at_most_24 = omega (arith, high, by_quote, capped);
        available = omega (arith, high, by_plant);
      }

  quote_invoice-founded :
      (config : ManganaferQuoteConfig F) (cups : Text) (payload : Fields)
      (latitude longitude distance : F)
      → IsLocated config cups payload latitude longitude
      → r.arithmetic.less
          (r.arithmetic.literal (codes "1000"))
          (nearest_plant_distance r.arithmetic latitude longitude)
        ≡ false
      → (o : Option (List (Text × Json)))
      → factura_cliente r.arithmetic (invoice_source payload) cups ≡ o
      → All IsCallFounded
          (quote_invoice r config
            (cups_call (cups_url r cups))
            (invoice_source payload)
            distance
            o).1
  quote_invoice-founded config cups payload latitude longitude distance l near none e =
      ((cups, l.valid, refl), tt)
  quote_invoice-founded config cups payload latitude longitude distance l near (some invoice) e = (
    (cups, l.valid, refl),
    All-options IsCallFounded (quoting_call r config invoice) 1
        (maximum_panels r config (annualized_consumption r.arithmetic (invoice_source payload)))
        (λ n low high.
          quoting_call-IsQuoteFounded config cups payload latitude longitude invoice n l near e low
            (omega (arith, high))),
  )

  quote_place-founded :
      (config : ManganaferQuoteConfig F) (cups : Text) (payload : Fields) (latitude longitude : F)
      → IsLocated config cups payload latitude longitude
      → All IsCallFounded
          (quote_place r config cups
            (cups_call (cups_url r cups))
            (invoice_source payload)
            latitude
            longitude).1
  unfolding quote_place
  quote_place-founded config cups payload latitude longitude l =
      elim (Bool-cases (
        r.arithmetic.less (r.arithmetic.literal (codes "1000"))
          (nearest_plant_distance r.arithmetic latitude longitude))) [
            | inl far ↦ rw far ((cups, l.valid, refl), tt)
            | inr near ↦ rw near (
                quote_invoice-founded config cups payload latitude longitude
                  (nearest_plant_distance r.arithmetic latitude longitude) l near
                  (factura_cliente r.arithmetic (invoice_source payload) cups) refl)
          ]

  locate-founded :
      (config : ManganaferQuoteConfig F) (cups : Text) (payload : Fields)
      → get_manganafer_quote_config r.arithmetic r.environment ≡ some config
      → is_valid_cups cups ≡ true
      → r.fetcher (cups_call (cups_url r cups)) ≡ answer true (some (object payload))
      → (x y : Option F) → coordinate r.arithmetic (invoice_source payload) latitude_keys ≡ x
      → coordinate r.arithmetic (invoice_source payload) longitude_keys ≡ y
      → All IsCallFounded
          (locate r config cups (cups_call (cups_url r cups)) (invoice_source payload) x y).1
  locate-founded config cups payload c v answered (some latitude) (some longitude) e f =
      quote_place-founded config cups payload latitude longitude (record {
        configured = c;
        valid = v;
        answered = answered;
        at_latitude = e;
        at_longitude = f;
      })
  locate-founded config cups payload c v answered none y e f = ((cups, v, refl), tt)
  locate-founded config cups payload c v answered (some x) none e f = ((cups, v, refl), tt)

  -- An answer without JSON has no place.
  quote_source-empty :
      (config : ManganaferQuoteConfig F) (cups : Text) (asked : ServiceCall)
      → (quote_source r config cups asked (invoice_source end)).1
        ≡ (locate r config cups asked (invoice_source end) none none).1
  unfolding quote_source invoice_source coordinate as_number
  quote_source-empty config cups asked = refl

  quote_payload-founded :
      (config : ManganaferQuoteConfig F) (cups : Text)
      → get_manganafer_quote_config r.arithmetic r.environment ≡ some config
      → is_valid_cups cups ≡ true
      → (success : Bool) (value : Option Json)
      → r.fetcher (cups_call (cups_url r cups)) ≡ answer success value
      → All IsCallFounded
          (quote_answer r config cups (cups_call (cups_url r cups)) (answer success value)).1
  unfolding quote_source
  quote_payload-founded config cups c v true (some (object payload)) e =
      locate-founded config cups payload c v e _ _ refl refl
  quote_payload-founded config cups c v true (some null) e = ((cups, v, refl), tt)
  quote_payload-founded config cups c v true (some (boolean b)) e = ((cups, v, refl), tt)
  quote_payload-founded config cups c v true (some (number n)) e = ((cups, v, refl), tt)
  quote_payload-founded config cups c v true (some (string t)) e = ((cups, v, refl), tt)
  quote_payload-founded config cups c v true (some (array items)) e = ((cups, v, refl), tt)
  quote_payload-founded config cups c v true none e =
      subst (λ calls. All IsCallFounded calls)
        (sym (quote_source-empty config cups (cups_call (cups_url r cups)))) ((cups, v, refl), tt)
  quote_payload-founded config cups c v false none e = ((cups, v, refl), tt)
  quote_payload-founded config cups c v false (some (object payload)) e = ((cups, v, refl), tt)
  quote_payload-founded config cups c v false (some null) e = ((cups, v, refl), tt)
  quote_payload-founded config cups c v false (some (boolean b)) e = ((cups, v, refl), tt)
  quote_payload-founded config cups c v false (some (number n)) e = ((cups, v, refl), tt)
  quote_payload-founded config cups c v false (some (string t)) e = ((cups, v, refl), tt)
  quote_payload-founded config cups c v false (some (array items)) e = ((cups, v, refl), tt)

  quote_answer-founded :
      (config : ManganaferQuoteConfig F) (cups : Text)
      → get_manganafer_quote_config r.arithmetic r.environment ≡ some config
      → is_valid_cups cups ≡ true
      → (given : Answer) → r.fetcher (cups_call (cups_url r cups)) ≡ given
      → All IsCallFounded (quote_answer r config cups (cups_call (cups_url r cups)) given).1
  quote_answer-founded config cups c v no_answer e = ((cups, v, refl), tt)
  quote_answer-founded config cups c v (answer success value) e =
      quote_payload-founded config cups c v success value e

  quote_with-founded :
      (cups : Text)
      → is_valid_cups cups ≡ true
      → (o : Option (ManganaferQuoteConfig F))
      → get_manganafer_quote_config r.arithmetic r.environment ≡ o
      → All IsCallFounded (quote_with r cups o).1
  quote_with-founded cups v none e = tt
  quote_with-founded cups v (some config) e =
      quote_answer-founded config cups e v (r.fetcher (cups_call (cups_url r cups))) refl

  quote_cups-founded :
      (cups : Text) → is_valid_cups cups ≡ true → All IsCallFounded (quote_cups r cups).1
  unfolding quote_cups
  quote_cups-founded cups v = quote_with-founded cups v _ refl

  quote_fields-founded : (payload : Fields) → All IsCallFounded (quote_fields r payload).1
  quote_fields-founded payload =
      let cups = normalize_cups r.to_upper_case (own (codes "cups") payload) in
      elim (Bool-cases (is_valid_cups cups)) [
        | inl v ↦ rw v (quote_cups-founded cups v)
        | inr bad ↦ rw bad tt
      ]

  quote_json-founded : (o : Option Json) → All IsCallFounded (quote_json r o).1
  quote_json-founded none = tt
  quote_json-founded (some (object payload)) = quote_fields-founded payload
  quote_json-founded (some null) = tt
  quote_json-founded (some (boolean b)) = tt
  quote_json-founded (some (number n)) = tt
  quote_json-founded (some (string t)) = tt
  quote_json-founded (some (array items)) = tt

  quote_body-founded : (b : RequestBody) → All IsCallFounded (quote_body r b).1
  quote_body-founded too_large = tt
  quote_body-founded invalid_body = tt
  quote_body-founded (body bytes) = quote_json-founded (r.json_parse (r.decode bytes))

  -- Whatever the services answer, a request for a quote asks for the supply of well-formed CUPS only,
  -- and each call of the quoting service is for a configured calculator with its token, for a CUPS that
  -- was answered for, with a complete invoice and a place that is not beyond 1000 metres of the plant,
  -- and for at least 1 panel and no more than 24, than a quote may have and than are available.
  pub handle_quote_request-founded :
      (request : InterestRequest) → All IsCallFounded (handle_quote_request r request).1
  unfolding handle_quote_request
  handle_quote_request-founded request =
      elim (Bool-cases (r.number_above (or_zero request.content_length) maximum_body_bytes)) [
        | inl large ↦ rw large tt
        | inr fits ↦ rw fits (quote_body-founded (read_json_body request.body))
      ]
