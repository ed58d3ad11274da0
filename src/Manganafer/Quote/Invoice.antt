-- ===== src/Manganafer/Quote/Invoice.antt =====
-- src/lib/manganafer/quote.ts: the CUPS of a request, and what is read of the answer for it: the
-- place, the invoice and the yearly consumption.
use web_comunidad_solar.Prelude.{
  ℕ, Bool, false, not, Option, none, some, List, [], ◌∷◌, ◌++◌, map, Text, codes, ◌==◌, all, drop,
  take, length, is_digit, is_upper, is_space, is_empty, starts_with, if◌then◌else◌, ◌&&◌, ◌||◌,
}
use web_comunidad_solar.Json.{Json, null, boolean, string, object, Fields, end, field}
use web_comunidad_solar.Json.Decode.{◌>>=◌, own}
use web_comunidad_solar.Manganafer.Quote.Numbers.{Arithmetic, as_number, as_text, trimmed_string}

abbrev without_spaces : Text → Text
without_spaces [] = []
without_spaces (c ∷ t) = let rest = without_spaces t in if is_space c then rest else c ∷ rest

-- `normalizeCups`, for a `toUpperCase`
unfoldable pub normalize_cups : (Text → Text) → Option Json → Text
normalize_cups to_upper_case v = to_upper_case (without_spaces (trimmed_string v))

abbrev is_letter_or_digit : ℕ → Bool
is_letter_or_digit c = is_digit c || is_upper c

-- /^ES\d{16}[A-Z]{2}(?:[0-9A-Z]{2})?$/
unfoldable pub is_valid_cups : Text → Bool
is_valid_cups t =
    starts_with t (codes "ES")
    && all is_digit (take 16 (drop 2 t))
    && all is_upper (take 2 (drop 18 t))
    && all is_letter_or_digit (drop 20 t)
    && (length t == 20 || length t == 22)

-- `{ ...outer, ...inner }`, as its properties are read
abbrev merged : Fields → Fields → Fields
merged end outer = outer
merged (field k v inner) outer = field k v (merged inner outer)

abbrev source_under : List Text → Fields → Fields
source_under [] payload = payload
source_under (k ∷ ks) payload =
    let rest = source_under ks payload in
    elim (own k payload) [ some (object inner) ↦ merged inner payload | _ ↦ rest ]

unfoldable pub invoice_source : Fields → Fields
invoice_source payload =
    source_under (codes "factura" ∷ codes "factura_cliente" ∷ codes "data" ∷ codes "resultado" ∷ [])
      payload

abbrev or_null : Text → Json
or_null t = if is_empty t then null else string t

abbrev is_false : Option Json → Bool
is_false (some (boolean b)) = not b
is_false _ = false

-- The periods of consumption, which the yearly consumption adds up.
abbrev consumption_keys : List Text
consumption_keys =
    codes "consumo_p1_kwh"
    ∷ codes "consumo_p2_kwh"
    ∷ codes "consumo_p3_kwh"
    ∷ codes "consumo_p4_kwh"
    ∷ codes "consumo_p5_kwh"
    ∷ codes "consumo_p6_kwh"
    ∷ []

abbrev optional_keys : List Text
optional_keys =
    codes "pot_p3_kw"
    ∷ codes "pot_p4_kw"
    ∷ codes "pot_p5_kw"
    ∷ codes "pot_p6_kw"
    ∷ codes "pp_p1"
    ∷ codes "pp_p2"
    ∷ codes "pp_p3"
    ∷ codes "pp_p4"
    ∷ codes "pp_p5"
    ∷ codes "pp_p6"
    ∷ codes "bono_social"
    ∷ codes "pe_p1"
    ∷ codes "pe_p2"
    ∷ codes "pe_p3"
    ∷ codes "pe_p4"
    ∷ codes "pe_p5"
    ∷ codes "pe_p6"
    ∷ (consumption_keys ++ (codes "importe_factura" ∷ []))

module _ {F : Type 0} (a : Arithmetic F) where
  unfoldable pub coordinate : Fields → List Text → Option F
  coordinate payload [] = none
  coordinate payload (k ∷ ks) =
      let rest = coordinate payload ks in
      elim (as_number a (own k payload)) [ some x ↦ some x | none ↦ rest ]

  abbrev required_text : Fields → Text → Option (Text × Json)
  required_text source k =
      let t = as_text a (own k source) in if is_empty t then none else some (k, string t)

  abbrev required_number : Fields → Text → Option (Text × Json)
  required_number source k = do x ← as_number a (own k source); some (k, a.json_of x)

  abbrev number_or_null : Option F → Json
  number_or_null none = null
  number_or_null (some x) = a.json_of x

  abbrev optional_number : Fields → Text → Text × Json
  optional_number source k = (k, number_or_null (as_number a (own k source)))

  abbrev text_or_null : Fields → Text → Text × Json
  text_or_null source k = (k, or_null (trimmed_string (own k source)))

  -- `facturaCliente`: the members of the invoice
  unfoldable pub factura_cliente : Fields → Text → Option (List (Text × Json))
  factura_cliente source cups = do
    start ← required_text source (codes "periodo_inicio")
    finish ← required_text source (codes "periodo_fin")
    days ← required_text source (codes "dias_facturados")
    tariff ← required_text source (codes "tarifa_acceso")
    power_1 ← required_number source (codes "pot_p1_kw")
    power_2 ← required_number source (codes "pot_p2_kw")
    electricity_tax ← required_number source (codes "imp_ele")
    vat ← required_number source (codes "iva")
    rent ← required_number source (codes "alq_eq_dia")
    some (
        (codes "cups", string cups)
        ∷ start
        ∷ finish
        ∷ days
        ∷ tariff
        ∷ power_1
        ∷ power_2
        ∷ electricity_tax
        ∷ vat
        ∷ rent
        ∷ text_or_null source (codes "comercializadora")
        ∷ text_or_null source (codes "distribuidora")
        ∷ text_or_null source (codes "tipo_precio_energia")
        ∷ text_or_null source (codes "pp_unidad")
        ∷ (codes "api_ok", boolean (not (is_false (own (codes "api_ok") source))))
        ∷ map (optional_number source) optional_keys)

  abbrev or_number : Option F → F → F
  or_number none d = d
  or_number (some x) d = x

  -- `Math.max(x, y)` of numbers
  abbrev larger : F → F → F
  larger x y = if a.less x y then y else x

  abbrev sum_onto : Fields → F → List Text → F
  sum_onto source total [] = total
  sum_onto source total (k ∷ ks) =
      sum_onto source (a.add total (or_number (as_number a (own k source)) (a.literal (codes "0"))))
        ks

  -- `annualizedConsumption` of the invoice that was read from a source; its days are a text there
  unfoldable pub annualized_consumption : Fields → F
  annualized_consumption source =
      let billed = larger (a.literal (codes "1")) (
        or_number (a.parse (as_text a (own (codes "dias_facturados") source)))
          (a.literal (codes "30"))) in
      let consumed = sum_onto source (a.literal (codes "0")) consumption_keys in
      a.multiply (a.divide consumed billed) (a.literal (codes "365"))
