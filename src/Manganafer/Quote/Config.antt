-- ===== src/Manganafer/Quote/Config.antt =====
-- src/lib/manganafer/quote-config.ts: the configuration of the calculator.
use web_comunidad_solar.Prelude.{
  ℕ, Bool, true, false, not, Option, none, some, Text, codes, min, max, trim, is_empty, ◌&&◌,
}
use web_comunidad_solar.Json.Decode.{◌>>=◌, ◌>>◌, guard}
use web_comunidad_solar.Manganafer.Quote.Numbers.{Arithmetic}

pub record ManganaferQuoteEnvironment : Type 0 where
  pub quoting_bearer_token : Option Text
  pub panel_monthly_fee : Option Text
  pub panel_monthly_fee_without_vat : Option Text
  pub panel_fee_vat : Option Text
  pub available_panels : Option Text
  pub annual_panel_production_kwh : Option Text
  pub discount : Option Text
  pub panel_power_w : Option Text
  pub annual_degradation : Option Text
  pub maximum_panels_per_quote : Option Text

pub record ManganaferQuoteConfig (F : Type 0) : Type 0 where
  pub bearer_token : Text
  pub monthly_panel_fee : F
  pub monthly_panel_fee_without_vat : F
  pub vat : F
  pub available_panels : ℕ
  pub annual_panel_production_kwh : F
  pub discount : F
  pub panel_power_w : F
  pub annual_degradation : F
  pub maximum_panels_per_quote : ℕ
  pub project_years : ℕ

abbrev or_blank : Option Text → Text
or_blank none = codes ""
or_blank (some t) = trim t

module _ {F : Type 0} (a : Arithmetic F) where
  -- `configuredNumber`; a variable that is not set is not a number
  abbrev configured_number : Option Text → Option F
  configured_number none = none
  configured_number (some t) = a.parse t

  abbrev number_0 : F
  number_0 = a.literal (codes "0")

  abbrev number_1 : F
  number_1 = a.literal (codes "1")

  abbrev pub is_share : F → Bool
  is_share x = not (a.less x number_0) && not (a.less number_1 x)

  abbrev maximum_of : Option F → ℕ
  maximum_of none = 12
  maximum_of (some n) = max 1 (min (a.floor n) 24)

  unfoldable pub get_manganafer_quote_config :
      ManganaferQuoteEnvironment → Option (ManganaferQuoteConfig F)
  get_manganafer_quote_config e = do
    let bearer_token = or_blank e.quoting_bearer_token
    guard (not (is_empty bearer_token))
    monthly_fee ← configured_number e.panel_monthly_fee
    without_vat ← configured_number e.panel_monthly_fee_without_vat
    vat ← configured_number e.panel_fee_vat
    available ← configured_number e.available_panels
    production ← configured_number e.annual_panel_production_kwh
    discount ← configured_number e.discount
    power ← configured_number e.panel_power_w
    degradation ← configured_number e.annual_degradation
    guard (not (a.less monthly_fee number_0))
    guard (not (a.less without_vat number_0))
    guard (is_share vat)
    guard (not (a.less available number_1))
    guard (a.less number_0 production)
    guard (is_share discount)
    guard (a.less number_0 power)
    guard (is_share degradation)
    some (record {
      bearer_token = bearer_token;
      monthly_panel_fee = monthly_fee;
      monthly_panel_fee_without_vat = without_vat;
      vat = vat;
      available_panels = a.floor available;
      annual_panel_production_kwh = production;
      discount = discount;
      panel_power_w = a.round power;
      annual_degradation = degradation;
      maximum_panels_per_quote = maximum_of (configured_number e.maximum_panels_per_quote);
      project_years = 25;
    })

  abbrev is_configured : Option (ManganaferQuoteConfig F) → Bool
  is_configured none = false
  is_configured (some config) = true

  unfoldable pub is_manganafer_calculator_configured : ManganaferQuoteEnvironment → Bool
  is_manganafer_calculator_configured e = is_configured (get_manganafer_quote_config e)
