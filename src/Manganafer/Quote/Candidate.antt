-- ===== src/Manganafer/Quote/Candidate.antt =====
-- src/lib/manganafer/quote.ts: the candidates that the answers of the quoting service give, and the
-- order in which they are ranked.
use web_comunidad_solar.Prelude.{
  ℕ, Bool, false, not, Option, none, some, List, [], ◌∷◌, codes, if◌then◌else◌, ◌&&◌, ◌||◌,
}
use web_comunidad_solar.Json.{Json, boolean, array, object, Items, nil, cons, Fields}
use web_comunidad_solar.Json.Decode.{◌>>=◌, ◌>>◌, guard, own}
use web_comunidad_solar.Manganafer.Quote.Numbers.{Arithmetic, as_number}

pub record QuoteCandidate (F : Type 0) : Type 0 where
  pub panels : ℕ
  pub annual_saving : F
  pub monthly_saving : F
  pub saving_percentage : F
  pub current_annual_bill : F
  pub estimated_annual_bill : F
  pub project_saving : F
  pub monthly_fee : F
  pub annual_solar_energy_kwh : F

abbrev pub fields_in : Option Json → Option Fields
fields_in (some (object fs)) = some fs
fields_in _ = none

abbrev is_true : Option Json → Bool
is_true (some (boolean b)) = b
is_true _ = false

-- `cashflow.at(-1)`
abbrev last_item : Items → Option Json
last_item nil = none
last_item (cons v nil) = some v
last_item (cons v (cons u more)) = last_item (cons u more)

abbrev last_in : Option Json → Option Json
last_in (some (array items)) = last_item items
last_in _ = none

module _ {F : Type 0} (a : Arithmetic F) where
  unfoldable pub quote_candidate : Json → ℕ → Option (QuoteCandidate F)
  quote_candidate value panels = do
    payload ← fields_in (some value)
    guard (not (is_true (own (codes "no_calculable") payload)))
    kpi ← fields_in (own (codes "resultados_kpi") payload)
    annual_saving ← as_number a (own (codes "ahorro_anual_medio") kpi)
    monthly_saving ← as_number a (own (codes "ahorro_mensual_medio") kpi)
    saving_percentage ← as_number a (own (codes "pct_ahorro_anual") kpi)
    current_annual_bill ← as_number a (own (codes "factura_anual_actual") kpi)
    estimated_annual_bill ← as_number a (own (codes "factura_anual_cecs") kpi)
    monthly_fee ← as_number a (own (codes "cuota_alquiler_mensual") kpi)
    annual_solar_energy_kwh ← as_number a (own (codes "produccion_ar_anual_kwh") kpi)
    projection ← fields_in (own (codes "proyeccion_financiera") payload)
    last_year ← fields_in (last_in (own (codes "tabla_cashflow") projection))
    project_saving ← as_number a (own (codes "ahorro_acumulado") last_year)
    some (record {
      panels = panels;
      annual_saving = annual_saving;
      monthly_saving = monthly_saving;
      saving_percentage = saving_percentage;
      current_annual_bill = current_annual_bill;
      estimated_annual_bill = estimated_annual_bill;
      project_saving = project_saving;
      monthly_fee = monthly_fee;
      annual_solar_energy_kwh = annual_solar_energy_kwh;
    })

  unfoldable pub is_positive : QuoteCandidate F → Bool
  is_positive c = a.less (a.literal (codes "0")) c.annual_saving

  -- The comparison of the sort puts its second candidate first.
  unfoldable pub ranks_after : QuoteCandidate F → QuoteCandidate F → Bool
  unfolding is_positive
  ranks_after x y =
      if is_positive x
      then is_positive y && a.less x.annual_saving y.annual_saving
      else is_positive y || a.less x.annual_saving y.annual_saving

  unfoldable pub insert_candidate :
      QuoteCandidate F → List (QuoteCandidate F) → List (QuoteCandidate F)
  insert_candidate x [] = x ∷ []
  insert_candidate x (y ∷ ys) =
      let rest = insert_candidate x ys in if ranks_after x y then y ∷ rest else x ∷ y ∷ ys

  -- `.sort(…)`, which is stable
  unfoldable pub rank : List (QuoteCandidate F) → List (QuoteCandidate F)
  rank [] = []
  rank (x ∷ xs) = insert_candidate x (rank xs)
