-- ===== src/Metrics/Fuel.antt =====
-- modules/inverters-metrics/data/fuel.ts. Kilowatts, litres and Naira are in thousandths.
pub mod Rates
use intell_api.Prelude.{
  ℕ, ◌*◌, Bool, Option, none, some, List, [], ◌∷◌, ltb, leb, ◌==◌, keep, if◌then◌else◌,
}
use intell_api.Prelude.{round_div}
use intell_api.Exec.{Result, ok, err, thrown}
use intell_api.Common.Enums.{GeneratorFuelType, diesel, pms}

pub record FuelPriceEntry : Type 0 where
  pub fuel_type : GeneratorFuelType
  pub price_per_litre_naira : ℕ
  pub updated_at : ℕ

abbrev pub fuel_prices : List FuelPriceEntry
fuel_prices =
    record { fuel_type = pms; price_per_litre_naira = 1350000; updated_at = 1780530844618 }
    ∷ record { fuel_type = diesel; price_per_litre_naira = 1950000; updated_at = 1780530844618 }
    ∷ []

abbrev place : GeneratorFuelType → ℕ
place diesel = 0
place pms = 1

abbrev pub fuel_eq : GeneratorFuelType → GeneratorFuelType → Bool
fuel_eq a b = place a == place b

-- The first entry of a stable sort by `updatedAt`, the newest first.
unfoldable pub newest : List FuelPriceEntry → Option FuelPriceEntry
newest [] = none
newest (e ∷ es) = elim (newest es) [
  | none ↦ some e
  | some n ↦ if ltb e.updated_at n.updated_at then some n else some e
]

unfoldable pub get_latest_fuel_price : GeneratorFuelType → Result FuelPriceEntry
unfolding newest
get_latest_fuel_price t = elim (newest (keep (λ e. fuel_eq e.fuel_type t) fuel_prices)) [
  | none ↦ err (thrown "No fuel price entry found for selected type")
  | some e ↦ ok e
]

pub record Bracket : Type 0 where
  pub max_kw : ℕ
  pub litres_per_hour : ℕ

abbrev bracket : ℕ → ℕ → Bracket
bracket kw litres = record { max_kw = kw; litres_per_hour = litres }

abbrev pub pms_consumption_table : List Bracket
pms_consumption_table =
    bracket 1000 600
    ∷ bracket 2000 900
    ∷ bracket 3000 1300
    ∷ bracket 5000 2000
    ∷ bracket 7500 2800
    ∷ bracket 10000 3500
    ∷ []

abbrev pub diesel_consumption_table : List Bracket
diesel_consumption_table =
    bracket 3000 900
    ∷ bracket 5000 1400
    ∷ bracket 7500 1900
    ∷ bracket 10000 2500
    ∷ bracket 15000 3500
    ∷ bracket 20000 4500
    ∷ []

-- The first bracket that reaches the rated power.
unfoldable pub rate_in : List Bracket → ℕ → ℕ → ℕ
rate_in [] rated beyond = beyond
rate_in (b ∷ bs) rated beyond =
    let rest = rate_in bs rated beyond in if leb rated b.max_kw then b.litres_per_hour else rest

-- parseFloat((ratedPowerKw * factor).toFixed(2)), with the factor in tenths.
unfoldable pub beyond_table : ℕ → ℕ → ℕ
beyond_table rated factor = 10 * round_div (rated * factor) 100

unfoldable pub estimate_fuel_consumption_rate : GeneratorFuelType → ℕ → ℕ
unfolding rate_in beyond_table
estimate_fuel_consumption_rate diesel rated =
    rate_in diesel_consumption_table rated (beyond_table rated 3)
estimate_fuel_consumption_rate pms rated =
    rate_in pms_consumption_table rated (beyond_table rated 5)
