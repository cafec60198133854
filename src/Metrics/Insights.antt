-- ===== src/Metrics/Insights.antt =====
-- getSystemInsights of modules/inverters-metrics/inverters-metrics.service.ts. Readings are in
-- thousandths and not negative, and money that is rounded is in kobo, hundredths of a Naira;
-- quotients are exact up to the rounding of the source.
pub mod Projections
mod Tests
use intell_api.Prelude.{
  ℕ, ◌-◌, ◌*◌, ◌/◌, String, Bool, true, false, ◌&&◌, Option, none, some, ltb, leb, ◌==◌, round_div,
  if◌then◌else◌,
}
use intell_api.Prelude.Int.{ℤ, pos, pos_part, sub_ℕ, ltb_ℤ}
use intell_api.Exec.{Result, ok, err, Exec, pure, query, ◌>>=◌}
use intell_api.Common.Enums.{GeneratorFuelType, pms}
use intell_api.Inverters.{Inverter}
use intell_api.Users.{UserSettings}
use intell_api.Metrics.Fuel.{FuelPriceEntry, get_latest_fuel_price, estimate_fuel_consumption_rate}

-- The columns of a row of inverters_metrics that are read.
pub record InvertersMetrics : Type 0 where
  pub battery_soc_percent : ℕ
  pub load_kw : ℕ
  pub solar_gen_kw : ℕ
  pub metric_timestamp : ℕ

-- What is computed from a reading, the capacity and the generator.
pub record Projection : Type 0 where
  pub net_discharge_kw : ℤ
  pub estimated_depletion_minutes : Option ℕ
  -- in hundredths
  pub estimated_depletion_hours : Option ℕ
  pub usable_energy_remaining_kwh : ℕ
  pub ngn_at_risk : Option ℕ
  pub savings_per_hour_ngn : ℕ
  pub excess_load_to_shed_kw : ℕ
  pub target_load_kw : ℕ
  pub extension_hours_if_shed : Option ℕ
  pub shed_reaches_steady_state : Bool
  pub additional_savings_ngn : Option ℕ
  pub is_charging : Bool
  pub is_balanced : Bool
  pub is_critical : Bool
  pub is_low : Bool
  pub solar_is_on : Bool

-- The assumptions about the user's generator.
pub record Generator : Type 0 where
  pub fuel_type : GeneratorFuelType
  pub price : ℕ
  pub rated_power_kw : ℕ
  pub rate : ℕ

pub record Insights : Type 0 where
  pub reading : InvertersMetrics
  pub rated_capacity_kwh : ℤ
  pub data_age_seconds : ℕ
  pub projection : Projection
  pub generator : Generator

pub data SystemInsights : Type 0 where
  unavailable : String → Option ℕ → SystemInsights
  available : Insights → SystemInsights

-- usableEnergyKwh, of which 10 ^ 8 make a kilowatt-hour.
unfoldable pub usable_energy : ℕ → ℤ → ℕ
usable_energy soc capacity = if ltb_ℤ (pos 0) capacity then (soc - 20000) * pos_part capacity else 0

-- depletionHours !== null
unfoldable pub is_depleting : ℕ → ℕ → ℕ → Bool
is_depleting load solar usable = ltb solar load && ltb 0 usable

abbrev when_depleting : Bool → ℕ → Option ℕ
when_depleting true n = some n
when_depleting false n = none

-- savingsPerHour, in kobo.
unfoldable pub savings_per_hour : ℕ → Generator → ℕ
savings_per_hour net g =
    if ltb 0 g.rated_power_kw && ltb 0 net
    then round_div (net * g.rate * g.price) (10000 * g.rated_power_kw)
    else 0

-- savingsPerHour * depletionHours, which is rounded once; and likewise for the load that is shed.
unfoldable pub savings_at_risk : ℕ → ℕ → Generator → ℕ
savings_at_risk net usable g =
    if ltb 0 g.rated_power_kw && ltb 0 net
    then round_div (net * (g.rate * g.price * usable)) (net * (1000000000 * g.rated_power_kw))
    else 0

unfoldable pub shed_savings : ℕ → ℕ → ℕ → Generator → ℕ
shed_savings excess net usable g =
    if ltb 0 g.rated_power_kw
    then round_div (excess * (g.rate * g.price * usable)) (net * (1000000000 * g.rated_power_kw))
    else 0

unfoldable pub project : ℕ → ℕ → ℕ → ℤ → Generator → Projection
unfolding usable_energy is_depleting savings_per_hour savings_at_risk shed_savings
project soc load solar capacity g =
    let net = load - solar in
    let usable = usable_energy soc capacity in
    let depleting = is_depleting load solar usable in
    record {
      net_discharge_kw = sub_ℕ load solar;
      estimated_depletion_minutes =
          when_depleting depleting (round_div (60 * usable) (100000 * net));
      estimated_depletion_hours =
          when_depleting depleting (round_div (100 * usable) (100000 * net));
      usable_energy_remaining_kwh = round_div usable 100000;
      ngn_at_risk = when_depleting depleting (savings_at_risk net usable g);
      savings_per_hour_ngn = savings_per_hour net g;
      excess_load_to_shed_kw = net;
      target_load_kw = load - net;
      extension_hours_if_shed = none;
      shed_reaches_steady_state = depleting && ltb 0 net;
      additional_savings_ngn =
          when_depleting (depleting && ltb 0 net) (shed_savings net net usable g);
      is_charging = ltb load solar;
      is_balanced = load == solar;
      is_critical = leb soc 20000;
      is_low = ltb 20000 soc && leb soc 35000;
      solar_is_on = ltb 100 solar;
    }

-- The repositories of metrics, inverters and settings, and the clock.
pub record InsightsBackend (W : Type 0) : Type 0 where
  pub now : W → ℕ
  pub find_latest : String → W → Result (Option InvertersMetrics)
  pub find_inverter : String → W → Result (Option Inverter)
  pub find_settings : String → W → Result (Option UserSettings)

abbrev fuel_type_of : Option UserSettings → GeneratorFuelType
fuel_type_of none = pms
fuel_type_of (some s) = s.generator_fuel_type

abbrev or_default : ℕ → Option ℕ → ℕ
or_default d none = d
or_default d (some n) = n

-- settings?.generatorRatedPowerKw ? Number(…) : 2.5, where a decimal is read as a text.
abbrev rated_power_of : Option UserSettings → ℕ
rated_power_of none = 2500
rated_power_of (some s) = or_default 2500 s.generator_rated_power_kw

abbrev price_of : FuelPriceEntry → Option UserSettings → ℕ
price_of e none = e.price_per_litre_naira
price_of e (some s) = or_default e.price_per_litre_naira s.custom_fuel_price_naira

unfoldable pub generator_of : Option UserSettings → Result Generator
unfolding get_latest_fuel_price estimate_fuel_consumption_rate
generator_of settings = elim (get_latest_fuel_price (fuel_type_of settings)) [
  | err e ↦ err e
  | ok entry ↦ ok (record {
    fuel_type = fuel_type_of settings;
    price = price_of entry settings;
    rated_power_kw = rated_power_of settings;
    rate = estimate_fuel_consumption_rate (fuel_type_of settings) (rated_power_of settings);
  })
]

module _ {W : Type 0} (b : InsightsBackend W) where
  -- A reading is not taken after it is read.
  unfoldable pub insights_of : Option InvertersMetrics → Option Inverter → Exec W SystemInsights
  unfolding generator_of project
  insights_of none inverter w = (ok (unavailable "No data available yet." none), w)
  insights_of (some latest) none w = (ok (unavailable "No data available yet." none), w)
  insights_of (some latest) (some inverter) w =
      let age = (b.now w - latest.metric_timestamp) / 1000 in
      if ltb 1200 age
      then (ok (unavailable "Data is too stale to produce reliable projections." (some age)), w)
      else (do
        settings ← query (b.find_settings inverter.user_id)
        g ← query (λ v. generator_of settings)
        pure (
            available (record {
              reading = latest;
              rated_capacity_kwh = inverter.rated_capacity_kwh;
              data_age_seconds = age;
              projection =
                  project latest.battery_soc_percent latest.load_kw latest.solar_gen_kw
                    inverter.rated_capacity_kwh g;
              generator = g;
            })))
          w

  unfoldable pub get_system_insights : String → Exec W SystemInsights
  unfolding insights_of
  get_system_insights inverter_id = do
    latest ← query (b.find_latest inverter_id)
    inverter ← query (b.find_inverter inverter_id)
    insights_of latest inverter
