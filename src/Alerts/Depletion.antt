-- ===== src/Alerts/Depletion.antt =====
-- modules/alerts/helpers/depletion-engine.ts. Quantities are in thousandths (of a percent, a kW, a
-- kWh, a minute) with exact products and quotients, so every rounding of the code is an integer.
pub mod Bounds
mod Tests
use intell_api.Prelude.{
  ℕ, ◌+◌, ◌-◌, ◌*◌, min, Bool, true, false, Option, none, some, ltb, ◌==◌, if◌then◌else◌, round_div,
}
use intell_api.Prelude.Int.{ℤ, pos, pos_part, neg_part}

pub record DepletionInput : Type 0 where
  pub battery_soc_percent : ℤ
  pub load_kw : ℤ
  pub battery_capacity_kwh : ℤ
  pub solar_gen_kw : ℤ
  pub inverter_rated_power_kw : ℤ

pub record DepletionResult : Type 0 where
  pub minutes_until_depletion : Option ℤ
  pub is_charging : Bool
  pub net_discharge_kw : ℕ
  pub threshold_percent : ℤ
  pub used_threshold_percent : ℤ

abbrev pub default_threshold : ℤ
default_threshold = pos 10000

abbrev pub min_meaningful_capacity_kwh : ℕ
min_meaningful_capacity_kwh = 20

-- Math.max(0, x)
abbrev pub at_least_zero : ℤ → ℕ
at_least_zero = pos_part

-- Math.round(x * 100) / 100 of x = a / b thousandths, in thousandths.
unfoldable pub round_hundredths : ℕ → ℕ → ℕ
round_hundredths a b = 10 * round_div (a * 100) (b * 1000)

-- Math.max(0, Math.min(100, input.batterySocPercent))
unfoldable pub safe_soc : DepletionInput → ℕ
safe_soc input = min 100000 (at_least_zero input.battery_soc_percent)

-- Math.max(0, Math.max(0, input.loadKw) - Math.max(0, input.solarGenKw)): `-` stops at 0.
unfoldable pub net_load : DepletionInput → ℕ
net_load input = at_least_zero input.load_kw - at_least_zero input.solar_gen_kw

-- Math.max(0, safeSOC - threshold)
abbrev pub usable_percent : ℕ → ℤ → ℕ
usable_percent soc threshold = soc + neg_part threshold - pos_part threshold

charging : ℤ → DepletionResult
charging threshold = record {
  minutes_until_depletion = none;
  is_charging = true;
  net_discharge_kw = 0;
  threshold_percent = threshold;
  used_threshold_percent = threshold;
}

discharging : ℤ → ℕ → ℕ → DepletionResult
discharging threshold net minutes = record {
  minutes_until_depletion = some (pos minutes);
  is_charging = false;
  net_discharge_kw = round_hundredths net 1;
  threshold_percent = threshold;
  used_threshold_percent = threshold;
}

-- Math.round(minutes * 100) / 100 for minutes = (usable / 100 * capacity) / net * 60. The percent
-- and the capacity are in thousandths, as `net` is: (u / 1000 / 100) * (c / 1000) / (n / 1000).
unfoldable pub depletion_minutes : ℕ → ℕ → ℕ → ℕ
unfolding round_hundredths
depletion_minutes usable capacity net = round_hundredths (usable * capacity * 60) (100 * net)

unfoldable pub calculate_depletion : DepletionInput → ℤ → DepletionResult
unfolding charging discharging
calculate_depletion input threshold =
    let safe_capacity = at_least_zero input.battery_capacity_kwh in
    let net = net_load input in
    let usable = usable_percent (safe_soc input) threshold in
    if safe_capacity == 0
    then if net == 0 then charging threshold else discharging threshold net 0
    else if ltb safe_capacity min_meaningful_capacity_kwh
    then charging threshold
    else if net == 0
    then charging threshold
    else if usable == 0
    then discharging threshold net 0
    else discharging threshold net (depletion_minutes usable safe_capacity net)
