-- ===== src/Metrics/Health.antt =====
-- modules/inverters-metrics/helpers/health-status.helper.ts. Quantities are in thousandths (of a
-- percent, of a kW); the test against 30% of the panel capacity is multiplied out, exactly;
-- at exactly 30%, the source's product in binary floating point may fall on either side.
pub mod Colours
mod Tests
use intell_api.Prelude.{
  ℕ, ◌+◌, ◌*◌, ◌/◌, ◌%◌, String, Bool, true, false, ◌&&◌, Option, none, some, ltb, leb, ◌==◌,
  if◌then◌else◌,
}
use intell_api.Prelude.Int.{ℤ, pos, negsuc, pos_part, ltb_ℤ, leb_ℤ}
use intell_api.Prelude.Text.{◌&◌, show_milli_ℤ}

pub data HealthStatus : Type 0 where
  green amber red grey : HealthStatus

pub record HealthResult : Type 0 where
  pub status : HealthStatus
  pub reason : String

pub record HealthInput : Type 0 where
  pub soc_percent : Option ℤ
  pub solar_kw : ℤ
  pub panel_capacity_kw : ℤ
  pub system_offline : Bool
  pub local_hour : Option ℕ
  pub critical_soc_threshold : Option ℤ
  pub low_soc_threshold : Option ℤ

abbrev solar_daytime_start_hour : ℕ
solar_daytime_start_hour = 6

abbrev solar_daytime_end_hour : ℕ
solar_daytime_end_hour = 19

unfoldable pub is_daytime : ℕ → Bool
is_daytime local_hour =
    leb solar_daytime_start_hour local_hour && ltb local_hour solar_daytime_end_hour

-- new Date(now + 60 * 60 * 1000).getUTCHours()
wat_hour : ℕ → ℕ
wat_hour now = (now + 3600000) / 3600000 % 24

abbrev or_default {ℓ} : {A : Type ℓ} → Option A → A → A
or_default none a = a
or_default (some x) a = x

-- solarKw === 0
is_zero : ℤ → Bool
is_zero (pos n) = n == 0
is_zero (negsuc n) = false

-- solarKw < panelCapacityKw * 0.3, for a positive capacity.
below_low_threshold : ℤ → ℤ → Bool
below_low_threshold (pos s) panel = ltb (10 * s) (3 * pos_part panel)
below_low_threshold (negsuc s) panel = true

is_solar_low : ℕ → ℤ → ℤ → Bool
unfolding is_daytime below_low_threshold
is_solar_low hour solar panel =
    is_daytime hour && (ltb_ℤ (pos 0) panel && below_low_threshold solar panel)

-- The checks after those that end in RED, on isBatteryLow and isSolarLow.
amber_checks : Bool → Bool → ℤ → HealthResult
amber_checks is_battery_low solar_low low =
    if is_battery_low && solar_low
    then record {
      status = amber;
      reason =
          "Battery is low (≤"
          & show_milli_ℤ low
          & "%) and solar generation is below 30% of panel capacity";
    }
    else if is_battery_low
    then record {
      status = amber;
      reason = "Battery state of charge is low (≤" & show_milli_ℤ low & "%)";
    }
    else if solar_low
    then record { status = amber; reason = "Solar generation is below 30% of panel capacity" }
    else record { status = green; reason = "System operating normally" }

-- The checks of an inverter that is online, on the resolved hour and thresholds.
online_status : Option ℤ → ℤ → ℤ → ℕ → ℤ → ℤ → HealthResult
unfolding is_daytime is_zero is_solar_low amber_checks
online_status none solar panel hour critical low = record {
  status = red;
  reason = "Battery data unavailable";
}
online_status (some soc) solar panel hour critical low =
    if leb_ℤ soc critical
    then record {
      status = red;
      reason = "Battery state of charge is critically low (≤" & show_milli_ℤ critical & "%)";
    }
    else if leb_ℤ soc low && (is_zero solar && is_daytime hour)
    then record {
      status = red;
      reason =
          "Battery is low (≤" & show_milli_ℤ low & "%) with no solar generation during daylight";
    }
    else amber_checks (leb_ℤ soc low) (is_solar_low hour solar panel) low

unfoldable pub compute_health_status : HealthInput → ℕ → HealthResult
unfolding wat_hour online_status
compute_health_status input now =
    let hour = or_default input.local_hour (wat_hour now) in
    if input.system_offline
    then record { status = grey; reason = "Inverter is offline; health status is unavailable" }
    else online_status input.soc_percent input.solar_kw input.panel_capacity_kw hour
        (or_default input.critical_soc_threshold (pos 15000))
        (or_default input.low_soc_threshold (pos 30000))
