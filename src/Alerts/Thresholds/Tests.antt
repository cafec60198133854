-- ===== src/Alerts/Thresholds/Tests.antt =====
-- The thresholds at concrete readings.
use intell_api.Prelude.{ℕ, ◌≤◌, arith, refl}
use intell_api.Prelude.Int.{pos}
use intell_api.Alerts.Depletion.{DepletionInput}
use intell_api.Alerts.Thresholds.Severity.{urgency, depletion_alert, depletion_alert_anti}

abbrev reading : ℕ → DepletionInput
reading load = record {
  battery_soc_percent = pos 50000;
  load_kw = pos load;
  battery_capacity_kwh = pos 5000;
  solar_gen_kw = pos 0;
  inverter_rated_power_kw = pos 3000;
}

depletion_alert_anti_example :
    urgency (depletion_alert (reading 1000) (pos 10000))
    ≤ urgency (depletion_alert (reading 9000) (pos 20000))
depletion_alert_anti_example =
    depletion_alert_anti (reading 1000) (reading 9000) (pos 10000) (pos 20000)
      (record { capacity = refl; soc = omega arith; load = omega arith; solar = omega arith })
      (omega arith)
