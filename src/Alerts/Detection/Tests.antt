-- ===== src/Alerts/Detection/Tests.antt =====
-- The detection job over a back end that keeps its rows in a list, newest first.
use intell_api.Prelude.{
  ℕ, ◌≤◌, ◌<◌, ◌≡◌, refl, true, false, Option, none, some, [], length, round_div, arith,
}
use intell_api.Prelude.Int.{pos}
use intell_api.Common.Enums.{AlertType, growatt, warning}
use intell_api.Exec.{Result, ok}
use intell_api.Inverters.{Inverter, NormalisedMetric}
use intell_api.Alerts.Entity.{Alert}
use intell_api.Alerts.Suppression.{is_unresolved, is_duplicate, judge}
use intell_api.Alerts.Depletion.{calculate_depletion, net_load, safe_soc, depletion_minutes}
use intell_api.Alerts.Thresholds.{
  should_fire_alert, should_fire_solar_alert, should_fire_high_load_alert,
}
use intell_api.Alerts.QuietHours.{ClockTime, utc_minutes, is_within_quiet_hours}
use intell_api.Alerts.Detection.{
  deferred_until, quiet_hours_end_date, evaluate_body, evaluate_inverter, dispatch_if,
  battery_params, solar_params, load_params, save_and_dispatch_alert, save_and_enqueue, columns_of,
  job_for, base_params, depletion_input,
}
use intell_api.Alerts.Detection.Deferral.{deferred_until-end}
use intell_api.Alerts.Detection.Once.Evaluation.{evaluate_inverter_once}
use intell_api.Alerts.Memory.{Memory, memory_backend, memory_laws}

abbrev sample_inverter : Inverter
sample_inverter = record {
  id = "inverter";
  user_id = "owner";
  brand = growatt;
  model = "SPF 5000";
  serial_number = "SN1";
  installation_id = none;
  encrypted_credentials = none;
  is_active = true;
  rated_capacity_kwh = pos 5000;
  panel_capacity_kw = pos 4000;
}

-- Battery at 12%, a load of 3.9 kW of 4 kW, and sun of 0.5 kW: all three checks raise an alert.
abbrev sample_metric : NormalisedMetric
sample_metric = record {
  inverter_id = "inverter";
  inverter_brand = growatt;
  recorded_at = 0;
  inverter_status = "normal";
  solar_power_kw = some (pos 500);
  ac_output_power_kw = some (pos 3900);
  grid_voltage_v = none;
  grid_frequency_hz = none;
  battery_soc = some (pos 12000);
  battery_voltage_v = none;
  battery_current_a = none;
  battery_temperature_c = none;
  battery_time_to_go_min = none;
  inverter_temperature_c = none;
  pv_string1_power_kw = none;
  pv_string2_power_kw = none;
  energy_generated_today_kwh = none;
  total_energy_generated_kwh = none;
  battery_charged_today_kwh = none;
  battery_discharged_today_kwh = none;
  grid_export_today_kwh = none;
  grid_import_today_kwh = none;
}

abbrev empty_memory : Memory
empty_memory = record { time = 1000; rows = []; queue = [] }

nothing_open :
    (t : AlertType) (a : Alert)
    → ◌≡◌ {A = Result (Option Alert)} (ok none) (ok (some a))
    → is_unresolved a.resolution_status ≡ true
nothing_open t a e = cc

evaluation_succeeds :
    (evaluate_body memory_backend sample_inverter sample_metric empty_memory).0 ≡ ok tt
unfolding evaluate_body dispatch_if battery_params solar_params load_params save_and_dispatch_alert
    is_duplicate judge save_and_enqueue deferred_until columns_of job_for base_params
    depletion_input calculate_depletion should_fire_alert should_fire_solar_alert
    should_fire_high_load_alert net_load safe_soc depletion_minutes round_div
evaluation_succeeds = refl

three_alerts :
    length (evaluate_inverter memory_backend sample_inverter sample_metric empty_memory).1.rows ≡ 3
unfolding evaluate_inverter evaluate_body dispatch_if battery_params solar_params load_params
    save_and_dispatch_alert is_duplicate judge save_and_enqueue deferred_until columns_of job_for
    base_params depletion_input calculate_depletion should_fire_alert should_fire_solar_alert
    should_fire_high_load_alert net_load safe_soc depletion_minutes round_div
three_alerts = refl

evaluate_inverter_once_example :
    evaluate_inverter memory_backend sample_inverter sample_metric
      (evaluate_inverter memory_backend sample_inverter sample_metric empty_memory).1
    ≡ (ok tt, (evaluate_inverter memory_backend sample_inverter sample_metric empty_memory).1)
evaluate_inverter_once_example =
    evaluate_inverter_once memory_backend memory_laws sample_inverter sample_metric empty_memory
      nothing_open evaluation_succeeds

-- 22:00 and 06:00, seen at 23:30.
abbrev ten_pm : ClockTime
ten_pm = record { hours = 22; mins = 0 }

abbrev six_am : ClockTime
six_am = record { hours = 6; mins = 0 }

deferred_at_night : deferred_until (some (ten_pm, six_am)) warning 84600000 ≡ some six_am
unfolding deferred_until is_within_quiet_hours utc_minutes
deferred_at_night = refl

deferred_until-end_example :
    let date = quiet_hours_end_date 84600000 six_am in
    ((t : ℕ) → 84600000 ≤ t → t < date → is_within_quiet_hours t ten_pm six_am ≡ true)
    × (is_within_quiet_hours date ten_pm six_am ≡ false)
deferred_until-end_example =
    deferred_until-end ten_pm six_am six_am warning 84600000 (omega arith) (omega arith)
      (omega arith) deferred_at_night
