-- ===== src/Alerts/Detection.antt =====
-- modules/alerts/jobs/alert-detection.job.ts: from a metric on a channel to saved alerts and queued
-- jobs. Log lines are left out.
mod Deferral
mod Once
mod Tests
use intell_api.Prelude.{
  ℕ, ◌+◌, ◌-◌, ◌*◌, ◌%◌, String, Bool, true, false, not, Option, none, some, List, [], ◌∷◌, leb,
  if◌then◌else◌, round_div,
}
use intell_api.Prelude.Int.{ℤ, pos, pos_part, ltb_ℤ}
use intell_api.Prelude.Text.{◌&◌, show, show_milli, show_milli_ℤ, to_fixed2}
use intell_api.Common.Enums.{
  AlertSeverity, critical, severity_eq, AlertType, battery_percentage, solar_gen, power, unresolved,
  ProcessingStatus, brand_lower,
}
use intell_api.Exec.{Exec, ok, pure, query, try_catch, ◌>>=◌, ◌>>◌}
use intell_api.Users.{UserSettings}
use intell_api.Inverters.{Inverter, NormalisedMetric}
use intell_api.Alerts.Entity.{
  Stat, stat, MetaValue, text, stats, DeliveryState, AlertColumns, Alert, AlertJob, dispatch,
  deferred_delivery,
}
use intell_api.Alerts.Backend.{Backend}
use intell_api.Alerts.QuietHours.{
  ClockTime, UtcOffset, convert_to_utc, is_within_quiet_hours, total_minutes,
}
use intell_api.Alerts.Depletion.{DepletionInput, calculate_depletion}
use intell_api.Alerts.Thresholds.{
  should_fire_alert, should_fire_solar_alert, should_fire_high_load_alert,
}
use intell_api.Alerts.Suppression.{is_duplicate}

-- `o ?? d`
abbrev pub or_else {ℓ} : {A : Type ℓ} → Option A → A → A
or_else none d = d
or_else (some a) d = a

abbrev pub threshold_of : Option UserSettings → ℤ
threshold_of none = pos 10000
threshold_of (some s) = or_else s.depletion_threshold (pos 10000)

abbrev pub cooldown_of : Option UserSettings → ℤ
cooldown_of none = pos 15
cooldown_of (some s) = or_else s.alert_cooldown_minutes (pos 15)

abbrev pub utc : UtcOffset
utc = record { negative = false; hours = 0; mins = 0 }

abbrev pub timezone_of : Option UserSettings → UtcOffset
timezone_of none = utc
timezone_of (some s) = or_else s.timezone utc

-- The quiet hours in UTC, if the settings have both ends.
window_between : Option ClockTime → Option ClockTime → UtcOffset → Option (ClockTime × ClockTime)
window_between (some start) (some end) tz = some (convert_to_utc start tz, convert_to_utc end tz)
window_between _ _ tz = none

abbrev pub quiet_window : Option UserSettings → UtcOffset → Option (ClockTime × ClockTime)
unfolding window_between
quiet_window none tz = none
quiet_window (some s) tz = window_between s.quiet_hours_start s.quiet_hours_end tz

-- The end of quiet hours, if delivery waits for it.
pub deferred_until : Option (ClockTime × ClockTime) → AlertSeverity → ℕ → Option ClockTime
deferred_until none severity now = none
deferred_until (some (start, end)) severity now =
    if severity_eq severity critical
    then none
    else if is_within_quiet_hours now start end
    then some end
    else none

-- setUTCHours(endH, endM, 0, 0), and a day later if that is not after now.
unfoldable pub quiet_hours_end_date : ℕ → ClockTime → ℕ
quiet_hours_end_date now end =
    let date = now - now % 86400000 + total_minutes end * 60000 in
    if leb date now then date + 86400000 else date

pub record AlertParams : Type 0 where
  pub inverter : Inverter
  pub settings : Option UserSettings
  pub timezone : UtcOffset
  pub cooldown : ℤ
  pub alert_type : AlertType
  pub severity : AlertSeverity
  pub message : String
  pub metadata : List (String × MetaValue)

unfoldable pub columns_of : AlertParams → ℕ → Bool → AlertColumns
columns_of p now defer_delivery = record {
  user_id = p.inverter.user_id;
  type = p.alert_type;
  platform = brand_lower p.inverter.brand;
  severity = p.severity;
  message = p.message;
  resolution_status = some unresolved;
  triggered_at = now;
  is_active = true;
  delivery_processing_status = ProcessingStatus.pending;
  deliverable = not defer_delivery;
  delivery_status = DeliveryState.pending;
  delivery_channel = none;
  metadata = p.metadata;
}

abbrev is_some {ℓ} : {A : Type ℓ} → Option A → Bool
is_some none = false
is_some (some a) = true

-- The job for a saved alert: at once, or at the end of quiet hours.
unfoldable pub job_for : Alert → Option ClockTime → ℕ → AlertJob
job_for saved none now = dispatch (record {
  alert_id = saved.id;
  user_id = saved.user_id;
  type = saved.type;
  severity = saved.severity;
  message = saved.message;
  channel = "whatsapp";
  dashboard_url = none;
})
job_for saved (some end) now =
    let date = quiet_hours_end_date now end in
    deferred_delivery
      (record { alert_id = saved.id; user_id = saved.user_id; scheduled_for = date }) (date - now)

stat_list : List (String × String) → List Stat
stat_list [] = []
stat_list ((label, value) ∷ rest) = stat label value ∷ stat_list rest

metadata_of : String → String → List (String × String) → List (String × MetaValue)
metadata_of reason title entries =
    ("alertReason", text reason)
    ∷ ("alertTitle", text title)
    ∷ ("stats", stats (stat_list entries))
    ∷ []

time_to_empty : Option ℤ → String
time_to_empty none = "Now"
time_to_empty (some m) =
    if ltb_ℤ (pos 0) m then show (round_div (pos_part m) 1000) & " min" else "Now"

depletion_input : Inverter → NormalisedMetric → DepletionInput
depletion_input inverter metric = record {
  battery_soc_percent = or_else metric.battery_soc (pos 0);
  load_kw = or_else metric.ac_output_power_kw (pos 0);
  battery_capacity_kwh = inverter.rated_capacity_kwh;
  solar_gen_kw = or_else metric.solar_power_kw (pos 0);
  inverter_rated_power_kw = inverter.panel_capacity_kw;
}

base_params :
    Inverter
    → Option UserSettings
    → AlertType
    → AlertSeverity
    → String
    → List (String × MetaValue)
    → AlertParams
base_params inverter settings alert_type severity message metadata = record {
  inverter = inverter;
  settings = settings;
  timezone = timezone_of settings;
  cooldown = cooldown_of settings;
  alert_type = alert_type;
  severity = severity;
  message = message;
  metadata = metadata;
}

-- The alert of each of the three checks, with its metadata.
battery_params : Inverter → Option UserSettings → NormalisedMetric → Option AlertParams
battery_params inverter settings metric =
    let input = depletion_input inverter metric in
    let result = calculate_depletion input (threshold_of settings) in
    let empty_result = calculate_depletion input (pos 0) in
    elim (should_fire_alert result.minutes_until_depletion result.is_charging) [
      | none ↦ none
      | some info ↦ some (
          base_params inverter settings battery_percentage info.severity info.message (
            metadata_of info.message "Battery depletion warning" (
              ("Battery SOC", show_milli_ℤ input.battery_soc_percent & "%")
              ∷ ("Discharge rate", show_milli result.net_discharge_kw & " kW")
              ∷ ("Time to empty", time_to_empty empty_result.minutes_until_depletion)
              ∷ [])))
    ]

solar_params : Inverter → Option UserSettings → NormalisedMetric → Option AlertParams
solar_params inverter settings metric =
    elim (should_fire_solar_alert metric.solar_power_kw inverter.panel_capacity_kw) [
      | none ↦ none
      | some info ↦ some (
          base_params inverter settings solar_gen info.severity info.message (
            metadata_of info.message "Solar underperformance" (
              ("Solar output", to_fixed2 info.solar_power_kw & " kW")
              ∷ ("Panel capacity", show_milli info.panel_capacity_kw & " kW")
              ∷ ("Performance", show info.performance_ratio_percent & "%")
              ∷ [])))
    ]

load_params : Inverter → Option UserSettings → NormalisedMetric → Option AlertParams
load_params inverter settings metric =
    elim (should_fire_high_load_alert metric.ac_output_power_kw inverter.panel_capacity_kw) [
      | none ↦ none
      | some info ↦ some (
          base_params inverter settings power info.severity info.message (
            metadata_of info.message "High load spike" (
              ("Current load", to_fixed2 info.load_kw & " kW")
              ∷ ("Rated capacity", show_milli info.rated_capacity_kw & " kW")
              ∷ ("Load ratio", show info.load_ratio_percent & "%")
              ∷ [])))
    ]

module _ (b : Backend) where
  open b use {World, now, find_inverter, find_settings, insert, enqueue}

  -- After the duplicate check.
  save_and_enqueue : AlertParams → ℕ → Exec World (Unit {0})
  save_and_enqueue p time = do
    let until = deferred_until (quiet_window p.settings p.timezone) p.severity time
    saved ← insert (columns_of p time (is_some until))
    enqueue (job_for saved until time)

  pub save_and_dispatch_alert : AlertParams → Exec World (Unit {0})
  save_and_dispatch_alert p = do
    check ←
        is_duplicate b
          (record { user_id = p.inverter.user_id; type = p.alert_type; severity = p.severity })
          p.cooldown
    if check.is_duplicate
        then pure tt
        else (do time ← query (λ w. ok (now w)); save_and_enqueue p time)

  -- `if (info) { await this.saveAndDispatchAlert(…) }`
  dispatch_if : Option AlertParams → Exec World (Unit {0})
  dispatch_if none = pure tt
  dispatch_if (some p) = save_and_dispatch_alert p

  -- The body of the `try` in evaluateInverter.
  pub evaluate_body : Inverter → NormalisedMetric → Exec World (Unit {0})
  evaluate_body inverter metric = do
    settings ← query (find_settings inverter.user_id)
    dispatch_if (battery_params inverter settings metric)
    dispatch_if (solar_params inverter settings metric)
    dispatch_if (load_params inverter settings metric)

  -- A caught error is only logged.
  pub evaluate_inverter : Inverter → NormalisedMetric → Exec World (Unit {0})
  evaluate_inverter inverter metric = try_catch (evaluate_body inverter metric) (λ _. pure tt)

  pub evaluate_from_metric : NormalisedMetric → Exec World (Unit {0})
  evaluate_from_metric metric = do
    found ← query (find_inverter metric.inverter_id)
    elim found [
      | none ↦ pure tt
      | some inverter ↦ if inverter.is_active then evaluate_inverter inverter metric else pure tt
    ]

  -- handleMetricMessage, with the parser of JSON as a parameter: `none` where it throws. The
  -- evaluation is not awaited, so an error of it reaches no one.
  pub handle_metric_message : (String → Option NormalisedMetric) → String → World → World
  handle_metric_message parse message w = elim (parse message) [
    | none ↦ w
    | some metric ↦ (evaluate_from_metric metric w).1
  ]
