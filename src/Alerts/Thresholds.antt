-- ===== src/Alerts/Thresholds.antt =====
-- modules/alerts/helpers/alert-thresholds.ts. Quantities are in thousandths (of a minute, of a kW);
-- a test of a ratio is multiplied out, exactly.
mod Bands
mod Severity
mod Tests
use intell_api.Prelude.{
  ℕ, ◌*◌, max, String, Bool, Option, none, some, ltb, if◌then◌else◌, round_div,
}
use intell_api.Prelude.Int.{ℤ, pos, pos_part, ltb_ℤ, leb_ℤ}
use intell_api.Prelude.Text.{◌&◌, show, show_milli, to_fixed2}
use intell_api.Common.Enums.{AlertSeverity, warning, critical}

pub record DepletionAlertInfo : Type 0 where
  pub severity : AlertSeverity
  pub message : String
  pub minutes_until_depletion : ℤ

pub record SolarAlertInfo : Type 0 where
  pub severity : AlertSeverity
  pub message : String
  pub solar_power_kw : ℕ
  pub panel_capacity_kw : ℕ
  pub performance_ratio_percent : ℕ

pub record HighLoadAlertInfo : Type 0 where
  pub severity : AlertSeverity
  pub message : String
  pub load_kw : ℕ
  pub rated_capacity_kw : ℕ
  pub load_ratio_percent : ℕ

-- Math.round(minutes), of a positive number of thousandths.
abbrev round_minutes : ℤ → ℕ
round_minutes m = round_div (pos_part m) 1000

pub imminent_message : ℤ → String
imminent_message m =
    "Battery depletion imminent: approximately "
    & show (round_minutes m)
    & " minutes remaining. Consider reducing load or switching to grid."

pub may_deplete_message : ℤ → String
may_deplete_message m =
    "Battery may deplete in approximately "
    & show (round_minutes m)
    & " minutes. Monitor your usage."

-- The tests after the early return, on a number of minutes.
alert_for_minutes : ℤ → Option DepletionAlertInfo
alert_for_minutes m =
    if leb_ℤ m (pos 0)
    then some (record {
      severity = critical;
      message = "Battery has reached the critical depletion threshold. Immediate action required.";
      minutes_until_depletion = pos 0;
    })
    else if ltb_ℤ m (pos 30000)
    then some
        (record { severity = critical; message = imminent_message m; minutes_until_depletion = m })
    else if leb_ℤ m (pos 60000)
    then some (record {
      severity = warning;
      message = may_deplete_message m;
      minutes_until_depletion = m;
    })
    else none

unfoldable pub should_fire_alert : Option ℤ → Bool → Option DepletionAlertInfo
unfolding alert_for_minutes
should_fire_alert none is_charging = none
should_fire_alert (some m) is_charging = if is_charging then none else alert_for_minutes m

-- SOLAR_MIN_ABSOLUTE_KW
abbrev pub solar_min_absolute_kw : ℕ
solar_min_absolute_kw = 100

-- Math.max(SOLAR_MIN_ABSOLUTE_KW, panelCapacityKw * SOLAR_MIN_FRACTION), times 20: the fraction is
-- 0.05, one twentieth.
abbrev pub production_floor_times_20 : ℕ → ℕ
production_floor_times_20 panel = max (solar_min_absolute_kw * 20) panel

pub solar_message : AlertSeverity → ℕ → ℕ → ℕ → String
solar_message critical solar panel percent =
    "Solar output is critically low at "
    & to_fixed2 solar
    & " kW — only "
    & show percent
    & "% of your "
    & show_milli panel
    & " kW panel capacity. Check for hardware faults or complete shading."
solar_message _ solar panel percent =
    "Solar output is below expected levels at "
    & to_fixed2 solar
    & " kW — "
    & show percent
    & "% of your "
    & show_milli panel
    & " kW panel capacity. Panels may be dirty, partially shaded, or degrading."

solar_info : AlertSeverity → ℕ → ℕ → SolarAlertInfo
solar_info severity solar panel =
    let percent = round_div (solar * 100) panel in
    record {
      severity = severity;
      message = solar_message severity solar panel percent;
      solar_power_kw = solar;
      panel_capacity_kw = panel;
      performance_ratio_percent = percent;
    }

-- The tests on a positive output and a positive capacity.
solar_alert : ℕ → ℕ → Option SolarAlertInfo
unfolding solar_info
solar_alert solar panel =
    if ltb (solar * 20) (production_floor_times_20 panel)
    then none
    else if ltb (solar * 100) (panel * 15)
    then some (solar_info critical solar panel)
    else if ltb (solar * 100) (panel * 30)
    then some (solar_info warning solar panel)
    else none

unfoldable pub should_fire_solar_alert : Option ℤ → ℤ → Option SolarAlertInfo
unfolding solar_alert
should_fire_solar_alert none panel = none
should_fire_solar_alert (some solar) panel =
    if leb_ℤ solar (pos 0)
    then none
    else if leb_ℤ panel (pos 0)
    then none
    else solar_alert (pos_part solar) (pos_part panel)

pub load_message : AlertSeverity → ℕ → ℕ → ℕ → String
load_message critical load rated percent =
    "Load is critically high at "
    & to_fixed2 load
    & " kW — "
    & show percent
    & "% of your inverter's "
    & show_milli rated
    & " kW rated capacity. Risk of overload. Reduce consumption immediately."
load_message _ load rated percent =
    "Load is elevated at "
    & to_fixed2 load
    & " kW — "
    & show percent
    & "% of your inverter's "
    & show_milli rated
    & " kW rated capacity. Consider reducing consumption to avoid overload."

load_info : AlertSeverity → ℕ → ℕ → HighLoadAlertInfo
load_info severity load rated =
    let percent = round_div (load * 100) rated in
    record {
      severity = severity;
      message = load_message severity load rated percent;
      load_kw = load;
      rated_capacity_kw = rated;
      load_ratio_percent = percent;
    }

load_alert : ℕ → ℕ → Option HighLoadAlertInfo
unfolding load_info
load_alert load rated =
    if ltb (rated * 95) (load * 100)
    then some (load_info critical load rated)
    else if ltb (rated * 85) (load * 100)
    then some (load_info warning load rated)
    else none

unfoldable pub should_fire_high_load_alert : Option ℤ → ℤ → Option HighLoadAlertInfo
unfolding load_alert
should_fire_high_load_alert none rated = none
should_fire_high_load_alert (some load) rated =
    if leb_ℤ load (pos 0)
    then none
    else if leb_ℤ rated (pos 0)
    then none
    else load_alert (pos_part load) (pos_part rated)
