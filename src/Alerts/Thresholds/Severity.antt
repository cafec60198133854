-- ===== src/Alerts/Thresholds/Severity.antt =====
-- How urgent the depletion alert is, over the depletion estimate.
use intell_api.Prelude.{
  ℕ, ◌+◌, ◌-◌, ◌≤◌, inl, inr, Option-cases, ◌≡◌, Bool, false, Option, none, some, arith,
}
use intell_api.Prelude.Int.{ℤ, pos, pos_part, neg_part}
use intell_api.Common.Enums.{severity_place}
use intell_api.Alerts.Depletion.{DepletionInput, calculate_depletion}
use intell_api.Alerts.Depletion.Bounds.{
  IsNoBetter, calculate_depletion-charging, calculate_depletion_anti, estimate_shape,
}
use intell_api.Alerts.Thresholds.{DepletionAlertInfo, should_fire_alert}

-- 0 without an alert, 1 for a WARNING, 2 for a CRITICAL one.
abbrev pub urgency : Option DepletionAlertInfo → ℕ
urgency none = 0
urgency (some a) = severity_place a.severity - 2

-- The alert of an inverter with these readings.
abbrev pub depletion_alert : DepletionInput → ℤ → Option DepletionAlertInfo
depletion_alert input threshold =
    let r = calculate_depletion input threshold in
    should_fire_alert r.minutes_until_depletion r.is_charging

urgency_anti :
    (m n : ℕ) (b : Bool)
    → n ≤ m
    → urgency (should_fire_alert (some (pos m)) b)
      ≤ urgency (should_fire_alert (some (pos n)) false)
unfolding should_fire_alert
urgency_anti m n b h = ground arith

urgency-none : (b : Bool) → urgency (should_fire_alert none b) ≡ 0
unfolding should_fire_alert
urgency-none b = ground arith

-- Between two states of one battery, less charge, more load, less sun or a higher threshold never
-- lowers the urgency of the depletion alert (none, WARNING, CRITICAL).
pub depletion_alert_anti :
    (i j : DepletionInput) (s t : ℤ)
    → IsNoBetter i j
    → pos_part s + neg_part t ≤ pos_part t + neg_part s
    → urgency (depletion_alert i s) ≤ urgency (depletion_alert j t)
depletion_alert_anti i j s t h le =
    elim (Option-cases (calculate_depletion i s).minutes_until_depletion) [
      | inl e ↦ rw (e, urgency-none) (omega arith)
      | inr (z, e) ↦
          let (m, shape) = estimate_shape i s z e in
          let (n, f, below) = calculate_depletion_anti i j s t m h le (rw (← shape) e) in
          let (_, iff, _) = calculate_depletion-charging j t in
          let awake : (calculate_depletion j t).is_charging ≡ false = ground (arith, f) in
          rw (e, shape, f, awake) (urgency_anti m n (calculate_depletion i s).is_charging below)
    ]
