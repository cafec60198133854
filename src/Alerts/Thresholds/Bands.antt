-- ===== src/Alerts/Thresholds/Bands.antt =====
-- The bands of the three thresholds.
use intell_api.Prelude.{ℕ, ◌*◌, ◌≤◌, ◌<◌, ◌≡◌, ◌↔◌, ◌⊎◌, true, false, Option, none, some, arith}
use intell_api.Prelude.Int.{ℤ, pos}
use intell_api.Common.Enums.{AlertSeverity, warning, critical}
use intell_api.Alerts.Thresholds.{
  DepletionAlertInfo, SolarAlertInfo, HighLoadAlertInfo, should_fire_alert, should_fire_solar_alert,
  should_fire_high_load_alert,
}

abbrev pub depletion_severity : Option DepletionAlertInfo → Option AlertSeverity
depletion_severity none = none
depletion_severity (some a) = some a.severity

abbrev pub solar_severity : Option SolarAlertInfo → Option AlertSeverity
solar_severity none = none
solar_severity (some a) = some a.severity

abbrev pub load_severity : Option HighLoadAlertInfo → Option AlertSeverity
load_severity none = none
load_severity (some a) = some a.severity

-- A depletion alert is raised only for a system that is not charging and has an estimate of m
-- minutes: it is CRITICAL exactly for m < 30, WARNING exactly for 30 ≤ m ≤ 60, and there is none
-- exactly for m > 60. (m is in thousandths, so 30 minutes are 30000.)
pub should_fire_alert_bands :
    (m : ℕ)
    → let s = depletion_severity (should_fire_alert (some (pos m)) false) in
      ((s ≡ some critical) ↔ (m < 30000))
      × ((s ≡ some warning) ↔ ((30000 ≤ m) × (m ≤ 60000)))
      × ((s ≡ none) ↔ (60000 < m))
      × ((o : Option ℤ) → should_fire_alert o true ≡ none)
unfolding should_fire_alert
should_fire_alert_bands m = (ground arith, ground arith, ground arith, λ o. ground arith)

-- For a positive solar output s and a positive panel capacity p: the alert is CRITICAL exactly if s
-- is at least 0.1 kW and a twentieth of p, and below 15% of p; it is WARNING exactly if s is at
-- least 0.1 kW and in the band from 15% to below 30% of p; otherwise there is no alert.
pub should_fire_solar_alert_bands :
    (s p : ℕ)
    → 0 < s
    → 0 < p
    → let r = solar_severity (should_fire_solar_alert (some (pos s)) (pos p)) in
      ((r ≡ some critical) ↔ ((100 ≤ s) × (p ≤ 20 * s) × (100 * s < 15 * p)))
      × ((r ≡ some warning) ↔ ((100 ≤ s) × (15 * p ≤ 100 * s) × (100 * s < 30 * p)))
      × ((r ≡ none) ↔ ((s < 100) ⊎ (20 * s < p) ⊎ (30 * p ≤ 100 * s)))
unfolding should_fire_solar_alert
should_fire_solar_alert_bands s p hs hp = (ground arith, ground arith, ground arith)

-- For a positive load l and a positive rated capacity c: the alert is CRITICAL exactly if l is above
-- 95% of c, WARNING exactly if it is above 85% and at most 95%, and there is none exactly up to 85%.
pub should_fire_high_load_alert_bands :
    (l c : ℕ)
    → 0 < l
    → 0 < c
    → let r = load_severity (should_fire_high_load_alert (some (pos l)) (pos c)) in
      ((r ≡ some critical) ↔ (95 * c < 100 * l))
      × ((r ≡ some warning) ↔ ((85 * c < 100 * l) × (100 * l ≤ 95 * c)))
      × ((r ≡ none) ↔ (100 * l ≤ 85 * c))
unfolding should_fire_high_load_alert
should_fire_high_load_alert_bands l c hl hc = (ground arith, ground arith, ground arith)
