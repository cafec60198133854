-- ===== src/Metrics/Health/Tests.antt =====
-- The health status at concrete readings.
use intell_api.Prelude.{ℕ, ◌*◌, ◌≤◌, ◌<◌, ◌≡◌, ◌↔◌, ◌⊎◌, true, false, Option, none, some, refl}
use intell_api.Prelude.Int.{pos}
use intell_api.Prelude.Text.{show_milli_ℤ}
use intell_api.Metrics.Health.{HealthInput, green, red, grey, compute_health_status}
use intell_api.Metrics.Health.Colours.{online, compute_health_status_bands}

abbrev unreachable : HealthInput
unreachable = record {
  soc_percent = none;
  solar_kw = pos 0;
  panel_capacity_kw = pos 5000;
  system_offline = true;
  local_hour = none;
  critical_soc_threshold = none;
  low_soc_threshold = none;
}

-- A charge of 25% with the default thresholds and no sun, the hour being the clock's.
abbrev dim : HealthInput
dim = record {
  soc_percent = some (pos 25000);
  solar_kw = pos 0;
  panel_capacity_kw = pos 5000;
  system_offline = false;
  local_hour = none;
  critical_soc_threshold = none;
  low_soc_threshold = none;
}

offline_grey : (compute_health_status unreachable 0).status ≡ grey
unfolding compute_health_status
offline_grey = refl

-- 18:00 UTC is 19:00 in Lagos, which is night; 17:00 UTC is 18:00.
night_amber : (compute_health_status dim 64800000).reason ≡ "Battery state of charge is low (≤30%)"
unfolding compute_health_status show_milli_ℤ
night_amber = refl

day_red : (compute_health_status dim 61200000).status ≡ red
unfolding compute_health_status
day_red = refl

abbrev sun : ℕ
sun = 0

abbrev charge : Option ℕ
charge = some 25000

abbrev panel : ℕ
panel = 5000

compute_health_status_bands_example :
    let status = (compute_health_status (online charge sun panel 12 15000 30000) 0).status in
    ((status ≡ red) ↔ (
      (charge ≡ none)
      ⊎ ((n : ℕ) × (charge ≡ some n)
          × ((n ≤ 15000) ⊎ ((n ≤ 30000) × (sun ≡ 0) × (6 ≤ 12) × (12 < 19))))))
    × (((n : ℕ) × (charge ≡ some n)
          × (15000 < n)
          × (30000 < n)
          × ((12 < 6) ⊎ (19 ≤ 12) ⊎ (panel ≡ 0) ⊎ (3 * panel < 10 * sun)))
        → status ≡ green)
    × (status ≡ green
        → (n : ℕ) × (charge ≡ some n)
          × (15000 < n)
          × (30000 < n)
          × ((12 < 6) ⊎ (19 ≤ 12) ⊎ (panel ≡ 0) ⊎ (3 * panel ≤ 10 * sun)))
compute_health_status_bands_example = compute_health_status_bands charge sun panel 12 15000 30000 0
